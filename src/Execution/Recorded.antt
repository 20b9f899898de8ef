-- ===== src/Execution/Recorded.antt =====
-- What a report of the loop stands for: observations in the journal, within the signed budgets, for
-- actions in the signed scope.
use software_blueprint_hub.Shared.{
  ℕ, ◌+◌, ◌≤◌, String, ◌≡◌, refl, false, List, [], ◌∷◌, ◌++◌, length, All, arith,
}
use software_blueprint_hub.Execution.{
  ScopedAction, AttemptRecord, ReportStatus, ExecutionReport, Services,
}
use software_blueprint_hub.Execution.Loop.{LoopState, Request, finish}

abbrev pub tokens : List AttemptRecord → ℕ
tokens [] = 0
tokens (r ∷ rs) = r.tokens_used + tokens rs

pub tokens-append :
    (rs : List AttemptRecord) (r : AttemptRecord)
    → tokens (rs ++ (r ∷ [])) ≡ tokens rs + r.tokens_used
tokens-append [] r = omega arith
tokens-append (x ∷ rs) r = omega (arith, tokens-append rs r)

-- The action is what the request allows: of its source and node, and in the scope of its grant. That
-- the source and the node are those of the grant is `IsSigned`, of Execution/Signed.antt.
pub record IsScoped (q : Request) (a : ScopedAction) : Type 0 where
  pub of_project : a.project_id ≡ q.context.project_id
  pub of_repository : a.repository ≡ q.context.repository
  pub of_request : a.request_id ≡ q.request_id
  pub of_node : a.node_id ≡ q.node_id
  pub of_mode : a.mode ≡ q.grant.mode
  pub of_paths : a.allowed_paths ≡ q.grant.allowed_paths
  pub of_head : a.app_head ≡ q.context.app_head
  pub of_files : a.max_files ≡ q.grant.max_files
  pub of_tokens : a.max_token_estimate ≤ q.grant.max_token_estimate

-- The attempts of the actions count up from this number.
abbrev pub IsNumbered : ℕ → List ScopedAction → Type 0
IsNumbered n [] = Unit
IsNumbered n (a ∷ as') = (a.attempt ≡ n) × IsNumbered (n + 1) as'

pub IsNumbered-append :
    (n : ℕ) (actions : List ScopedAction) (a : ScopedAction)
    → IsNumbered n actions
    → a.attempt ≡ n + length actions
    → IsNumbered n (actions ++ (a ∷ []))
IsNumbered-append n [] a k e = (omega arith, tt)
IsNumbered-append n (x ∷ xs) a (here, rest) e =
    (here, IsNumbered-append (n + 1) xs a rest (omega arith))

module _ (v : Services) where
  -- The attempts are in the journal, one for each action that was executed, in order and within
  -- budget.
  pub record IsRecorded (q : Request) (attempts : List AttemptRecord) (w : v.World) : Type 0 where
    pub journaled : v.journal q.request_id w ≡ attempts
    pub executed : length (v.actions q.request_id w) ≡ length attempts
    pub scoped : All (IsScoped q) (v.actions q.request_id w)
    pub numbered : IsNumbered 1 (v.actions q.request_id w)
    pub affordable : tokens attempts ≤ q.grant.max_token_estimate

  pub record IsBounded (q : Request) (r : ExecutionReport) (w : v.World) : Type 0 where
    pub recorded : IsRecorded q r.observations w
    pub counted : r.attempts ≡ length r.observations
    pub no_receipt : r.completion_receipt_issued ≡ false
    pub no_gate : r.quality_gate_passed ≡ false
    pub no_production : r.production_authorized ≡ false

  pub record IsRunning (q : Request) (s : LoopState) (w : v.World) : Type 0 where
    pub recorded : IsRecorded q s.attempts w
    pub spent : tokens s.attempts ≡ s.total_tokens
    pub next : s.next ≡ length s.attempts + 1

  pub finish-IsBounded :
      (q : Request) (attempts : List AttemptRecord) (w : v.World) (status : ReportStatus)
      (reason : String)
      → IsRecorded q attempts w
      → IsBounded q (finish q attempts status reason) w
  finish-IsBounded q attempts w status reason k = record {
    recorded = k;
    counted = refl;
    no_receipt = refl;
    no_gate = refl;
    no_production = refl;
  }
