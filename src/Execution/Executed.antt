-- ===== src/Execution/Executed.antt =====
-- What an execution that returns a report has had: a valid grant, a ready node, a first claim, and
-- bounded work.
use software_blueprint_hub.Shared.{
  ℕ, ◌≤◌, ◌<◌, String, ◌≡◌, refl, ap, inl, inr, Bool, true, false, some, ◌==◌, eq_of_==, leb→le,
  find, Result, ok, err, guard-eq-ok, arith, All, Bool-cases,
}
use software_blueprint_hub.Execution.{
  Grant, WorkflowNode, WorkflowManifest, SourceContext, ExecutionReport, Services,
}
use software_blueprint_hub.Execution.Granted.{
  Trust, valid_grant_shape, stage_allows, is_executable_stage, executable_node, is_within_budget,
  is_timely, pinned_key, is_signed, is_approved_status, is_bound_to, verify_grant,
}
use software_blueprint_hub.Execution.Verified.{
  required-eq-ok, is_timely_sound, executable_node_sound, pinned_key_sound,
}
use software_blueprint_hub.Execution.Loop.{Request}
use software_blueprint_hub.Execution.Gateway.{
  ReadinessPlan, is_ready, request_id, initial_state, request_of, claimed, current, admitted,
  execute_bounded_workflow_node,
}
use software_blueprint_hub.Execution.Recorded.{tokens, IsBounded, IsRunning}
use software_blueprint_hub.Execution.Ready.{IsReady, is_ready-IsReady}
use software_blueprint_hub.Execution.Signed.{IsSigned, All-IsSigned}
use software_blueprint_hub.Execution.Bounds.{run_attempts-IsBounded}

-- What a verified grant holds for its node.
pub record IsGranted (trust : Trust) (g : Grant) (m : WorkflowManifest) (c : SourceContext)
    (now : ℕ) (n : WorkflowNode) : Type 0 where
  pub of_project : g.project_id ≡ c.project_id
  pub of_repository : g.repository ≡ c.repository
  pub of_head : g.app_head ≡ c.app_head
  pub of_canonical : g.canonical_digest ≡ c.canonical_digest
  pub of_policy : g.policy_version ≡ c.policy_version
  pub of_workflow : g.workflow_id ≡ m.workflow_id
  pub of_version : g.workflow_version ≡ m.workflow_version
  pub of_digest : g.workflow_digest ≡ trust.manifest_digest m
  pub of_node : n.id ≡ g.node_id
  pub no_human_gate : n.human_gate ≡ false
  pub executable : is_executable_stage n.stage ≡ true
  pub capable : stage_allows n.stage g.mode ≡ true
  pub within_attempts : g.max_attempts ≤ n.budget.max_attempts
  pub within_files : g.max_files ≤ n.budget.max_files
  pub within_tokens : g.max_token_estimate ≤ n.budget.max_token_estimate
  pub expires : ℕ
  pub expiry_of : trust.parse_time g.expires_at ≡ some expires
  pub live : now < expires
  pub key : String
  pub pinned : trust.public_key_for c.project_id g.issuer_id ≡ some key
  pub signed : is_signed trust g key ≡ true
  pub adopted : trust.adopted c.project_id m.workflow_id g.workflow_digest ≡ true
  pub may_execute : trust.may_execute c.project_id m.workflow_id g.issuer_id ≡ true

-- A grant that is verified for a node is for the project, the repository, the source revision, the
-- policy and the workflow that are given, and for that node, which is no human gate and of an executable
-- stage that allows the mode; its budgets are within the node's; it has not expired; it is signed by
-- the pinned key of its issuer; the workflow is adopted and the issuer may execute it.
pub verify_grant-IsGranted :
    (trust : Trust) (g : Grant) (m : WorkflowManifest) (c : SourceContext) (now : ℕ)
    (n : WorkflowNode)
    → verify_grant trust g m c now ≡ ok n
    → IsGranted trust g m c now n
unfolding verify_grant is_bound_to
verify_grant-IsGranted trust g m c now n h =
    let (_, h₁) = guard-eq-ok (trust.valid_workflow m) _ _ h in
    let (_, h₂) = guard-eq-ok (is_approved_status m.status) _ _ h₁ in
    let (_, h₃) = guard-eq-ok (valid_grant_shape g) _ _ h₂ in
    let (bound, h₄) = guard-eq-ok (is_bound_to trust g m c) _ _ h₃ in
    let (x, node, h₅) =
      required-eq-ok (executable_node (find (λ y. y.id == g.node_id) m.nodes)) _ _ h₄ in
    let (capable, h₆) = guard-eq-ok (stage_allows x.stage g.mode) _ _ h₅ in
    let (within, h₇) = guard-eq-ok (is_within_budget g x) _ _ h₆ in
    let (timely, h₈) =
      guard-eq-ok (is_timely now (trust.parse_time g.issued_at) (trust.parse_time g.expires_at)) _ _
        h₇ in
    let (key, pinned, h₉) =
      required-eq-ok (pinned_key trust (trust.public_key_for c.project_id g.issuer_id)) _ _ h₈ in
    let (signed, k) = guard-eq-ok (is_signed trust g key) _ _ h₉ in
    let (adopted, k₁) =
      guard-eq-ok (trust.adopted c.project_id m.workflow_id g.workflow_digest) _ _ k in
    let (may, k₂) = guard-eq-ok (trust.may_execute c.project_id m.workflow_id g.issuer_id) _ _ k₁ in
    let (id_same, gate, stage) = executable_node_sound (λ y. y.id == g.node_id) m.nodes x node in
    let (e, expiry_of, live) = is_timely_sound now _ _ timely in
    let same : x ≡ n = ground arith in
    rw (← same) (record {
      of_project = eq_of_== g.project_id c.project_id (ground arith);
      of_repository = eq_of_== g.repository c.repository (ground arith);
      of_head = eq_of_== g.app_head c.app_head (ground arith);
      of_canonical = eq_of_== g.canonical_digest c.canonical_digest (ground arith);
      of_policy = eq_of_== g.policy_version c.policy_version (ground arith);
      of_workflow = eq_of_== g.workflow_id m.workflow_id (ground arith);
      of_version = eq_of_== g.workflow_version m.workflow_version (ground arith);
      of_digest = eq_of_== g.workflow_digest (trust.manifest_digest m) (ground arith);
      of_node = eq_of_== x.id g.node_id id_same;
      no_human_gate = gate;
      executable = stage;
      capable = capable;
      within_attempts = leb→le g.max_attempts x.budget.max_attempts (ground arith);
      within_files = leb→le g.max_files x.budget.max_files (ground arith);
      within_tokens = leb→le g.max_token_estimate x.budget.max_token_estimate (ground arith);
      expires = e;
      expiry_of = expiry_of;
      live = live;
      key = key;
      pinned = pinned_key_sound trust _ key pinned;
      signed = signed;
      adopted = adopted;
      may_execute = may;
    })

module _ (sha256_hex : String → String) (trust : Trust) (v : Services) where
  initial-IsRunning :
      (q : Request) (w : v.World)
      → (v.claim q.request_id q.grant.expires_at w).0 ≡ true
      → IsRunning v q initial_state (v.claim q.request_id q.grant.expires_at w).1
  initial-IsRunning q w first =
      let none_executed = v.actions-claim q.request_id q.grant.expires_at w first in
      record {
        recorded = record {
          journaled = v.journal-claim q.request_id q.grant.expires_at w first;
          executed = rw none_executed refl;
          scoped = rw none_executed tt;
          numbered = rw none_executed tt;
          affordable = omega arith;
        };
        spent = refl;
        next = refl;
      }

  claimed_sound :
      (q : Request) (w w' : v.World) (r : ExecutionReport)
      → claimed sha256_hex trust v q (v.claim q.request_id q.grant.expires_at w) ≡ (ok r, w')
      → ((v.claim q.request_id q.grant.expires_at w).0 ≡ true)
        × IsBounded v q r w'
        × (r.attempts ≤ q.grant.max_attempts)
  claimed_sound q w w' r h = elim (Bool-cases (v.claim q.request_id q.grant.expires_at w).0) [
    | inl e ↦
        let (bounded, few) =
          run_attempts-IsBounded v q.grant.max_attempts q initial_state _ w' r
            (initial-IsRunning q w e) (rw e at h) in
        (e, bounded, omega (arith, few))
    | inr e ↦ let thrown = ap (λ x. x.0) (rw e at h) in cc
  ]

  current_sound :
      (q : Request) (fresh : Bool) (w w' : v.World) (r : ExecutionReport)
      → current sha256_hex trust v q (fresh, w) ≡ (ok r, w')
      → (fresh ≡ true)
        × ((v.claim q.request_id q.grant.expires_at w).0 ≡ true)
        × IsBounded v q r w'
        × (r.attempts ≤ q.grant.max_attempts)
  current_sound q false w w' r h = let thrown = ap (λ x. x.0) h in cc
  current_sound q true w w' r h =
      let (first, bounded, few) = claimed_sound q w w' r h in (refl, first, bounded, few)

  -- What an execution has had at the world in which its grant was verified.
  pub record IsExecuted (g : Grant) (m : WorkflowManifest) (c : SourceContext) (p : ReadinessPlan)
      (w w' : v.World) (r : ExecutionReport) (n : WorkflowNode) : Type 0 where
    pub ready : IsReady trust p m c n
    pub fresh : (v.assert_current w).0 ≡ true
    pub first :
        (v.claim
          (request_of sha256_hex trust v g c n).request_id
          g.expires_at
          (v.assert_current w).1).0
        ≡ true
    pub bounded : IsBounded v (request_of sha256_hex trust v g c n) r w'
    pub few_attempts : r.attempts ≤ g.max_attempts

  admitted_sound :
      (g : Grant) (m : WorkflowManifest) (c : SourceContext) (p : ReadinessPlan)
      (o : Result WorkflowNode) (w w' : v.World) (r : ExecutionReport)
      → admitted sha256_hex trust v g m c p o w ≡ (ok r, w')
      → (n : WorkflowNode) × (o ≡ ok n) × IsExecuted g m c p w w' r n
  admitted_sound g m c p (err thrown) w w' r h = let thrown_too = ap (λ x. x.0) h in cc
  admitted_sound g m c p (ok n) w w' r h = elim (Bool-cases (is_ready sha256_hex trust v p m c n)) [
    | inl e ↦
        let (fresh, first, bounded, few) =
          current_sound (request_of sha256_hex trust v g c n) (v.assert_current w).0
            (v.assert_current w).1 w' r (rw e at h) in
        (
          n,
          refl,
          record {
            ready = is_ready-IsReady sha256_hex trust v p m c n e;
            fresh = fresh;
            first = first;
            bounded = bounded;
            few_attempts = few;
          },
        )
    | inr e ↦ let thrown = ap (λ x. x.0) (rw e at h) in cc
  ]

  -- When `executeBoundedWorkflowNode` returns a report, its grant was verified for a node that the
  -- readiness plan, made without writing for this workflow and source, lists as ready and holds
  -- available; the source was current and the request was claimed for the first time; the
  -- observations of the report are exactly what the journal holds, one for each action that was
  -- executed; the actions are numbered from one, and each is for the project, the repository, the
  -- source revision and the node that the grant signs, in its mode, on its paths and within its
  -- budgets; there are at most as many attempts, and tokens in sum, as the grant and the node's
  -- budget allow; and the report certifies nothing.
  pub execute_sound :
      (g : Grant) (m : WorkflowManifest) (c : SourceContext) (p : ReadinessPlan) (w w' : v.World)
      (r : ExecutionReport)
      → execute_bounded_workflow_node sha256_hex trust v g m c p w ≡ (ok r, w')
      → (n : WorkflowNode) × IsGranted trust g m c (v.clock w).0 n
        × IsExecuted g m c p (v.clock w).1 w' r n
        × All (IsSigned g) (v.actions (request_id sha256_hex trust v g) w')
        × (r.attempts ≤ n.budget.max_attempts)
        × (tokens r.observations ≤ n.budget.max_token_estimate)
  unfolding execute_bounded_workflow_node
  execute_sound g m c p w w' r h =
      let (n, verified, done) =
        admitted_sound g m c p (verify_grant trust g m c (v.clock w).0) (v.clock w).1 w' r h in
      let granted = verify_grant-IsGranted trust g m c (v.clock w).0 n verified in
      (
        n,
        granted,
        done,
        All-IsSigned (request_of sha256_hex trust v g c n) _ granted.of_project
            granted.of_repository granted.of_head granted.of_node done.bounded.recorded.scoped,
        omega (arith, done.few_attempts, granted.within_attempts),
        omega (arith, done.bounded.recorded.affordable, granted.within_tokens),
      )
