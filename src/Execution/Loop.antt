-- ===== src/Execution/Loop.antt =====
-- The loop of `executeBoundedWorkflowNode`: attempts by the runner, each recorded in the journal
-- before the next.
use software_blueprint_hub.Shared.{
  ℕ, zero, suc, ◌+◌, ◌-◌, String, Bool, true, false, ◌&&◌, ◌||◌, Option, none, some, List, [], ◌∷◌,
  ◌++◌, ◌==◌, if◌then◌else◌, leb, all, any, length, includes, Result, ok, err,
}
use software_blueprint_hub.Shared.Text.{is_sha256}
use software_blueprint_hub.Execution.{
  Grant, SourceContext, ScopedAction, ResultOutcome, succeeded, failed, AttemptResult,
  RecordOutcome, observed, invalid_result, runner_error, AttemptRecord, ReportStatus,
  submitted_for_verification, stopped, needs_new_evidence, ExecutionReport, Services,
}
use software_blueprint_hub.Execution.Texts.{valid_path, is_under, is_evidence_reference}

-- `validResult`, past the types of the fields.
unfoldable pub valid_result : AttemptResult → Grant → Bool
unfolding valid_path is_under is_evidence_reference
valid_result r g =
    is_sha256 r.observation_digest
    && leb 1 (length r.evidence_references)
    && leb (length r.evidence_references) 30
    && all is_evidence_reference r.evidence_references
    && leb (length r.files_touched) g.max_files
    && all
        (λ path.
          valid_path path
          && any (λ allowed. (path == allowed) || is_under path allowed) g.allowed_paths)
        r.files_touched
    && leb r.tokens_used g.max_token_estimate

-- The variables of the loop: `attempts`, `fingerprints`, `totalTokens` and `i`.
pub record LoopState : Type 0 where
  pub attempts : List AttemptRecord
  pub fingerprints : List String
  pub total_tokens : ℕ
  pub next : ℕ

-- A record without an observation.
abbrev pub failure_record : ℕ → RecordOutcome → AttemptRecord
failure_record i outcome = record {
  attempt = i;
  outcome = outcome;
  observation_digest = none;
  evidence_references = [];
  files_touched = [];
  tokens_used = 0;
}

abbrev pub result_record : ℕ → AttemptResult → AttemptRecord
result_record i r = record {
  attempt = i;
  outcome = observed r.outcome;
  observation_digest = some r.observation_digest;
  evidence_references = r.evidence_references;
  files_touched = r.files_touched;
  tokens_used = r.tokens_used;
}

abbrev pub has_succeeded : ResultOutcome → Bool
has_succeeded succeeded = true
has_succeeded failed = false

-- How an iteration ends: the function returns or throws, or the loop goes on.
pub data Turn : Type 0 where
  stop : Result ExecutionReport → Turn
  again : LoopState → Turn

-- What an iteration has executed so far stays fixed for its later steps.
pub record Request : Type 0 where
  pub grant : Grant
  pub context : SourceContext
  pub request_id : String
  pub node_id : String
  pub expires : ℕ

-- `finish`
abbrev pub finish : Request → List AttemptRecord → ReportStatus → String → ExecutionReport
finish q attempts status reason = record {
  status = status;
  request_id = q.request_id;
  node_id = q.node_id;
  attempts = length attempts;
  reason = reason;
  observations = attempts;
  completion_receipt_issued = false;
  quality_gate_passed = false;
  production_authorized = false;
}

abbrev pub action_of : Request → LoopState → ScopedAction
action_of q s = record {
  request_id = q.request_id;
  project_id = q.context.project_id;
  repository = q.context.repository;
  app_head = q.context.app_head;
  node_id = q.node_id;
  mode = q.grant.mode;
  allowed_paths = q.grant.allowed_paths;
  max_files = q.grant.max_files;
  max_token_estimate = q.grant.max_token_estimate - s.total_tokens;
  attempt = s.next;
}

-- The state once the record of a failed attempt is appended.
abbrev pub observed_state : LoopState → AttemptResult → LoopState
observed_state s r = record {
  attempts = s.attempts ++ (result_record s.next r ∷ []);
  fingerprints = r.observation_digest ∷ s.fingerprints;
  total_tokens = s.total_tokens + r.tokens_used;
  next = s.next + 1;
}

-- The end of an iteration, from `if (result.outcome === "succeeded")`.
unfoldable pub conclude : Request → LoopState → AttemptResult → Turn
conclude q s r =
    let after = observed_state s r in
    if has_succeeded r.outcome
    then stop (
        ok (
          finish q after.attempts submitted_for_verification
            "Runner reported success; separate signed evidence verification required"))
    else if includes s.fingerprints r.observation_digest
    then stop (
        ok (
          finish q after.attempts needs_new_evidence
            "Same failure fingerprint repeated; stop bounded loop"))
    else if leb q.grant.max_token_estimate after.total_tokens
    then stop (ok (finish q after.attempts stopped "Token budget exhausted"))
    else again after

module _ (v : Services) where
  -- `await journal.append(requestId, record)`, and what follows it.
  abbrev pub then_turn : Result (Unit {0}) × v.World → Turn → Turn × v.World
  then_turn (err thrown, w) turn = (stop (err thrown), w)
  then_turn (ok done, w) turn = (turn, w)

  -- The record of an attempt that ends the loop at once.
  abbrev pub give_up : Request → LoopState → RecordOutcome → String → v.World → Turn × v.World
  give_up q s outcome reason w =
      let r = failure_record s.next outcome in
      then_turn (v.append q.request_id r w)
        (stop (ok (finish q (s.attempts ++ (r ∷ [])) stopped reason)))

  -- `!validResult(result, grant) || result.tokensUsed > grant.maxTokenEstimate - totalTokens`,
  -- negated.
  abbrev pub is_acceptable : Request → LoopState → AttemptResult → Bool
  is_acceptable q s r =
      valid_result r q.grant && leb r.tokens_used (q.grant.max_token_estimate - s.total_tokens)

  unfoldable pub settle : Request → LoopState → Option AttemptResult × v.World → Turn × v.World
  settle q s (none, w) =
      give_up q s runner_error "Runner error; no verified observation to justify retry" w
  settle q s (some r, w) =
      if is_acceptable q s r
      then then_turn (v.append q.request_id (result_record s.next r) w) (conclude q s r)
      else give_up q s invalid_result "Runner report violates path, evidence or budget contract" w

  abbrev pub proceed : Request → LoopState → Bool × v.World → Turn × v.World
  proceed q s (false, w) = (
    stop (
        ok
          (finish q s.attempts stopped "Canonical source or repository HEAD changed; reauthorize")),
    w,
  )
  proceed q s (true, w) = settle q s (v.execute (action_of q s) w)

  abbrev pub start : Request → LoopState → ℕ × v.World → Turn × v.World
  start q s (now, w) =
      if leb q.expires now
      then (stop (ok (finish q s.attempts stopped "Grant expired before next action")), w)
      else proceed q s (v.assert_current w)

  -- One iteration.
  unfoldable pub turn : Request → LoopState → v.World → Turn × v.World
  turn q s w = start q s (v.clock w)

  abbrev pub exhausted : Request → LoopState → ExecutionReport
  exhausted q s =
      finish q s.attempts stopped
        "Maximum authorized attempts exhausted; no successful verified outcome"

  -- The function returns or throws, or the next iterations follow.
  abbrev pub continue :
      (LoopState → v.World → Result ExecutionReport × v.World)
      → Turn
      → v.World
      → Result ExecutionReport × v.World
  continue rest (stop r) w = (r, w)
  continue rest (again s) w = rest s w

  -- The loop, with the number of iterations that are left.
  unfoldable pub run_attempts : ℕ → Request → LoopState → v.World → Result ExecutionReport × v.World
  run_attempts zero q s w = (ok (exhausted q s), w)
  run_attempts (suc left) q s w = let (t, w') = turn q s w in continue (run_attempts left q) t w'
