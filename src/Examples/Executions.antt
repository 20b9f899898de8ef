-- ===== src/Examples/Executions.antt =====
-- An execution on services in memory: a runner that succeeds at once.
use software_blueprint_hub.Shared.{
  ℕ, ◌+◌, ◌≤◌, String, ◌≡◌, refl, Bool, true, false, ◌&&◌, Option, none, some, List, [], ◌∷◌, ◌++◌,
  ◌==◌, if◌then◌else◌, is_empty, arith, Result, ok, err, and_parts, All,
}
use software_blueprint_hub.Shared.Text.{number}
use software_blueprint_hub.Execution.{
  inspect_scoped, plan, Grant, WorkflowNode, approved_status, WorkflowManifest, SourceContext,
  ScopedAction, succeeded, stopped, AttemptResult, AttemptRecord, ExecutionReport, Services,
}
use software_blueprint_hub.Execution.Granted.{Trust, verify_grant}
use software_blueprint_hub.Execution.Gateway.{ReadinessPlan, execute_bounded_workflow_node}
use software_blueprint_hub.Execution.Loop.{finish}
use software_blueprint_hub.Execution.Recorded.{tokens}
use software_blueprint_hub.Execution.Signed.{IsSigned}
use software_blueprint_hub.Execution.Executed.{
  IsGranted, IsExecuted, verify_grant-IsGranted, execute_sound,
}
use software_blueprint_hub.Examples.Tables.{returned}
use software_blueprint_hub.Examples.Amendments.{revision, digest}
use software_blueprint_hub.Examples.Attestations.{constant_hex}

-- The journal and the executed actions of one request.
abbrev Log : Type 0
Log = List AttemptRecord × List ScopedAction

abbrev outcome : AttemptResult
outcome = record {
  outcome = succeeded;
  observation_digest = digest;
  evidence_references = "github:run/1" ∷ [];
  files_touched = "docs/plan.md" ∷ [];
  tokens_used = 10;
}

abbrev claim_log : Log → Bool × Log
claim_log ([], []) = (true, ([], []))
claim_log (r ∷ rs, done) = (false, (r ∷ rs, done))
claim_log ([], a ∷ done) = (false, ([], a ∷ done))

claimed_journal : (w : Log) → (claim_log w).0 ≡ true → (claim_log w).1.0 ≡ []
claimed_journal ([], []) h = refl
claimed_journal (r ∷ rs, done) h = cc
claimed_journal ([], a ∷ done) h = cc

claimed_actions : (w : Log) → (claim_log w).0 ≡ true → (claim_log w).1.1 ≡ []
claimed_actions ([], []) h = refl
claimed_actions (r ∷ rs, done) h = cc
claimed_actions ([], a ∷ done) h = cc

abbrev services : Services
services = record {
  World = Log;
  clock = λ w. (500, w);
  assert_current = λ w. (true, w);
  execute = λ a w. (some outcome, (w.0, w.1 ++ (a ∷ [])));
  claim = λ k e w. claim_log w;
  append = λ k r w. (ok tt, (w.0 ++ (r ∷ []), w.1));
  journal = λ k w. w.0;
  actions = λ k w. w.1;
  journal-clock = λ k w. refl;
  journal-assert_current = λ k w. refl;
  journal-execute = λ k a w. refl;
  journal-claim = λ k e w. claimed_journal w;
  journal-append = λ k r w h. refl;
  actions-clock = λ k w. refl;
  actions-assert_current = λ k w. refl;
  actions-execute = λ a w. refl;
  actions-claim = λ k e w. claimed_actions w;
  actions-append = λ k r w. refl;
}

abbrev trust : Trust
unfolding number
trust = record {
  as_number = λ cs. some (number cs);
  parse_time = λ s. if s == "2026-01-02T03:00:00Z" then some 0 else some 1000;
  valid_workflow = λ m. true;
  manifest_digest = λ m. digest;
  public_key_for = λ project issuer. some "key";
  verify_signature = λ key payload signature. true;
  adopted = λ project workflow d. true;
  may_execute = λ project workflow issuer. true;
}

abbrev grant : Grant
grant = record {
  schema_version = "1.0.0";
  project_id = "hub";
  repository = "owner/hub";
  workflow_id = "flow";
  workflow_version = "1.0.0";
  workflow_digest = digest;
  template_id = "template";
  node_id = "plan";
  app_head = revision;
  canonical_digest = digest;
  policy_version = "1.3.0";
  issuer_id = "owner";
  nonce = "0123456789abcdef0123456789abcdef";
  issued_at = "2026-01-02T03:00:00Z";
  expires_at = "2026-01-02T03:30:00Z";
  mode = inspect_scoped;
  allowed_paths = "docs" ∷ [];
  max_attempts = 2;
  max_files = 1;
  max_token_estimate = 100;
  signature =
      "AAAAAAAAAAAAAAAAAAAAAAAAAAAAAAAAAAAAAAAAAAAAAAAAAAAAAAAAAAAAAAAAAAAAAAAAAAAAAAAAAAAAAA==";
}

abbrev node : WorkflowNode
node = record {
  id = "plan";
  stage = plan;
  budget = record { max_attempts = 3; max_files = 2; max_token_estimate = 200 };
  human_gate = false;
}

abbrev manifest : WorkflowManifest
manifest = record {
  workflow_id = "flow";
  workflow_version = "1.0.0";
  status = approved_status;
  template_id = "template";
  project_id = "hub";
  project_repo = "owner/hub";
  constitution_min_version = "1.2.9";
  nodes = node ∷ [];
}

abbrev context : SourceContext
context = record {
  project_id = "hub";
  repository = "owner/hub";
  app_head = revision;
  canonical_digest = digest;
  policy_version = "1.3.0";
}

abbrev readiness : ReadinessPlan
readiness = record {
  workflow_id = "flow";
  workflow_version = "1.0.0";
  workflow_digest = digest;
  app_head = revision;
  canonical_digest = digest;
  policy_version = "1.3.0";
  ready_node_ids = "plan" ∷ [];
  nodes = record { id = "plan"; is_available = true } ∷ [];
  read_only = true;
}

verify_grant-IsGranted_example : IsGranted trust grant manifest context 500 node
unfolding verify_grant trust software_blueprint_hub.Execution.Granted.valid_grant_shape
    software_blueprint_hub.Shared.Text.is_sha256 software_blueprint_hub.Shared.Text.is_git_sha
    software_blueprint_hub.Execution.Granted.is_bound_to
    software_blueprint_hub.Execution.Granted.stage_allows
verify_grant-IsGranted_example = verify_grant-IsGranted trust grant manifest context 500 node refl

abbrev nothing : ExecutionReport
nothing =
    finish (record { grant = grant; context = context; request_id = ""; node_id = ""; expires = 0 })
      [] stopped ""

abbrev executed : ExecutionReport × Log
unfolding execute_bounded_workflow_node
executed =
    let (result, w) =
      execute_bounded_workflow_node constant_hex trust services grant manifest context readiness
        ([], []) in
    (returned result nothing, w)

execute_sound_example :
    (n : WorkflowNode) × IsGranted trust grant manifest context 500 n
    × IsExecuted constant_hex trust services grant manifest context readiness
        ([], [])
        executed.1
        executed.0
        n
    × All (IsSigned grant) (executed.1.1)
    × (executed.0.attempts ≤ n.budget.max_attempts)
    × (tokens executed.0.observations ≤ n.budget.max_token_estimate)
unfolding execute_bounded_workflow_node verify_grant trust
    software_blueprint_hub.Execution.Granted.valid_grant_shape
    software_blueprint_hub.Shared.Text.is_sha256 software_blueprint_hub.Shared.Text.is_git_sha
    software_blueprint_hub.Execution.Granted.is_bound_to
    software_blueprint_hub.Execution.Granted.stage_allows
    software_blueprint_hub.Execution.Loop.run_attempts software_blueprint_hub.Execution.Loop.turn
    software_blueprint_hub.Execution.Loop.settle software_blueprint_hub.Execution.Loop.valid_result
    software_blueprint_hub.Execution.Loop.conclude
execute_sound_example =
    execute_sound constant_hex trust services grant manifest context readiness ([], []) executed.1
      executed.0 refl
