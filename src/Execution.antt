-- ===== src/Execution.antt =====
-- The records of the bounded execution gateway, and the services that it asks:
-- packages/application/src/prompt-workflow-execution.ts, with the fields of
-- packages/application/src/prompt-workflow-core.d.mts that it reads.
pub mod Texts
pub mod Granted
pub mod Loop
pub mod Gateway
pub mod Recorded
pub mod Bounds
pub mod Ready
pub mod Signed
pub mod Verified
pub mod Executed
use software_blueprint_hub.Shared.{
  ℕ, String, ◌≡◌, Bool, true, false, Option, none, some, List, [], ◌∷◌, ◌++◌, Result, ok,
}

pub data ExecutionMode : Type 0 where
  inspect_scoped edit_scoped test_scoped : ExecutionMode

pub data Stage : Type 0 where
  discover specify design plan implement test review release learn : Stage

-- `WorkflowExecutionGrant`; its schema version and its types are checked where it is parsed.
pub record Grant : Type 0 where
  pub schema_version : String
  pub project_id : String
  pub repository : String
  pub workflow_id : String
  pub workflow_version : String
  pub workflow_digest : String
  pub template_id : String
  pub node_id : String
  pub app_head : String
  pub canonical_digest : String
  pub policy_version : String
  pub issuer_id : String
  pub nonce : String
  pub issued_at : String
  pub expires_at : String
  pub mode : ExecutionMode
  pub allowed_paths : List String
  pub max_attempts : ℕ
  pub max_files : ℕ
  pub max_token_estimate : ℕ
  pub signature : String

pub record Budget : Type 0 where
  pub max_attempts : ℕ
  pub max_files : ℕ
  pub max_token_estimate : ℕ

pub record WorkflowNode : Type 0 where
  pub id : String
  pub stage : Stage
  pub budget : Budget
  pub human_gate : Bool

pub data WorkflowStatus : Type 0 where
  candidate_status approved_status deprecated_status : WorkflowStatus

pub record WorkflowManifest : Type 0 where
  pub workflow_id : String
  pub workflow_version : String
  pub status : WorkflowStatus
  pub template_id : String
  pub project_id : String
  pub project_repo : String
  pub constitution_min_version : String
  pub nodes : List WorkflowNode

-- `NodeSourceContext`
pub record SourceContext : Type 0 where
  pub project_id : String
  pub repository : String
  pub app_head : String
  pub canonical_digest : String
  pub policy_version : String

pub record ScopedAction : Type 0 where
  pub request_id : String
  pub project_id : String
  pub repository : String
  pub app_head : String
  pub node_id : String
  pub mode : ExecutionMode
  pub allowed_paths : List String
  pub max_files : ℕ
  pub max_token_estimate : ℕ
  pub attempt : ℕ

pub data ResultOutcome : Type 0 where
  succeeded failed : ResultOutcome

pub record AttemptResult : Type 0 where
  pub outcome : ResultOutcome
  pub observation_digest : String
  pub evidence_references : List String
  pub files_touched : List String
  pub tokens_used : ℕ

pub data RecordOutcome : Type 0 where
  observed : ResultOutcome → RecordOutcome
  invalid_result runner_error : RecordOutcome

pub record AttemptRecord : Type 0 where
  pub attempt : ℕ
  pub outcome : RecordOutcome
  pub observation_digest : Option String
  pub evidence_references : List String
  pub files_touched : List String
  pub tokens_used : ℕ

pub data ReportStatus : Type 0 where
  submitted_for_verification stopped needs_new_evidence : ReportStatus

-- `WorkflowExecutionReport`
pub record ExecutionReport : Type 0 where
  pub status : ReportStatus
  pub request_id : String
  pub node_id : String
  pub attempts : ℕ
  pub reason : String
  pub observations : List AttemptRecord
  pub completion_receipt_issued : Bool
  pub quality_gate_passed : Bool
  pub production_authorized : Bool

-- The outside world: the clock, `freshness.assertCurrent` (whether it returns), the runner (none when
-- it throws) and the journal. `journal` and `actions` are what was appended and executed for a
-- request; they only record what the operations do. A request whose claim succeeds is claimed for
-- the first time, so that nothing was appended or executed for it.
pub record Services : Type 1 where
  pub World : Type 0
  pub clock : World → ℕ × World
  pub assert_current : World → Bool × World
  pub execute : ScopedAction → World → Option AttemptResult × World
  pub claim : String → String → World → Bool × World
  pub append : String → AttemptRecord → World → Result (Unit {0}) × World
  pub journal : String → World → List AttemptRecord
  pub actions : String → World → List ScopedAction
  pub journal-clock : (k : String) (w : World) → journal k (clock w).1 ≡ journal k w
  pub journal-assert_current :
      (k : String) (w : World) → journal k (assert_current w).1 ≡ journal k w
  pub journal-execute :
      (k : String) (a : ScopedAction) (w : World) → journal k (execute a w).1 ≡ journal k w
  pub journal-claim :
      (k e : String) (w : World) → (claim k e w).0 ≡ true → journal k (claim k e w).1 ≡ []
  pub journal-append :
      (k : String) (r : AttemptRecord) (w : World)
      → (append k r w).0 ≡ ok tt
      → journal k (append k r w).1 ≡ journal k w ++ (r ∷ [])
  pub actions-clock : (k : String) (w : World) → actions k (clock w).1 ≡ actions k w
  pub actions-assert_current :
      (k : String) (w : World) → actions k (assert_current w).1 ≡ actions k w
  pub actions-execute :
      (a : ScopedAction) (w : World)
      → actions a.request_id (execute a w).1 ≡ actions a.request_id w ++ (a ∷ [])
  pub actions-claim :
      (k e : String) (w : World) → (claim k e w).0 ≡ true → actions k (claim k e w).1 ≡ []
  pub actions-append :
      (k : String) (r : AttemptRecord) (w : World) → actions k (append k r w).1 ≡ actions k w
