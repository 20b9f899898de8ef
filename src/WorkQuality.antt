-- ===== src/WorkQuality.antt =====
-- Work packages and quality gates: the records of packages/contracts/src/generated/vertical-slice.ts.
-- Of the metadata of a record only its version is read.
pub mod Dependencies
pub mod Fit
pub mod Acyclic
pub mod Readiness
pub mod Gates
pub mod Store
pub mod Service
pub mod Graph
pub mod Stale
pub mod Passed
pub mod History
use software_blueprint_hub.Shared.{ℕ, String, List, Bool, true, false}

pub data PackageStatus : Type 0 where
  planned blocked ready in_progress : PackageStatus
  testing in_review completed archived : PackageStatus

abbrev pub status_text : PackageStatus → String
status_text planned = "planned"
status_text blocked = "blocked"
status_text ready = "ready"
status_text in_progress = "in-progress"
status_text testing = "testing"
status_text in_review = "review"
status_text completed = "completed"
status_text archived = "archived"

-- `status === "completed"`
abbrev pub is_completed : PackageStatus → Bool
is_completed completed = true
is_completed _ = false

pub record WorkPackage : Type 0 where
  pub id : String
  pub project_id : String
  pub title : String
  pub purpose : String
  pub dependencies : List String
  pub acceptance_criteria : List String
  pub quality_gate_ids : List String
  pub status : PackageStatus
  pub record_version : ℕ

pub data GateStatus : Type 0 where
  not_ready candidate_gate passed failed_gate : GateStatus

abbrev pub is_pass : GateStatus → Bool
is_pass passed = true
is_pass _ = false

pub record QualityGate : Type 0 where
  pub id : String
  pub project_id : String
  pub name : String
  pub requirements : List String
  pub status : GateStatus
  pub evidence_ids : List String
  pub record_version : ℕ

pub record GateEvidence : Type 0 where
  pub id : String
  pub gate_id : String
  pub kind : String
  pub source : String
  pub revision : String
  pub created_at : String
