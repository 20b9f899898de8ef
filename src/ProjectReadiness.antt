-- ===== src/ProjectReadiness.antt =====
-- `gateItem` and the types of packages/core/src/project-readiness.ts. `le` is
-- `a.localeCompare(b) <= 0`.
pub mod Summary
pub mod Ready
pub mod GateReady
pub mod Counts
pub mod Service
use software_blueprint_hub.Shared.{
  ℕ, String, Bool, true, false, not, ◌&&◌, Option, none, some, List, [], ◌∷◌, ◌++◌, ◌==◌,
  if◌then◌else◌, filter, length, is_empty,
}
use software_blueprint_hub.Shared.Sorting.{sort}
use software_blueprint_hub.WorkQuality.{
  PackageStatus, GateStatus, WorkPackage, QualityGate, GateEvidence,
}
use software_blueprint_hub.WorkQuality.Dependencies.{last_with, is_some}
use software_blueprint_hub.WorkQuality.Gates.{evidence_by_id}
use software_blueprint_hub.WorkQuality.Readiness.{WorkPackageBlocker}

-- `ReadinessState` of a project.
pub data ProjectState : Type 0 where
  project_blocked attention in_progress gate_ready : ProjectState

pub data EvidenceFreshness : Type 0 where
  no_evidence incomplete recorded_unverified : EvidenceFreshness

-- The status of a gate: none for "missing".
pub record ReadinessGateItem : Type 0 where
  pub id : String
  pub name : String
  pub required : Bool
  pub status : Option GateStatus
  pub evidence_count : ℕ
  pub missing_evidence_ids : List String
  pub latest_evidence_at : Option String
  pub latest_evidence_source : Option String
  pub latest_evidence_revision : Option String
  pub evidence_freshness : EvidenceFreshness

pub record ReadinessWorkBlocker : Type 0 where
  pub id : String
  pub title : String
  pub status : PackageStatus
  pub blockers : List WorkPackageBlocker

pub data ActionKind : Type 0 where
  define_gate resolve_failed_gate unblock_work review_candidate : ActionKind
  prepare_gate continue_work verify_release : ActionKind

pub record NextAction : Type 0 where
  pub kind : ActionKind
  pub label : String
  pub reason : String

pub record GateSummary : Type 0 where
  pub required : ℕ
  pub tracked_required : ℕ
  pub pass_required : ℕ
  pub missing_required : ℕ
  pub failed_tracked : ℕ
  pub candidate_tracked : ℕ
  pub not_ready_tracked : ℕ
  pub active_tracked : ℕ

pub record WorkSummary : Type 0 where
  pub total : ℕ
  pub completed : ℕ
  pub blocked : ℕ
  pub active : ℕ

pub record EvidenceSummary : Type 0 where
  pub linked : ℕ
  pub missing_references : ℕ
  pub freshness : EvidenceFreshness

pub record ProjectReadinessSnapshot : Type 0 where
  pub project_id : String
  pub state : ProjectState
  pub headline : String
  pub gate_summary : GateSummary
  pub work_summary : WorkSummary
  pub evidence_summary : EvidenceSummary
  pub active_gates : List ReadinessGateItem
  pub blocked_work : List ReadinessWorkBlocker
  pub next_action : NextAction

pub record ProjectReadinessInput : Type 0 where
  pub project_id : String
  pub required_gate_ids : List String
  pub work_packages : List WorkPackage
  pub quality_gates : List QualityGate
  pub evidence_by_gate : String → Option (List GateEvidence)

abbrev pub first {ℓ} : {A : Type ℓ} → List A → Option A
first [] = none
first (x ∷ xs) = some x

abbrev pub option_map : {A B : Type 0} → (A → B) → Option A → Option B
option_map f none = none
option_map f (some a) = some (f a)

abbrev pub present_cons : {B : Type 0} → Option B → List B → List B
present_cons none ys = ys
present_cons (some y) ys = y ∷ ys

-- The values that are there, in order.
abbrev pub present : {A B : Type 0} → (A → Option B) → List A → List B
present f [] = []
present f (x ∷ xs) = present_cons (f x) (present f xs)

module _ (le : String → String → Bool) where
  -- The newest first, then by id.
  unfoldable pub newest_le : GateEvidence → GateEvidence → Bool
  newest_le a b =
      if le b.created_at a.created_at
      then (if le a.created_at b.created_at then le a.id b.id else true)
      else false

  unfoldable pub newest_evidence : List GateEvidence → Option GateEvidence
  unfolding sort newest_le
  newest_evidence evidence = first (sort newest_le evidence)

  abbrev pub missing_item : String → Bool → ReadinessGateItem
  missing_item id required = record {
    id = id;
    name = id;
    required = required;
    status = none;
    evidence_count = 0;
    missing_evidence_ids = [];
    latest_evidence_at = none;
    latest_evidence_source = none;
    latest_evidence_revision = none;
    evidence_freshness = no_evidence;
  }

  abbrev pub tracked_item : Bool → QualityGate → List GateEvidence → ReadinessGateItem
  tracked_item required gate evidence =
      let linked = present (evidence_by_id evidence) gate.evidence_ids in
      let missing = filter (λ id. not (is_some (evidence_by_id evidence id))) gate.evidence_ids in
      let latest = newest_evidence linked in
      record {
        id = gate.id;
        name = gate.name;
        required = required;
        status = some gate.status;
        evidence_count = length linked;
        missing_evidence_ids = missing;
        latest_evidence_at = option_map GateEvidence.created_at latest;
        latest_evidence_source = option_map GateEvidence.source latest;
        latest_evidence_revision = option_map GateEvidence.revision latest;
        evidence_freshness =
            if is_empty gate.evidence_ids
            then no_evidence
            else if is_empty missing
            then recorded_unverified
            else incomplete;
      }

  unfoldable pub gate_item :
      String → Bool → Option QualityGate → List GateEvidence → ReadinessGateItem
  unfolding newest_evidence
  gate_item id required none evidence = missing_item id required
  gate_item id required (some gate) evidence = tracked_item required gate evidence
