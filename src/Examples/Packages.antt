-- ===== src/Examples/Packages.antt =====
-- The theorems on work packages and quality gates at concrete inputs.
use software_blueprint_hub.Shared.{
  if◌then◌else◌, ltb, err, Error, ℕ, String, ◌≡◌, refl, ◌↔◌, inl, inr, false, none, some, List, [],
  ◌∷◌, ◌==◌, ok, is_empty, All, In, arith, Bool-cases,
}
use software_blueprint_hub.Shared.Table.{text_key}
use software_blueprint_hub.Shared.Table.Memory.{memory_table}
use software_blueprint_hub.Shared.Search.Paths.{IsGrounded, grounded}
use software_blueprint_hub.Authority.{can, project_mutate, project_review}
use software_blueprint_hub.WorkQuality.{
  PackageStatus, WorkPackage, GateStatus, QualityGate, GateEvidence, is_pass,
}
use software_blueprint_hub.WorkQuality.Dependencies.{
  successors, by_id, dependencies_of, validate_work_package_dependencies,
}
use software_blueprint_hub.WorkQuality.Fit.{IsFit}
use software_blueprint_hub.WorkQuality.Acyclic.{validate_iff, IsAcyclic, stored_successors}
use software_blueprint_hub.WorkQuality.Readiness.{
  is_ready, explain_work_package_readiness, IsDone, IsBlocking, readiness_iff,
}
use software_blueprint_hub.WorkQuality.Gates.{assert_quality_gate_can_pass, IsSupport, can_pass_iff}
use software_blueprint_hub.WorkQuality.Stale.{
  IsRefusal, at_once, then_write, creates, update_work_package_conflict,
}
use software_blueprint_hub.WorkQuality.Store
use software_blueprint_hub.WorkQuality.Store.{WorkQualityTables, WorkQualityStore}
use software_blueprint_hub.WorkQuality.Service.{update_work_package, update_quality_gate}
use software_blueprint_hub.WorkQuality.Graph.{
  packages_of, IsAcceptedWrite, IsVersionBefore, update_work_package_sound, updates,
  PackageWrite-IsAcyclic,
}
use software_blueprint_hub.WorkQuality.Passed.{IsEvidenced}
use software_blueprint_hub.WorkQuality.History.{now, gate_updated, Later-IsEvidenced}
use software_blueprint_hub.Examples.Tables.{authority_tables, owned_store, returned, ada}

abbrev pub work_package : String → List String → PackageStatus → ℕ → WorkPackage
work_package id dependencies status version = record {
  id = id;
  project_id = "hub";
  title = "title";
  purpose = "purpose";
  dependencies = dependencies;
  acceptance_criteria = [];
  quality_gate_ids = [];
  status = status;
  record_version = version;
}

abbrev pub base : WorkPackage
base = work_package "base" [] PackageStatus.completed 1

abbrev feature : WorkPackage
feature = work_package "feature" [] PackageStatus.planned 1

abbrev packages : List WorkPackage
packages = base ∷ feature ∷ []

-- The next version of `feature`, which depends on `base`.
abbrev candidate : WorkPackage
candidate = work_package "feature" ("base" ∷ []) PackageStatus.planned 2

validate_iff_example : (validate_work_package_dependencies candidate packages ≡ ok tt) ↔ (
    All (IsFit candidate packages) candidate.dependencies
    × IsGrounded (successors candidate packages) candidate.id)
validate_iff_example = validate_iff candidate packages

abbrev revised : List WorkPackage
revised = base ∷ candidate ∷ []

readiness_iff_example :
    ((explain_work_package_readiness candidate revised).state ≡ is_ready
      ↔ All (IsDone revised) candidate.dependencies)
    × All
        (IsBlocking revised candidate.dependencies)
        (explain_work_package_readiness candidate revised).blockers
readiness_iff_example = readiness_iff candidate revised

abbrev pub gate : GateStatus → ℕ → QualityGate
gate status version = record {
  id = "gate";
  project_id = "hub";
  name = "name";
  requirements = [];
  status = status;
  evidence_ids = "evidence" ∷ [];
  record_version = version;
}

abbrev pub item : GateEvidence
item = record {
  id = "evidence";
  gate_id = "gate";
  kind = "test";
  source = "ci";
  revision = "r1";
  created_at = "now";
}

can_pass_iff_example :
    (assert_quality_gate_can_pass (gate GateStatus.passed 2) (item ∷ []) ≡ ok tt) ↔ (
      (is_empty (gate GateStatus.passed 2).evidence_ids ≡ false)
      × All
          (IsSupport (gate GateStatus.passed 2) (item ∷ []))
          (gate GateStatus.passed 2).evidence_ids)
can_pass_iff_example = can_pass_iff (gate GateStatus.passed 2) (item ∷ [])

abbrev pub tables : WorkQualityTables
tables = record {
  authority = authority_tables;
  work_package = memory_table text_key WorkPackage.id;
  gate = memory_table text_key QualityGate.id;
  evidence = memory_table text_key GateEvidence.id;
  package_errors = λ p. none;
  gate_errors = λ g. none;
  evidence_errors = λ e. none;
}

abbrev store : WorkQualityStore tables
store = record {
  authority = owned_store;
  packages = packages;
  gates = gate GateStatus.not_ready 1 ∷ [];
  evidence = item ∷ [];
}

abbrev updated : WorkPackage × WorkQualityStore tables
unfolding update_work_package
updated =
    returned (update_work_package tables (λ n. store) (some ada) candidate 1) (candidate, store)

update_work_package_sound_example :
    IsAcceptedWrite tables (λ n. store) (some ada) candidate updated
    × IsVersionBefore tables candidate 1 store
unfolding update_work_package can software_blueprint_hub.Authority.is_system_owner
    software_blueprint_hub.WorkQuality.Store.list_work_packages_by_project
    validate_work_package_dependencies software_blueprint_hub.WorkQuality.Store.update_work_package
update_work_package_sound_example =
    update_work_package_sound tables (λ n. store) (some ada) candidate 1 updated refl

no_edges : (id : String) → IsGrounded (stored_successors packages) id
no_edges id = grounded (λ y i. absurd (none_from y i))
  where
    none_from : (y : String) → In y (stored_successors packages id) → ⊥
    none_from y i = elim (Bool-cases ("feature" == id)) [
      | inl e ↦ rw e at i
      | inr e ↦ elim (Bool-cases ("base" == id)) [ inl k ↦ rw (e, k) at i | inr k ↦ rw (e, k) at i ]
    ]

PackageWrite-IsAcyclic_example : IsAcyclic (packages_of tables "hub" updated.1.packages)
unfolding update_work_package can software_blueprint_hub.Authority.is_system_owner
    software_blueprint_hub.WorkQuality.Store.list_work_packages_by_project
    validate_work_package_dependencies software_blueprint_hub.WorkQuality.Store.update_work_package
PackageWrite-IsAcyclic_example =
    PackageWrite-IsAcyclic tables (λ n. store) candidate updated
      (updates (some ada) candidate 1 updated refl) refl no_edges

abbrev passed_gate : QualityGate × WorkQualityStore tables
unfolding update_quality_gate
passed_gate =
    returned (update_quality_gate tables (λ n. store) (some ada) (gate GateStatus.passed 2) 1)
      (gate GateStatus.passed 2, store)

store-IsEvidenced : IsEvidenced tables store
store-IsEvidenced id g there = elim (Bool-cases ("gate" == id)) [
  | inl e ↦ inl (ground arith)
  | inr e ↦ absurd (ground arith)
]

Later-IsEvidenced_example : IsEvidenced tables passed_gate.1
unfolding update_quality_gate can software_blueprint_hub.Authority.is_system_owner
    software_blueprint_hub.WorkQuality.Store.list_gate_evidence_by_gate assert_quality_gate_can_pass
    software_blueprint_hub.WorkQuality.Store.update_quality_gate
Later-IsEvidenced_example =
    Later-IsEvidenced tables
      (gate_updated (λ n. store) (some ada) (gate GateStatus.passed 2) 1 passed_gate now now refl)
      store-IsEvidenced

abbrev once : WorkPackage × WorkQualityStore tables
unfolding Store.update_work_package
once = returned (Store.update_work_package tables candidate 1 store) (candidate, store)

-- Between the two updates another package is created.
abbrev meanwhile : WorkPackage × WorkQualityStore tables
unfolding Store.create_work_package
meanwhile =
    returned
      (Store.create_work_package tables (work_package "other" [] PackageStatus.planned 1) once.1)
      (candidate, store)

update_work_package_conflict_example :
    ((e : Error) × (Store.update_work_package tables candidate 1 meanwhile.1 ≡ err e))
    × IsRefusal tables candidate 1 (Store.update_work_package tables candidate 1 meanwhile.1)
unfolding Store.update_work_package Store.create_work_package
update_work_package_conflict_example =
    update_work_package_conflict tables candidate candidate 1 store meanwhile.1 once refl refl (
      then_write at_once (creates (work_package "other" [] PackageStatus.planned 1) meanwhile refl))

-- Two updates that overlap: each reads the packages before the other writes, and both succeed, so
-- that `base` and `feature` then depend on each other.
abbrev base_on_feature : WorkPackage
base_on_feature = work_package "base" ("feature" ∷ []) PackageStatus.completed 2

abbrev overlapping : ℕ → WorkQualityStore tables
overlapping n = if ltb n 2 then store else updated.1

abbrev crossed : WorkPackage × WorkQualityStore tables
unfolding update_work_package
crossed =
    returned (update_work_package tables overlapping (some ada) base_on_feature 1) (base, store)

crossed_edges :
    (dependencies_of (by_id (packages_of tables "hub" crossed.1.packages) "base") ≡ "feature" ∷ [])
    × (dependencies_of (by_id (packages_of tables "hub" crossed.1.packages) "feature")
        ≡ "base" ∷ [])
unfolding crossed can software_blueprint_hub.Authority.is_system_owner
    Store.list_work_packages_by_project validate_work_package_dependencies Store.update_work_package
crossed_edges = (refl, refl)
