-- ===== src/WorkQuality/Service.antt =====
-- `WorkQualityApplicationService`: packages/application/src/work-quality-service.ts. Other callers may
-- write between two calls of a handler: `view n` is the store at its n-th call. The service's
-- `assertValid` is the same function as the repository's.
use Prim.Native.String.{◌++◌ as ◌+++◌}
use software_blueprint_hub.Shared.{
  ℕ, String, Bool, true, false, not, Option, none, some, List, Result, ok, ◌>>=◌, ◌>>◌, check,
  found,
}
use software_blueprint_hub.Authority.{
  AuthenticatedActor, AuthorityAction, project_read, project_mutate, project_review, require,
}
use software_blueprint_hub.WorkQuality.{WorkPackage, QualityGate, GateEvidence, is_pass}
use software_blueprint_hub.WorkQuality.Dependencies.{validate_work_package_dependencies}
use software_blueprint_hub.WorkQuality.Readiness.{
  WorkPackageReadiness, explain_work_package_readiness,
}
use software_blueprint_hub.WorkQuality.Gates.{assert_quality_gate_can_pass}
use software_blueprint_hub.WorkQuality.Store
use software_blueprint_hub.WorkQuality.Store.{
  WorkQualityTables, WorkQualityStore, QualityGateEvidenceBundle, assert_valid,
  find_work_package_by_id, list_work_packages_by_project, find_quality_gate_by_id,
  list_quality_gate_evidence_by_project, create_gate_evidence, list_gate_evidence_by_gate,
}

module _ (t : WorkQualityTables) (view : ℕ → WorkQualityStore t) where
  abbrev pub authorized :
      Option AuthenticatedActor → String → AuthorityAction → ℕ → Result (Unit {0})
  authorized actor project action n = require t.authority actor project action (view n).authority

  unfoldable pub create_work_package :
      Option AuthenticatedActor → WorkPackage → Result (WorkPackage × WorkQualityStore t)
  unfolding require
  create_work_package actor p = do
    authorized actor p.project_id project_mutate 0
    assert_valid "WorkPackage" (t.package_errors p)
    packages ← list_work_packages_by_project t p.project_id (view 1)
    validate_work_package_dependencies p packages
    Store.create_work_package t p (view 2)

  unfoldable pub update_work_package :
      Option AuthenticatedActor → WorkPackage → ℕ → Result (WorkPackage × WorkQualityStore t)
  unfolding require
  update_work_package actor p expected = do
    authorized actor p.project_id project_mutate 0
    assert_valid "WorkPackage" (t.package_errors p)
    packages ← list_work_packages_by_project t p.project_id (view 1)
    validate_work_package_dependencies p packages
    Store.update_work_package t p expected (view 2)

  unfoldable pub list_work_packages : Option AuthenticatedActor → String → Result (List WorkPackage)
  unfolding require
  list_work_packages actor project = do
    authorized actor project project_read 0
    list_work_packages_by_project t project (view 1)

  unfoldable pub list_quality_gates :
      Option AuthenticatedActor → String → Result (List QualityGateEvidenceBundle)
  unfolding require
  list_quality_gates actor project = do
    authorized actor project project_read 0
    list_quality_gate_evidence_by_project t project (view 1)

  -- What `readiness` does with the package that it finds.
  abbrev pub readiness_of :
      Option AuthenticatedActor → Option WorkPackage → Result (Option WorkPackageReadiness)
  readiness_of actor none = ok none
  readiness_of actor (some p) = do
    authorized actor p.project_id project_read 1
    packages ← list_work_packages_by_project t p.project_id (view 2)
    ok (some (explain_work_package_readiness p packages))

  unfoldable pub readiness :
      Option AuthenticatedActor → String → Result (Option WorkPackageReadiness)
  unfolding require
  readiness actor id = do row ← find_work_package_by_id t id (view 0); readiness_of actor row

  unfoldable pub create_quality_gate :
      Option AuthenticatedActor → QualityGate → Result (QualityGate × WorkQualityStore t)
  unfolding require
  create_quality_gate actor g = do
    authorized actor g.project_id project_mutate 0
    assert_valid "QualityGate" (t.gate_errors g)
    check (not (is_pass g.status)) "A newly created QualityGate cannot start at PASS"
    Store.create_quality_gate t g (view 1)

  unfoldable pub add_gate_evidence :
      Option AuthenticatedActor → GateEvidence → Result (GateEvidence × WorkQualityStore t)
  unfolding require
  add_gate_evidence actor e = do
    assert_valid "GateEvidence" (t.evidence_errors e)
    row ← find_quality_gate_by_id t e.gate_id (view 0)
    gate ← found row ("Unknown QualityGate " +++ e.gate_id)
    authorized actor gate.project_id project_review 1
    create_gate_evidence t e (view 2)

  -- `if (gate.status === "pass") { … }`
  abbrev pub check_pass : Bool → QualityGate → Result (Unit {0})
  check_pass false g = ok tt
  check_pass true g = do
    evidence ← list_gate_evidence_by_gate t g.id (view 1)
    assert_quality_gate_can_pass g evidence

  unfoldable pub update_quality_gate :
      Option AuthenticatedActor → QualityGate → ℕ → Result (QualityGate × WorkQualityStore t)
  unfolding require
  update_quality_gate actor g expected = do
    authorized actor g.project_id project_review 0
    assert_valid "QualityGate" (t.gate_errors g)
    check_pass (is_pass g.status) g
    Store.update_quality_gate t g expected (view 2)
