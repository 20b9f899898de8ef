-- ===== src/ProjectReadiness/Service.antt =====
-- `ProjectReadinessApplicationService`: packages/application/src/project-readiness.ts. Its two lists are
-- read concurrently; here the one stands before the other, which only decides the error that is
-- thrown when both throw.
use software_blueprint_hub.Shared.{
  ℕ, String, ◌≡◌, ◌≢◌, ◌⊎◌, inl, inr, refl, sym, ap, ◌∙◌, subst, Bool, true, Option, some, List, [],
  ◌∷◌, ◌==◌, eq_iff, map, All, All-imp, arith, Result, ok, ◌>>=◌, ◌>>◌, >>=-eq-ok, guard-eq-ok,
}
use software_blueprint_hub.Authority.{AuthenticatedActor, project_read, can, require}
use software_blueprint_hub.WorkQuality.{passed, WorkPackage, QualityGate}
use software_blueprint_hub.WorkQuality.Dependencies.{last_with}
use software_blueprint_hub.WorkQuality.Fit.{last_with-In}
use software_blueprint_hub.WorkQuality.Store.{
  WorkQualityTables, WorkQualityStore, QualityGateEvidenceBundle, assert_valid, read_all,
  read_bundles, list_work_packages_by_project, list_quality_gate_evidence_by_project,
}
use software_blueprint_hub.ProjectReadiness.{
  ProjectState, project_blocked, attention, in_progress, gate_ready, ProjectReadinessInput,
  ProjectReadinessSnapshot, option_map,
}
use software_blueprint_hub.ProjectReadiness.Summary.{
  gate_by_id, same_status, summarize_project_readiness,
}
use software_blueprint_hub.ProjectReadiness.Ready.{IsPassed}
use software_blueprint_hub.ProjectReadiness.GateReady.{summarize_gate_ready_iff}

abbrev pub readiness_input :
    String → List String → List WorkPackage → List QualityGateEvidenceBundle → ProjectReadinessInput
readiness_input project required packages bundles = record {
  project_id = project;
  required_gate_ids = required;
  work_packages = packages;
  quality_gates = map QualityGateEvidenceBundle.gate bundles;
  evidence_by_gate = λ id.
      option_map QualityGateEvidenceBundle.evidence (last_with (λ b. b.gate.id == id) bundles);
}

gate_ready-cases : (s : ProjectState) → (s ≡ gate_ready) ⊎ (s ≢ gate_ready)
gate_ready-cases project_blocked = inr (λ e. cc)
gate_ready-cases attention = inr (λ e. cc)
gate_ready-cases in_progress = inr (λ e. cc)
gate_ready-cases gate_ready = inl refl

module _ (le : String → String → Bool) (t : WorkQualityTables) (view : ℕ → WorkQualityStore t) where
  unfoldable pub read_readiness :
      Option AuthenticatedActor → String → List String → Result ProjectReadinessSnapshot
  unfolding require
  read_readiness actor project required = do
    require t.authority actor project project_read (view 0).authority
    packages ← list_work_packages_by_project t project (view 1)
    bundles ← list_quality_gate_evidence_by_project t project (view 2)
    summarize_project_readiness le (readiness_input project required packages bundles)

  read_bundles-gates :
      (gates : List QualityGate) (s : WorkQualityStore t) (bundles : List QualityGateEvidenceBundle)
      → read_bundles t gates s ≡ ok bundles
      → map QualityGateEvidenceBundle.gate bundles ≡ gates
  read_bundles-gates [] s bundles h =
      let none_read : [] ≡ bundles = ground arith in
      sym (ap (map QualityGateEvidenceBundle.gate) none_read)
  read_bundles-gates (g ∷ gates) s bundles h =
      let (one, valid, h1) = >>=-eq-ok (assert_valid "QualityGate" (t.gate_errors g)) _ h in
      let (evidence, listed, h2) =
        >>=-eq-ok
          (read_all "GateEvidence" t.evidence_errors
            (t.evidence.find_many (λ e. e.gate_id == g.id) s.evidence))
          _ h1 in
      let (rest, below, h3) = >>=-eq-ok (read_bundles t gates s) _ h2 in
      let made : (record { gate = g; evidence = evidence } ∷ rest) ≡ bundles = ground arith in
      sym (ap (map QualityGateEvidenceBundle.gate) made)
      ∙ ap (λ gs. g ∷ gs) (read_bundles-gates gates s rest below)

  -- The gate is stored for the project, and passed.
  abbrev pub IsStoredPass : String → String → Type 0
  IsStoredPass project id =
      (g : QualityGate) × (t.gate.find_unique id (view 2).gates ≡ some g)
      × (g.project_id ≡ project)
      × (same_status g.status passed ≡ true)

  -- A summary that is gate-ready has every required gate stored for the project, and passed.
  read_ready :
      (project : String) (required : List String) (packages : List WorkPackage)
      (bundles : List QualityGateEvidenceBundle) (s : ProjectReadinessSnapshot)
      → list_quality_gate_evidence_by_project t project (view 2) ≡ ok bundles
      → summarize_project_readiness le (readiness_input project required packages bundles) ≡ ok s
      → s.state ≡ gate_ready
      → All (IsStoredPass project) required
  unfolding list_quality_gate_evidence_by_project
  read_ready project required packages bundles s bundled h3 state =
      let input = readiness_input project required packages bundles in
      let (some_one, passes, others, finished) = (summarize_gate_ready_iff le input s h3).0 state in
      let rows : List QualityGate =
        t.gate.find_many (λ g. g.project_id == project) (view 2).gates in
      let same = read_bundles-gates rows (view 2) bundles bundled in
      All-imp (IsPassed input) (IsStoredPass project) required
        (λ id (g, found, pass).
          let there = subst (λ gs. gate_by_id gs id ≡ some g) same found in
          let (i, named) = last_with-In (λ x. x.id == id) rows g there in
          let (stored, own) = t.gate.find-many (λ x. x.project_id == project) (view 2).gates g i in
          (
            g,
            ap (λ j. t.gate.find_unique j (view 2).gates) (sym ((eq_iff g.id id).0 named)) ∙ stored,
            (eq_iff g.project_id project).0 own,
            pass,
          ))
        passes

  -- Whenever the readiness of a project is read, the actor may read the project; and either the state
  -- that is read is not gate-ready, or each required gate is stored for the project with the status
  -- PASS.
  pub read_readiness_sound :
      (actor : Option AuthenticatedActor) (project : String) (required : List String)
      (s : ProjectReadinessSnapshot)
      → read_readiness actor project required ≡ ok s
      → (can t.authority actor project project_read (view 0).authority ≡ true)
        × ((s.state ≢ gate_ready) ⊎ All (IsStoredPass project) required)
  unfolding read_readiness require
  read_readiness_sound actor project required s h =
      let (allowed, h1) =
        guard-eq-ok (can t.authority actor project project_read (view 0).authority) _ _ h in
      let (packages, listed, h2) =
        >>=-eq-ok (list_work_packages_by_project t project (view 1)) _ h1 in
      let (bundles, bundled, h3) =
        >>=-eq-ok (list_quality_gate_evidence_by_project t project (view 2)) _ h2 in
      (
        allowed,
        elim (gate_ready-cases s.state) [
          | inl e ↦ inr (read_ready project required packages bundles s bundled h3 e)
          | inr other ↦ inl other
        ],
      )
