-- ===== src/WorkQuality/Passed.antt =====
-- The gates that passed, and the handlers that write gates and evidence.
use software_blueprint_hub.Shared.{
  ℕ, ◌+◌, String, ◌≡◌, sym, ap, ◌∙◌, ◌⊎◌, inl, inr, Bool, true, false, not, ◌&&◌, Option, some,
  List, ◌==◌, eq_iff, if◌then◌else◌, is_empty, All, All-imp, arith, Bool-cases, Option-cases, ok,
  nat_eq, nat_eq_iff, and_parts, >>=-eq-ok, guard-eq-ok, found-eq-ok,
}
use software_blueprint_hub.Authority.{
  AuthenticatedActor, project_mutate, project_review, can, require,
}
use software_blueprint_hub.WorkQuality.{QualityGate, GateEvidence, is_pass}
use software_blueprint_hub.WorkQuality.Fit.{last_with-In}
use software_blueprint_hub.WorkQuality.Gates.{HasProvenance, IsSupport, can_pass_iff}
use software_blueprint_hub.WorkQuality.Store
use software_blueprint_hub.WorkQuality.Store.{
  WorkQualityTables, WorkQualityStore, assert_valid, list_gate_evidence_by_gate,
  create_gate_evidence, find_quality_gate_by_id,
}
use software_blueprint_hub.WorkQuality.Service.{
  create_quality_gate, update_quality_gate, add_gate_evidence, check_pass,
}
use software_blueprint_hub.WorkQuality.Graph.{read_all-eq-ok}

module _ (t : WorkQualityTables) where
  open t use {gate, evidence}

  -- The evidence is stored, belongs to the gate, and names its source and its revision.
  abbrev pub IsBacked : QualityGate → evidence.Rows → String → Type 0
  IsBacked g rows id =
      (item : GateEvidence) × (evidence.find_unique id rows ≡ some item)
      × (item.gate_id ≡ g.id)
      × HasProvenance item

  abbrev pub IsFounded : QualityGate → evidence.Rows → Type 0
  IsFounded g rows = (is_empty g.evidence_ids ≡ false) × All (IsBacked g rows) g.evidence_ids

  -- Every stored gate with the status PASS rests on stored evidence.
  abbrev pub IsEvidenced : WorkQualityStore t → Type 0
  IsEvidenced s =
      (id : String) (g : QualityGate)
      → gate.find_unique id s.gates ≡ some g
      → (is_pass g.status ≡ false) ⊎ IsFounded g s.evidence

  -- No evidence is lost or changed.
  abbrev pub Keeps : evidence.Rows → evidence.Rows → Type 0
  Keeps rows rows' =
      (id : String) (item : GateEvidence)
      → evidence.find_unique id rows ≡ some item
      → evidence.find_unique id rows' ≡ some item

  pub IsFounded-Keeps :
      (g : QualityGate) (rows rows' : evidence.Rows)
      → Keeps rows rows'
      → IsFounded g rows
      → IsFounded g rows'
  IsFounded-Keeps g rows rows' keeps (some_id, backed) = (
    some_id,
    All-imp (IsBacked g rows) (IsBacked g rows') g.evidence_ids
        (λ id (item, e, own, named). (item, keeps id item e, own, named)) backed,
  )

  support-IsBacked :
      (g : QualityGate) (rows : evidence.Rows) (id : String)
      → IsSupport g (evidence.find_many (λ e. e.gate_id == g.id) rows) id
      → IsBacked g rows id
  support-IsBacked g rows id (item, e, own, named) =
      let (i, same) = last_with-In (λ x. x.id == id) _ item e in
      let (there, k) = evidence.find-many (λ x. x.gate_id == g.id) rows item i in
      (
        item,
        ap (λ j. evidence.find_unique j rows) (sym ((eq_iff item.id id).0 same)) ∙ there,
        own,
        named,
      )

  listed_evidence :
      (g : String) (s : WorkQualityStore t) (listed : List GateEvidence)
      → list_gate_evidence_by_gate t g s ≡ ok listed
      → evidence.find_many (λ e. e.gate_id == g) s.evidence ≡ listed
  unfolding list_gate_evidence_by_gate
  listed_evidence g s listed h = read_all-eq-ok "GateEvidence" t.evidence_errors _ listed h

  check_pass-IsFounded :
      (view : ℕ → WorkQualityStore t) (g : QualityGate)
      → check_pass t view true g ≡ ok tt
      → IsFounded g (view 1).evidence
  check_pass-IsFounded view g h =
      let (listed, e, accepted) = >>=-eq-ok (list_gate_evidence_by_gate t g.id (view 1)) _ h in
      let (some_id, supports) =
        (can_pass_iff g (evidence.find_many (λ x. x.gate_id == g.id) (view 1).evidence)).0
          (rw (listed_evidence g.id (view 1) listed e) accepted) in
      (some_id, All-imp _ _ g.evidence_ids (support-IsBacked g (view 1).evidence) supports)

  -- A gate was written over its stored predecessor of the expected version.
  abbrev pub IsGateUpdate : QualityGate → ℕ → WorkQualityStore t → WorkQualityStore t → Type 0
  IsGateUpdate g expected s s' =
      ((old : QualityGate) × (gate.find_unique g.id s.gates ≡ some old)
        × (old.project_id ≡ g.project_id)
        × (old.record_version ≡ expected)
        × (g.record_version ≡ expected + 1))
      × ((id : String)
          → gate.find_unique id s'.gates
            ≡ (if g.id == id then some g else gate.find_unique id s.gates))
      × (s'.evidence ≡ s.evidence)

  update-IsGateUpdate :
      (g : QualityGate) (expected : ℕ) (s : WorkQualityStore t)
      (out : QualityGate × WorkQualityStore t)
      → Store.update_quality_gate t g expected s ≡ ok out
      → IsGateUpdate g expected s out.1
  unfolding Store.update_quality_gate
  update-IsGateUpdate g expected s out h =
      let test : QualityGate → Bool =
        λ row. row.project_id == g.project_id && nat_eq row.record_version expected in
      let (one, valid, h1) = >>=-eq-ok (assert_valid "QualityGate" (t.gate_errors g)) _ h in
      let (next, h2) = guard-eq-ok (nat_eq g.record_version (expected + 1)) _ _ h1 in
      let (counted, h3) = guard-eq-ok (nat_eq (gate.update_many test g s.gates).0 1) _ _ h2 in
      let same : out.1.gates ≡ (gate.update_many test g s.gates).1 = ground arith in
      let kept : out.1.evidence ≡ s.evidence = ground arith in
      let count = gate.count-update test g s.gates in
      let one_row = (nat_eq_iff (gate.update_many test g s.gates).0 1).0 counted in
      elim (Option-cases (gate.find_unique g.id s.gates)) [
        | inl e ↦ absurd (ground arith)
        | inr (old, e) ↦ elim (Bool-cases (test old)) [
          | inl hit ↦
              let (own, version) = and_parts (old.project_id == g.project_id) _ hit in
              (
                (old, e, (eq_iff _ _).0 own, (nat_eq_iff _ _).0 version, (nat_eq_iff _ _).0 next),
                λ id. rw same (rw (e, hit) at (gate.find-update test g s.gates id)),
                kept,
              )
          | inr miss ↦ absurd (ground arith)
        ]
      ]

  -- A gate that was updated was written for an actor who may review its project; unless its status is
  -- other than PASS, it lists at least one evidence id, and each is stored evidence of the gate that names its
  -- source and its revision. It replaces its stored predecessor, of the expected version.
  pub update_quality_gate_sound :
      (view : ℕ → WorkQualityStore t) (actor : Option AuthenticatedActor) (g : QualityGate)
      (expected : ℕ) (out : QualityGate × WorkQualityStore t)
      → update_quality_gate t view actor g expected ≡ ok out
      → (can t.authority actor g.project_id project_review (view 0).authority ≡ true)
        × ((is_pass g.status ≡ false) ⊎ IsFounded g (view 1).evidence)
        × IsGateUpdate g expected (view 2) out.1
  unfolding update_quality_gate require
  update_quality_gate_sound view actor g expected out h =
      let (allowed, h1) =
        guard-eq-ok (can t.authority actor g.project_id project_review (view 0).authority) _ _ h in
      let (one, valid, h2) = >>=-eq-ok (assert_valid "QualityGate" (t.gate_errors g)) _ h1 in
      let (two, checked, h3) = >>=-eq-ok (check_pass t view (is_pass g.status) g) _ h2 in
      (
        allowed,
        elim (Bool-cases (is_pass g.status)) [
          | inl passing ↦ inr (check_pass-IsFounded view g (rw passing at checked))
          | inr other ↦ inl other
        ],
        update-IsGateUpdate g expected (view 2) out h3,
      )

  -- A gate that was created has not passed, and its id is new.
  pub create_quality_gate_sound :
      (view : ℕ → WorkQualityStore t) (actor : Option AuthenticatedActor) (g : QualityGate)
      (out : QualityGate × WorkQualityStore t)
      → create_quality_gate t view actor g ≡ ok out
      → (can t.authority actor g.project_id project_mutate (view 0).authority ≡ true)
        × (is_pass g.status ≡ false)
        × (gate.create g (view 1).gates ≡ some out.1.gates)
        × (out.1.evidence ≡ (view 1).evidence)
  unfolding create_quality_gate Store.create_quality_gate require
  create_quality_gate_sound view actor g out h =
      let (allowed, h1) =
        guard-eq-ok (can t.authority actor g.project_id project_mutate (view 0).authority) _ _ h in
      let (one, valid, h2) = >>=-eq-ok (assert_valid "QualityGate" (t.gate_errors g)) _ h1 in
      let (fresh, h3) = guard-eq-ok (not (is_pass g.status)) _ _ h2 in
      let (two, valid', h4) = >>=-eq-ok (assert_valid "QualityGate" (t.gate_errors g)) _ h3 in
      elim (Option-cases (gate.create g (view 1).gates)) [
        | inl e ↦ absurd (ground arith)
        | inr (rows, e) ↦ (allowed, ground arith, e ∙ ground arith, ground arith)
      ]

  pub add_gate_evidence_sound :
      (view : ℕ → WorkQualityStore t) (actor : Option AuthenticatedActor) (e : GateEvidence)
      (out : GateEvidence × WorkQualityStore t)
      → add_gate_evidence t view actor e ≡ ok out
      → ((g : QualityGate) × (find_quality_gate_by_id t e.gate_id (view 0) ≡ ok (some g))
          × (can t.authority actor g.project_id project_review (view 1).authority ≡ true))
        × (evidence.create e (view 2).evidence ≡ some out.1.evidence)
        × (out.1.gates ≡ (view 2).gates)
  unfolding add_gate_evidence create_gate_evidence require
  add_gate_evidence_sound view actor e out h =
      let (one, valid, h1) = >>=-eq-ok (assert_valid "GateEvidence" (t.evidence_errors e)) _ h in
      let (row, read, h2) = >>=-eq-ok (find_quality_gate_by_id t e.gate_id (view 0)) _ h1 in
      let (g, present, h3) = found-eq-ok row _ _ h2 in
      let (allowed, h4) =
        guard-eq-ok (can t.authority actor g.project_id project_review (view 1).authority) _ _ h3 in
      let (two, valid', h5) = >>=-eq-ok (assert_valid "GateEvidence" (t.evidence_errors e)) _ h4 in
      elim (Option-cases (evidence.create e (view 2).evidence)) [
        | inl none_made ↦ absurd (ground arith)
        | inr (rows, made) ↦ ((g, rw present at read, allowed), made ∙ ground arith, ground arith)
      ]
