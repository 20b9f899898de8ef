-- ===== src/WorkQuality/History.antt =====
-- The handlers of packages/application/src/work-quality-service.ts that write gates and evidence, as
-- they interleave.
use software_blueprint_hub.Shared.{
  ℕ, String, ◌≡◌, refl, sym, ap, ◌∙◌, ◌⊎◌, inl, inr, false, Option, some, ◌==◌, eq_iff,
  if◌then◌else◌, arith, Bool-cases, ok,
}
use software_blueprint_hub.Authority.{AuthenticatedActor}
use software_blueprint_hub.WorkQuality.{QualityGate, GateEvidence, is_pass}
use software_blueprint_hub.WorkQuality.Store.{WorkQualityTables, WorkQualityStore}
use software_blueprint_hub.WorkQuality.Service.{
  create_quality_gate, update_quality_gate, add_gate_evidence,
}
use software_blueprint_hub.WorkQuality.Passed.{
  IsFounded, IsEvidenced, Keeps, IsFounded-Keeps, update_quality_gate_sound,
  create_quality_gate_sound, add_gate_evidence_sound,
}

module _ (t : WorkQualityTables) where
  open t use {gate, evidence}

  -- The store after a number of calls. A handler's last call writes to the latest store; its earlier
  -- calls read stores that may be older, and `gate_updated` reads the evidence in one that is.
  pub data Later : WorkQualityStore t → WorkQualityStore t → Type 0 where
    now : {s : WorkQualityStore t} → Later s s
    elsewhere :
        {s s' s'' : WorkQualityStore t}
        → Later s s'
        → s''.gates ≡ s'.gates
        → s''.evidence ≡ s'.evidence
        → Later s s''
    gate_created :
        {s : WorkQualityStore t} (view : ℕ → WorkQualityStore t) (actor : Option AuthenticatedActor)
        (g : QualityGate) (out : QualityGate × WorkQualityStore t)
        → Later s (view 1)
        → create_quality_gate t view actor g ≡ ok out
        → Later s out.1
    evidence_added :
        {s : WorkQualityStore t} (view : ℕ → WorkQualityStore t) (actor : Option AuthenticatedActor)
        (e : GateEvidence) (out : GateEvidence × WorkQualityStore t)
        → Later s (view 2)
        → add_gate_evidence t view actor e ≡ ok out
        → Later s out.1
    gate_updated :
        {s : WorkQualityStore t} (view : ℕ → WorkQualityStore t) (actor : Option AuthenticatedActor)
        (g : QualityGate) (expected : ℕ) (out : QualityGate × WorkQualityStore t)
        → Later s (view 2)
        → Later (view 1) (view 2)
        → update_quality_gate t view actor g expected ≡ ok out
        → Later s out.1

  create-Keeps :
      (e : GateEvidence) (rows rows' : evidence.Rows)
      → evidence.create e rows ≡ some rows'
      → Keeps t rows rows'
  create-Keeps e rows rows' h id item there =
      let fresh = evidence.create_fresh e rows rows' h in
      elim (Bool-cases (e.id == id)) [
        | inl same ↦
            absurd (ground (arith, ap (λ j. evidence.find_unique j rows) ((eq_iff e.id id).0 same)))
        | inr other ↦ evidence.find-create e rows rows' id h ∙ rw other there
      ]

  Later-Keeps : {s s' : WorkQualityStore t} → Later s s' → Keeps t s.evidence s'.evidence
  Later-Keeps now id item h = h
  Later-Keeps (elsewhere e gates kept) id item h = rw kept (Later-Keeps e id item h)
  Later-Keeps (gate_created view actor g out e h) id item k =
      let (allowed, fresh, made, kept) = create_quality_gate_sound t view actor g out h in
      rw kept (Later-Keeps e id item k)
  Later-Keeps (evidence_added view actor x out e h) id item k =
      let (allowed, made, kept) = add_gate_evidence_sound t view actor x out h in
      create-Keeps x (view 2).evidence out.1.evidence made id item (Later-Keeps e id item k)
  Later-Keeps (gate_updated view actor g expected out e before h) id item k =
      let (allowed, founded, (old, written, kept)) =
        update_quality_gate_sound t view actor g expected out h in
      rw kept (Later-Keeps e id item k)

  -- One more gate that has not passed, or rests on stored evidence, keeps the invariant.
  written-IsEvidenced :
      (g : QualityGate) (s s' : WorkQualityStore t)
      → ((id : String)
          → gate.find_unique id s'.gates
            ≡ (if g.id == id then some g else gate.find_unique id s.gates))
      → s'.evidence ≡ s.evidence
      → (is_pass g.status ≡ false) ⊎ IsFounded t g s.evidence
      → IsEvidenced t s
      → IsEvidenced t s'
  written-IsEvidenced g s s' written kept founded holds id x there =
      elim (Bool-cases (g.id == id)) [
        | inl e ↦ let same : g ≡ x = ground (arith, written id) in rw (← same, kept) founded
        | inr e ↦ rw kept (holds id x (sym (written id ∙ rw e refl) ∙ there))
      ]

  -- Whatever calls of the handlers succeed, and however they interleave, every stored gate with the
  -- status PASS lists at least one evidence id, and each of its ids is stored evidence of the gate
  -- that names its source and its revision; when that holds of the first store.
  pub Later-IsEvidenced :
      {s s' : WorkQualityStore t} → Later s s' → IsEvidenced t s → IsEvidenced t s'
  Later-IsEvidenced now holds = holds
  Later-IsEvidenced {s} {s'} (elsewhere e gates kept) holds =
      λ id g there. rw kept (Later-IsEvidenced e holds id g (rw gates at there))
  Later-IsEvidenced (gate_created view actor g out e h) holds =
      let (allowed, fresh, made, kept) = create_quality_gate_sound t view actor g out h in
      written-IsEvidenced g (view 1) out.1
        (λ id. gate.find-create g (view 1).gates out.1.gates id made) kept (inl fresh)
        (Later-IsEvidenced e holds)
  Later-IsEvidenced (evidence_added view actor x out e h) holds = λ id g there.
      let (allowed, made, kept) = add_gate_evidence_sound t view actor x out h in
      elim (Later-IsEvidenced e holds id g (rw kept at there)) [
        | inl other ↦ inl other
        | inr founded ↦ inr (
            IsFounded-Keeps t g (view 2).evidence out.1.evidence
              (create-Keeps x (view 2).evidence out.1.evidence made) founded)
      ]
  Later-IsEvidenced (gate_updated view actor g expected out e before h) holds =
      let (allowed, founded, (old, written, kept)) =
        update_quality_gate_sound t view actor g expected out h in
      written-IsEvidenced g (view 2) out.1 written kept
        (elim founded [
          | inl other ↦ inl other
          | inr k ↦
              inr (IsFounded-Keeps t g (view 1).evidence (view 2).evidence (Later-Keeps before) k)
        ])
        (Later-IsEvidenced e holds)
