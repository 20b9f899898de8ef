-- ===== src/WorkQuality/Gates.antt =====
-- `assertQualityGateCanPass` of packages/core/src/work-quality.ts.
use Prim.Native.String.{◌++◌ as ◌+++◌}
use software_blueprint_hub.Shared.{
  String, ◌≡◌, refl, ap, ◌↔◌, inl, inr, Bool, true, false, ◌||◌, Option, none, some, List, [], ◌∷◌,
  ◌++◌, ◌==◌, eq_iff, arith, if◌then◌else◌, is_empty, All, Bool-cases, Option-cases, Result, ok,
  guard, quality_gate_evidence_invalid,
}
use software_blueprint_hub.Shared.Text.{trim, is_blank}
use software_blueprint_hub.WorkQuality.{QualityGate, GateEvidence}
use software_blueprint_hub.WorkQuality.Dependencies.{last_with}

-- `byId.get(evidenceId)`
abbrev pub evidence_by_id : List GateEvidence → String → Option GateEvidence
evidence_by_id evidence id = last_with (λ e. e.id == id) evidence

abbrev pub lacks_provenance : GateEvidence → Bool
lacks_provenance item = is_blank (trim item.source) || is_blank (trim item.revision)

abbrev pub item_reasons : QualityGate → String → Option GateEvidence → List String
item_reasons gate id none = ("required evidence " +++ id +++ " does not exist") ∷ []
item_reasons gate id (some item) =
    (if item.gate_id == gate.id
      then []
      else ("evidence " +++ id +++ " belongs to " +++ item.gate_id) ∷ [])
    ++ (if lacks_provenance item
        then ("evidence " +++ id +++ " lacks source/revision provenance") ∷ []
        else [])

abbrev pub items_reasons : QualityGate → List GateEvidence → List String → List String
items_reasons gate evidence [] = []
items_reasons gate evidence (id ∷ ids) =
    item_reasons gate id (evidence_by_id evidence id) ++ items_reasons gate evidence ids

abbrev pub gate_reasons : QualityGate → List GateEvidence → List String
gate_reasons gate evidence =
    (if is_empty gate.evidence_ids then "PASS requires at least one evidence ID" ∷ [] else [])
    ++ items_reasons gate evidence gate.evidence_ids

unfoldable pub assert_quality_gate_can_pass : QualityGate → List GateEvidence → Result (Unit {0})
unfolding trim
assert_quality_gate_can_pass gate evidence =
    let reasons = gate_reasons gate evidence in
    guard (is_empty reasons) (quality_gate_evidence_invalid reasons)

-- The source and the revision are more than white space.
abbrev pub HasProvenance : GateEvidence → Type 0
HasProvenance item = (is_blank (trim item.source) ≡ false) × (is_blank (trim item.revision) ≡ false)

provenance_iff : (item : GateEvidence) → (lacks_provenance item ≡ false) ↔ HasProvenance item
provenance_iff item = elim (Bool-cases (is_blank (trim item.source))) [
  | inl e ↦ (λ h. absurd (ground arith), λ k. absurd (ground (arith, k.0)))
  | inr e ↦ (λ h. (e, ground arith), λ k. ground (arith, k.1))
]

-- The evidence exists, belongs to the gate, and names its source and its revision.
abbrev pub IsSupport : QualityGate → List GateEvidence → String → Type 0
IsSupport gate evidence id =
    (item : GateEvidence) × (evidence_by_id evidence id ≡ some item)
    × (item.gate_id ≡ gate.id)
    × HasProvenance item

is_empty-append :
    (xs ys : List String)
    → (is_empty (xs ++ ys) ≡ true) ↔ ((is_empty xs ≡ true) × (is_empty ys ≡ true))
is_empty-append [] ys = (λ h. (refl, h), λ h. h.1)
is_empty-append (x ∷ xs) ys = (λ h. absurd (ground arith), λ h. h.0)

item_reasons_iff :
    (gate : QualityGate) (evidence : List GateEvidence) (id : String)
    → (is_empty (item_reasons gate id (evidence_by_id evidence id)) ≡ true)
      ↔ IsSupport gate evidence id
item_reasons_iff gate evidence id = elim (Option-cases (evidence_by_id evidence id)) [
  | inl e ↦ (λ h. absurd (ground arith), λ (item, found, same, named). absurd (ground arith))
  | inr (item, e) ↦ elim (Bool-cases (item.gate_id == gate.id)) [
    | inl own ↦ elim (Bool-cases (lacks_provenance item)) [
      | inl bare ↦ (
        λ h. absurd (ground arith),
        λ (item', found, same, named).
            let q : item ≡ item' = ground arith in
            let bare' = (provenance_iff item').1 named in
            absurd (ground (arith, ap lacks_provenance q)),
      )
      | inr named ↦ (
        λ h. (item, e, (eq_iff item.gate_id gate.id).0 own, (provenance_iff item).0 named),
        λ k. rw (e, own, named) refl,
      )
    ]
    | inr other ↦ (
      λ h. absurd (ground arith),
      λ (item', found, same, named).
          let q : item ≡ item' = ground arith in
          absurd (ground (arith, ap GateEvidence.gate_id q, eq_iff item.gate_id gate.id)),
    )
  ]
]

items_reasons_iff :
    (gate : QualityGate) (evidence : List GateEvidence) (ids : List String)
    → (is_empty (items_reasons gate evidence ids) ≡ true) ↔ All (IsSupport gate evidence) ids
items_reasons_iff gate evidence [] = (λ h. tt, λ h. refl)
items_reasons_iff gate evidence (id ∷ ids) =
    let (split, join) =
      is_empty-append (item_reasons gate id (evidence_by_id evidence id))
        (items_reasons gate evidence ids) in
    let (to, from) = item_reasons_iff gate evidence id in
    let (tos, froms) = items_reasons_iff gate evidence ids in
    (λ h. (to (split h).0, tos (split h).1), λ (k, ks). join (from k, froms ks))

-- A gate may pass exactly when it lists at least one evidence id, and each listed evidence exists,
-- belongs to the gate, and names its source and its revision.
pub can_pass_iff :
    (gate : QualityGate) (evidence : List GateEvidence)
    → (assert_quality_gate_can_pass gate evidence ≡ ok tt)
      ↔ ((is_empty gate.evidence_ids ≡ false) × All (IsSupport gate evidence) gate.evidence_ids)
unfolding assert_quality_gate_can_pass
can_pass_iff gate evidence =
    let (split, join) =
      is_empty-append
        (if is_empty gate.evidence_ids then "PASS requires at least one evidence ID" ∷ [] else [])
        (items_reasons gate evidence gate.evidence_ids) in
    let (to, from) = items_reasons_iff gate evidence gate.evidence_ids in
    (
      λ h. let quiet = split (ground arith) in (ground arith, to quiet.1),
      λ (some_id, k). rw (join (rw some_id refl, from k)) refl,
    )
