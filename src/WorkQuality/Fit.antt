-- ===== src/WorkQuality/Fit.antt =====
-- The reasons for which one dependency is rejected, and the ids of the graph.
use software_blueprint_hub.Shared.{
  append-eq-nil, ◌≤◌, String, ◌≡◌, refl, ap, ◌≢◌, ◌↔◌, inl, inr, Bool, true, some, List, [], ◌∷◌,
  map, ◌==◌, eq_iff, filter, length, In, In-filter_iff, All, All-In, arith, Bool-cases,
  Option-cases,
}
use software_blueprint_hub.Shared.Search.Fuel.{off}
use software_blueprint_hub.WorkQuality.{WorkPackage}
use software_blueprint_hub.WorkQuality.Dependencies.{
  last_with, by_id, edges, is_node, successors, direct_reason, direct_reasons, node_ids,
}

-- An entry of a map built from a list is an element of the list that passes.
pub last_with-In :
    {A : Type 0} (p : A → Bool) (xs : List A) (x : A)
    → last_with p xs ≡ some x
    → In x xs × (p x ≡ true)
last_with-In p [] x h = absurd (ground arith)
last_with-In p (y ∷ ys) x h = elim (Option-cases (last_with p ys)) [
  | inl e ↦ elim (Bool-cases (p y)) [
    | inl t ↦ let same : y ≡ x = ground arith in (inl same, rw (← same) t)
    | inr f ↦ absurd (ground arith)
  ]
  | inr (z, e) ↦
      let same : z ≡ x = ground arith in
      let (i, t) = last_with-In p ys z e in (inr (rw same at i), rw (← same) t)
]

In-map : (xs : List WorkPackage) (x : WorkPackage) → In x xs → In x.id (map WorkPackage.id xs)
In-map [] x i = i
In-map (y ∷ ys) x (inl e) = inl (ap WorkPackage.id e)
In-map (y ∷ ys) x (inr i) = inr (In-map ys x i)

module _ (c : WorkPackage) (ps : List WorkPackage) where
  -- The dependency is another package, it exists, and it is of the same project.
  abbrev pub IsFit : String → Type 0
  IsFit id =
      (id ≢ c.id) × ((d : WorkPackage) × (by_id ps id ≡ some d) × (d.project_id ≡ c.project_id))

  direct_reason_iff : (id : String) → (direct_reason c ps id ≡ []) ↔ IsFit id
  direct_reason_iff id = elim (Bool-cases (id == c.id)) [
    | inl e ↦ (λ h. absurd (ground arith), λ (other, found). absurd (other ((eq_iff id c.id).0 e)))
    | inr e ↦ elim (Option-cases (by_id ps id)) [
      | inl n ↦ (λ h. absurd (ground arith), λ (other, (d, found, k)). absurd (ground arith))
      | inr (d, found) ↦ (
        λ h. (
          λ same. absurd (ground (arith, eq_iff id c.id)),
          (d, found, (eq_iff d.project_id c.project_id).0 (ground arith)),
        ),
        λ (other, (d', found', same)). ground (arith, eq_iff d.project_id c.project_id),
      )
    ]
  ]

  pub direct_reasons_iff : (ids : List String) → (direct_reasons c ps ids ≡ []) ↔ All IsFit ids
  direct_reasons_iff [] = (λ h. tt, λ h. refl)
  direct_reasons_iff (id ∷ ids) =
      let (split, join) = append-eq-nil (direct_reason c ps id) (direct_reasons c ps ids) in
      let (to, from) = direct_reason_iff id in
      let (tos, froms) = direct_reasons_iff ids in
      (λ h. (to (split h).0, tos (split h).1), λ (k, ks). join (from k, froms ks))

  pub successors-In : (id : String) → All (λ y. In y (node_ids c ps)) (successors c ps id)
  unfolding successors
  successors-In id =
      All-In (λ y. In y (node_ids c ps)) (filter (is_node c ps) (edges c ps id))
        (λ y i. node-In y ((In-filter_iff (is_node c ps) (edges c ps id) y).0 i).1)
    where
      node-In : (y : String) → is_node c ps y ≡ true → In y (node_ids c ps)
      node-In y h = elim (Bool-cases (c.id == y)) [
        | inl e ↦ inl ((eq_iff c.id y).0 e)
        | inr e ↦ elim (Option-cases (by_id ps y)) [
          | inl n ↦ absurd (ground arith)
          | inr (d, found) ↦
              let (i, t) = last_with-In (λ p. p.id == y) ps d found in
              inr (rw ((eq_iff d.id y).0 t) at (In-map ps d i))
        ]
      ]

  pub off-start : (ids : List String) → off ids [] ≤ length ids
  off-start [] = omega arith
  off-start (x ∷ xs) = omega (arith, off-start xs)
