-- ===== src/Constitution/Transition/Ids.antt =====
-- `cleanIds`: what the cleaned list of evidence ids holds.
use software_blueprint_hub.Shared.{
  In-dedup_iff, dedup, String, ◌≡◌, ◌↔◌, inl, inr, Bool, true, false, not, Option, List, [], ◌∷◌,
  arith, map, filter, In, eq_iff, ◌==◌, Bool-cases, In-filter_iff, All-In, In-All,
}
use software_blueprint_hub.Shared.Sorting.{
  IsSorted, sort-IsSorted, Pairwise, sort-Pairwise, In-sort_iff,
}
use software_blueprint_hub.Shared.Text.{trim, sort_texts, text_le, text_le_total, text_le_trans}
use software_blueprint_hub.Constitution.Transition.{clean_ids, non_blank, or_empty}

abbrev pub Differ : String → String → Type 0
Differ x y = (x == y) ≡ false

-- No text stands twice.
abbrev pub Distinct : List String → Type 0
Distinct = Pairwise Differ

filter-Distinct : (p : String → Bool) (xs : List String) → Distinct xs → Distinct (filter p xs)
filter-Distinct p [] d = tt
filter-Distinct p (x ∷ xs) d = elim (Bool-cases (p x)) [
  | inl e ↦ rw e (
    All-In _ (filter p xs)
        (λ a i. In-All (λ y. (x == y) ≡ false) xs a d.0 ((In-filter_iff p xs a).0 i).0),
    filter-Distinct p xs d.1,
  )
  | inr e ↦ rw e (filter-Distinct p xs d.1)
]

dedup-Distinct : (xs : List String) → Distinct (dedup xs)
unfolding dedup
dedup-Distinct [] = tt
dedup-Distinct (x ∷ xs) = (
  All-In _ _
      (λ a i. let (j, q) = (In-filter_iff (λ y. not (x == y)) (dedup xs) a).0 i in ground arith),
  filter-Distinct (λ y. not (x == y)) (dedup xs) (dedup-Distinct xs),
)

pub Differ-symm : (x y : String) → Differ x y → Differ y x
Differ-symm x y h = ground (arith, eq_iff x y, eq_iff y x)

-- The cleaned ids are in the default sort order and distinct, and an id is among them exactly when
-- it is a given id, trimmed, that is not empty.
pub clean_ids_lem :
    (values : Option (List String))
    → IsSorted text_le (clean_ids values)
      × Distinct (clean_ids values)
      × ((id : String)
          → In id (clean_ids values) ↔ (In id (map trim (or_empty values)) × (non_blank id ≡ true)))
unfolding clean_ids sort_texts
clean_ids_lem values =
    let kept = filter non_blank (map trim (or_empty values)) in
    (
      sort-IsSorted text_le text_le_total text_le_trans (dedup kept),
      sort-Pairwise text_le Differ Differ-symm (dedup kept) (dedup-Distinct kept),
      λ id.
          let (s, s') = In-sort_iff text_le (dedup kept) id in
          let (d, d') = In-dedup_iff kept id in
          let (f, f') = In-filter_iff non_blank (map trim (or_empty values)) id in
          (λ i. f (d (s i)), λ h. s' (d' (f' h))),
    )
