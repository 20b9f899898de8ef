-- ===== src/Shared/Sorting.antt =====
-- `Array.prototype.sort` with a comparator: a stable insertion sort. For a comparator that is a
-- total preorder the stable sorted order is unique, so any stable sort gives this result.
use mathlib.Core.Path.{◌≡◌}
use mathlib.Core.Bool.{Bool, true, false}
use mathlib.Core.List.{List, [], ◌∷◌, Perm}
use mathlib.Core.List.Perm
use software_blueprint_hub.Shared.Tests.{if◌then◌else◌, Bool-cases}
use software_blueprint_hub.Shared.Lists.{All, In}
use mathlib.Core.Logic.{◌↔◌, ◌⊎◌, inl, inr}

module _ {ℓ} {A : Type ℓ} (le : A → A → Bool) where
  unfoldable pub insert : A → List A → List A
  insert a [] = a ∷ []
  insert a (x ∷ xs) = let later = x ∷ insert a xs in if le a x then a ∷ x ∷ xs else later

  unfoldable pub sort : List A → List A
  unfolding insert
  sort [] = []
  sort (x ∷ xs) = insert x (sort xs)

  abbrev pub IsSorted : List A → Type 0
  IsSorted [] = Unit
  IsSorted (x ∷ xs) = All (λ y. le x y ≡ true) xs × IsSorted xs

  pub insert-perm : (a : A) (xs : List A) → Perm (insert a xs) (a ∷ xs)
  unfolding insert
  insert-perm a [] = Perm.refl _
  insert-perm a (x ∷ xs) = elim (Bool-cases (le a x)) [
    | inl e ↦ rw e (Perm.refl _)
    | inr e ↦ rw e (Perm.trans (Perm.cons x (insert-perm a xs)) (Perm.swap _ _ _))
  ]

  pub sort-perm : (xs : List A) → Perm (sort xs) xs
  unfolding sort
  sort-perm [] = Perm.refl _
  sort-perm (x ∷ xs) = Perm.trans (insert-perm x (sort xs)) (Perm.cons x (sort-perm xs))

  pub insert-All {κ} : (P : A → Type κ) (a : A) (xs : List A) → P a → All P xs → All P (insert a xs)
  unfolding insert
  insert-All P a [] p h = (p, tt)
  insert-All P a (x ∷ xs) p h = elim (Bool-cases (le a x)) [
    | inl e ↦ rw e (p, h)
    | inr e ↦ rw e (h.0, insert-All P a xs p h.1)
  ]

  pub sort-All {κ} : (P : A → Type κ) (xs : List A) → All P xs → All P (sort xs)
  unfolding sort
  sort-All P [] h = tt
  sort-All P (x ∷ xs) h = insert-All P x (sort xs) h.0 (sort-All P xs h.1)

module _ {ℓ} {A : Type ℓ} (le : A → A → Bool) (total : (a b : A) → le a b ≡ false → le b a ≡ true)
    (trans : (a b c : A) → le a b ≡ true → le b c ≡ true → le a c ≡ true) where
  All-le_trans :
      (a x : A) (xs : List A)
      → le a x ≡ true
      → All (λ y. le x y ≡ true) xs
      → All (λ y. le a y ≡ true) xs
  All-le_trans a x [] e h = tt
  All-le_trans a x (y ∷ ys) e h = (trans a x y e h.0, All-le_trans a x ys e h.1)

  insert-IsSorted : (a : A) (xs : List A) → IsSorted le xs → IsSorted le (insert le a xs)
  unfolding insert
  insert-IsSorted a [] h = (tt, tt)
  insert-IsSorted a (x ∷ xs) h = elim (Bool-cases (le a x)) [
    | inl e ↦ rw e ((e, All-le_trans a x xs e h.0), h)
    | inr e ↦
        rw e (insert-All le (λ y. le x y ≡ true) a xs (total a x e) h.0, insert-IsSorted a xs h.1)
  ]

  pub sort-IsSorted : (xs : List A) → IsSorted le (sort le xs)
  unfolding sort
  sort-IsSorted [] = tt
  sort-IsSorted (x ∷ xs) = insert-IsSorted x (sort le xs) (sort-IsSorted xs)

module _ {A : Type 0} (le : A → A → Bool) where
  In-insert_iff : (x : A) (xs : List A) (a : A) → In a (insert le x xs) ↔ ((x ≡ a) ⊎ In a xs)
  unfolding insert
  In-insert_iff x [] a = (λ h. h, λ h. h)
  In-insert_iff x (y ∷ xs) a =
      let (to, from) = In-insert_iff x xs a in
      elim (Bool-cases (le x y)) [
        | inl e ↦ rw e (λ h. h, λ h. h)
        | inr e ↦ rw e (
          elim [
            | inl q ↦ inr (inl q)
            | inr i ↦ elim (to i) [ inl q ↦ inl q | inr j ↦ inr (inr j) ]
          ],
          elim [
            | inl q ↦ inr (from (inl q))
            | inr i ↦ elim i [ inl q ↦ inl q | inr j ↦ inr (from (inr j)) ]
          ],
        )
      ]

  pub In-sort_iff : (xs : List A) (a : A) → In a (sort le xs) ↔ In a xs
  unfolding sort
  In-sort_iff [] a = (λ h. h, λ h. h)
  In-sort_iff (x ∷ xs) a =
      let (to, from) = In-sort_iff xs a in
      let (out, back) = In-insert_iff x (sort le xs) a in
      (
        λ i. elim (out i) [ inl q ↦ inl q | inr j ↦ inr (to j) ],
        elim [ inl q ↦ back (inl q) | inr j ↦ back (inr (from j)) ],
      )

-- Each element is related to every later one.
abbrev pub Pairwise : {A : Type 0} → (A → A → Type 0) → List A → Type 0
Pairwise R [] = Unit
Pairwise R (x ∷ xs) = All (R x) xs × Pairwise R xs

module _ {A : Type 0} (le : A → A → Bool) (R : A → A → Type 0)
    (symm : (a b : A) → R a b → R b a) where
  insert-Pairwise :
      (x : A) (xs : List A) → All (R x) xs → Pairwise R xs → Pairwise R (insert le x xs)
  unfolding insert
  insert-Pairwise x [] h d = (tt, tt)
  insert-Pairwise x (y ∷ xs) h d = elim (Bool-cases (le x y)) [
    | inl e ↦ rw e (h, d)
    | inr e ↦ rw e (insert-All le (R y) x xs (symm x y h.0) d.0, insert-Pairwise x xs h.1 d.1)
  ]

  -- Sorting keeps a symmetric relation between all elements.
  pub sort-Pairwise : (xs : List A) → Pairwise R xs → Pairwise R (sort le xs)
  unfolding sort
  sort-Pairwise [] d = tt
  sort-Pairwise (x ∷ xs) d =
      insert-Pairwise x (sort le xs) (sort-All le (R x) xs d.0) (sort-Pairwise xs d.1)
