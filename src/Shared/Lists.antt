-- ===== src/Shared/Lists.antt =====
-- Lists measured by native numbers and searched by Boolean tests: the JavaScript array and `Set`
-- operations that the source uses (includes, some, every, find, filter, new Set).
use Prim.Native.Nat.{ℕ, suc, ◌+◌}
use Prim.Native.String.{String}
use mathlib.Core.Path.{◌≡◌, refl}
use mathlib.Core.Logic.{◌↔◌, ◌⊎◌, inl, inr}
use mathlib.Core.Bool.{Bool, true, false, not, ◌&&◌, ◌||◌}
use mathlib.Core.Option.{Option, none, some}
use mathlib.Core.List.{List, [], ◌∷◌, ◌++◌, map}
use native.Mathlib.Omega.{arith}
use text.Mathlib.Text.{◌==◌}
use text.Mathlib.TextEquality.{eq_iff}
use software_blueprint_hub.Shared.Tests.{if◌then◌else◌, Bool-cases}

module _ {ℓ} {A : Type ℓ} where
  abbrev pub length : List A → ℕ
  length [] = 0
  length (x ∷ xs) = suc (length xs)

  abbrev pub is_empty : List A → Bool
  is_empty [] = true
  is_empty (x ∷ xs) = false

  abbrev pub all : (A → Bool) → List A → Bool
  all p [] = true
  all p (x ∷ xs) = p x && all p xs

  abbrev pub any : (A → Bool) → List A → Bool
  any p [] = false
  any p (x ∷ xs) = p x || any p xs

  abbrev pub find : (A → Bool) → List A → Option A
  find p [] = none
  find p (x ∷ xs) = if p x then some x else find p xs

  abbrev pub filter : (A → Bool) → List A → List A
  filter p [] = []
  filter p (x ∷ xs) = let rest = filter p xs in if p x then x ∷ rest else rest

  pub length-append : (xs ys : List A) → length (xs ++ ys) ≡ length xs + length ys
  length-append [] ys = omega arith
  length-append (x ∷ xs) ys = omega (arith, length-append xs ys)

  pub find-test : (p : A → Bool) (xs : List A) (a : A) → find p xs ≡ some a → p a ≡ true
  find-test p [] a h = ground arith
  find-test p (x ∷ xs) a h = ground (arith, find-test p xs a)

module _ {ℓ κ} {A : Type ℓ} (P : A → Type κ) where
  abbrev pub All : List A → Type κ
  All [] = Unit
  All (x ∷ xs) = P x × All xs

  pub All-append : (xs ys : List A) → All xs → All ys → All (xs ++ ys)
  All-append [] ys h k = k
  All-append (x ∷ xs) ys (p, h) k = (p, All-append xs ys h k)

  pub All-find : (p : A → Bool) (xs : List A) (a : A) → All xs → find p xs ≡ some a → P a
  All-find p [] a h e = absurd (ground arith)
  All-find p (x ∷ xs) a (h, hs) e = ground (arith, All-find p xs a hs)

-- `Array.prototype.includes` and `Set.prototype.has` on strings.
abbrev pub includes : List String → String → Bool
includes [] s = false
includes (x ∷ xs) s = x == s || includes xs s

-- `[...new Set(values)]`: the first occurrence of each value, in order.
unfoldable pub dedup : List String → List String
dedup [] = []
dedup (x ∷ xs) = x ∷ filter (λ y. not (x == y)) (dedup xs)

-- Membership, as a proposition that computes.
abbrev pub In : {A : Type 0} → A → List A → Type 0
In a [] = ⊥
In a (x ∷ xs) = (x ≡ a) ⊎ In a xs

pub find-In : {A : Type 0} (p : A → Bool) (xs : List A) (a : A) → find p xs ≡ some a → In a xs
find-In p [] a h = ground arith
find-In p (x ∷ xs) a h = ground (arith, find-In p xs a)

pub includes_iff : (xs : List String) (s : String) → (includes xs s ≡ true) ↔ In s xs
includes_iff [] s = ground arith
includes_iff (x ∷ xs) s = ground (arith, eq_iff x s, includes_iff xs s)

module _ {A : Type 0} where
  pub append-eq-nil : (xs ys : List A) → (xs ++ ys ≡ []) ↔ ((xs ≡ []) × (ys ≡ []))
  append-eq-nil [] ys = (λ h. (refl, h), λ h. h.1)
  append-eq-nil (x ∷ xs) ys = (λ h. cc, λ h. let k = h.0 in cc)

  pub In-append_iff : (xs ys : List A) (a : A) → In a (xs ++ ys) ↔ (In a xs ⊎ In a ys)
  In-append_iff [] ys a = (λ h. inr h, elim [ inl i ↦ absurd i | inr i ↦ i ])
  In-append_iff (x ∷ xs) ys a =
      let (to, from) = In-append_iff xs ys a in
      (
        elim [ inl e ↦ inl (inl e) | inr i ↦ elim (to i) [ inl j ↦ inl (inr j) | inr j ↦ inr j ] ],
        elim [
          | inl i ↦ elim i [ inl e ↦ inl e | inr j ↦ inr (from (inl j)) ]
          | inr i ↦ inr (from (inr i))
        ],
      )

  pub In-filter_iff :
      (p : A → Bool) (xs : List A) (a : A) → In a (filter p xs) ↔ (In a xs × (p a ≡ true))
  In-filter_iff p [] a = (λ h. absurd h, λ h. absurd h.0)
  In-filter_iff p (x ∷ xs) a =
      let (to, from) = In-filter_iff p xs a in
      elim (Bool-cases (p x)) [
        | inl e ↦ rw e (
          elim [ inl q ↦ (inl q, rw q at e) | inr i ↦ (inr (to i).0, (to i).1) ],
          λ (h, q). elim h [ inl i ↦ inl i | inr i ↦ inr (from (i, q)) ],
        )
        | inr e ↦ rw e (
          λ i. (inr (to i).0, (to i).1),
          λ (h, q). elim h [ inl i ↦ absurd (ground arith) | inr i ↦ from (i, q) ],
        )
      ]

  pub All-In {κ} : (P : A → Type κ) (xs : List A) → ((a : A) → In a xs → P a) → All P xs
  All-In P [] h = tt
  All-In P (x ∷ xs) h = (h x (inl refl), All-In P xs (λ a i. h a (inr i)))

  pub In-All {κ} : (P : A → Type κ) (xs : List A) (a : A) → All P xs → In a xs → P a
  In-All P [] a h i = absurd i
  In-All P (x ∷ xs) a h (inl e) = rw e at h.0
  In-All P (x ∷ xs) a h (inr i) = In-All P xs a h.1 i

  pub All-imp {κ κ'} :
      (P : A → Type κ) (Q : A → Type κ') (xs : List A) → ((a : A) → P a → Q a) → All P xs → All Q xs
  All-imp P Q [] h k = tt
  All-imp P Q (x ∷ xs) h (p, k) = (h x p, All-imp P Q xs h k)

pub In-dedup_iff : (xs : List String) (a : String) → In a (dedup xs) ↔ In a xs
unfolding dedup
In-dedup_iff [] a = (λ h. h, λ h. h)
In-dedup_iff (x ∷ xs) a =
    let (to, from) = In-dedup_iff xs a in
    let (out, back) = In-filter_iff (λ y. not (x == y)) (dedup xs) a in
    (
      λ h. elim h [ inl e ↦ inl e | inr i ↦ inr (to (out i).0) ],
      λ h. elim (Bool-cases (x == a)) [
        | inl same ↦ inl ((eq_iff x a).0 same)
        | inr other ↦ elim h [ inl e ↦ inl e | inr i ↦ inr (back (from i, rw other refl)) ]
      ],
    )

pub In-map_iff :
    {A B : Type 0} (f : A → B) (xs : List A) (b : B)
    → In b (map f xs) ↔ ((a : A) × In a xs × (f a ≡ b))
In-map_iff f [] b = (λ h. absurd h, λ (a, i, e). absurd i)
In-map_iff f (x ∷ xs) b =
    let (to, from) = In-map_iff f xs b in
    (
      elim [ inl e ↦ (x, inl refl, e) | inr i ↦ let (a, j, e) = to i in (a, inr j, e) ],
      λ (a, i, e). elim i [ inl q ↦ inl (rw q e) | inr j ↦ inr (from (a, j, e)) ],
    )
