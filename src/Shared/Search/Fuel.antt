-- ===== src/Shared/Search/Fuel.antt =====
-- The search ends: more fuel than there are ids off the path is enough.
use Prim.Native.Nat.{ℕ, zero, suc, ◌≤◌, ◌<◌}
use Prim.Native.String.{String}
use mathlib.Core.Path.{◌≡◌, refl}
use mathlib.Core.Logic.{inl, inr}
use mathlib.Core.Bool.{Bool, true, false, not, ◌||◌}
use mathlib.Core.Option.{Option, some}
use mathlib.Core.List.{List, [], ◌∷◌, ◌++◌}
use native.Mathlib.Omega.{arith}
use text.Mathlib.TextEquality.{eq_iff}
use software_blueprint_hub.Shared.Tests.{Bool-cases}
use software_blueprint_hub.Shared.Lists.{length, filter, includes, In, All}
use software_blueprint_hub.Shared.Search.{Walk, visit_all, visit}

pub includes-append :
    (xs ys : List String) (s : String) → includes (xs ++ ys) s ≡ (includes xs s || includes ys s)
includes-append [] ys s = refl
includes-append (x ∷ xs) ys s = ground (arith, includes-append xs ys s)

module _ (p q : String → Bool) (weaker : (x : String) → q x ≡ true → p x ≡ true) where
  filter-le : (xs : List String) → length (filter q xs) ≤ length (filter p xs)
  filter-le [] = omega arith
  filter-le (x ∷ xs) = ground (arith, filter-le xs, weaker x)

  -- The stronger test that a passing element fails keeps fewer elements.
  filter-lt :
      (xs : List String) (a : String)
      → In a xs
      → p a ≡ true
      → q a ≡ false
      → length (filter q xs) < length (filter p xs)
  filter-lt [] a i h k = absurd i
  filter-lt (x ∷ xs) a (inl e) h k =
      let here : p x ≡ true = rw e h in
      let out : q x ≡ false = rw e k in ground (arith, filter-le xs)
  filter-lt (x ∷ xs) a (inr i) h k = ground (arith, filter-lt xs a i h k, weaker x)

-- How many of the ids are not on the path.
abbrev pub off : List String → List String → ℕ
off keys trail = length (filter (λ k. not (includes trail k)) keys)

module _ {Log : Type 0} (successors : String → List String)
    (report : List String → String → Log → Log) (keys : List String)
    (closed : (id : String) → All (λ y. In y keys) (successors id)) where
  off-lt :
      (trail : List String) (id : String)
      → In id keys
      → includes trail id ≡ false
      → off keys (trail ++ (id ∷ [])) < off keys trail
  off-lt trail id i e =
      filter-lt (λ k. not (includes trail k)) (λ k. not (includes (trail ++ (id ∷ [])) k))
        (λ x h. ground (arith, includes-append trail (id ∷ []) x)) keys id i (rw e refl)
        (ground (arith, includes-append trail (id ∷ []) id, eq_iff id id))

  pub visit_all-some :
      (f : String → Walk Log → Option (Walk Log))
      → ((id : String) (w : Walk Log) → In id keys → (w' : Walk Log) × (f id w ≡ some w'))
      → (ids : List String) (w : Walk Log) → All (λ y. In y keys) ids
      → (w' : Walk Log) × (visit_all f ids w ≡ some w')
  visit_all-some f total [] w h = (w, refl)
  visit_all-some f total (id ∷ ids) w (i, h) =
      let (u, e) = total id w i in
      let (w', rest) = visit_all-some f total ids u h in (w', rw e rest)

  pub visit-some :
      (fuel : ℕ) (trail : List String) (id : String) (w : Walk Log)
      → In id keys
      → off keys trail < fuel
      → (w' : Walk Log) × (visit successors report fuel trail id w ≡ some w')
  unfolding visit
  visit-some zero trail id w i h = absurd (omega arith)
  visit-some (suc fuel) trail id w i h = elim (Bool-cases (includes trail id)) [
    | inl e ↦ (record w { log = report trail id w.log }, rw e refl)
    | inr e ↦ elim (Bool-cases (includes w.visited id)) [
      | inl f ↦ (w, rw (e, f) refl)
      | inr f ↦
          let fewer = off-lt trail id i e in
          let (u, below) =
            visit_all-some (visit successors report fuel (trail ++ (id ∷ [])))
              (λ y v j. visit-some fuel (trail ++ (id ∷ [])) y v j (omega (arith, fewer)))
              (successors id) w (closed id) in
          (record u { visited = id ∷ u.visited }, rw (e, f) (rw below refl))
    ]
  ]
