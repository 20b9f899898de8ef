-- ===== src/Shared/Search/Paths.antt =====
-- Paths along successors, and ids from which every path ends: what the search decides.
use Prim.Native.Nat.{ℕ, zero, suc, ◌<◌}
use Prim.Native.String.{String}
use mathlib.Core.Path.{◌≡◌, refl, sym, ap, ◌∙◌}
use mathlib.Core.Logic.{◌⊎◌, ◌↔◌, inl, inr}
use mathlib.Core.Option.{Option, some}
use mathlib.Core.List.{List, [], ◌∷◌, ◌++◌}
use native.Mathlib.Omega.{arith}
use software_blueprint_hub.Shared.Tests.{Bool-cases}
use software_blueprint_hub.Shared.Lists.{
  includes, includes_iff, In, All, In-All, All-imp, All-append,
}
use software_blueprint_hub.Shared.Search.{Walk, visit_all, visit}
use software_blueprint_hub.Shared.Search.Fuel.{off, visit-some}
use software_blueprint_hub.Shared.Search.Order.{
  visit_all-eq-some, IsOrdered, finished-eq-some, visit-IsAfter,
}

module _ (successors : String → List String) where
  -- A path of one step or more.
  pub data PathTo : String → String → Type 0 where
    one : {x y : String} → In y (successors x) → PathTo x y
    more : {x y z : String} → PathTo x y → In z (successors y) → PathTo x z

  -- Every path from the id ends.
  pub data IsGrounded : String → Type 0 where
    grounded : {x : String} → ((y : String) → In y (successors x) → IsGrounded y) → IsGrounded x

  pub below : {x : String} → IsGrounded x → (y : String) → In y (successors x) → IsGrounded y
  below (grounded f) = f

  -- A path starts with a step.
  first_step :
      {x z : String} → PathTo x z → (y : String) × In y (successors x) × ((y ≡ z) ⊎ PathTo y z)
  first_step (one {y = y} i) = (y, i, inl refl)
  first_step (more {z = z} p i) =
      let (y, j, rest) = first_step p in
      elim rest [ inl e ↦ (y, j, inr (one (rw e i))) | inr q ↦ (y, j, inr (more q i)) ]

  -- There is no cycle through a grounded id.
  pub IsGrounded-acyclic : {x : String} → IsGrounded x → ¬ (PathTo x x)
  IsGrounded-acyclic {x} (grounded f) p =
      let (y, i, rest) = first_step p in
      elim rest [
        | inl e ↦ IsGrounded-acyclic (f y i) (one (rw e (rw e at i)))
        | inr q ↦ IsGrounded-acyclic (f y i) (more q i)
      ]

  -- What a topological order lists is grounded.
  pub IsOrdered-IsGrounded :
      (xs : List String) → IsOrdered successors xs → (x : String) → In x xs → IsGrounded x
  IsOrdered-IsGrounded [] o x i = absurd i
  IsOrdered-IsGrounded (z ∷ xs) o x i =
      let rest = IsOrdered-IsGrounded xs o.1 in
      let top : IsGrounded z =
        grounded (λ y j. rest y (In-All (λ w. In w xs) (successors z) y o.0 j)) in
      elim i [ inl e ↦ rw (← e) top | inr j ↦ rest x j ]

module _ {Log : Type 0} (successors : String → List String)
    (report : List String → String → Log → Log) where
  pub visit_all-log :
      (f : String → Walk Log → Option (Walk Log))
      → (ids : List String) (w w' : Walk Log)
      → ((id : String) → In id ids → (v v' : Walk Log) → f id v ≡ some v' → v'.log ≡ v.log)
      → visit_all f ids w ≡ some w'
      → w'.log ≡ w.log
  visit_all-log f [] w w' same h = let e : w ≡ w' = ground arith in ap Walk.log (sym e)
  visit_all-log f (id ∷ ids) w w' same h =
      let (u, first, rest) = visit_all-eq-some f id ids w w' h in
      visit_all-log f ids u w' (λ y i. same y (inr i)) rest ∙ same id (inl refl) w u first

  -- A search from a grounded id, whose path so far leads to it, reports nothing.
  pub visit-log :
      (fuel : ℕ) (trail : List String) (id : String) (w w' : Walk Log)
      → All (λ x. PathTo successors x id) trail
      → IsGrounded successors id
      → visit successors report fuel trail id w ≡ some w'
      → w'.log ≡ w.log
  unfolding visit
  visit-log zero trail id w w' path g h = absurd (ground arith)
  visit-log (suc fuel) trail id w w' path g h = elim (Bool-cases (includes trail id)) [
    | inl e ↦
        let loop =
          In-All (λ x. PathTo successors x id) trail id path ((includes_iff trail id).0 e) in
        absurd (IsGrounded-acyclic successors g loop)
    | inr e ↦ elim (Bool-cases (includes w.visited id)) [
      | inl f ↦ let same : w ≡ w' = ground arith in ap Walk.log (sym same)
      | inr f ↦
          let (u, inside, same) = finished-eq-some successors report id _ w' (rw (e, f) at h) in
          ap Walk.log (sym same)
          ∙ visit_all-log (visit successors report fuel (trail ++ (id ∷ []))) (successors id) w u
              (λ y i v v' k.
                visit-log fuel (trail ++ (id ∷ [])) y v v'
                  (All-append (λ x. PathTo successors x y) trail (id ∷ [])
                    (All-imp (λ x. PathTo successors x id) (λ x. PathTo successors x y) trail
                      (λ x p. more p i) path)
                    (one i, tt))
                  (below successors g y i) k)
              inside
    ]
  ]

  -- With enough fuel the search from an id with nothing visited ends; and it reports nothing exactly
  -- when every path from the id ends.
  pub visit_iff :
      (Quiet : Log → Type 0)
      → ((trail : List String) (id : String) (l : Log) → Quiet (report trail id l) → ⊥)
      → (keys : List String) → ((id : String) → All (λ y. In y keys) (successors id))
      → (fuel : ℕ) (id : String) (l : Log) → In id keys
      → off keys [] < fuel
      → Quiet l
      → (w : Walk Log) × (visit successors report fuel [] id (record { visited = []; log = l })
          ≡ some w)
        × (Quiet w.log ↔ IsGrounded successors id)
  visit_iff Quiet loud keys closed fuel id l i enough quiet =
      let start : Walk Log = record { visited = []; log = l } in
      let (w, e) = visit-some successors report keys closed fuel [] id start i enough in
      (
        w,
        e,
        (
          λ q.
              let after = visit-IsAfter successors report Quiet loud fuel [] id start w e q tt in
              IsOrdered-IsGrounded successors w.visited after.ordered id after.listed.0,
          λ g. rw (visit-log fuel [] id start w tt g e) quiet,
        ),
      )
