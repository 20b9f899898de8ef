-- ===== src/Shared/Search/Kept.antt =====
-- What every report keeps, the search keeps.
use Prim.Native.Nat.{ℕ, zero, suc}
use Prim.Native.String.{String}
use mathlib.Core.Path.{◌≡◌}
use mathlib.Core.Logic.{inl, inr}
use mathlib.Core.Option.{Option, some}
use mathlib.Core.List.{List, [], ◌∷◌, ◌++◌}
use native.Mathlib.Omega.{arith}
use software_blueprint_hub.Shared.Tests.{Bool-cases}
use software_blueprint_hub.Shared.Lists.{includes}
use software_blueprint_hub.Shared.Search.{Walk, visit_all, visit}
use software_blueprint_hub.Shared.Search.Order.{visit_all-eq-some, finished-eq-some}

module _ {Log : Type 0} (successors : String → List String)
    (report : List String → String → Log → Log) (P : Log → Type 0)
    (keeps : (trail : List String) (id : String) (l : Log) → P l → P (report trail id l)) where
  abbrev Keeps : (String → Walk Log → Option (Walk Log)) → Type 0
  Keeps f = (id : String) (w w' : Walk Log) → f id w ≡ some w' → P w.log → P w'.log

  pub visit_all-Keeps :
      (f : String → Walk Log → Option (Walk Log))
      → Keeps f
      → (ids : List String) (w w' : Walk Log) → visit_all f ids w ≡ some w'
      → P w.log
      → P w'.log
  visit_all-Keeps f each [] w w' h p = let e : w ≡ w' = ground arith in rw (← e) p
  visit_all-Keeps f each (id ∷ ids) w w' h p =
      let (u, one, rest) = visit_all-eq-some f id ids w w' h in
      visit_all-Keeps f each ids u w' rest (each id w u one p)

  pub visit-Keeps : (fuel : ℕ) (trail : List String) → Keeps (visit successors report fuel trail)
  unfolding visit
  visit-Keeps zero trail id w w' h p = absurd (ground arith)
  visit-Keeps (suc fuel) trail id w w' h p = elim (Bool-cases (includes trail id)) [
    | inl e ↦
        let same : record w { log = report trail id w.log } ≡ w' = ground arith in
        rw (← same) (keeps trail id w.log p)
    | inr e ↦ elim (Bool-cases (includes w.visited id)) [
      | inl f ↦ let same : w ≡ w' = ground arith in rw (← same) p
      | inr f ↦
          let (u, below, same) = finished-eq-some successors report id _ w' (rw (e, f) at h) in
          rw (← same)
            (visit_all-Keeps _ (visit-Keeps fuel (trail ++ (id ∷ []))) (successors id) w u below p)
    ]
  ]
