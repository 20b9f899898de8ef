-- ===== src/Shared/Search.antt =====
-- Depth-first search by recursion, as packages/core/src/work-quality.ts and
-- packages/blueprint-engine/src/resolver.ts write it: the ids on the current path (`visiting`), the
-- ids that are finished (`visited`), and a report for an id that is met again on its own path. `none`
-- is the end of the fuel, which bounds the length of the path.
pub mod Fuel
pub mod Order
pub mod Paths
pub mod Kept
use Prim.Native.Nat.{ℕ, zero, suc}
use Prim.Native.String.{String}
use mathlib.Core.Bool.{Bool, true, false}
use mathlib.Core.Option.{Option, none, some}
use mathlib.Core.List.{List, [], ◌∷◌, ◌++◌}
use software_blueprint_hub.Shared.Tests.{if◌then◌else◌}
use software_blueprint_hub.Shared.Lists.{includes}

pub record Walk (Log : Type 0) : Type 0 where
  pub visited : List String
  pub log : Log

-- What follows a call that ended.
abbrev pub chain {ℓ} : {W : Type ℓ} → Option W → (W → Option W) → Option W
chain none next = none
chain (some w) next = next w

-- One call after the other, on the walk that the call before left.
abbrev pub visit_all {ℓ} : {W : Type ℓ} → (String → W → Option W) → List String → W → Option W
visit_all visit [] w = some w
visit_all visit (id ∷ ids) w = chain (visit id w) (visit_all visit ids)

module _ {Log : Type 0} (successors : String → List String)
    (report : List String → String → Log → Log) where
  abbrev pub finished : String → Option (Walk Log) → Option (Walk Log)
  finished id none = none
  finished id (some w) = some (record w { visited = id ∷ w.visited })

  unfoldable pub visit : ℕ → List String → String → Walk Log → Option (Walk Log)
  visit zero trail id w = none
  visit (suc fuel) trail id w =
      let below = visit_all (visit fuel (trail ++ (id ∷ []))) (successors id) w in
      if includes trail id
      then some (record w { log = report trail id w.log })
      else if includes w.visited id
      then some w
      else finished id below
