-- ===== src/Resolver/Closure.antt =====
-- `dependencyClosure` of packages/blueprint-engine/src/resolver.ts. The loop runs on fuel, one turn for
-- each element that is ever in the queue and one more; `none` is the end of the fuel.
use Prim.Native.String.{◌++◌ as ◌+++◌}
use software_blueprint_hub.Shared.{
  ℕ, zero, suc, ◌+◌, String, Bool, true, ◌&&◌, Option, none, some, List, [], ◌∷◌, ◌++◌, map,
  if◌then◌else◌, filter, length, includes,
}
use software_blueprint_hub.Shared.Text.{sort_texts}
use software_blueprint_hub.Resolver.{
  constitution, is_module, RequirementSource, Requirement, missing_dependency,
}
use software_blueprint_hub.Resolver.Fingerprint.{make_conflict}
use software_blueprint_hub.Resolver.Merge.{get, put, Resolving}

abbrev pub is_required_module : Requirement → Bool
is_required_module r = is_module r.kind && r.required

-- `[...requirements.values()].filter(required module).map(id)`
unfoldable pub required_modules : List Requirement → List String
required_modules rs = map Requirement.id (filter is_required_module rs)

abbrev pub sources_of : Option Requirement → List String
sources_of none = []
sources_of (some r) = map RequirementSource.source_id r.sources

abbrev pub transitive_source : String → RequirementSource
transitive_source id = record {
  source_id = id;
  authority_layer = constitution;
  version = "1.0.0";
  reason = "Required transitively by " +++ id;
}

abbrev pub required_by : String → Requirement → Requirement
required_by id d = record d { required = true; sources = d.sources ++ (transitive_source id ∷ []) }

-- `if (!dependency.required) { … }`
abbrev pub require_dependency : String → Requirement → List Requirement → List Requirement
require_dependency id d rs = if d.required then rs else put (required_by id d) rs

-- How many ids all requirements depend on.
abbrev pub count_dependencies : List Requirement → ℕ
count_dependencies [] = 0
count_dependencies (r ∷ rs) = length r.depends_on + count_dependencies rs

pub record Turn : Type 0 where
  pub queue : List String
  pub state : Resolving

module _ (le : String → String → Bool) (sha256_hex : String → String) where
  abbrev pub missing : String → String → Turn → Turn
  missing id dependency_id w = record w {
    state = record w.state {
      conflicts =
          w.state.conflicts
          ++ (make_conflict le sha256_hex missing_dependency id "dependsOn"
                (sources_of (get id w.state.requirements)) (dependency_id ∷ [])
              ∷ []);
    };
  }

  abbrev pub queued : String → String → Requirement → Turn → Turn
  queued id dependency_id d w = record {
    queue = w.queue ++ (dependency_id ∷ []);
    state = record w.state { requirements = require_dependency id d w.state.requirements };
  }

  abbrev pub meet : String → String → Option Requirement → Turn → Turn
  meet id dependency_id none w = missing id dependency_id w
  meet id dependency_id (some d) w =
      if is_module d.kind then queued id dependency_id d w else missing id dependency_id w

  -- The loop over the dependencies of one module.
  unfoldable pub meet_all : String → List String → Turn → Turn
  unfolding get put make_conflict
  meet_all id [] w = w
  meet_all id (d ∷ ds) w = meet_all id ds (meet id d (get d w.state.requirements) w)

  abbrev pub expand : String → Option Requirement → Turn → Turn
  expand id none w = w
  expand id (some r) w = if is_module r.kind then meet_all id (sort_texts r.depends_on) w else w

  -- One turn, for an id that was not visited.
  unfoldable pub turn : String → Turn → Turn
  unfolding get sort_texts meet_all
  turn id w = expand id (get id w.state.requirements) w

  -- One turn of the loop, for the id that `queue.shift()` gives: the ids visited, and what is left.
  abbrev pub advance : List String → String → List String → Resolving → List String × Turn
  advance visited id rest s =
      let w : Turn = record { queue = rest; state = s } in
      if includes visited id then (visited, w) else (id ∷ visited, turn id w)

  unfoldable pub close : ℕ → List String → List String → Resolving → Option Resolving
  unfolding turn
  close zero visited queue s = none
  close (suc fuel) visited [] s = some s
  close (suc fuel) visited (id ∷ rest) s =
      let step = advance visited id rest s in close fuel step.0 step.1.queue step.1.state

  unfoldable pub dependency_closure : Resolving → Option Resolving
  unfolding close required_modules
  dependency_closure s =
      let queue = required_modules s.requirements in
      close (length queue + count_dependencies s.requirements + 1) [] queue s
