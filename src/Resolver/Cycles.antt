-- ===== src/Resolver/Cycles.antt =====
-- `cycleConflicts` of packages/blueprint-engine/src/resolver.ts. The stack is the path of the search,
-- which are the ids whose state is "visiting"; the others with a state are "done". The fuel is one
-- more than the number of required modules.
use Prim.Native.String.{◌++◌ as ◌+++◌}
use software_blueprint_hub.Shared.{
  ◌+◌, String, Bool, Option, none, some, List, [], ◌∷◌, ◌++◌, ◌==◌, if◌then◌else◌, filter, length,
  includes, dedup,
}
use software_blueprint_hub.Shared.Text.{sort_texts}
use software_blueprint_hub.Shared.Search.{Walk, visit, visit_all}
use software_blueprint_hub.Resolver.{Requirement, dependency_cycle, ResolutionConflict}
use software_blueprint_hub.Resolver.Fingerprint.{make_conflict}
use software_blueprint_hub.Resolver.Merge.{get}
use software_blueprint_hub.Resolver.Closure.{required_modules}

pub record CycleLog : Type 0 where
  pub seen_cycles : List String
  pub conflicts : List ResolutionConflict

-- `stack.slice(stack.indexOf(id))`, for an id of the stack.
abbrev pub from_first : String → List String → List String
from_first id [] = []
from_first id (x ∷ xs) = if x == id then x ∷ xs else from_first id xs

-- `texts.join("|")`
unfoldable pub piped : List String → String
piped [] = ""
piped (x ∷ []) = x
piped (x ∷ y ∷ ys) = x +++ "|" +++ piped (y ∷ ys)

abbrev pub depends_on_of : Option Requirement → List String
depends_on_of none = []
depends_on_of (some r) = r.depends_on

-- The ids that `visit` goes on to.
unfoldable pub module_successors : List Requirement → String → List String
unfolding get sort_texts required_modules
module_successors rs id =
    filter (includes (required_modules rs)) (sort_texts (depends_on_of (get id rs)))

module _ (le : String → String → Bool) (sha256_hex : String → String) where
  -- `if (!seenCycles.has(key)) { … }`
  abbrev pub log_cycle : String → List String → List String → CycleLog → CycleLog
  log_cycle id cycle normalized log =
      let key = piped normalized in
      if includes log.seen_cycles key then log else record {
        seen_cycles = key ∷ log.seen_cycles;
        conflicts =
            log.conflicts
            ++ (make_conflict le sha256_hex dependency_cycle id "dependsOn" normalized cycle ∷ []);
      }

  unfoldable pub report_module_cycle : List String → String → CycleLog → CycleLog
  unfolding piped make_conflict dedup sort_texts
  report_module_cycle stack id log =
      let cycle = from_first id stack ++ (id ∷ []) in
      log_cycle id cycle (sort_texts (dedup cycle)) log

  module _ (rs : List Requirement) where
    unfoldable pub cycle_search : Option (Walk CycleLog)
    unfolding visit module_successors report_module_cycle required_modules sort_texts
    cycle_search =
        visit_all
          (visit (module_successors rs) report_module_cycle (length (required_modules rs) + 1) [])
          (sort_texts (required_modules rs))
          (record { visited = []; log = record { seen_cycles = []; conflicts = [] } })
