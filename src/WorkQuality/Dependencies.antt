-- ===== src/WorkQuality/Dependencies.antt =====
-- `validateWorkPackageDependencies` of packages/core/src/work-quality.ts. `visiting` is the set of the
-- ids of the path, so that the path alone is kept. The fuel is one more than the number of ids in
-- the graph; the value for its end is never taken.
use Prim.Native.String.{◌++◌ as ◌+++◌}
use software_blueprint_hub.Shared.{
  ◌+◌, String, Bool, true, false, ◌||◌, Option, none, some, List, [], ◌∷◌, ◌++◌, map, ◌==◌,
  if◌then◌else◌, filter, length, is_empty, dedup, Result, err, guard, plain_error,
  work_package_dependency_invalid,
}
use software_blueprint_hub.Shared.Search.{Walk, visit}
use software_blueprint_hub.WorkQuality.{WorkPackage}

-- What a `Map` that was built from a list of entries has for a key: the last of its entries.
abbrev pub or_else {ℓ} : {A : Type ℓ} → Option A → Option A → Option A
or_else none o = o
or_else (some a) o = some a

abbrev pub last_with {ℓ} : {A : Type ℓ} → (A → Bool) → List A → Option A
last_with p [] = none
last_with p (x ∷ xs) = or_else (last_with p xs) (if p x then some x else none)

-- `dependencyMap(packages).get(id)`
abbrev pub by_id : List WorkPackage → String → Option WorkPackage
by_id packages id = last_with (λ p. p.id == id) packages

abbrev pub is_some {ℓ} : {A : Type ℓ} → Option A → Bool
is_some none = false
is_some (some a) = true

abbrev pub dependencies_of : Option WorkPackage → List String
dependencies_of none = []
dependencies_of (some p) = p.dependencies

-- `ids.join(" -> ")`
abbrev pub joined : List String → String
joined [] = ""
joined (x ∷ []) = x
joined (x ∷ y ∷ ys) = x +++ " -> " +++ joined (y ∷ ys)

-- `reasons.push("dependency cycle: …")`
abbrev pub report_cycle : List String → String → List String → List String
report_cycle trail id reasons =
    reasons ++ (("dependency cycle: " +++ joined (trail ++ (id ∷ []))) ∷ [])

module _ (candidate : WorkPackage) (packages : List WorkPackage) where
  -- `graph.get(id) ?? []`, after `graph.set(candidate.id, candidate.dependencies)`
  abbrev pub edges : String → List String
  edges id =
      if candidate.id == id then candidate.dependencies else dependencies_of (by_id packages id)

  -- `graph.has(id)`
  abbrev pub is_node : String → Bool
  is_node id = (candidate.id == id) || is_some (by_id packages id)

  -- The ids that `visit` goes on to.
  unfoldable pub successors : String → List String
  successors id = filter is_node (edges id)

  -- What one dependency of the candidate is rejected for.
  abbrev pub dependency_reasons : String → Option WorkPackage → List String
  dependency_reasons id none = ("missing dependency " +++ id) ∷ []
  dependency_reasons id (some dependency) =
      if dependency.project_id == candidate.project_id
      then []
      else ("dependency " +++ id +++ " belongs to another project") ∷ []

  abbrev pub direct_reason : String → List String
  direct_reason id =
      if id == candidate.id
      then (candidate.id +++ " cannot depend on itself") ∷ []
      else dependency_reasons id (by_id packages id)

  -- The loop over the candidate's dependencies.
  abbrev pub direct_reasons : List String → List String
  direct_reasons [] = []
  direct_reasons (id ∷ ids) = direct_reason id ++ direct_reasons ids

  abbrev pub node_ids : List String
  node_ids = candidate.id ∷ map WorkPackage.id packages

  -- The search from the candidate, with the reasons found so far.
  unfoldable pub search : Option (Walk (List String))
  unfolding visit successors
  search =
      visit successors report_cycle (length node_ids + 1) [] candidate.id
        (record { visited = []; log = direct_reasons candidate.dependencies })

  -- `if (reasons.length) throw …`
  abbrev pub verdict : Option (Walk (List String)) → Result (Unit {0})
  verdict none = err (plain_error "the search did not end")
  verdict (some w) = guard (is_empty w.log) (work_package_dependency_invalid (dedup w.log))

  unfoldable pub validate_work_package_dependencies : Result (Unit {0})
  unfolding search dedup
  validate_work_package_dependencies = verdict search
