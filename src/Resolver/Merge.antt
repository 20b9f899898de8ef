-- ===== src/Resolver/Merge.antt =====
-- `mergeRequirement` of packages/blueprint-engine/src/resolver.ts. The map of requirements is the list
-- of its values, in the order of insertion; an object that is mutated is replaced in its place.
use Prim.Native.String.{◌++◌ as ◌+++◌}
use software_blueprint_hub.Shared.{
  String, Bool, true, false, ◌||◌, Option, none, some, List, [], ◌∷◌, ◌++◌, ◌==◌, map, ltb,
  if◌then◌else◌, includes, dedup,
}
use software_blueprint_hub.Shared.Sorting.{sort}
use software_blueprint_hub.Shared.Text.{trim, is_blank}
use software_blueprint_hub.Resolver.{
  RequirementKind, module_kind, gate_kind, kind_text, layer_text, RequirementDepth, basic,
  depth_rank, default, TemplateRequirement, BlueprintTemplate, RequirementSource, Requirement,
  incompatible_value, ResolutionConflict,
}
use software_blueprint_hub.Resolver.Fingerprint.{make_conflict, requirement_le}

-- `requirements.get(id)`
unfoldable pub get : String → List Requirement → Option Requirement
get id [] = none
get id (r ∷ rs) = if r.id == id then some r else get id rs

-- What a mutation of the object under the id leaves.
unfoldable pub put : Requirement → List Requirement → List Requirement
put r [] = []
put r (x ∷ xs) = let rest = x ∷ put r xs in if x.id == r.id then r ∷ xs else rest

-- `for (const value of values) set.add(value)`
unfoldable pub add_all : List String → List String → List String
add_all [] set = set
add_all (x ∷ xs) set = add_all xs (if includes set x then set else set ++ (x ∷ []))

unfoldable pub max_depth : RequirementDepth → RequirementDepth → RequirementDepth
max_depth current incoming =
    if ltb (depth_rank current) (depth_rank incoming) then incoming else current

abbrev pub same_kind : RequirementKind → RequirementKind → Bool
same_kind module_kind module_kind = true
same_kind gate_kind gate_kind = true
same_kind _ _ = false

-- The trimmed description, or the text that names the template.
abbrev pub reason_of : String → BlueprintTemplate → String
reason_of described t =
    if is_blank described
    then layer_text t.authority_layer +++ " requirement from " +++ t.id +++ "@" +++ t.version
    else described

unfoldable pub source_of : BlueprintTemplate → TemplateRequirement → RequirementSource
unfolding trim
source_of t r = record {
  source_id = t.id;
  authority_layer = t.authority_layer;
  version = t.version;
  reason = reason_of (trim (default r.description "")) t;
}

unfoldable pub fresh : BlueprintTemplate → TemplateRequirement → Requirement
unfolding source_of dedup
fresh t r = record {
  id = r.id;
  kind = r.kind;
  required = default r.required true;
  depth = default r.depth basic;
  tags = dedup (default r.tags []);
  depends_on = dedup (default r.depends_on []);
  constraint = r.constraint;
  sources = source_of t r ∷ [];
}

-- `existing.constraint`, after the requirement is merged.
abbrev pub merged_constraint : Option String → Option String → Option String
merged_constraint none incoming = incoming
merged_constraint (some c) incoming = some c

unfoldable pub merged : BlueprintTemplate → TemplateRequirement → Requirement → Requirement
unfolding source_of add_all max_depth
merged t r existing = record {
  id = existing.id;
  kind = existing.kind;
  required = existing.required || default r.required true;
  depth = max_depth existing.depth (default r.depth basic);
  tags = add_all (default r.tags []) existing.tags;
  depends_on = add_all (default r.depends_on []) existing.depends_on;
  constraint = merged_constraint existing.constraint r.constraint;
  sources = existing.sources ++ (source_of t r ∷ []);
}

pub record Resolving : Type 0 where
  pub requirements : List Requirement
  pub conflicts : List ResolutionConflict

module _ (le : String → String → Bool) (sha256_hex : String → String) where
  unfoldable pub incompatible :
      BlueprintTemplate
      → TemplateRequirement
      → Requirement
      → String
      → String
      → String
      → ResolutionConflict
  unfolding make_conflict
  incompatible t r existing field current incoming =
      make_conflict le sha256_hex incompatible_value r.id field
        (map RequirementSource.source_id existing.sources ++ (t.id ∷ [])) (current ∷ incoming ∷ [])

  abbrev pub constraint_conflicts :
      BlueprintTemplate
      → TemplateRequirement
      → Requirement
      → Option String
      → Option String
      → List ResolutionConflict
  constraint_conflicts t r existing none incoming = []
  constraint_conflicts t r existing (some c) none = []
  constraint_conflicts t r existing (some c) (some d) =
      if c == d then [] else incompatible t r existing "constraint" c d ∷ []

  abbrev pub merge_into :
      BlueprintTemplate → TemplateRequirement → Option Requirement → Resolving → Resolving
  merge_into t r none s = record s { requirements = s.requirements ++ (fresh t r ∷ []) }
  merge_into t r (some existing) s =
      if same_kind existing.kind r.kind
      then record {
        requirements = put (merged t r existing) s.requirements;
        conflicts =
            s.conflicts ++ constraint_conflicts t r existing existing.constraint r.constraint;
      }
      else record s {
        conflicts =
            s.conflicts
            ++ (incompatible t r existing "kind" (kind_text existing.kind) (kind_text r.kind) ∷ []);
      }

  unfoldable pub merge_requirement : BlueprintTemplate → TemplateRequirement → Resolving → Resolving
  unfolding get put fresh merged incompatible
  merge_requirement t r s = merge_into t r (get r.id s.requirements) s

  -- The requirements of one template, in their order.
  abbrev pub merge_all : BlueprintTemplate → List TemplateRequirement → Resolving → Resolving
  merge_all t [] s = s
  merge_all t (r ∷ rs) s = merge_all t rs (merge_requirement t r s)

  abbrev pub merge_templates : List BlueprintTemplate → Resolving → Resolving
  merge_templates [] s = s
  merge_templates (t ∷ ts) s =
      merge_templates ts (merge_all t (sort (requirement_le le) t.requirements) s)
