-- ===== src/Resolver/Resolve.antt =====
-- `resolveBlueprint` of packages/blueprint-engine/src/resolver.ts.
use Prim.Native.Char.{Char, code}
use Prim.Native.String.{◌++◌ as ◌+++◌}
use software_blueprint_hub.Shared.{
  String, Bool, not, Option, none, some, List, [], ◌∷◌, ◌++◌, ◌==◌, ltb, if◌then◌else◌, includes,
  Result, ok, err, ◌>>=◌, ◌>>◌, check, plain_error,
}
use software_blueprint_hub.Shared.Sorting.{sort}
use software_blueprint_hub.Shared.Search.{Walk}
use software_blueprint_hub.Resolver.{
  project_addition, default, TemplateRequirement, BlueprintTemplate, ProjectProfile, Requirement,
  ResolutionConflict,
}
use software_blueprint_hub.Resolver.Versions.{is_id_char, template_le, validate_template}
use software_blueprint_hub.Resolver.Fingerprint.{input_fingerprint}
use software_blueprint_hub.Resolver.Merge.{Resolving, merge_templates}
use software_blueprint_hub.Resolver.Closure.{dependency_closure}
use software_blueprint_hub.Resolver.Cycles.{CycleLog, cycle_search}
use software_blueprint_hub.Resolver.Activation.{is_active, activated_templates}
use software_blueprint_hub.Resolver.Blueprint.{
  Resolution, success, conflicted, conflict_le, blueprint_of, freeze_all,
}

-- `replace(/[^A-Za-z0-9._:-]/g, "-")`: a code point above 0xFFFF is two characters.
abbrev pub dashed_char : Char → String
dashed_char c =
    if is_id_char (code c)
    then String.◌∷◌ c String.[]
    else if ltb (code c) 0x10000
    then "-"
    else "--"

unfoldable pub dashed : String → String
dashed String.[] = String.[]
dashed (String.◌∷◌ c s) = dashed_char c +++ dashed s

pub record ResolutionInput : Type 0 where
  pub profile : ProjectProfile
  pub templates : List BlueprintTemplate
  pub project_additions : Option (List TemplateRequirement)

abbrev pub addition_template : ProjectProfile → List TemplateRequirement → List BlueprintTemplate
addition_template p [] = []
addition_template p (r ∷ rs) =
    record {
      schema_version = "1.0.0";
      id = "template:project-addition:" +++ dashed p.project_id;
      version = "1.0.0";
      authority_layer = project_addition;
      activation = none;
      requirements = r ∷ rs;
    }
    ∷ []

-- The loop that validates the templates; `seen` are the ids before.
abbrev pub check_templates : List String → List BlueprintTemplate → Result (Unit {0})
check_templates seen [] = ok tt
check_templates seen (t ∷ ts) = do
  validate_template t
  check (not (includes seen t.id))
      ("Resolution input must contain one exact version per template ID: " +++ t.id)
  check_templates (t.id ∷ seen) ts

-- The templates of an input, with that of its additions, in their order.
unfoldable pub sorted_templates :
    (String → String → Bool) → ResolutionInput → List BlueprintTemplate
unfolding dashed sort template_le
sorted_templates le i =
    sort (template_le le)
      (i.templates ++ addition_template i.profile (default i.project_additions []))

module _ (le : String → String → Bool) (sha256_hex : String → String) where
  -- The result, from the requirements and the conflicts of all steps.
  abbrev pub resolution_of :
      ProjectProfile
      → String
      → List BlueprintTemplate
      → List Requirement
      → List ResolutionConflict
      → Resolution
  resolution_of p fingerprint activated rs [] =
      success (blueprint_of le p fingerprint activated (freeze_all le rs)) (freeze_all le rs)
  resolution_of p fingerprint activated rs (c ∷ cs) =
      conflicted fingerprint p.project_id (sort (conflict_le le) (c ∷ cs))

  abbrev pub searched :
      ProjectProfile
      → String
      → List BlueprintTemplate
      → Resolving
      → Option (Walk CycleLog)
      → Result Resolution
  searched p fingerprint activated s none = err (plain_error "the search did not end")
  searched p fingerprint activated s (some w) =
      ok (resolution_of p fingerprint activated s.requirements (s.conflicts ++ w.log.conflicts))

  abbrev pub closed :
      ProjectProfile → String → List BlueprintTemplate → Option Resolving → Result Resolution
  closed p fingerprint activated none = err (plain_error "the closure did not end")
  closed p fingerprint activated (some s) =
      searched p fingerprint activated s (cycle_search le sha256_hex s.requirements)

  -- The requirements of the activated templates, merged.
  unfoldable pub merged_requirements : List BlueprintTemplate → Resolving
  merged_requirements activated =
      merge_templates le sha256_hex activated (record { requirements = []; conflicts = [] })

  unfoldable pub resolve_blueprint : ResolutionInput → Result Resolution
  unfolding input_fingerprint blueprint_of freeze_all conflict_le sorted_templates
      merged_requirements dependency_closure cycle_search sort validate_template is_active
  resolve_blueprint i = do
    check (i.profile.schema_version == "1.0.0")
        ("Unsupported ProjectProfile schema version " +++ i.profile.schema_version)
    check_templates [] i.templates
    let templates = sorted_templates le i
    activated ← activated_templates i.profile templates
    closed i.profile (input_fingerprint le sha256_hex i.profile templates) activated
        (dependency_closure le sha256_hex (merged_requirements activated))
