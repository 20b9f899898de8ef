-- ===== src/Examples/Resolutions.antt =====
-- The theorems on the resolver at a concrete input.
use software_blueprint_hub.Shared.{
  String, ◌≡◌, refl, inl, inr, false, none, some, List, [], ◌∷◌, Result, ok, In,
}
use software_blueprint_hub.Shared.Text.{text_le}
use software_blueprint_hub.Shared.Search.Paths.{IsGrounded}
use software_blueprint_hub.Shared.StableJson.{json_null}
use software_blueprint_hub.Resolver.{
  AuthorityLayer, RequirementKind, RequirementDepth, TemplateRequirement, BlueprintTemplate,
  ProjectProfile, Requirement,
}
use software_blueprint_hub.Resolver.Growth.{Honours}
use software_blueprint_hub.Resolver.Blueprint.{ResolvedBlueprint, Resolution, success}
use software_blueprint_hub.Resolver.Resolve.{ResolutionInput, resolve_blueprint}
use software_blueprint_hub.Resolver.Resolved.{resolve-Honours}
use software_blueprint_hub.Resolver.Graph.{
  targets, resolve_closed, resolve-IsGrounded, resolve_ends,
}

abbrev requirement : String → List String → TemplateRequirement
requirement id depends_on = record {
  id = id;
  kind = RequirementKind.module_kind;
  required = none;
  depth = none;
  tags = none;
  depends_on = some depends_on;
  constraint = none;
  description = none;
}

abbrev optional_store : TemplateRequirement
optional_store = record (requirement "module:store" []) { required = some false }

abbrev template : BlueprintTemplate
template = record {
  schema_version = "1.0.0";
  id = "template:base";
  version = "1.0.0";
  authority_layer = AuthorityLayer.constitution;
  activation = none;
  requirements = requirement "module:api" ("module:store" ∷ []) ∷ optional_store ∷ [];
}

abbrev profile : ProjectProfile
profile = record {
  project_id = "project:hub";
  schema_version = "1.0.0";
  record_version = 1;
  blueprint_level = "B1";
  project_type = "web";
  data_sensitivity = "public";
  persistence = "none";
  authentication = "none";
  authorization = "none";
  offline_requirement = none;
  ai_use = none;
  extensibility_requirement = none;
  expected_lifetime = "years";
  external_integrations = none;
  document = json_null;
}

abbrev input : ResolutionInput
input = record { profile = profile; templates = template ∷ []; project_additions = none }

abbrev sha256_hex : String → String
sha256_hex s = "digest"

abbrev empty_blueprint : ResolvedBlueprint
empty_blueprint = record {
  resolution_id = "";
  resolver_version = "";
  input_fingerprint = "";
  project_id = "";
  profile_record_version = 0;
  activated_templates = [];
  required_modules = [];
  required_gates = [];
  dependency_edges = [];
  rationale = [];
  warnings = [];
}

abbrev blueprint_or : Result Resolution → ResolvedBlueprint × List Requirement
blueprint_or (ok (success b out)) = (b, out)
blueprint_or _ = (empty_blueprint, [])

abbrev resolved : ResolvedBlueprint × List Requirement
unfolding resolve_blueprint
resolved = blueprint_or (resolve_blueprint text_le sha256_hex input)

-- The stored requirement is required since the other depends on it.
resolved_modules : resolved.0.required_modules ≡ "module:api" ∷ "module:store" ∷ []
unfolding resolved software_blueprint_hub.Resolver.Merge.merge_requirement
resolved_modules = refl

resolve_ends_example : (r : Resolution) × (resolve_blueprint text_le sha256_hex input ≡ ok r)
unfolding software_blueprint_hub.Resolver.Versions.validate_template
    software_blueprint_hub.Resolver.Resolve.sorted_templates
    software_blueprint_hub.Resolver.Activation.is_active
resolve_ends_example = resolve_ends text_le sha256_hex input (template ∷ []) refl refl refl

resolve-IsGrounded_example : IsGrounded (targets resolved.0.dependency_edges) "module:api"
unfolding resolve_blueprint software_blueprint_hub.Resolver.Merge.merge_requirement
resolve-IsGrounded_example =
    resolve-IsGrounded text_le sha256_hex input resolved.0 resolved.1 "module:api" refl

abbrev first_of : List Requirement → Requirement
first_of [] = record {
  id = "";
  kind = RequirementKind.gate_kind;
  required = false;
  depth = RequirementDepth.basic;
  tags = [];
  depends_on = [];
  constraint = none;
  sources = [];
}
first_of (r ∷ rs) = r

resolve_closed_example :
    In "module:store" resolved.0.required_modules
    × In
        (record { from_id = (first_of resolved.1).id; to_id = "module:store" })
        resolved.0.dependency_edges
unfolding resolve_blueprint software_blueprint_hub.Resolver.Merge.merge_requirement
resolve_closed_example =
    resolve_closed text_le sha256_hex input resolved.0 resolved.1 (first_of resolved.1)
      "module:store" refl (inl refl) refl (inl refl)

resolve-Honours_example : (q : Requirement) × In q resolved.1 × Honours template optional_store q
unfolding resolve_blueprint software_blueprint_hub.Resolver.Merge.merge_requirement
resolve-Honours_example =
    resolve-Honours text_le sha256_hex input resolved.0 resolved.1 (template ∷ []) template
      optional_store refl refl (inl refl) (inr (inl refl))
