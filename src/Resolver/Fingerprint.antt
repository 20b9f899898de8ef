-- ===== src/Resolver/Fingerprint.antt =====
-- The JSON values that packages/blueprint-engine/src/resolver.ts hashes, and `makeConflict`.
-- `sha256_hex` is the hash of node:crypto, as hexadecimal digits.
use Prim.Native.String.{◌++◌ as ◌+++◌}
use software_blueprint_hub.Shared.{
  ℕ, zero, suc, String, Bool, true, Option, none, some, List, [], ◌∷◌, map,
}
use software_blueprint_hub.Shared.Sorting.{sort}
use software_blueprint_hub.Shared.Text.{sort_texts}
use software_blueprint_hub.Shared.StableJson.{
  Json, json_null, json_bool, json_text, json_array, json_object, no_members, named, items,
  texts_json, stable_json,
}
use software_blueprint_hub.Resolver.{
  layer_text, kind_text, basic, depth_text, default, TemplateRequirement, ActivationField,
  level_field, type_field, sensitivity_field, persistence_field, authentication_field,
  authorization_field, offline_field, ai_field, extensibility_field, lifetime_field,
  integrations_field, Operator, equals, includes_value, ActivationCondition, TemplateActivation,
  BlueprintTemplate, ProjectProfile, ConflictKind, incompatible_value, missing_dependency,
  dependency_cycle, ResolutionConflict,
}
use software_blueprint_hub.Resolver.Versions.{then_le, by_key}

-- `text.slice(0, n)`, of a text of hexadecimal digits.
unfoldable pub slice : ℕ → String → String
slice zero s = String.[]
slice (suc n) String.[] = String.[]
slice (suc n) (String.◌∷◌ c s) = String.◌∷◌ c (slice n s)

abbrev pub field_text : ActivationField → String
field_text level_field = "blueprintLevel"
field_text type_field = "projectType"
field_text sensitivity_field = "dataSensitivity"
field_text persistence_field = "persistence"
field_text authentication_field = "authentication"
field_text authorization_field = "authorization"
field_text offline_field = "offlineRequirement"
field_text ai_field = "aiUse"
field_text extensibility_field = "extensibilityRequirement"
field_text lifetime_field = "expectedLifetime"
field_text integrations_field = "externalIntegrations"

abbrev pub operator_text : Operator → String
operator_text equals = "equals"
operator_text includes_value = "includes"

abbrev pub conflict_kind_text : ConflictKind → String
conflict_kind_text incompatible_value = "INCOMPATIBLE_VALUE"
conflict_kind_text missing_dependency = "MISSING_DEPENDENCY"
conflict_kind_text dependency_cycle = "DEPENDENCY_CYCLE"

abbrev pub text_or_null : Option String → Json
text_or_null none = json_null
text_or_null (some s) = json_text s

abbrev pub suggested_kinds : List String
suggested_kinds =
    "correct-project-profile" ∷ "select-compatible-template" ∷ "publish-compatible-template-version"
    ∷ "record-adr-for-higher-contract-change" ∷ []

-- `normalizeRequirementForFingerprint`
abbrev pub requirement_json : TemplateRequirement → Json
requirement_json r = json_object (
    named "id" (json_text r.id) (
      named "kind" (json_text (kind_text r.kind)) (
        named "required" (json_bool (default r.required true)) (
          named "depth" (json_text (depth_text (default r.depth basic))) (
            named "tags" (texts_json (sort_texts (default r.tags []))) (
              named "dependsOn" (texts_json (sort_texts (default r.depends_on []))) (
                named "constraint" (text_or_null r.constraint)
                  (named "description" (json_text (default r.description "")) no_members))))))))

abbrev pub condition_json : ActivationCondition → Json
condition_json c = json_object (
    named "field" (json_text (field_text c.field)) (
      named "operator" (json_text (operator_text c.operator))
        (named "value" (json_text c.value) no_members)))

module _ (le : String → String → Bool) where
  -- The order of the requirements of a template: by id, then by kind.
  unfoldable pub requirement_le : TemplateRequirement → TemplateRequirement → Bool
  requirement_le = then_le (by_key le TemplateRequirement.id) (by_key le (λ r. kind_text r.kind))

  unfoldable pub condition_le : ActivationCondition → ActivationCondition → Bool
  unfolding stable_json
  condition_le = by_key le (λ c. stable_json le (condition_json c))

  unfoldable pub activation_json : Option TemplateActivation → Json
  unfolding sort condition_le
  activation_json none = json_null
  activation_json (some a) = json_object (
      named "explanation" (json_text a.explanation) (
        named "all" (json_array (items (map condition_json (sort condition_le a.all_of))))
          no_members))

  -- `normalizeTemplateForFingerprint`
  unfoldable pub template_json : BlueprintTemplate → Json
  unfolding sort requirement_le activation_json sort_texts
  template_json t = json_object (
      named "schemaVersion" (json_text t.schema_version) (
        named "id" (json_text t.id) (
          named "version" (json_text t.version) (
            named "authorityLayer" (json_text (layer_text t.authority_layer)) (
              named "activation" (activation_json t.activation) (
                named "requirements"
                  (json_array (items (map requirement_json (sort requirement_le t.requirements))))
                  no_members))))))

module _ (le : String → String → Bool) (sha256_hex : String → String) where
  -- `sha256(value)`
  unfoldable pub sha256 : Json → String
  unfolding stable_json
  sha256 value = sha256_hex (stable_json le value)

  -- `sha256(fingerprintInput)`
  unfoldable pub input_fingerprint : ProjectProfile → List BlueprintTemplate → String
  unfolding template_json sha256
  input_fingerprint profile templates = sha256 (
      json_object (
        named "resolverVersion" (json_text "1.0.0") (
          named "profile" profile.document (
            named "templates" (json_array (items (map (template_json le) templates))) no_members))))

  unfoldable pub make_conflict :
      ConflictKind → String → String → List String → List String → ResolutionConflict
  unfolding sha256 sort_texts slice
  make_conflict kind target field sources values =
      let core = json_object (
        named "kind" (json_text (conflict_kind_text kind)) (
          named "targetId" (json_text target) (
            named "field" (json_text field) (
              named "sources" (texts_json (sort_texts sources))
                (named "values" (texts_json (sort_texts values)) no_members))))) in
      record {
        conflict_id = "conflict:" +++ slice 32 (sha256 core);
        kind = kind;
        target_id = target;
        field = field;
        sources = sort_texts sources;
        values = sort_texts values;
        suggested_resolution_kinds = suggested_kinds;
      }
