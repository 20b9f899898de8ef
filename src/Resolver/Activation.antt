-- ===== src/Resolver/Activation.antt =====
-- Which templates a profile activates: `isActive` of packages/blueprint-engine/src/resolver.ts.
use Prim.Native.String.{◌++◌ as ◌+++◌}
use software_blueprint_hub.Shared.{
  String, Bool, true, false, not, Option, none, some, List, [], ◌∷◌, ◌==◌, if◌then◌else◌, includes,
  all, Result, ok, ◌>>=◌, ◌>>◌, check,
}
use software_blueprint_hub.Shared.Text.{trim, is_blank}
use software_blueprint_hub.Resolver.{
  ActivationField, level_field, type_field, sensitivity_field, persistence_field,
  authentication_field, authorization_field, offline_field, ai_field, extensibility_field,
  lifetime_field, integrations_field, Operator, equals, includes_value, ActivationCondition,
  TemplateActivation, BlueprintTemplate, ProjectProfile,
}

-- What `readActivationField` gives: a text, a list of texts, or undefined.
pub data FieldValue : Type 0 where
  one_text : String → FieldValue
  many_texts : List String → FieldValue
  undefined : FieldValue

abbrev pub optional_text : Option String → FieldValue
optional_text none = undefined
optional_text (some s) = one_text s

abbrev pub optional_texts : Option (List String) → FieldValue
optional_texts none = undefined
optional_texts (some ts) = many_texts ts

abbrev pub read_activation_field : ProjectProfile → ActivationField → FieldValue
read_activation_field p level_field = one_text p.blueprint_level
read_activation_field p type_field = one_text p.project_type
read_activation_field p sensitivity_field = one_text p.data_sensitivity
read_activation_field p persistence_field = one_text p.persistence
read_activation_field p authentication_field = one_text p.authentication
read_activation_field p authorization_field = one_text p.authorization
read_activation_field p offline_field = optional_text p.offline_requirement
read_activation_field p ai_field = optional_text p.ai_use
read_activation_field p extensibility_field = optional_text p.extensibility_requirement
read_activation_field p lifetime_field = one_text p.expected_lifetime
read_activation_field p integrations_field = optional_texts p.external_integrations

abbrev pub value_matches : Operator → String → FieldValue → Bool
value_matches equals value (one_text s) = s == value
value_matches includes_value value (many_texts ts) = includes ts value
value_matches _ value _ = false

unfoldable pub condition_matches : ProjectProfile → ActivationCondition → Bool
condition_matches p c = value_matches c.operator c.value (read_activation_field p c.field)

abbrev pub activates : ProjectProfile → String → Option TemplateActivation → Result Bool
activates p id none = ok true
activates p id (some a) = do
  check (not (is_blank (trim a.explanation)))
      ("Activated template " +++ id +++ " must define an explanation")
  ok (all (condition_matches p) a.all_of)

unfoldable pub is_active : ProjectProfile → BlueprintTemplate → Result Bool
unfolding condition_matches trim
is_active p t = activates p t.id t.activation

-- `sortedTemplates.filter(isActive)`, of which a test may throw.
abbrev pub activated_templates :
    ProjectProfile → List BlueprintTemplate → Result (List BlueprintTemplate)
activated_templates p [] = ok []
activated_templates p (t ∷ ts) = do
  active ← is_active p t
  rest ← activated_templates p ts
  ok (if active then t ∷ rest else rest)
