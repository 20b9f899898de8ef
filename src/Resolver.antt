-- ===== src/Resolver.antt =====
-- The resolver of blueprints: packages/blueprint-engine/src/resolver.ts. This file has its types;
-- `Set` values are lists without repeats, in the order of insertion.
pub mod Versions
pub mod Fingerprint
pub mod Merge
pub mod Entries
pub mod Growth
pub mod Merged
pub mod Marked
pub mod Closed
pub mod Ended
pub mod Acyclic
pub mod Closure
pub mod Cycles
pub mod Activation
pub mod Blueprint
pub mod Resolve
pub mod Resolved
pub mod Graph
use software_blueprint_hub.Shared.{ℕ, String, Bool, true, false, Option, none, some, List}
use software_blueprint_hub.Shared.StableJson.{Json}

pub data AuthorityLayer : Type 0 where
  constitution blueprint_level project_type : AuthorityLayer
  domain_capability project_addition : AuthorityLayer

abbrev pub layer_text : AuthorityLayer → String
layer_text constitution = "constitution"
layer_text blueprint_level = "blueprint-level"
layer_text project_type = "project-type"
layer_text domain_capability = "domain-capability"
layer_text project_addition = "project-addition"

-- `authorityRank`
abbrev pub layer_rank : AuthorityLayer → ℕ
layer_rank constitution = 0
layer_rank blueprint_level = 1
layer_rank project_type = 2
layer_rank domain_capability = 3
layer_rank project_addition = 4

pub data RequirementKind : Type 0 where
  module_kind gate_kind : RequirementKind

abbrev pub kind_text : RequirementKind → String
kind_text module_kind = "module"
kind_text gate_kind = "gate"

abbrev pub is_module : RequirementKind → Bool
is_module module_kind = true
is_module gate_kind = false

pub data RequirementDepth : Type 0 where
  basic standard advanced critical : RequirementDepth

abbrev pub depth_text : RequirementDepth → String
depth_text basic = "basic"
depth_text standard = "standard"
depth_text advanced = "advanced"
depth_text critical = "critical"

abbrev pub depth_rank : RequirementDepth → ℕ
depth_rank basic = 0
depth_rank standard = 1
depth_rank advanced = 2
depth_rank critical = 3

-- `value ?? otherwise`
abbrev pub default {ℓ} : {A : Type ℓ} → Option A → A → A
default none otherwise = otherwise
default (some value) otherwise = value

pub record TemplateRequirement : Type 0 where
  pub id : String
  pub kind : RequirementKind
  pub required : Option Bool
  pub depth : Option RequirementDepth
  pub tags : Option (List String)
  pub depends_on : Option (List String)
  pub constraint : Option String
  pub description : Option String

pub data ActivationField : Type 0 where
  level_field type_field sensitivity_field persistence_field : ActivationField
  authentication_field authorization_field offline_field ai_field : ActivationField
  extensibility_field lifetime_field integrations_field : ActivationField

pub data Operator : Type 0 where
  equals includes_value : Operator

pub record ActivationCondition : Type 0 where
  pub field : ActivationField
  pub operator : Operator
  pub value : String

pub record TemplateActivation : Type 0 where
  pub all_of : List ActivationCondition
  pub explanation : String

pub record BlueprintTemplate : Type 0 where
  pub schema_version : String
  pub id : String
  pub version : String
  pub authority_layer : AuthorityLayer
  pub activation : Option TemplateActivation
  pub requirements : List TemplateRequirement

-- The fields of a profile that the resolver reads, and its whole document, which is hashed.
pub record ProjectProfile : Type 0 where
  pub project_id : String
  pub schema_version : String
  pub record_version : ℕ
  pub blueprint_level : String
  pub project_type : String
  pub data_sensitivity : String
  pub persistence : String
  pub authentication : String
  pub authorization : String
  pub offline_requirement : Option String
  pub ai_use : Option String
  pub extensibility_requirement : Option String
  pub expected_lifetime : String
  pub external_integrations : Option (List String)
  pub document : Json

pub record RequirementSource : Type 0 where
  pub source_id : String
  pub authority_layer : AuthorityLayer
  pub version : String
  pub reason : String

-- `ResolvedRequirement`, and `MutableRequirement` before it is frozen.
pub record Requirement : Type 0 where
  pub id : String
  pub kind : RequirementKind
  pub required : Bool
  pub depth : RequirementDepth
  pub tags : List String
  pub depends_on : List String
  pub constraint : Option String
  pub sources : List RequirementSource

pub data ConflictKind : Type 0 where
  incompatible_value missing_dependency dependency_cycle : ConflictKind

pub record ResolutionConflict : Type 0 where
  pub conflict_id : String
  pub kind : ConflictKind
  pub target_id : String
  pub field : String
  pub sources : List String
  pub values : List String
  pub suggested_resolution_kinds : List String
