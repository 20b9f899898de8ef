-- ===== src/Resolver/Blueprint.antt =====
-- The blueprint: the end of `resolveBlueprint`, and `freezeRequirement`, of
-- packages/blueprint-engine/src/resolver.ts.
use Prim.Native.String.{◌++◌ as ◌+++◌}
use software_blueprint_hub.Shared.{ℕ, String, Bool, not, ◌&&◌, List, [], ◌∷◌, ◌++◌, map, filter}
use software_blueprint_hub.Shared.Sorting.{sort}
use software_blueprint_hub.Shared.Text.{sort_texts}
use software_blueprint_hub.Resolver.{
  AuthorityLayer, is_module, BlueprintTemplate, ProjectProfile, Requirement, ResolutionConflict,
}
use software_blueprint_hub.Resolver.Versions.{then_le, by_key, source_le}
use software_blueprint_hub.Resolver.Fingerprint.{slice}
use software_blueprint_hub.Resolver.Closure.{is_required_module}

pub record ActivatedTemplate : Type 0 where
  pub id : String
  pub version : String
  pub authority_layer : AuthorityLayer

pub record Edge : Type 0 where
  pub from_id : String
  pub to_id : String

pub record Rationale : Type 0 where
  pub target_id : String
  pub source_id : String
  pub reason : String

pub record ResolvedBlueprint : Type 0 where
  pub resolution_id : String
  pub resolver_version : String
  pub input_fingerprint : String
  pub project_id : String
  pub profile_record_version : ℕ
  pub activated_templates : List ActivatedTemplate
  pub required_modules : List String
  pub required_gates : List String
  pub dependency_edges : List Edge
  pub rationale : List Rationale
  pub warnings : List String

pub data Resolution : Type 0 where
  success : ResolvedBlueprint → List Requirement → Resolution
  conflicted : String → String → List ResolutionConflict → Resolution

abbrev pub is_required_gate : Requirement → Bool
is_required_gate r = not (is_module r.kind) && r.required

abbrev pub edges_of : List Requirement → List Edge
edges_of [] = []
edges_of (r ∷ rs) = map (λ d. record { from_id = r.id; to_id = d }) r.depends_on ++ edges_of rs

abbrev pub rationale_of : List Requirement → List Rationale
rationale_of [] = []
rationale_of (r ∷ rs) =
    map (λ s. record { target_id = r.id; source_id = s.source_id; reason = s.reason }) r.sources
    ++ rationale_of rs

module _ (le : String → String → Bool) where
  -- `freezeRequirement`
  unfoldable pub freeze_requirement : Requirement → Requirement
  unfolding sort_texts sort source_le
  freeze_requirement r = record r {
    tags = sort_texts r.tags;
    depends_on = sort_texts r.depends_on;
    sources = sort (source_le le) r.sources;
  }

  unfoldable pub conflict_le : ResolutionConflict → ResolutionConflict → Bool
  conflict_le =
      then_le (by_key le ResolutionConflict.target_id)
        (then_le (by_key le ResolutionConflict.field) (by_key le ResolutionConflict.conflict_id))

  unfoldable pub edge_le : Edge → Edge → Bool
  edge_le = then_le (by_key le Edge.from_id) (by_key le Edge.to_id)

  unfoldable pub rationale_le : Rationale → Rationale → Bool
  rationale_le =
      then_le (by_key le Rationale.target_id)
        (then_le (by_key le Rationale.source_id) (by_key le Rationale.reason))

  -- The blueprint of requirements that are frozen and sorted.
  unfoldable pub blueprint_of :
      ProjectProfile → String → List BlueprintTemplate → List Requirement → ResolvedBlueprint
  unfolding slice edge_le rationale_le sort
  blueprint_of p fingerprint activated frozen = record {
    resolution_id = "resolution:" +++ slice 32 fingerprint;
    resolver_version = "1.0.0";
    input_fingerprint = fingerprint;
    project_id = p.project_id;
    profile_record_version = p.record_version;
    activated_templates =
        map (λ t. record { id = t.id; version = t.version; authority_layer = t.authority_layer })
          activated;
    required_modules = map Requirement.id (filter is_required_module frozen);
    required_gates = map Requirement.id (filter is_required_gate frozen);
    dependency_edges = sort edge_le (edges_of (filter is_required_module frozen));
    rationale = sort rationale_le (rationale_of (filter Requirement.required frozen));
    warnings = [];
  }

  -- `requirements.values()`, frozen and sorted by id.
  unfoldable pub freeze_all : List Requirement → List Requirement
  unfolding freeze_requirement sort
  freeze_all rs = sort (by_key le Requirement.id) (map freeze_requirement rs)
