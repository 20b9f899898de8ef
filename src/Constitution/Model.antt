-- ===== src/Constitution/Model.antt =====
-- The records of an amendment: packages/core/src/constitution-authority.ts. The literal type `false`
-- of `productionReleaseAuthority` is a `Bool`, so that what keeps it false is code.
use software_blueprint_hub.Shared.{ℕ, String, Bool, true, false, Option, List}

pub data AmendmentState : Type 0 where
  draft impact_reviewed migration_ready ratification_ready : AmendmentState
  ratified published propagating verified rejected : AmendmentState

-- `current.state !== "…"`
unfoldable pub state_eq : AmendmentState → AmendmentState → Bool
state_eq draft draft = true
state_eq impact_reviewed impact_reviewed = true
state_eq migration_ready migration_ready = true
state_eq ratification_ready ratification_ready = true
state_eq ratified ratified = true
state_eq published published = true
state_eq propagating propagating = true
state_eq verified verified = true
state_eq rejected rejected = true
state_eq _ _ = false

abbrev pub state_text : AmendmentState → String
state_text draft = "draft"
state_text impact_reviewed = "impact-reviewed"
state_text migration_ready = "migration-ready"
state_text ratification_ready = "ratification-ready"
state_text ratified = "ratified"
state_text published = "published"
state_text propagating = "propagating"
state_text verified = "verified"
state_text rejected = "rejected"

pub data EvidenceKind : Type 0 where
  impact migration publication propagation verification : EvidenceKind

pub data DecisionKind : Type 0 where
  approve reject : DecisionKind

pub record Proposal : Type 0 where
  pub id : String
  pub base_policy_version : String
  pub target_policy_version : String
  pub title : String
  pub problem : String
  pub rationale : String
  pub affected_pillar_ids : List String
  pub affected_requirement_ids : List String
  pub compatibility_risk : String
  pub migration_required : Bool
  pub proposed_at : String

-- `CanonicalConstitutionAmendmentRecord`
pub record Amendment : Type 0 where
  pub proposal : Proposal
  pub state : AmendmentState
  pub impact_evidence_ids : List String
  pub migration_evidence_ids : List String
  pub ratification_decision_id : Option String
  pub publication_evidence_id : Option String
  pub propagation_evidence_ids : List String
  pub verification_evidence_ids : List String
  pub production_release_authority : Bool
  pub proposed_by_actor_id : String
  pub record_version : ℕ
  pub created_at : String
  pub updated_at : String

pub record EvidenceRecord : Type 0 where
  pub id : String
  pub amendment_id : String
  pub kind : EvidenceKind
  pub source : String
  pub revision : String
  pub digest : String
  pub note : String
  pub recorded_by_actor_id : String
  pub created_at : String

pub record RatificationDecision : Type 0 where
  pub id : String
  pub amendment_id : String
  pub amendment_record_version : ℕ
  pub reviewer_actor_id : String
  pub source : String
  pub decision : DecisionKind
  pub note : String
  pub decided_at : String
  pub human_ratification : Bool
  pub production_release_authority : Bool

pub record AuthoritySetComponent : Type 0 where
  pub id : String
  pub path : String
  pub version : String
  pub digest : String

pub record PublicationRecord : Type 0 where
  pub id : String
  pub amendment_id : String
  pub amendment_record_version : ℕ
  pub policy_version : String
  pub published_by_actor_id : String
  pub source_revision : String
  pub ci_run_id : String
  pub authority_set_digest : String
  pub components : List AuthoritySetComponent
  pub published_at : String
  pub production_release_authority : Bool
