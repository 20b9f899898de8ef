-- ===== src/Examples/Amendments.antt =====
-- One amendment at each stage of its life cycle, with the rows that it refers to.
use software_blueprint_hub.Shared.{String, true, false, none, some, [], ◌∷◌}
use software_blueprint_hub.Constitution.Model.{
  draft, impact_reviewed, migration_ready, ratification_ready, ratified, published, propagating,
  EvidenceKind, approve, Proposal, Amendment, EvidenceRecord, RatificationDecision,
  AuthoritySetComponent, PublicationRecord,
}
use software_blueprint_hub.Constitution.Attestation.{
  AuthoritySetAttestation, LifecycleIdentity, PropagationAttestation, VerificationAttestation,
}
use software_blueprint_hub.Constitution.Repository.{ConstitutionStore}
use software_blueprint_hub.Examples.Tables.{tables, owned_store}

abbrev pub revision : String
revision = "0123456789abcdef0123456789abcdef01234567"

abbrev pub hex_64 : String
hex_64 = "00000000000000000000000000000000000000000000000000000000000000ff"

abbrev pub digest : String
digest = "sha256:00000000000000000000000000000000000000000000000000000000000000ff"

abbrev pub now : String
now = "2026-01-02T03:04:05.678Z"

abbrev pub proposal : Proposal
proposal = record {
  id = "amendment:1";
  base_policy_version = "1.3.0";
  target_policy_version = "1.4.0";
  title = "Title";
  problem = "Problem";
  rationale = "Rationale";
  affected_pillar_ids = "pillar" ∷ [];
  affected_requirement_ids = [];
  compatibility_risk = "low";
  migration_required = true;
  proposed_at = now;
}

abbrev pub drafted : Amendment
drafted = record {
  proposal = proposal;
  state = draft;
  impact_evidence_ids = [];
  migration_evidence_ids = [];
  ratification_decision_id = none;
  publication_evidence_id = none;
  propagation_evidence_ids = [];
  verification_evidence_ids = [];
  production_release_authority = false;
  proposed_by_actor_id = "ada";
  record_version = 1;
  created_at = now;
  updated_at = now;
}

abbrev pub reviewed : Amendment
reviewed = record drafted {
  state = impact_reviewed;
  impact_evidence_ids = "e1" ∷ [];
  record_version = 2;
}

abbrev pub planned : Amendment
planned = record reviewed {
  state = migration_ready;
  migration_evidence_ids = "e2" ∷ [];
  record_version = 3;
}

abbrev pub opened : Amendment
opened = record planned { state = ratification_ready; record_version = 4 }

abbrev pub approved : Amendment
approved = record opened {
  state = ratified;
  ratification_decision_id = some "d1";
  record_version = 5;
}

abbrev pub issued : Amendment
issued = record approved {
  state = published;
  publication_evidence_id = some "e3";
  record_version = 6;
}

abbrev pub rolled_out : Amendment
rolled_out = record issued {
  state = propagating;
  propagation_evidence_ids = "e4" ∷ [];
  record_version = 7;
}

abbrev pub evidence_of : String → EvidenceKind → EvidenceRecord
evidence_of id kind = record {
  id = id;
  amendment_id = "amendment:1";
  kind = kind;
  source = "review";
  revision = revision;
  digest = digest;
  note = "note";
  recorded_by_actor_id = "ada";
  created_at = now;
}

abbrev pub approval : RatificationDecision
approval = record {
  id = "d1";
  amendment_id = "amendment:1";
  amendment_record_version = 4;
  reviewer_actor_id = "ada";
  source = "authenticated-user-action";
  decision = approve;
  note = "note";
  decided_at = now;
  human_ratification = true;
  production_release_authority = false;
}

abbrev pub component : String → String → AuthoritySetComponent
component id path = record { id = id; path = path; version = "1.4.0"; digest = digest }

abbrev pub attestation : AuthoritySetAttestation
attestation = record {
  schema_version = "1.0.0";
  source = "trusted-ci-attestation";
  policy_id = "blueprint-os:universal-century-grade";
  policy_version = "1.4.0";
  source_revision = revision;
  ci_run_id = "42";
  components =
      component "normative-document" "docs/UNIVERSAL-CONSTITUTION.md"
      ∷ component "machine-contract" "control/universal-constitution.contract.json"
      ∷ component "universal-template" "packages/application/src/foundation-templates.ts"
      ∷ component "policy-version" "packages/application/src/constitution-authority.ts"
      ∷ [];
  authority_set_digest = digest;
  production_release_authority = false;
}

abbrev pub publication : PublicationRecord
publication = record {
  id = "p1";
  amendment_id = "amendment:1";
  amendment_record_version = 5;
  policy_version = "1.4.0";
  published_by_actor_id = "ada";
  source_revision = revision;
  ci_run_id = "42";
  authority_set_digest = digest;
  components = attestation.components;
  published_at = now;
  production_release_authority = false;
}

abbrev pub identity : LifecycleIdentity
identity = record {
  schema_version = "1.0.0";
  source = "trusted-constitution-lifecycle-attestation";
  policy_id = "blueprint-os:universal-century-grade";
  policy_version = "1.4.0";
  amendment_id = "amendment:1";
  publication_id = "p1";
  source_revision = revision;
  workflow_run_id = "43";
  exact_release_revision_certified = false;
  production_release_authority = false;
}

abbrev pub propagation : PropagationAttestation
propagation = record {
  identity = identity;
  kind = "constitution-propagation-attestation";
  snapshot_digest = digest;
  total_repositories = 5;
  current_repositories = 2;
  migration_required_repositories = 2;
  blocked_repositories = 1;
}

abbrev pub verification : VerificationAttestation
verification = record {
  identity = identity;
  kind = "constitution-verification-attestation";
  matrix_digest = digest;
  total_repositories = 5;
  compliant_repositories = 5;
  non_compliant_repositories = 0;
  unverified_repositories = 0;
  migration_required_repositories = 0;
  blocked_repositories = 0;
}

-- The database that holds the amendment at one of its stages.
abbrev pub store_of : Amendment → ConstitutionStore tables
store_of a = record {
  authority = owned_store;
  amendments = a ∷ [];
  revisions = [];
  evidence = evidence_of "e1" EvidenceKind.impact ∷ evidence_of "e2" EvidenceKind.migration ∷ [];
  decisions = [];
  publications = [];
}

abbrev pub decided_store : Amendment → ConstitutionStore tables
decided_store a = record (store_of a) { decisions = approval ∷ [] }

abbrev pub published_store : Amendment → ConstitutionStore tables
published_store a = record (decided_store a) { publications = publication ∷ [] }
