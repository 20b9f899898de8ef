-- ===== src/Examples/Tables.antt =====
-- The tables in memory, and a database with one owner and one editor.
use software_blueprint_hub.Shared.{none, [], ◌∷◌, Result, ok, err}
use software_blueprint_hub.Shared.Table.{text_key, pair_key}
use software_blueprint_hub.Shared.Table.Memory.{memory_table}
use software_blueprint_hub.Authority.{
  editor, AuthenticatedActor, AuthenticatedIdentity, AuthorityTables, AuthorityStore,
  AuthorityAudit, ProjectRoleAssignment, SystemBootstrap, principal_key, role_key,
}
use software_blueprint_hub.Constitution.Model.{
  EvidenceRecord, RatificationDecision, PublicationRecord,
}
use software_blueprint_hub.Constitution.Repository.{Revision, amendment_key, ConstitutionTables}

abbrev pub authority_tables : AuthorityTables
authority_tables = record {
  principal = memory_table pair_key principal_key;
  system_bootstrap = memory_table text_key SystemBootstrap.id;
  project_authority = memory_table pair_key role_key;
  audit_event = memory_table text_key AuthorityAudit.id;
}

abbrev pub tables : ConstitutionTables
tables = record {
  authority = authority_tables;
  amendment = memory_table text_key amendment_key;
  revision = memory_table text_key Revision.id;
  evidence = memory_table text_key EvidenceRecord.id;
  decision = memory_table text_key RatificationDecision.id;
  publication = memory_table text_key PublicationRecord.amendment_id;
}

-- What a call returned, or else a given value.
abbrev pub returned {ℓ} : {A : Type ℓ} → Result A → A → A
returned (ok a) d = a
returned (err e) d = d

abbrev pub ada : AuthenticatedActor
ada = record { principal_id = "ada" }

abbrev pub bob : AuthenticatedActor
bob = record { principal_id = "bob" }

abbrev pub ada_identity : AuthenticatedIdentity
ada_identity = record { provider = "github"; provider_subject = "1"; email = none }

abbrev pub bob_edits : ProjectRoleAssignment
bob_edits = record { project_id = "hub"; principal_id = "bob"; role = editor }

abbrev pub empty_store : AuthorityStore authority_tables
empty_store = record { principals = []; bootstraps = []; roles = []; audits = [] }

-- Ada owns the system, and Bob edits the project `hub`.
abbrev pub owned_store : AuthorityStore authority_tables
owned_store = record {
  principals = [];
  bootstraps = record { id = "system"; owner_principal_id = "ada" } ∷ [];
  roles = bob_edits ∷ [];
  audits = [];
}
