-- ===== src/Constitution/Repository/Rows.antt =====
-- The tables of amendments, their rows, and the tests on rows:
-- packages/persistence/src/constitution-authority-repository.ts.
use Prim.Native.String.{◌++◌ as ◌+++◌}
use software_blueprint_hub.Shared.{
  ℕ, ◌+◌, String, Bool, true, false, Option, none, some, ◌==◌, Result, check, nat_eq,
}
use software_blueprint_hub.Shared.Table.{Table, text_key}
use software_blueprint_hub.Shared.Decimal.{decimal}
use software_blueprint_hub.Authority.{AuthorityTables, AuthorityStore}
use software_blueprint_hub.Constitution.Model.{
  AmendmentState, EvidenceKind, publication, DecisionKind, approve, reject, Amendment,
  EvidenceRecord, RatificationDecision, PublicationRecord,
}

pub record Revision : Type 0 where
  pub id : String
  pub amendment_id : String
  pub record_version : ℕ
  pub state : AmendmentState
  pub actor_principal_id : String
  pub action : String
  pub document : Amendment
  pub created_at : String

abbrev pub amendment_key : Amendment → String
amendment_key a = a.proposal.id

-- Publications are unique by amendment, which is how they are looked up.
pub record ConstitutionTables : Type 1 where
  pub authority : AuthorityTables
  pub amendment : Table text_key amendment_key
  pub revision : Table text_key Revision.id
  pub evidence : Table text_key EvidenceRecord.id
  pub decision : Table text_key RatificationDecision.id
  pub publication : Table text_key PublicationRecord.amendment_id

pub record ConstitutionStore (t : ConstitutionTables) : Type 0 where
  pub authority : AuthorityStore t.authority
  pub amendments : t.amendment.Rows
  pub revisions : t.revision.Rows
  pub evidence : t.evidence.Rows
  pub decisions : t.decision.Rows
  pub publications : t.publication.Rows

-- `constitutionAmendmentRevision.create`
abbrev pub revision_row : Amendment → String → String → Revision
revision_row a actor action = record {
  id = a.proposal.id +++ ":v" +++ decimal a.record_version;
  amendment_id = a.proposal.id;
  record_version = a.record_version;
  state = a.state;
  actor_principal_id = actor;
  action = action;
  document = a;
  created_at = a.updated_at;
}

-- `assertNextVersion`
abbrev pub assert_next_version : Amendment → ℕ → Result (Unit {0})
assert_next_version a expected =
    check (nat_eq a.record_version (expected + 1))
      "Constitution amendment recordVersion must increment exactly by one"

abbrev pub is_publication_kind : EvidenceKind → Bool
is_publication_kind publication = true
is_publication_kind _ = false

abbrev pub is_approve : DecisionKind → Bool
is_approve approve = true
is_approve reject = false

abbrev pub opt_eq : Option String → String → Bool
opt_eq none s = false
opt_eq (some r) s = r == s
