-- ===== src/Constitution/Repository.antt =====
-- The stored amendments: packages/persistence/src/constitution-authority-repository.ts. A row's JSON
-- document is the record itself, so the decoders that read it back (`asAmendment`, `asEvidence`, …)
-- are the identity on rows that these methods wrote. A transaction that throws returns no store.
pub mod Rows
pub mod Versions
pub mod Updates
pub mod Concurrency
pub use Rows.*
use Prim.Native.String.{◌++◌ as ◌+++◌}
use software_blueprint_hub.Shared.{
  ℕ, ◌+◌, String, Bool, true, false, not, ◌&&◌, ◌||◌, Option, none, some, List, [], ◌∷◌, ◌==◌,
  inserted, unique_violation, if◌then◌else◌, Result, ok, err, Error, ◌>>=◌, ◌>>◌, guard, check,
  nat_eq, type_error, plain_error, record_version_conflict,
}
use software_blueprint_hub.Shared.Table.{Table, text_key}
use software_blueprint_hub.Shared.Decimal.{decimal}
use software_blueprint_hub.Authority.{AuthorityTables, AuthorityStore, SystemBootstrap}
use software_blueprint_hub.Constitution.Model.{
  AmendmentState, draft, ratified, state_eq, EvidenceKind, impact, migration, publication,
  propagation, verification, DecisionKind, approve, reject, Amendment, EvidenceRecord,
  RatificationDecision, PublicationRecord,
}

module _ (t : ConstitutionTables) where
  open t use {amendment, revision, evidence, decision, publication}

  -- `updateMany({ where: { id, recordVersion, … }, data })` and the test of its count: the
  -- compare-and-set that every update goes through.
  unfoldable pub compare_and_set :
      (Amendment → Bool) → Amendment → ℕ → amendment.Rows → Result amendment.Rows
  compare_and_set test a expected rows = do
    let (count, written) =
        amendment.update_many (λ row. nat_eq row.record_version expected && test row) a rows
    guard (nat_eq count 1) (record_version_conflict a.proposal.id expected)
    ok written

  unfoldable pub find_amendment : String → ConstitutionStore t → Option Amendment
  find_amendment id s = amendment.find_unique id s.amendments

  unfoldable pub list_evidence : String → ConstitutionStore t → List EvidenceRecord
  list_evidence id s = evidence.find_many (λ e. e.amendment_id == id) s.evidence

  unfoldable pub create_amendment : Amendment → ConstitutionStore t → Result (ConstitutionStore t)
  unfolding state_eq decimal
  create_amendment a s = do
    check (nat_eq a.record_version 1 && state_eq a.state draft)
        "A new Constitution amendment must start at draft recordVersion 1"
    amendments ← inserted (amendment.create a s.amendments) unique_violation
    revisions ←
        inserted
          (revision.create (revision_row a a.proposed_by_actor_id "AMENDMENT_CREATED") s.revisions)
          unique_violation
    ok (record s { amendments = amendments; revisions = revisions })

  unfoldable pub update_amendment :
      Amendment → ℕ → String → String → ConstitutionStore t → Result (ConstitutionStore t)
  update_amendment a expected actor action s = do
    assert_next_version a expected
    amendments ← compare_and_set (λ row. true) a expected s.amendments
    revisions ←
        inserted (revision.create (revision_row a actor action) s.revisions) unique_violation
    ok (record s { amendments = amendments; revisions = revisions })

  unfoldable pub append_evidence_and_update :
      EvidenceRecord
      → Amendment
      → ℕ
      → String
      → String
      → ConstitutionStore t
      → Result (ConstitutionStore t)
  append_evidence_and_update e a expected actor action s = do
    assert_next_version a expected
    check (e.amendment_id == a.proposal.id) "Constitution evidence belongs to another amendment"
    amendments ← compare_and_set (λ row. true) a expected s.amendments
    rows ← inserted (evidence.create e s.evidence) unique_violation
    revisions ←
        inserted (revision.create (revision_row a actor action) s.revisions) unique_violation
    ok (record s { amendments = amendments; evidence = rows; revisions = revisions })

  abbrev pub decided_already : Error
  decided_already =
      type_error "A ratification decision already exists for this exact amendment revision."

  unfoldable pub append_decision_and_update :
      RatificationDecision → Amendment → ℕ → ConstitutionStore t → Result (ConstitutionStore t)
  append_decision_and_update d a expected s = do
    assert_next_version a expected
    check (d.amendment_id == a.proposal.id) "Ratification decision belongs to another amendment"
    check (nat_eq d.amendment_record_version expected)
        "Ratification decision must bind the exact pre-decision amendment revision"
    amendments ← compare_and_set (λ row. true) a expected s.amendments
    decisions ←
        inserted
          (decision.create
            (record d { human_ratification = true; production_release_authority = false })
            s.decisions)
          decided_already
    revisions ←
        inserted
          (revision.create
            (revision_row a d.reviewer_actor_id
              (if is_approve d.decision then "AMENDMENT_RATIFIED" else "AMENDMENT_REJECTED"))
            s.revisions)
          decided_already
    ok (record s { amendments = amendments; decisions = decisions; revisions = revisions })

  -- `decision.reviewerActorId`, … : the approval that a publication rests on, as its transaction
  -- reads it; `owner` is the row of `SystemBootstrap`, locked for the transaction.
  abbrev pub is_valid_approval : Amendment → ℕ → String → RatificationDecision → Bool
  is_valid_approval a expected owner d =
      (d.reviewer_actor_id == owner)
      && (d.amendment_id == a.proposal.id)
      && nat_eq (d.amendment_record_version + 1) expected
      && is_approve d.decision
      && (d.source == "authenticated-user-action")
      && d.human_ratification
      && not d.production_release_authority

  -- `record.ratificationDecisionId ? findUnique(…) : null`; the empty id is falsy.
  abbrev pub decision_by_id : Option String → ConstitutionStore t → Option RatificationDecision
  decision_by_id none s = none
  decision_by_id (some id) s = if id == "" then none else decision.find_unique id s.decisions

  abbrev pub may_publish :
      Option SystemBootstrap
      → Option RatificationDecision
      → Amendment
      → ℕ
      → PublicationRecord
      → Bool
  may_publish none d a expected p = false
  may_publish (some owner) none a expected p = false
  may_publish (some owner) (some d) a expected p =
      (owner.owner_principal_id == p.published_by_actor_id)
      && is_valid_approval a expected owner.owner_principal_id d

  abbrev pub published_already : Error
  published_already =
      type_error "This amendment or Constitution policy version already has a publication record."

  unfoldable pub append_publication_and_update :
      PublicationRecord
      → EvidenceRecord
      → Amendment
      → ℕ
      → ConstitutionStore t
      → Result (ConstitutionStore t)
  unfolding state_eq
  append_publication_and_update p e a expected s = do
    assert_next_version a expected
    check (p.amendment_id == a.proposal.id && e.amendment_id == a.proposal.id)
        "Publication record and evidence must belong to the same amendment"
    check
        (nat_eq p.amendment_record_version expected
          && is_publication_kind e.kind
          && opt_eq a.publication_evidence_id e.id)
        "Publication must bind the exact ratified amendment revision and canonical publication evidence"
    check (not p.production_release_authority && not a.production_release_authority)
        "Constitution publication must never grant Production authority"
    check
        (may_publish (t.authority.system_bootstrap.find_unique "system" s.authority.bootstraps)
          (decision_by_id a.ratification_decision_id s) a expected p)
        "Publication authority/ratification was revoked before transaction"
    amendments ← compare_and_set (λ row. state_eq row.state ratified) a expected s.amendments
    rows ← inserted (evidence.create e s.evidence) published_already
    publications ←
        inserted
          (publication.create (record p { production_release_authority = false }) s.publications)
          published_already
    revisions ←
        inserted
          (revision.create (revision_row a p.published_by_actor_id "CONSTITUTION_PUBLISHED")
            s.revisions)
          published_already
    ok (record s {
      amendments = amendments;
      evidence = rows;
      publications = publications;
      revisions = revisions;
    })
