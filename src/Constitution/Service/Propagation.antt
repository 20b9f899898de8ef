-- ===== src/Constitution/Service/Propagation.antt =====
-- `beginPropagationFromTrustedAttestation` and `verifyFromTrustedAttestation`. The verifier is an
-- argument: its id, and which attestations it accepts.
use Prim.Native.String.{◌++◌ as ◌+++◌}
use software_blueprint_hub.Shared.{
  ℕ, String, Bool, not, ◌&&◌, Option, ◌==◌, Result, ok, ◌>>=◌, ◌>>◌, check, found, nat_eq, is_empty,
}
use software_blueprint_hub.Authority.{AuthenticatedActor, principal_of}
use software_blueprint_hub.Constitution.Model.{
  published, propagating, state_eq, EvidenceKind, Amendment, EvidenceRecord, PublicationRecord,
}
use software_blueprint_hub.Constitution.Checks.{non_empty, require_iso_timestamp}
use software_blueprint_hub.Constitution.Transition.{TransitionAction, transition, canonical_next}
use software_blueprint_hub.Constitution.Attestation.{
  LifecycleIdentity, PropagationAttestation, VerificationAttestation, validate_propagation,
  validate_verification,
}
use software_blueprint_hub.Constitution.Repository.{
  ConstitutionTables, ConstitutionStore, append_evidence_and_update,
}
use software_blueprint_hub.Constitution.Service.Requirements.{require_exact_amendment, is_some_id}
use software_blueprint_hub.Constitution.Service.Drafts.{authorized}
use software_blueprint_hub.Constitution.Service.Stages.{with_evidence}

pub record LifecycleVerifier : Type 0 where
  pub id : String
  pub verify_propagation : PropagationAttestation → Bool
  pub verify_verification : VerificationAttestation → Bool

pub record PropagationSubmission : Type 0 where
  pub amendment_id : String
  pub expected_record_version : ℕ
  pub attestation : PropagationAttestation
  pub note : String

pub record VerificationSubmission : Type 0 where
  pub amendment_id : String
  pub expected_record_version : ℕ
  pub attestation : VerificationAttestation
  pub note : String

-- The attestation is of this amendment, its publication, and its target version.
abbrev pub is_of_publication : LifecycleIdentity → Amendment → PublicationRecord → Bool
is_of_publication i c p =
    (i.amendment_id == c.proposal.id)
    && (i.publication_id == p.id)
    && (i.policy_version == c.proposal.target_policy_version)
    && (i.policy_version == p.policy_version)

-- Every repository is compliant, with no blocker.
abbrev pub is_fully_compliant : VerificationAttestation → Bool
is_fully_compliant a =
    nat_eq a.compliant_repositories a.total_repositories
    && nat_eq a.non_compliant_repositories 0
    && nat_eq a.unverified_repositories 0
    && nat_eq a.migration_required_repositories 0
    && nat_eq a.blocked_repositories 0

abbrev pub lifecycle_evidence :
    String
    → EvidenceKind
    → String
    → String
    → String
    → String
    → Amendment
    → String
    → String
    → EvidenceRecord
lifecycle_evidence uuid kind source revision digest author c timestamp note = record {
  id = "constitution-evidence:" +++ uuid;
  amendment_id = c.proposal.id;
  kind = kind;
  source = source;
  revision = revision;
  digest = digest;
  note = note;
  recorded_by_actor_id = author;
  created_at = timestamp;
}

abbrev pub propagation_evidence :
    String → String → PropagationAttestation → Amendment → String → String → EvidenceRecord
propagation_evidence uuid author a c timestamp note =
    lifecycle_evidence uuid EvidenceKind.propagation
      ("trusted-constitution-propagation:" +++ a.identity.workflow_run_id)
      a.identity.source_revision a.snapshot_digest author c timestamp note

abbrev pub verification_evidence :
    String → String → VerificationAttestation → Amendment → String → String → EvidenceRecord
verification_evidence uuid author a c timestamp note =
    lifecycle_evidence uuid EvidenceKind.verification
      ("trusted-constitution-verification:" +++ a.identity.workflow_run_id)
      a.identity.source_revision a.matrix_digest author c timestamp note

-- The last steps of both handlers: the transition on the new evidence, and the guarded write.
unfoldable pub store_moved :
    (t : ConstitutionTables)
    → TransitionAction
    → EvidenceRecord
    → Amendment
    → ℕ
    → String
    → String
    → String
    → ConstitutionStore t
    → Result (Amendment × ConstitutionStore t)
store_moved t action e c expected author audit timestamp s = do
  moved ← transition c (with_evidence action e.id)
  let next = canonical_next c moved timestamp
  s' ← append_evidence_and_update t e next expected author audit s
  ok (next, s')

module _ (verifier : Option LifecycleVerifier) (t : ConstitutionTables)
    (view : ℕ → ConstitutionStore t) where
  -- `findPublicationByAmendmentId`
  abbrev pub find_publication : String → ℕ → Option PublicationRecord
  find_publication id n = t.publication.find_unique id (view n).publications

  unfoldable pub begin_propagation :
      String
      → Option AuthenticatedActor
      → PropagationSubmission
      → String
      → Result (Amendment × ConstitutionStore t)
  unfolding state_eq
  begin_propagation uuid actor input now = do
    authorized t view actor 0
    v ←
        found verifier
          "Constitution propagation is blocked until a trusted lifecycle attestation verifier is configured"
    c ← require_exact_amendment t input.amendment_id input.expected_record_version (view 1)
    check (state_eq c.state published && is_some_id c.publication_evidence_id)
        "Constitution propagation requires an exactly published amendment"
    p ←
        found (find_publication c.proposal.id 2)
          "Constitution propagation requires the canonical publication record"
    a ← validate_propagation input.attestation
    check (is_of_publication a.identity c p)
        "Constitution propagation attestation does not match the exact published amendment"
    check (v.verify_propagation a)
        ("Constitution propagation attestation was not verified by " +++ v.id)
    timestamp ← require_iso_timestamp now
    note ← non_empty input.note "propagation note"
    store_moved t TransitionAction.begin_propagation
        (propagation_evidence uuid (principal_of actor) a c timestamp note) c
        input.expected_record_version (principal_of actor) "CONSTITUTION_PROPAGATION_STARTED"
        timestamp (view 3)

  unfoldable pub verify_from_trusted_attestation :
      String
      → Option AuthenticatedActor
      → VerificationSubmission
      → String
      → Result (Amendment × ConstitutionStore t)
  unfolding state_eq
  verify_from_trusted_attestation uuid actor input now = do
    authorized t view actor 0
    v ←
        found verifier
          "Constitution verification is blocked until a trusted lifecycle attestation verifier is configured"
    c ← require_exact_amendment t input.amendment_id input.expected_record_version (view 1)
    check (state_eq c.state propagating && not (is_empty c.propagation_evidence_ids))
        "Constitution verification requires an evidence-backed propagation state"
    p ←
        found (find_publication c.proposal.id 2)
          "Constitution verification requires the canonical publication record"
    a ← validate_verification input.attestation
    check (is_of_publication a.identity c p)
        "Constitution verification attestation does not match the exact published amendment"
    check (is_fully_compliant a)
        "Constitution verification requires every governed repository to be compliance-attested with no blockers"
    check (v.verify_verification a)
        ("Constitution verification attestation was not verified by " +++ v.id)
    timestamp ← require_iso_timestamp now
    note ← non_empty input.note "verification note"
    store_moved t TransitionAction.verify
        (verification_evidence uuid (principal_of actor) a c timestamp note) c
        input.expected_record_version (principal_of actor) "CONSTITUTION_VERIFIED" timestamp
        (view 3)
