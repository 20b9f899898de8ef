-- ===== src/Constitution/Service/Publication.antt =====
-- `preparePublication` and `publishFromTrustedAttestation`. The verifier is an argument: its id, what
-- its optional `prepare` returns, and whether its `verify` accepts an attestation.
use Prim.Native.String.{◌++◌ as ◌+++◌}
use software_blueprint_hub.Shared.{
  ℕ, String, Bool, false, ◌&&◌, Option, none, some, ◌==◌, Result, ok, ◌>>=◌, ◌>>◌, check, found,
}
use software_blueprint_hub.Authority.{AuthenticatedActor, principal_of}
use software_blueprint_hub.Constitution.Model.{
  EvidenceKind, Amendment, EvidenceRecord, PublicationRecord,
}
use software_blueprint_hub.Constitution.Checks.{non_empty, require_iso_timestamp}
use software_blueprint_hub.Constitution.Transition.{TransitionAction, transition, canonical_next}
use software_blueprint_hub.Constitution.Attestation.{
  AuthoritySetAttestation, validate_authority_set,
}
use software_blueprint_hub.Constitution.Repository.{
  ConstitutionTables, ConstitutionStore, append_publication_and_update,
}
use software_blueprint_hub.Constitution.Service.Requirements.{
  require_exact_amendment, require_reviewed_candidate, require_valid_ratification,
}
use software_blueprint_hub.Constitution.Service.Drafts.{authorized}
use software_blueprint_hub.Constitution.Service.Stages.{with_evidence}

-- `ConstitutionPublicationCandidate`, but for its files, which no handler reads.
pub record PublicationCandidate : Type 0 where
  pub attestation : AuthoritySetAttestation
  pub patch : String
  pub publication_patch_digest : String
  pub artifact_digest : String

pub record PublicationVerifier : Type 0 where
  pub id : String
  pub prepare : Option (String → String → PublicationCandidate)
  pub verify : AuthoritySetAttestation → Bool

abbrev pub prepare_of : Option PublicationVerifier → Option (String → String → PublicationCandidate)
prepare_of none = none
prepare_of (some v) = v.prepare

pub record PublicationSubmission : Type 0 where
  pub amendment_id : String
  pub expected_record_version : ℕ
  pub attestation : AuthoritySetAttestation
  pub note : String

abbrev pub publication_evidence :
    String → String → AuthoritySetAttestation → Amendment → String → String → EvidenceRecord
publication_evidence uuid author a c timestamp note = record {
  id = "constitution-evidence:" +++ uuid;
  amendment_id = c.proposal.id;
  kind = EvidenceKind.publication;
  source = "trusted-ci-attestation:" +++ a.ci_run_id;
  revision = a.source_revision;
  digest = a.authority_set_digest;
  note = note;
  recorded_by_actor_id = author;
  created_at = timestamp;
}

abbrev pub publication_record :
    String → String → AuthoritySetAttestation → Amendment → String → PublicationRecord
publication_record uuid author a c timestamp = record {
  id = "constitution-publication:" +++ uuid;
  amendment_id = c.proposal.id;
  amendment_record_version = c.record_version;
  policy_version = a.policy_version;
  published_by_actor_id = author;
  source_revision = a.source_revision;
  ci_run_id = a.ci_run_id;
  authority_set_digest = a.authority_set_digest;
  components = a.components;
  published_at = timestamp;
  production_release_authority = false;
}

module _ (sha256_hex : String → String) (verifier : Option PublicationVerifier)
    (t : ConstitutionTables) (view : ℕ → ConstitutionStore t) where
  unfoldable pub prepare_publication :
      Option AuthenticatedActor → String → ℕ → String → Result PublicationCandidate
  prepare_publication actor id expected ci_run_id = do
    authorized t view actor 0
    c ← require_exact_amendment t id expected (view 1)
    require_valid_ratification t c (view 2) (view 3)
    prepare ← found (prepare_of verifier) "Trusted publication preparation is unavailable"
    seal ← require_reviewed_candidate t c (view 4)
    let candidate = prepare seal.revision ci_run_id
    check
        ((candidate.attestation.authority_set_digest == seal.digest)
          && (candidate.attestation.source_revision == seal.revision)
          && (candidate.attestation.policy_version == c.proposal.target_policy_version))
        "Publication candidate does not match ratified seal"
    authorized t view actor 5
    again ← require_exact_amendment t id expected (view 6)
    require_valid_ratification t again (view 7) (view 8)
    ok candidate

  -- What is checked before the publication is written: the attestation that passed.
  unfoldable pub verified_attestation :
      PublicationVerifier
      → Option AuthenticatedActor
      → PublicationSubmission
      → Amendment
      → Result AuthoritySetAttestation
  verified_attestation v actor input c = do
    require_valid_ratification t c (view 2) (view 3)
    a ← validate_authority_set sha256_hex input.attestation
    check (a.policy_version == c.proposal.target_policy_version)
        "Constitution authority-set policy version does not match the ratified amendment target"
    candidate ← require_reviewed_candidate t c (view 4)
    check
        ((a.source_revision == candidate.revision) && (a.authority_set_digest == candidate.digest))
        "Constitution publication must match the exact ratified candidate SHA and authority-set digest"
    check (v.verify a) ("Constitution authority-set attestation was not verified by " +++ v.id)
    authorized t view actor 5
    again ← require_exact_amendment t input.amendment_id input.expected_record_version (view 6)
    require_valid_ratification t again (view 7) (view 8)
    ok a

  unfoldable pub publish_from_trusted_attestation :
      String
      → String
      → Option AuthenticatedActor
      → PublicationSubmission
      → String
      → Result (Amendment × PublicationRecord × ConstitutionStore t)
  publish_from_trusted_attestation uuid publication_uuid actor input now = do
    authorized t view actor 0
    v ←
        found verifier
          "Constitution publication is blocked until a trusted attestation verifier is configured"
    c ← require_exact_amendment t input.amendment_id input.expected_record_version (view 1)
    a ← verified_attestation v actor input c
    timestamp ← require_iso_timestamp now
    note ← non_empty input.note "publication note"
    let e = publication_evidence uuid (principal_of actor) a c timestamp note
    let p = publication_record publication_uuid (principal_of actor) a c timestamp
    moved ← transition c (with_evidence TransitionAction.publish e.id)
    let next = canonical_next c moved timestamp
    s ← append_publication_and_update t p e next input.expected_record_version (view 9)
    ok (next, p, s)
