-- ===== src/Examples/Sealing.antt =====
-- The theorems on publication, propagation and verification at concrete inputs.
use software_blueprint_hub.Shared.{◌+◌, ◌≤◌, ◌≡◌, refl, true, false, Option, none, some, is_empty}
use software_blueprint_hub.Authority.{
  can_exercise_constitutional_authority, require_constitutional_authority, is_system_owner,
}
use software_blueprint_hub.Constitution.Model.{Amendment, PublicationRecord}
use software_blueprint_hub.Constitution.Transition.{
  TransitionAction, transition, apply_action, canonical_next, clean_ids,
}
use software_blueprint_hub.Constitution.Attestation.{
  PropagationAttestation, VerificationAttestation, validate_authority_set, validate_components,
  require_all, validate_propagation, validate_lifecycle_identity, validate_verification,
}
use software_blueprint_hub.Constitution.Attestation.Counts.{IsHarmless}
use software_blueprint_hub.Constitution.Repository.{
  ConstitutionStore, append_publication_and_update, find_amendment, list_evidence, compare_and_set,
  append_evidence_and_update,
}
use software_blueprint_hub.Constitution.Service.Publication.{
  PublicationVerifier, PublicationSubmission, publish_from_trusted_attestation,
  verified_attestation,
}
use software_blueprint_hub.Constitution.Service.Propagation.{
  LifecycleVerifier, PropagationSubmission, VerificationSubmission, begin_propagation,
  verify_from_trusted_attestation, store_moved,
}
use software_blueprint_hub.Constitution.Service.Committed.{IsCommit}
use software_blueprint_hub.Constitution.Service.Published.{IsPublished, publish_sound}
use software_blueprint_hub.Constitution.Service.Verified.{
  IsOfStored, begin_propagation_sound, verify_sound,
}
use software_blueprint_hub.Constitution.Service.Requirements.{
  require_exact_amendment, require_reviewed_candidate, require_valid_ratification,
}
use software_blueprint_hub.Constitution.Checks.{
  non_empty, semver, sha256_digest, to_lower, require_iso_timestamp,
}
use software_blueprint_hub.Shared.Text.{trim, is_git_sha, is_sha256, is_numeric, is_semver}
use software_blueprint_hub.Shared.Timestamp.{is_iso_timestamp}
use software_blueprint_hub.Examples.Tables.{tables, owned_store, returned, ada}
use software_blueprint_hub.Examples.Amendments.{
  approved, issued, rolled_out, publication, attestation, propagation, verification, now,
  decided_store, published_store,
}
use software_blueprint_hub.Examples.Attestations.{constant_hex}

abbrev publisher : Option PublicationVerifier
publisher = some (record { id = "ci"; prepare = none; verify = λ a. true })

abbrev publishing : PublicationSubmission
publishing = record {
  amendment_id = "amendment:1";
  expected_record_version = 5;
  attestation = attestation;
  note = "note";
}

abbrev sealed : Amendment × PublicationRecord × ConstitutionStore tables
unfolding publish_from_trusted_attestation
sealed =
    returned
      (publish_from_trusted_attestation constant_hex publisher tables (λ n. decided_store approved)
        "u1" "u2" (some ada) publishing now)
      (approved, publication, decided_store approved)

publish_sound_example :
    (can_exercise_constitutional_authority tables.authority (some ada) owned_store ≡ true)
    × IsPublished constant_hex tables
        (λ n. decided_store approved)
        publisher
        (some ada)
        5
        sealed.0
        sealed.1
        sealed.2
unfolding publish_from_trusted_attestation verified_attestation validate_authority_set
    validate_components require_all append_publication_and_update require_constitutional_authority
    can_exercise_constitutional_authority is_system_owner require_exact_amendment
    require_reviewed_candidate require_valid_ratification non_empty semver sha256_digest to_lower
    require_iso_timestamp find_amendment list_evidence compare_and_set transition apply_action
    canonical_next clean_ids trim is_git_sha is_sha256 is_numeric is_semver is_iso_timestamp
publish_sound_example =
    publish_sound constant_hex tables (λ n. decided_store approved) publisher "u1" "u2" now
      (some ada) publishing sealed.0 sealed.1 sealed.2 refl

abbrev lifecycle_verifier : Option LifecycleVerifier
lifecycle_verifier =
    some (record { id = "ci"; verify_propagation = λ a. true; verify_verification = λ a. true })

abbrev propagating_input : PropagationSubmission
propagating_input = record {
  amendment_id = "amendment:1";
  expected_record_version = 6;
  attestation = propagation;
  note = "note";
}

abbrev started : Amendment × ConstitutionStore tables
unfolding begin_propagation
started =
    returned
      (begin_propagation lifecycle_verifier tables (λ n. published_store issued) "u1" (some ada)
        propagating_input now)
      (issued, published_store issued)

begin_propagation_sound_example :
    (can_exercise_constitutional_authority tables.authority (some ada) owned_store ≡ true)
    × ((c : Amendment) × (v : LifecycleVerifier) × (a : PropagationAttestation) × IsCommit tables
          (published_store issued)
          started.1
          6
          TransitionAction.begin_propagation
          c
          started.0
        × (lifecycle_verifier ≡ some v)
        × (v.verify_propagation a ≡ true)
        × IsOfStored lifecycle_verifier tables (λ n. published_store issued) a.identity c
        × IsHarmless a.identity
        × (a.current_repositories + a.migration_required_repositories + a.blocked_repositories
            ≡ a.total_repositories))
unfolding begin_propagation store_moved validate_propagation validate_lifecycle_identity
    append_evidence_and_update require_constitutional_authority
    can_exercise_constitutional_authority is_system_owner require_exact_amendment non_empty semver
    sha256_digest to_lower require_iso_timestamp find_amendment compare_and_set transition
    apply_action canonical_next clean_ids trim is_git_sha is_sha256 is_numeric is_semver
    is_iso_timestamp
begin_propagation_sound_example =
    begin_propagation_sound lifecycle_verifier tables (λ n. published_store issued) "u1" now
      (some ada) propagating_input started.0 started.1 refl

abbrev verifying_input : VerificationSubmission
verifying_input = record {
  amendment_id = "amendment:1";
  expected_record_version = 7;
  attestation = verification;
  note = "note";
}

abbrev finished : Amendment × ConstitutionStore tables
unfolding verify_from_trusted_attestation
finished =
    returned
      (verify_from_trusted_attestation lifecycle_verifier tables (λ n. published_store rolled_out)
        "u1" (some ada) verifying_input now)
      (rolled_out, published_store rolled_out)

verify_sound_example :
    (can_exercise_constitutional_authority tables.authority (some ada) owned_store ≡ true)
    × ((c : Amendment) × (v : LifecycleVerifier) × (a : VerificationAttestation) × (is_empty
            c.propagation_evidence_ids
          ≡ false)
        × IsCommit tables
            (published_store rolled_out)
            finished.1
            7
            TransitionAction.verify
            c
            finished.0
        × (lifecycle_verifier ≡ some v)
        × (v.verify_verification a ≡ true)
        × IsOfStored lifecycle_verifier tables (λ n. published_store rolled_out) a.identity c
        × IsHarmless a.identity
        × (1 ≤ a.total_repositories)
        × (a.compliant_repositories ≡ a.total_repositories)
        × (a.non_compliant_repositories + a.unverified_repositories
              + a.migration_required_repositories + a.blocked_repositories
            ≡ 0))
unfolding verify_from_trusted_attestation store_moved validate_verification
    validate_lifecycle_identity append_evidence_and_update require_constitutional_authority
    can_exercise_constitutional_authority is_system_owner require_exact_amendment non_empty semver
    sha256_digest to_lower require_iso_timestamp find_amendment compare_and_set transition
    apply_action canonical_next clean_ids trim is_git_sha is_sha256 is_numeric is_semver
    is_iso_timestamp
verify_sound_example =
    verify_sound lifecycle_verifier tables (λ n. published_store rolled_out) "u1" now (some ada)
      verifying_input finished.0 finished.1 refl
