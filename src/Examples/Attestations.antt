-- ===== src/Examples/Attestations.antt =====
-- The theorems on attestations at concrete inputs.
use software_blueprint_hub.Shared.{ℕ, ◌+◌, ◌≤◌, String, ◌≡◌, refl, Bool, true, false, Result, ok}
use software_blueprint_hub.Shared.Text.{is_sha256}
use software_blueprint_hub.Constitution.Attestation.{
  AuthoritySetAttestation, by_id, validate_authority_set, validate_propagation,
  validate_verification,
}
use software_blueprint_hub.Constitution.Attestation.AuthoritySet.{
  IsAccepted, IsAuthoritySet, validate_authority_set-IsAuthoritySet,
}
use software_blueprint_hub.Constitution.Attestation.Counts.{
  IsHarmless, validate_propagation_sound, validate_verification_sound,
}
use software_blueprint_hub.Examples.Tables.{returned}
use software_blueprint_hub.Examples.Amendments.{
  hex_64, attestation, identity, propagation, verification,
}

-- A hash for the example: the same digest for every text.
abbrev pub constant_hex : String → String
constant_hex text = hex_64

abbrev pub accepted : AuthoritySetAttestation
unfolding validate_authority_set
accepted = returned (validate_authority_set constant_hex attestation) attestation

validate_authority_set-IsAuthoritySet_example :
    IsAccepted constant_hex attestation accepted × IsAuthoritySet constant_hex accepted
unfolding validate_authority_set software_blueprint_hub.Constitution.Checks.semver
    software_blueprint_hub.Constitution.Checks.non_empty software_blueprint_hub.Shared.Text.trim
    software_blueprint_hub.Shared.Text.is_semver software_blueprint_hub.Shared.Text.is_git_sha
    software_blueprint_hub.Shared.Text.is_numeric
    software_blueprint_hub.Constitution.Attestation.validate_components is_sha256
    software_blueprint_hub.Constitution.Checks.to_lower
    software_blueprint_hub.Constitution.Attestation.require_all
validate_authority_set-IsAuthoritySet_example =
    validate_authority_set-IsAuthoritySet constant_hex attestation accepted refl

validate_propagation_sound_example :
    IsHarmless identity × (1 ≤ 5) × (2 + 2 + 1 ≡ 5) × (is_sha256 propagation.snapshot_digest ≡ true)
unfolding validate_propagation
    software_blueprint_hub.Constitution.Attestation.validate_lifecycle_identity
    software_blueprint_hub.Constitution.Checks.semver
    software_blueprint_hub.Constitution.Checks.non_empty software_blueprint_hub.Shared.Text.trim
    software_blueprint_hub.Shared.Text.is_semver software_blueprint_hub.Shared.Text.is_git_sha
    software_blueprint_hub.Shared.Text.is_numeric
    software_blueprint_hub.Constitution.Checks.sha256_digest is_sha256
    software_blueprint_hub.Constitution.Checks.to_lower
validate_propagation_sound_example = validate_propagation_sound propagation propagation refl

validate_verification_sound_example :
    IsHarmless identity
    × (1 ≤ 5)
    × (5 + 0 + 0 + 0 + 0 ≡ 5)
    × (is_sha256 verification.matrix_digest ≡ true)
unfolding validate_verification
    software_blueprint_hub.Constitution.Attestation.validate_lifecycle_identity
    software_blueprint_hub.Constitution.Checks.semver
    software_blueprint_hub.Constitution.Checks.non_empty software_blueprint_hub.Shared.Text.trim
    software_blueprint_hub.Shared.Text.is_semver software_blueprint_hub.Shared.Text.is_git_sha
    software_blueprint_hub.Shared.Text.is_numeric
    software_blueprint_hub.Constitution.Checks.sha256_digest is_sha256
    software_blueprint_hub.Constitution.Checks.to_lower
validate_verification_sound_example = validate_verification_sound verification verification refl
