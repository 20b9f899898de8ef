-- ===== src/Constitution/Attestation/Counts.antt =====
-- What an accepted propagation or verification attestation holds.
use software_blueprint_hub.Shared.{
  ◌+◌, ◌≤◌, String, ◌≡◌, true, false, ◌==◌, arith, eq_of_==, ok, guard-eq-ok, >>=-eq-ok, nat_eq,
  nat_eq_iff, leb, leb→le,
}
use software_blueprint_hub.Shared.Text.{is_git_sha, is_numeric, is_sha256}
use software_blueprint_hub.Constitution.Checks.{non_empty, semver, sha256_digest, to_lower}
use software_blueprint_hub.Constitution.Attestation.{
  policy_id, LifecycleIdentity, PropagationAttestation, VerificationAttestation,
  validate_lifecycle_identity, validate_propagation, validate_verification,
}

-- A digest that passes is sha256:<64 lowercase hex characters>.
pub sha256_digest-is_sha256 : (value d : String) → sha256_digest value ≡ ok d → is_sha256 d ≡ true
unfolding sha256_digest
sha256_digest-is_sha256 value d h =
    let (trimmed, _, k) = >>=-eq-ok (non_empty value "digest") _ h in
    let (good, e) = guard-eq-ok (is_sha256 (to_lower trimmed)) _ _ k in
    let same : to_lower trimmed ≡ d = ground arith in rw (← same) good

-- What the identity of a lifecycle attestation must not claim.
pub record IsHarmless (i : LifecycleIdentity) : Type 0 where
  pub of_policy : i.policy_id ≡ policy_id
  pub trusted : i.source ≡ "trusted-constitution-lifecycle-attestation"
  pub certifies_no_release : i.exact_release_revision_certified ≡ false
  pub grants_no_production : i.production_release_authority ≡ false

validate_lifecycle_identity-IsHarmless :
    (i : LifecycleIdentity) → validate_lifecycle_identity i ≡ ok tt → IsHarmless i
unfolding validate_lifecycle_identity
validate_lifecycle_identity-IsHarmless i h =
    let (_, h₁) = guard-eq-ok (i.schema_version == "1.0.0") _ _ h in
    let (trusted, h₂) =
      guard-eq-ok (i.source == "trusted-constitution-lifecycle-attestation") _ _ h₁ in
    let (policy, h₃) = guard-eq-ok (i.policy_id == policy_id) _ _ h₂ in
    let (v, _, h₄) = >>=-eq-ok (semver i.policy_version "attestation.policyVersion") _ h₃ in
    let (a, _, h₅) = >>=-eq-ok (non_empty i.amendment_id "attestation.amendmentId") _ h₄ in
    let (p, _, h₆) = >>=-eq-ok (non_empty i.publication_id "attestation.publicationId") _ h₅ in
    let (revision, _, h₇) = >>=-eq-ok (non_empty i.source_revision "sourceRevision") _ h₆ in
    let (_, h₈) = guard-eq-ok (is_git_sha revision) _ _ h₇ in
    let (run_id, _, h₉) = >>=-eq-ok (non_empty i.workflow_run_id "workflowRunId") _ h₈ in
    let (_, k) = guard-eq-ok (is_numeric run_id) _ _ h₉ in
    record {
      of_policy = eq_of_== _ _ policy;
      trusted = eq_of_== _ _ trusted;
      certifies_no_release = ground arith;
      grants_no_production = ground arith;
    }

-- An accepted propagation attestation is of the policy, grants nothing, has a normalized digest, and
-- its three counts partition at least one repository.
pub validate_propagation_sound :
    (a b : PropagationAttestation)
    → validate_propagation a ≡ ok b
    → IsHarmless b.identity
      × (1 ≤ b.total_repositories)
      × (b.current_repositories + b.migration_required_repositories + b.blocked_repositories
          ≡ b.total_repositories)
      × (is_sha256 b.snapshot_digest ≡ true)
unfolding validate_propagation
validate_propagation_sound a b h =
    let (_, valid, h₁) = >>=-eq-ok (validate_lifecycle_identity a.identity) _ h in
    let (_, h₂) = guard-eq-ok (a.kind == "constitution-propagation-attestation") _ _ h₁ in
    let (some_left, h₃) = guard-eq-ok (leb 1 a.total_repositories) _ _ h₂ in
    let (sums, h₄) = guard-eq-ok (nat_eq _ a.total_repositories) _ _ h₃ in
    let (d, digest, h₅) = >>=-eq-ok (sha256_digest a.snapshot_digest) _ h₄ in
    let e : record a { snapshot_digest = d } ≡ b = ground arith in
    rw (← e) (
      validate_lifecycle_identity-IsHarmless a.identity valid,
      leb→le _ _ some_left,
      (nat_eq_iff _ _).0 sums,
      sha256_digest-is_sha256 _ d digest,
    )

-- An accepted verification attestation is of the policy, grants nothing, has a normalized digest,
-- and its five counts partition at least one repository.
pub validate_verification_sound :
    (a b : VerificationAttestation)
    → validate_verification a ≡ ok b
    → IsHarmless b.identity
      × (1 ≤ b.total_repositories)
      × (b.compliant_repositories + b.non_compliant_repositories + b.unverified_repositories
            + b.migration_required_repositories + b.blocked_repositories
          ≡ b.total_repositories)
      × (is_sha256 b.matrix_digest ≡ true)
unfolding validate_verification
validate_verification_sound a b h =
    let (_, valid, h₁) = >>=-eq-ok (validate_lifecycle_identity a.identity) _ h in
    let (_, h₂) = guard-eq-ok (a.kind == "constitution-verification-attestation") _ _ h₁ in
    let (some_left, h₃) = guard-eq-ok (leb 1 a.total_repositories) _ _ h₂ in
    let (sums, h₄) = guard-eq-ok (nat_eq _ a.total_repositories) _ _ h₃ in
    let (d, digest, h₅) = >>=-eq-ok (sha256_digest a.matrix_digest) _ h₄ in
    let e : record a { matrix_digest = d } ≡ b = ground arith in
    rw (← e) (
      validate_lifecycle_identity-IsHarmless a.identity valid,
      leb→le _ _ some_left,
      (nat_eq_iff _ _).0 sums,
      sha256_digest-is_sha256 _ d digest,
    )
