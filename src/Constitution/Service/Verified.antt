-- ===== src/Constitution/Service/Verified.antt =====
-- What the two lifecycle handlers have done when they return.
use software_blueprint_hub.Shared.{
  ℕ, ◌+◌, String, ◌≡◌, true, false, not, ◌&&◌, Option, some, arith, is_empty, ◌≤◌, eq_of_==, ok,
  found-eq-ok, guard-eq-ok, >>=-eq-ok,
}
use software_blueprint_hub.Authority.{
  AuthenticatedActor, principal_of, can_exercise_constitutional_authority,
}
use software_blueprint_hub.Constitution.Model.{
  Amendment, EvidenceRecord, PublicationRecord, published, propagating, state_eq,
}
use software_blueprint_hub.Constitution.Checks.{non_empty, require_iso_timestamp}
use software_blueprint_hub.Constitution.Transition.{TransitionAction, transition, canonical_next}
use software_blueprint_hub.Constitution.Repository.{
  ConstitutionTables, ConstitutionStore, append_evidence_and_update,
}
use software_blueprint_hub.Constitution.Repository.Versions.{append_evidence-IsSwap}
use software_blueprint_hub.Constitution.Service.Requirements.{is_some_id, require_exact_amendment}
use software_blueprint_hub.Constitution.Service.Drafts.{authorized}
use software_blueprint_hub.Constitution.Service.Stages.{with_evidence}
use software_blueprint_hub.Constitution.Service.Propagation.{
  LifecycleVerifier, PropagationSubmission, VerificationSubmission, propagation_evidence,
  verification_evidence, store_moved, is_of_publication, is_fully_compliant, find_publication,
  begin_propagation, verify_from_trusted_attestation,
}
use software_blueprint_hub.Constitution.Attestation.{
  LifecycleIdentity, PropagationAttestation, VerificationAttestation, validate_propagation,
  validate_verification,
}
use software_blueprint_hub.Constitution.Attestation.Counts.{
  IsHarmless, validate_propagation_sound, validate_verification_sound,
}
use software_blueprint_hub.Constitution.Service.Committed.{
  IsCommit, authorized_sound, transition-IsCommit,
}

is_fully_compliant_sound :
    (a : VerificationAttestation)
    → is_fully_compliant a ≡ true
    → (a.compliant_repositories ≡ a.total_repositories)
      × (a.non_compliant_repositories + a.unverified_repositories
            + a.migration_required_repositories + a.blocked_repositories
          ≡ 0)
is_fully_compliant_sound a h = ground arith

module _ (t : ConstitutionTables) where
  store_moved_sound :
      (id now author audit : String) (expected : ℕ) (action : TransitionAction) (e : EvidenceRecord)
      (c next : Amendment) (before write after : ConstitutionStore t)
      → require_exact_amendment t id expected before ≡ ok c
      → store_moved t action e c expected author audit now write ≡ ok (next, after)
      → IsCommit t before after expected action c next
  unfolding store_moved
  store_moved_sound id now author audit expected action e c next before write after read h =
      let (moved, step, h₁) = >>=-eq-ok (transition c (with_evidence action e.id)) _ h in
      let a = canonical_next c moved now in
      let (s, written, h₂) =
        >>=-eq-ok (append_evidence_and_update t e a expected author audit write) _ h₁ in
      transition-IsCommit t id now expected (λ r. true) (with_evidence action e.id) before write s
        after c moved next read step
        (append_evidence-IsSwap t e a expected author audit write s written) (ground arith)
        (ground arith)

module _ (verifier : Option LifecycleVerifier) (t : ConstitutionTables)
    (view : ℕ → ConstitutionStore t) where
  -- The attestation is of the read amendment and of its stored publication.
  pub record IsOfStored (i : LifecycleIdentity) (c : Amendment) : Type 0 where
    pub publication : PublicationRecord
    pub stored : find_publication verifier t view c.proposal.id 2 ≡ some publication
    pub of_amendment : i.amendment_id ≡ c.proposal.id
    pub of_publication : i.publication_id ≡ publication.id
    pub of_target : i.policy_version ≡ c.proposal.target_policy_version
    pub of_published : i.policy_version ≡ publication.policy_version

  is_of_publication-IsOfStored :
      (i : LifecycleIdentity) (c : Amendment) (p : PublicationRecord)
      → find_publication verifier t view c.proposal.id 2 ≡ some p
      → is_of_publication i c p ≡ true
      → IsOfStored i c
  is_of_publication-IsOfStored i c p stored h = record {
    publication = p;
    stored = stored;
    of_amendment = eq_of_== i.amendment_id _ (ground arith);
    of_publication = eq_of_== i.publication_id _ (ground arith);
    of_target = eq_of_== i.policy_version _ (ground arith);
    of_published = eq_of_== i.policy_version _ (ground arith);
  }

  -- When `beginPropagationFromTrustedAttestation` returns, the actor had constitutional authority;
  -- the amendment that was read is committed as propagating; and the configured verifier accepted an
  -- attestation of its stored publication, which grants nothing and whose counts partition the
  -- repositories.
  pub begin_propagation_sound :
      (uuid now : String) (actor : Option AuthenticatedActor) (input : PropagationSubmission)
      (next : Amendment) (s' : ConstitutionStore t)
      → begin_propagation verifier t view uuid actor input now ≡ ok (next, s')
      → (can_exercise_constitutional_authority t.authority actor (view 0).authority ≡ true)
        × ((c : Amendment) × (v : LifecycleVerifier) × (a : PropagationAttestation) × IsCommit t
              (view 1)
              s'
              input.expected_record_version
              TransitionAction.begin_propagation
              c
              next
            × (verifier ≡ some v)
            × (v.verify_propagation a ≡ true)
            × IsOfStored a.identity c
            × IsHarmless a.identity
            × (a.current_repositories + a.migration_required_repositories + a.blocked_repositories
                ≡ a.total_repositories))
  unfolding begin_propagation
  begin_propagation_sound uuid now actor input next s' h =
      let (_, may, h₁) = >>=-eq-ok (authorized t view actor 0) _ h in
      let (v, configured, h₂) = found-eq-ok verifier _ _ h₁ in
      let (c, read, h₃) = >>=-eq-ok (require_exact_amendment t _ _ (view 1)) _ h₂ in
      let (_, h₄) =
        guard-eq-ok (state_eq c.state published && is_some_id c.publication_evidence_id) _ _ h₃ in
      let (p, stored, h₅) = found-eq-ok (find_publication verifier t view c.proposal.id 2) _ _ h₄ in
      let (a, valid, h₆) = >>=-eq-ok (validate_propagation input.attestation) _ h₅ in
      let (matches, h₇) = guard-eq-ok (is_of_publication a.identity c p) _ _ h₆ in
      let (verified, h₈) = guard-eq-ok (v.verify_propagation a) _ _ h₇ in
      let (timestamp, _, h₉) = >>=-eq-ok (require_iso_timestamp now) _ h₈ in
      let (note, _, k) = >>=-eq-ok (non_empty input.note "propagation note") _ h₉ in
      let (harmless, _, sums, _) = validate_propagation_sound input.attestation a valid in
      (
        authorized_sound t view actor 0 may,
        (
          c,
          v,
          a,
          store_moved_sound t input.amendment_id timestamp (principal_of actor)
              "CONSTITUTION_PROPAGATION_STARTED" input.expected_record_version
              TransitionAction.begin_propagation
              (propagation_evidence uuid (principal_of actor) a c timestamp note) c next (view 1)
              (view 3) s' read k,
          configured,
          verified,
          is_of_publication-IsOfStored a.identity c p stored matches,
          harmless,
          sums,
        ),
      )

  -- When `verifyFromTrustedAttestation` returns, the actor had constitutional authority; the
  -- amendment that was read, which had propagation evidence, is committed as verified; and the
  -- configured verifier accepted an attestation of its stored publication, which grants nothing and
  -- counts at least one repository, all of them compliant and none otherwise.
  pub verify_sound :
      (uuid now : String) (actor : Option AuthenticatedActor) (input : VerificationSubmission)
      (next : Amendment) (s' : ConstitutionStore t)
      → verify_from_trusted_attestation verifier t view uuid actor input now ≡ ok (next, s')
      → (can_exercise_constitutional_authority t.authority actor (view 0).authority ≡ true)
        × ((c : Amendment) × (v : LifecycleVerifier) × (a : VerificationAttestation) × (is_empty
                c.propagation_evidence_ids
              ≡ false)
            × IsCommit t (view 1) s' input.expected_record_version TransitionAction.verify c next
            × (verifier ≡ some v)
            × (v.verify_verification a ≡ true)
            × IsOfStored a.identity c
            × IsHarmless a.identity
            × (1 ≤ a.total_repositories)
            × (a.compliant_repositories ≡ a.total_repositories)
            × (a.non_compliant_repositories + a.unverified_repositories
                  + a.migration_required_repositories + a.blocked_repositories
                ≡ 0))
  unfolding verify_from_trusted_attestation
  verify_sound uuid now actor input next s' h =
      let (_, may, h₁) = >>=-eq-ok (authorized t view actor 0) _ h in
      let (v, configured, h₂) = found-eq-ok verifier _ _ h₁ in
      let (c, read, h₃) = >>=-eq-ok (require_exact_amendment t _ _ (view 1)) _ h₂ in
      let (backed, h₄) =
        guard-eq-ok (state_eq c.state propagating && not (is_empty c.propagation_evidence_ids)) _ _
          h₃ in
      let (p, stored, h₅) = found-eq-ok (find_publication verifier t view c.proposal.id 2) _ _ h₄ in
      let (a, valid, h₆) = >>=-eq-ok (validate_verification input.attestation) _ h₅ in
      let (matches, h₇) = guard-eq-ok (is_of_publication a.identity c p) _ _ h₆ in
      let (compliant, h₈) = guard-eq-ok (is_fully_compliant a) _ _ h₇ in
      let (verified, h₉) = guard-eq-ok (v.verify_verification a) _ _ h₈ in
      let (timestamp, _, k) = >>=-eq-ok (require_iso_timestamp now) _ h₉ in
      let (note, _, k₁) = >>=-eq-ok (non_empty input.note "verification note") _ k in
      let (harmless, some_left, sums, _) = validate_verification_sound input.attestation a valid in
      let (all_compliant, none_else) = is_fully_compliant_sound a compliant in
      (
        authorized_sound t view actor 0 may,
        (
          c,
          v,
          a,
          (ground arith),
          store_moved_sound t input.amendment_id timestamp (principal_of actor)
              "CONSTITUTION_VERIFIED" input.expected_record_version TransitionAction.verify
              (verification_evidence uuid (principal_of actor) a c timestamp note) c next (view 1)
              (view 3) s' read k₁,
          configured,
          verified,
          is_of_publication-IsOfStored a.identity c p stored matches,
          harmless,
          some_left,
          all_compliant,
          none_else,
        ),
      )
