-- ===== src/Constitution/Service/Published.antt =====
-- What is stored when `publishFromTrustedAttestation` returns.
use software_blueprint_hub.Shared.{
  ℕ, String, ◌≡◌, refl, sym, ap, ◌∙◌, subst, Bool, true, ◌&&◌, Option, some, arith, ◌==◌, eq_of_==,
  ==_refl, ok, found-eq-ok, guard-eq-ok, >>=-eq-ok, and_parts,
}
use software_blueprint_hub.Authority.{
  AuthenticatedActor, principal_of, can_exercise_constitutional_authority,
}
use software_blueprint_hub.Constitution.Model.{
  Amendment, Proposal, EvidenceRecord, PublicationRecord, ratified, state_eq,
}
use software_blueprint_hub.Constitution.Checks.{non_empty, require_iso_timestamp}
use software_blueprint_hub.Constitution.Transition.{TransitionAction, transition, canonical_next}
use software_blueprint_hub.Constitution.Attestation.{
  AuthoritySetAttestation, validate_authority_set,
}
use software_blueprint_hub.Constitution.Attestation.AuthoritySet.{
  IsAuthoritySet, validate_authority_set-IsAuthoritySet,
}
use software_blueprint_hub.Constitution.Repository.{
  ConstitutionTables, ConstitutionStore, append_publication_and_update,
}
use software_blueprint_hub.Constitution.Repository.Versions.{append_publication-IsSwap}
use software_blueprint_hub.Constitution.Service.Requirements.{
  require_exact_amendment, require_reviewed_candidate, require_valid_ratification,
}
use software_blueprint_hub.Constitution.Service.Drafts.{authorized}
use software_blueprint_hub.Constitution.Service.Stages.{with_evidence}
use software_blueprint_hub.Constitution.Service.Publication.{
  PublicationVerifier, PublicationSubmission, publication_evidence, publication_record,
  verified_attestation, publish_from_trusted_attestation,
}
use software_blueprint_hub.Constitution.Service.Committed.{
  IsCommit, authorized_sound, transition-IsCommit,
}
use software_blueprint_hub.Constitution.Service.Publishing.{
  IsApproved, may_publish-IsApproved, append_publication-eq-ok,
}

module _ (sha256_hex : String → String) (t : ConstitutionTables)
    (view : ℕ → ConstitutionStore t) where
  -- The attestation that a publication rests on: an authority set of the target version, which the
  -- verifier accepts, and which is the reviewed candidate of the amendment.
  pub record IsSealed (verify : AuthoritySetAttestation → Bool) (c : Amendment)
      (a : AuthoritySetAttestation) : Type 0 where
    pub authority_set : IsAuthoritySet sha256_hex a
    pub of_target : a.policy_version ≡ c.proposal.target_policy_version
    pub verified : verify a ≡ true
    pub seal : EvidenceRecord
    pub reviewed : require_reviewed_candidate t c (view 4) ≡ ok seal
    pub same_revision : a.source_revision ≡ seal.revision
    pub same_digest : a.authority_set_digest ≡ seal.digest

  sealed_of :
      (verify : AuthoritySetAttestation → Bool) (c : Amendment)
      (given a b : AuthoritySetAttestation) (seal : EvidenceRecord)
      → validate_authority_set sha256_hex given ≡ ok a
      → (a.policy_version == c.proposal.target_policy_version) ≡ true
      → require_reviewed_candidate t c (view 4) ≡ ok seal
      → ((a.source_revision == seal.revision) && (a.authority_set_digest == seal.digest)) ≡ true
      → verify a ≡ true
      → a ≡ b
      → IsSealed verify c b
  sealed_of verify c given a b seal valid target reviewed match verified same =
      let (revision, digest) = and_parts (a.source_revision == seal.revision) _ match in
      rw (← same) (record {
        authority_set = (validate_authority_set-IsAuthoritySet sha256_hex given a valid).1;
        of_target = eq_of_== _ _ target;
        verified = verified;
        seal = seal;
        reviewed = reviewed;
        same_revision = eq_of_== _ _ revision;
        same_digest = eq_of_== _ _ digest;
      })

  verified_attestation_sound :
      (verifier : Option PublicationVerifier) (v : PublicationVerifier)
      (actor : Option AuthenticatedActor) (input : PublicationSubmission) (c : Amendment)
      (b : AuthoritySetAttestation)
      → verified_attestation sha256_hex verifier t view v actor input c ≡ ok b
      → IsSealed v.verify c b
  unfolding verified_attestation
  verified_attestation_sound verifier v actor input c b h =
      let (_, _, h₁) = >>=-eq-ok (require_valid_ratification t c (view 2) (view 3)) _ h in
      let (a, valid, h₂) = >>=-eq-ok (validate_authority_set sha256_hex input.attestation) _ h₁ in
      let (target, h₃) =
        guard-eq-ok (a.policy_version == c.proposal.target_policy_version) _ _ h₂ in
      let (seal, reviewed, h₄) = >>=-eq-ok (require_reviewed_candidate t c (view 4)) _ h₃ in
      let (match, h₅) =
        guard-eq-ok
          ((a.source_revision == seal.revision) && (a.authority_set_digest == seal.digest)) _ _
          h₄ in
      let (verified, h₆) = guard-eq-ok (v.verify a) _ _ h₅ in
      let (_, _, h₇) = >>=-eq-ok (authorized t view actor 5) _ h₆ in
      let (again, _, h₈) = >>=-eq-ok (require_exact_amendment t _ _ (view 6)) _ h₇ in
      let (_, _, h₉) = >>=-eq-ok (require_valid_ratification t again (view 7) (view 8)) _ h₈ in
      sealed_of v.verify c input.attestation a b seal valid target reviewed match verified
        (ground arith)

  -- What is stored of a publication.
  pub record IsPublished (verifier : Option PublicationVerifier) (actor : Option AuthenticatedActor)
      (expected : ℕ) (next : Amendment) (p : PublicationRecord) (s' : ConstitutionStore t)
      : Type 0 where
    pub read : Amendment
    pub committed : IsCommit t (view 1) s' expected TransitionAction.publish read next
    pub attestation : AuthoritySetAttestation
    pub checker : PublicationVerifier
    pub configured : verifier ≡ some checker
    pub sealed : IsSealed checker.verify read attestation
    pub approved : IsApproved t (view 9) next expected (principal_of actor)
    pub recorded : t.publication.find_unique p.amendment_id s'.publications ≡ some p
    pub of_amendment : p.amendment_id ≡ next.proposal.id
    pub of_set : p.authority_set_digest ≡ attestation.authority_set_digest
    pub of_version : p.policy_version ≡ next.proposal.target_policy_version

  recorded_publication :
      (p q : PublicationRecord) (write s s' : ConstitutionStore t)
      → t.publication.create p write.publications ≡ some s.publications
      → p ≡ q
      → s ≡ s'
      → t.publication.find_unique q.amendment_id s'.publications ≡ some q
  recorded_publication p q write s s' h n e =
      rw (← n, ← e)
        (t.publication.find-create p write.publications s.publications p.amendment_id h
          ∙ rw (==_refl p.amendment_id) refl)

  -- The parts of a publication, put together for what the handler returned.
  parts-IsPublished :
      (verifier : Option PublicationVerifier) (v : PublicationVerifier)
      (actor : Option AuthenticatedActor) (expected : ℕ) (c a next : Amendment)
      (b : AuthoritySetAttestation) (p q : PublicationRecord) (s s' : ConstitutionStore t)
      → verifier ≡ some v
      → IsCommit t (view 1) s' expected TransitionAction.publish c next
      → IsSealed v.verify c b
      → IsApproved t (view 9) a expected (principal_of actor)
      → t.publication.create p (view 9).publications ≡ some s.publications
      → p.amendment_id ≡ c.proposal.id
      → p.authority_set_digest ≡ b.authority_set_digest
      → p.policy_version ≡ b.policy_version
      → a ≡ next
      → p ≡ q
      → s ≡ s'
      → IsPublished verifier actor expected next q s'
  parts-IsPublished verifier v actor expected c a next b p q s s' vs done seal app pub_row pid pdig
        pver an pq ss =
      record {
        read = c;
        committed = done;
        attestation = b;
        checker = v;
        configured = vs;
        sealed = seal;
        approved = subst (λ x. IsApproved t (view 9) x expected (principal_of actor)) an app;
        recorded = recorded_publication p q (view 9) s s' pub_row pq ss;
        of_amendment =
            ap PublicationRecord.amendment_id (sym pq)
            ∙ (pid ∙ ap Proposal.id (sym done.same_proposal));
        of_set = ap PublicationRecord.authority_set_digest (sym pq) ∙ pdig;
        of_version =
            ap PublicationRecord.policy_version (sym pq)
            ∙ (pver
                ∙ (seal.of_target ∙ ap Proposal.target_policy_version (sym done.same_proposal)));
      }

  -- When `publishFromTrustedAttestation` returns, the actor had constitutional authority; the
  -- amendment that was read is committed as published; it rests on an attestation that is a valid
  -- authority set of the target version, accepted by the configured verifier and equal to the
  -- reviewed candidate; at the moment of the write the actor owned the system and had approved the
  -- revision before by a stored human decision; and the publication is stored as returned.
  pub publish_sound :
      (verifier : Option PublicationVerifier) (uuid publication_uuid now : String)
      (actor : Option AuthenticatedActor) (input : PublicationSubmission) (next : Amendment)
      (p : PublicationRecord) (s' : ConstitutionStore t)
      → publish_from_trusted_attestation sha256_hex verifier t view uuid publication_uuid actor
          input now
        ≡ ok (next, p, s')
      → (can_exercise_constitutional_authority t.authority actor (view 0).authority ≡ true)
        × IsPublished verifier actor input.expected_record_version next p s'
  unfolding publish_from_trusted_attestation
  publish_sound verifier uuid publication_uuid now actor input next p s' h =
      let (_, may, h₁) = >>=-eq-ok (authorized t view actor 0) _ h in
      let (v, configured, h₂) = found-eq-ok verifier _ _ h₁ in
      let (c, read, h₃) = >>=-eq-ok (require_exact_amendment t _ _ (view 1)) _ h₂ in
      let (b, attested, h₄) =
        >>=-eq-ok (verified_attestation sha256_hex verifier t view v actor input c) _ h₃ in
      let (timestamp, _, h₅) = >>=-eq-ok (require_iso_timestamp now) _ h₄ in
      let (note, _, h₆) = >>=-eq-ok (non_empty input.note "publication note") _ h₅ in
      let e = publication_evidence uuid (principal_of actor) b c timestamp note in
      let q = publication_record publication_uuid (principal_of actor) b c timestamp in
      let (moved, step, h₇) = >>=-eq-ok (transition c _) _ h₆ in
      let (s, written, h₈) = >>=-eq-ok (append_publication_and_update t q e _ _ (view 9)) _ h₇ in
      let a = canonical_next c moved timestamp in
      let (allowed, row) = append_publication-eq-ok t q e a _ (view 9) s written in
      (
        authorized_sound t view actor 0 may,
        parts-IsPublished verifier v actor _ c a next b q p s s' configured
            (transition-IsCommit t input.amendment_id timestamp input.expected_record_version
              (λ r. state_eq r.state ratified) (with_evidence TransitionAction.publish e.id)
              (view 1) (view 9) s s' c moved next read step
              (append_publication-IsSwap t q e a _ (view 9) s written) (ground arith)
              (ground arith))
            (verified_attestation_sound verifier v actor input c b attested)
            (may_publish-IsApproved t (view 9) a _ q allowed) row refl refl refl (ground arith)
            (ground arith) (ground arith),
      )
