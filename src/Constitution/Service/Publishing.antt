-- ===== src/Constitution/Service/Publishing.antt =====
-- What `publishFromTrustedAttestation` has done when it returns.
use software_blueprint_hub.Shared.{
  ℕ, ◌+◌, String, ◌≡◌, ◌∙◌, true, false, some, arith, inl, inr, ◌==◌, eq_of_==, ok, Option-cases,
  and_parts,
}
use software_blueprint_hub.Authority.{SystemBootstrap}
use software_blueprint_hub.Constitution.Model.{
  Amendment, EvidenceRecord, RatificationDecision, PublicationRecord, approve,
}
use software_blueprint_hub.Constitution.Repository.{
  ConstitutionTables, ConstitutionStore, decision_by_id, may_publish, is_approve,
  append_publication_and_update,
}

is_approve_sound : (d : RatificationDecision) → is_approve d.decision ≡ true → d.decision ≡ approve
is_approve_sound d h = ground arith

module _ (t : ConstitutionTables) where
  -- When the publication is written its author owns the system, and the amendment's decision is
  -- stored as the owner's own human approval of the revision before.
  pub record IsApproved (write : ConstitutionStore t) (a : Amendment) (expected : ℕ)
      (author : String) : Type 0 where
    pub owner : SystemBootstrap
    pub owner_stored :
        t.authority.system_bootstrap.find_unique "system" write.authority.bootstraps ≡ some owner
    pub owner_is_author : owner.owner_principal_id ≡ author
    pub approval : RatificationDecision
    pub approval_stored : decision_by_id t a.ratification_decision_id write ≡ some approval
    pub approved : approval.decision ≡ approve
    pub approved_by_author : approval.reviewer_actor_id ≡ author
    pub of_amendment : approval.amendment_id ≡ a.proposal.id
    pub of_revision_before : approval.amendment_record_version + 1 ≡ expected
    pub human : approval.human_ratification ≡ true

  pub may_publish-IsApproved :
      (write : ConstitutionStore t) (a : Amendment) (expected : ℕ) (p : PublicationRecord)
      → may_publish t
          (t.authority.system_bootstrap.find_unique "system" write.authority.bootstraps)
          (decision_by_id t a.ratification_decision_id write)
          a
          expected
          p
        ≡ true
      → IsApproved write a expected p.published_by_actor_id
  may_publish-IsApproved write a expected p h =
      elim (Option-cases
        (t.authority.system_bootstrap.find_unique "system" write.authority.bootstraps)) [
          | inl e ↦ absurd (ground arith)
          | inr (owner, e) ↦
              elim (Option-cases (decision_by_id t a.ratification_decision_id write)) [
                | inl f ↦ absurd (ground arith)
                | inr (d, f) ↦
                    let both =
                      and_parts (owner.owner_principal_id == p.published_by_actor_id) _
                        (rw (e, f) at h) in
                    let o = eq_of_== _ _ both.0 in
                    record {
                      owner = owner;
                      owner_stored = e;
                      owner_is_author = o;
                      approval = d;
                      approval_stored = f;
                      approved = is_approve_sound d (ground arith);
                      approved_by_author = eq_of_== d.reviewer_actor_id _ (ground arith) ∙ o;
                      of_amendment = eq_of_== d.amendment_id _ (ground arith);
                      of_revision_before = ground arith;
                      human = ground arith;
                    }
              ]
        ]

  pub append_publication-eq-ok :
      (p : PublicationRecord) (e : EvidenceRecord) (a : Amendment) (expected : ℕ)
      (s s' : ConstitutionStore t)
      → append_publication_and_update t p e a expected s ≡ ok s'
      → (may_publish t
            (t.authority.system_bootstrap.find_unique "system" s.authority.bootstraps)
            (decision_by_id t a.ratification_decision_id s)
            a
            expected
            p
          ≡ true)
        × (t.publication.create (record p { production_release_authority = false }) s.publications
            ≡ some s'.publications)
  unfolding append_publication_and_update
  append_publication-eq-ok p e a expected s s' h = ground arith
