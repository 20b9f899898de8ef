-- ===== src/Constitution/Service/Drafted.antt =====
-- What `createDraft` has done when it returns.
use software_blueprint_hub.Shared.{
  ℕ, String, ◌≡◌, refl, ◌∙◌, true, false, not, Option, none, some, arith, is_empty, ==_refl, ok,
  guard-eq-ok, >>=-eq-ok,
}
use software_blueprint_hub.Authority.{
  AuthenticatedActor, principal_of, can_exercise_constitutional_authority,
}
use software_blueprint_hub.Constitution.Model.{draft, Amendment, Proposal}
use software_blueprint_hub.Constitution.Checks.{
  non_empty, semver, semver_greater, check_risk, require_iso_timestamp,
}
use software_blueprint_hub.Constitution.Attestation.{active_policy_version}
use software_blueprint_hub.Constitution.Repository.{
  ConstitutionTables, ConstitutionStore, amendment_key, find_amendment, create_amendment,
}
use software_blueprint_hub.Constitution.Service.Drafts.{
  DraftInput, draft_record, draft_proposal, authorized, create_draft,
}
use software_blueprint_hub.Constitution.Service.Committed.{authorized_sound}

draft_proposal_sound :
    (uuid timestamp : String) (input : DraftInput) (p : Proposal)
    → draft_proposal uuid input timestamp ≡ ok p
    → semver_greater p.target_policy_version p.base_policy_version ≡ true
unfolding draft_proposal
draft_proposal_sound uuid timestamp input p h =
    let (target, _, h₁) =
      >>=-eq-ok (semver input.target_policy_version "targetPolicyVersion") _ h in
    let (base, _, h₂) = >>=-eq-ok (semver active_policy_version "basePolicyVersion") _ h₁ in
    let (greater, h₃) = guard-eq-ok (semver_greater target base) _ _ h₂ in
    let (title, _, h₄) = >>=-eq-ok (non_empty input.title "title") _ h₃ in
    let (problem, _, h₅) = >>=-eq-ok (non_empty input.problem "problem") _ h₄ in
    let (rationale, _, h₆) = >>=-eq-ok (non_empty input.rationale "rationale") _ h₅ in
    let (risk, _, h₇) = >>=-eq-ok (check_risk input.compatibility_risk) _ h₆ in ground arith

module _ (t : ConstitutionTables) (view : ℕ → ConstitutionStore t) where
  create_amendment-found :
      (a : Amendment) (s s' : ConstitutionStore t)
      → create_amendment t a s ≡ ok s'
      → (find_amendment t (amendment_key a) s ≡ none)
        × (find_amendment t (amendment_key a) s' ≡ some a)
  unfolding create_amendment find_amendment
  create_amendment-found a s s' h =
      let row : t.amendment.create a s.amendments ≡ some s'.amendments = ground arith in
      (
        t.amendment.create_fresh a s.amendments s'.amendments row,
        t.amendment.find-create a s.amendments s'.amendments (amendment_key a) row
            ∙ rw (==_refl (amendment_key a)) refl,
      )

  -- The draft that was stored, under an id that was free.
  pub record IsDrafted (actor : Option AuthenticatedActor) (a : Amendment)
      (s' : ConstitutionStore t) : Type 0 where
    pub fresh : find_amendment t (amendment_key a) (view 1) ≡ none
    pub stored : find_amendment t (amendment_key a) s' ≡ some a
    pub is_draft : a.state ≡ draft
    pub first_version : a.record_version ≡ 1
    pub author : a.proposed_by_actor_id ≡ principal_of actor
    pub no_production : a.production_release_authority ≡ false
    pub newer :
        semver_greater a.proposal.target_policy_version a.proposal.base_policy_version ≡ true
    pub has_pillar : is_empty a.proposal.affected_pillar_ids ≡ false

  parts-IsDrafted :
      (actor : Option AuthenticatedActor) (p : Proposal) (timestamp : String) (a : Amendment)
      (s s' : ConstitutionStore t)
      → semver_greater p.target_policy_version p.base_policy_version ≡ true
      → is_empty p.affected_pillar_ids ≡ false
      → create_amendment t (draft_record p (principal_of actor) timestamp) (view 1) ≡ ok s
      → draft_record p (principal_of actor) timestamp ≡ a
      → s ≡ s'
      → IsDrafted actor a s'
  parts-IsDrafted actor p timestamp a s s' newer pillar h same there =
      let (fresh, stored) =
        create_amendment-found (draft_record p (principal_of actor) timestamp) (view 1) s h in
      rw (← same, ← there)
        (record {
          fresh = fresh;
          stored = stored;
          is_draft = refl;
          first_version = refl;
          author = refl;
          no_production = refl;
          newer = newer;
          has_pillar = pillar;
        })

  -- When `createDraft` returns, the actor had constitutional authority, and the amendment is stored
  -- under an id that was free, as a draft of version 1 by the actor, with a target version above its
  -- base version, at least one affected pillar, and no production authority.
  pub create_draft_sound :
      (uuid now : String) (actor : Option AuthenticatedActor) (input : DraftInput) (a : Amendment)
      (s' : ConstitutionStore t)
      → create_draft t view uuid actor input now ≡ ok (a, s')
      → (can_exercise_constitutional_authority t.authority actor (view 0).authority ≡ true)
        × IsDrafted actor a s'
  unfolding create_draft
  create_draft_sound uuid now actor input a s' h =
      let (_, may, h₁) = >>=-eq-ok (authorized t view actor 0) _ h in
      let (timestamp, _, h₂) = >>=-eq-ok (require_iso_timestamp now) _ h₁ in
      let (p, valid, h₃) = >>=-eq-ok (draft_proposal uuid input timestamp) _ h₂ in
      let (pillar, h₄) = guard-eq-ok (not (is_empty p.affected_pillar_ids)) _ _ h₃ in
      let (s, written, h₅) =
        >>=-eq-ok (create_amendment t (draft_record p (principal_of actor) timestamp) (view 1)) _
          h₄ in
      (
        authorized_sound t view actor 0 may,
        parts-IsDrafted actor p timestamp a s s' (draft_proposal_sound uuid timestamp input p valid)
            (ground arith) written (ground arith) (ground arith),
      )
