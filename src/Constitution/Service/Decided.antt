-- ===== src/Constitution/Service/Decided.antt =====
-- What `recordStageEvidence`, `openRatification` and `ratify` have done when they return.
use Prim.Native.String.{◌++◌ as ◌+++◌}
use software_blueprint_hub.Shared.{
  ℕ, String, ◌≡◌, refl, ◌∙◌, ◌⊎◌, true, false, Option, none, some, arith, ==_refl, ok, guard-eq-ok,
  >>=-eq-ok,
}
use software_blueprint_hub.Authority.{
  AuthenticatedActor, principal_of, can_exercise_constitutional_authority,
}
use software_blueprint_hub.Constitution.Model.{
  Amendment, EvidenceRecord, RatificationDecision, DecisionKind, reject, ratification_ready,
  state_eq,
}
use software_blueprint_hub.Constitution.Checks.{non_empty, require_iso_timestamp}
use software_blueprint_hub.Constitution.Transition.{TransitionAction, TransitionInput, transition}
use software_blueprint_hub.Constitution.Repository.{
  ConstitutionTables, ConstitutionStore, update_amendment, append_evidence_and_update,
  append_decision_and_update,
}
use software_blueprint_hub.Constitution.Repository.Versions.{
  update_amendment-IsSwap, append_evidence-IsSwap, append_decision-IsSwap,
}
use software_blueprint_hub.Constitution.Service.Requirements.{
  require_exact_amendment, require_reviewed_candidate,
}
use software_blueprint_hub.Constitution.Service.Drafts.{authorized}
use software_blueprint_hub.Constitution.Service.Stages.{
  StageEvidenceInput, RatificationSubmission, stage_action, decision_action, stage_expects,
  stage_evidence, with_evidence, record_stage_evidence, open_ratification, ratify,
  reviewed_if_approved, decision_record,
}
use software_blueprint_hub.Constitution.Service.Reviewed.{
  IsReviewed, require_reviewed_candidate-IsReviewed, reviewed_if_approved-IsReviewed,
}
use software_blueprint_hub.Constitution.Service.Committed.{
  IsCommit, authorized_sound, transition-IsCommit,
}

-- The input of `openRatification`'s transition.
abbrev opening : TransitionInput
opening = record {
  action = TransitionAction.open_ratification;
  evidence_ids = none;
  human_ratification_decision_id = none;
}

-- The input of `ratify`'s transition.
abbrev deciding : DecisionKind → String → TransitionInput
deciding kind uuid = record {
  action = decision_action kind;
  evidence_ids = none;
  human_ratification_decision_id = some ("constitution-ratification:" +++ uuid);
}

-- A decision of this person on this revision of the amendment.
pub record IsHumanDecision (author : String) (kind : DecisionKind) (c : Amendment)
    (d : RatificationDecision) : Type 0 where
  pub of_amendment : d.amendment_id ≡ c.proposal.id
  pub of_version : d.amendment_record_version ≡ c.record_version
  pub author_of : d.reviewer_actor_id ≡ author
  pub decided : d.decision ≡ kind
  pub authenticated : d.source ≡ "authenticated-user-action"
  pub human : d.human_ratification ≡ true
  pub no_production : d.production_release_authority ≡ false

module _ (t : ConstitutionTables) (view : ℕ → ConstitutionStore t) where
  -- When `recordStageEvidence` returns, the actor had constitutional authority, the stage of the
  -- amendment expected this kind of evidence, and the amendment that was read is committed one
  -- stage further.
  pub record_stage_evidence_sound :
      (uuid now : String) (actor : Option AuthenticatedActor) (input : StageEvidenceInput)
      (next : Amendment) (s' : ConstitutionStore t)
      → record_stage_evidence t view uuid actor input now ≡ ok (next, s')
      → (can_exercise_constitutional_authority t.authority actor (view 0).authority ≡ true)
        × ((c : Amendment) × (stage_expects c.state input.kind ≡ true)
            × IsCommit t (view 1) s' input.expected_record_version (stage_action input.kind) c next)
  unfolding record_stage_evidence
  record_stage_evidence_sound uuid now actor input next s' h =
      let (_, may, h₁) = >>=-eq-ok (authorized t view actor 0) _ h in
      let (c, read, h₂) = >>=-eq-ok (require_exact_amendment t _ _ (view 1)) _ h₁ in
      let (timestamp, _, h₃) = >>=-eq-ok (require_iso_timestamp now) _ h₂ in
      let (expects, h₄) = guard-eq-ok (stage_expects c.state input.kind) _ _ h₃ in
      let (e, _, h₅) =
        >>=-eq-ok (stage_evidence uuid (principal_of actor) input c timestamp) _ h₄ in
      let (moved, step, h₆) = >>=-eq-ok (transition c _) _ h₅ in
      let (s, written, h₇) = >>=-eq-ok (append_evidence_and_update t e _ _ _ _ (view 2)) _ h₆ in
      (
        authorized_sound t view actor 0 may,
        (
          c,
          expects,
          (transition-IsCommit t input.amendment_id timestamp input.expected_record_version
              (λ row. true) (with_evidence (stage_action input.kind) e.id) (view 1) (view 2) s s' c
              moved next read step (append_evidence-IsSwap t e _ _ _ _ (view 2) s written)
              (ground arith) (ground arith)),
        ),
      )

  -- When `openRatification` returns, the actor had constitutional authority; migration evidence, with
  -- an exact digest, and impact evidence were stored for the amendment and listed by it, both at one
  -- exact commit; and the amendment that was read is committed as open for ratification.
  pub open_ratification_sound :
      (id now : String) (expected : ℕ) (actor : Option AuthenticatedActor) (next : Amendment)
      (s' : ConstitutionStore t)
      → open_ratification t view actor id expected now ≡ ok (next, s')
      → (can_exercise_constitutional_authority t.authority actor (view 0).authority ≡ true)
        × ((c : Amendment) × (seal : EvidenceRecord) × IsReviewed t c (view 2) seal
            × IsCommit t (view 1) s' expected TransitionAction.open_ratification c next)
  unfolding open_ratification
  open_ratification_sound id now expected actor next s' h =
      let (_, may, h₁) = >>=-eq-ok (authorized t view actor 0) _ h in
      let (c, read, h₂) = >>=-eq-ok (require_exact_amendment t id expected (view 1)) _ h₁ in
      let (seal, sealed, h₃) = >>=-eq-ok (require_reviewed_candidate t c (view 2)) _ h₂ in
      let (moved, step, h₄) = >>=-eq-ok (transition c opening) _ h₃ in
      let (timestamp, _, h₅) = >>=-eq-ok (require_iso_timestamp now) _ h₄ in
      let (s, written, h₆) = >>=-eq-ok (update_amendment t _ expected _ _ (view 3)) _ h₅ in
      (
        authorized_sound t view actor 0 may,
        (
          c,
          seal,
          require_reviewed_candidate-IsReviewed t c (view 2) seal sealed,
          (transition-IsCommit t id timestamp expected (λ row. true) opening (view 1) (view 3) s s'
              c moved next read step (update_amendment-IsSwap t _ expected _ _ (view 3) s written)
              (ground arith) (ground arith)),
        ),
      )

  append_decision-stored :
      (d : RatificationDecision) (a : Amendment) (expected : ℕ) (s s' : ConstitutionStore t)
      → append_decision_and_update t d a expected s ≡ ok s'
      → t.decision.create
          (record d { human_ratification = true; production_release_authority = false })
          s.decisions
        ≡ some s'.decisions
  unfolding append_decision_and_update
  append_decision-stored d a expected s s' h = ground arith

  found_decision :
      (d : RatificationDecision) (write s s' : ConstitutionStore t)
      → t.decision.create d write.decisions ≡ some s.decisions
      → s ≡ s'
      → t.decision.find_unique d.id s'.decisions ≡ some d
  found_decision d write s s' h e =
      rw (← e)
        (t.decision.find-create d write.decisions s.decisions d.id h ∙ rw (==_refl d.id) refl)

  -- When `ratify` returns, the actor had constitutional authority; the decision rejects, or migration
  -- evidence, with an exact digest, and impact evidence were stored for the amendment and listed by
  -- it, both at one exact commit; the amendment that was read is committed as ratified or rejected, by the decision; and
  -- the decision is stored, by its id, as a human decision of the actor, bound to the version that was
  -- read, without production authority.
  pub ratify_sound :
      (uuid now : String) (actor : Option AuthenticatedActor) (input : RatificationSubmission)
      (next : Amendment) (s' : ConstitutionStore t)
      → ratify t view uuid actor input now ≡ ok (next, s')
      → (can_exercise_constitutional_authority t.authority actor (view 0).authority ≡ true)
        × ((c : Amendment) × (d : RatificationDecision) × ((input.decision ≡ reject)
              ⊎ ((seal : EvidenceRecord) × IsReviewed t c (view 2) seal))
            × IsCommit t
                (view 1)
                s'
                input.expected_record_version
                (decision_action input.decision)
                c
                next
            × (t.decision.find_unique d.id s'.decisions ≡ some d)
            × IsHumanDecision (principal_of actor) input.decision c d)
  unfolding ratify
  ratify_sound uuid now actor input next s' h =
      let (_, may, h₁) = >>=-eq-ok (authorized t view actor 0) _ h in
      let (c, read, h₂) = >>=-eq-ok (require_exact_amendment t _ _ (view 1)) _ h₁ in
      let (_, h₃) = guard-eq-ok (state_eq c.state ratification_ready) _ _ h₂ in
      let (_, reviewed, h₄) = >>=-eq-ok (reviewed_if_approved t view input.decision c) _ h₃ in
      let (timestamp, _, h₅) = >>=-eq-ok (require_iso_timestamp now) _ h₄ in
      let (note, _, h₆) = >>=-eq-ok (non_empty input.note "ratification note") _ h₅ in
      let (moved, step, h₇) = >>=-eq-ok (transition c _) _ h₆ in
      let (s, written, h₈) = >>=-eq-ok (append_decision_and_update t _ _ _ (view 3)) _ h₇ in
      let d =
        decision_record ("constitution-ratification:" +++ uuid) (principal_of actor) input c
          timestamp note in
      (
        authorized_sound t view actor 0 may,
        (
          c,
          d,
          reviewed_if_approved-IsReviewed t view input.decision c reviewed,
          transition-IsCommit t input.amendment_id timestamp input.expected_record_version
              (λ row. true) (deciding input.decision uuid) (view 1) (view 3) s s' c moved next read
              step (append_decision-IsSwap t d _ _ (view 3) s written) (ground arith)
              (ground arith),
          found_decision d (view 3) s s' (append_decision-stored d _ _ (view 3) s written)
              (ground arith),
          record {
            of_amendment = refl;
            of_version = refl;
            author_of = refl;
            decided = refl;
            authenticated = refl;
            human = refl;
            no_production = refl;
          },
        ),
      )
