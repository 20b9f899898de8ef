-- ===== src/Constitution/Transition/Evidence.antt =====
-- What an amendment carries at each stage, whatever transitions led there.
use software_blueprint_hub.Shared.{
  String, ◌≡◌, ◌≢◌, Bool, true, false, Option, none, some, List, [], ◌∷◌, arith, ok, >>=-eq-ok,
}
use software_blueprint_hub.Constitution.Model.{
  AmendmentState, draft, impact_reviewed, ratified, published, propagating, verified, rejected,
  Amendment,
}
use software_blueprint_hub.Constitution.Transition.{
  TransitionAction, complete_impact_review, TransitionInput, non_blank, apply_action, transition,
  canonical_next,
}
use software_blueprint_hub.Constitution.Transition.Lifecycle.{
  ids_of, decision_of, transition-eq-ok, run,
}

-- The stages that have passed a given step; a rejected amendment has passed none for sure.
abbrev pub reviewed_stage : AmendmentState → Bool
reviewed_stage draft = false
reviewed_stage rejected = false
reviewed_stage _ = true

abbrev pub planned_stage : AmendmentState → Bool
planned_stage draft = false
planned_stage impact_reviewed = false
planned_stage rejected = false
planned_stage _ = true

abbrev pub decided_stage : AmendmentState → Bool
decided_stage ratified = true
decided_stage published = true
decided_stage propagating = true
decided_stage verified = true
decided_stage rejected = true
decided_stage _ = false

abbrev pub published_stage : AmendmentState → Bool
published_stage published = true
published_stage propagating = true
published_stage verified = true
published_stage _ = false

abbrev pub is_decision : Option String → Bool
is_decision none = false
is_decision (some d) = non_blank d

abbrev pub is_present {ℓ} : {A : Type ℓ} → Option A → Bool
is_present none = false
is_present (some a) = true

pub record IsBacked (c : Amendment) : Type 0 where
  pub impact_backed : reviewed_stage c.state ≡ true → c.impact_evidence_ids ≢ []
  pub migration_backed :
      planned_stage c.state ≡ true
      → c.proposal.migration_required ≡ true
      → c.migration_evidence_ids ≢ []
  pub decision_backed : decided_stage c.state ≡ true → is_decision c.ratification_decision_id ≡ true
  pub publication_backed :
      published_stage c.state ≡ true → is_present c.publication_evidence_id ≡ true
  pub verification_backed : c.state ≡ verified → c.verification_evidence_ids ≢ []
  pub no_production : c.production_release_authority ≡ false

apply_action-IsBacked :
    (a : TransitionAction) (ids : List String) (decision : String) (c c' : Amendment)
    → IsBacked c
    → apply_action a ids decision c ≡ ok c'
    → IsBacked c'
unfolding apply_action
apply_action-IsBacked complete_impact_review ids decision c c' b h = ground arith
apply_action-IsBacked _ ids decision c c' b h = ground arith

-- Every accepted transition of an amendment that has the evidence of its stage leads to one that
-- has the evidence of its new stage: impact evidence once reviewed, migration evidence once planned
-- if a migration is required, a decision once ratified or rejected, a publication evidence once
-- published, and verification evidence once verified; and it never grants production authority.
pub transition-IsBacked :
    (c c' : Amendment) (input : TransitionInput)
    → IsBacked c
    → transition c input ≡ ok c'
    → IsBacked c'
transition-IsBacked c c' input b h =
    apply_action-IsBacked input.action (ids_of input) (decision_of input) c c' b
      (transition-eq-ok c c' input h)

pub canonical_next-IsBacked :
    (current next : Amendment) (now : String)
    → IsBacked next
    → IsBacked (canonical_next current next now)
unfolding canonical_next
canonical_next-IsBacked current next now b = record {
  impact_backed = b.impact_backed;
  migration_backed = b.migration_backed;
  decision_backed = b.decision_backed;
  publication_backed = b.publication_backed;
  verification_backed = b.verification_backed;
  no_production = b.no_production;
}

-- So an amendment reached from a draft that grants no production authority has, at every stage, the
-- evidence of that stage, whatever the transitions were.
pub run-IsBacked :
    (c c' : Amendment) (is : List TransitionInput) → IsBacked c → run c is ≡ ok c' → IsBacked c'
unfolding run
run-IsBacked c c' [] b h = let e : c ≡ c' = ground arith in rw (← e) b
run-IsBacked c c' (i ∷ is) b h =
    let (d, first_step, later) = >>=-eq-ok (transition c i) (λ x. run x is) h in
    run-IsBacked d c' is (transition-IsBacked c d i b first_step) later

-- What no transition changes.
pub record IsSameAmendment (c c' : Amendment) : Type 0 where
  pub same_proposal : c'.proposal ≡ c.proposal
  pub same_author : c'.proposed_by_actor_id ≡ c.proposed_by_actor_id
  pub same_version : c'.record_version ≡ c.record_version
  pub same_created : c'.created_at ≡ c.created_at
  pub same_updated : c'.updated_at ≡ c.updated_at
  pub same_authority : c'.production_release_authority ≡ c.production_release_authority

apply_action-IsSameAmendment :
    (a : TransitionAction) (ids : List String) (decision : String) (c c' : Amendment)
    → apply_action a ids decision c ≡ ok c'
    → IsSameAmendment c c'
unfolding apply_action
apply_action-IsSameAmendment complete_impact_review ids decision c c' h = ground arith
apply_action-IsSameAmendment _ ids decision c c' h = ground arith

pub transition-IsSameAmendment :
    (c c' : Amendment) (input : TransitionInput) → transition c input ≡ ok c' → IsSameAmendment c c'
transition-IsSameAmendment c c' input h =
    apply_action-IsSameAmendment input.action (ids_of input) (decision_of input) c c'
      (transition-eq-ok c c' input h)
