-- ===== src/Constitution/Transition/Lifecycle.antt =====
-- The life cycle that `transitionConstitutionAmendment` enforces, as a diagram of states.
use software_blueprint_hub.Shared.{
  ℕ, ◌+◌, ◌≤◌, ◌<◌, String, ◌≡◌, refl, ◌≢◌, ◌⊎◌, inl, inr, true, not, ◌&&◌, some, List, [], ◌∷◌,
  arith, Result, ok, ◌>>=◌, guard-eq-ok, >>=-eq-ok, ap, length,
}
use software_blueprint_hub.Constitution.Model.{
  AmendmentState, draft, impact_reviewed, migration_ready, ratification_ready, ratified, published,
  propagating, verified, rejected, state_eq, Amendment,
}
use software_blueprint_hub.Constitution.Transition.{
  TransitionAction, complete_impact_review, complete_migration_plan, open_ratification, ratify,
  reject, publish, begin_propagation, verify, TransitionInput, clean_ids, decision_id, non_blank,
  is_reject, apply_action, transition, may_reject, first,
}

-- The states from which a rejection is possible: before the ratification.
pub data IsOpen : AmendmentState → Type 0 where
  draft_open : IsOpen draft
  reviewed_open : IsOpen impact_reviewed
  migration_open : IsOpen migration_ready
  ratification_open : IsOpen ratification_ready

pub data Follows : TransitionAction → AmendmentState → AmendmentState → Type 0 where
  reviews : Follows complete_impact_review draft impact_reviewed
  plans : Follows complete_migration_plan impact_reviewed migration_ready
  opens : Follows open_ratification migration_ready ratification_ready
  ratifies : Follows ratify ratification_ready ratified
  rejects : {s : AmendmentState} → IsOpen s → Follows reject s rejected
  publishes : Follows publish ratified published
  propagates : Follows begin_propagation published propagating
  verifies : Follows verify propagating verified

-- What an action must bring along.
abbrev pub IsSupported : TransitionAction → Amendment → List String → String → Type 0
IsSupported complete_impact_review c ids decision = ids ≢ []
IsSupported complete_migration_plan c ids decision = c.proposal.migration_required ≡ true → ids ≢ []
IsSupported ratify c ids decision = non_blank decision ≡ true
IsSupported reject c ids decision = non_blank decision ≡ true
IsSupported publish c ids decision = ids ≢ []
IsSupported verify c ids decision = ids ≢ []
IsSupported _ c ids decision = Unit

ruleset diagram = (
  reviews, plans, opens, ratifies, publishes, propagates, verifies, draft_open, reviewed_open,
  migration_open, ratification_open,
)

apply_action_sound :
    (a : TransitionAction) (ids : List String) (decision : String) (c c' : Amendment)
    → apply_action a ids decision c ≡ ok c'
    → Follows a c.state c'.state × IsSupported a c ids decision
unfolding apply_action
apply_action_sound complete_impact_review ids decision c c' h =
    (grind (arith, reviews), ground arith)
apply_action_sound complete_migration_plan ids decision c c' h =
    (grind (arith, plans), ground arith)
apply_action_sound open_ratification ids decision c c' h = (grind (arith, opens), tt)
apply_action_sound ratify ids decision c c' h = (grind (arith, ratifies), ground arith)
apply_action_sound reject ids decision c c' h = (grind (arith, rejects, diagram), ground arith)
apply_action_sound publish ids decision c c' h = (grind (arith, publishes), ground arith)
apply_action_sound begin_propagation ids decision c c' h = (grind (arith, propagates), tt)
apply_action_sound verify ids decision c c' h = (grind (arith, verifies), ground arith)

abbrev pub ids_of : TransitionInput → List String
ids_of input = clean_ids input.evidence_ids

abbrev pub decision_of : TransitionInput → String
decision_of input = decision_id input.human_ratification_decision_id

-- Past its two early tests a transition is its action.
pub transition-eq-ok :
    (c c' : Amendment) (input : TransitionInput)
    → transition c input ≡ ok c'
    → apply_action input.action (ids_of input) (decision_of input) c ≡ ok c'
unfolding transition
transition-eq-ok c c' input h =
    let (live, rest) =
      guard-eq-ok (not (state_eq c.state published && is_reject input.action)) _ _ h in
    (guard-eq-ok (not (state_eq c.state verified)) _ _ rest).1

-- A transition that is accepted follows the diagram of the life cycle, and brings what its action
-- must bring: evidence for a review, a publication, a verification and a required migration, a
-- decision for a ratification and a rejection.
pub transition-Follows :
    (c c' : Amendment) (input : TransitionInput)
    → transition c input ≡ ok c'
    → Follows input.action c.state c'.state
      × IsSupported input.action c (ids_of input) (decision_of input)
transition-Follows c c' input h =
    apply_action_sound input.action (ids_of input) (decision_of input) c c'
      (transition-eq-ok c c' input h)

abbrev Accepts : Result Amendment → AmendmentState → Type 0
Accepts r s = (c' : Amendment) × (r ≡ ok c') × (c'.state ≡ s)

may_reject_complete : {s : AmendmentState} → IsOpen s → may_reject s ≡ true
unfolding state_eq
may_reject_complete draft_open = refl
may_reject_complete reviewed_open = refl
may_reject_complete migration_open = refl
may_reject_complete ratification_open = refl

apply_action_complete :
    {a : TransitionAction} {s s' : AmendmentState} (ids : List String) (decision : String)
    (c : Amendment)
    → Follows a s s'
    → c.state ≡ s
    → IsSupported a c ids decision
    → Accepts (apply_action a ids decision c) s'
unfolding apply_action
apply_action_complete ids decision c reviews e h =
    (record c { state = impact_reviewed; impact_evidence_ids = ids }, ground arith, refl)
apply_action_complete ids decision c plans e h =
    (record c { state = migration_ready; migration_evidence_ids = ids }, ground arith, refl)
apply_action_complete ids decision c opens e h =
    (record c { state = ratification_ready }, ground arith, refl)
apply_action_complete ids decision c ratifies e h =
    (record c { state = ratified; ratification_decision_id = some decision }, ground arith, refl)
apply_action_complete ids decision c (rejects o) e h =
    let open_state : may_reject c.state ≡ true = rw e (may_reject_complete o) in
    (
      record c { state = rejected; ratification_decision_id = some decision },
      rw (open_state, h),
      refl,
    )
apply_action_complete ids decision c publishes e h =
    (record c { state = published; publication_evidence_id = first ids }, ground arith, refl)
apply_action_complete ids decision c propagates e h =
    (record c { state = propagating; propagation_evidence_ids = ids }, ground arith, refl)
apply_action_complete ids decision c verifies e h =
    (record c { state = verified; verification_evidence_ids = ids }, ground arith, refl)

Follows-live :
    {a : TransitionAction} {s s' : AmendmentState}
    → Follows a s s'
    → (not (state_eq s published && is_reject a) ≡ true) × (not (state_eq s verified) ≡ true)
unfolding state_eq
Follows-live reviews = (refl, refl)
Follows-live plans = (refl, refl)
Follows-live opens = (refl, refl)
Follows-live ratifies = (refl, refl)
Follows-live (rejects draft_open) = (refl, refl)
Follows-live (rejects reviewed_open) = (refl, refl)
Follows-live (rejects migration_open) = (refl, refl)
Follows-live (rejects ratification_open) = (refl, refl)
Follows-live publishes = (refl, refl)
Follows-live propagates = (refl, refl)
Follows-live verifies = (refl, refl)

-- Conversely, a transition along an edge of the diagram that brings what its action must bring is
-- accepted, and leads to the end of that edge.
pub transition_complete :
    (c : Amendment) (input : TransitionInput) (s' : AmendmentState)
    → Follows input.action c.state s'
    → IsSupported input.action c (ids_of input) (decision_of input)
    → (c' : Amendment) × (transition c input ≡ ok c') × (c'.state ≡ s')
unfolding transition
transition_complete c input s' f h =
    let (open_state, live) = Follows-live f in
    rw (open_state, live) (apply_action_complete (ids_of input) (decision_of input) c f refl h)

-- How far an amendment has come.
abbrev pub progress : AmendmentState → ℕ
progress draft = 0
progress impact_reviewed = 1
progress migration_ready = 2
progress ratification_ready = 3
progress ratified = 4
progress published = 5
progress propagating = 6
progress verified = 7
progress rejected = 7

Follows-progress :
    {a : TransitionAction} {s s' : AmendmentState} → Follows a s s' → progress s < progress s'
Follows-progress reviews = omega arith
Follows-progress plans = omega arith
Follows-progress opens = omega arith
Follows-progress ratifies = omega arith
Follows-progress (rejects draft_open) = omega arith
Follows-progress (rejects reviewed_open) = omega arith
Follows-progress (rejects migration_open) = omega arith
Follows-progress (rejects ratification_open) = omega arith
Follows-progress publishes = omega arith
Follows-progress propagates = omega arith
Follows-progress verifies = omega arith

-- A history: transitions, each applied to the result of the one before.
unfoldable pub run : Amendment → List TransitionInput → Result Amendment
run c [] = ok c
run c (i ∷ is) = do c' ← transition c i; run c' is

run-progress :
    (c c' : Amendment) (is : List TransitionInput)
    → run c is ≡ ok c'
    → progress c.state + length is ≤ progress c'.state
unfolding run
run-progress c c' [] h = ground arith
run-progress c c' (i ∷ is) h =
    let (d, first_step, later) = >>=-eq-ok (transition c i) (λ x. run x is) h in
    omega
      (arith, Follows-progress (transition-Follows c d i first_step).0, run-progress d c' is later)

progress_bound : (s : AmendmentState) → progress s ≤ 7
progress_bound draft = omega arith
progress_bound _ = omega arith

-- The life cycle ends: no amendment goes through more than seven accepted transitions, and one that
-- is verified or rejected goes through none.
pub run_bounded :
    (c c' : Amendment) (is : List TransitionInput)
    → run c is ≡ ok c'
    → (length is ≤ 7) × ((c.state ≡ verified) ⊎ (c.state ≡ rejected) → is ≡ [])
run_bounded c c' is h =
    let climbs = run-progress c c' is h in
    let top = progress_bound c'.state in
    (
      omega arith,
      λ done. ended is (elim done [
        | inl e ↦ let full : progress c.state ≡ 7 = ap progress e in omega arith
        | inr e ↦ let full : progress c.state ≡ 7 = ap progress e in omega arith
      ]),
    )
  where
    ended : (l : List TransitionInput) → length l ≤ 0 → l ≡ []
    ended [] k = refl
    ended (i ∷ l) k = absurd (omega arith)
