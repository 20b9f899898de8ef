-- ===== src/Examples/Lifecycle.antt =====
-- The theorems on transitions at concrete inputs.
use software_blueprint_hub.Shared.{
  ◌≤◌, String, ◌≡◌, refl, ◌↔◌, ◌⊎◌, true, Option, none, some, List, [], ◌∷◌, arith, ok, length, In,
  map,
}
use software_blueprint_hub.Shared.Sorting.{IsSorted}
use software_blueprint_hub.Shared.Text.{text_le, trim}
use software_blueprint_hub.Constitution.Model.{migration_ready, verified, rejected, Amendment}
use software_blueprint_hub.Constitution.Transition.{
  TransitionAction, TransitionInput, clean_ids, non_blank, or_empty, transition,
}
use software_blueprint_hub.Constitution.Transition.Lifecycle.{
  Follows, plans, IsSupported, ids_of, decision_of, transition-Follows, transition_complete, run,
  run_bounded,
}
use software_blueprint_hub.Constitution.Transition.Evidence.{IsBacked, run-IsBacked}
use software_blueprint_hub.Constitution.Transition.Ids.{Distinct, clean_ids_lem}
use software_blueprint_hub.Examples.Amendments.{drafted, reviewed, planned}

abbrev given_ids : Option (List String)
given_ids = some (" e2" ∷ "" ∷ "e1" ∷ "e2 " ∷ [])

abbrev planning : TransitionInput
planning = record {
  action = TransitionAction.complete_migration_plan;
  evidence_ids = some ("e2" ∷ []);
  human_ratification_decision_id = none;
}

abbrev reviewing : TransitionInput
reviewing = record {
  action = TransitionAction.complete_impact_review;
  evidence_ids = some ("e1" ∷ []);
  human_ratification_decision_id = none;
}

-- The reviewed amendment after its planning; `transition` keeps the version.
abbrev planned_next : Amendment
planned_next = record planned { record_version = 2 }

clean_ids_test : clean_ids given_ids ≡ "e1" ∷ "e2" ∷ []
unfolding clean_ids
clean_ids_test = refl

clean_ids_lem_example :
    IsSorted text_le (clean_ids given_ids)
    × Distinct (clean_ids given_ids)
    × ((id : String)
        → In id (clean_ids given_ids)
          ↔ (In id (map trim (or_empty given_ids)) × (non_blank id ≡ true)))
clean_ids_lem_example = clean_ids_lem given_ids

transition-Follows_example :
    Follows planning.action reviewed.state planned_next.state
    × IsSupported planning.action reviewed (ids_of planning) (decision_of planning)
unfolding transition software_blueprint_hub.Constitution.Transition.apply_action clean_ids
transition-Follows_example = transition-Follows reviewed planned_next planning refl

transition_complete_example :
    (c' : Amendment) × (transition reviewed planning ≡ ok c') × (c'.state ≡ migration_ready)
unfolding clean_ids
transition_complete_example =
    transition_complete reviewed planning migration_ready plans (λ h. ground arith)

run_bounded_example :
    (length (reviewing ∷ planning ∷ []) ≤ 7)
    × ((drafted.state ≡ verified) ⊎ (drafted.state ≡ rejected) → (reviewing ∷ planning ∷ []) ≡ [])
unfolding run transition software_blueprint_hub.Constitution.Transition.apply_action clean_ids
run_bounded_example =
    run_bounded drafted (record planned { record_version = 1 }) (reviewing ∷ planning ∷ []) refl

drafted-IsBacked : IsBacked drafted
drafted-IsBacked = record {
  impact_backed = λ h. ground arith;
  migration_backed = λ h. ground arith;
  decision_backed = λ h. ground arith;
  publication_backed = λ h. ground arith;
  verification_backed = λ h. ground arith;
  no_production = refl;
}

run-IsBacked_example : IsBacked (record planned { record_version = 1 })
unfolding run transition software_blueprint_hub.Constitution.Transition.apply_action clean_ids
run-IsBacked_example =
    run-IsBacked drafted (record planned { record_version = 1 }) (reviewing ∷ planning ∷ [])
      drafted-IsBacked refl
