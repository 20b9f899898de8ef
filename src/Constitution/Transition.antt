-- ===== src/Constitution/Transition.antt =====
-- `transitionConstitutionAmendment`: packages/application/src/constitution-authority.ts.
pub mod Ids
pub mod Lifecycle
pub mod Evidence
use Prim.Native.String.{◌++◌ as ◌+++◌}
use software_blueprint_hub.Shared.{
  dedup, ℕ, ◌+◌, String, Bool, true, false, not, ◌&&◌, ◌||◌, Option, none, some, List, [], ◌∷◌, map,
  ◌==◌, if◌then◌else◌, Result, ok, err, ◌>>=◌, ◌>>◌, guard, check, filter, is_empty, includes,
}
use software_blueprint_hub.Shared.Text.{trim, is_blank, sort_texts}
use software_blueprint_hub.Constitution.Model.{
  AmendmentState, draft, impact_reviewed, migration_ready, ratification_ready, ratified, published,
  propagating, verified, rejected, state_eq, Amendment,
}

pub data TransitionAction : Type 0 where
  complete_impact_review complete_migration_plan open_ratification ratify : TransitionAction
  reject publish begin_propagation verify : TransitionAction

pub record TransitionInput : Type 0 where
  pub action : TransitionAction
  pub evidence_ids : Option (List String)
  pub human_ratification_decision_id : Option String

abbrev pub non_blank : String → Bool
non_blank s = not (is_blank s)

abbrev pub or_empty : Option (List String) → List String
or_empty none = []
or_empty (some xs) = xs

-- `cleanIds`
unfoldable pub clean_ids : Option (List String) → List String
unfolding dedup sort_texts trim
clean_ids values = sort_texts (dedup (filter non_blank (map trim (or_empty values))))

abbrev pub action_text : TransitionAction → String
action_text complete_impact_review = "complete-impact-review"
action_text complete_migration_plan = "complete-migration-plan"
action_text open_ratification = "open-ratification"
action_text ratify = "ratify"
action_text reject = "reject"
action_text publish = "publish"
action_text begin_propagation = "begin-propagation"
action_text verify = "verify"

abbrev pub is_reject : TransitionAction → Bool
is_reject reject = true
is_reject _ = false

abbrev pub require_evidence : TransitionAction → List String → Result (Unit {0})
require_evidence action ids =
    check (not (is_empty ids)) (action_text action +++ " requires canonical evidence")

-- `input.humanRatificationDecisionId?.trim() ?? ""`
abbrev pub decision_id : Option String → String
decision_id none = ""
decision_id (some id) = trim id

-- `evidenceIds[0]!`
abbrev pub first : List String → Option String
first [] = none
first (x ∷ xs) = some x

abbrev pub may_reject : AmendmentState → Bool
may_reject s =
    state_eq s draft
    || state_eq s impact_reviewed
    || state_eq s migration_ready
    || state_eq s ratification_ready

-- The `switch` on the action; `ids` are the cleaned evidence ids, `decision` the trimmed decision id.
unfoldable pub apply_action : TransitionAction → List String → String → Amendment → Result Amendment
unfolding state_eq
apply_action complete_impact_review ids decision c = do
  check (state_eq c.state draft) "Impact review may only complete from draft"
  require_evidence complete_impact_review ids
  ok (record c { state = impact_reviewed; impact_evidence_ids = ids })
apply_action complete_migration_plan ids decision c = do
  check (state_eq c.state impact_reviewed) "Migration planning requires completed impact review"
  if c.proposal.migration_required then require_evidence complete_migration_plan ids else ok tt
  ok (record c { state = migration_ready; migration_evidence_ids = ids })
apply_action open_ratification ids decision c = do
  check (state_eq c.state migration_ready) "Ratification may only open after migration readiness"
  ok (record c { state = ratification_ready })
apply_action ratify ids decision c = do
  check (state_eq c.state ratification_ready) "Ratification requires ratification-ready state"
  check (non_blank decision) "Ratification requires an authenticated human constitutional decision"
  ok (record c { state = ratified; ratification_decision_id = some decision })
apply_action reject ids decision c = do
  check (may_reject c.state) "This amendment state cannot be rejected"
  check (non_blank decision) "Rejection requires an authenticated human constitutional decision"
  ok (record c { state = rejected; ratification_decision_id = some decision })
apply_action publish ids decision c = do
  check (state_eq c.state ratified) "Publication requires a ratified amendment"
  require_evidence publish ids
  ok (record c { state = published; publication_evidence_id = first ids })
apply_action begin_propagation ids decision c = do
  check (state_eq c.state published) "Propagation requires a published Constitution"
  ok (record c { state = propagating; propagation_evidence_ids = ids })
apply_action verify ids decision c = do
  check (state_eq c.state propagating) "Verification requires active propagation"
  require_evidence verify ids
  ok (record c { state = verified; verification_evidence_ids = ids })

unfoldable pub transition : Amendment → TransitionInput → Result Amendment
unfolding state_eq
transition c input = do
  check (not (state_eq c.state published && is_reject input.action))
      "A published Constitution cannot be retroactively rejected"
  check (not (state_eq c.state verified))
      "A verified amendment is immutable; propose a new amendment"
  apply_action input.action (clean_ids input.evidence_ids)
      (decision_id input.human_ratification_decision_id) c

-- `canonicalNext`
unfoldable pub canonical_next : Amendment → Amendment → String → Amendment
canonical_next current next now = record next {
  proposed_by_actor_id = current.proposed_by_actor_id;
  record_version = current.record_version + 1;
  created_at = current.created_at;
  updated_at = now;
}
