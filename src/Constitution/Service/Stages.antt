-- ===== src/Constitution/Service/Stages.antt =====
-- `recordStageEvidence`, `openRatification` and `ratify`.
use Prim.Native.String.{◌++◌ as ◌+++◌}
use software_blueprint_hub.Shared.{
  ℕ, String, Bool, true, false, Option, none, some, [], ◌∷◌, Result, ok, ◌>>=◌, ◌>>◌, check,
}
use software_blueprint_hub.Authority.{AuthenticatedActor, principal_of}
use software_blueprint_hub.Constitution.Model.{
  AmendmentState, draft, impact_reviewed, ratification_ready, state_eq, state_text, EvidenceKind,
  impact, migration, DecisionKind, approve, reject, Amendment, EvidenceRecord, RatificationDecision,
}
use software_blueprint_hub.Constitution.Checks.{non_empty, sha256_digest, require_iso_timestamp}
use software_blueprint_hub.Constitution.Transition.{
  TransitionAction, TransitionInput, transition, canonical_next,
}
use software_blueprint_hub.Constitution.Repository.{
  ConstitutionTables, ConstitutionStore, append_evidence_and_update, update_amendment,
  append_decision_and_update,
}
use software_blueprint_hub.Constitution.Service.Requirements.{
  require_exact_amendment, require_reviewed_candidate,
}
use software_blueprint_hub.Constitution.Service.Drafts.{authorized}

-- The kinds that a caller may record: `Extract<ConstitutionEvidenceKind, "impact" | "migration">`.
pub data StageKind : Type 0 where
  impact_kind migration_kind : StageKind

abbrev pub evidence_kind : StageKind → EvidenceKind
evidence_kind impact_kind = impact
evidence_kind migration_kind = migration

abbrev pub kind_text : StageKind → String
kind_text impact_kind = "impact"
kind_text migration_kind = "migration"

-- `input.kind === expectedKind`, for the kind that the state expects.
unfoldable pub stage_expects : AmendmentState → StageKind → Bool
stage_expects draft impact_kind = true
stage_expects impact_reviewed migration_kind = true
stage_expects _ _ = false

abbrev pub stage_action : StageKind → TransitionAction
stage_action impact_kind = TransitionAction.complete_impact_review
stage_action migration_kind = TransitionAction.complete_migration_plan

abbrev pub stage_audit : StageKind → String
stage_audit impact_kind = "IMPACT_REVIEW_COMPLETED"
stage_audit migration_kind = "MIGRATION_PLAN_COMPLETED"

pub record StageEvidenceInput : Type 0 where
  pub amendment_id : String
  pub expected_record_version : ℕ
  pub kind : StageKind
  pub source : String
  pub revision : String
  pub digest : String
  pub note : String

pub record RatificationSubmission : Type 0 where
  pub amendment_id : String
  pub expected_record_version : ℕ
  pub decision : DecisionKind
  pub note : String

abbrev pub with_evidence : TransitionAction → String → TransitionInput
with_evidence action id = record {
  action = action;
  evidence_ids = some (id ∷ []);
  human_ratification_decision_id = none;
}

abbrev pub decision_action : DecisionKind → TransitionAction
decision_action approve = TransitionAction.ratify
decision_action reject = TransitionAction.reject

unfoldable pub stage_evidence :
    String → String → StageEvidenceInput → Amendment → String → Result EvidenceRecord
stage_evidence uuid author input c timestamp = do
  source ← non_empty input.source "source"
  revision ← non_empty input.revision "revision"
  digest ← sha256_digest input.digest
  note ← non_empty input.note "note"
  ok (record {
    id = "constitution-evidence:" +++ uuid;
    amendment_id = c.proposal.id;
    kind = evidence_kind input.kind;
    source = source;
    revision = revision;
    digest = digest;
    note = note;
    recorded_by_actor_id = author;
    created_at = timestamp;
  })

abbrev pub decision_record :
    String → String → RatificationSubmission → Amendment → String → String → RatificationDecision
decision_record id author input c timestamp note = record {
  id = id;
  amendment_id = c.proposal.id;
  amendment_record_version = c.record_version;
  reviewer_actor_id = author;
  source = "authenticated-user-action";
  decision = input.decision;
  note = note;
  decided_at = timestamp;
  human_ratification = true;
  production_release_authority = false;
}

module _ (t : ConstitutionTables) (view : ℕ → ConstitutionStore t) where
  unfoldable pub record_stage_evidence :
      String
      → Option AuthenticatedActor
      → StageEvidenceInput
      → String
      → Result (Amendment × ConstitutionStore t)
  record_stage_evidence uuid actor input now = do
    authorized t view actor 0
    c ← require_exact_amendment t input.amendment_id input.expected_record_version (view 1)
    timestamp ← require_iso_timestamp now
    check (stage_expects c.state input.kind) (
        "Constitution stage "
        +++ state_text c.state
        +++ " does not accept "
        +++ kind_text input.kind
        +++ " evidence")
    e ← stage_evidence uuid (principal_of actor) input c timestamp
    moved ← transition c (with_evidence (stage_action input.kind) e.id)
    let next = canonical_next c moved timestamp
    s ←
        append_evidence_and_update t e next input.expected_record_version (principal_of actor)
          (stage_audit input.kind) (view 2)
    ok (next, s)

  unfoldable pub open_ratification :
      Option AuthenticatedActor → String → ℕ → String → Result (Amendment × ConstitutionStore t)
  open_ratification actor id expected now = do
    authorized t view actor 0
    c ← require_exact_amendment t id expected (view 1)
    candidate ← require_reviewed_candidate t c (view 2)
    moved ← transition c (record {
      action = TransitionAction.open_ratification;
      evidence_ids = none;
      human_ratification_decision_id = none;
    })
    timestamp ← require_iso_timestamp now
    let next = canonical_next c moved timestamp
    s ← update_amendment t next expected (principal_of actor) "RATIFICATION_OPENED" (view 3)
    ok (next, s)

  -- `if (input.decision === "approve") await this.requireReviewedCandidate(current)`
  abbrev pub reviewed_if_approved : DecisionKind → Amendment → Result (Unit {0})
  reviewed_if_approved approve c = require_reviewed_candidate t c (view 2) >>= λ candidate. ok tt
  reviewed_if_approved reject c = ok tt

  unfoldable pub ratify :
      String
      → Option AuthenticatedActor
      → RatificationSubmission
      → String
      → Result (Amendment × ConstitutionStore t)
  unfolding state_eq
  ratify uuid actor input now = do
    authorized t view actor 0
    c ← require_exact_amendment t input.amendment_id input.expected_record_version (view 1)
    check (state_eq c.state ratification_ready)
        "Constitution amendment must be ratification-ready before a human decision"
    reviewed_if_approved input.decision c
    timestamp ← require_iso_timestamp now
    let decision_id = "constitution-ratification:" +++ uuid
    note ← non_empty input.note "ratification note"
    moved ← transition c (record {
      action = decision_action input.decision;
      evidence_ids = none;
      human_ratification_decision_id = some decision_id;
    })
    let next = canonical_next c moved timestamp
    s ←
        append_decision_and_update t
          (decision_record decision_id (principal_of actor) input c timestamp note) next
          input.expected_record_version (view 3)
    ok (next, s)
