-- ===== src/Examples/Handlers.antt =====
-- The theorems on the handlers before publication at concrete inputs.
use software_blueprint_hub.Shared.{[], ◌∷◌, ◌≡◌, ◌⊎◌, refl, true, some}
use software_blueprint_hub.Authority.{
  can_exercise_constitutional_authority, require_constitutional_authority, is_system_owner,
}
use software_blueprint_hub.Constitution.Model.{
  approve, reject, Amendment, EvidenceRecord, RatificationDecision,
}
use software_blueprint_hub.Constitution.Transition.{
  TransitionAction, transition, apply_action, canonical_next, clean_ids,
}
use software_blueprint_hub.Constitution.Repository.{
  ConstitutionStore, append_evidence_and_update, find_amendment, compare_and_set, update_amendment,
  list_evidence, append_decision_and_update,
}
use software_blueprint_hub.Constitution.Service.Requirements.{
  require_reviewed_candidate, require_exact_amendment,
}
use software_blueprint_hub.Constitution.Service.Stages.{
  StageKind, StageEvidenceInput, RatificationSubmission, stage_expects, record_stage_evidence,
  open_ratification, ratify, stage_evidence,
}
use software_blueprint_hub.Constitution.Service.Reviewed.{IsReviewed}
use software_blueprint_hub.Constitution.Service.Committed.{IsCommit}
use software_blueprint_hub.Constitution.Service.Decided.{
  IsHumanDecision, record_stage_evidence_sound, open_ratification_sound, ratify_sound,
}
use software_blueprint_hub.Constitution.Checks.{
  non_empty, sha256_digest, to_lower, require_iso_timestamp,
}
use software_blueprint_hub.Shared.Text.{trim, is_git_sha, is_sha256}
use software_blueprint_hub.Shared.Timestamp.{is_iso_timestamp}
use software_blueprint_hub.Constitution.Service.Drafts.{DraftInput, create_draft, draft_proposal}
use software_blueprint_hub.Constitution.Service.Drafted.{IsDrafted, create_draft_sound}
use software_blueprint_hub.Constitution.Checks.{semver, semver_greater, check_risk, unique_strings}
use software_blueprint_hub.Constitution.Repository.{create_amendment}
use software_blueprint_hub.Shared.Text.{is_semver, number}
use software_blueprint_hub.Examples.Tables.{tables, owned_store, returned, ada}
use software_blueprint_hub.Examples.Amendments.{
  drafted, planned, opened, revision, digest, now, store_of,
}

abbrev impact_input : StageEvidenceInput
impact_input = record {
  amendment_id = " amendment:1 ";
  expected_record_version = 1;
  kind = StageKind.impact_kind;
  source = "review";
  revision = revision;
  digest = digest;
  note = "note";
}

abbrev staged : Amendment × ConstitutionStore tables
unfolding record_stage_evidence
staged =
    returned (record_stage_evidence tables (λ n. store_of drafted) "u1" (some ada) impact_input now)
      (drafted, store_of drafted)

record_stage_evidence_sound_example :
    (can_exercise_constitutional_authority tables.authority (some ada) owned_store ≡ true)
    × ((c : Amendment) × (stage_expects c.state StageKind.impact_kind ≡ true)
        × IsCommit tables
            (store_of drafted)
            staged.1
            1
            TransitionAction.complete_impact_review
            c
            staged.0)
unfolding record_stage_evidence stage_evidence stage_expects append_evidence_and_update
    require_constitutional_authority can_exercise_constitutional_authority is_system_owner
    require_exact_amendment non_empty sha256_digest to_lower require_iso_timestamp find_amendment
    compare_and_set transition apply_action canonical_next clean_ids trim is_git_sha is_sha256
    is_iso_timestamp
record_stage_evidence_sound_example =
    record_stage_evidence_sound tables (λ n. store_of drafted) "u1" now (some ada) impact_input
      staged.0 staged.1 refl

abbrev ready : Amendment × ConstitutionStore tables
unfolding open_ratification
ready =
    returned (open_ratification tables (λ n. store_of planned) (some ada) "amendment:1" 3 now)
      (planned, store_of planned)

open_ratification_sound_example :
    (can_exercise_constitutional_authority tables.authority (some ada) owned_store ≡ true)
    × ((c : Amendment) × (seal : EvidenceRecord) × IsReviewed tables c (store_of planned) seal
        × IsCommit tables (store_of planned) ready.1 3 TransitionAction.open_ratification c ready.0)
unfolding open_ratification update_amendment require_constitutional_authority
    can_exercise_constitutional_authority is_system_owner require_exact_amendment
    require_reviewed_candidate non_empty require_iso_timestamp find_amendment list_evidence
    compare_and_set transition apply_action canonical_next clean_ids trim is_git_sha is_sha256
    is_iso_timestamp
open_ratification_sound_example =
    open_ratification_sound tables (λ n. store_of planned) "amendment:1" now 3 (some ada) ready.0
      ready.1 refl

abbrev approval_input : RatificationSubmission
approval_input = record {
  amendment_id = "amendment:1";
  expected_record_version = 4;
  decision = approve;
  note = "note";
}

abbrev decided : Amendment × ConstitutionStore tables
unfolding ratify
decided =
    returned (ratify tables (λ n. store_of opened) "u1" (some ada) approval_input now)
      (opened, store_of opened)

ratify_sound_example :
    (can_exercise_constitutional_authority tables.authority (some ada) owned_store ≡ true)
    × ((c : Amendment) × (d : RatificationDecision) × ((approve ≡ reject)
          ⊎ ((seal : EvidenceRecord) × IsReviewed tables c (store_of opened) seal))
        × IsCommit tables (store_of opened) decided.1 4 TransitionAction.ratify c decided.0
        × (tables.decision.find_unique d.id decided.1.decisions ≡ some d)
        × IsHumanDecision "ada" approve c d)
unfolding ratify append_decision_and_update require_constitutional_authority
    can_exercise_constitutional_authority is_system_owner require_exact_amendment
    require_reviewed_candidate non_empty require_iso_timestamp find_amendment list_evidence
    compare_and_set transition apply_action canonical_next clean_ids trim is_git_sha is_sha256
    is_iso_timestamp
ratify_sound_example =
    ratify_sound tables (λ n. store_of opened) "u1" now (some ada) approval_input decided.0
      decided.1 refl

abbrev draft_input : DraftInput
draft_input = record {
  target_policy_version = "1.4.0";
  title = "Title";
  problem = "Problem";
  rationale = "Rationale";
  affected_pillar_ids = "pillar" ∷ [];
  affected_requirement_ids = [];
  compatibility_risk = "low";
  migration_required = true;
}

-- A database without amendments.
abbrev vacant : ConstitutionStore tables
vacant = record (store_of drafted) { amendments = [] }

abbrev created_draft : Amendment × ConstitutionStore tables
unfolding create_draft
created_draft =
    returned (create_draft tables (λ n. vacant) "u1" (some ada) draft_input now) (drafted, vacant)

create_draft_sound_example :
    (can_exercise_constitutional_authority tables.authority (some ada) owned_store ≡ true)
    × IsDrafted tables (λ n. vacant) (some ada) created_draft.0 created_draft.1
unfolding create_draft draft_proposal semver is_semver semver_greater number check_risk
    unique_strings create_amendment require_constitutional_authority
    can_exercise_constitutional_authority is_system_owner non_empty trim require_iso_timestamp
    is_iso_timestamp clean_ids
create_draft_sound_example =
    create_draft_sound tables (λ n. vacant) "u1" now (some ada) draft_input created_draft.0
      created_draft.1 refl
