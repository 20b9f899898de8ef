-- ===== src/Constitution/Service/Drafts.antt =====
-- `list`, `read` and `createDraft`.
use Prim.Native.String.{◌++◌ as ◌+++◌}
use software_blueprint_hub.Shared.{
  ℕ, String, Bool, true, false, not, Option, none, some, List, [], Result, ok, ◌>>=◌, ◌>>◌, check,
  is_empty,
}
use software_blueprint_hub.Authority.{
  AuthenticatedActor, principal_of, require_constitutional_authority,
}
use software_blueprint_hub.Constitution.Model.{
  draft, Amendment, Proposal, EvidenceRecord, RatificationDecision,
}
use software_blueprint_hub.Constitution.Checks.{
  non_empty, semver, semver_greater, check_risk, unique_strings, require_iso_timestamp,
}
use software_blueprint_hub.Constitution.Attestation.{active_policy_version}
use software_blueprint_hub.Constitution.Repository.{
  ConstitutionTables, ConstitutionStore, find_amendment, list_evidence, decision_by_id,
  create_amendment,
}

pub record DraftInput : Type 0 where
  pub target_policy_version : String
  pub title : String
  pub problem : String
  pub rationale : String
  pub affected_pillar_ids : List String
  pub affected_requirement_ids : List String
  pub compatibility_risk : String
  pub migration_required : Bool

-- `ConstitutionAmendmentWorkspace`
pub record Workspace : Type 0 where
  pub amendment : Amendment
  pub evidence : List EvidenceRecord
  pub ratification_decision : Option RatificationDecision

-- The record of a new draft.
abbrev pub draft_record : Proposal → String → String → Amendment
draft_record proposal author timestamp = record {
  proposal = proposal;
  state = draft;
  impact_evidence_ids = [];
  migration_evidence_ids = [];
  ratification_decision_id = none;
  publication_evidence_id = none;
  propagation_evidence_ids = [];
  verification_evidence_ids = [];
  production_release_authority = false;
  proposed_by_actor_id = author;
  record_version = 1;
  created_at = timestamp;
  updated_at = timestamp;
}

unfoldable pub draft_proposal : String → DraftInput → String → Result Proposal
draft_proposal uuid input timestamp = do
  target ← semver input.target_policy_version "targetPolicyVersion"
  base ← semver active_policy_version "basePolicyVersion"
  check (semver_greater target base)
      "targetPolicyVersion must be greater than the active Constitution version"
  title ← non_empty input.title "title"
  problem ← non_empty input.problem "problem"
  rationale ← non_empty input.rationale "rationale"
  risk ← check_risk input.compatibility_risk
  ok (record {
    id = "amendment:" +++ uuid;
    base_policy_version = base;
    target_policy_version = target;
    title = title;
    problem = problem;
    rationale = rationale;
    affected_pillar_ids = unique_strings input.affected_pillar_ids;
    affected_requirement_ids = unique_strings input.affected_requirement_ids;
    compatibility_risk = risk;
    migration_required = input.migration_required;
    proposed_at = timestamp;
  })

module _ (t : ConstitutionTables) (view : ℕ → ConstitutionStore t) where
  abbrev pub authorized : Option AuthenticatedActor → ℕ → Result (Unit {0})
  authorized actor n = require_constitutional_authority t.authority actor (view n).authority

  unfoldable pub list_amendments : Option AuthenticatedActor → Result (List Amendment)
  list_amendments actor = do
    authorized actor 0
    ok (t.amendment.find_many (λ a. true) (view 1).amendments)

  abbrev pub workspace_of : Option Amendment → Option Workspace
  workspace_of none = none
  workspace_of (some a) = some (record {
    amendment = a;
    evidence = list_evidence t a.proposal.id (view 2);
    ratification_decision = decision_by_id t a.ratification_decision_id (view 3);
  })

  unfoldable pub read : Option AuthenticatedActor → String → Result (Option Workspace)
  read actor id = do
    authorized actor 0
    trimmed ← non_empty id "amendmentId"
    ok (workspace_of (find_amendment t trimmed (view 1)))

  unfoldable pub create_draft :
      String
      → Option AuthenticatedActor
      → DraftInput
      → String
      → Result (Amendment × ConstitutionStore t)
  create_draft uuid actor input now = do
    authorized actor 0
    timestamp ← require_iso_timestamp now
    proposal ← draft_proposal uuid input timestamp
    check (not (is_empty proposal.affected_pillar_ids))
        "At least one affected Constitutional pillar is required"
    let a = draft_record proposal (principal_of actor) timestamp
    s ← create_amendment t a (view 1)
    ok (a, s)
