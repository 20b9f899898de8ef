-- ===== src/Constitution/Service/Requirements.antt =====
-- What the handlers require before they act: `requireExactAmendment`, `requireReviewedCandidate` and
-- `requireValidRatification`.
use Prim.Native.String.{◌++◌ as ◌+++◌}
use software_blueprint_hub.Shared.{
  ℕ, ◌+◌, String, Bool, true, false, not, ◌&&◌, Option, none, some, ◌==◌, if◌then◌else◌, Result, ok,
  err, ◌>>=◌, ◌>>◌, check, found, type_error, nat_eq, find, includes,
}
use software_blueprint_hub.Shared.Text.{is_git_sha, is_sha256}
use software_blueprint_hub.Shared.Decimal.{decimal}
use software_blueprint_hub.Authority.{can_exercise_constitutional_authority}
use software_blueprint_hub.Constitution.Model.{
  ratified, state_eq, EvidenceKind, impact, migration, Amendment, EvidenceRecord,
  RatificationDecision,
}
use software_blueprint_hub.Constitution.Checks.{non_empty}
use software_blueprint_hub.Constitution.Repository.{
  ConstitutionTables, ConstitutionStore, find_amendment, list_evidence, decision_by_id, is_approve,
}

abbrev pub is_impact : EvidenceKind → Bool
is_impact impact = true
is_impact _ = false

abbrev pub is_migration : EvidenceKind → Bool
is_migration migration = true
is_migration _ = false

-- `!impact || !migration || !…`, negated.
abbrev pub seals :
    Option EvidenceRecord → Option EvidenceRecord → Result EvidenceRecord → Result EvidenceRecord
seals none m otherwise = otherwise
seals (some i) none otherwise = otherwise
seals (some i) (some m) otherwise =
    if is_git_sha m.revision && (i.revision == m.revision) && is_sha256 m.digest
    then ok m
    else otherwise

abbrev pub is_some_id : Option String → Bool
is_some_id none = false
is_some_id (some id) = not (id == "")

-- The conjunction that `requireValidRatification` denies, but for the reviewer's authority.
abbrev pub is_exact_approval : Amendment → RatificationDecision → Bool
is_exact_approval c d =
    is_approve d.decision
    && (d.amendment_id == c.proposal.id)
    && nat_eq (d.amendment_record_version + 1) c.record_version
    && (d.source == "authenticated-user-action")
    && d.human_ratification
    && not d.production_release_authority

module _ (t : ConstitutionTables) where
  unfoldable pub require_exact_amendment : String → ℕ → ConstitutionStore t → Result Amendment
  unfolding decimal
  require_exact_amendment id expected s = do
    trimmed ← non_empty id "amendmentId"
    current ← found (find_amendment t trimmed s) ("Unknown Constitution amendment " +++ id)
    check (nat_eq current.record_version expected) (
        "Constitution amendment is stale: expected recordVersion "
        +++ decimal expected
        +++ ", current is "
        +++ decimal current.record_version)
    ok current

  unfoldable pub require_reviewed_candidate :
      Amendment → ConstitutionStore t → Result EvidenceRecord
  require_reviewed_candidate c s =
      let evidence = list_evidence t c.proposal.id s in
      seals (find (λ e. includes c.impact_evidence_ids e.id && is_impact e.kind) evidence)
        (find (λ e. includes c.migration_evidence_ids e.id && is_migration e.kind) evidence)
        (err (
          type_error
            "Ratification requires reviewed candidate evidence at one exact Git revision; migration digest must seal the authority set"))

  unfoldable pub require_valid_ratification :
      Amendment → ConstitutionStore t → ConstitutionStore t → Result (Unit {0})
  unfolding state_eq
  require_valid_ratification c s s' = do
    check (state_eq c.state ratified && is_some_id c.ratification_decision_id)
        "Constitution publication requires an exact human-ratified amendment"
    d ←
        found (decision_by_id t c.ratification_decision_id s)
          "Constitution publication requires a valid, non-revoked human approval record"
    check
        (is_exact_approval c d
          && can_exercise_constitutional_authority t.authority
              (some (record { principal_id = d.reviewer_actor_id })) s'.authority)
        "Constitution publication requires a valid, non-revoked human approval record"
