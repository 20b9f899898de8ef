-- ===== src/Examples/Readiness.antt =====
-- The theorems on the readiness of a project at a concrete input.
use software_blueprint_hub.Shared.{
  ◌+◌, ◌≤◌, ◌≡◌, ◌≢◌, ◌⊎◌, refl, ◌↔◌, true, false, some, [], ◌∷◌, All, is_empty,
}
use software_blueprint_hub.Shared.Text.{text_le}
use software_blueprint_hub.WorkQuality.{GateStatus}
use software_blueprint_hub.ProjectReadiness.{
  gate_ready, ProjectReadinessInput, ProjectReadinessSnapshot,
}
use software_blueprint_hub.ProjectReadiness.Summary.{summarize_project_readiness, snapshot}
use software_blueprint_hub.ProjectReadiness.Ready.{IsPassed, IsFinished}
use software_blueprint_hub.ProjectReadiness.GateReady.{IsOtherPassed, summarize_gate_ready_iff}
use software_blueprint_hub.ProjectReadiness.Counts.{summary_counts}
use software_blueprint_hub.ProjectReadiness.Service.{
  read_readiness, IsStoredPass, read_readiness_sound,
}
use software_blueprint_hub.Authority.{can, project_read}
use software_blueprint_hub.WorkQuality.{WorkPackage}
use software_blueprint_hub.WorkQuality.Store.{WorkQualityStore}
use software_blueprint_hub.Examples.Tables.{returned, ada, owned_store}
use software_blueprint_hub.Examples.Packages.{base, gate, item, tables}

abbrev ready_input : ProjectReadinessInput
ready_input = record {
  project_id = "hub";
  required_gate_ids = "gate" ∷ [];
  work_packages = base ∷ [];
  quality_gates = gate GateStatus.passed 2 ∷ [];
  evidence_by_gate = λ id. some (item ∷ []);
}

abbrev summary : ProjectReadinessSnapshot
summary = snapshot text_le ready_input

ready_state : summary.state ≡ gate_ready
unfolding snapshot
ready_state = refl

summarize_gate_ready_iff_example : (summary.state ≡ gate_ready) ↔ (
    (is_empty ready_input.required_gate_ids ≡ false)
    × All (IsPassed ready_input) ready_input.required_gate_ids
    × All (IsOtherPassed text_le ready_input) ready_input.quality_gates
    × All (IsFinished ready_input) ready_input.work_packages)
unfolding summarize_project_readiness
summarize_gate_ready_iff_example = summarize_gate_ready_iff text_le ready_input summary refl

summary_counts_example :
    (summary.gate_summary.tracked_required + summary.gate_summary.missing_required
      ≡ summary.gate_summary.required)
    × (summary.gate_summary.pass_required ≤ summary.gate_summary.tracked_required)
    × (summary.gate_summary.active_tracked
        ≡ summary.gate_summary.missing_required + summary.gate_summary.failed_tracked
          + summary.gate_summary.candidate_tracked + summary.gate_summary.not_ready_tracked)
    × (summary.work_summary.completed + summary.work_summary.active ≡ summary.work_summary.total)
    × (summary.work_summary.blocked ≤ summary.work_summary.total)
unfolding summarize_project_readiness
summary_counts_example = summary_counts text_le ready_input summary refl

-- One completed package, and a gate that passed.
abbrev finished_store : WorkQualityStore tables
finished_store = record {
  authority = owned_store;
  packages = base ∷ [];
  gates = gate GateStatus.passed 2 ∷ [];
  evidence = item ∷ [];
}

abbrev read_summary : ProjectReadinessSnapshot
unfolding read_readiness
read_summary =
    returned (read_readiness text_le tables (λ n. finished_store) (some ada) "hub" ("gate" ∷ []))
      summary

read_readiness_sound_example :
    (can tables.authority (some ada) "hub" project_read owned_store ≡ true)
    × ((read_summary.state ≢ gate_ready)
        ⊎ All (IsStoredPass text_le tables (λ n. finished_store) "hub") ("gate" ∷ []))
unfolding read_readiness can software_blueprint_hub.Authority.is_system_owner
    software_blueprint_hub.WorkQuality.Store.list_work_packages_by_project
    software_blueprint_hub.WorkQuality.Store.list_quality_gate_evidence_by_project
    summarize_project_readiness
read_readiness_sound_example =
    read_readiness_sound text_le tables (λ n. finished_store) (some ada) "hub" ("gate" ∷ [])
      read_summary refl
