-- ===== src/ProjectReadiness/Summary.antt =====
-- `summarizeProjectReadiness` of packages/core/src/project-readiness.ts.
use Prim.Native.String.{◌++◌ as ◌+++◌}
use software_blueprint_hub.Shared.{
  ℕ, ◌+◌, ◌-◌, String, Bool, true, false, not, ◌&&◌, Option, none, some, List, [], ◌∷◌, ◌++◌, ◌==◌,
  map, if◌then◌else◌, filter, length, includes, dedup, nat_eq, ltb, Result, ok, ◌>>◌, check,
}
use software_blueprint_hub.Shared.Sorting.{sort}
use software_blueprint_hub.Shared.Text.{sort_texts}
use software_blueprint_hub.WorkQuality.{
  GateStatus, not_ready, candidate_gate, passed, failed_gate, is_completed, WorkPackage,
  QualityGate, GateEvidence,
}
use software_blueprint_hub.WorkQuality.Dependencies.{last_with}
use software_blueprint_hub.WorkQuality.Readiness.{
  is_ready, is_blocked, ReadinessState, WorkPackageBlocker, explain_work_package_readiness,
}
use software_blueprint_hub.ProjectReadiness.{
  ProjectState, project_blocked, attention, in_progress, gate_ready, EvidenceFreshness, no_evidence,
  incomplete, recorded_unverified, ReadinessGateItem, ReadinessWorkBlocker, define_gate,
  resolve_failed_gate, unblock_work, review_candidate, prepare_gate, continue_work, verify_release,
  NextAction, ProjectReadinessSnapshot, ProjectReadinessInput, gate_item,
}

abbrev pub or_none : Option (List GateEvidence) → List GateEvidence
or_none none = []
or_none (some evidence) = evidence

-- `gateById.get(id)`
abbrev pub gate_by_id : List QualityGate → String → Option QualityGate
gate_by_id gates id = last_with (λ g. g.id == id) gates

-- The loops that refuse records of another project.
abbrev pub check_packages : String → List WorkPackage → Result (Unit {0})
check_packages project [] = ok tt
check_packages project (p ∷ ps) =
    check (p.project_id == project) ("WorkPackage " +++ p.id +++ " belongs to another project")
    >> check_packages project ps

abbrev pub check_gates : String → List QualityGate → Result (Unit {0})
check_gates project [] = ok tt
check_gates project (g ∷ gs) =
    check (g.project_id == project) ("QualityGate " +++ g.id +++ " belongs to another project")
    >> check_gates project gs

abbrev pub status_missing : Option GateStatus → Bool
status_missing none = true
status_missing (some s) = false

-- `gate.status === "missing"`
abbrev pub is_missing : ReadinessGateItem → Bool
is_missing item = status_missing item.status

abbrev pub same_status : GateStatus → GateStatus → Bool
same_status not_ready not_ready = true
same_status candidate_gate candidate_gate = true
same_status passed passed = true
same_status failed_gate failed_gate = true
same_status _ _ = false

abbrev pub option_is : Option GateStatus → GateStatus → Bool
option_is none s = false
option_is (some r) s = same_status r s

-- `gate.status === "pass"`, …
abbrev pub has_status : GateStatus → ReadinessGateItem → Bool
has_status s item = option_is item.status s

abbrev pub is_blocked_state : ReadinessState → Bool
is_blocked_state is_ready = false
is_blocked_state is_blocked = true

abbrev pub work_blocker : WorkPackage → List WorkPackageBlocker → ReadinessWorkBlocker
work_blocker p blockers = record {
  id = p.id;
  title = p.title;
  status = p.status;
  blockers = blockers;
}

abbrev pub blocked_of : List WorkPackage → List WorkPackage → List ReadinessWorkBlocker
blocked_of packages [] = []
blocked_of packages (p ∷ ps) =
    let readiness = explain_work_package_readiness p packages in
    let rest = blocked_of packages ps in
    if is_blocked_state readiness.state then work_blocker p readiness.blockers ∷ rest else rest

abbrev pub sum_of : (ReadinessGateItem → ℕ) → List ReadinessGateItem → ℕ
sum_of f [] = 0
sum_of f (x ∷ xs) = f x + sum_of f xs

abbrev pub freshness_of : ℕ → ℕ → EvidenceFreshness
freshness_of linked missing =
    if nat_eq linked 0
    then no_evidence
    else if ltb 0 missing
    then incomplete
    else recorded_unverified

-- The reason of the first blocker, or the text for none.
abbrev pub reason_for : List WorkPackageBlocker → String
reason_for [] = "A Work Package is blocked by an unresolved dependency."
reason_for (b ∷ bs) = b.reason

abbrev pub prepare_reason : ReadinessGateItem → String
prepare_reason gate =
    if nat_eq gate.evidence_count 0
    then "This gate has no linked evidence yet."
    else "This gate is still NOT READY despite recorded evidence."

abbrev pub final_reason : Bool → String
final_reason true =
    "All required gates currently PASS. Product or release readiness still requires exact-revision review."
final_reason false =
    "No active work or gate blocker is recorded; verify the resolved blueprint and release evidence before claiming readiness."

-- The chain of tests that sets `state` and `nextAction`: the missing required gates, the failed
-- gates, the blocked work, the candidates, the gates that are not ready, the active work in the order
-- of its ids, and whether all required gates passed and there is one.
abbrev pub decide :
    List ReadinessGateItem
    → List ReadinessGateItem
    → List ReadinessWorkBlocker
    → List ReadinessGateItem
    → List ReadinessGateItem
    → List WorkPackage
    → Bool
    → ProjectState × NextAction
decide (gate ∷ _) failed work candidates unready active all_pass = (
  project_blocked,
  record {
    kind = define_gate;
    label = "Define required gate " +++ gate.id;
    reason =
        "The resolved blueprint requires this gate, but no canonical QualityGate record exists yet.";
  },
)
decide [] (gate ∷ _) work candidates unready active all_pass = (
  project_blocked,
  record {
    kind = resolve_failed_gate;
    label = "Resolve failed gate: " +++ gate.name;
    reason =
        "A canonical QualityGate is in FAIL and must be resolved before readiness can advance.";
  },
)
decide [] [] (w ∷ _) candidates unready active all_pass = (
  project_blocked,
  record { kind = unblock_work; label = "Unblock: " +++ w.title; reason = reason_for w.blockers },
)
decide [] [] [] (gate ∷ _) unready active all_pass = (
  attention,
  record {
    kind = review_candidate;
    label = "Review candidate gate: " +++ gate.name;
    reason =
        "Candidate status indicates evidence exists or review is underway, but PASS has not been established.";
  },
)
decide [] [] [] [] (gate ∷ _) active all_pass = (
  in_progress,
  record {
    kind = prepare_gate;
    label = "Prepare gate: " +++ gate.name;
    reason = prepare_reason gate;
  },
)
decide [] [] [] [] [] (p ∷ _) all_pass = (
  in_progress,
  record {
    kind = continue_work;
    label = "Continue: " +++ p.title;
    reason = "Required gates are not currently blocking, but canonical work remains incomplete.";
  },
)
decide [] [] [] [] [] [] all_pass = (
  if all_pass then gate_ready else in_progress,
  record {
    kind = verify_release;
    label = "Verify exact-revision release evidence";
    reason = final_reason all_pass;
  },
)

abbrev pub headline_of : ProjectState → String
headline_of project_blocked = "Readiness is blocked by canonical engineering state."
headline_of attention = "Evidence is ready for focused review."
headline_of gate_ready = "Required gates currently PASS."
headline_of in_progress = "Engineering work is still in progress."

module _ (le : String → String → Bool) where
  module _ (i : ProjectReadinessInput) where
    abbrev pub evidence_of : String → List GateEvidence
    evidence_of id = or_none (i.evidence_by_gate id)

    unfoldable pub required_ids : List String
    unfolding dedup sort_texts
    required_ids = sort_texts (dedup i.required_gate_ids)

    unfoldable pub required_items : List ReadinessGateItem
    unfolding required_ids gate_item
    required_items =
        map (λ id. gate_item le id true (gate_by_id i.quality_gates id) (evidence_of id))
          required_ids

    unfoldable pub additional_items : List ReadinessGateItem
    unfolding required_ids gate_item sort
    additional_items =
        map (λ g. gate_item le g.id false (some g) (evidence_of g.id))
          (sort (λ a b. le a.id b.id)
            (filter (λ g. not (includes required_ids g.id)) i.quality_gates))

    -- `workPackages.filter(not completed)`
    abbrev pub active_packages : List WorkPackage
    active_packages = filter (λ p. not (is_completed p.status)) i.work_packages

    unfoldable pub all_items : List ReadinessGateItem
    unfolding required_items additional_items
    all_items = required_items ++ additional_items

    abbrev pub count : (ReadinessGateItem → Bool) → List ReadinessGateItem → ℕ
    count p items = length (filter p items)

    -- `requiredItems.length > 0 && passRequired === requiredItems.length`
    abbrev pub all_required_pass : Bool
    all_required_pass =
        ltb 0 (length required_items)
        && nat_eq (count (has_status passed) required_items) (length required_items)

    unfoldable pub decision : ProjectState × NextAction
    unfolding all_items required_items sort explain_work_package_readiness
    decision =
        decide (filter is_missing required_items) (filter (has_status failed_gate) all_items)
          (blocked_of i.work_packages i.work_packages)
          (filter (has_status candidate_gate) all_items) (filter (has_status not_ready) all_items)
          (sort (λ a b. le a.id b.id) active_packages) all_required_pass

    unfoldable pub snapshot : ProjectReadinessSnapshot
    unfolding decision all_items required_items explain_work_package_readiness
    snapshot =
        let missing = count is_missing required_items in
        let total = length i.work_packages in
        let completed = length (filter (λ p. is_completed p.status) i.work_packages) in
        let blocked = blocked_of i.work_packages i.work_packages in
        let linked = sum_of ReadinessGateItem.evidence_count all_items in
        let unlinked = sum_of (λ g. length g.missing_evidence_ids) all_items in
        record {
          project_id = i.project_id;
          state = decision.0;
          headline = headline_of decision.0;
          gate_summary = record {
            required = length required_items;
            tracked_required = length required_items - missing;
            pass_required = count (has_status passed) required_items;
            missing_required = missing;
            failed_tracked = count (has_status failed_gate) all_items;
            candidate_tracked = count (has_status candidate_gate) all_items;
            not_ready_tracked = count (has_status not_ready) all_items;
            active_tracked = count (λ g. not (has_status passed g)) all_items;
          };
          work_summary = record {
            total = total;
            completed = completed;
            blocked = length blocked;
            active = total - completed;
          };
          evidence_summary = record {
            linked = linked;
            missing_references = unlinked;
            freshness = freshness_of linked unlinked;
          };
          active_gates = filter (λ g. not (has_status passed g)) all_items;
          blocked_work = blocked;
          next_action = decision.1;
        }

    unfoldable pub summarize_project_readiness : Result ProjectReadinessSnapshot
    unfolding snapshot
    summarize_project_readiness = do
      check_packages i.project_id i.work_packages
      check_gates i.project_id i.quality_gates
      ok snapshot
