-- ===== src/ProjectReadiness/Counts.antt =====
-- The counts of a summary: packages/core/src/project-readiness.ts.
use software_blueprint_hub.Shared.{
  ℕ, ◌≤◌, String, ◌≡◌, refl, inl, inr, Bool, true, false, not, Option, none, some, List, [], ◌∷◌,
  ◌++◌, filter, length, includes, All, arith, Bool-cases, ok,
}
use software_blueprint_hub.Shared.Sorting.{sort}
use software_blueprint_hub.WorkQuality.{
  GateStatus, not_ready, candidate_gate, passed, failed_gate, is_completed, WorkPackage,
  QualityGate,
}
use software_blueprint_hub.WorkQuality.Readiness.{explain_work_package_readiness}
use software_blueprint_hub.ProjectReadiness.{
  ReadinessGateItem, ProjectReadinessInput, ProjectReadinessSnapshot,
}
use software_blueprint_hub.ProjectReadiness.Summary.{
  status_missing, is_missing, option_is, has_status, is_blocked_state, blocked_of, required_ids,
  required_items, additional_items, all_items, count, snapshot, summarize_project_readiness,
}
use software_blueprint_hub.Shared.{◌+◌}
use software_blueprint_hub.ProjectReadiness.GateReady.{summarize-eq-ok}
use software_blueprint_hub.ProjectReadiness.Ready.{additional_items-tracked}

-- One, for a test that holds.
abbrev one_if : Bool → ℕ
one_if true = 1
one_if false = 0

module _ {A : Type 0} where
  count-step :
      (p : A → Bool) (x : A) (xs : List A)
      → length (filter p (x ∷ xs)) ≡ one_if (p x) + length (filter p xs)
  count-step p x xs = elim (Bool-cases (p x)) [
    | inl e ↦ rw e (omega arith)
    | inr e ↦ rw e (omega arith)
  ]

  count-append :
      (p : A → Bool) (xs ys : List A)
      → length (filter p (xs ++ ys)) ≡ length (filter p xs) + length (filter p ys)
  count-append p [] ys = omega arith
  count-append p (x ∷ xs) ys =
      omega (arith, count-step p x xs, count-step p x (xs ++ ys), count-append p xs ys)

  count-none : (p : A → Bool) (xs : List A) → All (λ x. p x ≡ false) xs → length (filter p xs) ≡ 0
  count-none p [] h = refl
  count-none p (x ∷ xs) (e, h) = rw e (count-none p xs h)

  count-not :
      (p : A → Bool) (xs : List A)
      → length (filter p xs) + length (filter (λ x. not (p x)) xs) ≡ length xs
  count-not p [] = refl
  count-not p (x ∷ xs) = elim (Bool-cases (p x)) [
    | inl e ↦ rw e (omega (arith, count-not p xs))
    | inr e ↦ rw e (omega (arith, count-not p xs))
  ]

status_counts :
    (o : Option GateStatus)
    → one_if (not (option_is o passed))
      ≡ one_if (status_missing o)
        + one_if (option_is o failed_gate)
        + one_if (option_is o candidate_gate)
        + one_if (option_is o not_ready)
status_counts none = refl
status_counts (some not_ready) = refl
status_counts (some candidate_gate) = refl
status_counts (some passed) = refl
status_counts (some failed_gate) = refl

-- An item that has not passed is missing, failed, a candidate or not ready, and only one of these.
items_counts :
    (xs : List ReadinessGateItem)
    → length (filter (λ x. not (has_status passed x)) xs)
      ≡ length (filter is_missing xs)
        + length (filter (has_status failed_gate) xs)
        + length (filter (has_status candidate_gate) xs)
        + length (filter (has_status not_ready) xs)
items_counts [] = refl
items_counts (x ∷ xs) = omega (
  arith,
  count-step (λ y. not (has_status passed y)) x xs,
  count-step is_missing x xs,
  count-step (has_status failed_gate) x xs,
  count-step (has_status candidate_gate) x xs,
  count-step (has_status not_ready) x xs,
  status_counts x.status,
  items_counts xs,
)

blocked_of-le : (packages ps : List WorkPackage) → length (blocked_of packages ps) ≤ length ps
blocked_of-le packages [] = omega arith
blocked_of-le packages (p ∷ ps) =
    elim (Bool-cases (is_blocked_state (explain_work_package_readiness p packages).state)) [
      | inl e ↦ rw e (omega (arith, blocked_of-le packages ps))
      | inr e ↦ rw e (omega (arith, blocked_of-le packages ps))
    ]

module _ (le : String → String → Bool) (i : ProjectReadinessInput) where
  all_missing : count le i is_missing (all_items le i) ≡ count le i is_missing (required_items le i)
  unfolding all_items additional_items
  all_missing =
      let gates =
        sort (λ (a : QualityGate) (b : QualityGate). le a.id b.id)
          (filter (λ (g : QualityGate). not (includes (required_ids le i) g.id)) i.quality_gates) in
      let none_added = count-none is_missing _ (additional_items-tracked le i gates) in
      omega
        (arith, none_added, count-append is_missing (required_items le i) (additional_items le i))

  -- The counts of a summary fit together: the required gates are tracked or missing, and those that
  -- passed are not missing; the active gates are the missing, failed and candidate gates and those that
  -- are not ready; the packages are completed or active, and no more are blocked than there are.
  pub summary_counts :
      (s : ProjectReadinessSnapshot)
      → summarize_project_readiness le i ≡ ok s
      → (s.gate_summary.tracked_required + s.gate_summary.missing_required
          ≡ s.gate_summary.required)
        × (s.gate_summary.pass_required ≤ s.gate_summary.tracked_required)
        × (s.gate_summary.active_tracked
            ≡ s.gate_summary.missing_required + s.gate_summary.failed_tracked
              + s.gate_summary.candidate_tracked + s.gate_summary.not_ready_tracked)
        × (s.work_summary.completed + s.work_summary.active ≡ s.work_summary.total)
        × (s.work_summary.blocked ≤ s.work_summary.total)
  unfolding snapshot
  summary_counts s h =
      let same = summarize-eq-ok le i s h in
      let required = required_items le i in
      let everything = all_items le i in
      let parts = items_counts everything in
      let own = items_counts required in
      let passing = count-not (has_status passed) required in
      let done = count-not (λ (p : WorkPackage). is_completed p.status) i.work_packages in
      let missing = count-not is_missing required in
      let blocked = blocked_of-le i.work_packages i.work_packages in
      rw (← same) (
        omega (arith, missing),
        omega (arith, own, passing),
        omega (arith, parts, all_missing),
        omega (arith, done),
        blocked,
      )
