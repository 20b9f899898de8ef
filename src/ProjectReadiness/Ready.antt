-- ===== src/ProjectReadiness/Ready.antt =====
-- When a project is ready for its gate.
use software_blueprint_hub.Shared.{
  suc, ◌≤◌, String, ◌≡◌, refl, sym, ap, subst, ◌↔◌, ◌⊎◌, inl, inr, Bool, true, false, Option, none,
  some, List, [], ◌∷◌, ◌++◌, map, filter, length, All, In, arith, Bool-cases,
}
use software_blueprint_hub.Shared.Sorting.{sort, In-sort_iff}
use software_blueprint_hub.WorkQuality.{
  GateStatus, not_ready, candidate_gate, passed, failed_gate, is_completed, WorkPackage,
  QualityGate,
}
use software_blueprint_hub.WorkQuality.Readiness.{
  is_ready, is_blocked, ReadinessState, explain_work_package_readiness, IsDone, readiness_iff,
}
use software_blueprint_hub.ProjectReadiness.{
  gate_ready, ReadinessGateItem, ReadinessWorkBlocker, ProjectReadinessInput, gate_item,
}
use software_blueprint_hub.ProjectReadiness.Summary.{
  gate_by_id, status_missing, is_missing, same_status, option_is, has_status, is_blocked_state,
  blocked_of, decide, evidence_of,
}

-- The chain of tests ends at `gate-ready` only past all lists.
pub decide_iff :
    (missing failed : List ReadinessGateItem) (work : List ReadinessWorkBlocker)
    (candidates unready : List ReadinessGateItem) (active : List WorkPackage) (all_pass : Bool)
    → ((decide missing failed work candidates unready active all_pass).0 ≡ gate_ready) ↔ (
        (missing ≡ [])
        × (failed ≡ [])
        × (work ≡ [])
        × (candidates ≡ [])
        × (unready ≡ [])
        × (active ≡ [])
        × (all_pass ≡ true))
decide_iff (x ∷ _) fs ws cs us as' b =
    (λ h. absurd (ground arith), λ k. absurd (ground (arith, k.0)))
decide_iff [] (x ∷ _) ws cs us as' b =
    (λ h. absurd (ground arith), λ k. absurd (ground (arith, k.1)))
decide_iff [] [] (x ∷ _) cs us as' b =
    (λ h. absurd (ground arith), λ k. absurd (ground (arith, k.2)))
decide_iff [] [] [] (x ∷ _) us as' b =
    (λ h. absurd (ground arith), λ k. absurd (ground (arith, k.3)))
decide_iff [] [] [] [] (x ∷ _) as' b =
    (λ h. absurd (ground arith), λ k. absurd (ground (arith, k.4)))
decide_iff [] [] [] [] [] (x ∷ _) b =
    (λ h. absurd (ground arith), λ k. absurd (ground (arith, k.5)))
decide_iff [] [] [] [] [] [] true = (λ h. (refl, refl, refl, refl, refl, refl, refl), λ k. refl)
decide_iff [] [] [] [] [] [] false = (λ h. absurd (ground arith), λ k. absurd (ground (arith, k.6)))

module _ {A : Type 0} where
  pub filter-eq-nil_iff :
      (p : A → Bool) (xs : List A) → (filter p xs ≡ []) ↔ All (λ x. p x ≡ false) xs
  filter-eq-nil_iff p [] = (λ h. tt, λ h. refl)
  filter-eq-nil_iff p (x ∷ xs) =
      let (to, from) = filter-eq-nil_iff p xs in
      elim (Bool-cases (p x)) [
        | inl e ↦ (λ h. absurd (ground arith), λ k. absurd (ground (arith, k.0)))
        | inr e ↦ (λ h. (e, to (rw e at h)), λ k. rw e (from k.1))
      ]

  pub sort-eq-nil_iff : (le : A → A → Bool) (xs : List A) → (sort le xs ≡ []) ↔ (xs ≡ [])
  unfolding sort
  sort-eq-nil_iff le [] = (λ h. refl, λ h. refl)
  sort-eq-nil_iff le (x ∷ xs) = (
    λ h. absurd (subst (In x) h ((In-sort_iff le (x ∷ xs) x).1 (inl refl))),
    λ h. absurd (ground arith),
  )

  All-map_iff :
      {B : Type 0} (P : B → Type 0) (f : A → B) (xs : List A)
      → All P (map f xs) ↔ All (λ x. P (f x)) xs
  All-map_iff P f [] = (λ h. h, λ h. h)
  All-map_iff P f (x ∷ xs) =
      let (to, from) = All-map_iff P f xs in (λ h. (h.0, to h.1), λ h. (h.0, from h.1))

  pub All-append_iff : (P : A → Type 0) (xs ys : List A) → All P (xs ++ ys) ↔ (All P xs × All P ys)
  All-append_iff P [] ys = (λ h. (tt, h), λ h. h.1)
  All-append_iff P (x ∷ xs) ys =
      let (to, from) = All-append_iff P xs ys in
      (λ h. ((h.0, (to h.1).0), (to h.1).1), λ h. (h.0.0, from (h.0.1, h.1)))

  -- As many pass as there are exactly when all pass.
  pub count_iff :
      (p : A → Bool) (xs : List A)
      → (length (filter p xs) ≤ length xs)
        × ((length (filter p xs) ≡ length xs) ↔ All (λ x. p x ≡ true) xs)
  count_iff p [] = (omega arith, (λ h. tt, λ h. refl))
  count_iff p (x ∷ xs) =
      let (short, (to, from)) = count_iff p xs in
      elim (Bool-cases (p x)) [
        | inl e ↦ (
          rw e (omega (arith, short)),
          (λ h. (e, to (omega (arith, rw e at h))), λ k. rw e (ap suc (from k.1))),
        )
        | inr e ↦ (
          rw e (omega (arith, short)),
          (
            λ h. let bad = rw e at h in absurd (omega (arith, short)),
            λ k. absurd (ground (arith, k.0)),
          ),
        )
      ]

option-passed_iff :
    (o : Option GateStatus)
    → ((status_missing o ≡ false)
        × (option_is o failed_gate ≡ false)
        × (option_is o candidate_gate ≡ false)
        × (option_is o not_ready ≡ false))
      ↔ (option_is o passed ≡ true)
option-passed_iff none = (λ h. absurd (ground (arith, h.0)), λ h. absurd (ground arith))
option-passed_iff (some not_ready) = (λ h. absurd (ground (arith, h.3)), λ h. absurd (ground arith))
option-passed_iff (some candidate_gate) =
    (λ h. absurd (ground (arith, h.2)), λ h. absurd (ground arith))
option-passed_iff (some passed) = (λ h. refl, λ h. (refl, refl, refl, refl))
option-passed_iff (some failed_gate) =
    (λ h. absurd (ground (arith, h.1)), λ h. absurd (ground arith))

-- The gate is stored and passed.
abbrev pub IsPassed : ProjectReadinessInput → String → Type 0
IsPassed i id =
    (g : QualityGate) × (gate_by_id i.quality_gates id ≡ some g)
    × (same_status g.status passed ≡ true)

-- The work is completed, and so is all that it depends on.
abbrev pub IsFinished : ProjectReadinessInput → WorkPackage → Type 0
IsFinished i p = (is_completed p.status ≡ true) × All (IsDone i.work_packages) p.dependencies

module _ (packages : List WorkPackage) where
  pub blocked_of-eq-nil_iff :
      (ps : List WorkPackage)
      → (blocked_of packages ps ≡ []) ↔ All (λ p. All (IsDone packages) p.dependencies) ps
  blocked_of-eq-nil_iff [] = (λ h. tt, λ h. refl)
  blocked_of-eq-nil_iff (p ∷ ps) =
      let (to, from) = blocked_of-eq-nil_iff ps in
      let (done, ready) = (readiness_iff p packages).0 in
      let state = (explain_work_package_readiness p packages).state in
      elim (state_cases state) [
        | inl e ↦ (
          λ h. (done e, to (rw (ap is_blocked_state e) at h)),
          λ k. rw (ap is_blocked_state e) (from k.1),
        )
        | inr e ↦ (
          λ h. absurd (ground (arith, ap is_blocked_state e)),
          λ k. absurd (ground (arith, ap is_blocked_state (ready k.0), ap is_blocked_state e)),
        )
      ]
    where
      state_cases : (s : ReadinessState) → (s ≡ is_ready) ⊎ (s ≡ is_blocked)
      state_cases is_ready = inl refl
      state_cases is_blocked = inr refl

module _ (le : String → String → Bool) (i : ProjectReadinessInput) where
  -- A required gate's item has passed exactly when the gate is stored and passed.
  item-IsPassed_iff :
      (id : String) (o : Option QualityGate)
      → gate_by_id i.quality_gates id ≡ o
      → (has_status passed (gate_item le id true o (evidence_of le i id)) ≡ true) ↔ IsPassed i id
  unfolding gate_item
  item-IsPassed_iff id none e = (λ h. absurd (ground arith), λ (g, found, k). absurd (ground arith))
  item-IsPassed_iff id (some g) e = (
    λ h. (g, e, h),
    λ (g', found, k).
        let same : g ≡ g' = ground arith in
        subst (λ x. same_status x.status passed ≡ true) (sym same) k,
  )

  pub required_items-IsPassed_iff :
      (ids : List String)
      → All
          (λ x. has_status passed x ≡ true)
          (map
            (λ id. gate_item le id true (gate_by_id i.quality_gates id) (evidence_of le i id))
            ids)
        ↔ All (IsPassed i) ids
  required_items-IsPassed_iff [] = (λ h. h, λ h. h)
  required_items-IsPassed_iff (id ∷ ids) =
      let (to, from) = item-IsPassed_iff id (gate_by_id i.quality_gates id) refl in
      let (tos, froms) = required_items-IsPassed_iff ids in
      (λ h. (to h.0, tos h.1), λ h. (from h.0, froms h.1))

  pub filters_iff :
      (xs : List ReadinessGateItem)
      → ((filter is_missing xs ≡ [])
          × (filter (has_status failed_gate) xs ≡ [])
          × (filter (has_status candidate_gate) xs ≡ [])
          × (filter (has_status not_ready) xs ≡ []))
        ↔ All (λ x. has_status passed x ≡ true) xs
  filters_iff [] = (λ h. tt, λ h. (refl, refl, refl, refl))
  filters_iff (x ∷ xs) =
      let (to, from) = filters_iff xs in
      let (pass, back) = option-passed_iff x.status in
      let missing = filter-eq-nil_iff is_missing (x ∷ xs) in
      let failed = filter-eq-nil_iff (has_status failed_gate) (x ∷ xs) in
      let candidate = filter-eq-nil_iff (has_status candidate_gate) (x ∷ xs) in
      let unready = filter-eq-nil_iff (has_status not_ready) (x ∷ xs) in
      (
        λ h.
            let (m, ms) = missing.0 h.0 in
            let (f, fs) = failed.0 h.1 in
            let (c, cs) = candidate.0 h.2 in
            let (u, us) = unready.0 h.3 in
            (
              pass (m, f, c, u),
              to (
                (filter-eq-nil_iff is_missing xs).1 ms,
                (filter-eq-nil_iff (has_status failed_gate) xs).1 fs,
                (filter-eq-nil_iff (has_status candidate_gate) xs).1 cs,
                (filter-eq-nil_iff (has_status not_ready) xs).1 us,
              ),
            ),
        λ (p, ps).
            let (m, f, c, u) = back p in
            let (ms, fs, cs, us) = from ps in
            (
              missing.1 (m, (filter-eq-nil_iff is_missing xs).0 ms),
              failed.1 (f, (filter-eq-nil_iff (has_status failed_gate) xs).0 fs),
              candidate.1 (c, (filter-eq-nil_iff (has_status candidate_gate) xs).0 cs),
              unready.1 (u, (filter-eq-nil_iff (has_status not_ready) xs).0 us),
            ),
      )

  -- An additional gate is never missing.
  pub additional_items-tracked :
      (gs : List QualityGate)
      → All
          (λ x. is_missing x ≡ false)
          (map (λ g. gate_item le g.id false (some g) (evidence_of le i g.id)) gs)
  unfolding gate_item
  additional_items-tracked [] = tt
  additional_items-tracked (g ∷ gs) = (refl, additional_items-tracked gs)

  pub additional_items-passed_iff :
      (gs : List QualityGate)
      → All
          (λ x. has_status passed x ≡ true)
          (map (λ g. gate_item le g.id false (some g) (evidence_of le i g.id)) gs)
        ↔ All (λ g. same_status g.status passed ≡ true) gs
  unfolding gate_item
  additional_items-passed_iff [] = (λ h. h, λ h. h)
  additional_items-passed_iff (g ∷ gs) =
      let (to, from) = additional_items-passed_iff gs in (λ h. (h.0, to h.1), λ h. (h.0, from h.1))
