-- ===== src/ProjectReadiness/GateReady.antt =====
-- `summarizeProjectReadiness` of packages/core/src/project-readiness.ts: when the state is `gate-ready`.
use software_blueprint_hub.Shared.{
  String, ◌≡◌, refl, sym, ap, ◌∙◌, ◌↔◌, ◌⊎◌, inl, inr, Bool, true, false, not, ◌&&◌, some, List, [],
  ◌∷◌, ◌++◌, map, filter, length, is_empty, includes, includes_iff, dedup, nat_eq, nat_eq_iff, ltb,
  All, All-In, In-All, In, In-dedup_iff, In-filter_iff, and_parts, arith, Bool-cases, ok, >>=-eq-ok,
}
use software_blueprint_hub.Shared.Sorting.{sort, In-sort_iff}
use software_blueprint_hub.Shared.Text.{sort_texts, text_le}
use software_blueprint_hub.WorkQuality.{
  not_ready, candidate_gate, passed, failed_gate, is_completed, WorkPackage, QualityGate,
}
use software_blueprint_hub.ProjectReadiness.{
  gate_ready, ReadinessGateItem, ProjectReadinessInput, ProjectReadinessSnapshot, gate_item,
}
use software_blueprint_hub.ProjectReadiness.Summary.{
  gate_by_id, is_missing, same_status, has_status, blocked_of, required_ids, required_items,
  additional_items, active_packages, evidence_of, all_items, all_required_pass, decision, snapshot,
  summarize_project_readiness, check_packages, check_gates,
}
use software_blueprint_hub.ProjectReadiness.Ready.{
  decide_iff, filter-eq-nil_iff, sort-eq-nil_iff, count_iff, All-append_iff, IsPassed, IsFinished,
  blocked_of-eq-nil_iff, required_items-IsPassed_iff, filters_iff, additional_items-tracked,
  additional_items-passed_iff,
}

All-same :
    {A : Type 0} (P : A → Type 0) (xs ys : List A)
    → ((x : A) → In x ys → In x xs)
    → All P xs
    → All P ys
All-same P xs ys among h = All-In P ys (λ x i. In-All P xs x h (among x i))

nonempty_iff :
    {A : Type 0} (xs ys : List A)
    → ((x : A) → In x ys ↔ In x xs)
    → (is_empty ys ≡ false) ↔ (is_empty xs ≡ false)
nonempty_iff [] [] same = (λ h. h, λ h. h)
nonempty_iff (x ∷ xs) [] same = (λ h. refl, λ h. absurd ((same x).1 (inl refl)))
nonempty_iff [] (y ∷ ys) same = (λ h. absurd ((same y).0 (inl refl)), λ h. refl)
nonempty_iff (x ∷ xs) (y ∷ ys) same = (λ h. refl, λ h. refl)

some_passed_iff :
    {A B : Type 0} (f : A → B) (p : B → Bool) (xs : List A)
    → ((ltb 0 (length (map f xs)) && nat_eq (length (filter p (map f xs))) (length (map f xs)))
        ≡ true)
      ↔ ((is_empty xs ≡ false) × All (λ x. p x ≡ true) (map f xs))
some_passed_iff f p [] = (λ h. absurd (ground arith), λ k. absurd (ground (arith, k.0)))
some_passed_iff f p (x ∷ xs) =
    let (short, (to, from)) = count_iff p (map f (x ∷ xs)) in
    let count = length (filter p (map f (x ∷ xs))) in
    let number = nat_eq_iff count (length (map f (x ∷ xs))) in
    (
      λ h.
          let (some_one, same) = and_parts (ltb 0 (length (map f (x ∷ xs)))) _ h in
          (refl, to (number.0 same)),
      λ (e, k). let all_pass = number.1 (from k) in ground arith,
    )

module _ (le : String → String → Bool) (i : ProjectReadinessInput) where
  required_ids_iff : (id : String) → In id (required_ids le i) ↔ In id i.required_gate_ids
  unfolding required_ids sort_texts
  required_ids_iff id =
      let (to, from) = In-sort_iff text_le (dedup i.required_gate_ids) id in
      let (tos, froms) = In-dedup_iff i.required_gate_ids id in
      (λ h. tos (to h), λ h. from (froms h))

  -- The gates that are not required have passed.
  abbrev pub IsOtherPassed : QualityGate → Type 0
  IsOtherPassed g = In g.id i.required_gate_ids ⊎ (same_status g.status passed ≡ true)

  other_iff :
      All
        (λ g. same_status g.status passed ≡ true)
        (sort
          (λ a b. le a.id b.id)
          (filter (λ g. not (includes (required_ids le i) g.id)) i.quality_gates))
      ↔ All IsOtherPassed i.quality_gates
  other_iff =
      let p : QualityGate → Bool = λ g. not (includes (required_ids le i) g.id) in
      let order : QualityGate → QualityGate → Bool = λ a b. le a.id b.id in
      let listed = In-sort_iff order (filter p i.quality_gates) in
      (
        λ h. All-In IsOtherPassed i.quality_gates (λ g j.
            elim (Bool-cases (includes (required_ids le i) g.id)) [
              | inl e ↦
                  inl ((required_ids_iff g.id).0 ((includes_iff (required_ids le i) g.id).0 e))
              | inr e ↦ inr (
                  In-All (λ x. same_status x.status passed ≡ true) _ g h
                    ((listed g).1 ((In-filter_iff p i.quality_gates g).1 (j, rw e refl))))
            ]),
        λ h.
            All-In (λ g. same_status g.status passed ≡ true) _
              (λ g j.
                let (inside, not_required) =
                  (In-filter_iff p i.quality_gates g).0 ((listed g).0 j) in
                elim (In-All IsOtherPassed i.quality_gates g h inside) [
                  | inl required ↦
                      let listed_too =
                        (includes_iff (required_ids le i) g.id).1
                          ((required_ids_iff g.id).1 required) in
                      absurd (ground arith)
                  | inr done ↦ done
                ]),
      )

  work_iff :
      ((blocked_of i.work_packages i.work_packages ≡ [])
        × (sort (λ a b. le a.id b.id) (active_packages le i) ≡ []))
      ↔ All (IsFinished i) i.work_packages
  work_iff =
      let (done, undone) = blocked_of-eq-nil_iff i.work_packages i.work_packages in
      let (empty, sorted) =
        sort-eq-nil_iff (λ (a : WorkPackage) (b : WorkPackage). le a.id b.id)
          (active_packages le i) in
      let (complete, active) =
        filter-eq-nil_iff (λ (p : WorkPackage). not (is_completed p.status)) i.work_packages in
      (
        λ (b, a). All-In (IsFinished i) i.work_packages (λ p j.
            let finished =
              In-All (λ q. not (is_completed q.status) ≡ false) i.work_packages p
                (complete (empty a)) j in
            (ground arith, In-All _ i.work_packages p (done b) j)),
        λ h. (
          undone
              (All-In _ i.work_packages (λ p j. (In-All (IsFinished i) i.work_packages p h j).1)),
          sorted (
              active (
                All-In _ i.work_packages
                  (λ p j. rw (In-All (IsFinished i) i.work_packages p h j).0 refl))),
        ),
      )

  -- The tests on gates pass exactly when there is a required gate and all gates have passed.
  gates_iff :
      ((filter is_missing (required_items le i) ≡ [])
        × (filter (has_status failed_gate) (all_items le i) ≡ [])
        × (filter (has_status candidate_gate) (all_items le i) ≡ [])
        × (filter (has_status not_ready) (all_items le i) ≡ [])
        × (all_required_pass le i ≡ true))
      ↔ ((is_empty i.required_gate_ids ≡ false)
          × All (IsPassed i) i.required_gate_ids
          × All IsOtherPassed i.quality_gates)
  unfolding all_items required_items additional_items
  gates_iff =
      let ids = required_ids le i in
      let passes : ReadinessGateItem → Bool = has_status passed in
      let item : String → ReadinessGateItem =
        λ id. gate_item le id true (gate_by_id i.quality_gates id) (evidence_of le i id) in
      let gates =
        sort (λ (a : QualityGate) (b : QualityGate). le a.id b.id)
          (filter (λ (g : QualityGate). not (includes ids g.id)) i.quality_gates) in
      let added : List ReadinessGateItem =
        map (λ (g : QualityGate). gate_item le g.id false (some g) (evidence_of le i g.id)) gates in
      let own = map item ids in
      let (all_pass, pass_all) = some_passed_iff item passes ids in
      let (to_ids, from_ids) = required_items-IsPassed_iff le i ids in
      let (to_gates, from_gates) = additional_items-passed_iff le i gates in
      let (split, join) = All-append_iff (λ x. passes x ≡ true) own added in
      let (quiet, loud) = filters_iff le i (own ++ added) in
      let (any_to, any_from) = nonempty_iff i.required_gate_ids ids required_ids_iff in
      (
        λ (missing, failed, candidates, unready, done).
            let (some_one, passed_own) = all_pass done in
            let none_missing = (filter-eq-nil_iff is_missing (own ++ added)).1 (
              (All-append_iff (λ x. is_missing x ≡ false) own added).1 (
                (filter-eq-nil_iff is_missing own).0 missing,
                additional_items-tracked le i gates,
              )) in
            let everything = split (quiet (none_missing, failed, candidates, unready)) in
            (
              any_to some_one,
              All-same (IsPassed i) ids i.required_gate_ids (λ x j. (required_ids_iff x).1 j)
                  (to_ids passed_own),
              other_iff.0 (to_gates everything.1),
            ),
        λ (some_one, required, others).
            let passed_own = from_ids (
              All-same (IsPassed i) i.required_gate_ids ids (λ x j. (required_ids_iff x).0 j)
                required) in
            let (missing, failed, candidates, unready) =
              loud (join (passed_own, from_gates (other_iff.1 others))) in
            (
              (filter-eq-nil_iff is_missing own).1
                  ((All-append_iff (λ x. is_missing x ≡ false) own added).0
                    ((filter-eq-nil_iff is_missing (own ++ added)).0 missing)).0,
              failed,
              candidates,
              unready,
              pass_all (any_from some_one, passed_own),
            ),
      )

  gate_ready_iff : ((snapshot le i).state ≡ gate_ready) ↔ (
      (is_empty i.required_gate_ids ≡ false)
      × All (IsPassed i) i.required_gate_ids
      × All IsOtherPassed i.quality_gates
      × All (IsFinished i) i.work_packages)
  unfolding snapshot decision
  gate_ready_iff =
      let (to, from) =
        decide_iff (filter is_missing (required_items le i))
          (filter (has_status failed_gate) (all_items le i))
          (blocked_of i.work_packages i.work_packages)
          (filter (has_status candidate_gate) (all_items le i))
          (filter (has_status not_ready) (all_items le i))
          (sort (λ (a : WorkPackage) (b : WorkPackage). le a.id b.id) (active_packages le i))
          (all_required_pass le i) in
      (
        λ h.
            let (missing, failed, work, candidates, unready, active, done) = to h in
            let (some_one, required, others) =
              gates_iff.0 (missing, failed, candidates, unready, done) in
            (some_one, required, others, work_iff.0 (work, active)),
        λ (some_one, required, others, finished).
            let (missing, failed, candidates, unready, done) =
              gates_iff.1 (some_one, required, others) in
            let (work, active) = work_iff.1 finished in
            from (missing, failed, work, candidates, unready, active, done),
      )

  -- A summary exists only of records of the project, and it is the snapshot.
  pub summarize-eq-ok :
      (s : ProjectReadinessSnapshot) → summarize_project_readiness le i ≡ ok s → snapshot le i ≡ s
  unfolding summarize_project_readiness
  summarize-eq-ok s h =
      let (one, packages, h1) = >>=-eq-ok (check_packages i.project_id i.work_packages) _ h in
      let (two, gates, h2) = >>=-eq-ok (check_gates i.project_id i.quality_gates) _ h1 in
      ground arith

  -- A project that is summarized is ready for its gate exactly when it requires at least one gate,
  -- every required gate is stored and passed, every other gate passed, and every work package and all
  -- that it depends on are completed.
  pub summarize_gate_ready_iff :
      (s : ProjectReadinessSnapshot)
      → summarize_project_readiness le i ≡ ok s
      → (s.state ≡ gate_ready) ↔ (
          (is_empty i.required_gate_ids ≡ false)
          × All (IsPassed i) i.required_gate_ids
          × All IsOtherPassed i.quality_gates
          × All (IsFinished i) i.work_packages)
  summarize_gate_ready_iff s h =
      let same = ap ProjectReadinessSnapshot.state (summarize-eq-ok s h) in
      let (to, from) = gate_ready_iff in (λ k. to (same ∙ k), λ k. sym same ∙ from k)
