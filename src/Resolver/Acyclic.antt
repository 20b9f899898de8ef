-- ===== src/Resolver/Acyclic.antt =====
-- What `cycleConflicts` decides.
use software_blueprint_hub.Shared.{
  ◌+◌, ◌≤◌, ◌<◌, String, ◌≡◌, refl, ap, ◌↔◌, inl, inr, Bool, some, List, [], ◌∷◌, ◌++◌, length,
  includes, includes_iff, In, In-filter_iff, In-All, All, All-In, append-eq-nil, dedup, arith,
  Bool-cases,
}
use software_blueprint_hub.Shared.Sorting.{In-sort_iff}
use software_blueprint_hub.Shared.Text.{sort_texts, text_le}
use software_blueprint_hub.Shared.Search.{Walk, visit}
use software_blueprint_hub.Shared.Search.Fuel.{off, visit-some, visit_all-some}
use software_blueprint_hub.Shared.Search.Order.{visit-Quiet, visit_all-IsAfter, visit-IsAfter}
use software_blueprint_hub.Shared.Search.Paths.{
  IsGrounded, IsOrdered-IsGrounded, visit-log, visit_all-log,
}
use software_blueprint_hub.Shared.Search.Kept.{visit_all-Keeps, visit-Keeps}
use software_blueprint_hub.Resolver.{Requirement}
use software_blueprint_hub.Resolver.Closure.{required_modules}
use software_blueprint_hub.Resolver.Cycles.{
  CycleLog, from_first, piped, log_cycle, report_module_cycle, module_successors, cycle_search,
}

abbrev IsQuiet : CycleLog → Type 0
IsQuiet log = (log.seen_cycles ≡ []) × (log.conflicts ≡ [])

-- A cycle that was seen was reported.
abbrev IsReported : CycleLog → Type 0
IsReported log = log.conflicts ≡ [] → log.seen_cycles ≡ []

off-none-le : (ids : List String) → off ids [] ≤ length ids
off-none-le [] = omega arith
off-none-le (x ∷ xs) = omega (arith, off-none-le xs)

module _ (le : String → String → Bool) (sha256_hex : String → String) where
  log_cycle-loud :
      (id : String) (cycle normalized : List String) (log : CycleLog)
      → IsQuiet (log_cycle le sha256_hex id cycle normalized log)
      → ⊥
  log_cycle-loud id cycle normalized log quiet =
      elim (Bool-cases (includes log.seen_cycles (piped normalized))) [
        | inl e ↦
            let (unseen, unlogged) = rw e at quiet in
            absurd (ground (arith, ap (λ l. includes l (piped normalized)) unseen))
        | inr e ↦
            let (unseen, unlogged) = rw e at quiet in
            let k = (append-eq-nil log.conflicts _).0 unlogged in absurd (ground (arith, k.1))
      ]

  log_cycle-IsReported :
      (id : String) (cycle normalized : List String) (log : CycleLog)
      → IsReported log
      → IsReported (log_cycle le sha256_hex id cycle normalized log)
  log_cycle-IsReported id cycle normalized log reported =
      elim (Bool-cases (includes log.seen_cycles (piped normalized))) [
        | inl e ↦ rw e reported
        | inr e ↦
            rw e (λ h. let k = (append-eq-nil log.conflicts _).0 h in absurd (ground (arith, k.1)))
      ]

  report-loud :
      (stack : List String) (id : String) (log : CycleLog)
      → IsQuiet (report_module_cycle le sha256_hex stack id log)
      → ⊥
  unfolding report_module_cycle
  report-loud stack id log =
      let cycle = from_first id stack ++ (id ∷ []) in
      log_cycle-loud id cycle (sort_texts (dedup cycle)) log

  report-IsReported :
      (stack : List String) (id : String) (log : CycleLog)
      → IsReported log
      → IsReported (report_module_cycle le sha256_hex stack id log)
  unfolding report_module_cycle
  report-IsReported stack id log =
      let cycle = from_first id stack ++ (id ∷ []) in
      log_cycle-IsReported id cycle (sort_texts (dedup cycle)) log

  module _ (rs : List Requirement) where
    module_successors-In :
        (id : String) → All (λ y. In y (required_modules rs)) (module_successors rs id)
    unfolding module_successors
    module_successors-In id =
        All-In (λ y. In y (required_modules rs)) _
          (λ y i.
            (includes_iff (required_modules rs) y).0
              ((In-filter_iff (includes (required_modules rs)) _ y).0 i).1)

    -- The search for cycles ends; and it reports no conflict exactly when every path of dependencies
    -- between required modules ends.
    pub cycle_search_iff :
        (w : Walk CycleLog) × (cycle_search le sha256_hex rs ≡ some w)
        × ((w.log.conflicts ≡ [])
            ↔ ((id : String) → In id (required_modules rs) → IsGrounded (module_successors rs) id))
    unfolding cycle_search sort_texts
    cycle_search_iff =
        let ids = required_modules rs in
        let next = module_successors rs in
        let report = report_module_cycle le sha256_hex in
        let start : Walk CycleLog = record {
          visited = [];
          log = record { seen_cycles = []; conflicts = [] };
        } in
        let fuel = length ids + 1 in
        let enough : off ids [] < fuel = omega (arith, off-none-le ids) in
        let sorted : All (λ y. In y ids) (sort_texts ids) =
          All-In (λ y. In y ids) (sort_texts ids) (λ y i. (In-sort_iff text_le ids y).0 i) in
        let (w, e) =
          visit_all-some next report ids module_successors-In (visit next report fuel [])
            (λ id u i. visit-some next report ids module_successors-In fuel [] id u i enough)
            (sort_texts ids) start sorted in
        (
          w,
          e,
          (
            λ quiet id i.
                let reported =
                  visit_all-Keeps next report IsReported report-IsReported
                    (visit next report fuel [])
                    (visit-Keeps next report IsReported report-IsReported fuel []) (sort_texts ids)
                    start w e (λ h. refl) in
                let after =
                  visit_all-IsAfter next report IsQuiet report-loud (visit next report fuel [])
                    (visit-Quiet next report IsQuiet report-loud fuel [])
                    (visit-IsAfter next report IsQuiet report-loud fuel []) (sort_texts ids) start w
                    e (reported quiet, quiet) tt in
                IsOrdered-IsGrounded next w.visited after.ordered id (
                  In-All (λ y. In y w.visited) (sort_texts ids) id after.listed
                    ((In-sort_iff text_le ids id).1 i)),
            λ grounds. ap CycleLog.conflicts (
                visit_all-log next report (visit next report fuel []) (sort_texts ids) start w
                  (λ id i v v' k.
                    visit-log next report fuel [] id v v' tt
                      (grounds id ((In-sort_iff text_le ids id).0 i)) k)
                  e),
          ),
        )
