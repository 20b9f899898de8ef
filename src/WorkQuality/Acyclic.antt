-- ===== src/WorkQuality/Acyclic.antt =====
-- What `validateWorkPackageDependencies` decides, and that it keeps the graph of a project acyclic.
use software_blueprint_hub.Shared.{
  append-eq-nil, ◌+◌, String, ◌≡◌, refl, ap, ◌∙◌, ◌↔◌, ◌⊎◌, inl, inr, true, false, some, List, [],
  ◌∷◌, ◌==◌, eq_iff, if◌then◌else◌, filter, length, In, In-filter_iff, All, arith, Bool-cases, ok,
}
use software_blueprint_hub.Shared.Search.{Walk}
use software_blueprint_hub.Shared.Search.Fuel.{visit-some}
use software_blueprint_hub.Shared.Search.Order.{visit-Quiet}
use software_blueprint_hub.Shared.Search.Paths.{IsGrounded, grounded, visit_iff}
use software_blueprint_hub.WorkQuality.{WorkPackage}
use software_blueprint_hub.WorkQuality.Dependencies.{
  by_id, is_some, dependencies_of, report_cycle, edges, is_node, successors, direct_reasons,
  node_ids, search, verdict, validate_work_package_dependencies,
}
use software_blueprint_hub.WorkQuality.Fit.{IsFit, direct_reasons_iff, successors-In, off-start}

module _ (c : WorkPackage) (ps : List WorkPackage) where
  -- What the search adds to the reasons that stand: nothing exactly when the candidate is on no
  -- cycle and reaches none. It always ends.
  search_iff :
      direct_reasons c ps c.dependencies ≡ []
      → (w : Walk (List String)) × (search c ps ≡ some w)
        × ((w.log ≡ []) ↔ IsGrounded (successors c ps) c.id)
  unfolding search
  search_iff none_yet =
      let enough = off-start c ps (node_ids c ps) in
      visit_iff (successors c ps) report_cycle (λ l. l ≡ [])
        (λ trail id l h. absurd (ground (arith, (append-eq-nil l (_ ∷ [])).0 h))) (node_ids c ps)
        (successors-In c ps) (length (node_ids c ps) + 1) c.id (direct_reasons c ps c.dependencies)
        (inl refl) (omega (arith, enough)) none_yet

  -- The search ends, whatever reasons stand.
  search-some : (w : Walk (List String)) × (search c ps ≡ some w)
  unfolding search
  search-some =
      let enough = off-start c ps (node_ids c ps) in
      visit-some (successors c ps) report_cycle (node_ids c ps) (successors-In c ps)
        (length (node_ids c ps) + 1) [] c.id _ (inl refl) (omega (arith, enough))

  -- A search that ends without a reason began without one.
  search-quiet :
      (w : Walk (List String))
      → search c ps ≡ some w
      → w.log ≡ []
      → direct_reasons c ps c.dependencies ≡ []
  unfolding search
  search-quiet w e q =
      visit-Quiet (successors c ps) report_cycle (λ l. l ≡ [])
        (λ trail id l h. absurd (ground (arith, (append-eq-nil l (_ ∷ [])).0 h)))
        (length (node_ids c ps) + 1) [] c.id _ w e q

  verdict_iff : (w : Walk (List String)) → (verdict c ps (some w) ≡ ok tt) ↔ (w.log ≡ [])
  verdict_iff w = List-cases w.log
    where
      List-cases :
          (l : List String)
          → (verdict c ps (some (record { visited = w.visited; log = l })) ≡ ok tt) ↔ (l ≡ [])
      List-cases [] = (λ h. refl, λ h. refl)
      List-cases (x ∷ l) = (λ h. absurd (ground arith), λ h. absurd (ground arith))

  -- The dependencies of a work package are accepted exactly when each of them is another package that
  -- exists and is of the same project, and every path of dependencies from the package ends.
  pub validate_iff :
      (validate_work_package_dependencies c ps ≡ ok tt)
      ↔ (All (IsFit c ps) c.dependencies × IsGrounded (successors c ps) c.id)
  unfolding validate_work_package_dependencies
  validate_iff =
      let (fit, unfit) = direct_reasons_iff c ps c.dependencies in
      let (w, e) = search-some in
      let (quiet, silent) = verdict_iff w in
      (
        λ h.
            let q = quiet (rw e at h) in
            let start = search-quiet w e q in
            let (w', e', (to, from)) = search_iff start in
            let same : w ≡ w' = ground arith in (fit start, to (rw (ap Walk.log same) at q)),
        λ (k, g).
            let (w', e', (to, from)) = search_iff (unfit k) in
            let same : w ≡ w' = ground arith in rw e (silent (ap Walk.log same ∙ from g)),
      )

-- The graph of the stored packages of a project.
abbrev pub stored_successors : List WorkPackage → String → List String
stored_successors ps id = filter (λ y. is_some (by_id ps y)) (dependencies_of (by_id ps id))

abbrev pub IsAcyclic : List WorkPackage → Type 0
IsAcyclic ps = (id : String) → IsGrounded (stored_successors ps) id

module _ (c : WorkPackage) (ps ps' : List WorkPackage)
    (stored : (id : String) → by_id ps' id ≡ (if c.id == id then some c else by_id ps id)) where
  stored-node :
      (x y : String)
      → (c.id == x) ≡ false
      → In y (stored_successors ps' x)
      → ((c.id == y) ≡ true) ⊎ In y (stored_successors ps x)
  stored-node x y other i =
      let (dep, known) =
        (In-filter_iff (λ z. is_some (by_id ps' z)) (dependencies_of (by_id ps' x)) y).0 i in
      elim (Bool-cases (c.id == y)) [
        | inl e ↦ inl e
        | inr e ↦
            let there : by_id ps' y ≡ by_id ps y = stored y ∙ rw e refl in
            let here : by_id ps' x ≡ by_id ps x = stored x ∙ rw other refl in
            inr (
              (In-filter_iff (λ z. is_some (by_id ps z)) (dependencies_of (by_id ps x)) y).1
                (rw here at dep, rw there at known))
      ]

  -- An id other than the candidate's reaches only what it reached, or the candidate.
  stored-IsGrounded :
      (x : String)
      → IsGrounded (stored_successors ps') c.id
      → IsGrounded (stored_successors ps) x
      → IsGrounded (stored_successors ps') x
  stored-IsGrounded x top (grounded f) = elim (Bool-cases (c.id == x)) [
    | inl e ↦ rw ((eq_iff c.id x).0 e) at top
    | inr e ↦ grounded (λ y i. elim (stored-node x y e i) [
      | inl same ↦ rw ((eq_iff c.id y).0 same) at top
      | inr j ↦ stored-IsGrounded y top (f y j)
    ])
  ]

  stored-successor : (x y : String) → In y (stored_successors ps' x) → In y (successors c ps x)
  unfolding successors
  stored-successor x y i =
      let (dep, known) =
        (In-filter_iff (λ z. is_some (by_id ps' z)) (dependencies_of (by_id ps' x)) y).0 i in
      (In-filter_iff (is_node c ps) (edges c ps x) y).1 (edge x y dep, node y known)
    where
      edge : (x y : String) → In y (dependencies_of (by_id ps' x)) → In y (edges c ps x)
      edge x y dep = elim (Bool-cases (c.id == x)) [
        | inl e ↦ rw e (rw (stored x, e) at dep)
        | inr e ↦ rw e (rw (stored x, e) at dep)
      ]

      node : (y : String) → is_some (by_id ps' y) ≡ true → is_node c ps y ≡ true
      node y known = elim (Bool-cases (c.id == y)) [
        | inl e ↦ rw e refl
        | inr e ↦ rw e (rw (stored y, e) at known)
      ]

  candidate-IsGrounded :
      (x : String) → IsGrounded (successors c ps) x → IsGrounded (stored_successors ps') x
  candidate-IsGrounded x (grounded f) =
      grounded (λ y i. candidate-IsGrounded y (f y (stored-successor x y i)))

  -- When the packages of a project have no cycle and a candidate's dependencies are accepted, the
  -- packages with the candidate stored under its id have no cycle either.
  pub validate-IsAcyclic :
      IsAcyclic ps → validate_work_package_dependencies c ps ≡ ok tt → IsAcyclic ps'
  validate-IsAcyclic acyclic valid x =
      stored-IsGrounded x (candidate-IsGrounded c.id ((validate_iff c ps).0 valid).1) (acyclic x)
