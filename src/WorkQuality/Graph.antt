-- ===== src/WorkQuality/Graph.antt =====
-- The graph of the stored packages of a project, and the handlers that write packages.
use software_blueprint_hub.Shared.{
  ℕ, ◌+◌, String, ◌≡◌, refl, sym, ap, ◌∙◌, inl, inr, Bool, true, false, ◌&&◌, Option, none, some,
  List, [], ◌∷◌, ◌==◌, eq_iff, if◌then◌else◌, In, arith, Bool-cases, Option-cases, ok, nat_eq,
  nat_eq_iff, and_parts, >>=-eq-ok, guard-eq-ok,
}
use software_blueprint_hub.Authority.{AuthenticatedActor, project_mutate, can, require}
use software_blueprint_hub.WorkQuality.{WorkPackage}
use software_blueprint_hub.WorkQuality.Dependencies.{
  last_with, by_id, validate_work_package_dependencies,
}
use software_blueprint_hub.WorkQuality.Fit.{last_with-In}
use software_blueprint_hub.WorkQuality.Acyclic.{IsAcyclic, validate-IsAcyclic}
use software_blueprint_hub.WorkQuality.Store
use software_blueprint_hub.WorkQuality.Store.{
  WorkQualityTables, WorkQualityStore, assert_valid, read_all, list_work_packages_by_project,
}
use software_blueprint_hub.WorkQuality.Service.{create_work_package, update_work_package}

pub read_all-eq-ok :
    {Row : Type 0} (name : String) (errors : Row → Option String) (rows out : List Row)
    → read_all name errors rows ≡ ok out
    → rows ≡ out
read_all-eq-ok name errors [] out h = ground arith
read_all-eq-ok name errors (row ∷ rows) out h =
    let (one, valid, h1) = >>=-eq-ok (assert_valid name (errors row)) _ h in
    let (rest, e, h2) = >>=-eq-ok (read_all name errors rows) _ h1 in
    let same = read_all-eq-ok name errors rows rest e in ground (arith, same)

last_with-none :
    (p : WorkPackage → Bool) (xs : List WorkPackage) (x : WorkPackage)
    → last_with p xs ≡ none
    → In x xs
    → p x ≡ false
last_with-none p [] x h i = absurd i
last_with-none p (y ∷ ys) x h i = elim (Option-cases (last_with p ys)) [
  | inl e ↦ elim i [
    | inl same ↦ let fails : p y ≡ false = ground arith in rw same at fails
    | inr j ↦ last_with-none p ys x e j
  ]
  | inr (z, e) ↦ absurd (ground arith)
]

abbrev pub only_if : (WorkPackage → Bool) → Option WorkPackage → Option WorkPackage
only_if test none = none
only_if test (some p) = if test p then some p else none

module _ (t : WorkQualityTables) where
  open t use {work_package}

  abbrev pub packages_of : String → work_package.Rows → List WorkPackage
  packages_of project rows = work_package.find_many (λ p. p.project_id == project) rows

  -- The entry of an id in the map of a project's packages is the stored row, if it is of the project.
  by_id-packages_of :
      (project id : String) (rows : work_package.Rows)
      → by_id (packages_of project rows) id
        ≡ only_if (λ p. p.project_id == project) (work_package.find_unique id rows)
  by_id-packages_of project id rows =
      let test : WorkPackage → Bool = λ p. p.project_id == project in
      elim (Option-cases (by_id (packages_of project rows) id)) [
        | inl absent ↦ elim (Option-cases (work_package.find_unique id rows)) [
          | inl e ↦ rw (absent, e) refl
          | inr (r, e) ↦
              let own = work_package.find-key id rows r e in
              elim (Bool-cases (r.project_id == project)) [
                | inl local ↦
                    let listed = work_package.many-find test rows r (rw (← own) at e) local in
                    let other = last_with-none (λ p. p.id == id) _ r absent listed in
                    absurd (ground (arith, (eq_iff r.id id).1 own))
                | inr foreign ↦ rw (absent, e, foreign) refl
              ]
        ]
        | inr (x, present) ↦
            let (i, named) = last_with-In (λ p. p.id == id) _ x present in
            let (e, own) = work_package.find-many test rows x i in
            let there : work_package.find_unique id rows ≡ some x =
              ap (λ j. work_package.find_unique j rows) (sym ((eq_iff x.id id).0 named)) ∙ e in
            rw (present, there, own) refl
      ]

  -- A row that was written under the candidate's id, the other rows being as they were.
  abbrev pub IsWritten : WorkPackage → work_package.Rows → work_package.Rows → Type 0
  IsWritten c rows rows' =
      (id : String)
      → work_package.find_unique id rows'
        ≡ (if c.id == id then some c else work_package.find_unique id rows)

  written-IsAcyclic :
      (c : WorkPackage) (rows rows' : work_package.Rows)
      → IsWritten c rows rows'
      → validate_work_package_dependencies c (packages_of c.project_id rows) ≡ ok tt
      → IsAcyclic (packages_of c.project_id rows)
      → IsAcyclic (packages_of c.project_id rows')
  written-IsAcyclic c rows rows' written valid acyclic =
      validate-IsAcyclic c (packages_of c.project_id rows) (packages_of c.project_id rows')
        (λ id. by_id-packages_of c.project_id id rows' ∙ (elim (Bool-cases (c.id == id)) [
          | inl e ↦ rw (written id, e, (eq_iff c.project_id c.project_id).1 refl) refl
          | inr e ↦ rw (written id, e) (sym (by_id-packages_of c.project_id id rows))
        ]))
        acyclic valid

  pub create-IsWritten :
      (c : WorkPackage) (s : WorkQualityStore t) (out : WorkPackage × WorkQualityStore t)
      → Store.create_work_package t c s ≡ ok out
      → IsWritten c s.packages out.1.packages
  unfolding Store.create_work_package
  create-IsWritten c s out h id =
      let (one, valid, h1) = >>=-eq-ok (assert_valid "WorkPackage" (t.package_errors c)) _ h in
      elim (Option-cases (work_package.create c s.packages)) [
        | inl e ↦ absurd (ground arith)
        | inr (rows, e) ↦
            let same : out.1.packages ≡ rows = ground arith in
            rw same (work_package.find-create c s.packages rows id e)
      ]

  -- The package was stored before, in the same project, with the expected version.
  abbrev pub IsVersionBefore : WorkPackage → ℕ → WorkQualityStore t → Type 0
  IsVersionBefore c expected s =
      (old : WorkPackage) × (work_package.find_unique c.id s.packages ≡ some old)
      × (old.project_id ≡ c.project_id)
      × (old.record_version ≡ expected)
      × (c.record_version ≡ expected + 1)

  pub update-IsWritten :
      (c : WorkPackage) (expected : ℕ) (s : WorkQualityStore t)
      (out : WorkPackage × WorkQualityStore t)
      → Store.update_work_package t c expected s ≡ ok out
      → IsWritten c s.packages out.1.packages × IsVersionBefore c expected s
  unfolding Store.update_work_package
  update-IsWritten c expected s out h =
      let test : WorkPackage → Bool =
        λ row. row.project_id == c.project_id && nat_eq row.record_version expected in
      let (one, valid, h1) = >>=-eq-ok (assert_valid "WorkPackage" (t.package_errors c)) _ h in
      let (next, h2) = guard-eq-ok (nat_eq c.record_version (expected + 1)) _ _ h1 in
      let (counted, h3) =
        guard-eq-ok (nat_eq (work_package.update_many test c s.packages).0 1) _ _ h2 in
      let same : out.1.packages ≡ (work_package.update_many test c s.packages).1 = ground arith in
      let count = work_package.count-update test c s.packages in
      elim (Option-cases (work_package.find_unique c.id s.packages)) [
        | inl e ↦
            absurd (ground (arith, nat_eq_iff (work_package.update_many test c s.packages).0 1))
        | inr (old, e) ↦ elim (Bool-cases (test old)) [
          | inl hit ↦
              let (own, version) = and_parts (old.project_id == c.project_id) _ hit in
              (
                λ id. rw same (rw (e, hit) at (work_package.find-update test c s.packages id)),
                (old, e, (eq_iff _ _).0 own, (nat_eq_iff _ _).0 version, (nat_eq_iff _ _).0 next),
              )
          | inr miss ↦
              absurd (ground (arith, nat_eq_iff (work_package.update_many test c s.packages).0 1))
        ]
      ]

module _ (t : WorkQualityTables) (view : ℕ → WorkQualityStore t) where
  listed-packages_of :
      (project : String) (s : WorkQualityStore t) (packages : List WorkPackage)
      → list_work_packages_by_project t project s ≡ ok packages
      → packages_of t project s.packages ≡ packages
  unfolding list_work_packages_by_project
  listed-packages_of project s packages h =
      read_all-eq-ok "WorkPackage" t.package_errors (packages_of t project s.packages) packages h

  -- What a handler that writes a package has established.
  abbrev pub IsAcceptedWrite :
      Option AuthenticatedActor → WorkPackage → WorkPackage × WorkQualityStore t → Type 0
  IsAcceptedWrite actor c out =
      (can t.authority actor c.project_id project_mutate (view 0).authority ≡ true)
      × (validate_work_package_dependencies c (packages_of t c.project_id (view 1).packages)
          ≡ ok tt)
      × IsWritten t c (view 2).packages out.1.packages

  -- A work package that was created was written for an actor who may change its project, and its
  -- dependencies were accepted against the packages of the project at the second call.
  pub create_work_package_sound :
      (actor : Option AuthenticatedActor) (c : WorkPackage) (out : WorkPackage × WorkQualityStore t)
      → create_work_package t view actor c ≡ ok out
      → IsAcceptedWrite actor c out
  unfolding create_work_package require
  create_work_package_sound actor c out h =
      let (allowed, h1) =
        guard-eq-ok (can t.authority actor c.project_id project_mutate (view 0).authority) _ _ h in
      let (one, valid, h2) = >>=-eq-ok (assert_valid "WorkPackage" (t.package_errors c)) _ h1 in
      let (packages, listed, h3) =
        >>=-eq-ok (list_work_packages_by_project t c.project_id (view 1)) _ h2 in
      let (two, checked, h4) = >>=-eq-ok (validate_work_package_dependencies c packages) _ h3 in
      (
        allowed,
        rw (listed-packages_of c.project_id (view 1) packages listed) checked,
        create-IsWritten t c (view 2) out h4,
      )

  -- A work package that was updated was written for an actor who may change its project, over its
  -- stored predecessor of the same project and of the expected version, which the new version
  -- follows; its dependencies were accepted against the packages of the project at the second call.
  pub update_work_package_sound :
      (actor : Option AuthenticatedActor) (c : WorkPackage) (expected : ℕ)
      (out : WorkPackage × WorkQualityStore t)
      → update_work_package t view actor c expected ≡ ok out
      → IsAcceptedWrite actor c out × IsVersionBefore t c expected (view 2)
  unfolding update_work_package require
  update_work_package_sound actor c expected out h =
      let (allowed, h1) =
        guard-eq-ok (can t.authority actor c.project_id project_mutate (view 0).authority) _ _ h in
      let (one, valid, h2) = >>=-eq-ok (assert_valid "WorkPackage" (t.package_errors c)) _ h1 in
      let (packages, listed, h3) =
        >>=-eq-ok (list_work_packages_by_project t c.project_id (view 1)) _ h2 in
      let (two, checked, h4) = >>=-eq-ok (validate_work_package_dependencies c packages) _ h3 in
      let (written, before) = update-IsWritten t c expected (view 2) out h4 in
      (
        (allowed, rw (listed-packages_of c.project_id (view 1) packages listed) checked, written),
        before,
      )

  -- A package that a handler wrote: created, or updated.
  pub data PackageWrite : WorkPackage → WorkPackage × WorkQualityStore t → Type 0 where
    creates :
        (actor : Option AuthenticatedActor) (c : WorkPackage)
        (out : WorkPackage × WorkQualityStore t)
        → create_work_package t view actor c ≡ ok out
        → PackageWrite c out
    updates :
        (actor : Option AuthenticatedActor) (c : WorkPackage) (expected : ℕ)
        (out : WorkPackage × WorkQualityStore t)
        → update_work_package t view actor c expected ≡ ok out
        → PackageWrite c out

  accepted-IsAcyclic :
      (actor : Option AuthenticatedActor) (c : WorkPackage) (out : WorkPackage × WorkQualityStore t)
      → IsAcceptedWrite actor c out
      → (view 1).packages ≡ (view 2).packages
      → IsAcyclic (packages_of t c.project_id (view 2).packages)
      → IsAcyclic (packages_of t c.project_id out.1.packages)
  accepted-IsAcyclic actor c out (allowed, accepted, written) alone acyclic =
      written-IsAcyclic t c (view 2).packages out.1.packages written (rw alone at accepted) acyclic

  -- Creating and updating a work package keep the graph of its project acyclic, when no other caller
  -- writes packages between the handler's reading of the packages and its write.
  pub PackageWrite-IsAcyclic :
      (c : WorkPackage) (out : WorkPackage × WorkQualityStore t)
      → PackageWrite c out
      → (view 1).packages ≡ (view 2).packages
      → IsAcyclic (packages_of t c.project_id (view 2).packages)
      → IsAcyclic (packages_of t c.project_id out.1.packages)
  PackageWrite-IsAcyclic c out (creates actor _ _ h) =
      accepted-IsAcyclic actor c out (create_work_package_sound actor c out h)
  PackageWrite-IsAcyclic c out (updates actor _ expected _ h) =
      accepted-IsAcyclic actor c out (update_work_package_sound actor c expected out h).0
