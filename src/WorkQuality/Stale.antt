-- ===== src/WorkQuality/Stale.antt =====
-- Updates by a version that another update has already replaced:
-- packages/persistence/src/work-quality-repository.ts.
use software_blueprint_hub.Shared.{
  ℕ, ◌+◌, ◌≤◌, String, ◌≡◌, ◌≢◌, ◌⊎◌, refl, sym, ap, ◌∙◌, inl, inr, Error, Result, Result-cases,
  Option-cases, >>=-eq-ok, Bool, false, ◌&&◌, none, some, ◌==◌, eq_iff, arith, Bool-cases, ok, err,
  nat_eq, nat_eq_iff, project_version_conflict,
}
use software_blueprint_hub.WorkQuality.{WorkPackage}
use software_blueprint_hub.WorkQuality.Store.{
  WorkQualityTables, WorkQualityStore, update_work_package, create_work_package, assert_valid,
}
use software_blueprint_hub.WorkQuality.Graph.{create-IsWritten, update-IsWritten}

module _ (t : WorkQualityTables) where
  open t use {work_package}

  -- An update that finds another version stored is refused.
  stale-eq-err :
      (c old : WorkPackage) (expected : ℕ) (s : WorkQualityStore t)
      → t.package_errors c ≡ none
      → c.record_version ≡ expected + 1
      → work_package.find_unique c.id s.packages ≡ some old
      → nat_eq old.record_version expected ≡ false
      → update_work_package t c expected s ≡ err (project_version_conflict c.project_id expected)
  unfolding update_work_package
  stale-eq-err c old expected s valid next stored other =
      let test : WorkPackage → Bool =
        λ row. row.project_id == c.project_id && nat_eq row.record_version expected in
      let miss : test old ≡ false = ground arith in
      let count : (work_package.update_many test c s.packages).0 ≡ 0 =
        work_package.count-update test c s.packages ∙ rw (stored, miss) refl in
      rw (valid, (nat_eq_iff c.record_version (expected + 1)).1 next, count) refl

  -- A write of the repository that succeeds, by whichever caller. One that writes no package may
  -- change anything else.
  pub data RowWrite : WorkQualityStore t → WorkQualityStore t → Type 0 where
    creates :
        {s : WorkQualityStore t} (c : WorkPackage) (out : WorkPackage × WorkQualityStore t)
        → create_work_package t c s ≡ ok out
        → RowWrite s out.1
    updates :
        {s : WorkQualityStore t} (c : WorkPackage) (expected : ℕ)
        (out : WorkPackage × WorkQualityStore t)
        → update_work_package t c expected s ≡ ok out
        → RowWrite s out.1
    elsewhere : {s s' : WorkQualityStore t} → s'.packages ≡ s.packages → RowWrite s s'

  pub data Afterwards (s : WorkQualityStore t) : WorkQualityStore t → Type 0 where
    at_once : Afterwards s s
    then_write :
        {s' s'' : WorkQualityStore t} → Afterwards s s' → RowWrite s' s'' → Afterwards s s''

  -- The package is stored, at this version or a later one.
  abbrev pub IsAtLeast : String → ℕ → WorkQualityStore t → Type 0
  IsAtLeast id version s =
      (c : WorkPackage) × (work_package.find_unique id s.packages ≡ some c)
      × (version ≤ c.record_version)

  created_rows :
      (c : WorkPackage) (s : WorkQualityStore t) (out : WorkPackage × WorkQualityStore t)
      → create_work_package t c s ≡ ok out
      → (rows : work_package.Rows) × (work_package.create c s.packages ≡ some rows)
  unfolding create_work_package
  created_rows c s out h =
      let (one, valid, h1) = >>=-eq-ok (assert_valid "WorkPackage" (t.package_errors c)) _ h in
      elim (Option-cases (work_package.create c s.packages)) [
        | inl e ↦ absurd (ground arith)
        | inr made ↦ made
      ]

  RowWrite-IsAtLeast :
      {s s' : WorkQualityStore t} (id : String) (version : ℕ)
      → RowWrite s s'
      → IsAtLeast id version s
      → IsAtLeast id version s'
  RowWrite-IsAtLeast {s} id version (creates c out h) (r, there, high) =
      let written = create-IsWritten t c s out h in
      elim (Bool-cases (c.id == id)) [
        | inl e ↦
            let (rows, made) = created_rows c s out h in
            let vacant : work_package.find_unique c.id s.packages ≡ none =
              work_package.create_fresh c s.packages rows made in
            let clash : none ≡ some r =
              sym vacant
              ∙ (ap (λ k. work_package.find_unique k s.packages) ((eq_iff c.id id).0 e) ∙ there) in
            absurd (ground arith)
        | inr e ↦ (r, rw (written id, e) there, high)
      ]
  RowWrite-IsAtLeast {s} id version (updates c expected out h) (r, there, high) =
      let (written, (old, found, own, before, after)) = update-IsWritten t c expected s out h in
      elim (Bool-cases (c.id == id)) [
        | inl e ↦
            let read : some old ≡ some r =
              sym found
              ∙ (ap (λ k. work_package.find_unique k s.packages) ((eq_iff c.id id).0 e) ∙ there) in
            let same : old ≡ r = ground arith in
            let low : old.record_version ≡ r.record_version = ap WorkPackage.record_version same in
            (c, rw (written id, e) refl, omega arith)
        | inr e ↦ (r, rw (written id, e) there, high)
      ]
  RowWrite-IsAtLeast id version (elsewhere e) (r, there, high) = (r, rw e there, high)

  Afterwards-IsAtLeast :
      {s s' : WorkQualityStore t} (id : String) (version : ℕ)
      → Afterwards s s'
      → IsAtLeast id version s
      → IsAtLeast id version s'
  Afterwards-IsAtLeast id version at_once h = h
  Afterwards-IsAtLeast id version (then_write a w) h =
      RowWrite-IsAtLeast id version w (Afterwards-IsAtLeast id version a h)

  -- Why the update was refused: the version conflict of its project, unless the record is not valid
  -- or does not carry the next version.
  abbrev pub IsRefusal : WorkPackage → ℕ → Result (WorkPackage × WorkQualityStore t) → Type 0
  IsRefusal c expected outcome =
      (outcome ≡ err (project_version_conflict c.project_id expected))
      ⊎ (t.package_errors c ≢ none)
      ⊎ (c.record_version ≢ expected + 1)

  high-IsRefusal :
      (c old : WorkPackage) (expected : ℕ) (s : WorkQualityStore t)
      → work_package.find_unique c.id s.packages ≡ some old
      → nat_eq old.record_version expected ≡ false
      → IsRefusal c expected (update_work_package t c expected s)
  high-IsRefusal c old expected s stored other = elim (Option-cases (t.package_errors c)) [
    | inr (message, e) ↦ inr (inl (λ valid. absurd cc))
    | inl valid ↦ elim (Bool-cases (nat_eq c.record_version (expected + 1))) [
      | inl e ↦ inl (stale-eq-err c old expected s valid ((nat_eq_iff _ _).0 e) stored other)
      | inr e ↦
          inr (inr (λ next. absurd (ground (arith, nat_eq_iff c.record_version (expected + 1)))))
    ]
  ]

  -- When an update of a work package has succeeded, another update of it that expects the same version
  -- is refused, whatever is written in between: with the version conflict of its project, unless its
  -- record is not valid or does not carry the version after the expected one.
  pub update_work_package_conflict :
      (first second : WorkPackage) (expected : ℕ) (s s' : WorkQualityStore t)
      (out : WorkPackage × WorkQualityStore t)
      → update_work_package t first expected s ≡ ok out
      → second.id ≡ first.id
      → Afterwards out.1 s'
      → ((e : Error) × (update_work_package t second expected s' ≡ err e))
        × IsRefusal second expected (update_work_package t second expected s')
  update_work_package_conflict first second expected s s' out h same later =
      let (written, (_, _, _, _, next)) = update-IsWritten t first expected s out h in
      let stored : work_package.find_unique second.id out.1.packages ≡ some first =
        ap (λ j. work_package.find_unique j out.1.packages) same
        ∙ written first.id
        ∙ rw ((eq_iff first.id first.id).1 refl) refl in
      let (c, there, high) =
        Afterwards-IsAtLeast second.id (expected + 1) later (first, stored, omega arith) in
      (
        elim (Result-cases (update_work_package t second expected s')) [
          | inr refused ↦ refused
          | inl (out', done) ↦
              let (_, (old, found, _, before, _)) =
                update-IsWritten t second expected s' out' done in
              let read : some old ≡ some c = sym found ∙ there in
              let equal : old ≡ c = ground arith in
              let low = ap WorkPackage.record_version equal in
              absurd (omega (arith, low, high, before))
        ],
        high-IsRefusal second c expected s' there
            (elim (Bool-cases (nat_eq c.record_version expected)) [
              | inl e ↦
                  let equal = (nat_eq_iff c.record_version expected).0 e in absurd (omega arith)
              | inr e ↦ e
            ]),
      )
