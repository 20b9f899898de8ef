-- ===== src/WorkQuality/Readiness.antt =====
-- `explainWorkPackageReadiness` of packages/core/src/work-quality.ts.
use Prim.Native.String.{◌++◌ as ◌+++◌}
use software_blueprint_hub.Shared.{
  String, ◌≡◌, refl, ◌↔◌, ◌⊎◌, inl, inr, true, false, Option, none, some, List, [], ◌∷◌, ◌++◌,
  arith, if◌then◌else◌, All, All-append, All-imp, In, Bool-cases, Option-cases,
}
use software_blueprint_hub.WorkQuality.{PackageStatus, status_text, is_completed, WorkPackage}
use software_blueprint_hub.WorkQuality.Dependencies.{by_id}

-- The status of a blocker: none for `"missing"`.
pub record WorkPackageBlocker : Type 0 where
  pub dependency_id : String
  pub status : Option PackageStatus
  pub reason : String

pub data ReadinessState : Type 0 where
  is_ready is_blocked : ReadinessState

pub record WorkPackageReadiness : Type 0 where
  pub state : ReadinessState
  pub blockers : List WorkPackageBlocker

abbrev pub blocker_of : String → Option WorkPackage → List WorkPackageBlocker
blocker_of id none =
    record {
      dependency_id = id;
      status = none;
      reason = "Dependency " +++ id +++ " does not exist in this project";
    }
    ∷ []
blocker_of id (some d) =
    if is_completed d.status
    then []
    else record {
      dependency_id = id;
      status = some d.status;
      reason = "Dependency " +++ id +++ " is " +++ status_text d.status +++ ", not completed";
    }
      ∷ []

abbrev pub blockers_of : List WorkPackage → List String → List WorkPackageBlocker
blockers_of packages [] = []
blockers_of packages (id ∷ ids) = blocker_of id (by_id packages id) ++ blockers_of packages ids

abbrev pub state_of : List WorkPackageBlocker → ReadinessState
state_of [] = is_ready
state_of (b ∷ bs) = is_blocked

unfoldable pub explain_work_package_readiness :
    WorkPackage → List WorkPackage → WorkPackageReadiness
explain_work_package_readiness p packages =
    let blockers = blockers_of packages p.dependencies in
    record { state = state_of blockers; blockers = blockers }

-- The dependency exists and is completed.
abbrev pub IsDone : List WorkPackage → String → Type 0
IsDone packages id =
    (d : WorkPackage) × (by_id packages id ≡ some d) × (is_completed d.status ≡ true)

-- The blocker is of one of these dependencies, that does not exist or has another status than
-- completed.
abbrev pub IsBlocking : List WorkPackage → List String → WorkPackageBlocker → Type 0
IsBlocking packages ids b =
    In b.dependency_id ids
    × (((by_id packages b.dependency_id ≡ none) × (b.status ≡ none))
        ⊎ ((d : WorkPackage) × (by_id packages b.dependency_id ≡ some d)
            × (b.status ≡ some d.status)
            × (is_completed d.status ≡ false)))

blockers_of_iff :
    (packages : List WorkPackage) (ids : List String)
    → (state_of (blockers_of packages ids) ≡ is_ready) ↔ All (IsDone packages) ids
blockers_of_iff packages [] = (λ h. tt, λ h. refl)
blockers_of_iff packages (id ∷ ids) =
    let (to, from) = blockers_of_iff packages ids in
    elim (Option-cases (by_id packages id)) [
      | inl e ↦
          (λ h. absurd (ground arith), λ h. let (d, found, done) = h.0 in absurd (ground arith))
      | inr (d, e) ↦ elim (Bool-cases (is_completed d.status)) [
        | inl done ↦ (λ h. ((d, e, done), to (rw (e, done) at h)), λ h. rw (e, done) (from h.1))
        | inr other ↦
            (λ h. absurd (ground arith), λ h. let (d', found, done) = h.0 in absurd (ground arith))
      ]
    ]

blockers_of-IsBlocking :
    (packages : List WorkPackage) (ids : List String)
    → All (IsBlocking packages ids) (blockers_of packages ids)
blockers_of-IsBlocking packages [] = tt
blockers_of-IsBlocking packages (id ∷ ids) =
    All-append (IsBlocking packages (id ∷ ids)) (blocker_of id (by_id packages id))
      (blockers_of packages ids)
      (elim (Option-cases (by_id packages id)) [
        | inl e ↦ rw e ((inl refl, inl (e, refl)), tt)
        | inr (d, e) ↦ elim (Bool-cases (is_completed d.status)) [
          | inl done ↦ rw (e, done) tt
          | inr other ↦ rw (e, other) ((inl refl, inr (d, e, refl, other)), tt)
        ]
      ])
      (All-imp (IsBlocking packages ids) (IsBlocking packages (id ∷ ids)) (blockers_of packages ids)
        (λ b (there, why). (inr there, why)) (blockers_of-IsBlocking packages ids))

-- A work package is ready exactly when all its dependencies exist and are completed; and every
-- blocker names one of its dependencies, that does not exist or has another status, which it gives.
pub readiness_iff :
    (p : WorkPackage) (packages : List WorkPackage)
    → ((explain_work_package_readiness p packages).state ≡ is_ready
        ↔ All (IsDone packages) p.dependencies)
      × All
          (IsBlocking packages p.dependencies)
          (explain_work_package_readiness p packages).blockers
unfolding explain_work_package_readiness
readiness_iff p packages =
    (blockers_of_iff packages p.dependencies, blockers_of-IsBlocking packages p.dependencies)
