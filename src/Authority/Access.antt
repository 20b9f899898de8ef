-- ===== src/Authority/Access.antt =====
-- Who may do what: packages/core/src/authority.ts.
use software_blueprint_hub.Shared.{
  String, ◌≡◌, refl, ◌↔◌, ◌⊎◌, inl, inr, Bool, true, some, List, [], ◌∷◌, arith, eq_iff, ◌==◌, ok,
  filter, In, Bool-cases, Option-cases, All,
}
use software_blueprint_hub.Shared.Sorting.{sort, sort-All}
use software_blueprint_hub.Authority.{
  ProjectRole, owner, editor, reviewer, viewer, AuthorityAction, project_read, project_mutate,
  project_review, AuthenticatedActor, ProjectRoleAssignment, SystemBootstrap, AuthorityTables,
  AuthorityStore, role_allows, reads, assignment_le, is_system_owner, find_project_role, allowed_by,
  can, readable_project_scope, projects,
}

-- The rights of each role, as the constitution of a project states them.
pub data Grants : ProjectRole → AuthorityAction → Type 0 where
  owner_all : (a : AuthorityAction) → Grants owner a
  editor_reads : Grants editor project_read
  editor_mutates : Grants editor project_mutate
  reviewer_reads : Grants reviewer project_read
  reviewer_reviews : Grants reviewer project_review
  viewer_reads : Grants viewer project_read

pub role_allows_sound :
    (r : ProjectRole) (a : AuthorityAction) → role_allows r a ≡ true → Grants r a
unfolding role_allows
role_allows_sound owner a h = owner_all a
role_allows_sound editor project_read h = editor_reads
role_allows_sound editor project_mutate h = editor_mutates
role_allows_sound reviewer project_read h = reviewer_reads
role_allows_sound reviewer project_review h = reviewer_reviews
role_allows_sound viewer project_read h = viewer_reads
role_allows_sound _ _ h = cc

pub role_allows_complete :
    {r : ProjectRole} {a : AuthorityAction} → Grants r a → role_allows r a ≡ true
unfolding role_allows
role_allows_complete (owner_all a) = refl
role_allows_complete editor_reads = refl
role_allows_complete editor_mutates = refl
role_allows_complete reviewer_reads = refl
role_allows_complete reviewer_reviews = refl
role_allows_complete viewer_reads = refl

module _ (t : AuthorityTables) where
  -- The bootstrap row names this principal.
  abbrev pub OwnsSystem : String → AuthorityStore t → Type 0
  OwnsSystem id s =
      (row : SystemBootstrap) × (t.system_bootstrap.find_unique "system" s.bootstraps ≡ some row)
      × (row.owner_principal_id ≡ id)

  -- A stored assignment gives the principal a role with the right.
  abbrev pub HasRight : String → String → AuthorityAction → AuthorityStore t → Type 0
  HasRight id project action s =
      (row : ProjectRoleAssignment) × (t.project_authority.find_unique (project, id) s.roles
        ≡ some row)
      × Grants row.role action

  pub is_system_owner_iff :
      (id : String) (s : AuthorityStore t) → (is_system_owner t id s ≡ true) ↔ OwnsSystem id s
  unfolding is_system_owner
  is_system_owner_iff id s =
      elim (Option-cases (t.system_bootstrap.find_unique "system" s.bootstraps)) [
        | inl e ↦ (λ h. absurd (ground arith), λ (row, f, o). absurd (ground arith))
        | inr (row, e) ↦ (
          λ h. (row, e, (eq_iff row.owner_principal_id id).0 (rw e at h)),
          λ (row', f, o). rw e ((eq_iff row.owner_principal_id id).1 (ground arith)),
        )
      ]

  allowed_by_iff :
      (id project : String) (action : AuthorityAction) (s : AuthorityStore t)
      → (allowed_by t (find_project_role t project id s) action ≡ true)
        ↔ HasRight id project action s
  unfolding find_project_role
  allowed_by_iff id project action s =
      elim (Option-cases (t.project_authority.find_unique (project, id) s.roles)) [
        | inl e ↦ (λ h. absurd (ground arith), λ (row, f, o). absurd (ground arith))
        | inr (row, e) ↦ (
          λ h. (row, e, role_allows_sound row.role action (ground arith)),
          λ (row', f, o). let g = role_allows_complete o in ground arith,
        )
      ]

  -- The action is allowed exactly when the actor owns the system or holds a role with that right on
  -- the project.
  pub can_iff :
      (actor : AuthenticatedActor) (project : String) (action : AuthorityAction)
      (s : AuthorityStore t)
      → (can t (some actor) project action s ≡ true)
        ↔ (OwnsSystem actor.principal_id s ⊎ HasRight actor.principal_id project action s)
  unfolding can
  can_iff actor project action s =
      let owns = is_system_owner_iff actor.principal_id s in
      let right = allowed_by_iff actor.principal_id project action s in
      elim (Bool-cases (is_system_owner t actor.principal_id s)) [
        | inl e ↦ (λ h. inl (owns.0 e), λ k. rw e refl)
        | inr e ↦ (
          λ h. inr (right.0 (rw e at h)),
          elim [ inl o ↦ rw (owns.1 o) refl | inr r ↦ rw e (right.1 r) ],
        )
      ]

  -- What a list of rows of one principal holds, each row being in the table.
  filter-All :
      (actor : AuthenticatedActor) (s : AuthorityStore t) (rows : List ProjectRoleAssignment)
      → ((a : ProjectRoleAssignment)
          → In a rows
          → (t.project_authority.find_unique (a.project_id, a.principal_id) s.roles ≡ some a)
            × ((a.principal_id == actor.principal_id) ≡ true))
      → All (λ a. can t (some actor) a.project_id project_read s ≡ true) (filter reads rows)
  filter-All actor s [] h = tt
  filter-All actor s (a ∷ rows) h =
      let rest = filter-All actor s rows (λ b i. h b (inr i)) in
      let (f, own) = h a (inl refl) in
      let same : a.principal_id ≡ actor.principal_id = (eq_iff _ _).0 own in
      elim (Bool-cases (reads a)) [
        | inl e ↦ rw e (
          (can_iff actor a.project_id project_read s).1
              (inr (a, rw (← same) f, role_allows_sound a.role project_read e)),
          rest,
        )
        | inr e ↦ rw e rest
      ]

  -- Every project that the scope lists for a principal who does not own the system is one that the
  -- principal may read.
  pub readable_project_scope_sound :
      (le : String → String → Bool) (actor : AuthenticatedActor) (s : AuthorityStore t)
      (assignments : List ProjectRoleAssignment)
      → readable_project_scope t le (some actor) s ≡ ok (projects assignments)
      → All (λ a. can t (some actor) a.project_id project_read s ≡ true) assignments
  unfolding readable_project_scope
  readable_project_scope_sound le actor s assignments h =
      elim (Bool-cases (is_system_owner t actor.principal_id s)) [
        | inl e ↦ absurd (ground arith)
        | inr e ↦
            let same : sort (assignment_le le) (
                  filter reads (
                    t.project_authority.find_many (λ a. a.principal_id == actor.principal_id)
                      s.roles))
                ≡ assignments =
              ground arith in
            rw (← same) (
              sort-All (assignment_le le) _ _
                (filter-All actor s _ (t.project_authority.find-many _ s.roles)))
      ]
