-- ===== src/Authority.antt =====
-- Roles, actions and the authority service: packages/core/src/authority.ts, over the tables of
-- packages/persistence/src/authority-repository.ts. A `Promise` that rejects is an `err`; a
-- transaction that throws leaves the store of its caller, since the new store is part of the `ok`.
pub mod Model
pub mod Access
pub mod Bootstrap
pub mod Grants
unfoldable pub use Model.*
use software_blueprint_hub.Shared.{
  String, Bool, true, false, ◌&&◌, ◌||◌, not, Option, none, some, List, [], ◌∷◌, ◌==◌,
  if◌then◌else◌, Error, Result, ok, err, ◌>>=◌, ◌>>◌, guard, check, plain_error,
  authentication_required, constitutional_authority_denied, owner_bootstrap_conflict,
  authorization_denied, filter,
}
use Prim.Native.Nat.{ℕ}
use Prim.Native.String.{◌++◌ as ◌+++◌}
use software_blueprint_hub.Shared.Sorting.{sort}
use software_blueprint_hub.Shared.Text.{trim, is_blank, text_le}
use software_blueprint_hub.Shared.Table.{Table, text_key, pair_key}

module _ (t : AuthorityTables) where
  open t use {principal, system_bootstrap, project_authority, audit_event}

  -- `row?.ownerPrincipalId === principalId`
  abbrev pub owned_by : String → Option SystemBootstrap → Bool
  owned_by id none = false
  owned_by id (some row) = row.owner_principal_id == id

  unfoldable pub is_system_owner : String → AuthorityStore t → Bool
  is_system_owner id s = owned_by id (system_bootstrap.find_unique "system" s.bootstraps)

  -- `row?.role ? row.role : null`
  abbrev pub role_of : Option ProjectRoleAssignment → Option ProjectRole
  role_of none = none
  role_of (some row) = some row.role

  unfoldable pub find_project_role : String → String → AuthorityStore t → Option ProjectRole
  find_project_role project principal_id s =
      role_of (project_authority.find_unique (project, principal_id) s.roles)

  -- `AuthorityService.canExerciseConstitutionalAuthority`
  unfoldable pub can_exercise_constitutional_authority :
      Option AuthenticatedActor → AuthorityStore t → Bool
  can_exercise_constitutional_authority none s = false
  can_exercise_constitutional_authority (some actor) s = is_system_owner actor.principal_id s

  unfoldable pub require_constitutional_authority :
      Option AuthenticatedActor → AuthorityStore t → Result (Unit {0})
  require_constitutional_authority actor s =
      guard (can_exercise_constitutional_authority actor s) constitutional_authority_denied

  abbrev pub allowed_by : Option ProjectRole → AuthorityAction → Bool
  allowed_by none action = false
  allowed_by (some role) action = role_allows role action

  -- `AuthorityService.can`. Its two reads, of the owner and of the role, are of one snapshot here.
  unfoldable pub can :
      Option AuthenticatedActor → String → AuthorityAction → AuthorityStore t → Bool
  can none project action s = false
  can (some actor) project action s =
      if is_system_owner actor.principal_id s
      then true
      else allowed_by (find_project_role project actor.principal_id s) action

  -- `AuthorityService.require`
  unfoldable pub require :
      Option AuthenticatedActor → String → AuthorityAction → AuthorityStore t → Result (Unit {0})
  require actor project action s =
      guard (can actor project action s) (authorization_denied (action_text action) project)

  -- `AuthorityService.readableProjectScope`
  unfoldable pub readable_project_scope :
      (String → String → Bool)
      → Option AuthenticatedActor
      → AuthorityStore t
      → Result ProjectReadScope
  readable_project_scope le none s = err authentication_required
  readable_project_scope le (some actor) s =
      if is_system_owner actor.principal_id s
      then ok all_projects
      else ok (
          projects (
            sort (assignment_le le) (
              filter reads
                (project_authority.find_many (λ a. a.principal_id == actor.principal_id) s.roles))))

  abbrev pub created {ℓ} : {A : Type ℓ} → Option A → Error → Result A
  created none e = err e
  created (some a) e = ok a

  -- `setProjectRole`, a transaction: the role is written, and an audit row is added. `uuid` is what
  -- `randomUUID` gives.
  unfoldable pub set_project_role :
      String
      → ProjectRoleAssignment
      → AuthorityAuditInput
      → AuthorityStore t
      → Result (ProjectRoleAssignment × AuthorityStore t)
  set_project_role uuid assignment audit s = do
    audits ← created (audit_event.create (audit_row uuid audit) s.audits) (plain_error "P2002")
    ok (
      assignment,
      record s { roles = project_authority.upsert assignment s.roles; audits = audits },
    )

  -- `AuthorityService.grantProjectRole`. The right is asked first, and the role is written by a
  -- transaction that starts after it: `view n` is the database as the `n`-th of the two sees it.
  unfoldable pub grant_project_role :
      String
      → Option AuthenticatedActor
      → ProjectRoleAssignment
      → (ℕ → AuthorityStore t)
      → Result (ProjectRoleAssignment × AuthorityStore t)
  grant_project_role uuid actor assignment view = do
    require actor assignment.project_id role_manage (view 0)
    set_project_role uuid assignment (grant_audit (principal_of actor) assignment) (view 1)

  abbrev pub validate_identity : AuthenticatedIdentity → Result (Unit {0})
  validate_identity i =
      check (not (is_blank (trim i.provider) || is_blank (trim i.provider_subject)))
        "Authenticated identity requires provider and providerSubject"

  -- The row that `principal.upsert` leaves.
  abbrev pub upserted : String → AuthenticatedIdentity → Option PrincipalRecord → PrincipalRecord
  upserted uuid i none = record {
    id = "principal:" +++ uuid;
    provider = i.provider;
    provider_subject = i.provider_subject;
    email = i.email;
  }
  upserted uuid i (some row) = record row { email = i.email }

  unfoldable pub upsert_principal :
      String → AuthenticatedIdentity → AuthorityStore t → PrincipalRecord
  upsert_principal uuid i s =
      upserted uuid i (principal.find_unique (i.provider, i.provider_subject) s.principals)

  unfoldable pub resolve_principal :
      String
      → AuthenticatedIdentity
      → AuthorityStore t
      → Result (PrincipalRecord × AuthorityStore t)
  unfolding upsert_principal trim
  resolve_principal uuid i s = do
    validate_identity i
    let p = upsert_principal uuid i s
    ok (p, record s { principals = principal.upsert p s.principals })

  abbrev pub not_bootstrapped : Option SystemBootstrap → Bool
  not_bootstrapped none = true
  not_bootstrapped (some row) = false

  -- `bootstrapOwner`, a transaction; a unique violation in it is reported as the same conflict.
  unfoldable pub bootstrap_owner :
      String
      → String
      → AuthenticatedIdentity
      → AuthorityStore t
      → Result (PrincipalRecord × AuthorityStore t)
  unfolding upsert_principal trim
  bootstrap_owner uuid audit_uuid i s = do
    validate_identity i
    guard (not_bootstrapped (system_bootstrap.find_unique "system" s.bootstraps))
        owner_bootstrap_conflict
    let p = upsert_principal uuid i s
    bootstraps ←
        created
          (system_bootstrap.create (record { id = "system"; owner_principal_id = p.id })
            s.bootstraps)
          owner_bootstrap_conflict
    audits ←
        created (audit_event.create (audit_row audit_uuid (bootstrap_audit p)) s.audits)
          owner_bootstrap_conflict
    ok (
      p,
      record {
        principals = principal.upsert p s.principals;
        bootstraps = bootstraps;
        roles = s.roles;
        audits = audits;
      },
    )
