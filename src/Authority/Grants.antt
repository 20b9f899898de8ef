-- ===== src/Authority/Grants.antt =====
-- Granting a role: `grantProjectRole` and `setProjectRole`.
use Prim.Native.Nat.{ℕ}
use software_blueprint_hub.Shared.{
  String, ◌≡◌, refl, inl, inr, true, Option, some, arith, ok, guard-eq-ok, if◌then◌else◌,
  Bool-cases,
}
use software_blueprint_hub.Shared.Table.{pair_eq}
use software_blueprint_hub.Authority.{
  AuthorityAction, role_manage, AuthenticatedActor, ProjectRoleAssignment, AuthorityAuditInput,
  AuthorityTables, AuthorityStore, role_allows, is_system_owner, find_project_role, can, require,
  set_project_role, grant_project_role, grant_audit, audit_row, principal_of,
}

module _ (t : AuthorityTables) where
  -- What a stored role changes: the row of its key, one audit row, and nothing else.
  pub record IsRoleSet (uuid : String) (a : ProjectRoleAssignment) (audit : AuthorityAuditInput)
      (s s' : AuthorityStore t) : Type 0 where
    pub written : s'.roles ≡ t.project_authority.upsert a s.roles
    pub audited : t.audit_event.create (audit_row uuid audit) s.audits ≡ some s'.audits
    pub same_owner : s'.bootstraps ≡ s.bootstraps
    pub same_principals : s'.principals ≡ s.principals

  set_project_role-IsRoleSet :
      (uuid : String) (a b : ProjectRoleAssignment) (audit : AuthorityAuditInput)
      (s s' : AuthorityStore t)
      → set_project_role t uuid a audit s ≡ ok (b, s')
      → IsRoleSet uuid a audit s s'
  unfolding set_project_role
  set_project_role-IsRoleSet uuid a b audit s s' h = ground arith

  -- A successful grant was made by an actor who, when the right was asked, had ROLE_MANAGE on the
  -- project. To the store that the later write finds, whatever happened in between, it adds the
  -- assignment and an audit row that names the actor, the principal, the project and the role, and
  -- it changes nothing else.
  pub grant_project_role_sound :
      (uuid : String) (actor : Option AuthenticatedActor) (a b : ProjectRoleAssignment)
      (view : ℕ → AuthorityStore t) (s' : AuthorityStore t)
      → grant_project_role t uuid actor a view ≡ ok (b, s')
      → (can t actor a.project_id role_manage (view 0) ≡ true)
        × IsRoleSet uuid a (grant_audit (principal_of actor) a) (view 1) s'
  unfolding grant_project_role require
  grant_project_role_sound uuid actor a b view s' h =
      let (allowed, rest) = guard-eq-ok (can t actor a.project_id role_manage (view 0)) _ _ h in
      (allowed, set_project_role-IsRoleSet uuid a b _ (view 1) s' rest)

  find_project_role-after :
      (uuid : String) (a : ProjectRoleAssignment) (audit : AuthorityAuditInput)
      (s s' : AuthorityStore t)
      → IsRoleSet uuid a audit s s'
      → (project id : String)
      → find_project_role t project id s' ≡ (
          if pair_eq (a.project_id, a.principal_id) (project, id)
          then some a.role
          else find_project_role t project id s)
  unfolding find_project_role
  find_project_role-after uuid a audit s s' h project id = rw h.written (
      rw (t.project_authority.find-upsert a s.roles (project, id))
        (elim (Bool-cases (pair_eq (a.project_id, a.principal_id) (project, id))) [
          | inl e ↦ rw e refl
          | inr e ↦ rw e refl
        ]))

  -- After a successful grant, the right of any actor to any action on any project is: always, for
  -- the system's owner; by the granted role, for the principal and the project of the grant; and,
  -- for every other pair, as in the store that the write found.
  pub grant-can :
      (uuid : String) (by : Option AuthenticatedActor) (a b : ProjectRoleAssignment)
      (view : ℕ → AuthorityStore t) (s' : AuthorityStore t) (actor : AuthenticatedActor)
      (project : String) (action : AuthorityAction)
      → grant_project_role t uuid by a view ≡ ok (b, s')
      → can t (some actor) project action s' ≡ (
          if is_system_owner t actor.principal_id (view 1)
          then true
          else if pair_eq (a.project_id, a.principal_id) (project, actor.principal_id)
          then role_allows a.role action
          else can t (some actor) project action (view 1))
  unfolding can is_system_owner
  grant-can uuid by a b view s' actor project action h =
      let (allowed, set) = grant_project_role_sound uuid by a b view s' h in
      rw (set.same_owner) (
        ground (arith, find_project_role-after uuid a _ (view 1) s' set project actor.principal_id))
