-- ===== src/Authority/Bootstrap.antt =====
-- The one owner of the system: `bootstrapOwner`.
use software_blueprint_hub.Shared.{
  String, ◌≡◌, ◌↔◌, true, some, arith, eq_iff, ok, err, owner_bootstrap_conflict,
}
use software_blueprint_hub.Authority.{
  AuthenticatedActor, AuthenticatedIdentity, PrincipalRecord, SystemBootstrap, AuthorityTables,
  AuthorityAuditInput, ProjectRoleAssignment, set_project_role, resolve_principal, AuthorityStore,
  is_system_owner, bootstrap_owner, validate_identity, can_exercise_constitutional_authority,
}

module _ (t : AuthorityTables) where
  abbrev pub first_owner : PrincipalRecord → SystemBootstrap
  first_owner p = record { id = "system"; owner_principal_id = p.id }

  bootstrap_owner-created :
      (uuid audit_uuid : String) (i : AuthenticatedIdentity) (p : PrincipalRecord)
      (s s' : AuthorityStore t)
      → bootstrap_owner t uuid audit_uuid i s ≡ ok (p, s')
      → t.system_bootstrap.create (first_owner p) s.bootstraps ≡ some s'.bootstraps
  unfolding bootstrap_owner
  bootstrap_owner-created uuid audit_uuid i p s s' h = ground arith

  bootstrap_owner-found :
      (uuid audit_uuid : String) (i : AuthenticatedIdentity) (p : PrincipalRecord)
      (s s' : AuthorityStore t)
      → bootstrap_owner t uuid audit_uuid i s ≡ ok (p, s')
      → t.system_bootstrap.find_unique "system" s'.bootstraps ≡ some (first_owner p)
  bootstrap_owner-found uuid audit_uuid i p s s' h =
      t.system_bootstrap.find-create (first_owner p) s.bootstraps s'.bootstraps "system"
        (bootstrap_owner-created uuid audit_uuid i p s s' h)

  -- After a successful bootstrap exactly the bootstrapped principal owns the system and may exercise
  -- constitutional authority.
  pub bootstrap-owns :
      (uuid audit_uuid : String) (i : AuthenticatedIdentity) (p : PrincipalRecord)
      (s s' : AuthorityStore t) (actor : AuthenticatedActor)
      → bootstrap_owner t uuid audit_uuid i s ≡ ok (p, s')
      → (can_exercise_constitutional_authority t (some actor) s' ≡ true)
        ↔ (p.id ≡ actor.principal_id)
  unfolding can_exercise_constitutional_authority is_system_owner
  bootstrap-owns uuid audit_uuid i p s s' actor h =
      rw (bootstrap_owner-found uuid audit_uuid i p s s' h) (eq_iff p.id actor.principal_id)

  -- One write of any caller to the authority tables.
  pub data Write : AuthorityStore t → AuthorityStore t → Type 0 where
    bootstrap :
        {s s' : AuthorityStore t} (uuid audit_uuid : String) (i : AuthenticatedIdentity)
        (p : PrincipalRecord)
        → bootstrap_owner t uuid audit_uuid i s ≡ ok (p, s')
        → Write s s'
    resolve :
        {s s' : AuthorityStore t} (uuid : String) (i : AuthenticatedIdentity) (p : PrincipalRecord)
        → resolve_principal t uuid i s ≡ ok (p, s')
        → Write s s'
    set_role :
        {s s' : AuthorityStore t} (uuid : String) (a b : ProjectRoleAssignment)
        (audit : AuthorityAuditInput)
        → set_project_role t uuid a audit s ≡ ok (b, s')
        → Write s s'

  -- Any number of writes of any callers.
  pub data Later (s : AuthorityStore t) : AuthorityStore t → Type 0 where
    now : Later s s
    next : {s' s'' : AuthorityStore t} → Later s s' → Write s' s'' → Later s s''

  abbrev HasOwner : PrincipalRecord → AuthorityStore t → Type 0
  HasOwner p s = t.system_bootstrap.find_unique "system" s.bootstraps ≡ some (first_owner p)

  Write-HasOwner :
      (p : PrincipalRecord) {s s' : AuthorityStore t} → Write s s' → HasOwner p s → HasOwner p s'
  unfolding bootstrap_owner resolve_principal set_project_role
  Write-HasOwner p (bootstrap uuid audit_uuid i q e) h = ground arith
  Write-HasOwner p (resolve uuid i q e) h = ground arith
  Write-HasOwner p (set_role uuid a b audit e) h = ground arith

  Later-HasOwner :
      (p : PrincipalRecord) {s s' : AuthorityStore t} → Later s s' → HasOwner p s → HasOwner p s'
  Later-HasOwner p now h = h
  Later-HasOwner p (next r w) h = Write-HasOwner p w (Later-HasOwner p r h)

  -- The owner is bootstrapped once: after a success, and after any writes of any callers to the
  -- authority tables that follow it, an attempt with a valid identity is refused with the bootstrap
  -- conflict.
  pub bootstrap_once :
      (uuid audit_uuid uuid' audit_uuid' : String) (i j : AuthenticatedIdentity)
      (p : PrincipalRecord) (s s' later : AuthorityStore t)
      → bootstrap_owner t uuid audit_uuid i s ≡ ok (p, s')
      → Later s' later
      → validate_identity t j ≡ ok tt
      → bootstrap_owner t uuid' audit_uuid' j later ≡ err owner_bootstrap_conflict
  unfolding bootstrap_owner
  bootstrap_once uuid audit_uuid uuid' audit_uuid' i j p s s' later h writes valid =
      rw (valid, Later-HasOwner p writes (bootstrap_owner-found uuid audit_uuid i p s s' h))
