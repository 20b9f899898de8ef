-- ===== src/Examples/Access.antt =====
-- The authority theorems at concrete inputs.
use Prim.Native.Nat.{ℕ, zero, suc}
use software_blueprint_hub.Shared.{
  String, ◌≡◌, refl, ◌↔◌, ◌⊎◌, Bool, true, false, Option, none, some, List, [], ◌∷◌, Result, ok,
  err, All, if◌then◌else◌, owner_bootstrap_conflict,
}
use software_blueprint_hub.Shared.Text.{text_le}
use software_blueprint_hub.Shared.Table.{pair_eq}
use software_blueprint_hub.Authority.{
  viewer, project_read, project_mutate, role_manage, ProjectRoleAssignment, PrincipalRecord,
  AuthorityStore, projects, can, can_exercise_constitutional_authority, readable_project_scope,
  grant_project_role, grant_audit, principal_of, is_system_owner, role_allows, bootstrap_owner,
  set_project_role,
}
use software_blueprint_hub.Authority.Access.{
  OwnsSystem, HasRight, can_iff, readable_project_scope_sound,
}
use software_blueprint_hub.Authority.Grants.{IsRoleSet, grant_project_role_sound, grant-can}
use software_blueprint_hub.Authority.Bootstrap.{now, next, set_role, bootstrap-owns, bootstrap_once}
use software_blueprint_hub.Examples.Tables.{
  authority_tables, returned, ada, bob, ada_identity, bob_edits, empty_store, owned_store,
}

can_iff_example : (can authority_tables (some bob) "hub" project_mutate owned_store ≡ true) ↔ (
    OwnsSystem authority_tables "bob" owned_store
    ⊎ HasRight authority_tables "bob" "hub" project_mutate owned_store)
can_iff_example = can_iff authority_tables bob "hub" project_mutate owned_store

readable_project_scope_sound_example :
    All
      (λ a. can authority_tables (some bob) a.project_id project_read owned_store ≡ true)
      (bob_edits ∷ [])
unfolding readable_project_scope is_system_owner software_blueprint_hub.Shared.Sorting.sort
    role_allows
readable_project_scope_sound_example =
    readable_project_scope_sound authority_tables text_le bob owned_store (bob_edits ∷ []) refl

abbrev carol_views : ProjectRoleAssignment
carol_views = record { project_id = "hub"; principal_id = "carol"; role = viewer }

-- Between the question for Ada's right and the write, Dora is made a viewer by another caller.
abbrev dora_views : ProjectRoleAssignment
dora_views = record { project_id = "hub"; principal_id = "dora"; role = viewer }

abbrev meanwhile : AuthorityStore authority_tables
meanwhile = record owned_store { roles = dora_views ∷ owned_store.roles }

abbrev granting : ℕ → AuthorityStore authority_tables
granting zero = owned_store
granting (suc n) = meanwhile

-- The store after Ada has let Carol view the project.
abbrev granted_store : AuthorityStore authority_tables
unfolding grant_project_role
granted_store =
    (returned (grant_project_role authority_tables "u1" (some ada) carol_views granting)
      (carol_views, owned_store)).1

grant_project_role_sound_example :
    (can authority_tables (some ada) "hub" role_manage owned_store ≡ true)
    × IsRoleSet authority_tables "u1" carol_views
        (grant_audit "ada" carol_views)
        meanwhile
        granted_store
unfolding grant_project_role software_blueprint_hub.Authority.require can is_system_owner
    software_blueprint_hub.Authority.set_project_role
grant_project_role_sound_example =
    grant_project_role_sound authority_tables "u1" (some ada) carol_views carol_views granting
      granted_store refl

grant-can_example :
    can authority_tables (some (record { principal_id = "carol" })) "hub" project_read granted_store
    ≡ (if is_system_owner authority_tables "carol" meanwhile
        then true
        else if pair_eq ("hub", "carol") ("hub", "carol")
        then role_allows viewer project_read
        else can authority_tables
            (some (record { principal_id = "carol" }))
            "hub"
            project_read
            meanwhile)
unfolding grant_project_role software_blueprint_hub.Authority.require can is_system_owner
    software_blueprint_hub.Authority.set_project_role
grant-can_example =
    grant-can authority_tables "u1" (some ada) carol_views carol_views granting granted_store
      (record { principal_id = "carol" }) "hub" project_read refl

abbrev ada_principal : PrincipalRecord
ada_principal = record {
  id = "principal:u1";
  provider = "github";
  provider_subject = "1";
  email = none;
}

-- The store after Ada's bootstrap.
abbrev bootstrapped_store : AuthorityStore authority_tables
unfolding bootstrap_owner
bootstrapped_store =
    (returned (bootstrap_owner authority_tables "u1" "u2" ada_identity empty_store)
      (ada_principal, empty_store)).1

bootstrap-owns_example :
    (can_exercise_constitutional_authority authority_tables
        (some (record { principal_id = "principal:u1" }))
        bootstrapped_store
      ≡ true)
    ↔ (ada_principal.id ≡ "principal:u1")
unfolding bootstrap_owner
bootstrap-owns_example =
    bootstrap-owns authority_tables "u1" "u2" ada_identity ada_principal empty_store
      bootstrapped_store (record { principal_id = "principal:u1" }) refl

-- The store after a role is set, too.
abbrev later_store : AuthorityStore authority_tables
unfolding software_blueprint_hub.Authority.set_project_role
later_store =
    (returned
      (set_project_role authority_tables "u5" carol_views (grant_audit "x" carol_views)
        bootstrapped_store)
      (carol_views, empty_store)).1

bootstrap_once_example :
    bootstrap_owner authority_tables "u3" "u4"
      (record { provider = "github"; provider_subject = "2"; email = none })
      later_store
    ≡ err owner_bootstrap_conflict
unfolding bootstrap_owner set_project_role
bootstrap_once_example =
    bootstrap_once authority_tables "u1" "u2" "u3" "u4" ada_identity
      (record { provider = "github"; provider_subject = "2"; email = none }) ada_principal
      empty_store bootstrapped_store later_store refl
      (next now (set_role "u5" carol_views carol_views (grant_audit "x" carol_views) refl)) refl
