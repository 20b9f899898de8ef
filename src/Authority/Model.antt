-- ===== src/Authority/Model.antt =====
-- The records of packages/core/src/authority.ts, the rights of each role, and the tables of
-- packages/persistence/src/authority-repository.ts.
use software_blueprint_hub.Shared.{
  String, Bool, true, false, ◌&&◌, ◌||◌, not, Option, none, some, List,
}
use Prim.Native.String.{◌++◌ as ◌+++◌}
use software_blueprint_hub.Shared.Table.{Table, text_key, pair_key}

pub data ProjectRole : Type 0 where
  owner editor reviewer viewer : ProjectRole

pub data AuthorityAction : Type 0 where
  project_read project_mutate project_review project_admin role_manage : AuthorityAction

-- The text of an action, in messages and audit rows.
abbrev pub action_text : AuthorityAction → String
action_text project_read = "PROJECT_READ"
action_text project_mutate = "PROJECT_MUTATE"
action_text project_review = "PROJECT_REVIEW"
action_text project_admin = "PROJECT_ADMIN"
action_text role_manage = "ROLE_MANAGE"

abbrev pub role_text : ProjectRole → String
role_text owner = "OWNER"
role_text editor = "EDITOR"
role_text reviewer = "REVIEWER"
role_text viewer = "VIEWER"

pub record AuthenticatedIdentity : Type 0 where
  pub provider : String
  pub provider_subject : String
  pub email : Option String

pub record PrincipalRecord : Type 0 where
  pub id : String
  pub provider : String
  pub provider_subject : String
  pub email : Option String

pub record AuthenticatedActor : Type 0 where
  pub principal_id : String

pub record ProjectRoleAssignment : Type 0 where
  pub project_id : String
  pub principal_id : String
  pub role : ProjectRole

-- `detail` is the only field that differs by action: the provider of a bootstrap, the role of a
-- grant.
pub record AuthorityAudit : Type 0 where
  pub id : String
  pub actor_principal_id : String
  pub target_principal_id : Option String
  pub project_id : Option String
  pub action : String
  pub detail : String

pub record SystemBootstrap : Type 0 where
  pub id : String
  pub owner_principal_id : String

-- `roleActions[role].has(action)`
unfoldable pub role_allows : ProjectRole → AuthorityAction → Bool
role_allows owner action = true
role_allows editor project_read = true
role_allows editor project_mutate = true
role_allows reviewer project_read = true
role_allows reviewer project_review = true
role_allows viewer project_read = true
role_allows _ _ = false

pub data ProjectReadScope : Type 0 where
  all_projects : ProjectReadScope
  projects : List ProjectRoleAssignment → ProjectReadScope

abbrev pub principal_key : PrincipalRecord → String × String
principal_key p = (p.provider, p.provider_subject)

abbrev pub role_key : ProjectRoleAssignment → String × String
role_key a = (a.project_id, a.principal_id)

-- What a caller passes as an audit: the row without its id.
pub record AuthorityAuditInput : Type 0 where
  pub actor_principal_id : String
  pub target_principal_id : Option String
  pub project_id : Option String
  pub action : String
  pub detail : String

abbrev pub audit_row : String → AuthorityAuditInput → AuthorityAudit
audit_row uuid a = record {
  id = "audit:" +++ uuid;
  actor_principal_id = a.actor_principal_id;
  target_principal_id = a.target_principal_id;
  project_id = a.project_id;
  action = a.action;
  detail = a.detail;
}

abbrev pub grant_audit : String → ProjectRoleAssignment → AuthorityAuditInput
grant_audit by a = record {
  actor_principal_id = by;
  target_principal_id = some a.principal_id;
  project_id = some a.project_id;
  action = "PROJECT_ROLE_SET";
  detail = role_text a.role;
}

abbrev pub bootstrap_audit : PrincipalRecord → AuthorityAuditInput
bootstrap_audit p = record {
  actor_principal_id = p.id;
  target_principal_id = some p.id;
  project_id = none;
  action = "SYSTEM_OWNER_BOOTSTRAPPED";
  detail = p.provider;
}

-- `actor!.principalId`, after a check that an actor is there.
abbrev pub principal_of : Option AuthenticatedActor → String
principal_of none = ""
principal_of (some actor) = actor.principal_id

-- The tables, and the database's contents.
pub record AuthorityTables : Type 1 where
  pub principal : Table pair_key principal_key
  pub system_bootstrap : Table text_key SystemBootstrap.id
  pub project_authority : Table pair_key role_key
  pub audit_event : Table text_key AuthorityAudit.id

pub record AuthorityStore (t : AuthorityTables) : Type 0 where
  pub principals : t.principal.Rows
  pub bootstraps : t.system_bootstrap.Rows
  pub roles : t.project_authority.Rows
  pub audits : t.audit_event.Rows

-- The comparator of `readableProjectScope`; `le` is `localeCompare(…) <= 0`, of the host's locale.
abbrev pub assignment_le :
    (String → String → Bool) → ProjectRoleAssignment → ProjectRoleAssignment → Bool
assignment_le le a b =
    le a.project_id b.project_id
    && (not (le b.project_id a.project_id) || le (role_text a.role) (role_text b.role))

abbrev pub reads : ProjectRoleAssignment → Bool
reads a = role_allows a.role project_read
