-- ===== src/Execution/Signed.antt =====
-- The scope that a grant signs, and the actions that are executed under it:
-- packages/application/src/prompt-workflow-execution.ts.
use software_blueprint_hub.Shared.{◌≤◌, ◌≡◌, sym, ◌∙◌, All, All-imp, List}
use software_blueprint_hub.Execution.{Grant, ScopedAction}
use software_blueprint_hub.Execution.Loop.{Request}
use software_blueprint_hub.Execution.Recorded.{IsScoped}

-- The action is for the project, the repository and the source revision that the grant signs, for
-- its node, in its mode, on its paths, and within its budgets.
pub record IsSigned (g : Grant) (a : ScopedAction) : Type 0 where
  pub of_project : a.project_id ≡ g.project_id
  pub of_repository : a.repository ≡ g.repository
  pub of_head : a.app_head ≡ g.app_head
  pub of_node : a.node_id ≡ g.node_id
  pub of_mode : a.mode ≡ g.mode
  pub of_paths : a.allowed_paths ≡ g.allowed_paths
  pub of_files : a.max_files ≡ g.max_files
  pub of_tokens : a.max_token_estimate ≤ g.max_token_estimate

pub All-IsSigned :
    (q : Request) (actions : List ScopedAction)
    → q.grant.project_id ≡ q.context.project_id
    → q.grant.repository ≡ q.context.repository
    → q.grant.app_head ≡ q.context.app_head
    → q.node_id ≡ q.grant.node_id
    → All (IsScoped q) actions
    → All (IsSigned q.grant) actions
All-IsSigned q actions project repository head node =
    All-imp (IsScoped q) (IsSigned q.grant) actions (λ a k. record {
      of_project = k.of_project ∙ sym project;
      of_repository = k.of_repository ∙ sym repository;
      of_head = k.of_head ∙ sym head;
      of_node = k.of_node ∙ node;
      of_mode = k.of_mode;
      of_paths = k.of_paths;
      of_files = k.of_files;
      of_tokens = k.of_tokens;
    })
