-- ===== src/Execution/Granted.antt =====
-- `verifyWorkflowExecutionGrant`: whether a signed grant allows its node to be executed.
use software_blueprint_hub.Shared.{
  ℕ, ◌+◌, String, Bool, true, false, not, ◌&&◌, ◌||◌, Option, none, some, List, [], ◌∷◌, ◌==◌,
  if◌then◌else◌, nat_eq, ltb, leb, all, length, find, map, Result, ok, err, ◌>>=◌, ◌>>◌, guard,
  plain_error,
}
use software_blueprint_hub.Shared.Text.{codes, split, is_sha256, is_git_sha, is_hex}
use software_blueprint_hub.Execution.{
  ExecutionMode, inspect_scoped, edit_scoped, test_scoped, Stage, discover, specify, design, plan,
  implement, test, review, release, learn, Grant, WorkflowNode, WorkflowStatus, approved_status,
  WorkflowManifest, SourceContext,
}
use software_blueprint_hub.Execution.Texts.{
  is_text_of, is_issuer_id, is_time_shape, is_signature, valid_path, has_no_repeats,
  signing_payload,
}

abbrev pub require_that : Bool → String → Result (Unit {0})
require_that passed message = guard passed (plain_error message)

-- `validGrantShape`, past the types of the fields.
unfoldable pub valid_grant_shape : Grant → Bool
unfolding valid_path is_time_shape is_signature
valid_grant_shape g =
    (g.schema_version == "1.0.0")
    && is_sha256 g.workflow_digest
    && is_sha256 g.canonical_digest
    && is_git_sha g.app_head
    && is_issuer_id (codes g.issuer_id)
    && is_text_of is_hex 32 64 (codes g.nonce)
    && is_time_shape g.issued_at
    && is_time_shape g.expires_at
    && is_signature g.signature
    && leb 1 (length g.allowed_paths)
    && leb (length g.allowed_paths) 30
    && all valid_path g.allowed_paths
    && has_no_repeats g.allowed_paths
    && leb 1 g.max_attempts
    && leb g.max_attempts 5
    && leb 1 g.max_files
    && leb g.max_files 30
    && leb 1 g.max_token_estimate
    && leb g.max_token_estimate 30000

-- `modesByStage[stage] === mode`; a review and a release have no mode.
unfoldable pub stage_allows : Stage → ExecutionMode → Bool
stage_allows discover inspect_scoped = true
stage_allows specify inspect_scoped = true
stage_allows design inspect_scoped = true
stage_allows plan inspect_scoped = true
stage_allows implement edit_scoped = true
stage_allows test test_scoped = true
stage_allows learn inspect_scoped = true
stage_allows _ _ = false

abbrev pub is_executable_stage : Stage → Bool
is_executable_stage review = false
is_executable_stage release = false
is_executable_stage _ = true

abbrev pub is_approved_status : WorkflowStatus → Bool
is_approved_status approved_status = true
is_approved_status _ = false

-- The node with the granted id, unless it is a human gate, a release or a review.
abbrev pub executable_node : Option WorkflowNode → Option WorkflowNode
executable_node none = none
executable_node (some n) =
    if n.human_gate || not (is_executable_stage n.stage) then none else some n

abbrev pub required {ℓ} : {A : Type ℓ} → Option A → String → Result A
required none message = err (plain_error message)
required (some a) message = ok a

-- The grant's budget is within that of its node.
abbrev pub is_within_budget : Grant → WorkflowNode → Bool
is_within_budget g n =
    leb g.max_attempts n.budget.max_attempts
    && leb g.max_files n.budget.max_files
    && leb g.max_token_estimate n.budget.max_token_estimate
    && leb (length g.allowed_paths) g.max_files

-- Times in milliseconds: issued at most a minute ahead, expires later than now and than its issue,
-- and within an hour of it.
abbrev pub is_timely : ℕ → Option ℕ → Option ℕ → Bool
is_timely now none expires = false
is_timely now (some issued) none = false
is_timely now (some issued) (some expires) =
    leb issued (now + 60000)
    && ltb now expires
    && ltb issued expires
    && leb expires (issued + 3600000)

-- What the host and the repository's other parts give: `Number(text)` where it is a safe integer
-- that is not negative, `Date.parse` where it is a number, `validateWorkflow`,
-- `workflowManifestDigest`, the pinned key of an issuer, the check of an Ed25519 signature, and
-- whether `assertAdopted` and `assertMayExecute` return.
pub record Trust : Type 0 where
  pub as_number : List ℕ → Option ℕ
  pub parse_time : String → Option ℕ
  pub valid_workflow : WorkflowManifest → Bool
  pub manifest_digest : WorkflowManifest → String
  pub public_key_for : String → String → Option String
  pub verify_signature : String → String → String → Bool
  pub adopted : String → String → String → Bool
  pub may_execute : String → String → String → Bool

-- Version triples, compared from the left.
abbrev pub triple_not_older : List (Option ℕ) → List (Option ℕ) → Bool
triple_not_older (some a ∷ some b ∷ some c ∷ []) (some x ∷ some y ∷ some z ∷ []) =
    ltb x a || (nat_eq x a && (ltb y b || (nat_eq y b && leb z c)))
triple_not_older _ _ = false

module _ (trust : Trust) where
  -- `current.split(".").map(Number)`
  unfoldable pub version_numbers : String → List (Option ℕ)
  unfolding split
  version_numbers version = map trust.as_number (split 46 (codes version))

  -- `versionNotOlder`
  unfoldable pub version_not_older : String → String → Bool
  unfolding version_numbers
  version_not_older current minimum =
      triple_not_older (version_numbers current) (version_numbers minimum)

  -- `exactContext`
  abbrev pub exact_context : Grant → WorkflowManifest → SourceContext → Bool
  exact_context g m c =
      (g.project_id == c.project_id)
      && (g.repository == c.repository)
      && (g.workflow_id == m.workflow_id)
      && (g.workflow_version == m.workflow_version)
      && (g.workflow_digest == trust.manifest_digest m)
      && (g.template_id == m.template_id)
      && (g.app_head == c.app_head)
      && (g.canonical_digest == c.canonical_digest)
      && (g.policy_version == c.policy_version)

  -- The grant, the workflow and the source are of one another.
  unfoldable pub is_bound_to : Grant → WorkflowManifest → SourceContext → Bool
  unfolding version_not_older
  is_bound_to g m c =
      exact_context g m c
      && (c.project_id == m.project_id)
      && (c.repository == m.project_repo)
      && version_not_older c.policy_version m.constitution_min_version

  -- `publicKeyFor`, where an empty key counts as none.
  abbrev pub pinned_key : Option String → Option String
  pinned_key none = none
  pinned_key (some key) = if key == "" then none else some key

  -- The grant is signed with the key.
  abbrev pub is_signed : Grant → String → Bool
  is_signed g key = trust.verify_signature key (signing_payload g []) g.signature

  unfoldable pub verify_grant : Grant → WorkflowManifest → SourceContext → ℕ → Result WorkflowNode
  verify_grant g m c now = do
    require_that (trust.valid_workflow m) "Invalid workflow"
    require_that (is_approved_status m.status) "Workflow has no approved execution status"
    require_that (valid_grant_shape g) "Invalid signed execution grant shape"
    require_that (is_bound_to g m c) "Stale or mismatched execution source binding"
    n ←
        required (executable_node (find (λ n. n.id == g.node_id) m.nodes))
          "Human/release/unknown workflow node cannot be executed here"
    require_that (stage_allows n.stage g.mode) "Execution capability violates node stage"
    require_that (is_within_budget g n) "Signed grant exceeds node budget"
    require_that (is_timely now (trust.parse_time g.issued_at) (trust.parse_time g.expires_at))
        "Execution grant is expired or outside bounded validity"
    key ←
        required (pinned_key (trust.public_key_for c.project_id g.issuer_id))
          "No pinned issuer key for execution"
    require_that (is_signed g key) "Untrusted execution grant signature"
    require_that (trust.adopted c.project_id m.workflow_id g.workflow_digest)
        "The workflow is not adopted"
    require_that (trust.may_execute c.project_id m.workflow_id g.issuer_id)
        "The issuer may not execute"
    ok n
