-- ===== src/Execution/Gateway.antt =====
-- `executeBoundedWorkflowNode`: the grant, the readiness of the node, the claim of the request, and
-- the loop.
use Prim.Native.String.{◌++◌ as ◌+++◌}
use software_blueprint_hub.Shared.{
  ℕ, String, Bool, true, false, ◌&&◌, Option, none, some, List, [], ◌∷◌, ◌==◌, if◌then◌else◌, find,
  includes, Result, ok, err, plain_error,
}
use software_blueprint_hub.Execution.{
  Grant, WorkflowNode, WorkflowManifest, SourceContext, ExecutionReport, Services,
}
use software_blueprint_hub.Execution.Texts.{signing_payload}
use software_blueprint_hub.Execution.Granted.{Trust, verify_grant}
use software_blueprint_hub.Execution.Loop.{LoopState, Request, run_attempts}

-- `WorkflowNodeReadiness`: whether its state is `available`.
pub record NodeReadiness : Type 0 where
  pub id : String
  pub is_available : Bool

-- The fields of `WorkflowReadinessPlan` that are compared.
pub record ReadinessPlan : Type 0 where
  pub workflow_id : String
  pub workflow_version : String
  pub workflow_digest : String
  pub app_head : String
  pub canonical_digest : String
  pub policy_version : String
  pub ready_node_ids : List String
  pub nodes : List NodeReadiness
  pub read_only : Bool

abbrev pub is_available_at : Option NodeReadiness → Bool
is_available_at none = false
is_available_at (some n) = n.is_available

abbrev pub initial_state : LoopState
initial_state = record { attempts = []; fingerprints = []; total_tokens = 0; next = 1 }

abbrev pub expiry : Option ℕ → ℕ
expiry none = 0
expiry (some t) = t

module _ (sha256_hex : String → String) (trust : Trust) (v : Services) where
  -- The readiness plan is of this workflow and source, and has the node ready.
  abbrev pub is_ready : ReadinessPlan → WorkflowManifest → SourceContext → WorkflowNode → Bool
  is_ready p m c n =
      (p.workflow_id == m.workflow_id)
      && (p.workflow_version == m.workflow_version)
      && (p.workflow_digest == trust.manifest_digest m)
      && (p.app_head == c.app_head)
      && (p.canonical_digest == c.canonical_digest)
      && (p.policy_version == c.policy_version)
      && p.read_only
      && includes p.ready_node_ids n.id
      && is_available_at (find (λ item. item.id == n.id) p.nodes)

  unfoldable pub request_id : Grant → String
  unfolding signing_payload
  request_id g = "sha256:" +++ sha256_hex (signing_payload g (g.signature ∷ []))

  abbrev pub request_of : Grant → SourceContext → WorkflowNode → Request
  request_of g c n = record {
    grant = g;
    context = c;
    request_id = request_id g;
    node_id = n.id;
    expires = expiry (trust.parse_time g.expires_at);
  }

  abbrev pub claimed : Request → Bool × v.World → Result ExecutionReport × v.World
  claimed q (false, w) =
      (err (plain_error "Execution grant replay or concurrent task is blocked"), w)
  claimed q (true, w) = run_attempts v q.grant.max_attempts q initial_state w

  abbrev pub current : Request → Bool × v.World → Result ExecutionReport × v.World
  current q (false, w) = (err (plain_error "The source is not current"), w)
  current q (true, w) = claimed q (v.claim q.request_id q.grant.expires_at w)

  abbrev pub admitted :
      Grant
      → WorkflowManifest
      → SourceContext
      → ReadinessPlan
      → Result WorkflowNode
      → v.World
      → Result ExecutionReport × v.World
  admitted g m c p (err thrown) w = (err thrown, w)
  admitted g m c p (ok n) w =
      if is_ready p m c n
      then current (request_of g c n) (v.assert_current w)
      else (err (plain_error "No verified source-bound dependency readiness for node"), w)

  unfoldable pub execute_bounded_workflow_node :
      Grant
      → WorkflowManifest
      → SourceContext
      → ReadinessPlan
      → v.World
      → Result ExecutionReport × v.World
  execute_bounded_workflow_node g m c p w =
      let (now, w') = v.clock w in admitted g m c p (verify_grant trust g m c now) w'
