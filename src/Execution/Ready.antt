-- ===== src/Execution/Ready.antt =====
-- When a readiness plan allows a node to be executed:
-- packages/application/src/prompt-workflow-execution.ts.
use software_blueprint_hub.Shared.{
  String, ◌≡◌, inl, inr, true, some, ◌==◌, eq_of_==, find, find-test, includes_iff, In,
  Option-cases, arith,
}
use software_blueprint_hub.Execution.{WorkflowNode, WorkflowManifest, SourceContext, Services}
use software_blueprint_hub.Execution.Granted.{Trust}
use software_blueprint_hub.Execution.Gateway.{NodeReadiness, ReadinessPlan, is_ready}

-- The plan was made, without writing, for this workflow at this source; it lists the node as ready,
-- and it has an entry for the node, that is available.
pub record IsReady (trust : Trust) (p : ReadinessPlan) (m : WorkflowManifest) (c : SourceContext)
    (n : WorkflowNode) : Type 0 where
  pub of_workflow : p.workflow_id ≡ m.workflow_id
  pub of_version : p.workflow_version ≡ m.workflow_version
  pub of_digest : p.workflow_digest ≡ trust.manifest_digest m
  pub of_head : p.app_head ≡ c.app_head
  pub of_canonical : p.canonical_digest ≡ c.canonical_digest
  pub of_policy : p.policy_version ≡ c.policy_version
  pub read_only : p.read_only ≡ true
  pub listed : In n.id p.ready_node_ids
  pub entry : NodeReadiness
  pub found : find (λ item. item.id == n.id) p.nodes ≡ some entry
  pub of_node : entry.id ≡ n.id
  pub available : entry.is_available ≡ true

module _ (sha256_hex : String → String) (trust : Trust) (v : Services) where
  pub is_ready-IsReady :
      (p : ReadinessPlan) (m : WorkflowManifest) (c : SourceContext) (n : WorkflowNode)
      → is_ready sha256_hex trust v p m c n ≡ true
      → IsReady trust p m c n
  is_ready-IsReady p m c n h = elim (Option-cases (find (λ item. item.id == n.id) p.nodes)) [
    | inl e ↦ absurd (ground arith)
    | inr (x, e) ↦ record {
      of_workflow = eq_of_== p.workflow_id m.workflow_id (ground arith);
      of_version = eq_of_== p.workflow_version m.workflow_version (ground arith);
      of_digest = eq_of_== p.workflow_digest (trust.manifest_digest m) (ground arith);
      of_head = eq_of_== p.app_head c.app_head (ground arith);
      of_canonical = eq_of_== p.canonical_digest c.canonical_digest (ground arith);
      of_policy = eq_of_== p.policy_version c.policy_version (ground arith);
      read_only = ground arith;
      listed = (includes_iff p.ready_node_ids n.id).0 (ground arith);
      entry = x;
      found = e;
      of_node = eq_of_== x.id n.id (find-test (λ item. item.id == n.id) p.nodes x e);
      available = ground arith;
    }
  ]
