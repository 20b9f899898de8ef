-- ===== src/Execution/Verified.antt =====
-- What the single checks of `verifyWorkflowExecutionGrant` say when they pass:
-- packages/application/src/prompt-workflow-execution.ts.
use software_blueprint_hub.Shared.{
  ℕ, ◌<◌, String, ◌≡◌, refl, sym, ap, ◌∙◌, inl, inr, Bool, true, false, Option, none, some, List,
  ltb→lt, find, find-test, Result, ok, ◌>>=◌, arith, Option-cases,
}
use software_blueprint_hub.Execution.{WorkflowNode}
use software_blueprint_hub.Execution.Granted.{
  Trust, required, is_executable_stage, executable_node, is_timely, pinned_key,
}

pub required-eq-ok {κ} :
    {A : Type 0} {B : Type κ} (o : Option A) (message : String) (f : A → Result B) {b : B}
    → (required o message >>= f) ≡ ok b
    → (a : A) × (o ≡ some a) × (f a ≡ ok b)
required-eq-ok none message f h = cc
required-eq-ok (some a) message f h = (a, refl, h)

pub is_timely_sound :
    (now : ℕ) (issued expires : Option ℕ)
    → is_timely now issued expires ≡ true
    → (e : ℕ) × (expires ≡ some e) × (now < e)
is_timely_sound now none expires h = absurd (ground arith)
is_timely_sound now (some i) none h = absurd (ground arith)
is_timely_sound now (some i) (some e) h = (e, refl, ltb→lt now e (ground arith))

pub executable_node_sound :
    (p : WorkflowNode → Bool) (nodes : List WorkflowNode) (n : WorkflowNode)
    → executable_node (find p nodes) ≡ some n
    → (p n ≡ true) × (n.human_gate ≡ false) × (is_executable_stage n.stage ≡ true)
executable_node_sound p nodes n h = elim (Option-cases (find p nodes)) [
  | inl e ↦ absurd (ground arith)
  | inr (x, e) ↦
      let same : x ≡ n = ground arith in
      (ap p (sym same) ∙ find-test p nodes x e, ground arith, ground arith)
]

pub pinned_key_sound :
    (trust : Trust) (o : Option String) (key : String)
    → pinned_key trust o ≡ some key
    → o ≡ some key
pinned_key_sound trust none key h = h
pinned_key_sound trust (some k) key h = ground arith
