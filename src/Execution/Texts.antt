-- ===== src/Execution/Texts.antt =====
-- The texts that a grant and a result may hold: the regular expressions, `validPath`, and
-- `workflowExecutionGrantSigningPayload`.
use Prim.Native.String.{◌++◌ as ◌+++◌}
use software_blueprint_hub.Shared.{
  ℕ, String, Bool, true, false, not, ◌&&◌, ◌||◌, Option, none, some, List, [], ◌∷◌, map, nat_eq,
  leb, all, zero, suc, if◌then◌else◌, ◌++◌, any, length, includes,
}
use software_blueprint_hub.Shared.Text.{codes, is_digit, is_lower, is_upper, after, split}
use software_blueprint_hub.Shared.Json.{quote, member, object, array}
use software_blueprint_hub.Shared.Decimal.{decimal}
use software_blueprint_hub.Execution.{
  ExecutionMode, inspect_scoped, edit_scoped, test_scoped, Grant,
}

-- A text whose characters are all of a class, and whose length is within bounds.
abbrev pub is_text_of : (ℕ → Bool) → ℕ → ℕ → List ℕ → Bool
is_text_of p low high cs = all p cs && leb low (length cs) && leb (length cs) high

abbrev pub some_after : Option (List ℕ) → (List ℕ → Bool) → Bool
some_after none p = false
some_after (some cs) p = p cs

-- `/^[a-z][a-z0-9-]{1,79}$/`
abbrev pub is_issuer_id : List ℕ → Bool
is_issuer_id [] = false
is_issuer_id (c ∷ cs) =
    is_lower c && is_text_of (λ d. is_lower d || is_digit d || nat_eq d 45) 1 79 cs

-- A template in which every 0 stands for a digit.
abbrev pub is_shape : List ℕ → List ℕ → Bool
is_shape [] [] = true
is_shape [] (c ∷ cs) = false
is_shape (t ∷ ts) [] = false
is_shape (t ∷ ts) (c ∷ cs) = (if nat_eq t 48 then is_digit c else nat_eq t c) && is_shape ts cs

-- `ISO`
unfoldable pub is_time_shape : String → Bool
is_time_shape s =
    is_shape (codes "0000-00-00T00:00:00Z") (codes s)
    || is_shape (codes "0000-00-00T00:00:00.000Z") (codes s)

abbrev pub is_alphanumeric : ℕ → Bool
is_alphanumeric c = is_lower c || is_upper c || is_digit c

-- `/^[A-Za-z0-9+/]{86}==$/`
abbrev pub ends_signature : ℕ → List ℕ → Bool
ends_signature zero cs = some_after (after (codes "==") cs) (λ rest. nat_eq (length rest) 0)
ends_signature (suc n) [] = false
ends_signature (suc n) (c ∷ cs) =
    (is_alphanumeric c || nat_eq c 43 || nat_eq c 47) && ends_signature n cs

unfoldable pub is_signature : String → Bool
unfolding after
is_signature s = ends_signature 86 (codes s)

-- `/^[a-zA-Z0-9_./-]+$/`
abbrev pub is_path_char : ℕ → Bool
is_path_char c = is_alphanumeric c || nat_eq c 95 || nat_eq c 46 || nat_eq c 47 || nat_eq c 45

abbrev pub is_segment : List ℕ → Bool
is_segment [] = false
is_segment (c ∷ []) = not (nat_eq c 46)
is_segment (c ∷ d ∷ []) = not (nat_eq c 46 && nat_eq d 46)
is_segment (c ∷ d ∷ e ∷ cs) = true

abbrev pub starts_with_slash : List ℕ → Bool
starts_with_slash [] = false
starts_with_slash (c ∷ cs) = nat_eq c 47

-- `validPath`; a backslash is no path character.
unfoldable pub valid_path : String → Bool
unfolding split
valid_path s =
    let cs = codes s in
    is_text_of is_path_char 2 240 cs && not (starts_with_slash cs) && all is_segment (split 47 cs)

-- `path.startsWith(allowed + "/")`
unfoldable pub is_under : String → String → Bool
unfolding after
is_under path allowed = some_after (after (codes (allowed +++ "/")) (codes path)) (λ rest. true)

-- `[a-zA-Z0-9/:._#@-]`
abbrev pub is_reference_char : ℕ → Bool
is_reference_char c =
    is_alphanumeric c
    || nat_eq c 47
    || nat_eq c 58
    || nat_eq c 46
    || nat_eq c 95
    || nat_eq c 35
    || nat_eq c 64
    || nat_eq c 45

unfoldable pub is_evidence_reference : String → Bool
unfolding after
is_evidence_reference s =
    any (λ prefix. some_after (after (codes prefix) (codes s)) (is_text_of is_reference_char 4 300))
      ("github:" ∷ "artifact:" ∷ "canonical:" ∷ [])

-- `new Set(paths).size === paths.length`
abbrev pub has_no_repeats : List String → Bool
has_no_repeats [] = true
has_no_repeats (x ∷ xs) = not (includes xs x) && has_no_repeats xs

abbrev pub mode_text : ExecutionMode → String
mode_text inspect_scoped = "inspect-scoped"
mode_text edit_scoped = "edit-scoped"
mode_text test_scoped = "test-scoped"

-- `workflowExecutionGrantSigningPayload`: the members in the order of their names. `signature` is
-- the member of that name where the argument has one.
unfoldable pub signing_payload : Grant → List String → String
unfolding member object array quote decimal
signing_payload g signature = object (
    member "allowedPaths" (array (map quote g.allowed_paths))
    ∷ member "appHead" (quote g.app_head)
    ∷ member "canonicalDigest" (quote g.canonical_digest)
    ∷ member "expiresAt" (quote g.expires_at)
    ∷ member "issuedAt" (quote g.issued_at)
    ∷ member "issuerId" (quote g.issuer_id)
    ∷ member "maxAttempts" (decimal g.max_attempts)
    ∷ member "maxFiles" (decimal g.max_files)
    ∷ member "maxTokenEstimate" (decimal g.max_token_estimate)
    ∷ member "mode" (quote (mode_text g.mode))
    ∷ member "nodeId" (quote g.node_id)
    ∷ member "nonce" (quote g.nonce)
    ∷ member "policyVersion" (quote g.policy_version)
    ∷ member "projectId" (quote g.project_id)
    ∷ member "repository" (quote g.repository)
    ∷ member "schemaVersion" (quote g.schema_version)
    ∷ (map (λ s. member "signature" (quote s)) signature
        ++ (member "templateId" (quote g.template_id)
            ∷ member "workflowDigest" (quote g.workflow_digest)
            ∷ member "workflowId" (quote g.workflow_id)
            ∷ member "workflowVersion" (quote g.workflow_version)
            ∷ [])))
