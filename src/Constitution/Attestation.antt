-- ===== src/Constitution/Attestation.antt =====
-- The attestations that publication, propagation and verification rest on:
-- packages/application/src/constitution-authority.ts. `sha256_hex` is what
-- `createHash("sha256").update(text).digest("hex")` of node:crypto gives.
pub mod AuthoritySet
pub mod Counts
use Prim.Native.String.{◌++◌ as ◌+++◌}
use software_blueprint_hub.Shared.{
  ℕ, ◌+◌, String, Bool, true, false, not, ◌&&◌, ◌||◌, Option, none, some, List, [], ◌∷◌, map, ◌==◌,
  if◌then◌else◌, Result, ok, err, ◌>>=◌, ◌>>◌, guard, check, includes, nat_eq, all, length,
}
use software_blueprint_hub.Shared.Sorting.{sort}
use software_blueprint_hub.Shared.Text.{is_git_sha, is_numeric, text_le}
use software_blueprint_hub.Shared.Json.{quote, member, object, array}
use software_blueprint_hub.Constitution.Model.{AuthoritySetComponent}
use software_blueprint_hub.Constitution.Checks.{non_empty, semver, sha256_digest, positive_integer}

abbrev pub policy_id : String
policy_id = "blueprint-os:universal-century-grade"

abbrev pub active_policy_version : String
active_policy_version = "1.3.0"

pub record AuthoritySetAttestation : Type 0 where
  pub schema_version : String
  pub source : String
  pub policy_id : String
  pub policy_version : String
  pub source_revision : String
  pub ci_run_id : String
  pub components : List AuthoritySetComponent
  pub authority_set_digest : String
  pub production_release_authority : Bool

abbrev pub component_ids : List String
component_ids =
    "normative-document" ∷ "machine-contract" ∷ "universal-template" ∷ "policy-version" ∷ []

-- `authoritySetPaths[id]`
abbrev pub component_path : String → String
component_path id =
    if id == "normative-document"
    then "docs/UNIVERSAL-CONSTITUTION.md"
    else if id == "machine-contract"
    then "control/universal-constitution.contract.json"
    else if id == "universal-template"
    then "packages/application/src/foundation-templates.ts"
    else "packages/application/src/constitution-authority.ts"

-- The body of `components.map`, with the ids seen so far.
unfoldable pub validate_components :
    String → List String → List AuthoritySetComponent → Result (List String)
unfolding sha256_digest
validate_components version seen [] = ok seen
validate_components version seen (c ∷ cs) = do
  check (includes component_ids c.id) ("Unknown Constitution authority-set component " +++ c.id)
  check (not (includes seen c.id)) ("Duplicate Constitution authority-set component " +++ c.id)
  check (c.path == component_path c.id)
      ("Constitution authority-set component " +++ c.id +++ " has an unexpected canonical path")
  check (c.version == version)
      ("Constitution authority-set component " +++ c.id +++ " version drift")
  d ← sha256_digest c.digest
  validate_components version (c.id ∷ seen) cs

-- `for (const id of authoritySetComponentIds) if (!seen.has(id)) throw …`
unfoldable pub require_all : List String → List String → Result (Unit {0})
require_all seen [] = ok tt
require_all seen (id ∷ ids) = do
  check (includes seen id) ("Constitution authority-set is missing canonical component " +++ id)
  require_all seen ids

-- `localeCompare` of two of the four canonical ids, which differ in their first letters.
abbrev pub by_id : AuthoritySetComponent → AuthoritySetComponent → Bool
by_id a b = text_le a.id b.id

unfoldable pub component_json : AuthoritySetComponent → String
unfolding quote member object
component_json c = object (
    member "digest" (quote c.digest)
    ∷ member "id" (quote c.id)
    ∷ member "path" (quote c.path)
    ∷ member "version" (quote c.version)
    ∷ [])

-- `JSON.stringify(stableAuthorityValue({ policyId, policyVersion, components }))`
unfoldable pub authority_set_json : String → String → List AuthoritySetComponent → String
unfolding component_json array
authority_set_json id version components = object (
    member "components" (array (map component_json components))
    ∷ member "policyId" (quote id)
    ∷ member "policyVersion" (quote version)
    ∷ [])

module _ (sha256_hex : String → String) where
  -- `sha256Value`
  abbrev pub sha256_value : String → String
  sha256_value value = "sha256:" +++ sha256_hex value

  -- `validateConstitutionAuthoritySetAttestation`
  unfoldable pub validate_authority_set : AuthoritySetAttestation → Result AuthoritySetAttestation
  validate_authority_set a = do
    check (a.schema_version == "1.0.0") "Constitution authority-set schemaVersion must be 1.0.0"
    check (a.source == "trusted-ci-attestation")
        "Constitution publication requires a trusted CI attestation source"
    check (a.policy_id == policy_id) ("Constitution authority-set policyId must be " +++ policy_id)
    v ← semver a.policy_version "attestation.policyVersion"
    revision ← non_empty a.source_revision "sourceRevision"
    check (is_git_sha revision) "sourceRevision must be an exact 40-character Git commit SHA"
    run_id ← non_empty a.ci_run_id "ciRunId"
    check (is_numeric run_id) "ciRunId must be a numeric trusted CI run identifier"
    check (not a.production_release_authority)
        "Constitution authority-set attestation must never grant Production authority"
    check (nat_eq (length a.components) (length component_ids))
        "Constitution authority-set must contain exactly four canonical components"
    seen ← validate_components a.policy_version [] a.components
    let components = sort by_id a.components
    require_all seen component_ids
    let expected = sha256_value (authority_set_json a.policy_id a.policy_version components)
    given ← sha256_digest a.authority_set_digest
    check (given == expected)
        "Constitution authority-set digest does not match its canonical components"
    ok (record a {
      components = components;
      authority_set_digest = expected;
      production_release_authority = false;
    })

-- The fields that the two lifecycle attestations share.
pub record LifecycleIdentity : Type 0 where
  pub schema_version : String
  pub source : String
  pub policy_id : String
  pub policy_version : String
  pub amendment_id : String
  pub publication_id : String
  pub source_revision : String
  pub workflow_run_id : String
  pub exact_release_revision_certified : Bool
  pub production_release_authority : Bool

pub record PropagationAttestation : Type 0 where
  pub identity : LifecycleIdentity
  pub kind : String
  pub snapshot_digest : String
  pub total_repositories : ℕ
  pub current_repositories : ℕ
  pub migration_required_repositories : ℕ
  pub blocked_repositories : ℕ

pub record VerificationAttestation : Type 0 where
  pub identity : LifecycleIdentity
  pub kind : String
  pub matrix_digest : String
  pub total_repositories : ℕ
  pub compliant_repositories : ℕ
  pub non_compliant_repositories : ℕ
  pub unverified_repositories : ℕ
  pub migration_required_repositories : ℕ
  pub blocked_repositories : ℕ

-- `validateLifecycleIdentity`
unfoldable pub validate_lifecycle_identity : LifecycleIdentity → Result (Unit {0})
validate_lifecycle_identity i = do
  check (i.schema_version == "1.0.0")
      "Constitution lifecycle attestation schemaVersion must be 1.0.0"
  check (i.source == "trusted-constitution-lifecycle-attestation")
      "Constitution lifecycle attestation source is not trusted"
  check (i.policy_id == policy_id) ("Constitution lifecycle policyId must be " +++ policy_id)
  v ← semver i.policy_version "attestation.policyVersion"
  amendment ← non_empty i.amendment_id "attestation.amendmentId"
  publication ← non_empty i.publication_id "attestation.publicationId"
  revision ← non_empty i.source_revision "sourceRevision"
  check (is_git_sha revision) "sourceRevision must be an exact 40-character Git commit SHA"
  run_id ← non_empty i.workflow_run_id "workflowRunId"
  check (is_numeric run_id) "workflowRunId must be a numeric trusted CI run identifier"
  check (not i.exact_release_revision_certified)
      "Constitution lifecycle evidence cannot certify the final Production release revision"
  check (not i.production_release_authority)
      "Constitution lifecycle evidence must never grant Production authority"

-- `validateConstitutionPropagationAttestation`
unfoldable pub validate_propagation : PropagationAttestation → Result PropagationAttestation
validate_propagation a = do
  validate_lifecycle_identity a.identity
  check (a.kind == "constitution-propagation-attestation")
      "Constitution propagation attestation kind is invalid"
  positive_integer a.total_repositories "totalRepositories"
  check
      (nat_eq (a.current_repositories + a.migration_required_repositories + a.blocked_repositories)
        a.total_repositories)
      "Constitution propagation counts must partition all governed repositories"
  d ← sha256_digest a.snapshot_digest
  ok (record a { snapshot_digest = d })

-- `validateConstitutionVerificationAttestation`
unfoldable pub validate_verification : VerificationAttestation → Result VerificationAttestation
validate_verification a = do
  validate_lifecycle_identity a.identity
  check (a.kind == "constitution-verification-attestation")
      "Constitution verification attestation kind is invalid"
  positive_integer a.total_repositories "totalRepositories"
  check
      (nat_eq
        (a.compliant_repositories + a.non_compliant_repositories + a.unverified_repositories
          + a.migration_required_repositories + a.blocked_repositories)
        a.total_repositories)
      "Constitution verification counts must partition all governed repositories"
  d ← sha256_digest a.matrix_digest
  ok (record a { matrix_digest = d })
