-- ===== src/Constitution/Attestation/AuthoritySet.antt =====
-- What an accepted authority-set attestation holds: `validateConstitutionAuthoritySetAttestation`.
use software_blueprint_hub.Shared.{
  String, ◌≡◌, refl, ap, ◌⊎◌, inl, inr, false, not, List, [], ◌∷◌, map, arith, ◌==◌, eq_of_==,
  eq_iff, ok, guard-eq-ok, >>=-eq-ok, includes, includes_iff, All, In, nat_eq, nat_eq_iff, length,
  true, ◌∙◌, All-imp,
}
use software_blueprint_hub.Shared.Sorting.{
  sort, sort-All, Pairwise, sort-Pairwise, IsSorted, sort-IsSorted, In-sort_iff,
}
use software_blueprint_hub.Shared.Text.{
  trim, is_semver, is_sha256, is_git_sha, is_numeric, text_le_total, text_le_trans,
}
use software_blueprint_hub.Constitution.Model.{AuthoritySetComponent}
use software_blueprint_hub.Constitution.Checks.{non_empty, semver, sha256_digest, to_lower}
use software_blueprint_hub.Constitution.Checked.{
  non_empty-trim, semver-is_semver, sha256_digest-to_lower,
}
use software_blueprint_hub.Constitution.Attestation.{
  AuthoritySetAttestation, policy_id, component_ids, component_path, validate_components,
  require_all, by_id, authority_set_json, sha256_value, validate_authority_set,
}

-- One of the four components, at its canonical path and at the policy's version, with an exact digest.
pub record IsPlaced (version : String) (c : AuthoritySetComponent) : Type 0 where
  pub known : In c.id component_ids
  pub placed : c.path ≡ component_path c.id
  pub versioned : c.version ≡ version
  pub digested : is_sha256 (to_lower (trim c.digest)) ≡ true

abbrev pub DiffersById : AuthoritySetComponent → AuthoritySetComponent → Type 0
DiffersById a b = (a.id == b.id) ≡ false

pub record IsAuthoritySet (sha256_hex : String → String) (a : AuthoritySetAttestation)
    : Type 0 where
  pub policy : a.policy_id ≡ policy_id
  pub all_placed : All (IsPlaced a.policy_version) a.components
  pub distinct : Pairwise DiffersById a.components
  pub complete : All (λ id. In id (map AuthoritySetComponent.id a.components)) component_ids
  pub sorted : IsSorted by_id a.components
  pub sealed :
      a.authority_set_digest
      ≡ sha256_value sha256_hex (authority_set_json a.policy_id a.policy_version a.components)
  pub no_production : a.production_release_authority ≡ false

-- What was asked of the attestation that is given, for the one that is returned: it is a trusted one,
-- of a semantic version, for an exact commit and a CI run; it grants no production authority itself; it names itself the
-- digest that its components have, but for spaces around it and its case; and it is returned as it
-- is, with its components in order.
pub record IsAccepted (sha256_hex : String → String) (given a : AuthoritySetAttestation)
    : Type 0 where
  pub schema : given.schema_version ≡ "1.0.0"
  pub trusted : given.source ≡ "trusted-ci-attestation"
  pub version : is_semver (trim given.policy_version) ≡ true
  pub at_commit : is_git_sha (trim given.source_revision) ≡ true
  pub of_run : is_numeric (trim given.ci_run_id) ≡ true
  pub grants_nothing : given.production_release_authority ≡ false
  pub four : length given.components ≡ 4
  pub names_digest :
      to_lower (trim given.authority_set_digest)
      ≡ sha256_value sha256_hex
          (authority_set_json policy_id given.policy_version (sort by_id given.components))
  pub same_version : a.policy_version ≡ given.policy_version
  pub same_revision : a.source_revision ≡ given.source_revision
  pub same_run : a.ci_run_id ≡ given.ci_run_id
  pub ordered : a.components ≡ sort by_id given.components

-- What the loop over the components has checked.
record Checked (version : String) (seen out : List String) (cs : List AuthoritySetComponent)
    : Type 0 where
  all_placed : All (IsPlaced version) cs
  unseen : All (λ c. includes seen c.id ≡ false) cs
  distinct : Pairwise DiffersById cs
  noted : (id : String) → In id out → In id seen ⊎ In id (map AuthoritySetComponent.id cs)

validate_components-Checked :
    (version : String) (seen out : List String) (cs : List AuthoritySetComponent)
    → validate_components version seen cs ≡ ok out
    → Checked version seen out cs
unfolding validate_components
validate_components-Checked version seen out [] h = record {
  all_placed = tt;
  unseen = tt;
  distinct = tt;
  noted = λ id i. let e : seen ≡ out = ground arith in inl (rw e i);
}
validate_components-Checked version seen out (c ∷ cs) h =
    let (known, h₁) = guard-eq-ok (includes component_ids c.id) _ _ h in
    let (new, h₂) = guard-eq-ok (not (includes seen c.id)) _ _ h₁ in
    let (placed, h₃) = guard-eq-ok (c.path == component_path c.id) _ _ h₂ in
    let (versioned, h₄) = guard-eq-ok (c.version == version) _ _ h₃ in
    let (d, named, h₅) = >>=-eq-ok (sha256_digest c.digest) _ h₄ in
    let later = validate_components-Checked version (c.id ∷ seen) out cs h₅ in
    record {
      all_placed = (
        record {
          known = (includes_iff component_ids c.id).0 known;
          placed = eq_of_== _ _ placed;
          versioned = eq_of_== _ _ versioned;
          digested = let (same, exact) = sha256_digest-to_lower c.digest d named in rw same exact;
        },
        later.all_placed,
      );
      unseen = (ground arith, All-imp _ _ cs (λ x p. ground arith) later.unseen);
      distinct = (All-imp _ _ cs (λ x p. ground arith) later.unseen, later.distinct);
      noted = λ id i. elim (later.noted id i) [
        | inl j ↦ elim j [ inl e ↦ inr (inl e) | inr k ↦ inl k ]
        | inr k ↦ inr (inr k)
      ];
    }

require_all-All :
    (seen ids : List String) → require_all seen ids ≡ ok tt → All (λ id. In id seen) ids
unfolding require_all
require_all-All seen [] h = tt
require_all-All seen (id ∷ ids) h =
    let (here, rest) = guard-eq-ok (includes seen id) _ _ h in
    ((includes_iff seen id).0 here, require_all-All seen ids rest)

DiffersById-symm : (a b : AuthoritySetComponent) → DiffersById a b → DiffersById b a
DiffersById-symm a b h = ground (arith, eq_iff a.id b.id, eq_iff b.id a.id)

In-map_id :
    (cs : List AuthoritySetComponent) (id : String)
    → In id (map AuthoritySetComponent.id cs)
    → (c : AuthoritySetComponent) × In c cs × (c.id ≡ id)
In-map_id [] id h = absurd h
In-map_id (c ∷ cs) id (inl e) = (c, inl refl, e)
In-map_id (c ∷ cs) id (inr i) = let (d, j, e) = In-map_id cs id i in (d, inr j, e)

map_id-In :
    (cs : List AuthoritySetComponent) (c : AuthoritySetComponent)
    → In c cs
    → In c.id (map AuthoritySetComponent.id cs)
map_id-In [] c h = absurd h
map_id-In (d ∷ cs) c (inl e) = inl (ap AuthoritySetComponent.id e)
map_id-In (d ∷ cs) c (inr i) = inr (map_id-In cs c i)

-- A seen id is that of a component, also after sorting.
listed :
    (cs : List AuthoritySetComponent) (seen : List String)
    → ((id : String) → In id seen → In id [] ⊎ In id (map AuthoritySetComponent.id cs))
    → (id : String) → In id seen
    → In id (map AuthoritySetComponent.id (sort by_id cs))
listed cs seen noted id i = elim (noted id i) [
  | inl j ↦ absurd j
  | inr k ↦
      let (x, j, e) = In-map_id cs id k in
      rw (← e) (map_id-In (sort by_id cs) x ((In-sort_iff by_id cs x).1 j))
]

module _ (sha256_hex : String → String) where
  -- The attestation that the validation returns.
  abbrev validated : AuthoritySetAttestation → AuthoritySetAttestation
  validated a =
      let components = sort by_id a.components in
      record a {
        components = components;
        authority_set_digest =
            sha256_value sha256_hex (authority_set_json a.policy_id a.policy_version components);
        production_release_authority = false;
      }

  validated-IsAuthoritySet :
      (a : AuthoritySetAttestation) (seen : List String)
      → a.policy_id ≡ policy_id
      → Checked a.policy_version [] seen a.components
      → All (λ id. In id seen) component_ids
      → IsAuthoritySet sha256_hex (validated a)
  validated-IsAuthoritySet a seen policy c all_seen = record {
    policy = policy;
    all_placed = sort-All by_id (IsPlaced a.policy_version) a.components c.all_placed;
    distinct = sort-Pairwise by_id DiffersById DiffersById-symm a.components c.distinct;
    complete =
        All-imp _ (λ id. In id (map AuthoritySetComponent.id (sort by_id a.components)))
          component_ids (listed a.components seen c.noted) all_seen;
    sorted =
        sort-IsSorted by_id (λ x y. text_le_total x.id y.id) (λ x y z. text_le_trans x.id y.id z.id)
          a.components;
    sealed = refl;
    no_production = refl;
  }

  -- An attestation is accepted only if it is a trusted one of the policy, for an exact commit and a
  -- CI run, that grants no production authority and that itself names, but for spaces around it and
  -- its case, the digest of its components. What is returned is an authority set: the components are
  -- the four canonical ones, each once, each at its canonical path and at the policy's version, those
  -- that were given in the order of their ids; the digest is that of exactly these components; and no
  -- production authority is granted.
  pub validate_authority_set-IsAuthoritySet :
      (a b : AuthoritySetAttestation)
      → validate_authority_set sha256_hex a ≡ ok b
      → IsAccepted sha256_hex a b × IsAuthoritySet sha256_hex b
  unfolding validate_authority_set
  validate_authority_set-IsAuthoritySet a b h =
      let (schema, h₁) = guard-eq-ok (a.schema_version == "1.0.0") _ _ h in
      let (trusted, h₂) = guard-eq-ok (a.source == "trusted-ci-attestation") _ _ h₁ in
      let (policy, h₃) = guard-eq-ok (a.policy_id == policy_id) _ _ h₂ in
      let (v, versioned, h₄) =
        >>=-eq-ok (semver a.policy_version "attestation.policyVersion") _ h₃ in
      let (revision, trimmed, h₅) = >>=-eq-ok (non_empty a.source_revision "sourceRevision") _ h₄ in
      let (commit, h₆) = guard-eq-ok (is_git_sha revision) _ _ h₅ in
      let (run_id, trimmed', h₇) = >>=-eq-ok (non_empty a.ci_run_id "ciRunId") _ h₆ in
      let (numeric, h₈) = guard-eq-ok (is_numeric run_id) _ _ h₇ in
      let (none_granted, h₉) = guard-eq-ok (not a.production_release_authority) _ _ h₈ in
      let (four, k) = guard-eq-ok (nat_eq (length a.components) (length component_ids)) _ _ h₉ in
      let (seen, checked, k₁) =
        >>=-eq-ok (validate_components a.policy_version [] a.components) _ k in
      let (_, all_seen, k₂) = >>=-eq-ok (require_all seen component_ids) _ k₁ in
      let (given, named, k₃) = >>=-eq-ok (sha256_digest a.authority_set_digest) _ k₂ in
      let (match, k₄) = guard-eq-ok (given == _) _ _ k₃ in
      let e : validated a ≡ b = ground arith in
      let of_policy = eq_of_== a.policy_id policy_id policy in
      rw (← e) (
        record {
          schema = eq_of_== _ _ schema;
          trusted = eq_of_== _ _ trusted;
          version = semver-is_semver _ _ v versioned;
          at_commit = rw (non_empty-trim _ _ revision trimmed) commit;
          of_run = rw (non_empty-trim _ _ run_id trimmed') numeric;
          grants_nothing = ground arith;
          four = (nat_eq_iff (length a.components) 4).0 four;
          names_digest =
              (sha256_digest-to_lower _ given named).0 ∙ eq_of_== given _ match ∙ rw of_policy refl;
          same_version = refl;
          same_revision = refl;
          same_run = refl;
          ordered = refl;
        },
        validated-IsAuthoritySet a seen of_policy
            (validate_components-Checked a.policy_version [] seen a.components checked)
            (require_all-All seen component_ids all_seen),
      )
