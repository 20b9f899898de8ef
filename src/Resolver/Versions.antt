-- ===== src/Resolver/Versions.antt =====
-- Versions, identifiers, and the orders of templates: packages/blueprint-engine/src/resolver.ts. `le`
-- is `a.localeCompare(b) <= 0`.
use Prim.Native.Char.{Char, code}
use Prim.Native.String.{◌++◌ as ◌+++◌}
use software_blueprint_hub.Shared.{
  ℕ, String, Bool, true, false, not, ◌&&◌, ◌||◌, Option, none, some, List, [], ◌∷◌, ◌==◌, map, ltb,
  nat_eq, all, if◌then◌else◌, Result, ok, ◌>>◌, check,
}
use software_blueprint_hub.Shared.Text.{
  codes, split, number, is_digit, is_lower, is_upper, is_semver, is_blank, some_of,
}
use software_blueprint_hub.Resolver.{
  layer_rank, BlueprintTemplate, TemplateRequirement, RequirementSource, default,
}

-- What stands before the first occurrence of a character, and after it.
abbrev pub cons_cut : Char → String × Option String → String × Option String
cons_cut c (before, rest) = (String.◌∷◌ c before, rest)

unfoldable pub cut : ℕ → String → String × Option String
cut mark String.[] = (String.[], none)
cut mark (String.◌∷◌ c s) =
    let rest = cut mark s in if nat_eq (code c) mark then (String.[], some s) else cons_cut c rest

-- [A-Za-z0-9._:-]
abbrev pub is_id_char : ℕ → Bool
is_id_char c =
    is_digit c
    || is_lower c
    || is_upper c
    || nat_eq c b'.'
    || nat_eq c b'_'
    || nat_eq c b':'
    || nat_eq c b'-'

abbrev pub starts_lower : List ℕ → Bool
starts_lower [] = false
starts_lower (c ∷ cs) = is_lower c && all (λ d. is_lower d || is_digit d || nat_eq d b'-') cs

abbrev pub is_id_parts : String × Option String → Bool
is_id_parts (before, none) = false
is_id_parts (before, some rest) = starts_lower (codes before) && some_of is_id_char (codes rest)

-- `idPattern`
unfoldable pub is_canonical_id : String → Bool
unfolding cut
is_canonical_id s = is_id_parts (cut b':' s)

abbrev pub assert_canonical_id : String → String → Result (Unit {0})
assert_canonical_id id label =
    check (is_canonical_id id) (label +++ " must be a canonical ID: " +++ id)

-- [0-9A-Za-z.-]
abbrev pub is_tag_char : ℕ → Bool
is_tag_char c = is_digit c || is_upper c || is_lower c || nat_eq c b'.' || nat_eq c b'-'

abbrev pub is_tag : Option String → Bool
is_tag none = true
is_tag (some tag) = some_of is_tag_char (codes tag)

-- `semverPattern`: digits and dots have no dash, so the first dash starts the tag.
unfoldable pub is_version : String → Bool
unfolding cut is_semver
is_version v = let (numbers, tag) = cut b'-' v in is_semver numbers && is_tag tag

-- `parseSemver`, of a version that passes the pattern: the numbers and the tag.
unfoldable pub parse_semver : String → List ℕ × String
unfolding cut split number
parse_semver v =
    let (numbers, tag) = cut b'-' v in (map number (split b'.' (codes numbers)), default tag "")

abbrev pub numbers_lt : List ℕ → List ℕ → Bool
numbers_lt (a ∷ xs) (b ∷ ys) = if nat_eq a b then numbers_lt xs ys else ltb a b
numbers_lt _ _ = false

-- One comparator, and another where it finds no difference: `first(a, b) || second(a, b)`.
abbrev pub then_le {ℓ} : {A : Type ℓ} → (A → A → Bool) → (A → A → Bool) → A → A → Bool
then_le first second a b = if first a b then not (first b a) || second a b else false

abbrev pub by_key {ℓ} : {A : Type ℓ} {B : Type 0} → (B → B → Bool) → (A → B) → A → A → Bool
by_key le key a b = le (key a) (key b)

abbrev pub nat_le : ℕ → ℕ → Bool
nat_le a b = not (ltb b a)

module _ (le : String → String → Bool) where
  abbrev pub tag_le : String → String → Bool
  tag_le a b =
      if a == b then true else if is_blank a then false else if is_blank b then true else le a b

  -- `compareSemver(a, b) <= 0`
  unfoldable pub semver_le : String → String → Bool
  unfolding parse_semver
  semver_le a b =
      let (xs, s) = parse_semver a in
      let (ys, t) = parse_semver b in
      if numbers_lt xs ys then true else if numbers_lt ys xs then false else tag_le s t

  -- `compareTemplates(a, b) <= 0`
  unfoldable pub template_le : BlueprintTemplate → BlueprintTemplate → Bool
  unfolding semver_le
  template_le =
      then_le (by_key nat_le (λ t. layer_rank t.authority_layer))
        (then_le (by_key le BlueprintTemplate.id) (by_key semver_le BlueprintTemplate.version))

  -- The order of the sources of a frozen requirement.
  unfoldable pub source_le : RequirementSource → RequirementSource → Bool
  unfolding semver_le
  source_le =
      then_le (by_key nat_le (λ s. layer_rank s.authority_layer)) (
        then_le (by_key le RequirementSource.source_id)
          (by_key semver_le RequirementSource.version))

-- The loops of `validateTemplate`.
abbrev pub check_dependencies : List String → Result (Unit {0})
check_dependencies [] = ok tt
check_dependencies (d ∷ ds) = assert_canonical_id d "Dependency ID" >> check_dependencies ds

abbrev pub check_requirements : List TemplateRequirement → Result (Unit {0})
check_requirements [] = ok tt
check_requirements (r ∷ rs) = do
  assert_canonical_id r.id "Requirement ID"
  check_dependencies (default r.depends_on [])
  check_requirements rs

unfoldable pub validate_template : BlueprintTemplate → Result (Unit {0})
unfolding is_canonical_id is_version
validate_template t = do
  check (t.schema_version == "1.0.0") ("Unsupported template schema version " +++ t.schema_version)
  assert_canonical_id t.id "Template ID"
  check (is_version t.version) ("Template version must be semantic: " +++ t.version)
  check_requirements t.requirements
