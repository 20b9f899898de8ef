-- ===== src/Constitution/Checks.antt =====
-- The small validators of packages/application/src/constitution-authority.ts. Counts and versions
-- are integers by their type here; what is left of the integer checks is the lower bound.
use Prim.Native.String.{◌++◌ as ◌+++◌}
use software_blueprint_hub.Shared.{
  ℕ, String, Bool, false, not, some, List, [], ◌∷◌, map, if◌then◌else◌, Result, ok, ◌>>=◌, ◌>>◌,
  check, includes, ltb, leb, nat_eq,
}
use software_blueprint_hub.Shared.Text.{trim, is_blank, codes, split, number, is_semver, is_sha256}
use Prim.Native.Char.{Char, code}
use software_blueprint_hub.Shared.Timestamp.{is_iso_timestamp}
use software_blueprint_hub.Constitution.Transition.{clean_ids}

-- `nonEmpty`
unfoldable pub non_empty : String → String → Result String
non_empty value label = do
  check (not (is_blank (trim value))) (label +++ " is required")
  ok (trim value)

-- `semver`
unfoldable pub semver : String → String → Result String
semver value label = do
  normalized ← non_empty value label
  check (is_semver normalized) (label +++ " must use major.minor.patch semantic versioning")
  ok normalized

-- `toLowerCase` on ASCII. Outside ASCII no character has a lower case among those of a digest, so
-- the test of `sha256Digest`, and the text that passes it, are those of the full mapping.
abbrev pub lower_from : String → String → Char → Char
lower_from (String.◌∷◌ u us) (String.◌∷◌ l ls) c =
    if nat_eq (code u) (code c) then l else lower_from us ls c
lower_from String.[] ls c = c
lower_from (String.◌∷◌ u us) String.[] c = c

unfoldable pub to_lower : String → String
to_lower String.[] = String.[]
to_lower (String.◌∷◌ c s) =
    String.◌∷◌ (lower_from "ABCDEFGHIJKLMNOPQRSTUVWXYZ" "abcdefghijklmnopqrstuvwxyz" c) (to_lower s)

-- `sha256Digest`
unfoldable pub sha256_digest : String → Result String
sha256_digest value = do
  trimmed ← non_empty value "digest"
  let normalized = to_lower trimmed
  check (is_sha256 normalized) "digest must be sha256:<64 lowercase hex characters>"
  ok normalized

-- `requireIsoTimestamp`
unfoldable pub require_iso_timestamp : String → Result String
require_iso_timestamp value = do
  normalized ← non_empty value "timestamp"
  check (is_iso_timestamp normalized) "timestamp must be an exact ISO-8601 UTC timestamp"
  ok normalized

abbrev pub compatibility_risks : List String
compatibility_risks = "low" ∷ "medium" ∷ "high" ∷ "critical" ∷ []

-- `compatibilityRisk`
unfoldable pub check_risk : String → Result String
check_risk value = do
  check (includes compatibility_risks value)
      "compatibilityRisk must be low, medium, high, or critical"
  ok value

-- `left[index] - right[index]`, for the three numbers of a version: the sign of the first that
-- differs. The parts are digits, so they are compared as natural numbers.
abbrev pub parts_lt : List ℕ → List ℕ → Bool
parts_lt (a ∷ as') (b ∷ bs) = if nat_eq a b then parts_lt as' bs else ltb a b
parts_lt [] bs = false
parts_lt (a ∷ as') [] = false

abbrev pub version_parts : String → List ℕ
version_parts v = map number (split b'.' (codes v))

-- `compareSemver(a, b) > 0`
unfoldable pub semver_greater : String → String → Bool
unfolding split number
semver_greater a b = parts_lt (version_parts b) (version_parts a)

-- `uniqueStrings`
unfoldable pub unique_strings : List String → List String
unique_strings values = clean_ids (some values)

-- `positiveInteger`
abbrev pub positive_integer : ℕ → String → Result (Unit {0})
positive_integer value label = check (leb 1 value) (label +++ " must be a positive integer")
