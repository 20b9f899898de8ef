-- ===== src/Shared/Json.antt =====
-- `JSON.stringify` of texts, and of objects whose members are already texts.
use Prim.Native.Char.{Char, code}
use Prim.Native.String.{◌++◌ as ◌+++◌}
use software_blueprint_hub.Shared.{
  ℕ, zero, suc, ◌/◌, ◌%◌, String, List, [], ◌∷◌, ltb, nat_eq, if◌then◌else◌,
}

-- The text at a place of a list, `0` past its end.
abbrev hex_digit : ℕ → List String → String
hex_digit n [] = "0"
hex_digit zero (d ∷ ds) = d
hex_digit (suc n) (d ∷ ds) = hex_digit n ds

abbrev hex_digits : List String
hex_digits =
    "0" ∷ "1" ∷ "2" ∷ "3" ∷ "4" ∷ "5" ∷ "6" ∷ "7" ∷ "8" ∷ "9" ∷ "a" ∷ "b" ∷ "c" ∷ "d" ∷ "e" ∷ "f"
    ∷ []

-- The escapes of `QuoteJSONString`.
abbrev escape_char : Char → String
escape_char c =
    let n = code c in
    if nat_eq n 8
    then "\\b"
    else if nat_eq n 9
    then "\\t"
    else if nat_eq n 10
    then "\\n"
    else if nat_eq n 12
    then "\\f"
    else if nat_eq n 13
    then "\\r"
    else if nat_eq n 34
    then "\\\""
    else if nat_eq n 92
    then "\\\\"
    else if ltb n 32
    then "\\u00" +++ hex_digit (n / 16) hex_digits +++ hex_digit (n % 16) hex_digits
    else String.◌∷◌ c String.[]

abbrev escape : String → String
escape String.[] = String.[]
escape (String.◌∷◌ c s) = escape_char c +++ escape s

unfoldable pub quote : String → String
quote s = "\"" +++ escape s +++ "\""

-- Texts with commas between them.
unfoldable pub commas : List String → String
commas [] = String.[]
commas (x ∷ []) = x
commas (x ∷ y ∷ xs) = x +++ "," +++ commas (y ∷ xs)

-- One member of an object.
unfoldable pub member : String → String → String
unfolding quote
member name value = quote name +++ ":" +++ value

unfoldable pub object : List String → String
unfolding commas
object members = "{" +++ commas members +++ "}"

unfoldable pub array : List String → String
unfolding commas
array items = "[" +++ commas items +++ "]"
