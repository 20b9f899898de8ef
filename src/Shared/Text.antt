-- ===== src/Shared/Text.antt =====
-- The JavaScript string operations that the source uses: trim, the regular expressions as tests on
-- code points, and the default order of `Array.prototype.sort`, by UTF-16 code units.
use Prim.Native.Nat.{ℕ, ◌+◌, ◌-◌, ◌*◌, ◌/◌, ◌%◌}
use Prim.Native.Char.{Char, code}
use Prim.Native.String.{String}
use mathlib.Core.Path.{◌≡◌, refl}
use mathlib.Core.Bool.{Bool, true, false, ◌&&◌, ◌||◌}
use mathlib.Core.Option.{Option, none, some}
use mathlib.Core.List.{List, [], ◌∷◌}
use native.Mathlib.Omega.{arith}
use software_blueprint_hub.Shared.Tests.{ltb, leb, nat_eq, if◌then◌else◌}
use software_blueprint_hub.Shared.Lists.{length, all}
use software_blueprint_hub.Shared.Sorting.{sort}

-- WhiteSpace and LineTerminator of ECMAScript, which `trim` removes.
abbrev pub is_space : ℕ → Bool
is_space c =
    (leb 9 c && leb c 13)
    || nat_eq c 32
    || nat_eq c 0xA0
    || nat_eq c 0x1680
    || (leb 0x2000 c && leb c 0x200A)
    || nat_eq c 0x2028
    || nat_eq c 0x2029
    || nat_eq c 0x202F
    || nat_eq c 0x205F
    || nat_eq c 0x3000
    || nat_eq c 0xFEFF

-- A string is falsy when it is empty.
abbrev pub is_blank : String → Bool
is_blank String.[] = true
is_blank (String.◌∷◌ c s) = false

unfoldable pub trim_start : String → String
trim_start String.[] = String.[]
trim_start (String.◌∷◌ c s) = if is_space (code c) then trim_start s else String.◌∷◌ c s

-- One character before a text whose end is already trimmed.
abbrev pub cons_trimmed : Char → String → String
cons_trimmed c s = if is_blank s && is_space (code c) then String.[] else String.◌∷◌ c s

unfoldable pub trim_end : String → String
trim_end String.[] = String.[]
trim_end (String.◌∷◌ c s) = cons_trimmed c (trim_end s)

unfoldable pub trim : String → String
unfolding trim_start trim_end
trim s = trim_end (trim_start s)

-- The code points of a text.
abbrev pub codes : String → List ℕ
codes String.[] = []
codes (String.◌∷◌ c s) = code c ∷ codes s

abbrev pub is_digit : ℕ → Bool
is_digit c = leb b'0' c && leb c b'9'

abbrev pub is_lower : ℕ → Bool
is_lower c = leb b'a' c && leb c b'z'

abbrev pub is_upper : ℕ → Bool
is_upper c = leb b'A' c && leb c b'Z'

-- [a-f0-9]
abbrev pub is_hex : ℕ → Bool
is_hex c = is_digit c || (leb b'a' c && leb c b'f')

-- `^[class]{n}$`
abbrev pub run_of : (ℕ → Bool) → ℕ → List ℕ → Bool
run_of p n cs = nat_eq (length cs) n && all p cs

-- `^[class]+$`
abbrev pub some_of : (ℕ → Bool) → List ℕ → Bool
some_of p cs = leb 1 (length cs) && all p cs

-- What follows a prefix.
unfoldable pub after : List ℕ → List ℕ → Option (List ℕ)
after [] cs = some cs
after (p ∷ ps) [] = none
after (p ∷ ps) (c ∷ cs) = if nat_eq p c then after ps cs else none

-- `value.split(c)`, on code points.
abbrev pub cons_first : ℕ → List (List ℕ) → List (List ℕ)
cons_first c [] = (c ∷ []) ∷ []
cons_first c (s ∷ ss) = (c ∷ s) ∷ ss

unfoldable pub split : ℕ → List ℕ → List (List ℕ)
split sep [] = [] ∷ []
split sep (c ∷ cs) =
    let rest = split sep cs in if nat_eq c sep then [] ∷ rest else cons_first c rest

-- `Number(digits)`, for decimal digits.
unfoldable pub number_from : ℕ → List ℕ → ℕ
number_from acc [] = acc
number_from acc (c ∷ cs) = number_from (acc * 10 + (c - b'0')) cs

unfoldable pub number : List ℕ → ℕ
unfolding number_from
number cs = number_from 0 cs

-- /^[a-f0-9]{40}$/
unfoldable pub is_git_sha : String → Bool
is_git_sha s = run_of is_hex 40 (codes s)

abbrev pub hex_64 : Option (List ℕ) → Bool
hex_64 none = false
hex_64 (some cs) = run_of is_hex 64 cs

-- /^sha256:[a-f0-9]{64}$/
unfoldable pub is_sha256 : String → Bool
unfolding after
is_sha256 s = hex_64 (after (codes "sha256:") (codes s))

-- /^\d+$/
unfoldable pub is_numeric : String → Bool
is_numeric s = some_of is_digit (codes s)

-- /^\d+\.\d+\.\d+$/
unfoldable pub is_semver : String → Bool
unfolding split
is_semver s =
    let parts = split b'.' (codes s) in nat_eq (length parts) 3 && all (some_of is_digit) parts

-- A code point as UTF-16 code units.
abbrev pub units : List ℕ → List ℕ
units [] = []
units (c ∷ cs) =
    let rest = units cs in
    if ltb c 0x10000
    then c ∷ rest
    else (0xD800 + (c - 0x10000) / 0x400) ∷ (0xDC00 + (c - 0x10000) % 0x400) ∷ rest

unfoldable pub units_le : List ℕ → List ℕ → Bool
units_le [] ys = true
units_le (x ∷ xs) [] = false
units_le (x ∷ xs) (y ∷ ys) = if nat_eq x y then units_le xs ys else ltb x y

unfoldable pub text_le : String → String → Bool
unfolding units_le
text_le s t = units_le (units (codes s)) (units (codes t))

-- `values.sort()`
unfoldable pub sort_texts : List String → List String
unfolding sort text_le
sort_texts = sort text_le

pub units_le_total : (xs ys : List ℕ) → units_le xs ys ≡ false → units_le ys xs ≡ true
unfolding units_le
units_le_total [] ys h = cc
units_le_total (x ∷ xs) [] h = refl
units_le_total (x ∷ xs) (y ∷ ys) h = ground (arith, units_le_total xs ys)

pub units_le_trans :
    (xs ys zs : List ℕ) → units_le xs ys ≡ true → units_le ys zs ≡ true → units_le xs zs ≡ true
unfolding units_le
units_le_trans [] ys zs h k = refl
units_le_trans (x ∷ xs) [] zs h k = cc
units_le_trans (x ∷ xs) (y ∷ ys) [] h k = cc
units_le_trans (x ∷ xs) (y ∷ ys) (z ∷ zs) h k = ground (arith, units_le_trans xs ys zs)

pub text_le_total : (s t : String) → text_le s t ≡ false → text_le t s ≡ true
unfolding text_le
text_le_total s t = units_le_total (units (codes s)) (units (codes t))

pub text_le_trans : (s t u : String) → text_le s t ≡ true → text_le t u ≡ true → text_le s u ≡ true
unfolding text_le
text_le_trans s t u = units_le_trans (units (codes s)) (units (codes t)) (units (codes u))
