-- ===== src/Shared/Decimal.antt =====
-- A natural number in a template literal: its decimal digits. The fuel is the number itself and one
-- more, which is at least its count of digits.
use Prim.Native.String.{◌++◌ as ◌+++◌}
use software_blueprint_hub.Shared.{
  ℕ, zero, suc, ◌+◌, ◌/◌, ◌%◌, String, List, [], ◌∷◌, ltb, if◌then◌else◌,
}

abbrev digit_text : ℕ → List String → String
digit_text n [] = ""
digit_text zero (d ∷ ds) = d
digit_text (suc n) (d ∷ ds) = digit_text n ds

abbrev digit : ℕ → String
digit n = digit_text n ("0" ∷ "1" ∷ "2" ∷ "3" ∷ "4" ∷ "5" ∷ "6" ∷ "7" ∷ "8" ∷ "9" ∷ [])

decimal_from : ℕ → ℕ → String → String
decimal_from zero n tail = tail
decimal_from (suc fuel) n tail =
    let more = decimal_from fuel (n / 10) (digit (n % 10) +++ tail) in
    if ltb n 10 then digit n +++ tail else more

unfoldable pub decimal : ℕ → String
unfolding decimal_from
decimal n = decimal_from (n + 1) n ""
