-- ===== src/Shared/Timestamp.antt =====
-- The texts that `requireIsoTimestamp` accepts: those that `Date.parse` reads and that
-- `toISOString` gives back unchanged. They are YYYY-MM-DDTHH:mm:ss.sssZ at a date that exists, and
-- the same with a sign and six digits for a year outside 0 to 9999, up to the range of `Date`.
use software_blueprint_hub.Shared.{
  ℕ, zero, suc, ◌+◌, ◌*◌, ◌-◌, ◌%◌, String, Bool, true, false, not, ◌&&◌, ◌||◌, Option, none, some,
  List, [], ◌∷◌, ltb, leb, nat_eq, if◌then◌else◌,
}
use software_blueprint_hub.Shared.Text.{codes, is_digit}

infixl 5 ◌>>=◌
abbrev ◌>>=◌ {ℓ κ} : {A : Type ℓ} {B : Type κ} → Option A → (A → Option B) → Option B
none >>= k = none
some a >>= k = k a

-- So many digits and the character after them: the number, and the rest.
abbrev digits : ℕ → ℕ → ℕ → List ℕ → Option (ℕ × List ℕ)
digits n sep acc [] = none
digits zero sep acc (c ∷ cs) = if nat_eq c sep then some (acc, cs) else none
digits (suc n) sep acc (c ∷ cs) =
    let rest = digits n sep (acc * 10 + (c - b'0')) cs in if is_digit c then rest else none

abbrev is_leap : ℕ → Bool
is_leap y = nat_eq (y % 4) 0 && (not (nat_eq (y % 100) 0) || nat_eq (y % 400) 0)

abbrev month_days : ℕ → ℕ → ℕ
month_days y m =
    if nat_eq m 2
    then (if is_leap y then 29 else 28)
    else if nat_eq m 4 || nat_eq m 6 || nat_eq m 9 || nat_eq m 11
    then 30
    else 31

pub record Fields : Type 0 where
  pub month : ℕ
  pub day : ℕ
  pub hour : ℕ
  pub minute : ℕ
  pub second : ℕ
  pub millisecond : ℕ

-- What follows the year.
after_year : List ℕ → Option Fields
after_year cs = do
  (mo, a) ← digits 2 b'-' 0 cs
  (d, b) ← digits 2 b'T' 0 a
  (h, e) ← digits 2 b':' 0 b
  (mi, f) ← digits 2 b':' 0 e
  (s, g) ← digits 2 b'.' 0 f
  (ms, rest) ← digits 3 b'Z' 0 g
  elim rest [
    | [] ↦
        some (record { month = mo; day = d; hour = h; minute = mi; second = s; millisecond = ms })
    | c ∷ r ↦ none
  ]

abbrev exists_at : ℕ → Fields → Bool
exists_at y f =
    leb 1 f.month
    && leb f.month 12
    && leb 1 f.day
    && leb f.day (month_days y f.month)
    && leb f.hour 23
    && leb f.minute 59
    && leb f.second 59

-- The last instant is 275760-09-13T00:00:00.000Z, the first -271821-04-20T00:00:00.000Z.
abbrev before_end : ℕ → Fields → Bool
before_end y f =
    ltb y 275760
    || (nat_eq y 275760
        && (ltb f.month 9
            || (nat_eq f.month 9
                && (ltb f.day 13
                    || (nat_eq f.day 13
                        && nat_eq (f.hour + f.minute + f.second + f.millisecond) 0)))))

abbrev after_start : ℕ → Fields → Bool
after_start y f =
    ltb y 271821 || (nat_eq y 271821 && (ltb 4 f.month || (nat_eq f.month 4 && leb 20 f.day)))

abbrev dated : (ℕ → Fields → Bool) → Option (ℕ × List ℕ) → Bool
dated test none = false
dated test (some (y, cs)) = elim (after_year cs) [
  | none ↦ false
  | some f ↦ exists_at y f && test y f
]

unfoldable pub is_iso_timestamp : String → Bool
unfolding after_year
is_iso_timestamp s = elim (codes s) [
  | [] ↦ false
  | c ∷ cs ↦
      if nat_eq c b'+'
      then dated (λ y f. leb 10000 y && before_end y f) (digits 6 b'-' 0 cs)
      else if nat_eq c b'-'
      then dated (λ y f. leb 1 y && after_start y f) (digits 6 b'-' 0 cs)
      else dated (λ y f. true) (digits 4 b'-' 0 (c ∷ cs))
]
