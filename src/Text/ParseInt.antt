-- ===== src/Text/ParseInt.antt =====
-- `parseInt(s, 10)`: leading white space, an optional sign, the longest run of digits; `none` for
-- NaN. The value is exact, where a JavaScript number rounds above 2^53.
use web_gui.Base.{
  ℕ, zero, suc, ◌≡◌, refl, ◌≢◌, [], ◌∷◌, Option, none, some, arith, ◌==◌, if◌then◌else◌, All, ap,
  ◌∙◌,
}
use web_gui.Base.Int.{ℤ, pos, negsuc}
use web_gui.Text.{Text, trim_start, is_digit}
use web_gui.Text.Digits.{show, value_from, value_from-show, IsDigit, show-IsDigit, show-ne-nil}

unfoldable pub digit_prefix : Text → Text
digit_prefix [] = []
digit_prefix (c ∷ s) = if is_digit c then c ∷ digit_prefix s else []

unfoldable pub digits_value : Text → Option ℕ
digits_value [] = none
digits_value (c ∷ s) = some (value_from 0 (c ∷ s))

unfoldable pub negated : ℕ → ℤ
negated zero = pos 0
negated (suc n) = negsuc n

unfoldable pub to_int : Option ℕ → (ℕ → ℤ) → Option ℤ
to_int none f = none
to_int (some n) f = some (f n)

unfoldable pub parse_signed : Text → Option ℤ
parse_signed [] = none
parse_signed (c ∷ s) =
    if c == b'-'
    then to_int (digits_value (digit_prefix s)) negated
    else if c == b'+'
    then to_int (digits_value (digit_prefix s)) pos
    else to_int (digits_value (digit_prefix (c ∷ s))) pos

unfoldable pub parse_int : Text → Option ℤ
parse_int s = parse_signed (trim_start s)

digit_prefix_of_IsDigit : (s : Text) → All IsDigit s → digit_prefix s ≡ s
unfolding digit_prefix
digit_prefix_of_IsDigit [] h = refl
digit_prefix_of_IsDigit (c ∷ s) (d, h) = ground (arith, digit_prefix_of_IsDigit s h)

trim_start_of_IsDigit : (c : ℕ) (s : Text) → IsDigit c → trim_start (c ∷ s) ≡ c ∷ s
unfolding trim_start
trim_start_of_IsDigit c s d = ground arith

parse_signed_of_IsDigit :
    (c : ℕ) (s : Text)
    → IsDigit c
    → parse_signed (c ∷ s) ≡ to_int (digits_value (digit_prefix (c ∷ s))) pos
unfolding parse_signed
parse_signed_of_IsDigit c s d = ground arith

-- A run of digits is read as the number that it spells.
pub parse_int_of_IsDigit :
    (s : Text) → s ≢ [] → All IsDigit s → parse_int s ≡ some (pos (value_from 0 s))
unfolding parse_int digits_value to_int
parse_int_of_IsDigit [] ne h = absurd (ne refl)
parse_int_of_IsDigit (c ∷ s) ne (d, h) = rw (
  trim_start_of_IsDigit c s d,
  parse_signed_of_IsDigit c s d,
  digit_prefix_of_IsDigit (c ∷ s) (d, h),
)

-- A number is read back from its numeral.
pub parse_int-show : (n : ℕ) → parse_int (show n) ≡ some (pos n)
parse_int-show n =
    parse_int_of_IsDigit (show n) (show-ne-nil n) (show-IsDigit n)
    ∙ ap (λ k. some (pos k)) (value_from-show n)
