-- ===== src/Validation.antt =====
-- app/src/lib/validation.ts: the checks of amounts and addresses that a user enters.
pub mod Amounts
mod Tests
use web_gui.Base.{
  ℕ, ◌+◌, ◌*◌, ◌^◌, Bool, true, false, ◌&&◌, ◌||◌, [], ◌∷◌, ◌++◌, Option, none, some, ◌==◌, leb,
  ltb, length, all,
}
use web_gui.Text.{Text, trim, is_digit}
use web_gui.Text.Digits.{value_from}
use web_gui.Decimal.{split_point, is_digits}

-- `parseFloat(t) > 0` on digits with a fraction: a number is rounded to 0 up to half the smallest
-- positive double, which is 2 ^ -1074.
abbrev pub float_is_positive : (unscaled : ℕ) → (scale : ℕ) → Bool
float_is_positive unscaled scale = ltb (10 ^ scale) (unscaled * 2 ^ 1075)

-- `/^\d+(\.\d+)?$/`, and the positive value
unfoldable pub positive_parts : Text × Option Text → Bool
positive_parts (whole, none) = is_digits whole && float_is_positive (value_from 0 whole) 0
positive_parts (whole, some fraction) =
    is_digits whole
    && is_digits fraction
    && float_is_positive (value_from 0 (whole ++ fraction)) (length fraction)

unfoldable pub is_positive_decimal : Text → Bool
is_positive_decimal value = positive_parts (split_point (trim value))

-- The same with at most 38 digits before the point and `max_decimals` behind it.
unfoldable pub amount_parts : ℕ → Text × Option Text → Bool
amount_parts max_decimals (whole, fraction) =
    leb (length whole) 38
    && positive_parts (whole, fraction)
    && elim fraction [ none ↦ true | some digits ↦ leb (length digits) max_decimals ]

unfoldable pub is_valid_amount : Text → ℕ → Bool
is_valid_amount value max_decimals = amount_parts max_decimals (split_point (trim value))

abbrev pub is_hex_digit : ℕ → Bool
is_hex_digit c = is_digit c || (leb b'a' c && leb c b'f') || (leb b'A' c && leb c b'F')

unfoldable pub evm_parts : Text → Bool
evm_parts (z ∷ x ∷ s) = (z == b'0') && (x == b'x') && (length s == 40) && all is_hex_digit s
evm_parts _ = false

unfoldable pub is_evm_address : Text → Bool
is_evm_address value = evm_parts (trim value)
