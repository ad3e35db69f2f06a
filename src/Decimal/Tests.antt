-- ===== src/Decimal/Tests.antt =====
-- Runs of app/src/lib/decimal.ts on concrete inputs.
use web_gui.Base.{ℕ, xor, ◌*◌, ◌+◌, ◌^◌, ◌≡◌, refl, ◌⊎◌, none, some, false}
use web_gui.Base.Int.{pos}
use web_gui.Text.{Text, codes, trim, is_space, pad_start}
use web_gui.Text.Digits.{show, value_from}
use web_gui.Decimal.{
  Decimal, parse_decimal, parse_signed, parse_parts, mul_parsed, mul_decimal, div_parsed,
  div_decimal, format_unscaled, pointed, padded, trim_trailing_zeros, has_point, zero_if_bare,
  drop_trailing, drop_point,
}
use web_gui.Decimal.Exact.{IsShortestOf, IsHalfUp, mul_decimal_exact, div_decimal_rounded}

run : Unit {0}
unfolding xor parse_decimal parse_signed parse_parts trim is_space value_from mul_decimal mul_parsed
    div_decimal div_parsed format_unscaled pointed padded pad_start show trim_trailing_zeros
    has_point zero_if_bare drop_trailing drop_point web_gui.Text.text_eq
run = tt

mul_tests :
    (mul_decimal (codes "0.1") (codes "0.3") ≡ some (codes "0.03"))
    × (mul_decimal (codes "1000000") (codes "10") ≡ some (codes "10000000"))
    × (mul_decimal (codes "-0.5") (codes " 2.0 ") ≡ some (codes "-1"))
    × (mul_decimal (codes "-0.5") (codes "0") ≡ some (codes "0"))
    × (mul_decimal (codes "1e5") (codes "1") ≡ none)
unfolding run
mul_tests = (refl, refl, refl, refl, refl)

div_tests :
    (div_decimal (codes "1") (codes "3") (pos 8) ≡ some (codes "0.33333333"))
    × (div_decimal (codes "2") (codes "3") (pos 2) ≡ some (codes "0.67"))
    × (div_decimal (codes "1") (codes "0.00") (pos 8) ≡ none)
unfolding run
div_tests = (refl, refl, refl)

abbrev three_tenths : Decimal
three_tenths = record { neg = false; unscaled = 3; scale = 1 }

read : parse_decimal (codes "0.3") ≡ some three_tenths
unfolding run
read = refl

mul_decimal_exact_example :
    (text : Text) × (mul_decimal (codes "0.3") (codes "0.3") ≡ some text)
    × ((d : Decimal) × ((parse_decimal text ≡ some d)
          × IsShortestOf (record { neg = false; unscaled = 9; scale = 2 }) d))
unfolding xor
mul_decimal_exact_example = mul_decimal_exact (codes "0.3") (codes "0.3") read read

div_decimal_rounded_example :
    ((three_tenths.unscaled ≡ 0) × (div_decimal (codes "0.3") (codes "0.3") (pos 4) ≡ none))
    ⊎ ((text : Text) × ((div_decimal (codes "0.3") (codes "0.3") (pos 4) ≡ some text)
          × ((q : ℕ) × ((d : Decimal) × ((parse_decimal text ≡ some d)
                  × (IsShortestOf (record { neg = false; unscaled = q; scale = 4 }) d
                      × IsHalfUp (3 * 10 ^ (1 + 4)) (3 * 10 ^ 1) q))))))
unfolding xor
div_decimal_rounded_example = div_decimal_rounded (codes "0.3") (codes "0.3") 4 read read
