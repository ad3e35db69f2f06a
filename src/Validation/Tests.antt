-- ===== src/Validation/Tests.antt =====
-- Runs of app/src/lib/validation.ts on concrete inputs.
use web_gui.Base.{◌≡◌, refl, true, false, some}
use web_gui.Text.{codes, trim, is_space}
use web_gui.Text.Digits.{value_from}
use web_gui.Decimal.{Decimal, parse_decimal, split_point}
use web_gui.Validation.{
  is_positive_decimal, is_valid_amount, is_evm_address, positive_parts, amount_parts, evm_parts,
}
use web_gui.Validation.Amounts.{IsAmount, is_valid_amount-IsAmount}

run : Unit {0}
unfolding is_positive_decimal is_valid_amount is_evm_address positive_parts amount_parts evm_parts
    split_point value_from trim is_space
run = tt

amounts :
    (is_valid_amount (codes " 12.5 ") 9 ≡ true)
    × (is_valid_amount (codes "12.5") 0 ≡ false)
    × (is_valid_amount (codes "0.000") 9 ≡ false)
    × (is_valid_amount (codes "1.") 9 ≡ false)
    × (is_valid_amount (codes "1e3") 9 ≡ false)
unfolding run
amounts = (refl, refl, refl, refl, refl)

others :
    (is_positive_decimal (codes "0.5") ≡ true)
    × (is_positive_decimal (codes "-1") ≡ false)
    × (is_evm_address (codes "0x00000000000000000000000000000000000000aF") ≡ true)
    × (is_evm_address (codes "0x00") ≡ false)
unfolding run
others = (refl, refl, refl, refl)

is_valid_amount-IsAmount_example :
    (d : Decimal) × ((parse_decimal (codes " 12.5 ") ≡ some d) × IsAmount 9 d)
is_valid_amount-IsAmount_example = is_valid_amount-IsAmount (codes " 12.5 ") 9 amounts.0
