-- ===== src/Params.antt =====
-- The field tests that app/src/pages/api/stake-trade.ts and app/src/pages/api/token-manage.ts share:
-- a request is a list of tests, each with the error that it gives when it fails.
pub mod Laws
use web_gui.Base.{
  ℕ, ◌*◌, ◌+◌, ◌^◌, Bool, true, false, not, ◌&&◌, ◌||◌, List, [], ◌∷◌, ◌++◌, Option, none, some,
  ◌==◌, leb, ltb, length, all, if◌then◌else◌, is_some,
}
use web_gui.Base.Int.{ℤ, pos}
use web_gui.Text.{Text, codes, is_digit}
use web_gui.Text.Digits.{value_from}
use web_gui.JsMap.{Map, get}
use web_gui.Json.{Json, text, int, object_of, is_zero, field}
use web_gui.Validation.{is_valid_amount}

abbrev pub is_letter : ℕ → Bool
is_letter c = (leb b'a' c && leb c b'z') || (leb b'A' c && leb c b'Z')

abbrev pub is_alphanumeric : ℕ → Bool
is_alphanumeric c = is_digit c || is_letter c

-- `typeof v === 'string' && re.test(v)`
abbrev pub is_str : (Text → Bool) → Option Json → Bool
is_str test (some (text t)) = test t
is_str test _ = false

-- `/^[a-z0-9]{10,120}$/i`
unfoldable pub is_id : Text → Bool
is_id t = leb 10 (length t) && leb (length t) 120 && all is_alphanumeric t

-- An object with a decimal text that is a valid amount: isAmountField, isMlAmount.
abbrev pub is_decimal_text : ℕ → Option Text → Bool
is_decimal_text max_decimals none = false
is_decimal_text max_decimals (some t) = is_valid_amount t max_decimals

abbrev pub has_amount : ℕ → Option (Map Json) → Bool
has_amount max_decimals none = false
has_amount max_decimals (some fields) =
    is_decimal_text max_decimals (field (codes "decimal") fields)

unfoldable pub is_amount_field : ℕ → Option Json → Bool
is_amount_field max_decimals v = has_amount max_decimals (object_of v)

abbrev pub Check : Type 0
Check = Bool × Text

-- The error of the first test that fails, in the order of the early returns.
unfoldable pub first_error : List Check → Option Text
first_error [] = none
first_error ((passed, error) ∷ checks) = if passed then first_error checks else some error

abbrev pub account_check : Map Json → Check
account_check p = (is_zero (get (codes "account") p), codes "account must be 0")

abbrev pub id_check : Text → Map Json → Check
id_check name p = (is_str is_id (get name p), name ++ codes " is required")

-- The test of `options` that precedes those of the action: absent, or an object.
abbrev pub options_ok : Option Json → Bool
options_ok none = true
options_ok (some v) = is_some (object_of (some v))

abbrev pub options_check : Map Json → Check
options_check p = (options_ok (get (codes "options") p), codes "options must be an object")
