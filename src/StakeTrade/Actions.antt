-- ===== src/StakeTrade/Actions.antt =====
-- The actions of app/src/pages/api/stake-trade.ts and the tests of their parameters.
use web_gui.Base.{
  ℕ, ◌+◌, ◌*◌, ◌^◌, Bool, false, not, ◌&&◌, List, [], ◌∷◌, ◌++◌, Option, none, some, leb, ltb,
  length, all, if◌then◌else◌,
}
use web_gui.Text.{Text, codes, text_eq, is_digit}
use web_gui.Text.Digits.{value_from}
use web_gui.JsMap.{Map, get}
use web_gui.Json.{Json, object_of, field, is_nullish}
use web_gui.Decimal.{split_point, is_digits}
use web_gui.Validation.{is_valid_amount, float_is_positive}
use web_gui.Params.{
  Check, is_id, is_str, is_amount_field, first_error, account_check, id_check, options_check,
}

pub data Action : Type 0 where
  delegation_create delegation_stake delegation_withdraw staking_sweep_delegation : Action
  staking_create_pool staking_decommission_pool : Action
  order_create order_fill order_conclude order_freeze : Action

-- The set ACTIONS, with the case of the switch.
abbrev pub actions : Map Action
actions =
    (codes "delegation_create", delegation_create)
    ∷ (codes "delegation_stake", delegation_stake)
    ∷ (codes "delegation_withdraw", delegation_withdraw)
    ∷ (codes "staking_sweep_delegation", staking_sweep_delegation)
    ∷ (codes "staking_create_pool", staking_create_pool)
    ∷ (codes "staking_decommission_pool", staking_decommission_pool)
    ∷ (codes "order_create", order_create)
    ∷ (codes "order_fill", order_fill)
    ∷ (codes "order_conclude", order_conclude)
    ∷ (codes "order_freeze", order_freeze)
    ∷ []

abbrev pub coin_decimals : ℕ
coin_decimals = 11

-- `/^[1-9][0-9]{0,39}$/`
unfoldable pub is_atoms : Text → Bool
is_atoms [] = false
is_atoms (c ∷ s) = leb b'1' c && leb c b'9' && all is_digit s && leb (length s) 39

abbrev pub decimal_or_atoms : ℕ → Option Text → Option Text → Bool
decimal_or_atoms max_decimals (some decimal) atoms = is_valid_amount decimal max_decimals
decimal_or_atoms max_decimals none (some atoms) = is_atoms atoms
decimal_or_atoms max_decimals none none = false

abbrev pub coin_fields : ℕ → Option (Map Json) → Bool
coin_fields max_decimals none = false
coin_fields max_decimals (some a) =
    decimal_or_atoms max_decimals (field (codes "decimal") a) (field (codes "atoms") a)

unfoldable pub is_coin_amount : ℕ → Option Json → Bool
is_coin_amount max_decimals v = coin_fields max_decimals (object_of v)

abbrev pub coin_content : Option (Map Json) → Bool
coin_content none = false
coin_content (some c) = is_coin_amount coin_decimals (get (codes "amount") c)

abbrev pub token_content : Option (Map Json) → Bool
token_content none = false
token_content (some c) =
    is_str is_id (get (codes "id") c) && is_coin_amount 18 (get (codes "amount") c)

abbrev pub leg_of_type : Option Text → Option (Map Json) → Bool
leg_of_type none content = false
leg_of_type (some t) content =
    if text_eq t (codes "Coin")
    then coin_content content
    else text_eq t (codes "Token") && token_content content

abbrev pub leg_fields : Option (Map Json) → Bool
leg_fields none = false
leg_fields (some leg) =
    leg_of_type (field (codes "type") leg) (object_of (get (codes "content") leg))

unfoldable pub is_order_leg : Option Json → Bool
is_order_leg v = leg_fields (object_of v)

-- `parseFloat(t) > 1000` on a decimal: above 1000 by more than half the distance of the doubles there.
abbrev pub float_exceeds_1000 : (unscaled : ℕ) → (scale : ℕ) → Bool
float_exceeds_1000 unscaled scale = ltb (10 ^ scale * (1000 * 2 ^ 44 + 1)) (unscaled * 2 ^ 44)

-- `/^\d{1,20}(\.\d{1,18})?$/`, and in (0, 1000]
unfoldable pub ratio_parts : Text × Option Text → Bool
ratio_parts (whole, none) =
    is_digits whole
    && leb (length whole) 20
    && float_is_positive (value_from 0 whole) 0
    && not (float_exceeds_1000 (value_from 0 whole) 0)
ratio_parts (whole, some fraction) =
    is_digits whole
    && leb (length whole) 20
    && is_digits fraction
    && leb (length fraction) 18
    && float_is_positive (value_from 0 (whole ++ fraction)) (length fraction)
    && not (float_exceeds_1000 (value_from 0 (whole ++ fraction)) (length fraction))

unfoldable pub is_ratio : Text → Bool
is_ratio t = ratio_parts (split_point t)

abbrev pub amount_check : Text → Text → ℕ → Map Json → Check
amount_check name error max_decimals p = (is_amount_field max_decimals (get name p), error)

abbrev pub null_check : Text → Map Json → Check
null_check name p = (is_nullish (get name p), name ++ codes " must be null")

abbrev pub amount_error : Text
amount_error = codes "amount is invalid"

-- The cases of the switch in validateParams.
unfoldable pub action_checks : Action → Map Json → List Check
action_checks delegation_create p =
    account_check p ∷ id_check (codes "pool_id") p ∷ id_check (codes "address") p ∷ []
action_checks delegation_stake p =
    account_check p
    ∷ id_check (codes "delegation_id") p
    ∷ amount_check (codes "amount") amount_error coin_decimals p
    ∷ []
action_checks delegation_withdraw p =
    account_check p
    ∷ id_check (codes "delegation_id") p
    ∷ amount_check (codes "amount") amount_error coin_decimals p
    ∷ id_check (codes "address") p
    ∷ []
action_checks staking_sweep_delegation p =
    account_check p
    ∷ id_check (codes "delegation_id") p
    ∷ id_check (codes "destination_address") p
    ∷ []
action_checks staking_create_pool p =
    account_check p
    ∷ amount_check (codes "amount") amount_error coin_decimals p
    ∷ amount_check (codes "cost_per_block") (codes "cost_per_block is invalid") coin_decimals p
    ∷ (
      is_str is_ratio (get (codes "margin_ratio_per_thousand") p),
      codes "margin_ratio_per_thousand must be a ratio in (0, 1000]",
    )
    ∷ id_check (codes "decommission_address") p
    ∷ null_check (codes "staker_address") p
    ∷ null_check (codes "vrf_public_key") p
    ∷ []
action_checks staking_decommission_pool p =
    account_check p ∷ id_check (codes "pool_id") p ∷ null_check (codes "output_address") p ∷ []
action_checks order_create p =
    account_check p
    ∷ (is_order_leg (get (codes "give") p), codes "give leg is invalid")
    ∷ (is_order_leg (get (codes "ask") p), codes "ask leg is invalid")
    ∷ id_check (codes "conclude_address") p
    ∷ []
action_checks order_fill p =
    account_check p
    ∷ id_check (codes "order_id") p
    ∷ amount_check (codes "fill_amount_in_ask_currency") (codes "fill amount is invalid") 18 p
    ∷ null_check (codes "output_address") p
    ∷ []
action_checks order_conclude p =
    account_check p ∷ id_check (codes "order_id") p ∷ null_check (codes "output_address") p ∷ []
action_checks order_freeze p =
    account_check p ∷ id_check (codes "order_id") p ∷ null_check (codes "output_address") p ∷ []

unfoldable pub validate_params : Action → Map Json → Option Text
validate_params action p = first_error (options_check p ∷ action_checks action p)
