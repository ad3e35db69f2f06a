-- ===== src/TokenManage/Actions.antt =====
-- The actions of app/src/pages/api/token-manage.ts and the tests of their parameters.
use web_gui.Base.{
  Bool, true, false, not, ◌&&◌, ◌||◌, List, [], ◌∷◌, Option, none, some, leb, length, all, is_some,
}
use web_gui.Base.Int.{pos}
use web_gui.Text.{Text, codes, text_eq}
use web_gui.JsMap.{Map, get}
use web_gui.Json.{Json, int, object_of, field, is_null, is_nullish, is_bool, is_zero}
use web_gui.Validation.{is_hex_digit}
use web_gui.Params.{
  Check, is_str, is_alphanumeric, is_amount_field, first_error, account_check, id_check,
  options_check,
}

pub data Action : Type 0 where
  token_issue_new token_nft_issue_new token_mint token_unmint token_lock_supply : Action
  token_freeze token_unfreeze token_change_authority token_change_metadata_uri : Action

-- The set ACTIONS, with the case of the switch.
abbrev pub actions : Map Action
actions =
    (codes "token_issue_new", token_issue_new)
    ∷ (codes "token_nft_issue_new", token_nft_issue_new)
    ∷ (codes "token_mint", token_mint)
    ∷ (codes "token_unmint", token_unmint)
    ∷ (codes "token_lock_supply", token_lock_supply)
    ∷ (codes "token_freeze", token_freeze)
    ∷ (codes "token_unfreeze", token_unfreeze)
    ∷ (codes "token_change_authority", token_change_authority)
    ∷ (codes "token_change_metadata_uri", token_change_metadata_uri)
    ∷ []

-- `/^[0-9a-fA-F]*$/`
abbrev pub is_hex : Text → Bool
is_hex t = all is_hex_digit t

-- `/^[A-Za-z0-9]{1,5}$/`
unfoldable pub is_ticker : Text → Bool
is_ticker t = leb 1 (length t) && leb (length t) 5 && all is_alphanumeric t

abbrev pub hex_in : Option (Map Json) → Bool
hex_in none = false
hex_in (some fields) = is_str is_hex (get (codes "hex") fields)

-- `v === '' || v === null || (isObj(v) && isStr(v.hex, HEX_RE))`
unfoldable pub is_hex_field : Option Json → Bool
is_hex_field v = is_str (λ t. text_eq t []) v || is_null v || hex_in (object_of v)

abbrev pub is_decimals : Option Json → Bool
is_decimals (some (int (pos n))) = leb n 18
is_decimals _ = false

-- `p.metadata` as an object; the tests of its fields come after the one that it is an object.
abbrev pub fields_or_none : Option (Map Json) → Map Json
fields_or_none none = []
fields_or_none (some fields) = fields

abbrev pub metadata_of : Map Json → Map Json
metadata_of p = fields_or_none (object_of (get (codes "metadata") p))

abbrev pub is_text : Text → Option Text → Bool
is_text t none = false
is_text t (some u) = text_eq u t

-- The supply of an issued token: left out, or an object that is Fixed with an amount or of another
-- type.
abbrev pub supply_checks : Option Json → List Check
supply_checks supply =
    let s = fields_or_none (object_of supply) in
    let kind = field (codes "type") s in
    let fixed = is_text (codes "Fixed") kind in
    (is_nullish supply || is_some (object_of supply), codes "token_supply is invalid")
    ∷ (
      not fixed || is_amount_field 18 (get (codes "content") s),
      codes "token_supply amount is invalid",
    )
    ∷ (is_nullish supply || is_some kind, codes "token_supply type is invalid")
    ∷ []

abbrev pub destination_checks : Map Json → List Check → List Check
destination_checks p rest =
    account_check p
    ∷ id_check (codes "destination_address") p
    ∷ (is_some (object_of (get (codes "metadata") p)), codes "metadata is required")
    ∷ rest

abbrev pub ticker_error : Text
ticker_error = codes "ticker must be 1-5 letters/digits"

abbrev pub amount_check : Map Json → Check
amount_check p = (is_amount_field 18 (get (codes "amount") p), codes "amount is invalid")

-- The cases of the switch in validateParams.
unfoldable pub action_checks : Action → Map Json → List Check
action_checks token_issue_new p =
    let m = metadata_of p in
    destination_checks p (
      (is_str is_ticker (get (codes "token_ticker") m), ticker_error)
      ∷ (is_decimals (get (codes "number_of_decimals") m), codes "number_of_decimals must be 0-18")
      ∷ (is_hex_field (get (codes "metadata_uri") m), codes "metadata_uri is invalid")
      ∷ (is_bool (get (codes "is_freezable") m), codes "is_freezable must be a boolean")
      ∷ supply_checks (get (codes "token_supply") m))
action_checks token_nft_issue_new p =
    let m = metadata_of p in
    let ticker = get (codes "ticker") m in
    let description = get (codes "description") m in
    destination_checks p (
      (is_str (λ t. leb (length t) 64) (get (codes "media_hash") m), codes "media_hash is invalid")
      ∷ (is_str (λ t. leb (length t) 200) (get (codes "name") m), codes "name is invalid")
      ∷ (is_null description || is_str (λ t. true) description, codes "description is invalid")
      ∷ (is_null ticker || is_str is_ticker ticker, ticker_error)
      ∷ (is_null (get (codes "creator") m), codes "creator must be null")
      ∷ (
        is_hex_field (get (codes "icon_uri") m)
            && is_hex_field (get (codes "media_uri") m)
            && is_hex_field (get (codes "additional_metadata_uri") m),
        codes "metadata URIs are invalid",
      )
      ∷ [])
action_checks token_mint p =
    account_check p
    ∷ id_check (codes "token_id") p
    ∷ id_check (codes "address") p
    ∷ amount_check p
    ∷ []
action_checks token_unmint p = account_check p ∷ id_check (codes "token_id") p ∷ amount_check p ∷ []
action_checks token_lock_supply p =
    (is_zero (get (codes "account_index") p), codes "account_index must be 0")
    ∷ id_check (codes "token_id") p
    ∷ []
action_checks token_freeze p =
    account_check p
    ∷ id_check (codes "token_id") p
    ∷ (is_bool (get (codes "is_unfreezable") p), codes "is_unfreezable must be a boolean")
    ∷ []
action_checks token_unfreeze p = account_check p ∷ id_check (codes "token_id") p ∷ []
action_checks token_change_authority p =
    account_check p ∷ id_check (codes "token_id") p ∷ id_check (codes "address") p ∷ []
action_checks token_change_metadata_uri p =
    account_check p
    ∷ id_check (codes "token_id") p
    ∷ (is_hex_field (get (codes "metadata_uri") p), codes "metadata_uri is invalid")
    ∷ []

unfoldable pub validate_params : Action → Map Json → Option Text
validate_params action p = first_error (options_check p ∷ action_checks action p)
