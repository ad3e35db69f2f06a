-- ===== src/StakeTrade.antt =====
-- app/src/pages/api/stake-trade.ts: POST /api/stake-trade, a batch of staking and trading actions
-- behind one one-time code. The daemon's answer depends on the calls made before.
pub mod Actions
pub mod Defaults
pub mod Batch
pub mod Legs
pub mod Requested
pub mod Entries
pub mod Safety
pub mod Calls
mod Tests
use web_gui.Base.{
  ℕ, suc, Bool, true, false, not, ◌&&◌, ◌||◌, List, [], ◌∷◌, ◌++◌, Option, none, some, leb, ltb,
  length, if◌then◌else◌,
}
use web_gui.Text.{Text, codes}
use web_gui.JsMap.{Map, get, set}
use web_gui.Json.{
  Json, null, obj, arr, Fields, elements, members, fields_of, object_of, is_truthy, field,
}
use web_gui.Auth.Totp.{Bytes}
use web_gui.Gated.{
  RpcAnswer, rpc_error, other_error, safe_message, totp_from_body, Checked, bad, good, Gated, State,
  Caller, gated,
}
use Actions.{
  Action, actions, validate_params, staking_create_pool, staking_decommission_pool, order_fill,
  order_conclude,
}

pub record BatchItem : Type 0 where
  pub action : Text
  pub params : Map Json

abbrev pub max_batch : ℕ
max_batch = 5

-- `Array.isArray(body.actions) ? body.actions : (body.action ? [body] : null)`
unfoldable pub raw_entries : Json → Option (List Json)
raw_entries body = elim (get (codes "actions") (fields_of body)) [
  | some (arr entries) ↦ some (elements entries)
  | _ ↦ if is_truthy (get (codes "action") (fields_of body)) then some (body ∷ []) else none
]

abbrev pub item_of : Option Text → Option (Map Json) → Option BatchItem
item_of (some action) (some params) = some (record { action = action; params = params })
item_of _ _ = none

-- An entry that is an object with a text `action` and an object `params`.
unfoldable pub entry_item : Json → Option BatchItem
entry_item (obj fs) =
    item_of (field (codes "action") (members fs)) (object_of (get (codes "params") (members fs)))
entry_item _ = none

abbrev pub both : Option BatchItem → Option (List BatchItem) → Option (List BatchItem)
both (some item) (some items) = some (item ∷ items)
both _ _ = none

unfoldable pub entry_items : List Json → Option (List BatchItem)
entry_items [] = some []
entry_items (e ∷ es) = both (entry_item e) (entry_items es)

-- The test of one item: its error.
unfoldable pub item_error : BatchItem → Option Text
item_error item = elim (get item.action actions) [
  | none ↦ some (codes "Unknown action")
  | some action ↦ elim (validate_params action item.params) [
    | none ↦ none
    | some error ↦ some (item.action ++ (codes ": " ++ error))
  ]
]

unfoldable pub first_item_error : List BatchItem → Option Text
first_item_error [] = none
first_item_error (item ∷ items) = elim (item_error item) [
  | some error ↦ some error
  | none ↦ first_item_error items
]

-- `if (params.f === undefined) params.f = v`
unfoldable pub default_field : Text → Json → Map Json → Map Json
default_field name v p = elim (get name p) [ some w ↦ p | none ↦ set name v p ]

unfoldable pub action_defaults : Option Action → Map Json → Map Json
action_defaults (some staking_create_pool) p =
    default_field (codes "vrf_public_key") null (default_field (codes "staker_address") null p)
action_defaults (some staking_decommission_pool) p = default_field (codes "output_address") null p
action_defaults (some order_fill) p = default_field (codes "output_address") null p
action_defaults (some order_conclude) p = default_field (codes "output_address") null p
action_defaults _ p = p

unfoldable pub with_defaults : BatchItem → BatchItem
with_defaults item = record item {
  params =
      action_defaults (get item.action actions)
        (default_field (codes "options") (obj Fields.end) item.params);
}

unfoldable pub all_with_defaults : List BatchItem → List BatchItem
all_with_defaults [] = []
all_with_defaults (item ∷ items) = with_defaults item ∷ all_with_defaults items

abbrev pub invalid_body : Text
invalid_body = codes "Invalid request body"

abbrev pub checked_items : Option (List BatchItem) → Text → Checked (List BatchItem × Text)
checked_items none code = bad invalid_body
checked_items (some items) code = elim (first_item_error items) [
  | some error ↦ bad error
  | none ↦ good (all_with_defaults items, code)
]

unfoldable pub check_value : Json → Checked (List BatchItem × Text)
check_value body = elim (raw_entries body) [
  | none ↦ bad invalid_body
  | some raw ↦
      if ltb (length raw) 1 || ltb max_batch (length raw)
      then bad (codes "actions must contain 1-5 items")
      else checked_items (entry_items raw) (totp_from_body (fields_of body))
]

-- The checks in front of the gate. A body of null, and one that does not parse, throw.
unfoldable pub check_body : Option Json → Checked (List BatchItem × Text)
check_body none = bad invalid_body
check_body (some null) = bad invalid_body
check_body (some body) = check_value body

pub data Response : Type 0 where
  ok : (results : List Json) → Response
  -- with code_consumed: true
  failed : (error : Text) → (status : ℕ) → (completed : ℕ) → Response

abbrev pub Daemon : Type 0
Daemon = List BatchItem → BatchItem → RpcAnswer

-- The loop of calls, from the calls made and their results.
unfoldable pub run_batch :
    Daemon → List BatchItem → List Json → List BatchItem → Response × List BatchItem
run_batch daemon made results [] = (ok results, made)
run_batch daemon made results (item ∷ items) = elim (daemon made item) [
  | RpcAnswer.result v ↦ run_batch daemon (made ++ item ∷ []) (results ++ v ∷ []) items
  | rpc_error message code ↦
      (failed (safe_message message code) 502 (length results), made ++ item ∷ [])
  | other_error ↦ (failed (codes "Operation failed") 500 (length results), made ++ item ∷ [])
]

unfoldable pub stake_trade :
    (Bytes → Bytes → Bytes)
    → Daemon
    → Caller
    → Option Json
    → State
    → Gated (Response × List BatchItem) × State
stake_trade hmac_sha1 daemon caller body s =
    gated hmac_sha1 caller (check_body body) (run_batch daemon [] []) s
