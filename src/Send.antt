-- ===== src/Send.antt =====
-- app/src/pages/api/send.ts: POST /api/send. The answer of the wallet daemon is a parameter; the
-- state is that of requireStepUp, and the result names the daemon call that was made.

pub mod Guards
pub mod Codes
mod Tests
use web_gui.Base.{
  ℕ, ◌+◌, Bool, true, false, not, ◌&&◌, ◌||◌, [], ◌∷◌, ◌++◌, Option, none, some, leb, if◌then◌else◌,
}
use web_gui.Base.Int.{ℤ, pos, negsuc}
use web_gui.Text.{Text, codes, text_eq, is_nonempty, lower_unit}
use web_gui.JsMap.{Map}
use web_gui.Json.{Json, field, or_empty, trimmed}
use web_gui.Gated.{safe_message, totp_from_body}
use web_gui.Auth.RateLimit.{Attempts}
use web_gui.Auth.Totp.{Bytes}
use web_gui.StepUp.{StepUpState, StepUpResult, require_step_up}
use web_gui.Validation.{is_valid_amount}
use web_gui.Bech32.{DecodeResult, decoded, thrown, decode, bech32m, Bech32Chain, hrp_for_network}

-- The call of the wallet daemon: address_send or token_send.
pub data DaemonCall : Type 0 where
  address_send : (address amount : Text) → DaemonCall
  token_send : (token_id address amount : Text) → DaemonCall

pub data DaemonAnswer : Type 0 where
  sent : (tx_id : Text) → DaemonAnswer
  -- WalletRpcError
  rpc_error : (message : Text) → (code : ℤ) → DaemonAnswer
  -- any other exception
  other_error : DaemonAnswer

pub data Response : Type 0 where
  sent : (tx_id : Text) → Response
  refused : (error : Text) → (status : ℕ) → Response
  -- a failure behind the gate, with code_consumed: true
  failed : (error : Text) → (status : ℕ) → Response

pub data AssetType : Type 0 where
  ml : AssetType
  token : AssetType

-- The strict test of `asset_type`.
unfoldable pub asset_type_of : Option Text → Option AssetType
asset_type_of none = none
asset_type_of (some t) =
    if text_eq t (codes "ml")
    then some ml
    else if text_eq t (codes "token")
    then some token
    else none

abbrev pub precision : AssetType → ℕ
precision ml = 9
precision token = 18

abbrev pub is_token : AssetType → Bool
is_token ml = false
is_token token = true

unfoldable pub answered : DaemonAnswer → Response
answered (sent tx_id) = sent tx_id
answered (rpc_error message code) = failed (safe_message message code) 502
answered other_error = failed (codes "Send failed") 500

-- A checked request.
pub record SendRequest : Type 0 where
  pub asset_type : AssetType
  pub address : Text
  pub amount : Text
  pub token_id : Text

unfoldable pub call_of : SendRequest → DaemonCall
call_of r = elim r.asset_type [
  | ml ↦ address_send r.address r.amount
  | token ↦ token_send r.token_id r.address r.amount
]

pub data Checked : Type 0 where
  bad : (error : Text) → Checked
  good : SendRequest → Checked

-- `expectedHrp && prefix !== expectedHrp`
abbrev pub is_foreign : Option Text → Text → Bool
is_foreign none prefix = false
is_foreign (some expected) prefix = is_nonempty expected && not (text_eq prefix expected)

foreign_error : Text → Text → Text
foreign_error prefix expected =
    codes "Destination address looks like a \""
    ++ prefix
    ++ codes "\" address - this network expects \""
    ++ expected
    ++ codes "\" addresses"

module _ (to_lower : Text → Text) (network : Option Text) where
  -- `hrpForNetwork('ml', (process.env.NETWORK ?? 'mainnet').toLowerCase())`
  unfoldable pub expected_hrp : Option Text
  expected_hrp = elim network [
    | none ↦ hrp_for_network Bech32Chain.ml (to_lower (codes "mainnet"))
    | some n ↦ hrp_for_network Bech32Chain.ml (to_lower n)
  ]

  unfoldable pub check_address : SendRequest → Checked
  unfolding foreign_error
  check_address r = elim (decode to_lower r.address bech32m) [
    | thrown e ↦ bad (codes "Destination address is not a valid Mintlayer address")
    | decoded d ↦
        if is_foreign expected_hrp d.prefix
        then bad (foreign_error d.prefix (or_empty expected_hrp))
        else good r
  ]

  unfoldable pub check_request : SendRequest → Checked
  check_request r =
      if not (is_nonempty r.address)
      then bad (codes "Destination address is required")
      else if not (is_valid_amount r.amount (precision r.asset_type))
      then bad (codes "Amount must be a positive number with valid precision")
      else if is_token r.asset_type && not (is_nonempty r.token_id)
      then bad (codes "token_id is required for token sends")
      else check_address r

  unfoldable pub check_body : Option (Map Json) → Checked
  check_body none = bad (codes "Invalid request body")
  check_body (some body) = elim (asset_type_of (field (codes "asset_type") body)) [
    | none ↦ bad (codes "asset_type must be \"ml\" or \"token\"")
    | some asset_type ↦ check_request (record {
      asset_type = asset_type;
      address = trimmed (field (codes "address") body);
      amount = trimmed (field (codes "amount") body);
      token_id = trimmed (field (codes "token_id") body);
    })
  ]

  module _ (hmac_sha1 : Bytes → Bytes → Bytes) (daemon : DaemonCall → DaemonAnswer) (ip : Text)
      (secret : Option Text) (now : ℕ) where
    abbrev pub State : Type 0
    State = Attempts × StepUpState

    -- The gate and what is behind it.
    unfoldable pub post_checked :
        Text → SendRequest → State → Response × (Option DaemonCall × State)
    post_checked code r s =
        let (gate, s') = require_step_up hmac_sha1 code ip secret now s in
        elim gate [
          | StepUpResult.failed status error ↦ (refused error status, (none, s'))
          | StepUpResult.ok ↦ (answered (daemon (call_of r)), (some (call_of r), s'))
        ]

    unfoldable pub post : Option (Map Json) → State → Response × (Option DaemonCall × State)
    post body s = elim (check_body body) [
      | bad error ↦ (refused error 400, (none, s))
      | good r ↦ post_checked (code_of body) r s
    ]
      where
        code_of : Option (Map Json) → Text
        code_of none = []
        code_of (some fields) = totp_from_body fields
