-- ===== src/Bitcoin/Send.antt =====
-- app/src/pages/api/bitcoin/send.ts: POST /api/bitcoin/send. `floor_of` is Math.floor of a number of
-- the body, none where the value is no number.
use web_gui.Base.{ℕ, Bool, not, ◌&&◌, ◌||◌, Option, none, some, ◌==◌, leb, if◌then◌else◌}
use web_gui.Base.Int.{ℤ, pos}
use web_gui.Text.{Text, codes, is_nonempty}
use web_gui.JsMap.{Map, get}
use web_gui.Json.{Json, null, field, fields_of, trimmed}
use web_gui.Auth.Totp.{Bytes}
use web_gui.Gated.{totp_from_body, Checked, bad, good, Gated, refused, State, Caller, gated}
use web_gui.Validation.{is_valid_amount}
use web_gui.Bitcoin.{Fetched, SidecarResult, returned, raised, sidecar_request}

-- BitcoinSendRequest
pub record SendRequest : Type 0 where
  pub address : Text
  pub amount_btc : Text
  pub fee_rate : Option ℕ

-- `fee >= 1 && fee <= 1000`
unfoldable pub clamped : Option ℤ → Option ℕ
clamped (some (pos fee)) = if leb 1 fee && leb fee 1000 then some fee else none
clamped _ = none

abbrev pub check_request : SendRequest → Text → Checked (SendRequest × Text)
check_request r code =
    if not (is_nonempty r.address)
    then bad (codes "Destination address is required")
    else if not (is_valid_amount r.amount_btc 8)
    then bad (codes "Amount must be a positive number with at most 8 decimals")
    else good (r, code)

module _ (floor_of : Option Json → Option ℤ) where
  unfoldable pub request_of : Map Json → SendRequest
  request_of body = record {
    address = trimmed (field (codes "address") body);
    amount_btc = trimmed (field (codes "amount_btc") body);
    fee_rate = clamped (floor_of (get (codes "fee_rate_sat_vb") body));
  }

  unfoldable pub check_body : Option Json → Checked (SendRequest × Text)
  check_body none = bad (codes "Invalid request body")
  check_body (some null) = bad (codes "Invalid request body")
  check_body (some body) =
      check_request (request_of (fields_of body)) (totp_from_body (fields_of body))

pub data Response : Type 0 where
  ok : (result : Json) → Response
  failed : (error : Text) → (status : ℕ) → Response

unfoldable pub failure_text : Text → ℕ → Text
failure_text message status =
    if status == 503
    then codes "Bitcoin wallet service unavailable"
    else if status == 504
    then codes
        "The send timed out - the transaction may or may not have been broadcast. Check History before sending again to avoid paying twice."
    else if is_nonempty message
    then message
    else codes "Bitcoin send failed"

unfoldable pub failure_status : ℕ → ℕ
failure_status status =
    if (status == 503) || ((status == 504) || (status == 409)) then status else 400

unfoldable pub answered : SidecarResult → Response
answered (returned v) = ok v
answered (raised message status) = failed (failure_text message status) (failure_status status)

-- What the wallet service does with the request of sendBitcoin.
abbrev pub Sidecar : Type 0
Sidecar = SendRequest → Fetched

module _ (string_of : Json → Text) (floor_of : Option Json → Option ℤ) where
  abbrev pub called : Sidecar → SendRequest → Response × SendRequest
  called sidecar r = (answered (sidecar_request string_of (sidecar r)), r)

  unfoldable pub bitcoin_send :
      (Bytes → Bytes → Bytes)
      → (enabled : Bool) → Sidecar
      → Caller
      → Option Json
      → State
      → Gated (Response × SendRequest) × State
  bitcoin_send hmac_sha1 enabled sidecar caller body s =
      if not enabled
      then (refused (codes "Bitcoin support is not enabled") 404, s)
      else gated hmac_sha1 caller (check_body floor_of body) (called sidecar) s
