-- ===== src/TransactionAbandon.antt =====
-- app/src/pages/api/transaction-abandon.ts: POST /api/transaction-abandon, which frees the inputs of a
-- pending transaction behind a one-time code. The answer of the wallet daemon is a parameter.
pub mod Safety
mod Tests
use web_gui.Base.{
  ℕ, [], ◌∷◌, Bool, List, Option, none, some, ◌&&◌, ◌||◌, leb, length, all, if◌then◌else◌,
}
use web_gui.Base.Int.{pos}
use web_gui.Text.{Text, codes, is_digit}
use web_gui.JsMap.{Map}
use web_gui.Json.{Json, int, text, field, fields_of, trimmed}
use web_gui.Auth.Totp.{Bytes}
use web_gui.Gated.{
  RpcAnswer, rpc_error, other_error, safe_message, unavailable, totp_from_body, Checked, bad, good,
  Gated, State, Caller, gated,
}

abbrev pub is_hex_digit : ℕ → Bool
is_hex_digit c = is_digit c || (leb b'a' c && leb c b'f') || (leb b'A' c && leb c b'F')

-- `/^[0-9a-f]{16,80}$/i`
unfoldable pub is_transaction_id : Text → Bool
is_transaction_id t = leb 16 (length t) && leb (length t) 80 && all is_hex_digit t

-- The checks in front of the gate. A body that is no object counts as the empty one.
unfoldable pub check_fields : Map Json → Checked (Text × Text)
check_fields body =
    let transaction_id = trimmed (field (codes "transaction_id") body) in
    if is_transaction_id transaction_id
    then good (transaction_id, totp_from_body body)
    else bad (codes "A valid transaction id is required.")

unfoldable pub check_body : Option Json → Checked (Text × Text)
check_body none = bad (codes "Invalid request body.")
check_body (some body) = check_fields (fields_of body)

-- The parameters of `rpcCall('transaction_abandon', ...)`.
unfoldable pub call_of : Text → Map Json
call_of transaction_id =
    (codes "account", int (pos 0)) ∷ (codes "transaction_id", text transaction_id) ∷ []

pub data Response : Type 0 where
  ok : Response
  failed : (error : Text) → (status : ℕ) → Response

unfoldable pub answered : RpcAnswer → Response
answered (RpcAnswer.result v) = ok
answered (rpc_error message code) = failed (safe_message message code) 502
answered other_error = failed unavailable 502

abbrev pub Daemon : Type 0
Daemon = Map Json → RpcAnswer

abbrev pub called : Daemon → Text → Response × Map Json
called daemon transaction_id = (answered (daemon (call_of transaction_id)), call_of transaction_id)

unfoldable pub transaction_abandon :
    (Bytes → Bytes → Bytes)
    → Daemon
    → Caller
    → Option Json
    → State
    → Gated (Response × Map Json) × State
transaction_abandon hmac_sha1 daemon caller body s =
    gated hmac_sha1 caller (check_body body) (called daemon) s
