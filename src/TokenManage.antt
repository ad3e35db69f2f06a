-- ===== src/TokenManage.antt =====
-- app/src/pages/api/token-manage.ts: POST /api/token-manage, one token authority operation behind a
-- one-time code. The answer of the wallet daemon is a parameter.
pub mod Actions
pub mod Checks
pub mod Safety
mod Tests
use web_gui.Base.{ℕ, [], ◌∷◌, Option, none, some}
use web_gui.Text.{Text, codes}
use web_gui.JsMap.{Map, get}
use web_gui.Json.{Json, null, field, fields_of, object_of, or_empty}
use web_gui.Auth.Totp.{Bytes}
use web_gui.Gated.{
  RpcAnswer, rpc_error, other_error, safe_message, totp_from_body, Checked, bad, good, Gated, State,
  Caller, gated,
}
use Actions.{actions, validate_params, fields_or_none}

-- The call `rpcCall(action, params)`.
pub record Call : Type 0 where
  pub action : Text
  pub params : Map Json

unfoldable pub check_call : Call → Text → Checked (Call × Text)
check_call call code = elim (get call.action actions) [
  | none ↦ bad (codes "Unknown action")
  | some action ↦ elim (validate_params action call.params) [
    | some error ↦ bad error
    | none ↦ good (call, code)
  ]
]

unfoldable pub call_of : Map Json → Call
call_of body = record {
  action = or_empty (field (codes "action") body);
  params = fields_or_none (object_of (get (codes "params") body));
}

-- The checks in front of the gate. A body of null, and one that does not parse, throw.
unfoldable pub check_body : Option Json → Checked (Call × Text)
check_body none = bad (codes "Invalid request body")
check_body (some null) = bad (codes "Invalid request body")
check_body (some body) = check_call (call_of (fields_of body)) (totp_from_body (fields_of body))

pub data Response : Type 0 where
  ok : (result : Json) → Response
  -- with code_consumed: true
  failed : (error : Text) → (status : ℕ) → Response

unfoldable pub answered : RpcAnswer → Response
answered (RpcAnswer.result v) = ok v
answered (rpc_error message code) = failed (safe_message message code) 502
answered other_error = failed (codes "Token operation failed") 500

abbrev pub Daemon : Type 0
Daemon = Call → RpcAnswer

-- The response, and the call that was made for it.
abbrev pub called : Daemon → Call → Response × Call
called daemon call = (answered (daemon call), call)

unfoldable pub token_manage :
    (Bytes → Bytes → Bytes)
    → Daemon
    → Caller
    → Option Json
    → State
    → Gated (Response × Call) × State
token_manage hmac_sha1 daemon caller body s =
    gated hmac_sha1 caller (check_body body) (called daemon) s
