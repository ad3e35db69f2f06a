-- ===== src/Gated.antt =====
-- The shape that the endpoints behind the step-up gate share (app/src/pages/api/stake-trade.ts,
-- token-manage.ts, transaction-abandon.ts, bitcoin/send.ts): the request is checked, then the gate
-- of requireStepUp is passed with the code of the body, then the daemon is called.
pub mod Laws
pub mod Fixtures
use web_gui.Base.{ℕ, Bool, Option, none, some, leb, ◌&&◌, if◌then◌else◌}
use web_gui.Base.Int.{ℤ, pos, negsuc}
use web_gui.Text.{Text, codes}
use web_gui.JsMap.{Map}
use web_gui.Json.{Json, field, or_empty}
use web_gui.Auth.RateLimit.{Attempts}
use web_gui.Auth.Totp.{Bytes}
use web_gui.StepUp.{StepUpState, StepUpResult, require_step_up}

-- What the wallet daemon answers to a call: rpcCall returns or throws.
pub data RpcAnswer : Type 0 where
  result : Json → RpcAnswer
  -- WalletRpcError
  rpc_error : (message : Text) → (code : ℤ) → RpcAnswer
  -- any other exception
  other_error : RpcAnswer

-- A failure whose message carries the daemon's URL.
unfoldable pub is_transport : ℤ → Bool
is_transport (pos code) = leb 400 code
is_transport (negsuc n) = leb 31999 n && leb n 32000

abbrev pub unavailable : Text
unavailable = codes "The wallet service is unavailable. Check that all services are running."

-- The message that the browser gets.
unfoldable pub safe_message : Text → ℤ → Text
safe_message message code = if is_transport code then unavailable else message

unfoldable pub totp_from_body : Map Json → Text
totp_from_body body = elim (field (codes "totp_code") body) [
  | some code ↦ code
  | none ↦ or_empty (field (codes "totpCode") body)
]

pub data Checked (R : Type 0) : Type 0 where
  bad : (error : Text) → Checked R
  good : R → Checked R

pub data Gated (A : Type 0) : Type 0 where
  refused : (error : Text) → (status : ℕ) → Gated A
  passed : A → Gated A

abbrev pub State : Type 0
State = Attempts × StepUpState

-- What every call of the gate depends on.
pub record Caller : Type 0 where
  pub ip : Text
  pub secret : Option Text
  pub now : ℕ

unfoldable pub gate : (Bytes → Bytes → Bytes) → Caller → Text → State → StepUpResult × State
gate hmac_sha1 caller code s = require_step_up hmac_sha1 code caller.ip caller.secret caller.now s

module _ {R A : Type 0} (hmac_sha1 : Bytes → Bytes → Bytes) where
  unfoldable pub gated : Caller → Checked (R × Text) → (R → A) → State → Gated A × State
  gated caller (bad error) work s = (refused error 400, s)
  gated caller (good (request, code)) work s =
      let (answer, s') = gate hmac_sha1 caller code s in
      elim answer [
        | StepUpResult.failed status error ↦ (refused error status, s')
        | StepUpResult.ok ↦ (passed (work request), s')
      ]
