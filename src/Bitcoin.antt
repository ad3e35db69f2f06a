-- ===== src/Bitcoin.antt =====
-- app/src/lib/bitcoin-wallet.ts: the calls of the BTC wallet service, and the creation that is tried
-- again. What `fetch` does is a parameter, and so is `string_of`, String(v) of a JSON value.
pub mod Send
pub mod Retry
pub mod Safety
pub mod Reports
mod Tests
use web_gui.Base.{
  ℕ, ◌+◌, ◌-◌, ◌++◌, zero, suc, Bool, true, false, not, ◌&&◌, ◌||◌, Option, none, some, ◌==◌, ltb,
  if◌then◌else◌,
}
use web_gui.Text.{Text, codes}
use web_gui.Text.Digits.{show}
use web_gui.JsMap.{get}
use web_gui.Json.{Json, bool, is_nullish, is_truthy, fields_of}

-- fetch rejects, by its timeout or otherwise, or gives a response with its JSON body, none where that
-- does not parse.
pub data Fetched : Type 0 where
  rejected : (timed_out : Bool) → Fetched
  response : (ok : Bool) → (status : ℕ) → (body : Option Json) → Fetched

pub data SidecarResult : Type 0 where
  returned : Json → SidecarResult
  -- BitcoinWalletError
  raised : (message : Text) → (status : ℕ) → SidecarResult

-- `body.ok === false`
abbrev pub is_false : Option Json → Bool
is_false (some (bool b)) = not b
is_false _ = false

module _ (string_of : Json → Text) where
  abbrev pub error_text : Option Json → ℕ → Text
  error_text none status = codes "BTC wallet error " ++ show status
  error_text (some v) status =
      if is_nullish (some v) then codes "BTC wallet error " ++ show status else string_of v

  -- With a body that is truthy.
  abbrev pub sidecar_body : Bool → ℕ → Json → SidecarResult
  sidecar_body ok status body =
      if not ok || is_false (get (codes "ok") (fields_of body))
      then raised (error_text (get (codes "error") (fields_of body)) status) status
      else returned body

  unfoldable pub sidecar_request : Fetched → SidecarResult
  sidecar_request (rejected true) =
      raised (codes "BTC wallet service timed out - the operation may or may not have completed")
        504
  sidecar_request (rejected false) =
      raised (codes "BTC wallet service unreachable (is the bitcoin profile running?)") 503
  sidecar_request (response ok status none) = raised (error_text none status) status
  sidecar_request (response ok status (some body)) =
      if is_truthy (some body)
      then sidecar_body ok status body
      else raised (error_text (get (codes "error") (fields_of body)) status) status

abbrev pub is_retryable : SidecarResult → Bool
is_retryable (returned v) = false
is_retryable (raised message status) = (status == 502) || (status == 503) || (status == 504)

abbrev pub attempts_of : Option ℕ → ℕ
attempts_of none = 3
attempts_of (some n) = if ltb n 1 then 1 else n

-- The loop from attempt number `attempt` on, with `left` more attempts after it; the outcomes are what
-- createBitcoinWallet gives by the number of the attempt. The result comes with the last attempt made.
unfoldable pub create_from : (ℕ → SidecarResult) → ℕ → ℕ → SidecarResult × ℕ
create_from outcome attempt zero = (outcome attempt, attempt)
create_from outcome attempt (suc left) =
    let rest = create_from outcome (suc attempt) left in
    if is_retryable (outcome attempt) then rest else (outcome attempt, attempt)

unfoldable pub create_with_retry : (ℕ → SidecarResult) → Option ℕ → SidecarResult × ℕ
create_with_retry outcome attempts = create_from outcome 1 (attempts_of attempts - 1)
