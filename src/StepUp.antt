-- ===== src/StepUp.antt =====
-- app/src/lib/step-up.ts: the fresh one-time code that money movement asks for. The two maps of the
-- module are the state; `now` is the Date.now() of a call, and HMAC-SHA1 a parameter.
pub mod Entries
pub mod SingleUse
pub mod Replay
pub mod Throttle
pub mod Gate
mod Tests
use web_gui.Base.{
  ℕ, zero, suc, ◌+◌, ◌*◌, ◌/◌, Bool, true, false, not, ◌&&◌, List, [], ◌∷◌, ◌++◌, Option, none,
  some, leb, ltb, if◌then◌else◌, any, is_some,
}
use web_gui.Text.{Text, codes, trim, truthy}
use web_gui.Text.Digits.{show}
use web_gui.JsMap.{Map, get, set, delete, prune}
use web_gui.Auth.RateLimit.{Attempts, check_rpc_rate_limit}
use web_gui.Auth.Totp.{Bytes, verify_totp}

pub record Failures : Type 0 where
  pub count : ℕ
  pub first_at : ℕ

pub record StepUpState : Type 0 where
  -- `${code}@${period}` to expiry in milliseconds
  pub used_codes : Map ℕ
  pub totp_failures : Map Failures

pub data TotpFailureReason : Type 0 where
  used invalid locked : TotpFailureReason

pub data TotpCheck : Type 0 where
  ok : TotpCheck
  failed : TotpFailureReason → TotpCheck

abbrev pub max_totp_failures : ℕ
max_totp_failures = 5

abbrev pub totp_failure_window_ms : ℕ
totp_failure_window_ms = 15 * 60 * 1000

abbrev pub totp_errors : TotpFailureReason → Text
totp_errors used =
    codes "Authenticator code already used. Wait up to a minute for a fresh code, then try again."
totp_errors invalid = codes "Invalid authenticator code."
totp_errors locked = codes "Too many failed authenticator-code attempts. Try again in 15 minutes."

-- The body of the loop in pruneUsedCodes, and of that in pruneTotpFailures.
abbrev pub code_is_over : ℕ → ℕ → Bool
code_is_over now expiry = leb expiry now

abbrev pub failures_are_over : ℕ → Failures → Bool
failures_are_over now entry = leb (entry.first_at + totp_failure_window_ms) now

abbrev pub prune_used_codes : ℕ → Map ℕ → Map ℕ
prune_used_codes now m = prune (code_is_over now) m

abbrev pub prune_totp_failures : ℕ → Map Failures → Map Failures
prune_totp_failures now m = prune (failures_are_over now) m

-- `!!entry && entry.count >= MAX && now < entry.firstAt + WINDOW`
pub is_throttling : ℕ → Option Failures → Bool
is_throttling now none = false
is_throttling now (some entry) =
    leb max_totp_failures entry.count && ltb now (entry.first_at + totp_failure_window_ms)

unfoldable pub is_totp_throttled : Text → ℕ → Map Failures → Bool
unfolding is_throttling
is_totp_throttled key now m = is_throttling now (get key m)

-- `period - 1` in a template string, which is "-1" in the first period of 1970.
show_before : ℕ → Text
show_before zero = codes "-1"
show_before (suc p) = show p

pub burn_key : Text → Text → Text
burn_key code period = code ++ (b'@' ∷ period)

unfoldable pub burn_keys : Text → ℕ → List Text
unfolding show_before burn_key
burn_keys code period =
    burn_key code (show_before period)
    ∷ burn_key code (show period)
    ∷ burn_key code (show (period + 1))
    ∷ []

unfoldable pub next_failures : ℕ → Option Failures → Failures
next_failures now none = record { count = 1; first_at = now }
next_failures now (some entry) =
    if failures_are_over now entry
    then record { count = 1; first_at = now }
    else record entry { count = entry.count + 1 }

-- `if (throttleKey && …)`, `if (throttleKey) …`: the empty key counts as absent.
unfoldable pub throttled_by : Option Text → ℕ → Map Failures → Bool
unfolding is_totp_throttled
throttled_by none now m = false
throttled_by (some key) now m = is_totp_throttled key now m

unfoldable pub record_failure : Option Text → ℕ → Map Failures → Map Failures
record_failure none now m = m
record_failure (some key) now m = set key (next_failures now (get key m)) m

unfoldable pub forget_failures : Option Text → Map Failures → Map Failures
forget_failures none m = m
forget_failures (some key) m = delete key m

unfoldable pub burn : List Text → ℕ → Map ℕ → Map ℕ
burn [] expiry m = m
burn (k ∷ ks) expiry m = burn ks expiry (set k expiry m)

unfoldable pub is_used : List Text → Map ℕ → Bool
is_used ks m = any (λ k. is_some (get k m)) ks

pub data StepUpResult : Type 0 where
  ok : StepUpResult
  failed : (status : ℕ) → (error : Text) → StepUpResult

-- Reading `code` and `period` off the call, with the two pruned maps.
module _ (hmac_sha1 : Bytes → Bytes → Bytes) where
  unfoldable pub verify_and_burn_totp_code :
      Text → Text → Option Text → ℕ → StepUpState → TotpCheck × StepUpState
  verify_and_burn_totp_code raw_code secret throttle_key now s =
      let code = trim raw_code in
      let codes_left = prune_used_codes now s.used_codes in
      let failures_left = prune_totp_failures now s.totp_failures in
      let pruned : StepUpState = record {
        used_codes = codes_left;
        totp_failures = failures_left;
      } in
      let key = truthy throttle_key in
      let period = now / 30000 in
      let keys = burn_keys code period in
      if throttled_by key now failures_left
      then (failed locked, pruned)
      else if is_used keys codes_left
      then (failed used, pruned)
      else if not (verify_totp hmac_sha1 code secret now)
      then (failed invalid, record pruned { totp_failures = record_failure key now failures_left })
      else (
        ok,
        record {
          used_codes = burn keys ((period + 2) * 30 * 1000) codes_left;
          totp_failures = forget_failures key failures_left;
        },
      )

  -- The gate in front of an operation. `secret` is the stored preference, `ip` what
  -- getClientAddress returns; the state is the RPC counter's map and the step-up maps.
  unfoldable pub require_step_up :
      Text
      → Text
      → Option Text
      → ℕ
      → Attempts × StepUpState
      → StepUpResult × (Attempts × StepUpState)
  require_step_up totp_code ip secret now (rpc, s) =
      let (allowed, rpc') = check_rpc_rate_limit ip now rpc in
      if not allowed
      then (failed 429 (codes "Too many requests. Try again in a minute."), (rpc', s))
      else elim (truthy secret) [
        | none ↦ (failed 409 (codes "2FA must be configured on this node"), (rpc', s))
        | some key ↦
            let (check, s') = verify_and_burn_totp_code (trim totp_code) key (some ip) now s in
            (elim check [ ok ↦ ok | failed reason ↦ failed 401 (totp_errors reason) ], (rpc', s'))
      ]
