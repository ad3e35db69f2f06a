-- ===== src/StepUp/Tests.antt =====
-- Runs of app/src/lib/step-up.ts on concrete inputs.
use web_gui.Base.{
  ℕ, ◌+◌, ◌/◌, ◌≤◌, ◌<◌, ◌≡◌, refl, ◌≢◌, ◌↔◌, true, false, List, [], ◌∷◌, none, some, arith,
}
use Prim.Native.String.{String}
use web_gui.Text.{Text, codes, trim, truthy}
use web_gui.Auth.RateLimit.{check_rpc_rate_limit}
use web_gui.Auth.Totp.{Bytes, hotp_code, verify_totp, decode_base32}
use web_gui.StepUp.{
  Failures, StepUpState, TotpCheck, ok, failed, used, invalid, locked, StepUpResult,
  totp_failure_window_ms, verify_and_burn_totp_code, require_step_up,
}
use web_gui.StepUp.Entries.{IsWellFormed}
use web_gui.StepUp.SingleUse.{Attempt, attempt, run_attempts, attempt_again}
use web_gui.StepUp.Replay.{attempt_replay}
use web_gui.StepUp.Throttle.{by_key, invalids, accepts, invalids-le}
use web_gui.StepUp.Gate.{status_of, gate, check_with, require_step_up_iff}

-- The digest that gives the code 000000 for every key and counter.
abbrev empty_digest : Bytes → Bytes → Bytes
empty_digest key message = []

abbrev empty_state : StepUpState
empty_state = record { used_codes = []; totp_failures = [] }

abbrev empty_state-IsWellFormed : IsWellFormed empty_state
empty_state-IsWellFormed = record { used_unique = tt; failures_unique = tt }

abbrev client : Text
client = codes "10.0.0.1"

abbrev call : String → ℕ → Attempt
call code now = record {
  raw_code = codes code;
  secret = codes "JBSWY3DP";
  throttle_key = some client;
  now = now;
}

run : Unit {0}
unfolding verify_and_burn_totp_code verify_totp hotp_code web_gui.StepUp.burn_keys
    web_gui.StepUp.throttled_by web_gui.StepUp.is_totp_throttled web_gui.StepUp.record_failure
    web_gui.StepUp.forget_failures web_gui.StepUp.burn web_gui.StepUp.is_used
    web_gui.StepUp.next_failures web_gui.JsMap.get web_gui.JsMap.set web_gui.JsMap.delete
    web_gui.JsMap.prune web_gui.Text.trim web_gui.Text.is_space web_gui.Text.text_eq
    web_gui.Text.Digits.show run_attempts invalids accepts
run = tt

first_accepted : (attempt empty_digest (call "000000" 60000) empty_state).0 ≡ ok
unfolding run
first_accepted = refl

again_used :
    (attempt empty_digest
      (call " 000000" 119999)
      (attempt empty_digest (call "000000" 60000) empty_state).1).0
    ≡ failed used
unfolding run
again_used = refl

again_accepted :
    (attempt empty_digest
      (call "000000" 120000)
      (run_attempts empty_digest [] (attempt empty_digest (call "000000" 60000) empty_state).1)).0
    ≡ ok
unfolding run
again_accepted = refl

attempt_again_example :
    (60000 / 30000 + 2 ≤ 120000 / 30000)
    × ((counter : ℕ) × ((60000 / 30000 < counter)
          × (hotp_code empty_digest (decode_base32 (codes "JBSWY3DP")) counter
              ≡ trim (codes "000000"))))
attempt_again_example =
    attempt_again empty_digest (call "000000" 60000) (call "000000" 120000) [] empty_state
      empty_state-IsWellFormed first_accepted refl (omega arith) tt again_accepted

next_code :
    hotp_code empty_digest (decode_base32 (codes "JBSWY3DP")) (60000 / 30000 + 1)
    ≡ trim (codes "000000")
unfolding run
next_code = refl

attempt_replay_example :
    (attempt empty_digest
      (call "000000" 130000)
      (attempt empty_digest (call "000000" 60000) empty_state).1).0
    ≡ ok
attempt_replay_example =
    attempt_replay empty_digest (call "000000" 60000) empty_state 130000 empty_state-IsWellFormed tt
      first_accepted next_code refl

abbrev wrong : List Attempt
wrong =
    call "000001" 60000
    ∷ call "000002" 60001
    ∷ call "000003" 60002
    ∷ call "000004" 60003
    ∷ call "000005" 60004
    ∷ call "000006" 60005
    ∷ []

six_wrong :
    (invalids empty_digest client wrong empty_state ≡ 5)
    × (accepts empty_digest client wrong empty_state ≡ 0)
unfolding run
six_wrong = (refl, refl)

invalids-le_example :
    (invalids empty_digest client wrong empty_state ≤ 5)
    × ((a : Attempt)
        → 60000 ≤ a.now
        → a.now < 60000 + totp_failure_window_ms
        → by_key client a ≡ true
        → invalids empty_digest client wrong empty_state ≡ 5
        → (attempt empty_digest a (run_attempts empty_digest wrong empty_state)).0 ≡ failed locked)
unfolding web_gui.JsMap.get
invalids-le_example =
    invalids-le empty_digest client 60000 wrong empty_state empty_state-IsWellFormed (omega arith)
      refl six_wrong.1

require_step_up_iff_example :
    ((status_of (gate empty_digest (codes "000000") client none 60000 [] empty_state).0 ≡ 429)
      ↔ ((check_rpc_rate_limit client 60000 []).0 ≡ false))
    × ((status_of (gate empty_digest (codes "000000") client none 60000 [] empty_state).0 ≡ 409)
        ↔ (((check_rpc_rate_limit client 60000 []).0 ≡ true) × (truthy none ≡ none)))
    × ((status_of (gate empty_digest (codes "000000") client none 60000 [] empty_state).0 ≡ 401) ↔ (
        ((check_rpc_rate_limit client 60000 []).0 ≡ true)
        × ((key : Text) × ((truthy none ≡ some key)
              × ((check_with empty_digest (codes "000000") client none 60000 [] empty_state key).0
                  ≢ ok)))))
    × ((gate empty_digest (codes "000000") client none 60000 [] empty_state).0 ≡ StepUpResult.ok ↔ (
        ((check_rpc_rate_limit client 60000 []).0 ≡ true)
        × ((key : Text) × ((truthy none ≡ some key)
              × ((check_with empty_digest (codes "000000") client none 60000 [] empty_state key).0
                  ≡ ok)))))
require_step_up_iff_example =
    require_step_up_iff empty_digest (codes "000000") client none 60000 [] empty_state
