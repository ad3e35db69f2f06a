-- ===== src/Gated/Fixtures.antt =====
-- Data for runs of the endpoints behind the gate: a client with a secret, a digest that gives the code
-- 000000 for every counter, and the names that a run of the gate unfolds.
use web_gui.Base.{[], some}
use web_gui.Text.{codes}
use web_gui.Auth.Totp.{Bytes}
use web_gui.Gated.{Caller, State}

abbrev pub empty_digest : Bytes → Bytes → Bytes
empty_digest key message = []

abbrev pub empty_state : State
empty_state = ([], record { used_codes = []; totp_failures = [] })

abbrev pub client : Caller
client = record { ip = codes "10.0.0.1"; secret = some (codes "JBSWY3DP"); now = 60000 }

unfoldable pub run_gate : Unit {0}
unfolding web_gui.Gated.gated web_gui.Gated.gate web_gui.Gated.totp_from_body
    web_gui.Gated.safe_message web_gui.Gated.is_transport web_gui.Json.field
    web_gui.StepUp.require_step_up web_gui.StepUp.verify_and_burn_totp_code
    web_gui.Auth.Totp.verify_totp web_gui.Auth.Totp.hotp_code web_gui.StepUp.burn_keys
    web_gui.StepUp.throttled_by web_gui.StepUp.is_totp_throttled web_gui.StepUp.record_failure
    web_gui.StepUp.forget_failures web_gui.StepUp.burn web_gui.StepUp.is_used
    web_gui.StepUp.next_failures web_gui.JsMap.get web_gui.JsMap.set web_gui.JsMap.delete
    web_gui.JsMap.prune web_gui.Text.trim web_gui.Text.is_space web_gui.Text.text_eq
    web_gui.Text.Digits.show web_gui.Auth.RateLimit.check_rpc_rate_limit
    web_gui.Validation.is_valid_amount web_gui.Validation.amount_parts
    web_gui.Validation.positive_parts web_gui.Decimal.split_point web_gui.Text.Digits.value_from
    web_gui.Params.is_id web_gui.Params.is_amount_field web_gui.Params.first_error
run_gate = tt
