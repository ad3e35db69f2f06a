-- ===== src/Send/Tests.antt =====
-- Runs of app/src/pages/api/send.ts on concrete bodies.
use Prim.Native.String.{String}
use web_gui.Base.{◌≡◌, refl, [], ◌∷◌, Option, none, some}
use web_gui.Text.{Text, codes}
use web_gui.JsMap.{Map}
use web_gui.Json.{Json, text, field}
use web_gui.Auth.Totp.{Bytes}
use web_gui.Auth.RateLimit.{Attempts}
use web_gui.StepUp.{StepUpState, StepUpResult, require_step_up}
use web_gui.Bech32.{encode_words, bech32m}
use web_gui.Bech32.Layout.{lower_ascii}
use web_gui.Gated.{totp_from_body}
use web_gui.Send.{
  AssetType, DaemonCall, address_send, DaemonAnswer, Response, refused, post, answered, call_of,
  asset_type_of,
}
use web_gui.Send.Guards.{IsSendable, request_of, post-call}
use web_gui.Send.Codes.{post_bad_request}

abbrev empty_digest : Bytes → Bytes → Bytes
empty_digest key message = []

abbrev empty_state : Attempts × StepUpState
empty_state = ([], record { used_codes = []; totp_failures = [] })

abbrev daemon : DaemonCall → DaemonAnswer
daemon call = DaemonAnswer.sent (codes "f00d")

abbrev client : Text
client = codes "10.0.0.1"

abbrev secret : Option Text
secret = some (codes "JBSWY3DP")

abbrev body : String → Map Json
body amount =
    (codes "asset_type", text (codes "ml"))
    ∷ (codes "address", text (codes "mtc1pjkx7p4"))
    ∷ (codes "amount", text (codes amount))
    ∷ (codes "totp_code", text (codes "000000"))
    ∷ []

abbrev sent_by : String → Response × (Option DaemonCall × (Attempts × StepUpState))
sent_by amount =
    post lower_ascii none empty_digest daemon client secret 60000 (some (body amount)) empty_state

run : Unit {0}
unfolding post web_gui.Send.check_body web_gui.Send.check_request web_gui.Send.check_address
    web_gui.Send.expected_hrp web_gui.Send.post_checked web_gui.Send.call_of web_gui.Send.answered
    web_gui.Send.asset_type_of web_gui.Gated.totp_from_body web_gui.Gated.safe_message
    web_gui.Gated.is_transport web_gui.Json.field web_gui.Bech32.decode web_gui.Bech32.separated
    web_gui.Bech32.checked_words web_gui.Bech32.words_of web_gui.Bech32.last_index_of
    web_gui.Bech32.hrp_expand web_gui.Bech32.polymod web_gui.Bech32.polymod_from
    web_gui.Bech32.polymod_step web_gui.Bech32.mixed web_gui.Bech32.hrp_for_network
    web_gui.Text.index_of web_gui.Validation.is_valid_amount web_gui.Validation.amount_parts
    web_gui.Validation.positive_parts web_gui.Decimal.split_point web_gui.Text.Digits.value_from
    require_step_up web_gui.StepUp.verify_and_burn_totp_code web_gui.Auth.Totp.verify_totp
    web_gui.Auth.Totp.hotp_code web_gui.StepUp.burn_keys web_gui.StepUp.throttled_by
    web_gui.StepUp.is_totp_throttled web_gui.StepUp.record_failure web_gui.StepUp.forget_failures
    web_gui.StepUp.burn web_gui.StepUp.is_used web_gui.StepUp.next_failures web_gui.JsMap.get
    web_gui.JsMap.set web_gui.JsMap.delete web_gui.JsMap.prune web_gui.Text.trim
    web_gui.Text.is_space web_gui.Text.text_eq web_gui.Text.Digits.show
    web_gui.Auth.RateLimit.check_rpc_rate_limit
run = tt

called : (sent_by "1.5").1.0 ≡ some (address_send (codes "mtc1pjkx7p4") (codes "1.5"))
unfolding run
called = refl

refused_amount :
    (sent_by "1.").0 ≡ refused (codes "Amount must be a positive number with valid precision") 400
unfolding run
refused_amount = refl

post-call_example :
    (asset_type : AssetType) × ((asset_type_of (field (codes "asset_type") (body "1.5"))
        ≡ some asset_type)
      × (IsSendable lower_ascii none (request_of lower_ascii none (body "1.5") asset_type)
          × ((address_send (codes "mtc1pjkx7p4") (codes "1.5")
                ≡ call_of (request_of lower_ascii none (body "1.5") asset_type))
              × (((require_step_up empty_digest
                      (totp_from_body (body "1.5"))
                      client
                      secret
                      60000
                      empty_state).0
                    ≡ StepUpResult.ok)
                  × ((sent_by "1.5").0
                      ≡ answered (daemon (address_send (codes "mtc1pjkx7p4") (codes "1.5"))))))))
post-call_example =
    post-call lower_ascii none empty_digest daemon client secret 60000 empty_state (body "1.5")
      called

post_bad_request_example : (sent_by "1.").1 ≡ (none, empty_state)
post_bad_request_example =
    post_bad_request lower_ascii none empty_digest daemon client secret 60000 empty_state
      (some (body "1.")) refused_amount
