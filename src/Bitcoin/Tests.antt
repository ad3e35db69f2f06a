-- ===== src/Bitcoin/Tests.antt =====
-- Runs of app/src/pages/api/bitcoin/send.ts and app/src/lib/bitcoin-wallet.ts on concrete inputs.
use Prim.Native.String.{String}
use web_gui.Base.{ℕ, ◌≡◌, refl, true, false, Option, none, some, ltb, if◌then◌else◌}
use web_gui.Base.Int.{ℤ, pos}
use web_gui.Text.{Text, codes}
use web_gui.Json.{Json, int, text, obj, null, member, end, fields_of}
use web_gui.StepUp.{StepUpResult}
use web_gui.Gated.{Gated, passed, refused, State, gate, totp_from_body}
use web_gui.Gated.Fixtures.{empty_digest, empty_state, client, run_gate}
use web_gui.Bitcoin.{
  rejected, response, SidecarResult, returned, raised, sidecar_request, create_with_retry,
  create_from,
}
use web_gui.Bitcoin.Send.{
  SendRequest, clamped, request_of, check_body, Response, failed, failure_text, failure_status,
  answered, Sidecar, bitcoin_send,
}
use web_gui.Bitcoin.Safety.{IsSendable, bitcoin_send-passed}
use web_gui.Bitcoin.Retry.{IsRetried, create_with_retry-IsRetried}
use web_gui.Bitcoin.Reports.{IsReport, answered-IsReport}

abbrev string_of : Json → Text
string_of (text t) = t
string_of v = codes "[object Object]"

abbrev floor_of : Option Json → Option ℤ
floor_of (some (int z)) = some z
floor_of _ = none

abbrev sidecar : Sidecar
sidecar r = rejected true

abbrev body : String → Json
body amount = obj (
    member (codes "address") (text (codes "bc1qqqq")) (
      member (codes "amount_btc") (text (codes amount)) (
        member (codes "fee_rate_sat_vb") (int (pos 5000))
          (member (codes "totp_code") (text (codes "000000")) end))))

run : Unit {0}
unfolding run_gate clamped request_of check_body failure_text failure_status answered bitcoin_send
    sidecar_request create_with_retry create_from
run = tt

abbrev sent_by : String → Gated (Response × SendRequest) × State
sent_by amount =
    bitcoin_send string_of floor_of empty_digest true sidecar client (some (body amount))
      empty_state

too_fine :
    (sent_by "0.000000001").0
    ≡ refused (codes "Amount must be a positive number with at most 8 decimals") 400
unfolding run
too_fine = refl

abbrev request : SendRequest
request = record { address = codes "bc1qqqq"; amount_btc = codes "0.5"; fee_rate = none }

abbrev answer : Response
answer =
    failed
      (codes
        "The send timed out - the transaction may or may not have been broadcast. Check History before sending again to avoid paying twice.")
      504

sent : (sent_by "0.5").0 ≡ passed (answer, request)
unfolding run
sent = refl

bitcoin_send-passed_example :
    (true ≡ true)
    × ((value : Json) × ((some (body "0.5") ≡ some value)
          × (((gate empty_digest client (totp_from_body (fields_of value)) empty_state).0
                ≡ StepUpResult.ok)
              × ((request_of floor_of (fields_of value) ≡ request)
                  × (IsSendable request
                      × (answer ≡ answered (sidecar_request string_of (rejected true))))))))
bitcoin_send-passed_example =
    bitcoin_send-passed string_of floor_of empty_digest true sidecar client (some (body "0.5"))
      empty_state sent

answered-IsReport_example :
    IsReport string_of
      (response false 409 none)
      (answered (sidecar_request string_of (response false 409 none)))
answered-IsReport_example = answered-IsReport string_of (response false 409 none)

-- Unavailable twice, then created.
abbrev outcome : ℕ → SidecarResult
outcome attempt = if ltb attempt 3 then raised (codes "unreachable") 503 else returned null

third : create_with_retry outcome none ≡ (returned null, 3)
unfolding run
third = refl

create_with_retry-IsRetried_example :
    IsRetried outcome 1 3 (create_with_retry outcome none).1
    × ((create_with_retry outcome none).0 ≡ outcome (create_with_retry outcome none).1)
create_with_retry-IsRetried_example = create_with_retry-IsRetried outcome none
