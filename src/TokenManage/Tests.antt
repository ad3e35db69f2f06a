-- ===== src/TokenManage/Tests.antt =====
-- Runs of app/src/pages/api/token-manage.ts on concrete bodies.
use Prim.Native.String.{String}
use web_gui.Base.{◌≡◌, refl, some}
use web_gui.Base.Int.{pos, negsuc}
use web_gui.Text.{codes}
use web_gui.JsMap.{get}
use web_gui.Json.{Json, int, text, obj, member, end, fields_of}
use web_gui.StepUp.{StepUpResult}
use web_gui.Gated.{RpcAnswer, Gated, passed, refused, State, gate, totp_from_body}
use web_gui.Gated.Fixtures.{empty_digest, empty_state, client, run_gate}
use web_gui.TokenManage.Actions.{
  Action, actions, is_ticker, is_hex_field, validate_params, action_checks,
}
use web_gui.TokenManage.{
  Call, Response, failed, Daemon, token_manage, call_of, check_call, check_body, answered,
}
use web_gui.TokenManage.Checks.{IsSafeCall}
use web_gui.TokenManage.Safety.{token_manage-passed}

abbrev daemon : Daemon
daemon call = RpcAnswer.rpc_error (codes "GET http://daemon failed") (negsuc 31999)

abbrev body : String → Json
body amount = obj (
    member (codes "action") (text (codes "token_mint")) (
      member (codes "params")
        (obj (
          member (codes "account") (int (pos 0)) (
            member (codes "token_id") (text (codes "mmltk1qqqqqqqq")) (
              member (codes "address") (text (codes "mtc1qqqqqqqqqqq")) (
                member (codes "amount") (obj (member (codes "decimal") (text (codes amount)) end))
                  end)))))
        (member (codes "totpCode") (text (codes "000000")) end)))

run : Unit {0}
unfolding run_gate is_ticker is_hex_field validate_params action_checks token_manage call_of
    check_call check_body answered
run = tt

abbrev sent_by : String → Gated (Response × Call) × State
sent_by amount = token_manage empty_digest daemon client (some (body amount)) empty_state

refused_amount : (sent_by "0").0 ≡ refused (codes "amount is invalid") 400
unfolding run
refused_amount = refl

redacted :
    (sent_by "5").0
    ≡ passed (
      failed (codes "The wallet service is unavailable. Check that all services are running.") 502,
      call_of (fields_of (body "5")),
    )
unfolding run
redacted = refl

token_manage-passed_example :
    (value : Json) × ((some (body "5") ≡ some value)
      × (((gate empty_digest client (totp_from_body (fields_of value)) empty_state).0
            ≡ StepUpResult.ok)
          × ((call_of (fields_of (body "5")) ≡ call_of (fields_of value))
              × ((failed
                      (codes
                        "The wallet service is unavailable. Check that all services are running.")
                      502
                    ≡ answered (daemon (call_of (fields_of (body "5")))))
                  × ((a : Action) × ((get (call_of (fields_of (body "5"))).action actions ≡ some a)
                        × IsSafeCall a (call_of (fields_of (body "5"))).params))))))
token_manage-passed_example =
    token_manage-passed empty_digest daemon client (some (body "5")) empty_state redacted
