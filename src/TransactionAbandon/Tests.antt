-- ===== src/TransactionAbandon/Tests.antt =====
-- Runs of app/src/pages/api/transaction-abandon.ts on concrete bodies.
use Prim.Native.String.{String}
use web_gui.Base.{◌≡◌, refl, some, [], ◌∷◌}
use web_gui.Base.Int.{pos, negsuc}
use web_gui.Text.{codes}
use web_gui.JsMap.{Map}
use web_gui.Json.{Json, int, text, obj, member, end, fields_of}
use web_gui.StepUp.{StepUpResult}
use web_gui.Gated.{rpc_error, Gated, passed, refused, State, gate, totp_from_body}
use web_gui.Gated.Fixtures.{empty_digest, empty_state, client, run_gate}
use web_gui.TransactionAbandon.{
  is_transaction_id, check_fields, check_body, call_of, answered, Response, failed, Daemon,
  transaction_abandon,
}
use web_gui.TransactionAbandon.Safety.{IsTransactionId, id_of, transaction_abandon-passed}

abbrev daemon : Daemon
daemon call = rpc_error (codes "no such transaction") (negsuc 0)

abbrev body : String → Json
body id = obj (
    member (codes "transaction_id") (text (codes id))
      (member (codes "totp_code") (text (codes "000000")) end))

run : Unit {0}
unfolding run_gate is_transaction_id check_fields check_body answered transaction_abandon
run = tt

abbrev abandoned : String → Gated (Response × Map Json) × State
abandoned id = transaction_abandon empty_digest daemon client (some (body id)) empty_state

too_short :
    (abandoned "0123456789abcde").0 ≡ refused (codes "A valid transaction id is required.") 400
unfolding run
too_short = refl

passed_on :
    (abandoned " 0123456789ABcdef ").0
    ≡ passed (failed (codes "no such transaction") 502, call_of (codes "0123456789ABcdef"))
unfolding run
passed_on = refl

transaction_abandon-passed_example :
    (value : Json) × ((some (body " 0123456789ABcdef ") ≡ some value)
      × (((gate empty_digest client (totp_from_body (fields_of value)) empty_state).0
            ≡ StepUpResult.ok)
          × (IsTransactionId (id_of value)
              × ((call_of (codes "0123456789ABcdef")
                    ≡ (codes "account", int (pos 0))
                      ∷ (codes "transaction_id", text (id_of value))
                      ∷ [])
                  × (failed (codes "no such transaction") 502
                      ≡ answered (daemon (call_of (codes "0123456789ABcdef"))))))))
transaction_abandon-passed_example =
    transaction_abandon-passed empty_digest daemon client (some (body " 0123456789ABcdef "))
      empty_state passed_on
