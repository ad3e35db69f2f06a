-- ===== src/StakeTrade/Tests.antt =====
-- Runs of app/src/pages/api/stake-trade.ts on concrete bodies.
use Prim.Native.String.{String}
use web_gui.Base.{◌≡◌, refl, List, [], ◌∷◌, some}
use web_gui.Base.Int.{pos, negsuc}
use web_gui.Text.{codes}
use web_gui.Json.{Json, int, text, obj, arr, null, member, end, cons, nil}
use web_gui.Gated.{RpcAnswer, Gated, passed, refused, State}
use web_gui.Gated.Fixtures.{empty_digest, empty_state, client, run_gate}
use web_gui.StakeTrade.Actions.{is_ratio, ratio_parts, validate_params, action_checks}
use web_gui.StakeTrade.{
  BatchItem, Response, Daemon, stake_trade, raw_entries, entry_item, entry_items, item_error,
  first_item_error, default_field, action_defaults, with_defaults, all_with_defaults, check_value,
  check_body, run_batch,
}

-- The first call succeeds, every later one fails.
abbrev daemon : Daemon
daemon [] item = RpcAnswer.result null
daemon (c ∷ cs) item = RpcAnswer.rpc_error (codes "no funds") (negsuc 0)

abbrev stake : String → Json
stake amount = obj (
    member (codes "action") (text (codes "delegation_stake")) (
      member (codes "params")
        (obj (
          member (codes "account") (int (pos 0)) (
            member (codes "delegation_id") (text (codes "mdelg1qqqqqqqq")) (
              member (codes "amount") (obj (member (codes "decimal") (text (codes amount)) end))
                end))))
        end))

abbrev body : String → Json
body amount = obj (
    member (codes "actions") (arr (cons (stake amount) (cons (stake "2") nil)))
      (member (codes "totp_code") (text (codes "000000")) end))

run : Unit {0}
unfolding run_gate is_ratio ratio_parts validate_params action_checks stake_trade raw_entries
    entry_item entry_items item_error first_item_error default_field action_defaults with_defaults
    all_with_defaults check_value check_body run_batch
run = tt

abbrev sent_by : String → Gated (Response × List BatchItem) × State
sent_by amount = stake_trade empty_digest daemon client (some (body amount)) empty_state

refused_amount : (sent_by "0.0").0 ≡ refused (codes "delegation_stake: amount is invalid") 400
unfolding run
refused_amount = refl

abbrev called : List BatchItem
called = made_by (sent_by "1.5").0
  where
    made_by : Gated (Response × List BatchItem) → List BatchItem
    made_by (passed (response, made)) = made
    made_by (refused error status) = []
