-- ===== src/TxWatcher/Tests.antt =====
-- Runs of app/src/lib/txWatcher.ts: two watchers of one transaction.
use web_gui.Base.{◌≡◌, ◌≢◌, ◌<◌, refl, [], ◌∷◌, some, arith}
use web_gui.Text.{Text, codes, text_eq}
use web_gui.JsMap.{get, set, delete}
use web_gui.TxWatcher.{
  waiting, resolved, rejected, State, confirmed, remove, mem, ensure_stream, drop_callback, settle,
  callback, deliver, tx_updated, timed_out, watch_tx, initial, Step, IsReachable,
}
use web_gui.TxWatcher.Delivery.{tx_updated-outcome}

run : Unit {0}
unfolding text_eq get set delete remove mem ensure_stream drop_callback settle callback deliver
    tx_updated timed_out watch_tx initial
run = tt

abbrev once : State
once = watch_tx (codes "ab") initial

abbrev twice : State
twice = watch_tx (codes "ab") once

reached : IsReachable twice
reached =
    IsReachable.next (IsReachable.next IsReachable.start (Step.watching (codes "ab") initial))
      (Step.watching (codes "ab") once)

both_watch : get (codes "ab") twice.watchers ≡ some (0 ∷ 1 ∷ [])
unfolding run
both_watch = refl

second_calls : 1 < twice.calls
unfolding run
second_calls = omega arith

second_waits : twice.outcome 1 ≡ waiting
unfolding run
second_waits = refl

tx_updated-outcome_example : (tx_updated (twice.tx_of 1) (confirmed 7) twice).outcome 1 ≡ resolved 7
tx_updated-outcome_example =
    tx_updated-outcome reached (confirmed 7) 1 second_calls second_waits refl

-- The first one gave up before.
abbrev given_up : State
given_up = timed_out 0 twice

abbrev message : Text
message = codes "Transaction confirmation timed out"

was_rejected : given_up.outcome 0 ≡ rejected message
unfolding run
was_rejected = refl

first_settled : given_up.outcome 0 ≢ waiting
first_settled e = cc (was_rejected)

first_calls : 0 < given_up.calls
unfolding run
first_calls = omega arith
