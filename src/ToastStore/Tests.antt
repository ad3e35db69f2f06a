-- ===== src/ToastStore/Tests.antt =====
-- A run of app/src/lib/toastStore.ts: the watcher gives up and the indexer does not know the transaction.
use web_gui.Base.{◌≡◌, ◌≤◌, refl, List, [], ◌∷◌, some, none}
use web_gui.Text.{Text, codes, text_eq}
use web_gui.ToastStore.{
  Event, Session, unknown, still_pending, untracked, ToastStatus, timed_out, find, update,
  run_status_check, answer_check, on_check, on_rejected, answer_last, on_last_check, on_event,
  run_events, submitted_at,
}
use web_gui.ToastStore.Explained.{IsSound}
use web_gui.ToastStore.Asks.{checks_started, last_checks_started}
use web_gui.ToastStore.Events.{run_events-IsSound}

run : Unit {0}
unfolding text_eq find update run_status_check answer_check on_check on_rejected answer_last
    on_last_check on_event run_events submitted_at
run = tt

abbrev tx : Text
tx = codes "ab"

-- The latest first.
abbrev events : List Event
events =
    Event.last_check_answered unknown
    ∷ Event.watch_rejected timed_out
    ∷ Event.check_answered still_pending
    ∷ Event.timer
    ∷ []

asked_once : (run_events tx events (submitted_at tx 0 [])).status_checks ≡ 1
unfolding run
asked_once = refl

abbrev status_of : Session → List ToastStatus
status_of s = elim (find tx s.toasts) [ some t ↦ t.status ∷ [] | none ↦ [] ]

shown : status_of (run_events tx events (submitted_at tx 0 [])) ≡ untracked ∷ []
unfolding run
shown = refl

run_events-IsSound_example :
    IsSound tx events (run_events tx events (submitted_at tx 0 []))
    × ((checks_started tx events (submitted_at tx 0 []) ≤ 3)
        × (last_checks_started tx events (submitted_at tx 0 []) ≤ 1))
run_events-IsSound_example = run_events-IsSound tx 0 [] events
