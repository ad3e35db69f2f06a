-- ===== src/ToastStore/Asks.antt =====
-- How often a submission of app/src/lib/toastStore.ts asks the indexer.
use web_gui.Base.{
  ℕ, ◌+◌, ◌-◌, ◌≤◌, ◌≡◌, refl, true, false, not, ◌&&◌, List, [], ◌∷◌, arith, if◌then◌else◌,
}
use web_gui.Text.{Text}
use web_gui.ToastStore.{
  TxToast, Watch, still_pending, on_chain, unknown, watching, asking, over, Session, Event,
  is_watching, is_asking, run_status_check, answer_check, on_check, on_resolved, on_rejected,
  answer_last, on_last_check, on_event, submitted_at, run_events,
}

asking-not_watching : (w : Watch) → is_asking w ≡ true → is_watching w ≡ false
asking-not_watching asking h = refl
asking-not_watching watching h = absurd (ground arith)
asking-not_watching over h = absurd (ground arith)

module _ (tx : Text) where
  -- The checks that an event puts under way, and the last checks that it starts.
  abbrev pub starts : Event → Session → ℕ
  starts e s = (on_event tx e s).checking - s.checking

  abbrev pub starts_last : Event → Session → ℕ
  starts_last e s = if is_asking (on_event tx e s).watch && not (is_asking s.watch) then 1 else 0

  -- Those of all the events, the latest first.
  unfoldable pub checks_started : List Event → Session → ℕ
  checks_started [] s = 0
  checks_started (e ∷ es) s = starts e (run_events tx es s) + checks_started es s

  unfoldable pub last_checks_started : List Event → Session → ℕ
  last_checks_started [] s = 0
  last_checks_started (e ∷ es) s = starts_last e (run_events tx es s) + last_checks_started es s

  starts-counted :
      (e : Event) (s : Session) → starts e s + s.status_checks ≤ (on_event tx e s).status_checks
  unfolding on_event run_status_check on_check answer_check on_resolved on_rejected on_last_check
      answer_last
  starts-counted Event.timer s = ground arith
  starts-counted (Event.check_answered on_chain) s = ground arith
  starts-counted (Event.check_answered still_pending) s = ground arith
  starts-counted (Event.check_answered unknown) s = ground arith
  starts-counted (Event.watch_resolved height) s = ground arith
  starts-counted (Event.watch_rejected message) s = ground arith
  starts-counted (Event.last_check_answered on_chain) s = ground arith
  starts-counted (Event.last_check_answered still_pending) s = ground arith
  starts-counted (Event.last_check_answered unknown) s = ground arith
  starts-counted Event.dismissed s = ground arith
  starts-counted (Event.submitted other) s = ground arith
  starts-counted (Event.changed other patch) s = ground arith

  abbrev pub given_up_watching : Session → ℕ
  given_up_watching s = if is_watching s.watch then 0 else 1

  starts_last-counted :
      (e : Event) (s : Session)
      → starts_last e s + given_up_watching s ≤ given_up_watching (on_event tx e s)
  unfolding on_event run_status_check on_check answer_check on_resolved on_rejected on_last_check
      answer_last
  starts_last-counted Event.timer s =
      ground
        (arith, asking-not_watching s.watch, asking-not_watching (on_event tx Event.timer s).watch)
  starts_last-counted (Event.check_answered on_chain) s = ground (
    arith,
    asking-not_watching s.watch,
    asking-not_watching (on_event tx (Event.check_answered on_chain) s).watch,
  )
  starts_last-counted (Event.check_answered still_pending) s = ground (
    arith,
    asking-not_watching s.watch,
    asking-not_watching (on_event tx (Event.check_answered still_pending) s).watch,
  )
  starts_last-counted (Event.check_answered unknown) s = ground (
    arith,
    asking-not_watching s.watch,
    asking-not_watching (on_event tx (Event.check_answered unknown) s).watch,
  )
  starts_last-counted (Event.watch_resolved height) s = ground (
    arith,
    asking-not_watching s.watch,
    asking-not_watching (on_event tx (Event.watch_resolved height) s).watch,
  )
  starts_last-counted (Event.watch_rejected message) s = ground (
    arith,
    asking-not_watching s.watch,
    asking-not_watching (on_event tx (Event.watch_rejected message) s).watch,
  )
  starts_last-counted (Event.last_check_answered on_chain) s = ground (
    arith,
    asking-not_watching s.watch,
    asking-not_watching (on_event tx (Event.last_check_answered on_chain) s).watch,
  )
  starts_last-counted (Event.last_check_answered still_pending) s = ground (
    arith,
    asking-not_watching s.watch,
    asking-not_watching (on_event tx (Event.last_check_answered still_pending) s).watch,
  )
  starts_last-counted (Event.last_check_answered unknown) s = ground (
    arith,
    asking-not_watching s.watch,
    asking-not_watching (on_event tx (Event.last_check_answered unknown) s).watch,
  )
  starts_last-counted Event.dismissed s = ground (
    arith,
    asking-not_watching s.watch,
    asking-not_watching (on_event tx Event.dismissed s).watch,
  )
  starts_last-counted (Event.submitted other) s = ground (
    arith,
    asking-not_watching s.watch,
    asking-not_watching (on_event tx (Event.submitted other) s).watch,
  )
  starts_last-counted (Event.changed other patch) s = ground (
    arith,
    asking-not_watching s.watch,
    asking-not_watching (on_event tx (Event.changed other patch) s).watch,
  )

  pub checks_started-le :
      (es : List Event) (now : ℕ) (toasts : List TxToast)
      → checks_started es (submitted_at tx now toasts)
        ≤ (run_events tx es (submitted_at tx now toasts)).status_checks
  unfolding checks_started run_events submitted_at
  checks_started-le [] now toasts = omega arith
  checks_started-le (e ∷ es) now toasts = omega (
    arith,
    starts-counted e (run_events tx es (submitted_at tx now toasts)),
    checks_started-le es now toasts,
  )

  pub last_checks_started-le :
      (es : List Event) (now : ℕ) (toasts : List TxToast)
      → last_checks_started es (submitted_at tx now toasts)
        ≤ given_up_watching (run_events tx es (submitted_at tx now toasts))
  unfolding last_checks_started run_events submitted_at
  last_checks_started-le [] now toasts = omega arith
  last_checks_started-le (e ∷ es) now toasts =
      let step = starts_last-counted e (run_events tx es (submitted_at tx now toasts)) in
      let rest = last_checks_started-le es now toasts in omega arith
