-- ===== src/ToastStore/Events.antt =====
-- Why a toast of app/src/lib/toastStore.ts shows what it shows, and how often the indexer is asked.
use web_gui.Base.{
  ℕ, ◌-◌, ◌≤◌, ◌≡◌, refl, sym, ap, ◌∙◌, inl, inr, List, [], ◌∷◌, some, ◌==◌, ltb, arith, Bool-cases,
}
use web_gui.Text.{Text, text_eq, text_eq_refl}
use web_gui.ToastStore.{
  TxToast, TxStatus, still_pending, on_chain, unknown, over, Session, Event, find, timed_out,
  mark_confirmed, is_pending, is_asking, answer_check, on_check, answer_last, on_last_check,
  on_event, new_toast, submitted_at, run_events, add,
}
use web_gui.ToastStore.Watcher.{run_status_check-IsSound, on_resolved-IsSound, on_rejected-IsSound}
use web_gui.ToastStore.Asks.{
  checks_started, last_checks_started, checks_started-le, last_checks_started-le,
}
use web_gui.ToastStore.Explained.{
  Happened, here, there, still, confirmed_by_check, confirmed_at_last, given_up, IsSound,
  update-other, find-dismiss, weaken, update-ExplainsAll, stale-ExplainsAll,
}

module _ (tx : Text) where
  module _ {es : List Event} (s : Session) (c : IsSound tx es s) where
    answer_check-IsSound :
        (st : TxStatus) (n : ℕ)
        → IsSound tx (Event.check_answered st ∷ es) (answer_check tx st (record s { checking = n }))
    unfolding answer_check
    answer_check-IsSound on_chain n = record {
      explained =
          update-ExplainsAll tx _ mark_confirmed s.toasts (λ t. refl)
            (λ t h. confirmed_by_check refl (here es));
      asked = λ h. there _ (c.asked h);
      few = c.few;
    }
    answer_check-IsSound unknown n = record {
      explained = stale-ExplainsAll tx _ s.toasts c.explained;
      asked = λ h. there _ (c.asked h);
      few = c.few;
    }
    answer_check-IsSound still_pending n =
        let few = c.few in
        elim (Bool-cases (ltb s.status_checks 3)) [
          | inl again ↦
              rw (answer_check, again)
                (record {
                  explained = stale-ExplainsAll tx _ s.toasts c.explained;
                  asked = λ h. there _ (c.asked h);
                  few = ground arith;
                })
          | inr enough ↦
              rw (answer_check, enough)
                (record {
                  explained = stale-ExplainsAll tx _ s.toasts c.explained;
                  asked = λ h. there _ (c.asked h);
                  few = c.few;
                })
        ]

    unanswered : (e : Event) (n : ℕ) → IsSound tx (e ∷ es) (record s { checking = n })
    unanswered e n = record {
      explained = weaken tx e s.toasts c.explained;
      asked = λ h. there e (c.asked h);
      few = c.few;
    }

    on_check-IsSound :
        (st : TxStatus) → IsSound tx (Event.check_answered st ∷ es) (on_check tx st s)
    unfolding on_check
    on_check-IsSound st = elim (Bool-cases (s.checking == 0)) [
      | inl nothing ↦ rw (on_check, nothing) (unanswered _ s.checking)
      | inr some_check ↦ elim (Bool-cases (is_pending (find tx s.toasts))) [
        | inl waits ↦ rw (on_check, some_check, waits) (answer_check-IsSound st (s.checking - 1))
        | inr done ↦ rw (on_check, some_check, done) (unanswered _ (s.checking - 1))
      ]
    ]

    answer_last-IsSound :
        (st : TxStatus)
        → Happened (Event.watch_rejected timed_out) es
        → IsSound tx
            (Event.last_check_answered st ∷ es)
            (answer_last tx st (record s { watch = over }))
    unfolding answer_last
    answer_last-IsSound on_chain late = record {
      explained =
          update-ExplainsAll tx _ mark_confirmed s.toasts (λ t. refl)
            (λ t h. confirmed_at_last refl (here es));
      asked = λ h. absurd (ground arith);
      few = c.few;
    }
    answer_last-IsSound still_pending late = record {
      explained = stale-ExplainsAll tx _ s.toasts c.explained;
      asked = λ h. absurd (ground arith);
      few = c.few;
    }
    answer_last-IsSound unknown late = record {
      explained =
          update-ExplainsAll tx _ _ s.toasts (λ t. refl)
            (λ t h. given_up refl (there _ late) (here es));
      asked = λ h. absurd (ground arith);
      few = c.few;
    }

    on_last_check-IsSound :
        (st : TxStatus) → IsSound tx (Event.last_check_answered st ∷ es) (on_last_check tx st s)
    unfolding on_last_check
    on_last_check-IsSound st = elim (Bool-cases (is_asking s.watch)) [
      | inr not_asking ↦ rw (on_last_check, not_asking) (unanswered _ s.checking)
      | inl asks ↦ elim (Bool-cases (is_pending (find tx s.toasts))) [
        | inl waits ↦ rw (on_last_check, asks, waits) (answer_last-IsSound st (c.asked asks))
        | inr done ↦
            rw (on_last_check, asks, done)
              (record {
                explained = weaken tx _ s.toasts c.explained;
                asked = λ h. absurd (ground arith);
                few = c.few;
              })
      ]
    ]

    replaced :
        (e : Event) (ts : List TxToast)
        → find tx ts ≡ find tx s.toasts
        → IsSound tx (e ∷ es) (record s { toasts = ts })
    replaced e ts same = record {
      explained = λ t h. weaken tx e s.toasts c.explained t (sym same ∙ h);
      asked = λ h. there e (c.asked h);
      few = c.few;
    }

    on_event-IsSound : (e : Event) → IsSound tx (e ∷ es) (on_event tx e s)
    unfolding on_event find
    on_event-IsSound Event.timer = run_status_check-IsSound tx s c
    on_event-IsSound (Event.check_answered st) = on_check-IsSound st
    on_event-IsSound (Event.watch_resolved h) = on_resolved-IsSound tx s c h
    on_event-IsSound (Event.watch_rejected m) = on_rejected-IsSound tx s c m
    on_event-IsSound (Event.last_check_answered st) = on_last_check-IsSound st
    on_event-IsSound Event.dismissed = record {
      explained = λ t h. absurd (ground (arith, find-dismiss tx s.toasts));
      asked = λ h. there _ (c.asked h);
      few = c.few;
    }
    on_event-IsSound (Event.submitted other) = elim (Bool-cases (text_eq other.id tx)) [
      | inl own ↦ rw (on_event, own) (unanswered _ s.checking)
      | inr foreign ↦ rw (on_event, foreign) (replaced _ (add other s.toasts) (rw foreign refl))
    ]
    on_event-IsSound (Event.changed other patch) = elim (Bool-cases (text_eq other tx)) [
      | inl own ↦ rw (on_event, own) (unanswered _ s.checking)
      | inr foreign ↦
          rw (on_event, foreign)
            (replaced _ _ (update-other tx other _ s.toasts (λ t. refl) foreign))
    ]

  events-IsSound :
      (now : ℕ) (toasts : List TxToast) (es : List Event)
      → IsSound tx es (run_events tx es (submitted_at tx now toasts))
  unfolding run_events submitted_at find
  events-IsSound now toasts [] = record {
    explained = λ t h.
        let first : some (new_toast tx now) ≡ some t = rw (text_eq_refl tx) at h in
        let same : new_toast tx now ≡ t = ground arith in
        still (sym (ap (λ (u : TxToast). u.status) same));
    asked = λ h. absurd (ground arith);
    few = omega arith;
  }
  events-IsSound now toasts (e ∷ es) = on_event-IsSound _ (events-IsSound now toasts es) e

  -- Whatever happens, in any order, after a transaction was submitted: its toast is pending or shows
  -- what an event said. It is confirmed only by the watcher or by an answer of the indexer, failed only
  -- with the error of the watcher, which is not its time limit, and untracked only after the watcher
  -- has timed out and the indexer did not know the transaction. The timer asks the indexer at most
  -- three times, and the end of the watcher asks it at most once more.
  pub run_events-IsSound :
      (now : ℕ) (toasts : List TxToast) (es : List Event)
      → IsSound tx es (run_events tx es (submitted_at tx now toasts))
        × ((checks_started tx es (submitted_at tx now toasts) ≤ 3)
            × (last_checks_started tx es (submitted_at tx now toasts) ≤ 1))
  run_events-IsSound now toasts es =
      let sound = events-IsSound now toasts es in
      let few = sound.few in
      let started = checks_started-le tx es now toasts in
      let last = last_checks_started-le tx es now toasts in (sound, (ground arith, ground arith))
