-- ===== src/ToastStore/Watcher.antt =====
-- The timer and the watcher of a toast of app/src/lib/toastStore.ts keep the causes of what it shows.
use web_gui.Base.{ℕ, ◌≢◌, refl, sym, subst, inl, inr, List, ◌∷◌, Option, arith, Bool-cases}
use web_gui.Text.{Text, text_eq, text_eq_iff}
use web_gui.ToastStore.{
  Session, Event, timed_out, is_watching, run_status_check, on_resolved, on_rejected,
}
use web_gui.ToastStore.Explained.{
  Happened, here, there, confirmed_by_watch, failed_by_watch, IsSound, weaken, update-ExplainsAll,
}

module _ (tx : Text) where
  module _ {es : List Event} (s : Session) (c : IsSound tx es s) where
    pub run_status_check-IsSound : IsSound tx (Event.timer ∷ es) (run_status_check tx s)
    unfolding run_status_check
    run_status_check-IsSound =
        let few = c.few in
        elim (Bool-cases s.escalate) [
          | inl armed ↦
              rw (run_status_check, armed)
                (record {
                  explained = weaken tx Event.timer s.toasts c.explained;
                  asked = λ h. there Event.timer (c.asked h);
                  few = ground arith;
                })
          | inr idle ↦
              rw (run_status_check, idle)
                (record {
                  explained = weaken tx Event.timer s.toasts c.explained;
                  asked = λ h. there Event.timer (c.asked h);
                  few = ground arith;
                })
        ]

    pub on_resolved-IsSound :
        (height : Option ℕ)
        → IsSound tx (Event.watch_resolved height ∷ es) (on_resolved tx height s)
    unfolding on_resolved
    on_resolved-IsSound height =
        let e = Event.watch_resolved height in
        let few = c.few in
        elim (Bool-cases (is_watching s.watch)) [
          | inr not_watching ↦
              rw (on_resolved, not_watching)
                (record {
                  explained = weaken tx e s.toasts c.explained;
                  asked = λ h. there e (c.asked h);
                  few = c.few;
                })
          | inl waits ↦
              rw (on_resolved, waits)
                (record {
                  explained =
                      update-ExplainsAll tx _ _ s.toasts (λ t. refl)
                        (λ t h. confirmed_by_watch refl height (here es));
                  asked = λ h. absurd (ground arith);
                  few = ground arith;
                })
        ]

    pub on_rejected-IsSound :
        (message : Text) → IsSound tx (Event.watch_rejected message ∷ es) (on_rejected tx message s)
    unfolding on_rejected
    on_rejected-IsSound message =
        let e = Event.watch_rejected message in
        let few = c.few in
        elim (Bool-cases (is_watching s.watch)) [
          | inr not_watching ↦
              rw (on_rejected, not_watching)
                (record {
                  explained = weaken tx e s.toasts c.explained;
                  asked = λ h. there e (c.asked h);
                  few = c.few;
                })
          | inl waits ↦ elim (Bool-cases (text_eq message timed_out)) [
            | inl late ↦
                let same = (text_eq_iff message timed_out).0 late in
                rw (on_rejected, waits, late)
                  (record {
                    explained = weaken tx e s.toasts c.explained;
                    asked = λ h.
                        subst
                          (λ m.
                            Happened (Event.watch_rejected timed_out) (Event.watch_rejected m ∷ es))
                          (sym same) (here es);
                    few = ground arith;
                  })
            | inr early ↦
                let differs : message ≢ timed_out = ground (arith, text_eq_iff message timed_out) in
                rw (on_rejected, waits, early)
                  (record {
                    explained =
                        update-ExplainsAll tx _ _ s.toasts (λ t. refl)
                          (λ t h. failed_by_watch refl message differs refl (here es));
                    asked = λ h. absurd (ground arith);
                    few = ground arith;
                  })
          ]
        ]
