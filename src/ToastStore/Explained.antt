-- ===== src/ToastStore/Explained.antt =====
-- The causes of what a toast of app/src/lib/toastStore.ts shows, and how the store's operations keep them.
use web_gui.Base.{
  ℕ, ◌+◌, ◌≤◌, ◌≡◌, ◌≢◌, refl, sym, subst, ◌∙◌, inl, inr, true, false, List, [], ◌∷◌, Option, none,
  some, arith, Bool-cases, if◌then◌else◌,
}
use web_gui.Text.{Text, text_eq, text_eq_iff}
use web_gui.ToastStore.{
  TxToast, pending, confirmed, failed, untracked, on_chain, unknown, Session, Event, update,
  dismiss, find, timed_out, mark_stale, is_asking,
}

pub data Happened (e : Event) : List Event → Type 0 where
  here : (es : List Event) → Happened e (e ∷ es)
  there : (d : Event) {es : List Event} → Happened e es → Happened e (d ∷ es)

-- What a toast says has its cause in an event.
pub data IsExplained (es : List Event) (t : TxToast) : Type 0 where
  still : t.status ≡ pending → IsExplained es t
  confirmed_by_watch :
      t.status ≡ confirmed
      → (h : Option ℕ) → Happened (Event.watch_resolved h) es
      → IsExplained es t
  confirmed_by_check :
      t.status ≡ confirmed → Happened (Event.check_answered on_chain) es → IsExplained es t
  confirmed_at_last :
      t.status ≡ confirmed → Happened (Event.last_check_answered on_chain) es → IsExplained es t
  failed_by_watch :
      t.status ≡ failed
      → (m : Text) → m ≢ timed_out
      → t.error_message ≡ some m
      → Happened (Event.watch_rejected m) es
      → IsExplained es t
  given_up :
      t.status ≡ untracked
      → Happened (Event.watch_rejected timed_out) es
      → Happened (Event.last_check_answered unknown) es
      → IsExplained es t

pub later :
    (d : Event) {es : List Event} (t t' : TxToast)
    → t'.status ≡ t.status
    → t'.error_message ≡ t.error_message
    → IsExplained es t
    → IsExplained (d ∷ es) t'
later d t t' s m (still p) = still (s ∙ p)
later d t t' s m (confirmed_by_watch p h e) = confirmed_by_watch (s ∙ p) h (there d e)
later d t t' s m (confirmed_by_check p e) = confirmed_by_check (s ∙ p) (there d e)
later d t t' s m (confirmed_at_last p e) = confirmed_at_last (s ∙ p) (there d e)
later d t t' s m (failed_by_watch p b ne q e) = failed_by_watch (s ∙ p) b ne (m ∙ q) (there d e)
later d t t' s m (given_up p e f) = given_up (s ∙ p) (there d e) (there d f)

pub update-other :
    (tx other : Text) (patch : TxToast → TxToast) (ts : List TxToast)
    → ((t : TxToast) → (patch t).id ≡ t.id)
    → text_eq other tx ≡ false
    → find tx (update other patch ts) ≡ find tx ts
unfolding find update
update-other tx other patch [] keeps h = refl
update-other tx other patch (t ∷ ts) keeps h = elim (Bool-cases (text_eq t.id other)) [
  | inr apart ↦ ground (arith, update-other tx other patch ts keeps h)
  | inl same ↦
      let e : t.id ≡ other = (text_eq_iff t.id other).0 same in
      let away : text_eq t.id tx ≡ false = subst (λ x. text_eq x tx ≡ false) (sym e) h in
      let away' : text_eq (patch t).id tx ≡ false =
        subst (λ x. text_eq x tx ≡ false) (sym (keeps t)) away in
      ground (arith, away', update-other tx other patch ts keeps h)
]

pub update-same :
    (tx : Text) (patch : TxToast → TxToast) (ts : List TxToast) {t' : TxToast}
    → ((t : TxToast) → (patch t).id ≡ t.id)
    → find tx (update tx patch ts) ≡ some t'
    → (t : TxToast) × ((find tx ts ≡ some t) × (t' ≡ patch t))
unfolding find update
update-same tx patch [] keeps h = absurd (ground arith)
update-same tx patch (t ∷ ts) {t'} keeps h = elim (Bool-cases (text_eq t.id tx)) [
  | inl same ↦
      let same' : text_eq (patch t).id tx ≡ true =
        subst (λ x. text_eq x tx ≡ true) (sym (keeps t)) same in
      let got : some (patch t) ≡ some t' = rw (same, same') at h in
      (t, (rw same refl, ground arith))
  | inr apart ↦
      let (u, (found, e)) = update-same tx patch ts keeps (rw (apart, apart) at h) in
      (u, (rw apart found, e))
]

pub find-dismiss : (tx : Text) (ts : List TxToast) → find tx (dismiss tx ts) ≡ none
unfolding find dismiss
find-dismiss tx [] = refl
find-dismiss tx (t ∷ ts) = ground (arith, find-dismiss tx ts)

module _ (tx : Text) where
  -- What holds of a submission after the events.
  pub record IsSound (es : List Event) (s : Session) : Type 0 where
    pub explained : (t : TxToast) → find tx s.toasts ≡ some t → IsExplained es t
    pub asked : is_asking s.watch ≡ true → Happened (Event.watch_rejected timed_out) es
    pub few : s.status_checks + (if s.escalate then 1 else 0) ≤ 3

  abbrev pub ExplainsAll : List Event → List TxToast → Type 0
  ExplainsAll es ts = (t : TxToast) → find tx ts ≡ some t → IsExplained es t

  pub weaken :
      (e : Event) {es : List Event} (ts : List TxToast)
      → ExplainsAll es ts
      → ExplainsAll (e ∷ es) ts
  weaken e ts c t h = later e t t refl refl (c t h)

  pub update-ExplainsAll :
      (es : List Event) (patch : TxToast → TxToast) (ts : List TxToast)
      → ((t : TxToast) → (patch t).id ≡ t.id)
      → ((t : TxToast) → find tx ts ≡ some t → IsExplained es (patch t))
      → ExplainsAll es (update tx patch ts)
  update-ExplainsAll es patch ts keeps f t' h =
      let (t, (found, same)) = update-same tx patch ts keeps h in
      subst (IsExplained es) (sym same) (f t found)

  pub stale-ExplainsAll :
      (e : Event) {es : List Event} (ts : List TxToast)
      → ExplainsAll es ts
      → ExplainsAll (e ∷ es) (update tx mark_stale ts)
  stale-ExplainsAll e ts c =
      update-ExplainsAll _ mark_stale ts (λ t. refl)
        (λ t h. later e t (mark_stale t) refl refl (c t h))
