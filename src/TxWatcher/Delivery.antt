-- ===== src/TxWatcher/Delivery.antt =====
-- What a promise of app/src/lib/txWatcher.ts comes to.
use web_gui.Base.{
  ℕ, ◌≡◌, ◌≢◌, ◌<◌, refl, sym, ap, subst, ◌∙◌, inl, inr, true, List, [], ◌∷◌, Option, none, some,
  ◌==◌, arith, Bool-cases, if◌then◌else◌,
}
use web_gui.Text.{codes}
use web_gui.TxWatcher.{
  TxState, Outcome, waiting, resolved, rejected, State, mem, settle, callback, confirmed,
  in_mempool, conflicted, inactive, abandoned, ids_of, deliver, tx_updated, tx_dropped, timed_out,
  watch_tx, on_error, is_closed, Step, IsReachable, settled_as,
}
use web_gui.TxWatcher.Laws.{ensure_stream-watchers, reachable-IsConsistent}

-- The outcome that a state of the transaction gives to one who waits, none to keep waiting.
abbrev pub outcome_of : TxState → Option Outcome
outcome_of (confirmed h) = some (resolved h)
outcome_of (conflicted b) = some (rejected (codes "Transaction conflicted"))
outcome_of abandoned = some (rejected (codes "Transaction abandoned"))
outcome_of _ = none

settled_as-kept : (o result : Outcome) → o ≢ waiting → settled_as o result ≡ o
settled_as-kept waiting result h = absurd (h refl)
settled_as-kept (resolved b) result h = refl
settled_as-kept (rejected m) result h = refl

settle-settled :
    (i j : ℕ) (result : Outcome) (s : State)
    → s.outcome j ≢ waiting
    → (settle i result s).outcome j ≡ s.outcome j
unfolding settle
settle-settled i j result s h = elim (Bool-cases (j == i)) [
  | inr other ↦ ground arith
  | inl same ↦
      let e : j ≡ i = ground arith in
      let kept : settled_as (s.outcome i) result ≡ s.outcome i =
        settled_as-kept (s.outcome i) result (subst (λ k. s.outcome k ≢ waiting) e h) in
      ground (arith, kept, ap s.outcome e)
]

callback-settled :
    (state : TxState) (i j : ℕ) (s : State)
    → s.outcome j ≢ waiting
    → (callback state i s).outcome j ≡ s.outcome j
unfolding callback
callback-settled (confirmed h) i j s e = settle-settled i j _ s e
callback-settled in_mempool i j s e = refl
callback-settled (conflicted b) i j s e = settle-settled i j _ s e
callback-settled inactive i j s e = refl
callback-settled abandoned i j s e = settle-settled i j _ s e

deliver-settled :
    (state : TxState) (is : List ℕ) (j : ℕ) (s : State)
    → s.outcome j ≢ waiting
    → (deliver state is s).outcome j ≡ s.outcome j
unfolding deliver
deliver-settled state [] j s e = refl
deliver-settled state (i ∷ is) j s e =
    let first = callback-settled state i j s e in
    deliver-settled state is j (callback state i s) (λ w. e (sym first ∙ w)) ∙ first

outcome_of-ne-waiting :
    (state : TxState) {result : Outcome} → outcome_of state ≡ some result → result ≢ waiting
outcome_of-ne-waiting (confirmed h) e = λ w. absurd (ground arith)
outcome_of-ne-waiting in_mempool e = λ w. absurd (ground arith)
outcome_of-ne-waiting (conflicted b) e = λ w. absurd (ground arith)
outcome_of-ne-waiting inactive e = λ w. absurd (ground arith)
outcome_of-ne-waiting abandoned e = λ w. absurd (ground arith)

callback-settle :
    (state : TxState) (i : ℕ) (s : State) {result : Outcome}
    → outcome_of state ≡ some result
    → callback state i s ≡ settle i result s
unfolding callback
callback-settle (confirmed h) i s {result} e =
    let same : resolved h ≡ result = ground arith in ap (λ r. settle i r s) same
callback-settle in_mempool i s e = absurd (ground arith)
callback-settle (conflicted b) i s {result} e =
    let same : rejected (codes "Transaction conflicted") ≡ result = ground arith in
    ap (λ r. settle i r s) same
callback-settle inactive i s e = absurd (ground arith)
callback-settle abandoned i s {result} e =
    let same : rejected (codes "Transaction abandoned") ≡ result = ground arith in
    ap (λ r. settle i r s) same

settle-outcome :
    (i j : ℕ) (result : Outcome) (s : State)
    → s.outcome j ≡ waiting
    → (settle i result s).outcome j ≡ (if j == i then result else waiting)
unfolding settle
settle-outcome i j result s w = elim (Bool-cases (j == i)) [
  | inr other ↦ ground arith
  | inl same ↦
      let e : j ≡ i = ground arith in
      let at : s.outcome i ≡ waiting = subst (λ k. s.outcome k ≡ waiting) e w in
      let settles : settled_as (s.outcome i) result ≡ result = rw at refl in ground (arith, settles)
]

-- Each callback in the set gets the outcome.
deliver-outcome :
    (state : TxState) (is : List ℕ) (j : ℕ) (s : State) {result : Outcome}
    → outcome_of state ≡ some result
    → mem j is ≡ true
    → s.outcome j ≡ waiting
    → (deliver state is s).outcome j ≡ result
unfolding deliver mem
deliver-outcome state [] j s e h w = absurd (ground arith)
deliver-outcome state (i ∷ is) j s {result} e h w =
    let first : (callback state i s).outcome j ≡ (if j == i then result else waiting) =
      ap (λ (t : State). t.outcome j) (callback-settle state i s e)
      ∙ settle-outcome i j result s w in
    elim (Bool-cases (j == i)) [
      | inl same ↦
          let done : (callback state i s).outcome j ≡ result = ground (arith, first) in
          let settled : (callback state i s).outcome j ≢ waiting =
            λ x. outcome_of-ne-waiting state e (sym done ∙ x) in
          deliver-settled state is j (callback state i s) settled ∙ done
      | inr other ↦
          let still : (callback state i s).outcome j ≡ waiting = ground (arith, first) in
          deliver-outcome state is j (callback state i s) e (ground arith) still
    ]

-- In every state that can be reached, a promise that waits settles when its transaction is confirmed,
-- conflicted or abandoned, however many others watch the same transaction: a confirmation resolves it
-- with the height of the block, the others reject it.
pub tx_updated-outcome :
    {s : State}
    → IsReachable s
    → (state : TxState) (i : ℕ) {result : Outcome} → i < s.calls
    → s.outcome i ≡ waiting
    → outcome_of state ≡ some result
    → (tx_updated (s.tx_of i) state s).outcome i ≡ result
unfolding tx_updated
tx_updated-outcome {s} reached state i low w e =
    let c = reachable-IsConsistent reached in
    deliver-outcome state (ids_of (s.tx_of i) s) i s e (c.complete i low w) w

-- A promise that has settled keeps its outcome, whatever happens next.
pub Step-settled :
    {s s' : State}
    → Step s s'
    → (i : ℕ) → i < s.calls
    → s.outcome i ≢ waiting
    → s'.outcome i ≡ s.outcome i
unfolding tx_updated tx_dropped timed_out watch_tx on_error
Step-settled (Step.watching tx s) i low h =
    let (watchers_same, (tx_same, (outcome_same, calls_same))) = ensure_stream-watchers s in
    ground (arith, calls_same, ap (λ (f : ℕ → Outcome). f i) outcome_same)
Step-settled (Step.updating tx state s) i low h = deliver-settled state (ids_of tx s) i s h
Step-settled (Step.dropping tx s) i low h = deliver-settled (conflicted []) (ids_of tx s) i s h
Step-settled (Step.timing_out j s _) i low h = settle-settled j i _ s h
Step-settled (Step.changing source r s) i low h = refl
Step-settled (Step.failing source s) i low h = elim (Bool-cases (is_closed (s.ready source))) [
  | inl over ↦ rw (on_error, over) refl
  | inr up ↦ rw (on_error, up) refl
]
