-- ===== src/TxWatcher/Laws.antt =====
-- The invariant of the watchers of app/src/lib/txWatcher.ts: every promise that waits has its callback
-- in the set of its transaction.
use web_gui.Base.{
  ℕ, ◌≡◌, ◌≢◌, ◌<◌, refl, ◌∙◌, inl, inr, true, not, ◌&&◌, ◌||◌, List, [], ◌∷◌, ◌++◌, ◌==◌, arith,
  Bool-cases, Option-cases, if◌then◌else◌,
}
use web_gui.Text.{Text, text_eq, text_eq_iff, text_eq_refl}
use web_gui.JsMap.{
  Map, get, get-set, get-delete, HasUniqueKeys, set-HasUniqueKeys, delete-HasUniqueKeys,
}
use web_gui.TxWatcher.{
  TxState, Outcome, waiting, resolved, rejected, State, remove, mem, drop_callback, kept_set,
  settle, callback, confirmed, in_mempool, conflicted, inactive, abandoned, or_nil, ids_of, deliver,
  tx_updated, tx_dropped, timed_out, watch_tx, ensure_stream, is_live, on_error, is_closed, initial,
  Step, IsReachable, settled_as,
}

mem-remove : (j i : ℕ) (is : List ℕ) → mem j (remove i is) ≡ (not (j == i) && mem j is)
unfolding mem remove
mem-remove j i [] = ground arith
mem-remove j i (k ∷ is) = ground (arith, mem-remove j i is)

mem-append : (j i : ℕ) (is : List ℕ) → mem j (is ++ i ∷ []) ≡ (mem j is || (j == i))
unfolding mem
mem-append j i [] = ground arith
mem-append j i (k ∷ is) = ground (arith, mem-append j i is)

kept_set-get :
    (tx other : Text) (is : List ℕ) (m : Map (List ℕ))
    → HasUniqueKeys m
    → or_nil (get other (kept_set tx is m))
      ≡ (if text_eq tx other then is else or_nil (get other m))
kept_set-get tx other [] m h = ground (arith, get-delete tx other m h)
kept_set-get tx other (i ∷ is) m h = ground (arith, get-set tx other (i ∷ is) m)

kept_set-HasUniqueKeys :
    (tx : Text) (is : List ℕ) (m : Map (List ℕ))
    → HasUniqueKeys m
    → HasUniqueKeys (kept_set tx is m)
kept_set-HasUniqueKeys tx [] m h = delete-HasUniqueKeys tx m h
kept_set-HasUniqueKeys tx (i ∷ is) m h = set-HasUniqueKeys tx (i ∷ is) m h

-- Only the dropped callback leaves.
drop_callback-mem :
    (tx other : Text) (i j : ℕ) (m : Map (List ℕ))
    → HasUniqueKeys m
    → j ≢ i
    → mem j (or_nil (get other (drop_callback tx i m))) ≡ mem j (or_nil (get other m))
unfolding drop_callback
drop_callback-mem tx other i j m unique h = elim (Option-cases (get tx m)) [
  | inl e ↦ rw (drop_callback, e) refl
  | inr (ids, e) ↦ ground (
    arith,
    kept_set-get tx other (remove i ids) m unique,
    mem-remove j i ids,
    text_eq_iff tx other,
  )
]

drop_callback-HasUniqueKeys :
    (tx : Text) (i : ℕ) (m : Map (List ℕ)) → HasUniqueKeys m → HasUniqueKeys (drop_callback tx i m)
unfolding drop_callback
drop_callback-HasUniqueKeys tx i m h = elim (Option-cases (get tx m)) [
  | inl e ↦ rw (drop_callback, e) h
  | inr (ids, e) ↦ rw (drop_callback, e) (kept_set-HasUniqueKeys tx (remove i ids) m h)
]

-- No transaction has two sets, and a promise that waits is in the set of its transaction.
pub record IsConsistent (s : State) : Type 0 where
  pub unique : HasUniqueKeys s.watchers
  pub complete : (i : ℕ) → i < s.calls → s.outcome i ≡ waiting → mem i (ids_of (s.tx_of i) s) ≡ true

settled_as-ne : (o result : Outcome) → result ≢ waiting → settled_as o result ≢ waiting
settled_as-ne waiting result h = h
settled_as-ne (resolved b) result h = λ e. cc
settled_as-ne (rejected m) result h = λ e. cc

settle-waiting :
    (i j : ℕ) (result : Outcome) (s : State)
    → result ≢ waiting
    → (settle i result s).outcome j ≡ waiting
    → (j ≢ i) × (s.outcome j ≡ waiting)
unfolding settle
settle-waiting i j result s h waits = elim (Bool-cases (j == i)) [
  | inr other ↦ (ground arith, ground arith)
  | inl same ↦ absurd (settled_as-ne (s.outcome i) result h (ground arith))
]

settle-IsConsistent :
    (i : ℕ) (result : Outcome) (s : State)
    → result ≢ waiting
    → IsConsistent s
    → IsConsistent (settle i result s)
unfolding settle
settle-IsConsistent i result s h c = record {
  unique = drop_callback-HasUniqueKeys (s.tx_of i) i s.watchers c.unique;
  complete = λ j low waits.
      let (other, before) = settle-waiting i j result s h waits in
      drop_callback-mem (s.tx_of i) (s.tx_of j) i j s.watchers c.unique other
      ∙ c.complete j low before;
}

callback-IsConsistent :
    (state : TxState) (i : ℕ) (s : State) → IsConsistent s → IsConsistent (callback state i s)
unfolding callback
callback-IsConsistent (confirmed h) i s c = settle-IsConsistent i (resolved h) s (λ e. cc) c
callback-IsConsistent in_mempool i s c = c
callback-IsConsistent (conflicted b) i s c = settle-IsConsistent i _ s (λ e. cc) c
callback-IsConsistent inactive i s c = c
callback-IsConsistent abandoned i s c = settle-IsConsistent i _ s (λ e. cc) c

deliver-IsConsistent :
    (state : TxState) (is : List ℕ) (s : State) → IsConsistent s → IsConsistent (deliver state is s)
unfolding deliver
deliver-IsConsistent state [] s c = c
deliver-IsConsistent state (i ∷ is) s c =
    deliver-IsConsistent state is (callback state i s) (callback-IsConsistent state i s c)

pub ensure_stream-watchers :
    (s : State)
    → ((ensure_stream s).watchers ≡ s.watchers)
      × (((ensure_stream s).tx_of ≡ s.tx_of)
          × (((ensure_stream s).outcome ≡ s.outcome) × ((ensure_stream s).calls ≡ s.calls)))
unfolding ensure_stream
ensure_stream-watchers s = elim (Bool-cases (is_live s.es s.ready)) [
  | inl live ↦ rw (ensure_stream, live) (refl, (refl, (refl, refl)))
  | inr dead ↦ rw (ensure_stream, dead) (refl, (refl, (refl, refl)))
]

ensure_stream-IsConsistent : (s : State) → IsConsistent s → IsConsistent (ensure_stream s)
unfolding ensure_stream
ensure_stream-IsConsistent s c = elim (Bool-cases (is_live s.es s.ready)) [
  | inl live ↦ rw (ensure_stream, live) c
  | inr dead ↦ rw (ensure_stream, dead) (record { unique = c.unique; complete = c.complete })
]

watch_tx-IsConsistent : (tx : Text) (s : State) → IsConsistent s → IsConsistent (watch_tx tx s)
unfolding watch_tx
watch_tx-IsConsistent tx s c =
    let s' = ensure_stream s in
    let c' = ensure_stream-IsConsistent s c in
    let complete' = c'.complete in
    record {
      unique = set-HasUniqueKeys tx (ids_of tx s' ++ s'.calls ∷ []) s'.watchers c'.unique;
      complete = λ i low waits. elim (Bool-cases (i == s'.calls)) [
        | inl new ↦ ground (
          arith,
          get-set tx tx (ids_of tx s' ++ s'.calls ∷ []) s'.watchers,
          text_eq_refl tx,
          mem-append i s'.calls (ids_of tx s'),
        )
        | inr old ↦ ground (
          arith,
          get-set tx (s'.tx_of i) (ids_of tx s' ++ s'.calls ∷ []) s'.watchers,
          text_eq_iff tx (s'.tx_of i),
          mem-append i s'.calls (ids_of tx s'),
          complete' i,
        )
      ];
    }

on_error-IsConsistent : (source : ℕ) (s : State) → IsConsistent s → IsConsistent (on_error source s)
unfolding on_error
on_error-IsConsistent source s c = elim (Bool-cases (is_closed (s.ready source))) [
  | inl over ↦ rw (on_error, over) (record { unique = c.unique; complete = c.complete })
  | inr up ↦ rw (on_error, up) c
]

Step-IsConsistent : {s s' : State} → Step s s' → IsConsistent s → IsConsistent s'
unfolding tx_updated tx_dropped timed_out
Step-IsConsistent (Step.watching tx s) c = watch_tx-IsConsistent tx s c
Step-IsConsistent (Step.updating tx state s) c = deliver-IsConsistent state (ids_of tx s) s c
Step-IsConsistent (Step.dropping tx s) c = deliver-IsConsistent (conflicted []) (ids_of tx s) s c
Step-IsConsistent (Step.timing_out i s _) c = settle-IsConsistent i _ s (λ e. cc) c
Step-IsConsistent (Step.changing source r s) c = record { unique = c.unique; complete = c.complete }
Step-IsConsistent (Step.failing source s) c = on_error-IsConsistent source s c

-- In every state that can be reached, each promise that waits is in the set of its transaction.
pub reachable-IsConsistent : {s : State} → IsReachable s → IsConsistent s
unfolding initial
reachable-IsConsistent IsReachable.start = record {
  unique = tt;
  complete = λ i low waits. absurd (omega arith);
}
reachable-IsConsistent (IsReachable.next r step) = Step-IsConsistent step (reachable-IsConsistent r)
