-- ===== src/TxWatcher.antt =====
-- app/src/lib/txWatcher.ts: the watchers of transactions that share one event stream. A callback, its
-- promise and its timer have the number of the watchTx call that made them; an EventSource has the
-- number of its opening.
pub mod Laws
pub mod Delivery
mod Tests
use web_gui.Base.{
  ℕ, zero, suc, ◌≡◌, Bool, true, false, not, ◌&&◌, List, [], ◌∷◌, ◌++◌, Option, none, some, ◌==◌,
  if◌then◌else◌,
}
use web_gui.Text.{Text, codes}
use web_gui.JsMap.{Map, get, set, delete}

pub data TxState : Type 0 where
  confirmed : (block_height : ℕ) → TxState
  in_mempool : TxState
  conflicted : (with_block : Text) → TxState
  inactive : TxState
  abandoned : TxState

-- What became of the promise of a watchTx call.
pub data Outcome : Type 0 where
  waiting : Outcome
  resolved : (block_height : ℕ) → Outcome
  rejected : (message : Text) → Outcome

pub data ReadyState : Type 0 where
  connecting : ReadyState
  opened : ReadyState
  closed : ReadyState

pub record State : Type 0 where
  pub watchers : Map (List ℕ)
  pub tx_of : ℕ → Text
  pub outcome : ℕ → Outcome
  pub armed : ℕ → Bool
  -- how many watchTx calls were made
  pub calls : ℕ
  pub es : Option ℕ
  pub ready : ℕ → ReadyState
  pub sources : ℕ

abbrev pub put {ℓ} : {A : Type ℓ} → ℕ → A → (ℕ → A) → ℕ → A
put i v f j = if j == i then v else f j

-- Set.delete, has, add
unfoldable pub remove : ℕ → List ℕ → List ℕ
remove i [] = []
remove i (j ∷ js) = let rest = remove i js in if j == i then rest else j ∷ rest

unfoldable pub mem : ℕ → List ℕ → Bool
mem i [] = false
mem i (j ∷ js) = if i == j then true else mem i js

abbrev pub is_closed : ReadyState → Bool
is_closed closed = true
is_closed _ = false

abbrev pub is_live : Option ℕ → (ℕ → ReadyState) → Bool
is_live none ready = false
is_live (some source) ready = not (is_closed (ready source))

unfoldable pub ensure_stream : State → State
ensure_stream s = if is_live s.es s.ready then s else record s {
  es = some s.sources;
  ready = put s.sources connecting s.ready;
  sources = suc s.sources;
}

-- onerror of a source
unfoldable pub on_error : ℕ → State → State
on_error source s = if is_closed (s.ready source) then record s { es = none } else s

abbrev pub kept_set : Text → List ℕ → Map (List ℕ) → Map (List ℕ)
kept_set tx [] m = delete tx m
kept_set tx (i ∷ is) m = set tx (i ∷ is) m

unfoldable pub drop_callback : Text → ℕ → Map (List ℕ) → Map (List ℕ)
drop_callback tx i m = elim (get tx m) [ none ↦ m | some ids ↦ kept_set tx (remove i ids) m ]

-- A promise settles once.
abbrev pub settled_as : Outcome → Outcome → Outcome
settled_as waiting result = result
settled_as outcome result = outcome

unfoldable pub settle : ℕ → Outcome → State → State
settle i result s = record s {
  armed = put i false s.armed;
  watchers = drop_callback (s.tx_of i) i s.watchers;
  outcome = put i (settled_as (s.outcome i) result) s.outcome;
}

unfoldable pub callback : TxState → ℕ → State → State
callback (confirmed h) i s = settle i (resolved h) s
callback (conflicted b) i s = settle i (rejected (codes "Transaction conflicted")) s
callback abandoned i s = settle i (rejected (codes "Transaction abandoned")) s
callback _ i s = s

abbrev pub or_nil : Option (List ℕ) → List ℕ
or_nil none = []
or_nil (some ids) = ids

abbrev pub ids_of : Text → State → List ℕ
ids_of tx s = or_nil (get tx s.watchers)

-- forEach over the callbacks; each of them removes at most itself.
unfoldable pub deliver : TxState → List ℕ → State → State
deliver state [] s = s
deliver state (i ∷ is) s = deliver state is (callback state i s)

unfoldable pub tx_updated : Text → TxState → State → State
tx_updated tx state s = deliver state (ids_of tx s) s

unfoldable pub tx_dropped : Text → State → State
tx_dropped tx s = deliver (conflicted []) (ids_of tx s) s

unfoldable pub timed_out : ℕ → State → State
timed_out i s = settle i (rejected (codes "Transaction confirmation timed out")) s

-- `set.add(callback)`
abbrev pub registered : Text → ℕ → Map (List ℕ) → Map (List ℕ)
registered tx i m = set tx (or_nil (get tx m) ++ i ∷ []) m

unfoldable pub watch_tx : Text → State → State
watch_tx tx s =
    let s' = ensure_stream s in
    record s' {
      watchers = registered tx s'.calls s'.watchers;
      tx_of = put s'.calls tx s'.tx_of;
      outcome = put s'.calls waiting s'.outcome;
      armed = put s'.calls true s'.armed;
      calls = suc s'.calls;
    }

unfoldable pub initial : State
initial = record {
  watchers = [];
  tx_of = λ i. [];
  outcome = λ i. waiting;
  armed = λ i. false;
  calls = 0;
  es = none;
  ready = λ i. closed;
  sources = 0;
}

-- What can happen: a call of watchTx, a message, a timer, a change or an error of a source.
pub data Step : State → State → Type 0 where
  watching : (tx : Text) (s : State) → Step s (watch_tx tx s)
  updating : (tx : Text) (state : TxState) (s : State) → Step s (tx_updated tx state s)
  dropping : (tx : Text) (s : State) → Step s (tx_dropped tx s)
  timing_out : (i : ℕ) (s : State) → s.armed i ≡ true → Step s (timed_out i s)
  changing :
      (source : ℕ) (r : ReadyState) (s : State) → Step s (record s { ready = put source r s.ready })
  failing : (source : ℕ) (s : State) → Step s (on_error source s)

-- The states that the module can reach.
pub data IsReachable : State → Type 0 where
  start : IsReachable initial
  next : {s s' : State} → IsReachable s → Step s s' → IsReachable s'
