-- ===== src/ToastStore.antt =====
-- app/src/lib/toastStore.ts: the store of transaction toasts, and what submitWithToast does for one
-- transaction after it was broadcast. Its callbacks, timers and answers come as events in any order;
-- one that cannot happen in a state leaves it. Listeners and the explorer link are left out.
pub mod Explained
pub mod Watcher
pub mod Asks
pub mod Events
mod Tests
use web_gui.Base.{
  ℕ, ◌+◌, ◌-◌, Bool, true, false, not, ◌&&◌, List, [], ◌∷◌, Option, none, some, ◌==◌, ltb,
  if◌then◌else◌,
}
use web_gui.Text.{Text, codes, text_eq}

pub data ToastStatus : Type 0 where
  pending : ToastStatus
  confirmed : ToastStatus
  failed : ToastStatus
  untracked : ToastStatus

pub record TxToast : Type 0 where
  pub id : Text
  pub status : ToastStatus
  pub block_height : Option ℕ
  pub error_message : Option Text
  pub pending_since : ℕ
  pub stale : Bool

-- toastStore.add, update and dismiss; a patch is given as a function.
abbrev pub add : TxToast → List TxToast → List TxToast
add toast toasts = toast ∷ toasts

unfoldable pub update : Text → (TxToast → TxToast) → List TxToast → List TxToast
update tx patch [] = []
update tx patch (t ∷ ts) = (if text_eq t.id tx then patch t else t) ∷ update tx patch ts

unfoldable pub dismiss : Text → List TxToast → List TxToast
dismiss tx [] = []
dismiss tx (t ∷ ts) = let rest = dismiss tx ts in if text_eq t.id tx then rest else t ∷ rest

-- `getSnapshot().find(...)`
unfoldable pub find : Text → List TxToast → Option TxToast
find tx [] = none
find tx (t ∷ ts) = if text_eq t.id tx then some t else find tx ts

-- The answer of checkTxStatus.
pub data TxStatus : Type 0 where
  still_pending : TxStatus
  on_chain : TxStatus
  unknown : TxStatus

pub data Watch : Type 0 where
  watching : Watch
  -- the watcher gave up, and the last check is under way
  asking : Watch
  over : Watch

pub record Session : Type 0 where
  pub toasts : List TxToast
  pub status_checks : ℕ
  pub escalate : Bool
  -- checks under way
  pub checking : ℕ
  pub watch : Watch

pub data Event : Type 0 where
  timer : Event
  check_answered : (st : TxStatus) → Event
  watch_resolved : (block_height : Option ℕ) → Event
  watch_rejected : (message : Text) → Event
  last_check_answered : (st : TxStatus) → Event
  -- the user, or the timer of a confirmed toast
  dismissed : Event
  -- another transaction is submitted, or its toast changes
  submitted : (other : TxToast) → Event
  changed : (other : Text) → (patch : TxToast → TxToast) → Event

abbrev pub timed_out : Text
timed_out = codes "Transaction confirmation timed out"

abbrev pub not_tracked : Text
not_tracked = codes "Confirmation not tracked - check the explorer for the latest state."

abbrev pub mark_confirmed : TxToast → TxToast
mark_confirmed t = record t { status = confirmed; stale = false }

abbrev pub mark_stale : TxToast → TxToast
mark_stale t = record t { stale = true }

abbrev pub is_pending : Option TxToast → Bool
is_pending none = false
is_pending (some t) = elim t.status [
  | pending ↦ true
  | confirmed ↦ false
  | failed ↦ false
  | untracked ↦ false
]

abbrev pub is_watching : Watch → Bool
is_watching watching = true
is_watching _ = false

abbrev pub is_asking : Watch → Bool
is_asking asking = true
is_asking _ = false

module _ (tx : Text) where
  abbrev pub patched : (TxToast → TxToast) → Session → Session
  patched patch s = record s { toasts = update tx patch s.toasts }

  -- runStatusCheck
  unfoldable pub run_status_check : Session → Session
  run_status_check s =
      if s.escalate
      then record s {
        status_checks = s.status_checks + 1;
        escalate = false;
        checking = s.checking + 1;
      }
      else s

  -- What follows on its answer.
  unfoldable pub answer_check : TxStatus → Session → Session
  answer_check on_chain s = patched mark_confirmed s
  answer_check still_pending s =
      let stale = patched mark_stale s in
      if ltb s.status_checks 3 then record stale { escalate = true } else stale
  answer_check unknown s = patched mark_stale s

  unfoldable pub on_check : TxStatus → Session → Session
  on_check st s =
      let s' = record s { checking = s.checking - 1 } in
      if s.checking == 0
      then s
      else if is_pending (find tx s.toasts)
      then answer_check st s'
      else s'

  unfoldable pub on_resolved : Option ℕ → Session → Session
  on_resolved height s =
      if is_watching s.watch
      then record (patched
          (λ t. record t { status = confirmed; block_height = height; stale = false }) s) {
            escalate = false;
            watch = over;
          }
      else s

  unfoldable pub on_rejected : Text → Session → Session
  on_rejected message s =
      if is_watching s.watch
      then if text_eq message timed_out
        then record s { escalate = false; watch = asking }
        else record (patched (λ t. record t { status = failed; error_message = some message }) s) {
          escalate = false;
          watch = over;
        }
      else s

  unfoldable pub answer_last : TxStatus → Session → Session
  answer_last on_chain s = patched mark_confirmed s
  answer_last still_pending s = patched mark_stale s
  answer_last unknown s =
      patched (λ t. record t { status = untracked; error_message = some not_tracked }) s

  unfoldable pub on_last_check : TxStatus → Session → Session
  on_last_check st s =
      let s' = record s { watch = over } in
      if is_asking s.watch
      then if is_pending (find tx s.toasts) then answer_last st s' else s'
      else s

  unfoldable pub on_event : Event → Session → Session
  on_event timer s = run_status_check s
  on_event (check_answered st) s = on_check st s
  on_event (watch_resolved height) s = on_resolved height s
  on_event (watch_rejected message) s = on_rejected message s
  on_event (last_check_answered st) s = on_last_check st s
  on_event dismissed s = record s { toasts = dismiss tx s.toasts }
  on_event (submitted other) s =
      if text_eq other.id tx then s else record s { toasts = add other s.toasts }
  on_event (changed other patch) s =
      if text_eq other tx
      then s
      else record s { toasts = update other (λ t. record (patch t) { id = t.id }) s.toasts }

  abbrev pub new_toast : (now : ℕ) → TxToast
  new_toast now = record {
    id = tx;
    status = pending;
    block_height = none;
    error_message = none;
    pending_since = now;
    stale = false;
  }

  unfoldable pub submitted_at : (now : ℕ) → List TxToast → Session
  submitted_at now toasts = record {
    toasts = add (new_toast now) toasts;
    status_checks = 0;
    escalate = true;
    checking = 0;
    watch = watching;
  }

  -- The events, the latest first.
  unfoldable pub run_events : List Event → Session → Session
  run_events [] s = s
  run_events (e ∷ es) s = on_event e (run_events es s)
