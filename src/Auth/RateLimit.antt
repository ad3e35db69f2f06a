-- ===== src/Auth/RateLimit.antt =====
-- The in-memory attempt counters of app/src/lib/auth.ts: login failures, bootstrap attempts and
-- RPC requests, one map from client address to entry each. `now` is the value of Date.now() that
-- a call reads; a call returns its result and the new map.
pub mod Window
pub mod Lockout
use web_gui.Base.{ℕ, ◌+◌, ◌*◌, Bool, true, false, ◌||◌, Option, none, some, leb, ltb, if◌then◌else◌}
use web_gui.Text.{Text}
use web_gui.JsMap.{Map, get, set, prune}

pub record RateEntry : Type 0 where
  pub count : ℕ
  pub reset_at : ℕ

abbrev pub Attempts : Type 0
Attempts = Map RateEntry

abbrev pub login_max_attempts : ℕ
login_max_attempts = 5

abbrev pub login_window_ms : ℕ
login_window_ms = 15 * 60 * 1000

abbrev pub bootstrap_max_attempts : ℕ
bootstrap_max_attempts = 10

abbrev pub bootstrap_window_ms : ℕ
bootstrap_window_ms = 10 * 60 * 1000

abbrev pub rpc_max_requests : ℕ
rpc_max_requests = 120

abbrev pub rpc_window_ms : ℕ
rpc_window_ms = 60 * 1000

-- `now >= entry.resetAt`
abbrev pub is_over : ℕ → RateEntry → Bool
is_over now entry = leb entry.reset_at now

unfoldable pub prune_expired : Attempts → ℕ → Attempts
prune_expired m now = prune (is_over now) m

-- `!entry || now >= entry.resetAt ? true : entry.count < max`
pub allows : ℕ → ℕ → Option RateEntry → Bool
allows limit now none = true
allows limit now (some entry) = if is_over now entry then true else ltb entry.count limit

-- `!entry || now >= entry.resetAt ? { count: 1, resetAt: now + window } : count += 1`
pub bumped : ℕ → ℕ → Option RateEntry → RateEntry
bumped window now none = record { count = 1; reset_at = now + window }
bumped window now (some entry) =
    if is_over now entry
    then record { count = 1; reset_at = now + window }
    else record entry { count = entry.count + 1 }

unfoldable pub check_login_rate_limit : Text → ℕ → Attempts → Bool × Attempts
unfolding prune_expired allows
check_login_rate_limit ip now m =
    let live = prune_expired m now in (allows login_max_attempts now (get ip live), live)

unfoldable pub record_login_failure : Text → ℕ → Attempts → Attempts
unfolding prune_expired bumped
record_login_failure ip now m =
    let live = prune_expired m now in set ip (bumped login_window_ms now (get ip live)) live

unfoldable pub check_bootstrap_rate_limit : Text → ℕ → Attempts → Bool × Attempts
unfolding prune_expired allows
check_bootstrap_rate_limit ip now m =
    let live = prune_expired m now in (allows bootstrap_max_attempts now (get ip live), live)

unfoldable pub record_bootstrap_attempt : Text → ℕ → Attempts → Attempts
unfolding prune_expired bumped
record_bootstrap_attempt ip now m =
    let live = prune_expired m now in set ip (bumped bootstrap_window_ms now (get ip live)) live

-- One call counts the request and answers.
pub rpc_answer : ℕ → Option RateEntry → Bool
rpc_answer now none = true
rpc_answer now (some entry) =
    if is_over now entry then true else leb (entry.count + 1) rpc_max_requests

unfoldable pub check_rpc_rate_limit : Text → ℕ → Attempts → Bool × Attempts
unfolding prune_expired bumped rpc_answer
check_rpc_rate_limit ip now m =
    let live = prune_expired m now in
    let entry = get ip live in (rpc_answer now entry, set ip (bumped rpc_window_ms now entry) live)
