-- ===== src/Auth/RateLimit/Lockout.antt =====
-- The counters over a whole window of calls by many clients.
use web_gui.Base.{
  ℕ, ◌+◌, ◌≤◌, ◌<◌, ◌≡◌, refl, true, none, some, List, [], ◌∷◌, arith, ltb, if◌then◌else◌, All, ◌∙◌,
  ap,
}
use web_gui.Text.{Text, text_eq, text_eq_iff, text_eq_refl}
use web_gui.JsMap.{get, HasUniqueKeys}
use web_gui.Auth.RateLimit.{
  Attempts, allows, bumped, rpc_answer, check_login_rate_limit, record_login_failure,
  record_bootstrap_attempt, check_rpc_rate_limit, login_window_ms, rpc_window_ms,
}
use web_gui.Auth.RateLimit.Window.{
  live_entry, record_in, record_in-HasUniqueKeys, get-record_in, record_login_failure_lem,
  record_bootstrap_attempt_lem, check_rpc_rate_limit_state, check_login_rate_limit_lem,
  check_rpc_rate_limit_lem, AllLive, record_in-AllLive,
}

-- A call by a client at a time.
abbrev pub Call : Type 0
Call = Text × ℕ

-- How many of the calls are the client's.
abbrev pub calls_by : Text → List Call → ℕ
calls_by ip [] = 0
calls_by ip ((j, t) ∷ cs) = (if text_eq j ip then 1 else 0) + calls_by ip cs

pub run_in : ℕ → List Call → Attempts → Attempts
run_in window [] m = m
run_in window ((j, t) ∷ cs) m = run_in window cs (record_in window j t m)

abbrev pub AllBefore : ℕ → List Call → Type 0
AllBefore limit cs = All (λ c. c.1 < limit) cs

run_in-HasUniqueKeys :
    (window : ℕ) (cs : List Call) (m : Attempts)
    → HasUniqueKeys m
    → HasUniqueKeys (run_in window cs m)
unfolding run_in
run_in-HasUniqueKeys window [] m u = u
run_in-HasUniqueKeys window ((j, t) ∷ cs) m u =
    run_in-HasUniqueKeys window cs (record_in window j t m) (record_in-HasUniqueKeys window j t m u)

-- While its entry lives, a client's count grows by its own calls alone.
get-record_in_live :
    (window : ℕ) (ip j : Text) (t n limit : ℕ) (m : Attempts)
    → HasUniqueKeys m
    → t < limit
    → get ip m ≡ some (record { count = n; reset_at = limit })
    → get ip (record_in window j t m)
      ≡ some (record { count = n + (if text_eq j ip then 1 else 0); reset_at = limit })
unfolding bumped
get-record_in_live window ip j t n limit m u h e =
    ground (arith, get-record_in window j t m u ip, text_eq_iff j ip)

get-run_in :
    (window : ℕ) (ip : Text) (cs : List Call) (n limit : ℕ) (m : Attempts)
    → HasUniqueKeys m
    → AllBefore limit cs
    → get ip m ≡ some (record { count = n; reset_at = limit })
    → get ip (run_in window cs m) ≡ some (record { count = n + calls_by ip cs; reset_at = limit })
unfolding run_in
get-run_in window ip [] n limit m u h e = ground arith
get-run_in window ip ((j, t) ∷ cs) n limit m u (h, hs) e =
    get-run_in window ip cs (n + (if text_eq j ip then 1 else 0)) limit (record_in window j t m)
      (record_in-HasUniqueKeys window j t m u) hs (get-record_in_live window ip j t n limit m u h e)
    ∙ ground arith

-- A client with no live entry starts a window with its first call.
get-record_in_first :
    (window : ℕ) (ip : Text) (t : ℕ) (m : Attempts)
    → HasUniqueKeys m
    → live_entry ip t m ≡ none
    → get ip (record_in window ip t m) ≡ some (record { count = 1; reset_at = t + window })
unfolding bumped
get-record_in_first window ip t m u idle =
    ground (arith, get-record_in window ip t m u ip, text_eq_refl ip)

-- The client's entry after a window of calls that it opened at time `t`.
get-run_in_first :
    (window : ℕ) (ip : Text) (t : ℕ) (cs : List Call) (m : Attempts)
    → HasUniqueKeys m
    → live_entry ip t m ≡ none
    → AllBefore (t + window) cs
    → get ip (run_in window ((ip, t) ∷ cs) m)
      ≡ some (record { count = 1 + calls_by ip cs; reset_at = t + window })
unfolding run_in
get-run_in_first window ip t cs m u idle before =
    get-run_in window ip cs 1 (t + window) (record_in window ip t m)
      (record_in-HasUniqueKeys window ip t m u) before (get-record_in_first window ip t m u idle)

-- The calls of recordLoginFailure, one after the other.
pub record_login_failures : List Call → Attempts → Attempts
record_login_failures [] m = m
record_login_failures ((ip, now) ∷ cs) m = record_login_failures cs (record_login_failure ip now m)

record_login_failures_lem :
    (cs : List Call) (m : Attempts) → record_login_failures cs m ≡ run_in login_window_ms cs m
unfolding record_login_failures run_in
record_login_failures_lem [] m = refl
record_login_failures_lem ((ip, now) ∷ cs) m =
    rw (record_login_failure_lem ip now m)
      (record_login_failures_lem cs (record_in login_window_ms ip now m))

-- The calls of checkRpcRateLimit, one after the other, with their answers dropped.
pub check_rpc_rate_limits : List Call → Attempts → Attempts
check_rpc_rate_limits [] m = m
check_rpc_rate_limits ((ip, now) ∷ cs) m =
    check_rpc_rate_limits cs (check_rpc_rate_limit ip now m).1

check_rpc_rate_limits_lem :
    (cs : List Call) (m : Attempts) → check_rpc_rate_limits cs m ≡ run_in rpc_window_ms cs m
unfolding check_rpc_rate_limits run_in
check_rpc_rate_limits_lem [] m = refl
check_rpc_rate_limits_lem ((ip, now) ∷ cs) m =
    rw (check_rpc_rate_limit_state ip now m)
      (check_rpc_rate_limits_lem cs (record_in rpc_window_ms ip now m))

pub record_login_failures-HasUniqueKeys :
    (cs : List Call) (m : Attempts) → HasUniqueKeys m → HasUniqueKeys (record_login_failures cs m)
record_login_failures-HasUniqueKeys cs m u =
    rw (record_login_failures_lem cs m) (run_in-HasUniqueKeys login_window_ms cs m u)

pub check_rpc_rate_limits-HasUniqueKeys :
    (cs : List Call) (m : Attempts) → HasUniqueKeys m → HasUniqueKeys (check_rpc_rate_limits cs m)
check_rpc_rate_limits-HasUniqueKeys cs m u =
    rw (check_rpc_rate_limits_lem cs m) (run_in-HasUniqueKeys rpc_window_ms cs m u)

-- A client with no live entry fails a login at time `t`, and failures of any clients follow at
-- times before the end of the 15 minute window that this opens. A check at a time before that end
-- lets the client through exactly if fewer than 5 of all these failures are its own.
pub check-record_login_failures :
    (ip : Text) (t now : ℕ) (cs : List Call) (m : Attempts)
    → HasUniqueKeys m
    → live_entry ip t m ≡ none
    → AllBefore (t + login_window_ms) cs
    → now < t + login_window_ms
    → (check_login_rate_limit ip now (record_login_failures ((ip, t) ∷ cs) m)).0
      ≡ ltb (1 + calls_by ip cs) 5
unfolding allows
check-record_login_failures ip t now cs m u idle before h =
    let failed = record_login_failures ((ip, t) ∷ cs) m in
    ground (
      arith,
      check_login_rate_limit_lem ip now failed
          (record_login_failures-HasUniqueKeys ((ip, t) ∷ cs) m u),
      ap (get ip) (record_login_failures_lem ((ip, t) ∷ cs) m),
      get-run_in_first login_window_ms ip t cs m u idle before,
    )

-- Once the window is over the client is let through again, whatever was recorded in it.
pub check-record_login_failures_later :
    (ip : Text) (t now : ℕ) (cs : List Call) (m : Attempts)
    → HasUniqueKeys m
    → live_entry ip t m ≡ none
    → AllBefore (t + login_window_ms) cs
    → t + login_window_ms ≤ now
    → (check_login_rate_limit ip now (record_login_failures ((ip, t) ∷ cs) m)).0 ≡ true
unfolding allows
check-record_login_failures_later ip t now cs m u idle before h =
    let failed = record_login_failures ((ip, t) ∷ cs) m in
    ground (
      arith,
      check_login_rate_limit_lem ip now failed
          (record_login_failures-HasUniqueKeys ((ip, t) ∷ cs) m u),
      ap (get ip) (record_login_failures_lem ((ip, t) ∷ cs) m),
      get-run_in_first login_window_ms ip t cs m u idle before,
    )

-- A client with no live entry makes an RPC request at time `t`, and requests of any clients follow
-- at times before the end of the minute that this opens. A further request of the client before
-- that end is answered exactly if at most 119 of all these requests are its own.
pub check-check_rpc_rate_limits :
    (ip : Text) (t now : ℕ) (cs : List Call) (m : Attempts)
    → HasUniqueKeys m
    → live_entry ip t m ≡ none
    → AllBefore (t + rpc_window_ms) cs
    → now < t + rpc_window_ms
    → (check_rpc_rate_limit ip now (check_rpc_rate_limits ((ip, t) ∷ cs) m)).0
      ≡ ltb (1 + calls_by ip cs) 120
unfolding rpc_answer
check-check_rpc_rate_limits ip t now cs m u idle before h =
    let asked = check_rpc_rate_limits ((ip, t) ∷ cs) m in
    ground (
      arith,
      check_rpc_rate_limit_lem ip now asked
          (check_rpc_rate_limits-HasUniqueKeys ((ip, t) ∷ cs) m u),
      ap (get ip) (check_rpc_rate_limits_lem ((ip, t) ∷ cs) m),
      get-run_in_first rpc_window_ms ip t cs m u idle before,
    )

-- Every recording call leaves a map with no key twice and no entry that is expired at its time.
pub recording-AllLive :
    (ip : Text) (now : ℕ) (m : Attempts)
    → HasUniqueKeys m
    → (HasUniqueKeys (record_login_failure ip now m) × AllLive now (record_login_failure ip now m))
      × (HasUniqueKeys (record_bootstrap_attempt ip now m)
          × AllLive now (record_bootstrap_attempt ip now m))
      × (HasUniqueKeys (check_rpc_rate_limit ip now m).1
          × AllLive now (check_rpc_rate_limit ip now m).1)
recording-AllLive ip now m u =
    rw
      (
        record_login_failure_lem ip now m,
        record_bootstrap_attempt_lem ip now m,
        check_rpc_rate_limit_state ip now m,
      )
      (
        (record_in-HasUniqueKeys _ ip now m u, record_in-AllLive _ ip now m (omega arith) u),
        (record_in-HasUniqueKeys _ ip now m u, record_in-AllLive _ ip now m (omega arith) u),
        (record_in-HasUniqueKeys _ ip now m u, record_in-AllLive _ ip now m (omega arith) u),
      )
