-- ===== src/Auth/RateLimit/Window.antt =====
-- What one call does to the entry of a client, seen through `get`.
use web_gui.Base.{
  ℕ, ◌<◌, ◌≡◌, refl, inl, inr, Option, some, [], ◌∷◌, arith, if◌then◌else◌, Bool-cases, All,
}
use web_gui.Text.{Text, text_eq}
use web_gui.JsMap.{
  get, set, prune, unless, HasUniqueKeys, get-set, get-prune, set-HasUniqueKeys,
  prune-HasUniqueKeys,
}
use web_gui.Auth.RateLimit.{
  RateEntry, Attempts, is_over, prune_expired, allows, bumped, rpc_answer, check_login_rate_limit,
  record_login_failure, check_bootstrap_rate_limit, record_bootstrap_attempt, check_rpc_rate_limit,
  login_window_ms, rpc_window_ms, bootstrap_window_ms,
}

-- The entry that a call at time `now` finds once the expired ones are dropped.
abbrev pub live_entry : Text → ℕ → Attempts → Option RateEntry
live_entry ip now m = unless (is_over now) (get ip m)

-- What every recording call does, for its own window.
pub record_in : ℕ → Text → ℕ → Attempts → Attempts
record_in window ip now m =
    let live = prune_expired m now in set ip (bumped window now (get ip live)) live

pub record_login_failure_lem :
    (ip : Text) (now : ℕ) (m : Attempts)
    → record_login_failure ip now m ≡ record_in login_window_ms ip now m
unfolding record_login_failure record_in
record_login_failure_lem ip now m = refl

pub record_bootstrap_attempt_lem :
    (ip : Text) (now : ℕ) (m : Attempts)
    → record_bootstrap_attempt ip now m ≡ record_in bootstrap_window_ms ip now m
unfolding record_bootstrap_attempt record_in
record_bootstrap_attempt_lem ip now m = refl

pub check_rpc_rate_limit_state :
    (ip : Text) (now : ℕ) (m : Attempts)
    → (check_rpc_rate_limit ip now m).1 ≡ record_in rpc_window_ms ip now m
unfolding check_rpc_rate_limit record_in
check_rpc_rate_limit_state ip now m = refl

module _ (window : ℕ) (ip : Text) (now : ℕ) (m : Attempts) (u : HasUniqueKeys m) where
  pub record_in-HasUniqueKeys : HasUniqueKeys (record_in window ip now m)
  unfolding record_in prune_expired
  record_in-HasUniqueKeys = set-HasUniqueKeys ip _ _ (prune-HasUniqueKeys (is_over now) m u)

  -- The entries of all clients after a recording call.
  pub get-record_in :
      (j : Text)
      → get j (record_in window ip now m) ≡ (
          if text_eq ip j
          then some (bumped window now (live_entry ip now m))
          else live_entry j now m)
  unfolding record_in prune_expired
  get-record_in j = ground (
    arith,
    get-set ip j (bumped window now (get ip (prune (is_over now) m))) (prune (is_over now) m),
    get-prune (is_over now) ip m u,
    get-prune (is_over now) j m u,
  )

-- No entry is expired.
abbrev pub AllLive : ℕ → Attempts → Type 0
AllLive now m = All (λ e. now < (e.1).reset_at) m

prune-AllLive : (now : ℕ) (m : Attempts) → AllLive now (prune (is_over now) m)
unfolding prune
prune-AllLive now [] = tt
prune-AllLive now ((j, w) ∷ m) = elim (Bool-cases (is_over now w)) [
  | inl over ↦ rw (over, prune) (prune-AllLive now m)
  | inr live ↦ rw (live, prune) (ground arith, prune-AllLive now m)
]

set-AllLive :
    (now : ℕ) (k : Text) (v : RateEntry) (m : Attempts)
    → now < v.reset_at
    → AllLive now m
    → AllLive now (set k v m)
unfolding set
set-AllLive now k v [] h a = (h, tt)
set-AllLive now k v ((j, w) ∷ m) h a = ground (arith, set-AllLive now k v m)

bumped-live :
    (window now : ℕ) (o : Option RateEntry)
    → 0 < window
    → now < (bumped window now (unless (is_over now) o)).reset_at
unfolding bumped
bumped-live window now o h = ground arith

pub record_in-AllLive :
    (window : ℕ) (ip : Text) (now : ℕ) (m : Attempts)
    → 0 < window
    → HasUniqueKeys m
    → AllLive now (record_in window ip now m)
unfolding record_in prune_expired
record_in-AllLive window ip now m h u =
    set-AllLive now ip _ _
      (rw (get-prune (is_over now) ip m u) (bumped-live window now (get ip m) h))
      (prune-AllLive now m)

-- A login check answers from the client's live entry alone.
pub check_login_rate_limit_lem :
    (ip : Text) (now : ℕ) (m : Attempts)
    → HasUniqueKeys m
    → (check_login_rate_limit ip now m).0 ≡ allows 5 now (live_entry ip now m)
unfolding check_login_rate_limit
check_login_rate_limit_lem ip now m u = rw (get-prune (is_over now) ip m u)

pub check_bootstrap_rate_limit_lem :
    (ip : Text) (now : ℕ) (m : Attempts)
    → HasUniqueKeys m
    → (check_bootstrap_rate_limit ip now m).0 ≡ allows 10 now (live_entry ip now m)
unfolding check_bootstrap_rate_limit
check_bootstrap_rate_limit_lem ip now m u = rw (get-prune (is_over now) ip m u)

pub check_rpc_rate_limit_lem :
    (ip : Text) (now : ℕ) (m : Attempts)
    → HasUniqueKeys m
    → (check_rpc_rate_limit ip now m).0 ≡ rpc_answer now (live_entry ip now m)
unfolding check_rpc_rate_limit
check_rpc_rate_limit_lem ip now m u = rw (get-prune (is_over now) ip m u)
