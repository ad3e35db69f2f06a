-- ===== src/StepUp/Throttle.antt =====
-- How many wrong codes a throttle key gets.
use web_gui.Base.{
  ℕ, ◌+◌, ◌≤◌, ◌<◌, ◌≡◌, refl, Bool, true, false, List, [], ◌∷◌, Option, none, some, arith, leb,
  if◌then◌else◌, All, ◌&&◌, Option-cases, inl, inr,
}
use web_gui.Text.{Text, text_eq, text_eq_iff, truthy}
use web_gui.JsMap.{
  Map, get, prune, HasUniqueKeys, get-set, get-prune, get-delete, prune-HasUniqueKeys,
}
use web_gui.Auth.Totp.{Bytes}
use web_gui.StepUp.{
  Failures, StepUpState, TotpCheck, ok, failed, invalid, locked, failures_are_over,
  totp_failure_window_ms, next_failures, throttled_by, is_totp_throttled, is_throttling,
  record_failure, forget_failures, verify_and_burn_totp_code,
}
use web_gui.StepUp.Entries.{IsWellFormed, verify_and_burn-IsWellFormed}
use web_gui.StepUp.SingleUse.{Attempt, attempt, run_attempts}

abbrev is_key : Text → Option Text → Bool
is_key k none = false
is_key k (some j) = text_eq j k

-- The call is throttled by the key.
abbrev pub by_key : Text → Attempt → Bool
by_key k a = is_key k (truthy a.throttle_key)

abbrev pub is_invalid : TotpCheck → Bool
is_invalid (failed invalid) = true
is_invalid _ = false

abbrev pub is_ok : TotpCheck → Bool
is_ok ok = true
is_ok _ = false

-- The failures that an entry counts.
abbrev count_of : Option Failures → ℕ
count_of none = 0
count_of (some entry) = entry.count

abbrev StartsFrom : ℕ → Option Failures → Type 0
StartsFrom t none = Unit
StartsFrom t (some entry) = t ≤ entry.first_at

-- The calls are at times in the window that starts at `t`.
abbrev pub AllInWindow : ℕ → List Attempt → Type 0
AllInWindow t calls = All (λ a. (t ≤ a.now) × (a.now < t + totp_failure_window_ms)) calls

-- An entry of the window is not pruned within it.
get-prune_in_window :
    (t now : ℕ) (k : Text) (m : Map Failures)
    → HasUniqueKeys m
    → now < t + totp_failure_window_ms
    → StartsFrom t (get k m)
    → get k (prune (failures_are_over now) m) ≡ get k m
get-prune_in_window t now k m u h from = elim (Option-cases (get k m)) [
  | inl e ↦ ground (arith, get-prune (failures_are_over now) k m u)
  | inr (entry, e) ↦ ground (arith, get-prune (failures_are_over now) k m u)
]

module _ (hmac_sha1 : Bytes → Bytes → Bytes) (k : Text) where
  -- How many of the calls by the key are answered "invalid", and how many are accepted.
  unfoldable pub invalids : List Attempt → StepUpState → ℕ
  invalids [] s = 0
  invalids (a ∷ rest) s =
      (if by_key k a && is_invalid (attempt hmac_sha1 a s).0 then 1 else 0)
      + invalids rest (attempt hmac_sha1 a s).1

  unfoldable pub accepts : List Attempt → StepUpState → ℕ
  accepts [] s = 0
  accepts (a ∷ rest) s =
      (if by_key k a && is_ok (attempt hmac_sha1 a s).0 then 1 else 0)
      + accepts rest (attempt hmac_sha1 a s).1

get-record_failure :
    (key : Option Text) (k : Text) (now : ℕ) (m : Map Failures)
    → get k (record_failure key now m)
      ≡ (if is_key k key then some (next_failures now (get k m)) else get k m)
unfolding record_failure
get-record_failure none k now m = refl
get-record_failure (some j) k now m =
    ground (arith, get-set j k (next_failures now (get j m)) m, text_eq_iff j k)

get-forget_failures :
    (key : Option Text) (k : Text) (m : Map Failures)
    → HasUniqueKeys m
    → get k (forget_failures key m) ≡ (if is_key k key then none else get k m)
unfolding forget_failures
get-forget_failures none k m u = refl
get-forget_failures (some j) k m u = get-delete j k m u

-- In the window, the key is throttled exactly if its entry counts five failures.
throttled_by_lem :
    (t now : ℕ) (key : Option Text) (k : Text) (m : Map Failures)
    → now < t + totp_failure_window_ms
    → StartsFrom t (get k m)
    → is_key k key ≡ true
    → throttled_by key now m ≡ leb 5 (count_of (get k m))
unfolding throttled_by is_totp_throttled is_throttling
throttled_by_lem t now none k m h from same = cc
throttled_by_lem t now (some j) k m h from same = elim (Option-cases (get k m)) [
  | inl e ↦ ground (arith, text_eq_iff j k)
  | inr (entry, e) ↦ ground (arith, text_eq_iff j k)
]

module _ (hmac_sha1 : Bytes → Bytes → Bytes) (k : Text) (t : ℕ) (a : Attempt) (s : StepUpState)
    (w : IsWellFormed s) (late : t ≤ a.now) (early : a.now < t + totp_failure_window_ms)
    (from : StartsFrom t (get k s.totp_failures)) where
  -- What a call in the window that the key does not have accepted does to its entry.
  attempt-counts :
      (by_key k a && is_ok (attempt hmac_sha1 a s).0) ≡ false
      → StartsFrom t (get k ((attempt hmac_sha1 a s).1).totp_failures)
        × (count_of (get k ((attempt hmac_sha1 a s).1).totp_failures)
            ≡ count_of (get k s.totp_failures)
              + (if by_key k a && is_invalid (attempt hmac_sha1 a s).0 then 1 else 0))
        × ((by_key k a && is_invalid (attempt hmac_sha1 a s).0) ≡ true
            → count_of (get k s.totp_failures) < 5)
  unfolding verify_and_burn_totp_code next_failures
  attempt-counts refused =
      let left = prune (failures_are_over a.now) s.totp_failures in
      let same = get-prune_in_window t a.now k s.totp_failures w.failures_unique early from in
      ground (
        arith,
        same,
        throttled_by_lem t a.now (truthy a.throttle_key) k left early,
        get-record_failure (truthy a.throttle_key) k a.now left,
        get-forget_failures (truthy a.throttle_key) k left
            (prune-HasUniqueKeys (failures_are_over a.now) s.totp_failures w.failures_unique),
      )

  -- At five counted failures the key's call is answered "locked".
  attempt-locks :
      by_key k a ≡ true
      → 5 ≤ count_of (get k s.totp_failures)
      → (attempt hmac_sha1 a s).0 ≡ failed locked
  unfolding verify_and_burn_totp_code
  attempt-locks by full =
      let left = prune (failures_are_over a.now) s.totp_failures in
      ground (
        arith,
        get-prune_in_window t a.now k s.totp_failures w.failures_unique early from,
        throttled_by_lem t a.now (truthy a.throttle_key) k left early,
      )

module _ (hmac_sha1 : Bytes → Bytes → Bytes) (k : Text) (t : ℕ) where
  -- The entry after a run of calls in the window that accepts none of the key.
  run_attempts-counts :
      (calls : List Attempt) (s : StepUpState)
      → IsWellFormed s
      → AllInWindow t calls
      → StartsFrom t (get k s.totp_failures)
      → accepts hmac_sha1 k calls s ≡ 0
      → count_of (get k s.totp_failures) ≤ 5
      → IsWellFormed (run_attempts hmac_sha1 calls s)
        × StartsFrom t (get k (run_attempts hmac_sha1 calls s).totp_failures)
        × (count_of (get k (run_attempts hmac_sha1 calls s).totp_failures)
            ≡ count_of (get k s.totp_failures) + invalids hmac_sha1 k calls s)
        × (count_of (get k (run_attempts hmac_sha1 calls s).totp_failures) ≤ 5)
  unfolding run_attempts invalids accepts
  run_attempts-counts [] s w h from none_ok few = (w, from, omega arith, few)
  run_attempts-counts (a ∷ rest) s w ((late, early), hs) from none_ok few =
      let refused : (by_key k a && is_ok (attempt hmac_sha1 a s).0) ≡ false = ground arith in
      let (from', count, fits) = attempt-counts hmac_sha1 k t a s w late early from refused in
      let w' =
        verify_and_burn-IsWellFormed hmac_sha1 a.raw_code a.secret a.throttle_key a.now s w in
      let few' : count_of (get k ((attempt hmac_sha1 a s).1).totp_failures) ≤ 5 = ground arith in
      let (w'', from'', count', few'') =
        run_attempts-counts rest (attempt hmac_sha1 a s).1 w' hs from' (ground arith) few' in
      (w'', from'', omega arith, few'')

  -- In a window of 15 minutes that a key enters with no failure recorded, the calls by the key get
  -- at most five "invalid" answers as long as none of them is accepted, whatever calls by other keys
  -- come in between; and once it has had five, every further call by the key in the window is
  -- answered "locked", also one with the right code.
  pub invalids-le :
      (calls : List Attempt) (s : StepUpState)
      → IsWellFormed s
      → AllInWindow t calls
      → get k s.totp_failures ≡ none
      → accepts hmac_sha1 k calls s ≡ 0
      → (invalids hmac_sha1 k calls s ≤ 5)
        × ((a : Attempt)
            → t ≤ a.now
            → a.now < t + totp_failure_window_ms
            → by_key k a ≡ true
            → invalids hmac_sha1 k calls s ≡ 5
            → (attempt hmac_sha1 a (run_attempts hmac_sha1 calls s)).0 ≡ failed locked)
  invalids-le calls s w h fresh none_ok =
      let (w', from, count, few) =
        run_attempts-counts calls s w h (rw fresh tt) none_ok (rw fresh (omega arith)) in
      let start : count_of (get k s.totp_failures) ≡ 0 = rw fresh in
      (
        omega arith,
        λ a late early by five.
            attempt-locks hmac_sha1 k t a (run_attempts hmac_sha1 calls s) w' late early from by
              (omega arith),
      )
