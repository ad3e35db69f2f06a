-- ===== src/StepUp/Replay.antt =====
-- A one-time code that is accepted a second time.
use web_gui.Base.{
  ℕ, ◌+◌, ◌*◌, ◌/◌, ◌≤◌, ◌≡◌, refl, true, false, List, [], ◌∷◌, Option, none, some, arith, All, inl,
}
use web_gui.Text.{Text, text_eq_refl, trim, truthy}
use web_gui.JsMap.{
  Map, get, set, prune, delete, HasUniqueKeys, get-prune, get-delete, prune-HasUniqueKeys,
  delete-HasUniqueKeys,
}
use web_gui.Auth.Totp.{Bytes, verify_totp, hotp_code, decode_base32}
use web_gui.Auth.Totp.Laws.{verify_totp_iff}
use web_gui.StepUp.{
  Failures, StepUpState, ok, code_is_over, failures_are_over, burn, is_used, burn_keys,
  verify_and_burn_totp_code, throttled_by, is_totp_throttled, is_throttling, forget_failures,
}
use web_gui.StepUp.Entries.{IsWellFormed}
use web_gui.StepUp.SingleUse.{Attempt, attempt, attempt-verifies}

abbrev pub AllUntil : ℕ → Map ℕ → Type 0
AllUntil limit m = All (λ entry. entry.1 ≤ limit) m

prune_all_over : (now : ℕ) (m : Map ℕ) → AllUntil now m → prune (code_is_over now) m ≡ []
unfolding prune
prune_all_over now [] h = refl
prune_all_over now ((k, e) ∷ m) (h, hs) = ground (arith, prune_all_over now m hs)

prune-AllUntil :
    (limit now : ℕ) (m : Map ℕ) → AllUntil limit m → AllUntil limit (prune (code_is_over now) m)
unfolding prune
prune-AllUntil limit now [] h = tt
prune-AllUntil limit now ((k, e) ∷ m) (h, hs) = ground (arith, prune-AllUntil limit now m hs)

set-AllUntil :
    (limit e : ℕ) (k : Text) (m : Map ℕ) → e ≤ limit → AllUntil limit m → AllUntil limit (set k e m)
unfolding set
set-AllUntil limit e k [] le h = (le, tt)
set-AllUntil limit e k ((j, d) ∷ m) le (h, hs) = ground (arith, set-AllUntil limit e k m le hs)

burn-AllUntil :
    (limit e : ℕ) (ks : List Text) (m : Map ℕ)
    → e ≤ limit
    → AllUntil limit m
    → AllUntil limit (burn ks e m)
unfolding burn
burn-AllUntil limit e [] m le h = h
burn-AllUntil limit e (k ∷ ks) m le h =
    burn-AllUntil limit e ks (set k e m) le (set-AllUntil limit e k m le h)

is_used-nil : (ks : List Text) → is_used ks [] ≡ false
unfolding is_used get
is_used-nil [] = refl
is_used-nil (k ∷ ks) = is_used-nil ks

throttled_by-forget_failures :
    (key : Option Text) (now : ℕ) (m : Map Failures)
    → HasUniqueKeys m
    → throttled_by key now (prune (failures_are_over now) (forget_failures key m)) ≡ false
unfolding throttled_by is_totp_throttled is_throttling forget_failures
throttled_by-forget_failures none now m u = refl
throttled_by-forget_failures (some key) now m u = ground (
  arith,
  get-prune (failures_are_over now) key (delete key m) (delete-HasUniqueKeys key m u),
  get-delete key key m u,
  text_eq_refl key,
)

module _ (hmac_sha1 : Bytes → Bytes → Bytes) (a : Attempt) (s : StepUpState) where
  abbrev limit : ℕ
  limit = (a.now / 30000 + 2) * 30 * 1000

  attempt-AllUntil :
      AllUntil limit s.used_codes
      → (attempt hmac_sha1 a s).0 ≡ ok
      → AllUntil limit ((attempt hmac_sha1 a s).1).used_codes
  unfolding verify_and_burn_totp_code
  attempt-AllUntil all h =
      let left = prune (code_is_over a.now) s.used_codes in
      ground (
        arith,
        burn-AllUntil limit limit (burn_keys (trim a.raw_code) (a.now / 30000)) left (omega arith)
            (prune-AllUntil limit a.now s.used_codes all),
      )

  attempt-not_throttled :
      (later : ℕ)
      → IsWellFormed s
      → (attempt hmac_sha1 a s).0 ≡ ok
      → throttled_by
          (truthy a.throttle_key)
          later
          (prune (failures_are_over later) ((attempt hmac_sha1 a s).1).totp_failures)
        ≡ false
  unfolding verify_and_burn_totp_code
  attempt-not_throttled later w h =
      let left = prune (failures_are_over a.now) s.totp_failures in
      ground (
        arith,
        throttled_by-forget_failures (truthy a.throttle_key) later left
            (prune-HasUniqueKeys (failures_are_over a.now) s.totp_failures w.failures_unique),
      )

  -- A call on a state with nothing burned any more that verifies and is not throttled accepts.
  attempt-ok :
      (t : StepUpState)
      → prune (code_is_over a.now) t.used_codes ≡ []
      → throttled_by (truthy a.throttle_key) a.now (prune (failures_are_over a.now) t.totp_failures)
        ≡ false
      → verify_totp hmac_sha1 (trim a.raw_code) a.secret a.now ≡ true
      → (attempt hmac_sha1 a t).0 ≡ ok
  unfolding verify_and_burn_totp_code
  attempt-ok t e f v = ground (arith, is_used-nil (burn_keys (trim a.raw_code) (a.now / 30000)))

-- A code that is accepted as the one of the next period (the authenticator's clock runs ahead) is
-- accepted again, with the same secret and throttle key, by a call anywhere in the second period
-- after, if no entry of the map outlives the beginning of that period.
pub attempt_replay :
    (hmac_sha1 : Bytes → Bytes → Bytes) (a : Attempt) (s : StepUpState) (later : ℕ)
    → IsWellFormed s
    → AllUntil ((a.now / 30000 + 2) * 30 * 1000) s.used_codes
    → (attempt hmac_sha1 a s).0 ≡ ok
    → hotp_code hmac_sha1 (decode_base32 a.secret) (a.now / 30000 + 1) ≡ trim a.raw_code
    → later / 30000 ≡ a.now / 30000 + 2
    → (attempt hmac_sha1 (record a { now = later }) (attempt hmac_sha1 a s).1).0 ≡ ok
attempt_replay hmac_sha1 a s later w all h e period =
    let a' : Attempt = record a { now = later } in
    let some_secret =
      ((verify_totp_iff hmac_sha1 (trim a.raw_code) a.secret a.now).0
        (attempt-verifies hmac_sha1 a s h)).0 in
    attempt-ok hmac_sha1 a' s (attempt hmac_sha1 a s).1
      (prune_all_over later _ (All-le _ (attempt-AllUntil hmac_sha1 a s all h)))
      (attempt-not_throttled hmac_sha1 a s later w h)
      ((verify_totp_iff hmac_sha1 (trim a.raw_code) a.secret later).1
        (some_secret, (a.now / 30000 + 1, (inl (omega arith), e))))
  where
    All-le : (m : Map ℕ) → AllUntil ((a.now / 30000 + 2) * 30 * 1000) m → AllUntil later m
    All-le [] _ = tt
    All-le ((k, x) ∷ m) (h, hs) = (omega arith, All-le m hs)
