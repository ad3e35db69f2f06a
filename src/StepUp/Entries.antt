-- ===== src/StepUp/Entries.antt =====
-- The two maps of the step-up module under the operations of verifyAndBurnTotpCode.
use web_gui.Base.{
  ℕ, ◌+◌, ◌*◌, ◌/◌, ◌≡◌, refl, true, List, [], ◌∷◌, Option, none, some, arith, if◌then◌else◌, any,
}
use web_gui.Text.{Text, text_eq, text_eq_iff, trim, truthy}
use web_gui.JsMap.{
  Map, get, set, prune, HasUniqueKeys, get-set, set-HasUniqueKeys, prune-HasUniqueKeys,
  delete-HasUniqueKeys,
}
use web_gui.Auth.Totp.{Bytes}
use web_gui.StepUp.{
  Failures, StepUpState, code_is_over, failures_are_over, record_failure, forget_failures, burn,
  is_used, burn_keys, verify_and_burn_totp_code,
}

-- Both maps hold each key once, as a Map does.
pub record IsWellFormed (s : StepUpState) : Type 0 where
  pub used_unique : HasUniqueKeys s.used_codes
  pub failures_unique : HasUniqueKeys s.totp_failures

burn-HasUniqueKeys :
    (ks : List Text) (e : ℕ) (m : Map ℕ) → HasUniqueKeys m → HasUniqueKeys (burn ks e m)
unfolding burn
burn-HasUniqueKeys [] e m u = u
burn-HasUniqueKeys (k ∷ ks) e m u = burn-HasUniqueKeys ks e (set k e m) (set-HasUniqueKeys k e m u)

record_failure-HasUniqueKeys :
    (key : Option Text) (now : ℕ) (m : Map Failures)
    → HasUniqueKeys m
    → HasUniqueKeys (record_failure key now m)
unfolding record_failure
record_failure-HasUniqueKeys none now m u = u
record_failure-HasUniqueKeys (some key) now m u = set-HasUniqueKeys key _ m u

forget_failures-HasUniqueKeys :
    (key : Option Text) (m : Map Failures) → HasUniqueKeys m → HasUniqueKeys (forget_failures key m)
unfolding forget_failures
forget_failures-HasUniqueKeys none m u = u
forget_failures-HasUniqueKeys (some key) m u = delete-HasUniqueKeys key m u

-- The entries after a burn.
pub get-burn :
    (ks : List Text) (e : ℕ) (m : Map ℕ) (j : Text)
    → get j (burn ks e m) ≡ (if any (λ k. text_eq k j) ks then some e else get j m)
unfolding burn
get-burn [] e m j = refl
get-burn (k ∷ ks) e m j = ground (arith, get-burn ks e (set k e m) j, get-set k j e m)

-- A key of the list that has an entry makes the list used.
pub is_used_of_get :
    (ks : List Text) (m : Map ℕ) (j : Text) (e : ℕ)
    → any (λ k. text_eq k j) ks ≡ true
    → get j m ≡ some e
    → is_used ks m ≡ true
unfolding is_used
is_used_of_get [] m j e h g = cc
is_used_of_get (k ∷ ks) m j e h g = ground (arith, is_used_of_get ks m j e, text_eq_iff k j)

module _ (hmac_sha1 : Bytes → Bytes → Bytes) where
  -- Every call keeps the keys of both maps unique.
  pub verify_and_burn-IsWellFormed :
      (raw secret : Text) (key : Option Text) (now : ℕ) (s : StepUpState)
      → IsWellFormed s
      → IsWellFormed (verify_and_burn_totp_code hmac_sha1 raw secret key now s).1
  unfolding verify_and_burn_totp_code
  verify_and_burn-IsWellFormed raw secret key now s w =
      let used_left = prune (code_is_over now) s.used_codes in
      let failures_left = prune (failures_are_over now) s.totp_failures in
      let unique_failures =
        prune-HasUniqueKeys (failures_are_over now) s.totp_failures w.failures_unique in
      let unique_used = prune-HasUniqueKeys (code_is_over now) s.used_codes w.used_unique in
      ground (
        arith,
        unique_used,
        unique_failures,
        burn-HasUniqueKeys (burn_keys (trim raw) (now / 30000)) ((now / 30000 + 2) * 30 * 1000)
            used_left unique_used,
        record_failure-HasUniqueKeys (truthy key) now failures_left unique_failures,
        forget_failures-HasUniqueKeys (truthy key) failures_left unique_failures,
      )
