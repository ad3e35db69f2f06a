-- ===== src/StepUp/SingleUse.antt =====
-- A one-time code that was accepted once.
use web_gui.Base.{
  ℕ, ◌+◌, ◌-◌, ◌*◌, ◌/◌, ◌≤◌, ◌<◌, ◌≡◌, refl, ◌≢◌, ◌∙◌, ◌⊎◌, true, List, [], ◌∷◌, Option, some,
  arith, any, inl, inr, All,
}
use native.Mathlib.Decide.{dec_lt}
use web_gui.Text.{Text, text_eq, text_eq_refl, trim}
use web_gui.Text.Digits.{show}
use web_gui.JsMap.{get, prune, get-prune}
use web_gui.Auth.Totp.{Bytes, verify_totp, hotp_code, decode_base32}
use web_gui.Auth.Totp.Laws.{verify_totp_iff}
use web_gui.StepUp.{
  StepUpState, TotpCheck, ok, code_is_over, burn_key, burn_keys, verify_and_burn_totp_code,
}
use web_gui.StepUp.Entries.{IsWellFormed, verify_and_burn-IsWellFormed, get-burn, is_used_of_get}

-- A call of verifyAndBurnTotpCode.
pub record Attempt : Type 0 where
  pub raw_code : Text
  pub secret : Text
  pub throttle_key : Option Text
  pub now : ℕ

-- Among the keys of a call in the period of the burn or the next one is a key that was burned.
burn_keys_meet :
    (code : Text) (p q : ℕ)
    → (q ≡ p) ⊎ (q ≡ p + 1)
    → any (λ k. text_eq k (burn_key code (show q))) (burn_keys code p) ≡ true
unfolding burn_keys
burn_keys_meet code p q (inl e) = rw e (ground (arith, text_eq_refl (burn_key code (show p))))
burn_keys_meet code p q (inr e) = rw e (ground (arith, text_eq_refl (burn_key code (show (p + 1)))))

All-lt :
    {now limit : ℕ} (as' : List Attempt)
    → All (λ a. a.now ≤ now) as'
    → now < limit
    → All (λ a. a.now < limit) as'
All-lt [] _ _ = tt
All-lt (a ∷ rest) (h, hs) lt = (omega arith, All-lt rest hs lt)

module _ (hmac_sha1 : Bytes → Bytes → Bytes) where
  abbrev pub attempt : Attempt → StepUpState → TotpCheck × StepUpState
  attempt a s = verify_and_burn_totp_code hmac_sha1 a.raw_code a.secret a.throttle_key a.now s

  -- The state after a run of calls.
  unfoldable pub run_attempts : List Attempt → StepUpState → StepUpState
  run_attempts [] s = s
  run_attempts (a ∷ rest) s = run_attempts rest (attempt a s).1

  -- A burned key keeps its entry in every call before its expiry.
  attempt-keeps :
      (a : Attempt) (s : StepUpState) (k : Text) (e : ℕ)
      → IsWellFormed s
      → a.now < e
      → get k s.used_codes ≡ some e
      → get k ((attempt a s).1).used_codes ≡ some e
  unfolding verify_and_burn_totp_code
  attempt-keeps a s k e w h g =
      let left = prune (code_is_over a.now) s.used_codes in
      let keys = burn_keys (trim a.raw_code) (a.now / 30000) in
      ground (
        arith,
        get-prune (code_is_over a.now) k s.used_codes w.used_unique,
        get-burn keys ((a.now / 30000 + 2) * 30 * 1000) left k,
        is_used_of_get keys left k e,
      )

  run_attempts-keeps :
      (as' : List Attempt) (s : StepUpState) (k : Text) (e : ℕ)
      → IsWellFormed s
      → All (λ a. a.now < e) as'
      → get k s.used_codes ≡ some e
      → (get k (run_attempts as' s).used_codes ≡ some e) × IsWellFormed (run_attempts as' s)
  unfolding run_attempts
  run_attempts-keeps [] s k e w h g = (g, w)
  run_attempts-keeps (a ∷ rest) s k e w (h, hs) g =
      run_attempts-keeps rest (attempt a s).1 k e
        (verify_and_burn-IsWellFormed hmac_sha1 a.raw_code a.secret a.throttle_key a.now s w) hs
        (attempt-keeps a s k e w h g)

  -- An accepted code leaves each of its keys in the map.
  attempt-burns :
      (a : Attempt) (s : StepUpState) (k : Text)
      → (attempt a s).0 ≡ ok
      → any (λ j. text_eq j k) (burn_keys (trim a.raw_code) (a.now / 30000)) ≡ true
      → get k ((attempt a s).1).used_codes ≡ some ((a.now / 30000 + 2) * 30 * 1000)
  unfolding verify_and_burn_totp_code
  attempt-burns a s k h m =
      let left = prune (code_is_over a.now) s.used_codes in
      let keys = burn_keys (trim a.raw_code) (a.now / 30000) in
      ground (arith, get-burn keys ((a.now / 30000 + 2) * 30 * 1000) left k)

  -- A call one of whose keys is burned does not accept.
  attempt-refuses :
      (a : Attempt) (s : StepUpState) (k : Text) (e : ℕ)
      → IsWellFormed s
      → a.now < e
      → get k s.used_codes ≡ some e
      → any (λ j. text_eq j k) (burn_keys (trim a.raw_code) (a.now / 30000)) ≡ true
      → (attempt a s).0 ≢ ok
  unfolding verify_and_burn_totp_code
  attempt-refuses a s k e w h g m =
      let left = prune (code_is_over a.now) s.used_codes in
      let keys = burn_keys (trim a.raw_code) (a.now / 30000) in
      ground (
        arith,
        get-prune (code_is_over a.now) k s.used_codes w.used_unique,
        is_used_of_get keys left k e,
      )

  -- An accepting call has verified the code.
  pub attempt-verifies :
      (a : Attempt) (s : StepUpState)
      → (attempt a s).0 ≡ ok
      → verify_totp hmac_sha1 (trim a.raw_code) a.secret a.now ≡ true
  unfolding verify_and_burn_totp_code
  attempt-verifies a s h = ground arith

  -- Until the second period after the one in which a code was accepted, it is refused.
  attempt_once :
      (first again : Attempt) (between : List Attempt) (s : StepUpState)
      → IsWellFormed s
      → (attempt first s).0 ≡ ok
      → trim again.raw_code ≡ trim first.raw_code
      → first.now ≤ again.now
      → again.now < (first.now / 30000 + 2) * 30 * 1000
      → All (λ a. a.now < (first.now / 30000 + 2) * 30 * 1000) between
      → (attempt again (run_attempts between (attempt first s).1)).0 ≢ ok
  attempt_once first again between s w h same order before all_before =
      let p = first.now / 30000 in
      let q = again.now / 30000 in
      let k = burn_key (trim first.raw_code) (show q) in
      let near : (q ≡ p) ⊎ (q ≡ p + 1) = grind arith in
      let w' =
        verify_and_burn-IsWellFormed hmac_sha1 first.raw_code first.secret first.throttle_key
          first.now s w in
      let burned = attempt-burns first s k h (burn_keys_meet (trim first.raw_code) p q near) in
      let (kept, w'') = run_attempts-keeps between (attempt first s).1 k _ w' all_before burned in
      attempt-refuses again (run_attempts between (attempt first s).1) k _ w'' before kept
        (rw same (burn_keys_meet (trim first.raw_code) q q (inl refl)))

  -- Once a code is accepted, a later call with the same code (white space at its ends aside),
  -- whatever its secret and throttle key and whatever calls came in between, is accepted only from
  -- the second period after that one on, and only if the code is also that of a counter above the
  -- period in which it was accepted first.
  pub attempt_again :
      (first again : Attempt) (between : List Attempt) (s : StepUpState)
      → IsWellFormed s
      → (attempt first s).0 ≡ ok
      → trim again.raw_code ≡ trim first.raw_code
      → first.now ≤ again.now
      → All (λ a. a.now ≤ again.now) between
      → (attempt again (run_attempts between (attempt first s).1)).0 ≡ ok
      → (first.now / 30000 + 2 ≤ again.now / 30000)
        × ((counter : ℕ) × ((first.now / 30000 < counter)
              × (hotp_code hmac_sha1 (decode_base32 again.secret) counter ≡ trim first.raw_code)))
  attempt_again first again between s w h same order ordered accepted =
      elim (dec_lt again.now ((first.now / 30000 + 2) * 30 * 1000)) [
        | yes early ↦ absurd (
            attempt_once first again between s w h same order early (All-lt between ordered early)
              accepted)
        | no late ↦
            let (counter, (near, e)) =
              ((verify_totp_iff hmac_sha1 (trim again.raw_code) again.secret again.now).0
                (attempt-verifies again _ accepted)).1 in
            (omega arith, (counter, (above counter near late, e ∙ same)))
      ]
    where
      above :
          (counter : ℕ)
          → (counter ≡ again.now / 30000 - 1)
            ⊎ (counter ≡ again.now / 30000)
            ⊎ (counter ≡ again.now / 30000 + 1)
          → ¬ (again.now < (first.now / 30000 + 2) * 30 * 1000)
          → first.now / 30000 < counter
      above counter near late = omega arith
