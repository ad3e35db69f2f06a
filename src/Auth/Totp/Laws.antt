-- ===== src/Auth/Totp/Laws.antt =====
-- What the one-time codes look like, and which code is accepted when.
use web_gui.Base.{
  ℕ, ◌+◌, ◌-◌, ◌/◌, ◌^◌, ◌≤◌, ◌<◌, ◌≡◌, refl, ◌≢◌, ◌⊎◌, inl, inr, ◌↔◌, true, false, [], ◌∷◌, arith,
  length, replicate, all, All, All-append, All-replicate, length-append, length-replicate, subst,
  any, Bool-cases,
}
use web_gui.Text.{Text, text_eq, text_eq_iff, is_digit, pad_start}
use web_gui.Text.Digits.{show, IsDigit, show-IsDigit, length-show}
use web_gui.Auth.Totp.{
  Bytes, truncated, counter_bytes, hotp_code, is_malformed, verify_totp, decode_base32,
}

pub All-all : (s : Text) → All IsDigit s → all is_digit s ≡ true
All-all [] _ = refl
All-all (c ∷ s) (d, h) = ground (arith, All-all s h)

pub all-All : (s : Text) → all is_digit s ≡ true → All IsDigit s
all-All [] _ = tt
all-All (c ∷ s) h = ground (arith, all-All s)

-- Six decimal digits.
abbrev pub IsSixDigits : Text → Type 0
IsSixDigits s = (length s ≡ 6) × All IsDigit s

length-pad_start : (n : ℕ) (s : Text) → length s ≤ n → length (pad_start n s) ≡ n
unfolding pad_start
length-pad_start n s h = omega (
  arith,
  length-append (replicate (n - length s) b'0') s,
  length-replicate {A = ℕ} (n - length s) b'0',
)

pad_start-IsDigit : (n : ℕ) (s : Text) → All IsDigit s → All IsDigit (pad_start n s)
unfolding pad_start
pad_start-IsDigit n s h =
    All-append IsDigit (replicate (n - length s) b'0') s
      (All-replicate IsDigit (n - length s) b'0' (omega arith)) h

truncated-lt : (h : Bytes) → truncated h < 10 ^ 6
unfolding truncated
truncated-lt h = omega arith

well_formed :
    (code secret : Text) → secret ≢ [] → IsSixDigits code → is_malformed code secret ≡ false
unfolding is_malformed
well_formed [] secret h (n, d) = absurd (omega arith)
well_formed (c ∷ code) [] h d = absurd (h refl)
well_formed (c ∷ code) (k ∷ secret) h (n, d) = ground (arith, All-all (c ∷ code) d)

well_formed_secret : (code secret : Text) → is_malformed code secret ≡ false → secret ≢ []
unfolding is_malformed
well_formed_secret [] secret h = cc
well_formed_secret (c ∷ code) [] h = cc
well_formed_secret (c ∷ code) (k ∷ secret) h = cc

module _ (hmac_sha1 : Bytes → Bytes → Bytes) where
  -- Every code that is generated has six decimal digits, whatever the digest is.
  pub hotp_code-IsSixDigits :
      (key : Bytes) (counter : ℕ) → IsSixDigits (hotp_code hmac_sha1 key counter)
  unfolding hotp_code
  hotp_code-IsSixDigits key counter =
      let n = truncated (hmac_sha1 key (counter_bytes counter)) in
      (
        length-pad_start 6 (show n)
            (length-show 5 n (truncated-lt (hmac_sha1 key (counter_bytes counter)))),
        pad_start-IsDigit 6 (show n) (show-IsDigit n),
      )

  -- The counter is one of the three around the time, and the code is its code.
  abbrev pub IsCodeAt : Text → Text → ℕ → ℕ → Type 0
  IsCodeAt code secret now counter =
      ((counter ≡ now / 30000 - 1) ⊎ (counter ≡ now / 30000) ⊎ (counter ≡ now / 30000 + 1))
      × (hotp_code hmac_sha1 (decode_base32 secret) counter ≡ code)

  any-hotp_code :
      (key : Bytes) (code : Text) (a b c : ℕ)
      → any (λ counter. text_eq (hotp_code hmac_sha1 key counter) code) (a ∷ b ∷ c ∷ []) ≡ true
      → (counter : ℕ) × (((counter ≡ a) ⊎ (counter ≡ b) ⊎ (counter ≡ c))
          × (hotp_code hmac_sha1 key counter ≡ code))
  any-hotp_code key code a b c h = elim (Bool-cases (text_eq (hotp_code hmac_sha1 key a) code)) [
    | inl e ↦ (a, (inl refl, (text_eq_iff _ _).0 e))
    | inr na ↦ elim (Bool-cases (text_eq (hotp_code hmac_sha1 key b) code)) [
      | inl e ↦ (b, (inr (inl refl), (text_eq_iff _ _).0 e))
      | inr nb ↦ (c, (inr (inr refl), (text_eq_iff _ _).0 (ground arith)))
    ]
  ]

  hotp_code-any :
      (key : Bytes) (code : Text) (a b c counter : ℕ)
      → (counter ≡ a) ⊎ (counter ≡ b) ⊎ (counter ≡ c)
      → hotp_code hmac_sha1 key counter ≡ code
      → any (λ n. text_eq (hotp_code hmac_sha1 key n) code) (a ∷ b ∷ c ∷ []) ≡ true
  hotp_code-any key code a b c counter which e =
      let eq = (text_eq_iff (hotp_code hmac_sha1 key counter) code).1 e in ground arith

  -- A code is accepted exactly if the secret is not empty and the code is the generated one for the
  -- 30 second period of the call, the period before it or the period after it.
  pub verify_totp_iff :
      (code secret : Text) (now : ℕ)
      → (verify_totp hmac_sha1 code secret now ≡ true)
        ↔ ((secret ≢ []) × ((counter : ℕ) × IsCodeAt code secret now counter))
  unfolding verify_totp
  verify_totp_iff code secret now =
      let key = decode_base32 secret in
      let t = now / 30000 in
      (
        λ h. (
          well_formed_secret code secret (ground arith),
          any-hotp_code key code (t - 1) t (t + 1) (ground arith),
        ),
        λ (some_secret, (counter, (which, e))).
            let shape = hotp_code-IsSixDigits key counter in
            ground (
              arith,
              well_formed code secret some_secret (subst IsSixDigits e shape),
              hotp_code-any key code (t - 1) t (t + 1) counter which e,
            ),
      )
