-- ===== src/Auth/Password/Laws.antt =====
-- A fresh password hash and its verification.
use web_gui.Base.{
  ℕ, ◌≡◌, refl, ◌≢◌, ◌∙◌, sym, true, false, List, [], ◌∷◌, ◌++◌, Option, none, some, arith, length,
  All, Option-cases, inl, inr,
}
use web_gui.Text.{Text, codes, text_eq, text_eq_refl, text_eq_iff, is_nonempty}
use web_gui.Text.Digits.{show, show-IsDigit}
use web_gui.Text.Split.{split_on, Lacks, split_on_part, split_on-append}
use web_gui.Text.ParseInt.{parse_int, parse_int-show}
use web_gui.Auth.Session.{IsHexUnit}
use web_gui.Auth.Session.Laws.{IsDigit-Lacks}
use web_gui.Auth.Password.{
  Kdf, pbkdf2_iterations, is_weak, rehash_parts, password_needs_rehash, usable_iterations,
  has_key_length, compare_key, hash_password, verify_key, verify_fields, verify_stored,
  verify_password,
}
use web_gui.Auth.Password.Hex.{to_hex, AllBytes, from_hex-to_hex, length-to_hex, to_hex-Lacks}

IsHexUnit-Lacks_colon : (s : Text) → All IsHexUnit s → Lacks b':' s
IsHexUnit-Lacks_colon [] h = tt
IsHexUnit-Lacks_colon (c ∷ s) (p, h) = (ground arith, IsHexUnit-Lacks_colon s h)

abbrev hash_parts : Text → List ℕ → List Text
hash_parts salt key =
    codes "pbkdf2" ∷ codes "sha512" ∷ show pbkdf2_iterations ∷ salt ∷ to_hex key ∷ []

abbrev hash_text : Text → List ℕ → Text
hash_text salt key =
    codes "pbkdf2"
    ++ (b':'
        ∷ (codes "sha512"
            ++ (b':' ∷ (show pbkdf2_iterations ++ (b':' ∷ (salt ++ (b':' ∷ to_hex key)))))))

split_on-hash_text :
    (salt : Text) (key : List ℕ)
    → All IsHexUnit salt
    → split_on b':' (hash_text salt key) ≡ hash_parts salt key
split_on-hash_text salt key h = rw (
  split_on-append b':' (codes "pbkdf2") _ (omega arith),
  split_on-append b':' (codes "sha512") _ (omega arith),
  split_on-append b':' (show pbkdf2_iterations) _
      (IsDigit-Lacks b':' (show pbkdf2_iterations) (inr (omega arith)) (show-IsDigit _)),
  split_on-append b':' salt (to_hex key) (IsHexUnit-Lacks_colon salt h),
  split_on_part b':' (to_hex key) (to_hex-Lacks key),
)

to_hex-is_nonempty : (key : List ℕ) → length key ≡ 64 → is_nonempty (to_hex key) ≡ true
unfolding to_hex
to_hex-is_nonempty [] h = absurd (omega arith)
to_hex-is_nonempty (b ∷ bs) h = refl

module _ (pbkdf2 : Kdf) where
  -- A derived key has the length that was asked for, in bytes.
  abbrev pub KeyFits : Type 0
  KeyFits =
      (plain salt : Text) (iterations keylen : ℕ) (digest : Text) (key : List ℕ)
      → pbkdf2 plain salt iterations keylen digest ≡ some key
      → (length key ≡ keylen) × AllBytes key

  abbrev pub derive : Text → Text → Option (List ℕ)
  derive plain salt = pbkdf2 plain salt pbkdf2_iterations 64 (codes "sha512")

  usable_fresh : usable_iterations (parse_int (show pbkdf2_iterations)) ≡ some pbkdf2_iterations
  unfolding usable_iterations
  usable_fresh = rw (parse_int-show pbkdf2_iterations)

  verify_fields_fresh :
      (other salt : Text) (key : List ℕ)
      → is_nonempty salt ≡ true
      → length key ≡ 64
      → AllBytes key
      → verify_fields pbkdf2 other (codes "sha512") (show pbkdf2_iterations) salt (to_hex key)
        ≡ compare_key (derive other salt) key
  unfolding verify_fields verify_key has_key_length
  verify_fields_fresh other salt key some_salt len bytes =
      let hex_length : length (to_hex key) ≡ 128 = omega (arith, length-to_hex key) in
      rw (
        some_salt,
        to_hex-is_nonempty key len,
        hex_length,
        usable_fresh,
        hex_length,
        from_hex-to_hex key bytes,
      )

  verify_password-hash_text :
      (other salt : Text) (key : List ℕ)
      → All IsHexUnit salt
      → is_nonempty salt ≡ true
      → length key ≡ 64
      → AllBytes key
      → verify_password pbkdf2 other (hash_text salt key) ≡ compare_key (derive other salt) key
  unfolding verify_password verify_stored text_eq
  verify_password-hash_text other salt key hex some_salt len bytes =
      rw (split_on-hash_text salt key hex) (verify_fields_fresh other salt key some_salt len bytes)

  password_needs_rehash-hash_text :
      (salt : Text) (key : List ℕ)
      → All IsHexUnit salt
      → password_needs_rehash (hash_text salt key) ≡ false
  unfolding password_needs_rehash rehash_parts is_weak text_eq
  password_needs_rehash-hash_text salt key hex =
      rw (split_on-hash_text salt key hex, parse_int-show pbkdf2_iterations)

  compare_key-eq-true :
      (made : Option (List ℕ)) (key : List ℕ) → compare_key made key ≡ some true → made ≡ some key
  unfolding compare_key
  compare_key-eq-true none key h = cc
  compare_key-eq-true (some k) key h = ground (arith, text_eq_iff k key)

  compare_key_self : (key : List ℕ) → compare_key (some key) key ≡ some true
  unfolding compare_key
  compare_key_self key = ground (arith, text_eq_refl key)

  -- A password that was hashed with a random salt, in hexadecimal, is verified against its stored
  -- hash; another password is verified only if the salt makes PBKDF2 derive the same key from both;
  -- and the stored hash needs no rehash. PBKDF2 is assumed to give keys of the length asked for.
  pub verify-hash_password :
      KeyFits
      → (plain salt stored : Text) → All IsHexUnit salt
      → salt ≢ []
      → hash_password pbkdf2 plain salt ≡ some stored
      → (verify_password pbkdf2 plain stored ≡ some true)
        × ((other : Text)
            → verify_password pbkdf2 other stored ≡ some true
            → derive other salt ≡ derive plain salt)
        × (password_needs_rehash stored ≡ false)
  unfolding hash_password
  verify-hash_password fits plain salt stored hex ne h = elim (Option-cases (derive plain salt)) [
    | inl thrown ↦ absurd (ground arith)
    | inr (key, e) ↦
        let made : hash_text salt key ≡ stored = ground arith in
        let (len, bytes) = fits plain salt pbkdf2_iterations 64 (codes "sha512") key e in
        let some_salt = nonempty salt ne in
        (
          rw (← made, verify_password-hash_text plain salt key hex some_salt len bytes, e)
              (compare_key_self key),
          λ other ok.
              compare_key-eq-true (derive other salt) key (
                sym (verify_password-hash_text other salt key hex some_salt len bytes)
                ∙ (rw made ok))
              ∙ sym e,
          rw (← made) (password_needs_rehash-hash_text salt key hex),
        )
  ]
    where
      nonempty : (s : Text) → s ≢ [] → is_nonempty s ≡ true
      nonempty [] h = absurd (h refl)
      nonempty (c ∷ s) h = refl
