-- ===== src/PasswordChange/Decision.antt =====
-- When a password change is accepted.
use web_gui.Base.{
  ℕ, ◌≤◌, ◌≡◌, ◌↔◌, true, false, Option, some, arith, length, Option-cases, inl, inr,
}
use web_gui.Text.{Text, text_eq_iff, truthy}
use web_gui.JsMap.{Map}
use web_gui.Auth.Password.{Kdf, hash_password, verify_password}
use web_gui.PasswordChange.{
  PasswordChangeInput, PasswordChangeDecision, ok, Failures, throttled_by, decide_new, hashed,
  resolve_password_change,
}

-- What an accepted change has passed.
pub record IsAcceptable (pbkdf2 : Kdf) (input : PasswordChangeInput) (stored_hash : Option Text)
    (salt new_hash : Text) : Type 0 where
  pub stored : Text
  pub configured : truthy stored_hash ≡ some stored
  pub current_right : verify_password pbkdf2 input.current_password stored ≡ some true
  pub long_enough : 8 ≤ length input.new_password
  pub confirmed : input.new_password ≡ input.confirm_password
  pub hash : hash_password pbkdf2 input.new_password salt ≡ some new_hash

module _ (pbkdf2 : Kdf) (input : PasswordChangeInput) (key stored_hash : Option Text) (salt : Text)
    (now : ℕ) (m : Map Failures) where
  abbrev resolved : PasswordChangeDecision × Map Failures
  resolved = resolve_password_change pbkdf2 input key stored_hash salt now m

  decide_new-ok :
      {new_hash : Text}
      → decide_new pbkdf2 input salt ≡ ok new_hash
      → (8 ≤ length input.new_password)
        × (input.new_password ≡ input.confirm_password)
        × (hash_password pbkdf2 input.new_password salt ≡ some new_hash)
  unfolding decide_new hashed
  decide_new-ok h = ground (arith, text_eq_iff input.new_password input.confirm_password)

  ok-decide_new :
      {new_hash : Text}
      → 8 ≤ length input.new_password
      → input.new_password ≡ input.confirm_password
      → hash_password pbkdf2 input.new_password salt ≡ some new_hash
      → decide_new pbkdf2 input salt ≡ ok new_hash
  unfolding decide_new hashed
  ok-decide_new len same h = ground (arith, text_eq_iff input.new_password input.confirm_password)

  -- A change is accepted with a new hash exactly if its key is not throttled, a hash is stored, the
  -- current password verifies against it, the new password has at least 8 characters and equals its
  -- confirmation, and that hash is the one made of the new password.
  pub resolve_password_change_iff :
      (new_hash : Text)
      → (resolved.0 ≡ ok new_hash) ↔ (
          (throttled_by (truthy key) now m ≡ false)
          × IsAcceptable pbkdf2 input stored_hash salt new_hash)
  unfolding resolve_password_change
  resolve_password_change_iff new_hash = (sound, complete)
    where
      sound :
          resolved.0 ≡ ok new_hash
          → (throttled_by (truthy key) now m ≡ false)
            × IsAcceptable pbkdf2 input stored_hash salt new_hash
      sound h = elim (Option-cases (truthy stored_hash)) [
        | inl missing ↦ absurd (ground arith)
        | inr (stored, e) ↦
            let (len, same, hash) = decide_new-ok {new_hash = new_hash} (ground arith) in
            (
              ground arith,
              record {
                stored = stored;
                configured = e;
                current_right = ground arith;
                long_enough = len;
                confirmed = same;
                hash = hash;
              },
            )
      ]

      complete :
          (throttled_by (truthy key) now m ≡ false)
            × IsAcceptable pbkdf2 input stored_hash salt new_hash
          → resolved.0 ≡ ok new_hash
      complete (open_to, a) =
          rw
            (open_to, a.configured, a.current_right, ok-decide_new a.long_enough a.confirmed a.hash)
