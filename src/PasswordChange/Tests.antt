-- ===== src/PasswordChange/Tests.antt =====
-- Runs of app/src/lib/password-change.ts on concrete inputs.
use web_gui.Base.{
  ℕ, ◌%◌, ◌≡◌, refl, ◌↔◌, true, false, List, [], ◌∷◌, ◌++◌, Option, none, some, length, replicate,
  length-replicate, All-replicate,
}
use web_gui.Text.{Text, codes, truthy}
use web_gui.Auth.Session.{TokenCrypto, generate_session_token, verify_session_token, IsHexUnit}
use web_gui.Auth.Password.{Kdf}
use web_gui.PasswordChange.{
  PasswordChangeInput, ok, Prefs, current_version, throttled_by, resolve_password_change,
}
use web_gui.PasswordChange.Decision.{IsAcceptable, resolve_password_change_iff}
use web_gui.PasswordChange.Sessions.{apply_changes, verify-apply_changes}

abbrev repeating : Kdf
repeating plain salt iterations keylen digest = some (replicate keylen (length plain % 256))

abbrev stored_hash : Text
stored_hash = codes "pbkdf2:sha512:210000:ab:040404"

abbrev change : PasswordChangeInput
change = record {
  current_password = codes "abcd";
  new_password = codes "longenough";
  confirm_password = codes "longenough";
}

resolve_password_change_iff_example :
    ((resolve_password_change repeating change none (some stored_hash) (codes "ab") 0 []).0
      ≡ ok (codes "x"))
    ↔ ((throttled_by (truthy none) 0 [] ≡ false)
        × IsAcceptable repeating change (some stored_hash) (codes "ab") (codes "x"))
resolve_password_change_iff_example =
    resolve_password_change_iff repeating change none (some stored_hash) (codes "ab") 0 []
      (codes "x")

zeros_are_hex : (n : ℕ) → web_gui.Base.All IsHexUnit (replicate n b'0')
zeros_are_hex n = All-replicate IsHexUnit n b'0' refl

abbrev plain_crypto : TokenCrypto
plain_crypto = record {
  hmac_hex = λ secret payload. replicate 64 b'0';
  utf8 = λ s. s;
  hmac_length = λ secret payload. length-replicate {A = ℕ} 64 b'0';
  hmac_hex_units = λ secret payload. zeros_are_hex 64;
  utf8_ascii = λ s t h. (λ e. e, λ e. e);
}

abbrev session_secret : Text
session_secret = codes "0123456789abcdef0123456789abcdef"

abbrev token : Text
token = codes "5000.0.0000000000000000000000000000000000000000000000000000000000000000"

abbrev fresh_prefs : Prefs
fresh_prefs = record { password_hash = none; session_version = none }

made : generate_session_token plain_crypto (some session_secret) 5000 0 ≡ some token
unfolding generate_session_token web_gui.Auth.Session.get_session_secret web_gui.Text.Digits.show
made = refl

verify-apply_changes_example :
    verify_session_token plain_crypto
      (some session_secret)
      token
      (current_version (apply_changes (codes "h" ∷ []) fresh_prefs))
      5001
    ≡ some false
verify-apply_changes_example =
    verify-apply_changes plain_crypto (some session_secret) fresh_prefs (codes "h" ∷ []) 5000 5001
      token (cc) made
