-- ===== src/Auth/Tests.antt =====
-- Runs of app/src/lib/auth.ts on concrete inputs.
use web_gui.Base.{
  ℕ, ◌+◌, ◌<◌, ◌≤◌, ◌≡◌, refl, ◌≢◌, ◌↔◌, true, false, ◌&&◌, List, [], ◌∷◌, ◌++◌, some, arith, subst,
  ◌%◌, ltb, leb, ◌==◌, length, replicate, length-replicate, All, All-replicate,
}
use web_gui.Text.{Text, codes}
use web_gui.JsMap.{HasUniqueKeys}
use web_gui.Auth.RateLimit.{
  check_login_rate_limit, record_login_failure, check_rpc_rate_limit, record_bootstrap_attempt,
}
use web_gui.Auth.RateLimit.Window.{AllLive}
use web_gui.Auth.RateLimit.Lockout.{
  Call, calls_by, record_login_failures, check_rpc_rate_limits, check-record_login_failures,
  check-record_login_failures_later, check-check_rpc_rate_limits, recording-AllLive,
}
use web_gui.Auth.Totp.{Bytes, hotp_code, verify_totp}
use web_gui.Auth.Totp.Laws.{IsCodeAt, verify_totp_iff}
use web_gui.Auth.Session.{
  TokenCrypto, session_max_age_ms, generate_session_token, verify_session_token, payload_of,
}
use web_gui.Auth.Session.Laws.{IsSigned, verify-generate_session_token, verify_session_token_sound}
use web_gui.Auth.Password.{Kdf, hash_password, verify_password, password_needs_rehash}
use web_gui.Auth.Password.Hex.{AllBytes}
use web_gui.Auth.Password.Laws.{KeyFits, derive, verify-hash_password}

abbrev home : Text
home = codes "10.0.0.1"

abbrev other : Text
other = codes "10.0.0.2"

-- Four more failures of the client and one of another, within a second.
abbrev failures : List Call
failures = (home, 1001) ∷ (other, 1001) ∷ (home, 1002) ∷ (home, 1003) ∷ (home, 1004) ∷ []

check-record_login_failures_example :
    (check_login_rate_limit home 2000 (record_login_failures ((home, 1000) ∷ failures) [])).0
    ≡ ltb (1 + calls_by home failures) 5
unfolding web_gui.JsMap.get
check-record_login_failures_example =
    check-record_login_failures home 1000 2000 failures [] tt refl (omega arith) (omega arith)

check-record_login_failures_later_example :
    (check_login_rate_limit home 901000 (record_login_failures ((home, 1000) ∷ failures) [])).0
    ≡ true
unfolding web_gui.JsMap.get
check-record_login_failures_later_example =
    check-record_login_failures_later home 1000 901000 failures [] tt refl (omega arith)
      (omega arith)

check-check_rpc_rate_limits_example :
    (check_rpc_rate_limit home 2000 (check_rpc_rate_limits ((home, 1000) ∷ failures) [])).0
    ≡ ltb (1 + calls_by home failures) 120
unfolding web_gui.JsMap.get
check-check_rpc_rate_limits_example =
    check-check_rpc_rate_limits home 1000 2000 failures [] tt refl (omega arith) (omega arith)

recording-AllLive_example :
    (HasUniqueKeys (record_login_failure home 5 []) × AllLive 5 (record_login_failure home 5 []))
    × (HasUniqueKeys (record_bootstrap_attempt home 5 [])
        × AllLive 5 (record_bootstrap_attempt home 5 []))
    × (HasUniqueKeys (check_rpc_rate_limit home 5 []).1
        × AllLive 5 (check_rpc_rate_limit home 5 []).1)
recording-AllLive_example = recording-AllLive home 5 [] tt

-- The digest of the appendix of RFC 4226 for the counter 0, for every key and message.
abbrev rfc_digest : Bytes → Bytes → Bytes
rfc_digest key message =
    0xcc ∷ 0x93 ∷ 0xcf ∷ 0x18 ∷ 0x50 ∷ 0x8d ∷ 0x94 ∷ 0x93 ∷ 0x4c ∷ 0x64 ∷ 0xb6 ∷ 0x5d ∷ 0x8b ∷ 0xa7
    ∷ 0x66 ∷ 0x7f ∷ 0xb7 ∷ 0xcd ∷ 0xe4 ∷ 0xb0 ∷ []

rfc_code : hotp_code rfc_digest [] 0 ≡ codes "755224"
unfolding hotp_code
rfc_code = refl

verify_totp_iff_example :
    (verify_totp rfc_digest (codes "755224") (codes "JBSWY3DP") 90000 ≡ true) ↔ (
      (codes "JBSWY3DP" ≢ [])
      × ((counter : ℕ) × IsCodeAt rfc_digest (codes "755224") (codes "JBSWY3DP") 90000 counter))
verify_totp_iff_example = verify_totp_iff rfc_digest (codes "755224") (codes "JBSWY3DP") 90000

-- A signature that is the same for every message, and ASCII bytes.
zeros_are_hex : (n : ℕ) → All web_gui.Auth.Session.IsHexUnit (replicate n b'0')
zeros_are_hex n = All-replicate web_gui.Auth.Session.IsHexUnit n b'0' refl

abbrev plain_crypto : TokenCrypto
plain_crypto = record {
  hmac_hex = λ secret payload. replicate 64 b'0';
  utf8 = λ s. s;
  hmac_length = λ secret payload. length-replicate {A = ℕ} 64 b'0';
  hmac_hex_units = λ secret payload. zeros_are_hex 64;
  utf8_ascii = λ s t h. (λ e. e, λ e. e);
}

abbrev session_secret : Text
session_secret = codes "0123456789abcdef0123456789abcdef"

abbrev token : Text
token = codes "5000.3.0000000000000000000000000000000000000000000000000000000000000000"

made : generate_session_token plain_crypto (some session_secret) 5000 3 ≡ some token
unfolding generate_session_token web_gui.Auth.Session.get_session_secret web_gui.Text.Digits.show
made = refl

accepted : verify_session_token plain_crypto (some session_secret) token 3 6000 ≡ some true
unfolding verify_session_token web_gui.Auth.Session.get_session_secret web_gui.Text.Split.split_on
    web_gui.Text.ParseInt.parse_int web_gui.Text.ParseInt.parse_signed web_gui.Text.trim_start
    web_gui.Text.is_space web_gui.Text.ParseInt.to_int web_gui.Text.ParseInt.digits_value
    web_gui.Text.ParseInt.digit_prefix web_gui.Text.Digits.value_from
    web_gui.Auth.Session.verify_parts web_gui.Auth.Session.is_fresh web_gui.Auth.Session.is_stale
    web_gui.Auth.Session.is_version web_gui.Auth.Session.same_signature web_gui.Text.text_eq
accepted = refl

verify-generate_session_token_example :
    verify_session_token plain_crypto (some session_secret) token 3 6000
    ≡ some (leb 6000 (5000 + session_max_age_ms) && (3 == 3))
verify-generate_session_token_example =
    verify-generate_session_token plain_crypto (some session_secret) 5000 3 3 6000 token made

verify_session_token_sound_example :
    (secret : Text) × ((some session_secret ≡ some secret)
      × ((32 ≤ length secret) × IsSigned plain_crypto secret token 3 6000))
verify_session_token_sound_example =
    verify_session_token_sound plain_crypto (some session_secret) token 3 6000 accepted

-- The key is the password's length, repeated.
abbrev repeating : Kdf
repeating plain salt iterations keylen digest = some (replicate keylen (length plain % 256))

repeating_fits : KeyFits repeating
repeating_fits plain salt iterations keylen digest key e =
    let same : replicate keylen (length plain % 256) ≡ key = cc in
    subst (λ k. (length k ≡ keylen) × AllBytes k) same
      (
        length-replicate {A = ℕ} keylen (length plain % 256),
        All-replicate (λ b. b < 256) keylen (length plain % 256) (omega arith),
      )

abbrev stored_hash : Text
stored_hash = codes "pbkdf2:sha512:210000:ab:" ++ web_gui.Auth.Password.Hex.to_hex (replicate 64 4)

hashed : hash_password repeating (codes "abcd") (codes "ab") ≡ some stored_hash
unfolding hash_password web_gui.Text.Digits.show
hashed = refl

verify-hash_password_example :
    (verify_password repeating (codes "abcd") stored_hash ≡ some true)
    × ((other : Text)
        → verify_password repeating other stored_hash ≡ some true
        → derive repeating other (codes "ab") ≡ derive repeating (codes "abcd") (codes "ab"))
    × (password_needs_rehash stored_hash ≡ false)
verify-hash_password_example =
    verify-hash_password repeating repeating_fits (codes "abcd") (codes "ab") stored_hash
      (refl, (refl, tt)) (cc) hashed
