-- ===== src/Auth/Session.antt =====
-- Session tokens of app/src/lib/auth.ts: getSessionSecret, generateSessionToken and
-- verifySessionToken. A token is "<timestamp>.<version>.<hmac>". `secret` is the SESSION_SECRET
-- variable and `now` the Date.now() of a call; `none` as a result is an exception.
pub mod Laws
use web_gui.Base.{
  ℕ, ◌+◌, ◌*◌, ◌≡◌, ◌↔◌, Bool, true, false, not, ◌&&◌, ◌||◌, List, [], ◌∷◌, ◌++◌, Option, none,
  some, ◌==◌, ltb, leb, if◌then◌else◌, length, All, ◌<◌,
}
use web_gui.Base.Int.{ℤ, pos, negsuc}
use web_gui.Text.{Text, codes, text_eq, is_nonempty}
use web_gui.Text.Digits.{show}
use web_gui.Text.Split.{split_on}
use web_gui.Text.ParseInt.{parse_int}

abbrev pub session_cookie_name : Text
session_cookie_name = codes "session"

abbrev pub session_max_age_ms : ℕ
session_max_age_ms = 30 * 60 * 1000

abbrev pub session_cookie_attrs : Text
session_cookie_attrs = codes "Path=/; HttpOnly; SameSite=Strict; Secure; Max-Age=1800"

abbrev pub IsAscii : List ℕ → Type 0
IsAscii s = All (λ c. c < 128) s

-- A hexadecimal digit as Node prints it.
abbrev pub IsHexUnit : ℕ → Type 0
IsHexUnit c = ((leb b'0' c && leb c b'9') || (leb b'a' c && leb c b'f')) ≡ true

-- node:crypto's HMAC-SHA256, hex-encoded, and Buffer.from(s, 'utf8').
pub record TokenCrypto : Type 0 where
  pub hmac_hex : Text → Text → Text
  pub utf8 : Text → List ℕ
  -- A digest of 32 bytes is printed as 64 hexadecimal digits.
  pub hmac_length : (secret payload : Text) → length (hmac_hex secret payload) ≡ 64
  pub hmac_hex_units : (secret payload : Text) → All IsHexUnit (hmac_hex secret payload)
  -- A byte below 128 stands for the character of that code and for no other.
  pub utf8_ascii : (s t : Text) → IsAscii t → (utf8 s ≡ t) ↔ (s ≡ t)

pub make_session_cookie_header : Text → Text
make_session_cookie_header token =
    session_cookie_name ++ (b'=' ∷ token) ++ codes "; " ++ session_cookie_attrs

unfoldable pub get_session_secret : Option Text → Option Text
get_session_secret none = none
get_session_secret (some secret) = if ltb (length secret) 32 then none else some secret

-- `Date.now() - ts > SESSION_MAX_AGE_MS`
unfoldable pub is_stale : ℕ → ℤ → Bool
is_stale now (pos ts) = ltb (ts + session_max_age_ms) now
is_stale now (negsuc n) = ltb session_max_age_ms (now + n + 1)

-- `parseInt(tokenVersion, 10) !== version`
unfoldable pub is_version : ℕ → Option ℤ → Bool
is_version version (some (pos v)) = v == version
is_version version _ = false

unfoldable pub is_fresh : ℕ → Option ℤ → Bool
is_fresh now none = false
is_fresh now (some ts) = not (is_stale now ts)

module _ (crypto : TokenCrypto) where
  abbrev pub payload_of : Text → Text → Text
  payload_of timestamp version = timestamp ++ b'.' ∷ version

  unfoldable pub generate_session_token : Option Text → ℕ → ℕ → Option Text
  generate_session_token env now version = elim (get_session_secret env) [
    | none ↦ none
    | some secret ↦
        let payload = payload_of (show now) (show version) in
        some (payload ++ b'.' ∷ crypto.hmac_hex secret payload)
  ]

  -- timingSafeEqual throws on buffers of different lengths.
  unfoldable pub same_signature : Text → Text → Option Bool
  same_signature received expected =
      if not (length received == length expected)
      then some false
      else let a = crypto.utf8 received in
        let b = crypto.utf8 expected in if length a == length b then some (text_eq a b) else none

  unfoldable pub verify_parts : List Text → Text → ℕ → ℕ → Option Bool
  verify_parts (timestamp ∷ token_version ∷ received ∷ []) secret version now =
      if not (is_fresh now (parse_int timestamp))
      then some false
      else if not (is_version version (parse_int token_version))
      then some false
      else same_signature received (crypto.hmac_hex secret (payload_of timestamp token_version))
  verify_parts _ secret version now = some false

  unfoldable pub verify_session_token : Option Text → Text → ℕ → ℕ → Option Bool
  verify_session_token env token version now =
      if not (is_nonempty token) then some false else elim (get_session_secret env) [
        | none ↦ some false
        | some secret ↦ verify_parts (split_on b'.' token) secret version now
      ]
