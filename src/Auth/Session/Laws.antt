-- ===== src/Auth/Session/Laws.antt =====
-- Which session tokens are accepted.
use web_gui.Base.{
  ℕ, ◌+◌, ◌≤◌, ◌<◌, ◌⊎◌, ◌≡◌, refl, ◌≢◌, ◌∙◌, sym, true, ◌&&◌, List, [], ◌∷◌, ◌++◌, append_assoc,
  Option, none, some, arith, ◌==◌, leb, length, All, Option-cases, inl, inr,
}
use web_gui.Base.Int.{ℤ, pos, negsuc}
use web_gui.Text.{Text, text_eq_iff, text_eq_refl, is_nonempty}
use web_gui.Text.Digits.{show, IsDigit, show-IsDigit, show-ne-nil}
use web_gui.Text.Split.{split_on, join_with, join-split_on, Lacks, split_on_part, split_on-append}
use web_gui.Text.ParseInt.{parse_int, parse_int-show}
use web_gui.Auth.Session.{
  TokenCrypto, IsAscii, IsHexUnit, get_session_secret, session_max_age_ms, is_stale, is_version,
  is_fresh, payload_of, generate_session_token, same_signature, verify_parts, verify_session_token,
}

pub IsDigit-Lacks : (c : ℕ) (s : Text) → (c < b'0') ⊎ (b'9' < c) → All IsDigit s → Lacks c s
IsDigit-Lacks c [] _ h = tt
IsDigit-Lacks c (d ∷ s) out (p, h) = (omega arith, IsDigit-Lacks c s out h)

pub IsHexUnit-Lacks : (c : ℕ) (s : Text) → c < b'0' → All IsHexUnit s → Lacks c s
IsHexUnit-Lacks c [] _ h = tt
IsHexUnit-Lacks c (d ∷ s) out (p, h) = (ground arith, IsHexUnit-Lacks c s out h)

IsHexUnit-IsAscii : (s : Text) → All IsHexUnit s → IsAscii s
IsHexUnit-IsAscii [] h = tt
IsHexUnit-IsAscii (d ∷ s) (p, h) = (ground arith, IsHexUnit-IsAscii s h)

module _ (crypto : TokenCrypto) where
  token_parts :
      (now version : ℕ) (secret : Text)
      → split_on b'.' (
          payload_of crypto (show now) (show version)
          ++ b'.' ∷ crypto.hmac_hex secret (payload_of crypto (show now) (show version)))
        ≡ show now
          ∷ show version
          ∷ crypto.hmac_hex secret (payload_of crypto (show now) (show version))
          ∷ []
  token_parts now version secret =
      let sig = crypto.hmac_hex secret (payload_of crypto (show now) (show version)) in
      rw (
        append_assoc,
        split_on-append b'.' (show now) (show version ++ b'.' ∷ sig)
            (IsDigit-Lacks b'.' (show now) (inl (omega arith)) (show-IsDigit now)),
        split_on-append b'.' (show version) sig
            (IsDigit-Lacks b'.' (show version) (inl (omega arith)) (show-IsDigit version)),
        split_on_part b'.' sig (IsHexUnit-Lacks b'.' sig (omega arith) (crypto.hmac_hex_units _ _)),
      )

  same_signature_self : (s : Text) → same_signature crypto s s ≡ some true
  unfolding same_signature
  same_signature_self s = ground (arith, text_eq_refl (crypto.utf8 s))

  verify_parts_generated :
      (now version v later : ℕ) (secret : Text)
      → verify_parts crypto
          (show now
            ∷ show version
            ∷ crypto.hmac_hex secret (payload_of crypto (show now) (show version))
            ∷ [])
          secret
          v
          later
        ≡ some (leb later (now + session_max_age_ms) && (version == v))
  unfolding verify_parts is_fresh is_stale is_version
  verify_parts_generated now version v later secret = ground (
    arith,
    parse_int-show now,
    parse_int-show version,
    same_signature_self (crypto.hmac_hex secret (payload_of crypto (show now) (show version))),
  )

  token-is_nonempty :
      (now : ℕ) (s t : Text) → is_nonempty (payload_of crypto (show now) s ++ t) ≡ true
  token-is_nonempty now s t = go (show now) (show-ne-nil now)
    where
      go : (u : Text) → u ≢ [] → is_nonempty ((u ++ b'.' ∷ s) ++ t) ≡ true
      go [] h = absurd (h refl)
      go (c ∷ u) h = refl

  -- A token made at `now` for a session version is accepted, under the same secret, exactly up to 30
  -- minutes later and exactly for that version; otherwise it is refused, and nothing is thrown.
  pub verify-generate_session_token :
      (env : Option Text) (now version v later : ℕ) (token : Text)
      → generate_session_token crypto env now version ≡ some token
      → verify_session_token crypto env token v later
        ≡ some (leb later (now + session_max_age_ms) && (version == v))
  unfolding generate_session_token verify_session_token
  verify-generate_session_token env now version v later token h =
      elim (Option-cases (get_session_secret env)) [
        | inl missing ↦ absurd (ground arith)
        | inr (secret, e) ↦
            let payload = payload_of crypto (show now) (show version) in
            let made : payload ++ b'.' ∷ crypto.hmac_hex secret payload ≡ token = ground arith in
            rw (← made) (
              ground (
                arith,
                token_parts now version secret,
                token-is_nonempty now (show version) (b'.' ∷ crypto.hmac_hex secret payload),
                verify_parts_generated now version v later secret,
              ))
      ]

  same_signature_sound :
      (received secret payload : Text)
      → same_signature crypto received (crypto.hmac_hex secret payload) ≡ some true
      → received ≡ crypto.hmac_hex secret payload
  unfolding same_signature
  same_signature_sound received secret payload h =
      let sig = crypto.hmac_hex secret payload in
      let ascii = IsHexUnit-IsAscii sig (crypto.hmac_hex_units secret payload) in
      let plain = (crypto.utf8_ascii sig sig ascii).1 refl in
      let equal = (text_eq_iff (crypto.utf8 received) (crypto.utf8 sig)).0 (ground arith) in
      (crypto.utf8_ascii received sig ascii).0 (equal ∙ plain)

  -- A signed token of the version, at most 30 minutes old.
  pub record IsSigned (secret token : Text) (version now : ℕ) : Type 0 where
    pub timestamp : Text
    pub token_version : Text
    pub signed :
        token
        ≡ timestamp
          ++ b'.'
            ∷ (token_version
                ++ b'.' ∷ crypto.hmac_hex secret (payload_of crypto timestamp token_version))
    pub version_read : parse_int token_version ≡ some (pos version)
    pub fresh : is_fresh now (parse_int timestamp) ≡ true

  is_version_sound :
      (version : ℕ) (o : Option ℤ) → is_version version o ≡ true → o ≡ some (pos version)
  unfolding is_version
  is_version_sound version none h = cc
  is_version_sound version (some (pos v)) h = ground arith
  is_version_sound version (some (negsuc v)) h = cc

  verify_parts_sound :
      (parts : List Text) (secret token : Text) (version now : ℕ)
      → join_with b'.' parts ≡ token
      → verify_parts crypto parts secret version now ≡ some true
      → IsSigned secret token version now
  unfolding verify_parts
  verify_parts_sound (timestamp ∷ token_version ∷ received ∷ []) secret token version now j h =
      let sig =
        same_signature_sound received secret (payload_of crypto timestamp token_version)
          (ground arith) in
      record {
        timestamp = timestamp;
        token_version = token_version;
        signed = rw (← sig) (sym j);
        version_read = is_version_sound version (parse_int token_version) (ground arith);
        fresh = ground arith;
      }
  verify_parts_sound [] secret token version now j h = cc
  verify_parts_sound (a ∷ []) secret token version now j h = cc
  verify_parts_sound (a ∷ b ∷ []) secret token version now j h = cc
  verify_parts_sound (a ∷ b ∷ c ∷ d ∷ rest) secret token version now j h = cc

  -- A token is accepted only if a secret of at least 32 characters is set and the token is a
  -- timestamp, a version and the HMAC of both under that secret, joined by dots, with a timestamp
  -- that reads as a number no more than 30 minutes old and a version that reads as the current one.
  pub verify_session_token_sound :
      (env : Option Text) (token : Text) (version now : ℕ)
      → verify_session_token crypto env token version now ≡ some true
      → (secret : Text) × ((env ≡ some secret)
          × ((32 ≤ length secret) × IsSigned secret token version now))
  unfolding verify_session_token get_session_secret
  verify_session_token_sound none token version now h = absurd (ground arith)
  verify_session_token_sound (some secret) token version now h = (
    secret,
    (
      refl,
      (
        ground arith,
        verify_parts_sound (split_on b'.' token) secret token version now (join-split_on b'.' token)
            (ground arith),
      ),
    ),
  )
