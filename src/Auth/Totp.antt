-- ===== src/Auth/Totp.antt =====
-- Time-based one-time passwords of app/src/lib/auth.ts: decodeBase32, hotpCode, verifyTOTP and
-- generateTotpSecret. HMAC-SHA1 of node:crypto is the parameter `hmac_sha1`, from a key and a
-- message to a digest; the random bytes of a secret are an argument. `a | b` on disjoint bits is
-- written `a + b`, and `<<` keeps the 32 bits of a JavaScript shift.
pub mod Laws
pub mod Secret
use mathlib.Core.List.{map}
use web_gui.Base.{
  ℕ, zero, suc, ◌+◌, ◌-◌, ◌*◌, ◌/◌, ◌%◌, ◌^◌, Bool, true, false, not, ◌&&◌, ◌||◌, List, [], ◌∷◌,
  ◌++◌, Option, none, some, ◌==◌, leb, if◌then◌else◌, length, all, any, get_or,
}
use web_gui.Text.{
  Text, codes, text_eq, is_space, index_of, upper_unit, is_digit, is_nonempty, pad_start,
}
use web_gui.Text.Digits.{show}

abbrev pub Bytes : Type 0
Bytes = List ℕ

abbrev pub alphabet : Text
alphabet = codes "ABCDEFGHIJKLMNOPQRSTUVWXYZ234567"

-- `.replace(/=+$/, '')`: a unit stays unless it is a padding sign with nothing kept after it.
unpad : Text → Text
unpad [] = []
unpad (c ∷ s) = let rest = unpad s in if c == b'=' && not (is_nonempty rest) then [] else c ∷ rest

-- `.replace(/\s/g, '')`
unspace : Text → Text
unspace [] = []
unspace (c ∷ s) = if is_space c then unspace s else c ∷ unspace s

-- The loop of decodeBase32 from the state (bits, value).
pub decode_from : ℕ → ℕ → Text → Bytes
decode_from bits value [] = []
decode_from bits value (c ∷ s) = elim (index_of c alphabet) [
  | none ↦ decode_from bits value s
  | some idx ↦ elim (leb 8 (bits + 5)) [
    | true ↦
        (((value * 32) % 2 ^ 32 + idx) / 2 ^ (bits + 5 - 8) % 256)
        ∷ decode_from (bits + 5 - 8) ((value * 32) % 2 ^ 32 + idx) s
    | false ↦ decode_from (bits + 5) ((value * 32) % 2 ^ 32 + idx) s
  ]
]

unfoldable pub decode_base32 : Text → Bytes
unfolding unpad unspace decode_from index_of is_space
decode_base32 input = decode_from 0 0 (unspace (unpad (map upper_unit input)))

-- `writeBigUInt64BE`
abbrev pub counter_bytes : ℕ → Bytes
counter_bytes n =
    (n / 2 ^ 56 % 256)
    ∷ (n / 2 ^ 48 % 256)
    ∷ (n / 2 ^ 40 % 256)
    ∷ (n / 2 ^ 32 % 256)
    ∷ (n / 2 ^ 24 % 256)
    ∷ (n / 2 ^ 16 % 256)
    ∷ (n / 2 ^ 8 % 256)
    ∷ (n % 256)
    ∷ []

-- The four bytes at the offset that the last byte names, without the top bit, modulo a million.
pub truncated : Bytes → ℕ
truncated hmac =
    let offset = get_or hmac (length hmac - 1) 0 % 16 in
    (get_or hmac offset 0 % 128 * 2 ^ 24
      + get_or hmac (offset + 1) 0 % 256 * 2 ^ 16
      + get_or hmac (offset + 2) 0 % 256 * 2 ^ 8
      + get_or hmac (offset + 3) 0 % 256)
    % 1000000

-- A rebuilt code is read bit by bit from the high end, five at a time.
pub encode_from : ℕ → ℕ → ℕ → Text
encode_from zero bits value = []
encode_from (suc f) bits value = elim (leb 5 bits) [
  | true ↦ get_or alphabet (value / 2 ^ (bits - 5) % 32) 0 ∷ encode_from f (bits - 5) value
  | false ↦ []
]

-- The loop of generateTotpSecret from the state (bits, value). A round leaves fewer than 13 bits,
-- so the inner loop makes at most two steps.
pub secret_from : ℕ → ℕ → Bytes → Text
secret_from bits value [] =
    if leb 1 bits then get_or alphabet ((value * 2 ^ (5 - bits)) % 2 ^ 32 % 32) 0 ∷ [] else []
secret_from bits value (b ∷ bs) =
    let v = (value * 256) % 2 ^ 32 + b in
    encode_from 3 (bits + 8) v ++ secret_from ((bits + 8) % 5) v bs

-- `bytes` is what crypto.randomBytes(20) returned.
unfoldable pub generate_totp_secret : Bytes → Text
unfolding secret_from encode_from
generate_totp_secret bytes = secret_from 0 0 bytes

-- `!code || !secret || code.length !== 6 || !/^\d{6}$/.test(code)`
is_malformed : Text → Text → Bool
is_malformed code secret =
    not (is_nonempty code)
    || not (is_nonempty secret)
    || not (length code == 6)
    || not (all is_digit code)

module _ (hmac_sha1 : Bytes → Bytes → Bytes) where
  unfoldable pub hotp_code : Bytes → ℕ → Text
  unfolding truncated show pad_start
  hotp_code key counter = pad_start 6 (show (truncated (hmac_sha1 key (counter_bytes counter))))

  -- `now` in milliseconds, at least 30000: before that the source's `T - 1` is negative.
  unfoldable pub verify_totp : Text → Text → ℕ → Bool
  unfolding decode_base32 is_malformed
  verify_totp code secret now =
      if is_malformed code secret
      then false
      else let key = decode_base32 secret in
        let t = now / 30000 in
        any (λ counter. text_eq (hotp_code key counter) code) ((t - 1) ∷ t ∷ (t + 1) ∷ [])
