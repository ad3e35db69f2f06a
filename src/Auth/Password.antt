-- ===== src/Auth/Password.antt =====
-- Stored passwords of app/src/lib/auth.ts: hashPassword, passwordNeedsRehash, verifyPassword. A
-- stored hash is "pbkdf2:<digest>:<iterations>:<salt_hex>:<key_hex>". PBKDF2 of node:crypto is a
-- parameter that may throw; `none` as a result is that exception.
pub mod Hex
pub mod Laws
use web_gui.Base.{
  ℕ, ◌+◌, ◌-◌, ◌*◌, ◌/◌, ◌%◌, ◌≡◌, Bool, true, false, not, ◌&&◌, ◌||◌, List, [], ◌∷◌, ◌++◌, Option,
  none, some, ◌==◌, ltb, leb, if◌then◌else◌, length,
}
use web_gui.Base.Int.{ℤ, pos, negsuc}
use web_gui.Text.{Text, codes, text_eq, is_nonempty}
use web_gui.Text.Digits.{show}
use web_gui.Text.Split.{split_on}
use web_gui.Text.ParseInt.{parse_int}
use web_gui.Auth.Password.Hex.{to_hex, from_hex}

abbrev pub pbkdf2_iterations : ℕ
pbkdf2_iterations = 210000

-- Password, salt, iterations, key length and digest name to the key, or an exception.
abbrev pub Kdf : Type 0
Kdf = Text → Text → ℕ → ℕ → Text → Option (List ℕ)

-- `parts.length !== 5 || parts[0] !== 'pbkdf2'` is false.
pub is_pbkdf2 : List Text → Bool
is_pbkdf2 (scheme ∷ digest ∷ iterations ∷ salt ∷ key ∷ []) = text_eq scheme (codes "pbkdf2")
is_pbkdf2 _ = false

-- `isNaN(iterations) || iterations < PBKDF2_ITERATIONS`
pub is_weak : Option ℤ → Bool
is_weak none = true
is_weak (some (negsuc n)) = true
is_weak (some (pos n)) = ltb n pbkdf2_iterations

pub rehash_parts : List Text → Bool
rehash_parts (scheme ∷ digest ∷ iterations ∷ salt ∷ key ∷ []) =
    if text_eq scheme (codes "pbkdf2") then is_weak (parse_int iterations) else false
rehash_parts _ = false

unfoldable pub password_needs_rehash : Text → Bool
password_needs_rehash stored = rehash_parts (split_on b':' stored)

-- The number of iterations, if it is one that is run: from 1 to 10 million.
pub usable_iterations : Option ℤ → Option ℕ
usable_iterations none = none
usable_iterations (some (negsuc n)) = none
usable_iterations (some (pos n)) = if ltb n 1 || ltb 10000000 n then none else some n

-- `keylen = expectedHex.length / 2` is an integer from 1 to 512.
pub has_key_length : Text → Bool
has_key_length hex = (length hex % 2 == 0) && leb 1 (length hex / 2) && leb (length hex / 2) 512

pub compare_key : Option (List ℕ) → List ℕ → Option Bool
compare_key none expected = none
compare_key (some key) expected =
    if not (length key == length expected) then some false else some (text_eq key expected)

module _ (pbkdf2 : Kdf) where
  -- `salt` is the hexadecimal text of the 32 random bytes.
  unfoldable pub hash_password : Text → Text → Option Text
  hash_password plain salt = elim (pbkdf2 plain salt pbkdf2_iterations 64 (codes "sha512")) [
    | none ↦ none
    | some key ↦ some (
        codes "pbkdf2"
        ++ (b':'
            ∷ (codes "sha512"
                ++ (b':' ∷ (show pbkdf2_iterations ++ (b':' ∷ (salt ++ (b':' ∷ to_hex key))))))))
  ]

  pub verify_key : Text → Text → Text → Text → Option ℕ → Option Bool
  verify_key plain digest salt expected_hex none = some false
  verify_key plain digest salt expected_hex (some iterations) =
      compare_key (pbkdf2 plain salt iterations (length expected_hex / 2) digest)
        (from_hex expected_hex)

  pub verify_fields : Text → Text → Text → Text → Text → Option Bool
  verify_fields plain digest iterations salt expected_hex =
      if not (is_nonempty digest) || not (is_nonempty salt) || not (is_nonempty expected_hex)
      then some false
      else if not (has_key_length expected_hex)
      then some false
      else verify_key plain digest salt expected_hex (usable_iterations (parse_int iterations))

  pub verify_stored : Text → List Text → Option Bool
  verify_stored plain (scheme ∷ digest ∷ iterations ∷ salt ∷ key ∷ []) =
      if text_eq scheme (codes "pbkdf2")
      then verify_fields plain digest iterations salt key
      else some false
  verify_stored plain _ = some false

  unfoldable pub verify_password : Text → Text → Option Bool
  verify_password plain stored = verify_stored plain (split_on b':' stored)
