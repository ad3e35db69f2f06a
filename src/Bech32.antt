-- ===== src/Bech32.antt =====
-- app/src/lib/bech32.ts: the codec of bech32 and bech32m texts. The numbers are bit patterns of 32
-- bits; `to_lower` stands for String.prototype.toLowerCase, and texts are iterated by code units,
-- which are the code points of every text that decode gets past its character check.
pub mod Polymod
pub mod Checksum
pub mod Layout
pub mod RoundTrip
pub mod Reading
pub mod Canonical
pub mod Regroup
mod Tests
use web_gui.Base.{
  ℕ, zero, suc, ◌+◌, ◌-◌, ◌*◌, ◌/◌, ◌%◌, ◌^◌, Bool, true, false, not, ◌&&◌, ◌||◌, List, [], ◌∷◌,
  ◌++◌, Option, none, some, ◌==◌, leb, ltb, if◌then◌else◌, length, take, drop, all, any,
}
use web_gui.Base.Bits.{bit_and, bit_xor}
use web_gui.Text.{Text, codes, index_of, is_nonempty, text_eq}

abbrev pub charset : Text
charset = codes "qpzry9x8gf2tvdw0s3jn54khce6mua7l"

abbrev pub generator : List ℕ
generator = 0x3b6a57b2 ∷ 0x26508e6d ∷ 0x1ea119fa ∷ 0x3d4233dd ∷ 0x2a1462b3 ∷ []

pub data Bech32Encoding : Type 0 where
  bech32 : Bech32Encoding
  bech32m : Bech32Encoding

abbrev pub encoding_const : Bech32Encoding → ℕ
encoding_const bech32 = 1
encoding_const bech32m = 0x2bc830a3

-- `a << n`, as the pattern of its 32 bits
abbrev pub shl : ℕ → ℕ → ℕ
shl a n = a * 2 ^ n % 2 ^ 32

-- `a >> n` of a number that is not negative as 32 bits
abbrev pub shr : ℕ → ℕ → ℕ
shr a n = a / 2 ^ n

-- The inner loop of polymod, from the `i`th generator.
unfoldable pub mixed : ℕ → ℕ → List ℕ → ℕ → ℕ
mixed top i [] chk = chk
mixed top i (g ∷ gs) chk =
    mixed top (suc i) gs (if bit_and (shr top i) 1 == 0 then chk else bit_xor chk g)

unfoldable pub polymod_step : ℕ → ℕ → ℕ
polymod_step chk value =
    mixed (shr chk 25) 0 generator (bit_xor (shl (bit_and chk 0x1ffffff) 5) value)

unfoldable pub polymod_from : ℕ → List ℕ → ℕ
polymod_from chk [] = chk
polymod_from chk (v ∷ vs) = polymod_from (polymod_step chk v) vs

unfoldable pub polymod : List ℕ → ℕ
polymod values = polymod_from 1 values

abbrev pub high_bits : Text → List ℕ
high_bits [] = []
high_bits (c ∷ s) = shr c 5 ∷ high_bits s

abbrev pub low_bits : Text → List ℕ
low_bits [] = []
low_bits (c ∷ s) = bit_and c 31 ∷ low_bits s

unfoldable pub hrp_expand : Text → List ℕ
hrp_expand hrp = high_bits hrp ++ 0 ∷ low_bits hrp

pub record Bech32Decoded : Type 0 where
  pub prefix : Text
  -- 5-bit words, the checksum left out
  pub words : List ℕ

-- The messages of the errors that decode throws.
pub data DecodeError : Type 0 where
  too_short : DecodeError
  too_long : DecodeError
  mixed_case : DecodeError
  invalid_character : DecodeError
  separator_position : DecodeError
  checksum_mismatch : DecodeError

pub data DecodeResult : Type 0 where
  decoded : Bech32Decoded → DecodeResult
  thrown : DecodeError → DecodeResult

abbrev pub is_lower : ℕ → Bool
is_lower c = leb b'a' c && leb c b'z'

abbrev pub is_upper : ℕ → Bool
is_upper c = leb b'A' c && leb c b'Z'

abbrev pub is_graphic : ℕ → Bool
is_graphic c = leb 0x21 c && leb c 0x7e

-- `s.lastIndexOf(c)`, none for -1
unfoldable pub last_index_of : ℕ → Text → Option ℕ
last_index_of c [] = none
last_index_of c (d ∷ s) = elim (last_index_of c s) [
  | some i ↦ some (suc i)
  | none ↦ if d == c then some 0 else none
]

-- The loop over the data part: none if a character is not in the set.
abbrev pub both : Option ℕ → Option (List ℕ) → Option (List ℕ)
both (some w) (some ws) = some (w ∷ ws)
both _ _ = none

unfoldable pub words_of : Text → Option (List ℕ)
words_of [] = some []
words_of (c ∷ s) = both (index_of c charset) (words_of s)

unfoldable pub checked_words : Bech32Encoding → Text → Option (List ℕ) → DecodeResult
checked_words encoding prefix none = thrown invalid_character
checked_words encoding prefix (some words) =
    if polymod (hrp_expand prefix ++ words) == encoding_const encoding
    then decoded (record { prefix = prefix; words = take (length words - 6) words })
    else thrown checksum_mismatch

unfoldable pub separated : Bech32Encoding → Text → Option ℕ → DecodeResult
separated encoding value none = thrown separator_position
separated encoding value (some i) =
    if ltb i 1 || ltb (length value) (i + 7)
    then thrown separator_position
    else checked_words encoding (take i value) (words_of (drop (suc i) value))

module _ (to_lower : Text → Text) where
  unfoldable pub decode : Text → Bech32Encoding → DecodeResult
  decode address encoding =
      let value = to_lower address in
      if ltb (length address) 8
      then thrown too_short
      else if ltb 1023 (length address)
      then thrown too_long
      else if any is_lower address && any is_upper address
      then thrown mixed_case
      else if not (is_nonempty value && all is_graphic value)
      then thrown invalid_character
      else separated encoding value (last_index_of b'1' value)

-- `CHARSET[w]` in the joined text: nothing for an index out of range.
unfoldable pub letters_from : Text → ℕ → Text
letters_from [] w = []
letters_from (c ∷ cs) zero = c ∷ []
letters_from (c ∷ cs) (suc w) = letters_from cs w

unfoldable pub spell : List ℕ → Text
spell [] = []
spell (w ∷ ws) = letters_from charset w ++ spell ws

-- The loop that cuts the checksum into six words.
abbrev pub checksum_words : ℕ → List ℕ
checksum_words m =
    bit_and (shr m 25) 31
    ∷ bit_and (shr m 20) 31
    ∷ bit_and (shr m 15) 31
    ∷ bit_and (shr m 10) 31
    ∷ bit_and (shr m 5) 31
    ∷ bit_and (shr m 0) 31
    ∷ []

unfoldable pub checksum_of : Text → List ℕ → Bech32Encoding → ℕ
checksum_of prefix words encoding =
    bit_xor (polymod (hrp_expand prefix ++ words ++ 0 ∷ 0 ∷ 0 ∷ 0 ∷ 0 ∷ 0 ∷ []))
      (encoding_const encoding)

unfoldable pub encode_words : Text → List ℕ → Bech32Encoding → Text
encode_words prefix words encoding =
    prefix ++ b'1' ∷ spell (words ++ checksum_words (checksum_of prefix words encoding))

pub data Bech32Chain : Type 0 where
  btc : Bech32Chain
  ml : Bech32Chain

unfoldable pub hrp_for_network : Bech32Chain → Text → Option Text
hrp_for_network btc network =
    if text_eq network (codes "mainnet")
    then some (codes "bc")
    else if text_eq network (codes "testnet")
    then some (codes "tb")
    else if text_eq network (codes "regtest")
    then some (codes "bcrt")
    else if text_eq network (codes "signet")
    then some (codes "tb")
    else none
hrp_for_network ml network =
    if text_eq network (codes "mainnet")
    then some (codes "mtc")
    else if text_eq network (codes "testnet")
    then some (codes "tmt")
    else none
