-- ===== src/Bech32/Checksum.antt =====
-- The six checksum words of encodeWords (app/src/lib/bech32.ts).
use web_gui.Base.{
  ℕ, ◌/◌, ◌%◌, ◌^◌, ◌<◌, ◌≡◌, refl, sym, ap, ◌∙◌, List, [], ◌∷◌, ◌++◌, arith, append_assoc,
}
use web_gui.Base.Bits.{bit_and, bit_xor, bit_and_mask, bit_xor-lt, bit_xor-zero, bit_xor_cancel}
use web_gui.Text.{Text}
use web_gui.Bech32.{
  Bech32Encoding, bech32, bech32m, encoding_const, shr, checksum_words, checksum_of, polymod,
  polymod_from, polymod_step, hrp_expand,
}
use web_gui.Bech32.Polymod.{
  Fits, number_from, zeros, next-lt, polymod_step-next, polymod_from-bit_xor, polymod_from-append,
}

abbrev pub six_zeros : List ℕ
six_zeros = 0 ∷ 0 ∷ 0 ∷ 0 ∷ 0 ∷ 0 ∷ []

low_word : (m : ℕ) → bit_and m 31 ≡ m % 32
low_word m = bit_and_mask 5 m 31 refl

-- The digits of a number of six words, which its checksum words are.
abbrev pub six_digits : ℕ → List ℕ
six_digits m =
    m / 2 ^ 25 % 32
    ∷ m / 2 ^ 20 % 32
    ∷ m / 2 ^ 15 % 32
    ∷ m / 2 ^ 10 % 32
    ∷ m / 2 ^ 5 % 32
    ∷ m / 2 ^ 0 % 32
    ∷ []

pub checksum_words_digits : (m : ℕ) → checksum_words m ≡ six_digits m
checksum_words_digits m =
    rw
      (
        low_word (m / 2 ^ 25),
        low_word (m / 2 ^ 20),
        low_word (m / 2 ^ 15),
        low_word (m / 2 ^ 10),
        low_word (m / 2 ^ 5),
        low_word (m / 2 ^ 0),
      )
      refl

six_digits-Fits : (m : ℕ) → m < 2 ^ 30 → Fits 0 (six_digits m)
six_digits-Fits m h = (
  omega arith,
  (
    omega arith,
    (
      omega arith,
      (
        omega arith,
        (
          omega arith,
          (
            omega arith,
            (
              omega arith,
              (omega arith, (omega arith, (omega arith, (omega arith, (omega arith, tt))))),
            ),
          ),
        ),
      ),
    ),
  ),
)

number_from-six_digits : (m : ℕ) → m < 2 ^ 30 → number_from 0 (six_digits m) ≡ m
number_from-six_digits m h = omega arith

polymod_from-six_zeros-lt : (s : ℕ) → polymod_from s six_zeros < 2 ^ 30
unfolding polymod_from
polymod_from-six_zeros-lt s =
    let t = polymod_from s (0 ∷ 0 ∷ 0 ∷ 0 ∷ 0 ∷ []) in
    omega (arith, next-lt t, polymod_step-next t 0, bit_xor-zero (web_gui.Bech32.Polymod.next t))

pub polymod_from_within :
    (ws : List ℕ) (s : ℕ)
    → Fits 0 ws
    → polymod_from s ws ≡ bit_xor (polymod_from s (zeros ws)) (number_from 0 ws)
polymod_from_within ws s fits =
    ap (λ t. polymod_from t ws) (sym (bit_xor-zero s)) ∙ polymod_from-bit_xor ws s 0 fits

pub polymod_from-six_digits :
    (s c : ℕ) → c < 2 ^ 30 → polymod_from s (six_digits (bit_xor (polymod_from s six_zeros) c)) ≡ c
polymod_from-six_digits s c h =
    let m = bit_xor (polymod_from s six_zeros) c in
    let small : m < 2 ^ 30 =
      bit_xor-lt 30 (polymod_from s six_zeros) c (polymod_from-six_zeros-lt s) h in
    polymod_from_within (six_digits m) s (six_digits-Fits m small)
    ∙ ap (bit_xor (polymod_from s six_zeros)) (number_from-six_digits m small)
    ∙ bit_xor_cancel (polymod_from s six_zeros) c

encoding_const-lt : (encoding : Bech32Encoding) → encoding_const encoding < 2 ^ 30
encoding_const-lt bech32 = omega arith
encoding_const-lt bech32m = omega arith

-- The whole text with its checksum words has the checksum of its encoding.
pub polymod-checksum_of :
    (prefix : Text) (words : List ℕ) (encoding : Bech32Encoding)
    → polymod (hrp_expand prefix ++ (words ++ checksum_words (checksum_of prefix words encoding)))
      ≡ encoding_const encoding
unfolding polymod checksum_of
polymod-checksum_of prefix words encoding =
    let front = hrp_expand prefix ++ words in
    let s = polymod_from 1 front in
    let m = bit_xor (polymod_from 1 (front ++ six_zeros)) (encoding_const encoding) in
    ap (polymod_from 1) (sym (append_assoc (hrp_expand prefix) words (checksum_words m)))
    ∙ polymod_from-append front (checksum_words m) 1
    ∙ ap (polymod_from s) (
        checksum_words_digits m
        ∙ ap (λ t. six_digits (bit_xor t (encoding_const encoding)))
            (polymod_from-append front six_zeros 1))
    ∙ polymod_from-six_digits s (encoding_const encoding) (encoding_const-lt encoding)
