-- ===== src/Bech32/Canonical.antt =====
-- A text that decode (app/src/lib/bech32.ts) accepts is the one that encodeWords makes of the result.
use web_gui.Base.{
  ℕ, zero, suc, ◌+◌, ◌-◌, ◌^◌, ◌≤◌, ◌<◌, replicate, ◌≡◌, refl, sym, ap, ap₂, ◌∙◌, true, false, List,
  [], ◌∷◌, ◌++◌, none, some, arith, ◌==◌, ltb, ◌||◌, ◌&&◌, any, All, All-drop, length, length-drop,
  take-append-drop, take, drop, append_assoc, inl, inr, Bool-cases, Option-cases,
}
use web_gui.Base.Bits.{bit_xor, bit_xor_cancel}
use web_gui.Text.{Text}
use web_gui.Bech32.{
  Bech32Encoding, Bech32Decoded, DecodeResult, decoded, thrown, decode, separated, checked_words,
  words_of, encode_words, checksum_words, checksum_of, spell, polymod, polymod_from, hrp_expand,
  encoding_const, last_index_of, is_lower, is_upper,
}
use web_gui.Bech32.Polymod.{number_from, zeros, Fits, polymod_from-append}
use web_gui.Bech32.Checksum.{six_zeros, six_digits, checksum_words_digits, polymod_from_within}
use web_gui.Bech32.Reading.{IsRead, words_of-IsRead, last_index_of-cut}

-- Six words are the digits of their number.
six_digits-number :
    (ws : List ℕ)
    → length ws ≡ 6
    → All (λ w. w < 32) ws
    → Fits 0 ws × ((number_from 0 ws < 2 ^ 30) × (six_digits (number_from 0 ws) ≡ ws))
six_digits-number [] h _ = absurd (omega arith)
six_digits-number (a ∷ []) h _ = absurd (omega arith)
six_digits-number (a ∷ b ∷ []) h _ = absurd (omega arith)
six_digits-number (a ∷ b ∷ c ∷ []) h _ = absurd (omega arith)
six_digits-number (a ∷ b ∷ c ∷ d ∷ []) h _ = absurd (omega arith)
six_digits-number (a ∷ b ∷ c ∷ d ∷ e ∷ []) h _ = absurd (omega arith)
six_digits-number (a ∷ b ∷ c ∷ d ∷ e ∷ f ∷ g ∷ ws) h _ = absurd (omega arith)
six_digits-number (a ∷ b ∷ c ∷ d ∷ e ∷ f ∷ []) h (ha, (hb, (hc, (hd, (he, (hf, _)))))) = (
  (
    ha,
    (
      omega arith,
      (
        hb,
        (
          omega arith,
          (hc, (omega arith, (hd, (omega arith, (he, (omega arith, (hf, (omega arith, tt)))))))),
        ),
      ),
    ),
  ),
  (
    omega arith,
    six_eq (omega arith) (omega arith) (omega arith) (omega arith) (omega arith) (omega arith),
  ),
)
  where
    six_eq :
        {a b c d e f a' b' c' d' e' f' : ℕ}
        → a ≡ a'
        → b ≡ b'
        → c ≡ c'
        → d ≡ d'
        → e ≡ e'
        → f ≡ f'
        → (a ∷ b ∷ c ∷ d ∷ e ∷ f ∷ []) ≡ (a' ∷ b' ∷ c' ∷ d' ∷ e' ∷ f' ∷ [])
    six_eq p q r s t u = cc

zeros-six : (ws : List ℕ) → length ws ≡ 6 → zeros ws ≡ six_zeros
zeros-six ws h = zeros-replicate 6 ws h
  where
    zeros-replicate : (n : ℕ) (ws : List ℕ) → length ws ≡ n → zeros ws ≡ replicate n 0
    zeros-replicate zero [] h = refl
    zeros-replicate zero (w ∷ ws) h = absurd (omega arith)
    zeros-replicate (suc n) [] h = absurd (omega arith)
    zeros-replicate (suc n) (w ∷ ws) h = ap (λ r. 0 ∷ r) (zeros-replicate n ws (omega arith))

checksum_of-lem :
    (prefix : Text) (words six : List ℕ) (encoding : Bech32Encoding)
    → length six ≡ 6
    → All (λ w. w < 32) six
    → polymod (hrp_expand prefix ++ (words ++ six)) ≡ encoding_const encoding
    → checksum_words (checksum_of prefix words encoding) ≡ six
unfolding polymod checksum_of
checksum_of-lem prefix words six encoding h small e =
    let front = hrp_expand prefix ++ words in
    let s = polymod_from 1 front in
    let (fits, (low, same)) = six_digits-number six h small in
    let start = polymod_from s six_zeros in
    let whole : encoding_const encoding ≡ bit_xor start (number_from 0 six) =
      sym e
      ∙ ap (polymod_from 1) (sym (append_assoc (hrp_expand prefix) words six))
      ∙ polymod_from-append front six 1
      ∙ polymod_from_within six s fits
      ∙ ap (λ z. bit_xor (polymod_from s z) (number_from 0 six)) (zeros-six six h) in
    let number : bit_xor (polymod_from 1 (front ++ six_zeros)) (encoding_const encoding)
        ≡ number_from 0 six =
      ap₂ bit_xor (polymod_from-append front six_zeros 1) whole
      ∙ bit_xor_cancel start (number_from 0 six) in
    checksum_words_digits (bit_xor (polymod_from 1 (front ++ six_zeros)) (encoding_const encoding))
    ∙ ap six_digits number
    ∙ same

checked_words-decoded :
    (encoding : Bech32Encoding) (prefix : Text) (ws : List ℕ) {d : Bech32Decoded}
    → checked_words encoding prefix (some ws) ≡ decoded d
    → (polymod (hrp_expand prefix ++ ws) ≡ encoding_const encoding)
      × (d ≡ record { prefix = prefix; words = take (length ws - 6) ws })
unfolding checked_words
checked_words-decoded encoding prefix ws {d} h =
    elim (Bool-cases (polymod (hrp_expand prefix ++ ws) == encoding_const encoding)) [
      | inl t ↦ (ground arith, sym (rewritten t))
      | inr f ↦ absurd (ground arith)
    ]
  where
    result : DecodeResult → Bech32Decoded → Bech32Decoded
    result (decoded r) d = r
    result (thrown e) d = d

    rewritten :
        (polymod (hrp_expand prefix ++ ws) == encoding_const encoding) ≡ true
        → record { prefix = prefix; words = take (length ws - 6) ws } ≡ d
    rewritten t = ground arith

-- Reading the data part and spelling it with its own checksum gives it back.
encode_words-read :
    (encoding : Bech32Encoding) (prefix rest : Text) (ws : List ℕ)
    → IsRead rest ws
    → 6 ≤ length rest
    → polymod (hrp_expand prefix ++ ws) ≡ encoding_const encoding
    → encode_words prefix (take (length ws - 6) ws) encoding ≡ prefix ++ b'1' ∷ rest
unfolding encode_words
encode_words-read encoding prefix rest ws r long sum =
    let words = take (length ws - 6) ws in
    let six = drop (length ws - 6) ws in
    let joined : words ++ six ≡ ws = take-append-drop (length ws - 6) ws in
    let n : length six ≡ 6 = omega (arith, length-drop (length ws - 6) ws, r.size) in
    let cut =
      checksum_of-lem prefix words six encoding n (All-drop _ (length ws - 6) ws r.small)
        (ap (λ t. polymod (hrp_expand prefix ++ t)) joined ∙ sum) in
    ap (λ c. prefix ++ b'1' ∷ spell (words ++ c)) cut
    ∙ ap (λ t. prefix ++ b'1' ∷ spell t) joined
    ∙ ap (λ t. prefix ++ b'1' ∷ t) r.spelled

module _ (encoding : Bech32Encoding) (value : Text) {d : Bech32Decoded} where
  separated_at :
      (i : ℕ)
      → last_index_of b'1' value ≡ some i
      → separated encoding value (some i) ≡ decoded d
      → encode_words d.prefix d.words encoding ≡ value
  unfolding separated checked_words
  separated_at i cut h = elim (Bool-cases (ltb i 1 || ltb (length value) (i + 7))) [
    | inl bad ↦ absurd (ground arith)
    | inr good ↦ elim (Option-cases (words_of (drop (suc i) value))) [
      | inl unread ↦ absurd (checked_words_none (ground arith))
      | inr (ws, read) ↦
          let long : 6 ≤ length (drop (suc i) value) =
            omega (arith, length-drop (suc i) value, long_enough good) in
          let (sum, same) = checked_words-decoded encoding (take i value) ws (ground arith) in
          ap (λ (d : Bech32Decoded). encode_words d.prefix d.words encoding) same
          ∙ encode_words-read encoding (take i value) (drop (suc i) value) ws
              (words_of-IsRead (drop (suc i) value) read) long sum
          ∙ sym (last_index_of-cut b'1' value cut)
    ]
  ]
    where
      long_enough : (ltb i 1 || ltb (length value) (i + 7)) ≡ false → i + 7 ≤ length value
      long_enough e = ground arith

      checked_words_none : checked_words encoding (take i value) none ≡ decoded d → ⊥
      checked_words_none e = ground arith

  separated_sound :
      separated encoding value (last_index_of b'1' value) ≡ decoded d
      → encode_words d.prefix d.words encoding ≡ value
  unfolding separated
  separated_sound h = elim (Option-cases (last_index_of b'1' value)) [
    | inl e ↦ absurd (ground arith)
    | inr (i, e) ↦ separated_at i e (ap (separated encoding value) (sym e) ∙ h)
  ]

-- A text that is accepted in an encoding is, in lower case, the text that is made of the prefix and
-- the words it is decoded to; it has 8 to 1023 characters, and not both small letters and capitals.
pub encode_words-decode :
    (to_lower : Text → Text) (address : Text) (encoding : Bech32Encoding) {d : Bech32Decoded}
    → decode to_lower address encoding ≡ decoded d
    → (encode_words d.prefix d.words encoding ≡ to_lower address)
      × ((8 ≤ length address)
          × ((length address ≤ 1023) × ((any is_lower address && any is_upper address) ≡ false)))
unfolding decode
encode_words-decode to_lower address encoding {d} h =
    let accepted : separated encoding (to_lower address) (last_index_of b'1' (to_lower address))
        ≡ decoded d =
      ground arith in
    (
      separated_sound encoding (to_lower address) accepted,
      (ground arith, (ground arith, ground arith)),
    )
