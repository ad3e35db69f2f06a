-- ===== src/Bech32/RoundTrip.antt =====
-- decode (app/src/lib/bech32.ts) on the texts of encodeWords.
use web_gui.Base.{
  ℕ, ◌+◌, ◌-◌, ◌≤◌, ◌<◌, ◌≡◌, ◌≢◌, refl, sym, ap, subst, ◌∙◌, Bool, true, false, ◌&&◌, List, [],
  ◌∷◌, ◌++◌, some, arith, ◌==◌, ltb, All, All-append, length, length-append, take, any,
}
use web_gui.Text.{Text, is_nonempty}
use web_gui.Bech32.{
  Bech32Encoding, DecodeResult, decoded, decode, separated, checked_words, encode_words,
  checksum_words, checksum_of, spell, polymod, hrp_expand, encoding_const, last_index_of, is_lower,
}
use web_gui.Bech32.Checksum.{checksum_words_digits, six_digits, polymod-checksum_of}
use web_gui.Bech32.Layout.{
  IsPlain, IsSpelled, spell-IsSpelled, last_index_of-append, take-append, drop-append, all-graphic,
  any-upper, lower_ascii, lower_ascii-plain, plain-ascii,
}

checksum_words-All : (m : ℕ) → All (λ w. w < 32) (checksum_words m)
checksum_words-All m =
    let words : All (λ w. w < 32) (six_digits m) = (
      omega arith,
      (omega arith, (omega arith, (omega arith, (omega arith, (omega arith, tt))))),
    ) in
    subst (All (λ w. w < 32)) (sym (checksum_words_digits m)) words

take-length-append : (ws cs : List ℕ) → length cs ≡ 6 → take (length (ws ++ cs) - 6) (ws ++ cs) ≡ ws
take-length-append ws cs h =
    let n : length (ws ++ cs) - 6 ≡ length ws = omega (arith, length-append ws cs) in
    ap (λ n. take n (ws ++ cs)) n ∙ take-append ws cs

is_nonempty-length : (t : Text) → 0 < length t → is_nonempty t ≡ true
is_nonempty-length [] h = absurd (omega arith)
is_nonempty-length (c ∷ t) h = refl

and-false : (b : Bool) → (b && false) ≡ false
and-false true = refl
and-false false = refl

module _ (prefix : Text) (words : List ℕ) (encoding : Bech32Encoding) (some_prefix : prefix ≢ [])
    (plain : All IsPlain prefix) (small : All (λ w. w < 32) words) where
  abbrev checksum : List ℕ
  checksum = checksum_words (checksum_of prefix words encoding)

  data_part-IsSpelled : IsSpelled (words ++ checksum)
  data_part-IsSpelled =
      spell-IsSpelled (words ++ checksum)
        (All-append _ words checksum small (checksum_words-All (checksum_of prefix words encoding)))

  checked_words_lem :
      checked_words encoding prefix (some (words ++ checksum))
      ≡ decoded (record { prefix = prefix; words = words })
  unfolding checked_words
  checked_words_lem =
      let e = polymod-checksum_of prefix words encoding in
      let t : (polymod (hrp_expand prefix ++ (words ++ checksum)) == encoding_const encoding)
          ≡ true =
        ground arith in
      rw (t, take-length-append words checksum refl) refl

  encode_words-All : All IsPlain (encode_words prefix words encoding)
  unfolding encode_words
  encode_words-All = All-append IsPlain prefix _ plain ((refl, refl), data_part-IsSpelled.plain)

  length-encode_words :
      length (encode_words prefix words encoding) ≡ length prefix + length words + 7
  unfolding encode_words
  length-encode_words = omega (
    arith,
    length-append prefix (b'1' ∷ spell (words ++ checksum)),
    data_part-IsSpelled.size,
    length-append words checksum,
  )

  abbrev data_part : Text
  data_part = spell (words ++ checksum)

  abbrev result : DecodeResult
  result = decoded (record { prefix = prefix; words = words })

  length-some : 0 < length prefix
  length-some = go prefix some_prefix
    where
      go : (p : Text) → p ≢ [] → 0 < length p
      go [] h = absurd (h refl)
      go (c ∷ p) h = omega arith

  separated-laid_out :
      separated encoding
        (prefix ++ b'1' ∷ data_part)
        (last_index_of b'1' (prefix ++ b'1' ∷ data_part))
      ≡ result
  unfolding separated encode_words
  separated-laid_out =
      let long : length (prefix ++ b'1' ∷ data_part) ≡ length prefix + length words + 7 =
        length-encode_words in
      let start = length-some in
      let low : ltb (length prefix) 1 ≡ false = ground arith in
      let high : ltb (length (prefix ++ b'1' ∷ data_part)) (length prefix + 7) ≡ false =
        ground arith in
      rw
        (
          last_index_of-append b'1' prefix data_part data_part-IsSpelled.lacks,
          low,
          high,
          take-append prefix (b'1' ∷ data_part),
          drop-append prefix b'1' data_part,
          data_part-IsSpelled.read,
        )
        checked_words_lem

  separated-encode_words :
      (text : Text)
      → text ≡ encode_words prefix words encoding
      → separated encoding text (last_index_of b'1' text) ≡ result
  unfolding encode_words
  separated-encode_words text e = rw e separated-laid_out

  module _ (to_lower : Text → Text)
      (ascii : (t : Text) → All (λ c. c < 128) t → to_lower t ≡ lower_ascii t) where
    -- A text that is made of a prefix and of words below 32 is decoded to them again, in either
    -- encoding: the prefix is not empty, of graphic ASCII characters none of which is a capital, and
    -- has with the words at most 1016 characters; toLowerCase works unit by unit on ASCII.
    pub decode-encode_words :
        length prefix + length words ≤ 1016
        → decode to_lower (encode_words prefix words encoding) encoding ≡ result
    unfolding decode
    decode-encode_words fits =
        let text = encode_words prefix words encoding in
        let long = length-encode_words in
        let start = length-some in
        let lower : to_lower text ≡ text =
          ascii text (plain-ascii text encode_words-All)
          ∙ lower_ascii-plain text encode_words-All in
        let short_ok : ltb (length text) 8 ≡ false = ground arith in
        let long_ok : ltb 1023 (length text) ≡ false = ground arith in
        let upper = any-upper text encode_words-All in
        let graphic = all-graphic text encode_words-All in
        let some_text = is_nonempty-length text (omega arith) in
        rw (lower, short_ok, long_ok, upper, some_text, graphic, and-false (any is_lower text))
          (separated-encode_words text refl)
