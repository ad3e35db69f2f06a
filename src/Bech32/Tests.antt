-- ===== src/Bech32/Tests.antt =====
-- Runs of app/src/lib/bech32.ts on concrete texts.
use web_gui.Base.{
  ◌+◌, ◌*◌, ◌/◌, ◌≤◌, ◌<◌, ◌≡◌, ◌≢◌, refl, [], ◌∷◌, arith, All, length, false, ◌&&◌, any,
}
use web_gui.Text.{codes, index_of}
use web_gui.Bech32.{
  decoded, thrown, checksum_mismatch, mixed_case, separator_position, bech32, bech32m, decode,
  encode_words, separated, checked_words, words_of, last_index_of, polymod, polymod_from,
  polymod_step, mixed, hrp_expand, checksum_of, spell, letters_from, is_lower, is_upper,
}
use web_gui.Bech32.Regroup.{to_words, convertbits, regroup, drained, padding, to_words-length}
use web_gui.Bech32.Layout.{IsPlain, lower_ascii}
use web_gui.Bech32.RoundTrip.{decode-encode_words}
use web_gui.Bech32.Canonical.{encode_words-decode}

run : Unit {0}
unfolding decode encode_words separated checked_words words_of last_index_of polymod polymod_from
    polymod_step mixed hrp_expand checksum_of spell letters_from index_of
run = tt

-- A valid bech32m text of BIP-350.
abcdef :
    decode lower_ascii (codes "A1LQFN3A") bech32m
    ≡ decoded (record { prefix = codes "a"; words = [] })
unfolding run
abcdef = refl

decode_tests :
    (decode lower_ascii (codes "a1lqfn3a") bech32 ≡ thrown checksum_mismatch)
    × (decode lower_ascii (codes "A1lqfn3a") bech32m ≡ thrown mixed_case)
    × (decode lower_ascii (codes "abcdefgh") bech32m ≡ thrown separator_position)
unfolding run
decode_tests = (refl, refl, refl)

mtc_some : codes "mtc" ≢ []
mtc_some = cc

mtc-IsPlain : All IsPlain (codes "mtc")
mtc-IsPlain = ((refl, refl), ((refl, refl), ((refl, refl), tt)))

words_small : All (λ w. w < 32) (1 ∷ 31 ∷ 0 ∷ [])
words_small = (omega arith, (omega arith, (omega arith, tt)))

decode-encode_words_example :
    decode lower_ascii (encode_words (codes "mtc") (1 ∷ 31 ∷ 0 ∷ []) bech32m) bech32m
    ≡ decoded (record { prefix = codes "mtc"; words = 1 ∷ 31 ∷ 0 ∷ [] })
decode-encode_words_example =
    decode-encode_words (codes "mtc") (1 ∷ 31 ∷ 0 ∷ []) bech32m mtc_some mtc-IsPlain words_small
      lower_ascii (λ t h. refl) (omega arith)

encode_words-decode_example :
    (encode_words (codes "a") [] bech32m ≡ lower_ascii (codes "A1LQFN3A"))
    × ((8 ≤ length (codes "A1LQFN3A"))
        × ((length (codes "A1LQFN3A") ≤ 1023)
            × ((any is_lower (codes "A1LQFN3A") && any is_upper (codes "A1LQFN3A")) ≡ false)))
encode_words-decode_example = encode_words-decode lower_ascii (codes "A1LQFN3A") bech32m abcdef

words_of_bytes : to_words (255 ∷ 0 ∷ []) ≡ 31 ∷ 28 ∷ 0 ∷ 0 ∷ []
unfolding to_words convertbits regroup drained padding
words_of_bytes = refl

to_words-length_example :
    (length (to_words (255 ∷ 0 ∷ [])) ≡ (8 * 2 + 4) / 5)
    × All (λ w. w < 32) (to_words (255 ∷ 0 ∷ []))
to_words-length_example = to_words-length (255 ∷ 0 ∷ [])
