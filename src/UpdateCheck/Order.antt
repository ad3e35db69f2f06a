-- ===== src/UpdateCheck/Order.antt =====
-- The order of versions of app/src/lib/update-check.ts.
use web_gui.Base.{ℕ, ◌≡◌, refl, sym, true, false, List, [], ◌∷◌, Option, none, some, arith}
use web_gui.Text.{Text, text_eq, text_eq_iff, is_nonempty}
use web_gui.UpdateCheck.{
  Comparison, less, same, greater, and_then, compare_numbers, compare_cores, text_less, rc_number,
  compare_texts, compare_rcs, compare_pres, compare_versions, core_of, pre_of,
}

abbrev pub flip : Comparison → Comparison
flip less = greater
flip same = same
flip greater = less

flip-and_then : (c d : Comparison) → flip (and_then c d) ≡ and_then (flip c) (flip d)
flip-and_then less d = refl
flip-and_then same d = refl
flip-and_then greater d = refl

flip-compare_numbers : (x y : Option ℕ) → compare_numbers x y ≡ flip (compare_numbers y x)
flip-compare_numbers none none = refl
flip-compare_numbers none (some y) = refl
flip-compare_numbers (some x) none = refl
flip-compare_numbers (some x) (some y) = ground arith

flip-both :
    (c c' d d' : Comparison) → c ≡ flip c' → d ≡ flip d' → and_then c d ≡ flip (and_then c' d')
flip-both c c' d d' e f = rw (e, f) (sym (flip-and_then c' d'))

module _ (number_of : Text → Option ℕ) where
  flip-compare_cores :
      (xs ys : List Text) → compare_cores number_of xs ys ≡ flip (compare_cores number_of ys xs)
  unfolding compare_cores
  flip-compare_cores [] [] = refl
  flip-compare_cores (x ∷ xs) [] =
      flip-both _ _ _ _ (flip-compare_numbers (number_of x) (some 0)) (flip-compare_cores xs [])
  flip-compare_cores [] (y ∷ ys) =
      flip-both _ _ _ _ (flip-compare_numbers (some 0) (number_of y)) (flip-compare_cores [] ys)
  flip-compare_cores (x ∷ xs) (y ∷ ys) =
      flip-both _ _ _ _ (flip-compare_numbers (number_of x) (number_of y))
        (flip-compare_cores xs ys)

text_less-asym : (a b : Text) → text_less a b ≡ true → text_less b a ≡ false
unfolding text_less
text_less-asym a [] h = absurd (ground arith)
text_less-asym [] (d ∷ b) h = refl
text_less-asym (c ∷ a) (d ∷ b) h = ground (arith, text_less-asym a b)

flip-compare_texts : (a b : Text) → compare_texts a b ≡ flip (compare_texts b a)
flip-compare_texts a b = ground (arith, text_less-asym a b)

flip-compare_rcs :
    (x y : Option ℕ) (c d : Comparison) → c ≡ flip d → compare_rcs x y c ≡ flip (compare_rcs y x d)
flip-compare_rcs none none c d e = e
flip-compare_rcs none (some y) c d e = e
flip-compare_rcs (some x) none c d e = e
flip-compare_rcs (some x) (some y) c d e = flip-compare_numbers (some x) (some y)

nonempty-ne : (a b : Text) → is_nonempty a ≡ false → is_nonempty b ≡ false → text_eq a b ≡ true
unfolding text_eq
nonempty-ne [] [] h k = refl
nonempty-ne (c ∷ a) b h k = absurd (ground arith)
nonempty-ne [] (d ∷ b) h k = absurd (ground arith)

text_eq-swap : (a b : Text) → text_eq a b ≡ text_eq b a
text_eq-swap a b = ground (arith, text_eq_iff a b, text_eq_iff b a)

flip-compare_pres : (a b : Text) → compare_pres a b ≡ flip (compare_pres b a)
unfolding compare_pres
flip-compare_pres a b = ground (
  arith,
  text_eq-swap a b,
  nonempty-ne a b,
  flip-compare_rcs (rc_number a) (rc_number b) _ _ (flip-compare_texts a b),
)

-- Comparing two versions the other way round gives the opposite answer.
pub flip-compare_versions :
    (number_of : Text → Option ℕ) (a b : Text)
    → compare_versions number_of a b ≡ flip (compare_versions number_of b a)
unfolding compare_versions
flip-compare_versions number_of a b =
    flip-both _ _ _ _ (flip-compare_cores number_of (core_of a) (core_of b))
      (flip-compare_pres (pre_of a) (pre_of b))
