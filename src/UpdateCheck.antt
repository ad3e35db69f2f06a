-- ===== src/UpdateCheck.antt =====
-- app/src/lib/update-check.ts: the order of versions and the choice of the newest release. `number_of` is
-- Number(part) of a part of a version where that is finite, none otherwise.
pub mod Order
mod Tests
use web_gui.Base.{
  ℕ, ◌+◌, Bool, true, false, not, ◌&&◌, ◌||◌, List, [], ◌∷◌, Option, none, some, ◌==◌, ltb, all,
  take, if◌then◌else◌,
}
use web_gui.Text.{Text, codes, text_eq, is_nonempty, is_digit}
use web_gui.Text.Digits.{value_from}
use web_gui.Text.Split.{split_on}

pub data Comparison : Type 0 where
  less : Comparison
  same : Comparison
  greater : Comparison

abbrev pub and_then : Comparison → Comparison → Comparison
and_then same c = c
and_then less c = less
and_then greater c = greater

unfoldable pub normalize : Text → Text
normalize [] = []
normalize (c ∷ s) = if c == b'v' then s else c ∷ s

abbrev pub compare_numbers : Option ℕ → Option ℕ → Comparison
compare_numbers (some x) (some y) = if x == y then same else if ltb x y then less else greater
compare_numbers _ _ = same

module _ (number_of : Text → Option ℕ) where
  -- The loop over the parts, where a missing one counts as 0.
  unfoldable pub compare_cores : List Text → List Text → Comparison
  compare_cores [] [] = same
  compare_cores (x ∷ xs) [] =
      and_then (compare_numbers (number_of x) (some 0)) (compare_cores xs [])
  compare_cores [] (y ∷ ys) =
      and_then (compare_numbers (some 0) (number_of y)) (compare_cores [] ys)
  compare_cores (x ∷ xs) (y ∷ ys) =
      and_then (compare_numbers (number_of x) (number_of y)) (compare_cores xs ys)

-- `a < b` on strings
unfoldable pub text_less : Text → Text → Bool
text_less a [] = false
text_less [] (d ∷ b) = true
text_less (c ∷ a) (d ∷ b) = let rest = text_less a b in if c == d then rest else ltb c d

abbrev pub digits_of : Text → Option ℕ
digits_of s = if is_nonempty s && all is_digit s then some (value_from 0 s) else none

-- The number in `/^rc(\d+)$/`.
unfoldable pub rc_number : Text → Option ℕ
rc_number (c ∷ d ∷ s) = if (c == b'r') && (d == b'c') then digits_of s else none
rc_number _ = none

abbrev pub compare_texts : Text → Text → Comparison
compare_texts a b = if text_less a b then less else if text_less b a then greater else same

abbrev pub compare_rcs : Option ℕ → Option ℕ → Comparison → Comparison
compare_rcs (some m) (some n) c = compare_numbers (some m) (some n)
compare_rcs _ _ c = c

unfoldable pub compare_pres : Text → Text → Comparison
compare_pres a b =
    if text_eq a b
    then same
    else if not (is_nonempty a)
    then greater
    else if not (is_nonempty b)
    then less
    else compare_rcs (rc_number a) (rc_number b) (compare_texts a b)

abbrev pub head_of : List Text → Text
head_of [] = []
head_of (p ∷ ps) = p

abbrev pub second_of : List Text → Text
second_of [] = []
second_of (p ∷ ps) = head_of ps

-- `normalize(v).split('-', 2)`
abbrev pub core_of : Text → List Text
core_of v = split_on b'.' (head_of (split_on b'-' (normalize v)))

abbrev pub pre_of : Text → Text
pre_of v = second_of (split_on b'-' (normalize v))

unfoldable pub compare_versions : (Text → Option ℕ) → Text → Text → Comparison
compare_versions number_of a b =
    and_then (compare_cores number_of (core_of a) (core_of b)) (compare_pres (pre_of a) (pre_of b))
