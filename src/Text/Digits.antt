-- ===== src/Text/Digits.antt =====
-- Decimal numerals: `String(n)` for a non-negative integer and the digits that `parseInt` reads.
use web_gui.Base.{
  ℕ, zero, suc, ◌+◌, ◌-◌, ◌*◌, ◌/◌, ◌%◌, ◌≤◌, ◌<◌, ◌≡◌, refl, ap, ◌≢◌, sym, ◌∙◌, true, false, List,
  [], ◌∷◌, ◌++◌, arith, ltb, Bool-cases, inl, inr, All, ◌^◌, lt→ltb, length, length-append,
}
use native.Mathlib.Nat.{pow-suc}
use mathlib.Core.List.{cons-ne-nil, concat-ne-nil}

-- The fuel bounds the number of digits.
show_fuel : ℕ → ℕ → List ℕ
show_fuel zero n = []
show_fuel (suc f) n = elim (ltb n 10) [
  | true ↦ (b'0' + n) ∷ []
  | false ↦ show_fuel f (n / 10) ++ (b'0' + n % 10) ∷ []
]

unfoldable pub show : ℕ → List ℕ
unfolding show_fuel
show n = show_fuel (suc n) n

-- The number that a run of digits spells behind `acc`.
unfoldable pub value_from : ℕ → List ℕ → ℕ
value_from acc [] = acc
value_from acc (c ∷ s) = value_from (acc * 10 + (c - b'0')) s

abbrev pub IsDigit : ℕ → Type 0
IsDigit c = (b'0' ≤ c) × (c ≤ b'9')

pub value_from-append :
    (s t : List ℕ) (acc : ℕ) → value_from acc (s ++ t) ≡ value_from (value_from acc s) t
unfolding value_from
value_from-append [] t acc = refl
value_from-append (c ∷ s) t acc = value_from-append s t (acc * 10 + (c - b'0'))

value_from-show_fuel : (f n : ℕ) → n < f → value_from 0 (show_fuel f n) ≡ n
unfolding show_fuel value_from
value_from-show_fuel zero n h = elim h [ ]
value_from-show_fuel (suc f) n h = elim (Bool-cases (ltb n 10)) [
  | inl small ↦ rw (small, show_fuel) (omega arith)
  | inr large ↦
      rw (large, show_fuel, value_from-append)
        (rw (value_from-show_fuel f (n / 10) (ground arith)) (omega arith))
]

-- The digits of a number spell it.
pub value_from-show : (n : ℕ) → value_from 0 (show n) ≡ n
unfolding show
value_from-show n = value_from-show_fuel (suc n) n (omega arith)

pub show-injective : (m n : ℕ) → show m ≡ show n → m ≡ n
show-injective m n e = sym (value_from-show m) ∙ ap (value_from 0) e ∙ value_from-show n

All-IsDigit-append : (s t : List ℕ) → All IsDigit s → All IsDigit t → All IsDigit (s ++ t)
All-IsDigit-append [] t _ k = k
All-IsDigit-append (c ∷ s) t (d, h) k = (d, All-IsDigit-append s t h k)

show_fuel-IsDigit : (f n : ℕ) → All IsDigit (show_fuel f n)
unfolding show_fuel
show_fuel-IsDigit zero n = tt
show_fuel-IsDigit (suc f) n = elim (Bool-cases (ltb n 10)) [
  | inl small ↦ rw (small, show_fuel) (ground arith)
  | inr large ↦
      rw (large, show_fuel)
        (All-IsDigit-append (show_fuel f (n / 10)) _ (show_fuel-IsDigit f (n / 10)) (omega arith))
]

pub show-IsDigit : (n : ℕ) → All IsDigit (show n)
unfolding show
show-IsDigit n = show_fuel-IsDigit (suc n) n

pub show-ne-nil : (n : ℕ) → show n ≢ []
unfolding show show_fuel
show-ne-nil n = elim (Bool-cases (ltb n 10)) [
  | inl small ↦ rw (small, show_fuel) (cons-ne-nil _ _)
  | inr large ↦ rw (large, show_fuel) (concat-ne-nil _ _)
]

show_example : show 1048 ≡ b'1' ∷ b'0' ∷ b'4' ∷ b'8' ∷ []
unfolding show
show_example = refl

length-show_fuel : (f k n : ℕ) → n < 10 ^ suc k → length (show_fuel f n) ≤ suc k
unfolding show_fuel
length-show_fuel zero k n h = omega arith
length-show_fuel (suc f) zero n h =
    let small : ltb n 10 ≡ true = lt→ltb n 10 (omega arith) in rw (small, show_fuel) (omega arith)
length-show_fuel (suc f) (suc k) n h = elim (Bool-cases (ltb n 10)) [
  | inl small ↦ rw (small, show_fuel) (omega arith)
  | inr large ↦
      rw (large, show_fuel, length-append)
        (omega (arith, length-show_fuel f k (n / 10) (omega (arith, pow-suc 10 (suc k)))))
]

-- A number below 10 ^ (k + 1) has at most k + 1 digits.
pub length-show : (k n : ℕ) → n < 10 ^ suc k → length (show n) ≤ suc k
unfolding show
length-show k n h = length-show_fuel (suc n) k n h
