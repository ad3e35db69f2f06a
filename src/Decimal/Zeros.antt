-- ===== src/Decimal/Zeros.antt =====
-- Zeros at the end of a fraction and in front of a number.
use native.Mathlib.Nat.{pow-suc}
use web_gui.Base.{
  ℕ, zero, suc, ◌+◌, ◌*◌, ◌^◌, ◌≡◌, refl, ◌≢◌, ◌∙◌, ap, ◌⊎◌, inl, inr, true, false, not, ◌&&◌, [],
  ◌∷◌, ◌++◌, arith, ◌==◌, if◌then◌else◌, length, replicate, All, Bool-cases, ◌%◌, ap₂, subst,
  length-append, length-replicate,
}
use web_gui.Text.{Text, is_nonempty}
use web_gui.Text.Digits.{value_from, value_from-append, IsDigit}
use web_gui.Decimal.{drop_trailing}

-- Trailing zeros multiply by powers of ten.
pub value_from-zeros : (k acc : ℕ) → value_from acc (replicate k b'0') ≡ acc * 10 ^ k
unfolding value_from
value_from-zeros zero acc = omega arith
value_from-zeros (suc k) acc =
    ap (λ n. value_from n (replicate k b'0')) (omega arith)
    ∙ value_from-zeros k (acc * 10)
    ∙ omega (arith, ap (λ (n : ℕ). acc * n) (pow-suc 10 k))

pub value_from_0-zeros : (k : ℕ) (s : Text) → value_from 0 (replicate k b'0' ++ s) ≡ value_from 0 s
value_from_0-zeros k s =
    rw (value_from-append (replicate k b'0') s 0, value_from-zeros k 0)
      (ap (λ n. value_from n s) (omega arith))

-- What is dropped at the end are zeros.
drop_trailing-zeros : (s : Text) → (k : ℕ) × (s ≡ drop_trailing b'0' s ++ replicate k b'0')
unfolding drop_trailing
drop_trailing-zeros [] = (0, refl)
drop_trailing-zeros (d ∷ s) =
    let (k, e) = drop_trailing-zeros s in
    elim (Bool-cases ((d == b'0') && not (is_nonempty (drop_trailing b'0' s)))) [
      | inl dropped ↦
          let empty = nil_of_not (drop_trailing b'0' s) (ground arith) in
          (
            suc k,
            rw dropped
                (ap₂ (λ c r. c ∷ r) (ground arith) (e ∙ ap (λ r. r ++ replicate k b'0') empty)),
          )
      | inr kept ↦ (k, rw kept (ap (λ r. d ∷ r) e))
    ]
  where
    nil_of_not : (r : Text) → not (is_nonempty r) ≡ true → r ≡ []
    nil_of_not [] h = refl
    nil_of_not (c ∷ r) h = cc

pub drop_trailing-append :
    (c : ℕ) (s : Text) (d : ℕ) (t : Text)
    → d ≢ c
    → drop_trailing c (s ++ d ∷ t) ≡ s ++ d ∷ drop_trailing c t
unfolding drop_trailing
drop_trailing-append c [] d t h = ground arith
drop_trailing-append c (e ∷ s) d t h =
    rw (drop_trailing-append c s d t h, nonempty-append s) (ground arith)
  where
    nonempty-append : (s : Text) → is_nonempty (s ++ d ∷ drop_trailing c t) ≡ true
    nonempty-append [] = refl
    nonempty-append (e ∷ s) = refl

pub drop_trailing-IsDigit : (c : ℕ) (s : Text) → All IsDigit s → All IsDigit (drop_trailing c s)
unfolding drop_trailing
drop_trailing-IsDigit c [] h = tt
drop_trailing-IsDigit c (d ∷ s) (p, h) = ground (arith, drop_trailing-IsDigit c s h)

-- What is left is empty or ends in a digit that is not zero.
EndsNonzero : Text → Type 0
EndsNonzero s = (s ≡ []) ⊎ ((u : Text) × ((d : ℕ) × ((s ≡ u ++ d ∷ []) × (d ≢ b'0'))))

drop_trailing-EndsNonzero : (s : Text) → EndsNonzero (drop_trailing b'0' s)
unfolding drop_trailing EndsNonzero
drop_trailing-EndsNonzero [] = inl refl
drop_trailing-EndsNonzero (d ∷ s) = go (drop_trailing b'0' s) (drop_trailing-EndsNonzero s)
  where
    go :
        (r : Text)
        → EndsNonzero r
        → EndsNonzero (if (d == b'0') && not (is_nonempty r) then [] else d ∷ r)
    go [] h = elim (Bool-cases (d == b'0')) [
      | inl z ↦ rw z (inl refl)
      | inr nz ↦ rw nz (inr ([], (d, (refl, ground arith))))
    ]
    go (c ∷ r) (inl e) = absurd (cc)
    go (c ∷ r) (inr (u, (x, (e, nz)))) =
        let keep : ((d == b'0') && false) ≡ false = ground arith in
        rw keep (inr (d ∷ u, (x, (ap (λ t. d ∷ t) e, nz))))

-- A number that ends in such a digit is no multiple of ten.
pub value_from-drop_trailing :
    (acc : ℕ) (s : Text)
    → All IsDigit s
    → (drop_trailing b'0' s ≡ []) ⊎ (value_from acc (drop_trailing b'0' s) % 10 ≢ 0)
unfolding EndsNonzero value_from
value_from-drop_trailing acc s h = elim (drop_trailing-EndsNonzero s) [
  | inl e ↦ inl e
  | inr (u, (d, (e, nz))) ↦ inr (
      rw (e, value_from-append u (d ∷ []) acc)
        (last_digit (value_from acc u) d nz
          (digit_of_append u d (subst (All IsDigit) e (drop_trailing-IsDigit b'0' s h)))))
]
  where
    digit_of_append : (u : Text) (d : ℕ) → All IsDigit (u ++ d ∷ []) → IsDigit d
    digit_of_append [] d (p, _) = p
    digit_of_append (c ∷ u) d (_, h) = digit_of_append u d h

    last_digit : (n d : ℕ) → d ≢ b'0' → IsDigit d → value_from n (d ∷ []) % 10 ≢ 0
    last_digit n d nz p = λ z. nz (omega arith)

-- Dropping zeros divides the number and the scale alike.
pub value_from-drop_trailing_scaled :
    (acc : ℕ) (s : Text)
    → (k : ℕ) × (value_from acc s ≡ value_from acc (drop_trailing b'0' s) * 10 ^ k)
      × (length s ≡ length (drop_trailing b'0' s) + k)
value_from-drop_trailing_scaled acc s =
    let (k, e) = drop_trailing-zeros s in
    let r = drop_trailing b'0' s in
    (
      k,
      ap (value_from acc) e ∙ value_from-append r (replicate k b'0') acc ∙ value_from-zeros k _,
      ap length e
          ∙ length-append r (replicate k b'0')
          ∙ ap (λ n. length r + n) (length-replicate {A = ℕ} k b'0'),
    )
