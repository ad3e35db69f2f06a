-- ===== src/Decimal/Exact.antt =====
-- The results of mulDecimal and divDecimal as numbers.
use web_gui.Base.{
  ℕ, zero, suc, ◌+◌, ◌*◌, ◌/◌, ◌%◌, ◌^◌, ◌≤◌, ◌<◌, ◌≡◌, refl, ◌≢◌, ◌∙◌, sym, ap, ◌⊎◌, ◌↔◌, inl, inr,
  false, not, ◌&&◌, xor, ◌++◌, arith, ◌==◌, leb, length, Bool-cases, none, some,
}
use native.Mathlib.Nat.{pow-suc, pow-zero, div-add-mod, mod-lt, mul-pos}
use web_gui.Base.Int.{pos}
use web_gui.Text.{Text, codes, trim, is_space}
use web_gui.Text.Digits.{value_from, value_from-append}
use web_gui.Decimal.{
  Decimal, parse_decimal, parse_signed, parse_parts, has_point, format_unscaled, drop_trailing,
  trim_trailing_zeros, product, quotient, rounded, mul_parsed, mul_decimal, div_parsed, div_decimal,
}
use web_gui.Decimal.Format.{format_unscaled-IsRendered}
use web_gui.Decimal.Zeros.{
  value_from-drop_trailing, value_from-drop_trailing_scaled, drop_trailing-IsDigit,
}
use web_gui.Decimal.Render.{spelled, parse_decimal-render, trim_trailing_zeros-render}

pow_add : (b m k : ℕ) → b ^ (m + k) ≡ b ^ m * b ^ k
pow_add b m zero = let flat : m + 0 ≡ m = omega arith in rw (flat, pow-zero b) (omega arith)
pow_add b m (suc k) =
    let carried : m + suc k ≡ suc (m + k) = omega arith in
    ap (λ (n : ℕ). b ^ n) carried
    ∙ pow-suc b (m + k)
    ∙ omega (arith, ap (λ (t : ℕ). t * b) (pow_add b m k), ap (λ (t : ℕ). b ^ m * t) (pow-suc b k))

-- The number of `v` with its fraction cut to its last digit that is not zero.
pub record IsShortestOf (v d : Decimal) : Type 0 where
  pub sign : d.neg ≡ (v.neg && not (v.unscaled == 0))
  pub number : d.unscaled * 10 ^ v.scale ≡ v.unscaled * 10 ^ d.scale
  pub fits : d.scale ≤ v.scale
  pub shortest : (d.scale ≡ 0) ⊎ (d.unscaled % 10 ≢ 0)

format_unscaled_zero : (v : Decimal) → v.unscaled ≡ 0 → format_unscaled v ≡ codes "0"
unfolding format_unscaled
format_unscaled_zero v z = ground arith

zero_text :
    parse_decimal (trim_trailing_zeros (codes "0"))
    ≡ some (record { neg = false; unscaled = 0; scale = 0 })
unfolding parse_decimal parse_signed parse_parts trim trim_trailing_zeros has_point value_from
    is_space
zero_text = refl

parse-trim-format_unscaled_zero :
    (v : Decimal)
    → v.unscaled ≡ 0
    → (d : Decimal) × (parse_decimal (trim_trailing_zeros (format_unscaled v)) ≡ some d)
      × IsShortestOf v d
parse-trim-format_unscaled_zero v z = (
  record { neg = false; unscaled = 0; scale = 0 },
  ap (λ t. parse_decimal (trim_trailing_zeros t)) (format_unscaled_zero v z) ∙ zero_text,
  record { sign = ground arith; number = omega arith; fits = omega arith; shortest = inl refl },
)

module _ (v : Decimal) (nz : v.unscaled ≢ 0) where
  parse-trim-format_unscaled_nonzero :
      (d : Decimal) × (parse_decimal (trim_trailing_zeros (format_unscaled v)) ≡ some d)
      × IsShortestOf v d
  parse-trim-format_unscaled_nonzero =
      let r = format_unscaled-IsRendered v nz in
      let kept = drop_trailing b'0' r.fraction in
      let start = value_from 0 r.whole in
      let (k, scaled, long) = value_from-drop_trailing_scaled start r.fraction in
      let split = value_from-append r.whole r.fraction 0 in
      let split' = value_from-append r.whole kept 0 in
      let n = value_from 0 (r.whole ++ kept) in
      let whole_number : n * 10 ^ k ≡ v.unscaled =
        ap (λ (t : ℕ). t * 10 ^ k) split' ∙ sym scaled ∙ sym split ∙ r.value in
      let n_nz : n ≢ 0 = λ e. nz (sym whole_number ∙ ap (λ (t : ℕ). t * 10 ^ k) e ∙ omega arith) in
      (
        spelled v.neg r.whole kept,
        ap (λ t. parse_decimal (trim_trailing_zeros t)) r.same
            ∙ ap parse_decimal (
                trim_trailing_zeros-render v.neg r.whole r.fraction r.some_whole r.whole_digits
                  r.fraction_digits n_nz)
            ∙ parse_decimal-render v.neg r.whole kept r.some_whole r.whole_digits
                (drop_trailing-IsDigit b'0' r.fraction r.fraction_digits),
        record {
          sign = ground arith;
          number =
              ap (λ (e : ℕ). n * 10 ^ e) (sym r.scale ∙ long)
              ∙ ap (λ (t : ℕ). n * t) (pow_add 10 (length kept) k)
              ∙ omega (arith, ap (λ (t : ℕ). t * 10 ^ length kept) whole_number);
          fits = omega (arith, r.scale);
          shortest = elim (value_from-drop_trailing start r.fraction r.fraction_digits) [
            | inl e ↦ inl (ap length e)
            | inr odd ↦ inr (rw split' odd)
          ];
        },
      )

parse-trim-format_unscaled :
    (v : Decimal)
    → (d : Decimal) × (parse_decimal (trim_trailing_zeros (format_unscaled v)) ≡ some d)
      × IsShortestOf v d
parse-trim-format_unscaled v = elim (Bool-cases (v.unscaled == 0)) [
  | inl z ↦ parse-trim-format_unscaled_zero v (ground arith)
  | inr nz ↦ parse-trim-format_unscaled_nonzero v (λ e. absurd (ground arith))
]

-- The product of two decimal texts is a decimal text again, and it denotes the exact product: its
-- number is the product of the numbers, its sign is minus exactly if the signs differ and the
-- product is not zero, its fraction is no longer than the two fractions together, and it is empty or
-- ends in a digit that is not zero.
pub mul_decimal_exact :
    (a b : Text) {x y : Decimal}
    → parse_decimal a ≡ some x
    → parse_decimal b ≡ some y
    → (text : Text) × (mul_decimal a b ≡ some text)
      × ((d : Decimal) × ((parse_decimal text ≡ some d)
            × IsShortestOf
                (record {
                  neg = xor x.neg y.neg;
                  unscaled = x.unscaled * y.unscaled;
                  scale = x.scale + y.scale;
                })
                d))
unfolding mul_decimal mul_parsed
mul_decimal_exact a b {x} {y} h k =
    let (d, read, exact) = parse-trim-format_unscaled (product x y) in
    (trim_trailing_zeros (format_unscaled (product x y)), rw (h, k), (d, (read, exact)))

-- A product has no result exactly if one of the texts is no plain decimal.
pub mul_decimal-eq-none_iff :
    (a b : Text) → (mul_decimal a b ≡ none) ↔ ((parse_decimal a ≡ none) ⊎ (parse_decimal b ≡ none))
unfolding mul_decimal mul_parsed
mul_decimal-eq-none_iff a b = ground arith

-- A quotient that is rounded half up is within half a unit of its last place.
pub record IsHalfUp (num den q : ℕ) : Type 0 where
  pub above : 2 * num < (2 * q + 1) * den
  pub below : (2 * q) * den ≤ 2 * num + den

IsHalfUp-above :
    (num den q r : ℕ) → den * q + r ≡ num → r < den → den ≤ r * 2 → IsHalfUp num den (q + 1)
IsHalfUp-above num den q r e h le = record { above = omega arith; below = omega arith }

IsHalfUp-below : (num den q r : ℕ) → den * q + r ≡ num → r < den → r * 2 < den → IsHalfUp num den q
IsHalfUp-below num den q r e h lt = record { above = omega arith; below = omega arith }

rounded-IsHalfUp : (num den : ℕ) → den ≢ 0 → IsHalfUp num den (rounded num den)
rounded-IsHalfUp num den nz =
    let split = div-add-mod num den in
    let small = mod-lt num {m = den} (omega arith) in
    elim (Bool-cases (leb den (num % den * 2))) [
      | inl up ↦ rw up (IsHalfUp-above num den (num / den) (num % den) split small (ground arith))
      | inr down ↦
          rw down (IsHalfUp-below num den (num / den) (num % den) split small (ground arith))
    ]

pow-pos : (k : ℕ) → 0 < 10 ^ k
pow-pos zero = omega arith
pow-pos (suc k) = omega (arith, pow-pos k, pow-suc 10 k)

-- The quotient of two decimal texts, with `max_scale` fraction digits, is a decimal text that denotes
-- the exact quotient rounded to the nearest multiple of the last place, halves upwards: with the
-- exact quotient being num / den in units of that place, the unit count is within half a unit of it.
-- A quotient by zero has no result.
pub div_decimal_rounded :
    (a b : Text) (max_scale : ℕ) {x y : Decimal}
    → parse_decimal a ≡ some x
    → parse_decimal b ≡ some y
    → ((y.unscaled ≡ 0) × (div_decimal a b (pos max_scale) ≡ none))
      ⊎ ((text : Text) × ((div_decimal a b (pos max_scale) ≡ some text)
            × ((q : ℕ) × ((d : Decimal) × ((parse_decimal text ≡ some d)
                    × (IsShortestOf
                          (record { neg = xor x.neg y.neg; unscaled = q; scale = max_scale })
                          d
                        × IsHalfUp
                            (x.unscaled * 10 ^ (y.scale + max_scale))
                            (y.unscaled * 10 ^ x.scale)
                            q))))))
unfolding div_decimal div_parsed
div_decimal_rounded a b max_scale {x} {y} h k = elim (Bool-cases (y.unscaled == 0)) [
  | inl z ↦ inl (ground arith, rw (h, k, z))
  | inr nz ↦
      let (d, read, exact) = parse-trim-format_unscaled (quotient x y max_scale) in
      inr (
        trim_trailing_zeros (format_unscaled (quotient x y max_scale)),
        (rw (h, k, nz), (_, (d, (read, (exact, rounded-IsHalfUp _ _ (den_nz nz)))))),
      )
]
  where
    den_nz : (y.unscaled == 0) ≡ false → y.unscaled * 10 ^ x.scale ≢ 0
    den_nz nz e =
        let some_y : 0 < y.unscaled = ground arith in
        absurd (omega (arith, mul-pos some_y (pow-pos x.scale)))
