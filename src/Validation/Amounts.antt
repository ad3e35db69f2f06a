-- ===== src/Validation/Amounts.antt =====
-- isValidAmount (app/src/lib/validation.ts) against the decimals of app/src/lib/decimal.ts.
use web_gui.Base.{
  ℕ, suc, ◌+◌, ◌*◌, ◌^◌, ◌≤◌, ◌<◌, ◌≡◌, ◌≢◌, refl, sym, ap, subst, append-nil, length-append, ◌-◌,
  ◌∙◌, true, false, [], ◌∷◌, ◌++◌, Option, none, some, arith, length, all,
}
use native.Mathlib.Nat.{pow-zero, pow-suc, mul-le-mul_right, pow-le-pow_right}
use web_gui.Text.{Text, trim, is_digit}
use web_gui.Text.Digits.{value_from}
use web_gui.Decimal.{Decimal, split_point, is_digits, parse_decimal, parse_signed, parse_parts}
use web_gui.Validation.{positive_parts, amount_parts, is_valid_amount}

-- A positive amount below 10 ^ 38 with at most `max_decimals` digits behind the point.
pub record IsAmount (max_decimals : ℕ) (d : Decimal) : Type 0 where
  pub positive : d.neg ≡ false
  pub some_units : d.unscaled ≢ 0
  pub precision : d.scale ≤ max_decimals
  pub size : d.unscaled < 10 ^ (38 + d.scale)

mul_regroup : (a p : ℕ) → a * (p * 10) ≡ a * 10 * p
mul_regroup a p = omega arith

lt-le : {a b c : ℕ} → a < b → b ≤ c → a < c
lt-le h k = omega arith

value_from-lt :
    (s : Text) (acc : ℕ) → all is_digit s ≡ true → value_from acc s < suc acc * 10 ^ length s
unfolding value_from
value_from-lt [] acc h = omega (arith, pow-zero 10)
value_from-lt (c ∷ s) acc h =
    let digit : c ≤ b'9' = ground arith in
    let rest = value_from-lt s (acc * 10 + (c - b'0')) (ground arith) in
    let grown : suc (acc * 10 + (c - b'0')) * 10 ^ length s ≤ suc acc * 10 * 10 ^ length s =
      mul-le-mul_right (10 ^ length s) (omega arith) in
    let scaled : suc acc * 10 ^ length (c ∷ s) ≡ suc acc * 10 * 10 ^ length s =
      ap (λ (t : ℕ). suc acc * t) (pow-suc 10 (length s)) ∙ mul_regroup (suc acc) (10 ^ length s) in
    subst (λ (t : ℕ). value_from (acc * 10 + (c - b'0')) s < t) (sym scaled) (lt-le rest grown)

all-append :
    (s t : Text) → all is_digit s ≡ true → all is_digit t ≡ true → all is_digit (s ++ t) ≡ true
all-append [] t h k = k
all-append (c ∷ s) t h k = let rest = all-append s t (ground arith) k in ground arith

value_from-digits-lt :
    (whole fraction : Text)
    → length whole ≤ 38
    → all is_digit whole ≡ true
    → all is_digit fraction ≡ true
    → value_from 0 (whole ++ fraction) < 10 ^ (38 + length fraction)
value_from-digits-lt whole fraction h k l =
    let bound = value_from-lt (whole ++ fraction) 0 (all-append whole fraction k l) in
    let long : length (whole ++ fraction) ≤ 38 + length fraction =
      omega (arith, length-append whole fraction) in
    omega (arith, pow-le-pow_right {n = 10} (omega arith) long)

amount_parts-IsAmount :
    (max_decimals : ℕ) (parts : Text × Option Text)
    → amount_parts max_decimals parts ≡ true
    → (d : Decimal) × ((parse_parts false parts ≡ some d) × IsAmount max_decimals d)
unfolding amount_parts positive_parts parse_parts
amount_parts-IsAmount max_decimals (whole, none) h =
    let bound = value_from-digits-lt whole [] (ground arith) (ground arith) refl in
    (
      record { neg = false; unscaled = value_from 0 whole; scale = 0 },
      (
        ground arith,
        record {
          positive = refl;
          some_units = λ e. absurd (ground arith);
          precision = omega arith;
          size = subst (λ s. value_from 0 s < 10 ^ 38) (append-nil whole) bound;
        },
      ),
    )
amount_parts-IsAmount max_decimals (whole, some fraction) h = (
  record { neg = false; unscaled = value_from 0 (whole ++ fraction); scale = length fraction },
  (
    ground arith,
    record {
      positive = refl;
      some_units = λ e. absurd (ground arith);
      precision = ground arith;
      size = value_from-digits-lt whole fraction (ground arith) (ground arith) (ground arith);
    },
  ),
)

parse_signed-digits :
    (s : Text)
    → is_digits (split_point s).0 ≡ true
    → parse_signed s ≡ parse_parts false (split_point s)
unfolding parse_signed split_point
parse_signed-digits [] h = absurd (ground arith)
parse_signed-digits (c ∷ s) h = ground arith

amount_parts-digits :
    (max_decimals : ℕ) (parts : Text × Option Text)
    → amount_parts max_decimals parts ≡ true
    → is_digits parts.0 ≡ true
unfolding amount_parts positive_parts
amount_parts-digits max_decimals (whole, none) h = ground arith
amount_parts-digits max_decimals (whole, some fraction) h = ground arith

-- An amount that is accepted is read by parseDecimal, as a positive number below 10 ^ 38
-- with no more than `max_decimals` digits behind the point.
pub is_valid_amount-IsAmount :
    (value : Text) (max_decimals : ℕ)
    → is_valid_amount value max_decimals ≡ true
    → (d : Decimal) × ((parse_decimal value ≡ some d) × IsAmount max_decimals d)
unfolding is_valid_amount parse_decimal
is_valid_amount-IsAmount value max_decimals h =
    let (d, (read, amount)) = amount_parts-IsAmount max_decimals (split_point (trim value)) h in
    let digits = amount_parts-digits max_decimals (split_point (trim value)) h in
    (d, (parse_signed-digits (trim value) digits ∙ read, amount))
