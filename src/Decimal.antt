-- ===== src/Decimal.antt =====
-- app/src/lib/decimal.ts: exact decimal strings. A BigInt is a natural number beside its sign.
pub mod Zeros
pub mod Render
pub mod Format
pub mod Exact
mod Tests
use web_gui.Base.{
  ℕ, xor, ◌+◌, ◌-◌, ◌*◌, ◌/◌, ◌%◌, ◌^◌, Bool, true, false, not, ◌&&◌, ◌||◌, List, [], ◌∷◌, ◌++◌,
  Option, none, some, ◌==◌, leb, ltb, if◌then◌else◌, length, take, drop, all,
}
use web_gui.Base.Int.{ℤ, pos, negsuc}
use web_gui.Text.{Text, codes, text_eq, trim, is_digit, is_nonempty, pad_start}
use web_gui.Text.Digits.{show, value_from}

pub record Decimal : Type 0 where
  pub neg : Bool
  -- the digits without the decimal point
  pub unscaled : ℕ
  -- the number of fraction digits
  pub scale : ℕ

-- The text before the first point, and the text behind it if there is one.
unfoldable pub split_point : Text → Text × Option Text
split_point [] = ([], none)
split_point (c ∷ s) =
    let (before, behind) = split_point s in if c == b'.' then ([], some s) else (c ∷ before, behind)

-- `\d+` on a whole part
abbrev pub is_digits : Text → Bool
is_digits s = is_nonempty s && all is_digit s

-- The rest of parseDecimal once the sign is off: `\d+(\.\d+)?`.
unfoldable pub parse_parts : Bool → Text × Option Text → Option Decimal
parse_parts neg (whole, none) =
    let unscaled = value_from 0 whole in
    if is_digits whole
    then some (record { neg = neg && not (unscaled == 0); unscaled = unscaled; scale = 0 })
    else none
parse_parts neg (whole, some fraction) =
    let unscaled = value_from 0 (whole ++ fraction) in
    if is_digits whole && is_digits fraction
    then some
        (record { neg = neg && not (unscaled == 0); unscaled = unscaled; scale = length fraction })
    else none

unfoldable pub parse_signed : Text → Option Decimal
unfolding split_point
parse_signed [] = none
parse_signed (c ∷ s) =
    if c == b'-' then parse_parts true (split_point s) else parse_parts false (split_point (c ∷ s))

unfoldable pub parse_decimal : Text → Option Decimal
parse_decimal raw = parse_signed (trim raw)

-- The sign of a printed number.
abbrev pub sign : Bool → Text
sign true = b'-' ∷ []
sign false = []

-- The digits with enough zeros in front for a digit before the point.
pub padded : ℕ → Text → Text
padded scale digits = if leb (length digits) scale then pad_start (scale + 1) digits else digits

-- The point put `scale` digits from the end.
pub pointed : ℕ → Text → Text
pointed scale digits =
    if scale == 0
    then digits
    else let full = padded scale digits in
      let cut = length full - scale in take cut full ++ (b'.' ∷ drop cut full)

unfoldable pub format_unscaled : Decimal → Text
format_unscaled v =
    if v.unscaled == 0 then codes "0" else sign v.neg ++ pointed v.scale (show v.unscaled)

-- `s.replace(/c+$/, '')` for a character `c`
unfoldable pub drop_trailing : ℕ → Text → Text
drop_trailing c [] = []
drop_trailing c (d ∷ s) =
    let rest = drop_trailing c s in if (d == c) && not (is_nonempty rest) then [] else d ∷ rest

-- `s.replace(/\.$/, '')`
unfoldable pub drop_point : Text → Text
drop_point [] = []
drop_point (d ∷ s) = if (d == b'.') && not (is_nonempty s) then [] else d ∷ drop_point s

unfoldable pub has_point : Text → Bool
has_point [] = false
has_point (c ∷ s) = (c == b'.') || has_point s

pub zero_if_bare : Text → Text
zero_if_bare s =
    if not (is_nonempty s) || text_eq s (codes "-") || text_eq s (codes "-0") then codes "0" else s

unfoldable pub trim_trailing_zeros : Text → Text
trim_trailing_zeros s =
    if not (has_point s) then s else zero_if_bare (drop_point (drop_trailing b'0' s))

abbrev pub product : Decimal → Decimal → Decimal
product a b = record {
  neg = xor a.neg b.neg;
  unscaled = a.unscaled * b.unscaled;
  scale = a.scale + b.scale;
}

pub mul_parsed : Option Decimal → Option Decimal → Option Text
mul_parsed (some a) (some b) = some (trim_trailing_zeros (format_unscaled (product a b)))
mul_parsed _ _ = none

unfoldable pub mul_decimal : Text → Text → Option Text
mul_decimal a b = mul_parsed (parse_decimal a) (parse_decimal b)

-- `num / den`, and one more if twice the remainder reaches `den`.
abbrev pub rounded : ℕ → ℕ → ℕ
rounded num den = if leb den (num % den * 2) then num / den + 1 else num / den

abbrev pub quotient : Decimal → Decimal → ℕ → Decimal
quotient a b max_scale = record {
  neg = xor a.neg b.neg;
  unscaled = rounded (a.unscaled * 10 ^ (b.scale + max_scale)) (b.unscaled * 10 ^ a.scale);
  scale = max_scale;
}

pub div_parsed : Option Decimal → Option Decimal → ℤ → Option Text
div_parsed (some a) (some b) (pos max_scale) =
    if b.unscaled == 0
    then none
    else some (trim_trailing_zeros (format_unscaled (quotient a b max_scale)))
div_parsed _ _ _ = none

-- `maxScale` is 8 where a caller leaves it out.
unfoldable pub div_decimal : Text → Text → ℤ → Option Text
div_decimal a b max_scale = div_parsed (parse_decimal a) (parse_decimal b) max_scale
