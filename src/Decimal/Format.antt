-- ===== src/Decimal/Format.antt =====
-- The printed form of an unscaled value.
use web_gui.Base.{
  ℕ, ◌+◌, ◌-◌, ◌<◌, ◌≡◌, refl, ◌≢◌, ◌∙◌, ap, inl, inr, Bool, [], ◌∷◌, ◌++◌, arith, ◌==◌, length,
  replicate, take, drop, All, All-append, All-replicate, All-take, All-drop, Bool-cases,
  length-append, length-replicate, length-drop, take-append-drop, take-ne-nil, append-nil,
}
use web_gui.Text.{Text, pad_start}
use web_gui.Text.Digits.{show, value_from, value_from-show, IsDigit, show-IsDigit, show-ne-nil}
use web_gui.Decimal.{Decimal, sign, padded, pointed, format_unscaled}
use web_gui.Decimal.Zeros.{value_from_0-zeros}
use web_gui.Decimal.Render.{render}

-- A printed form of a number that is not zero.
pub record IsRendered (v : Decimal) (text : Text) : Type 0 where
  pub whole : Text
  pub fraction : Text
  pub same : text ≡ render v.neg whole fraction
  pub some_whole : whole ≢ []
  pub whole_digits : All IsDigit whole
  pub fraction_digits : All IsDigit fraction
  pub value : value_from 0 (whole ++ fraction) ≡ v.unscaled
  pub scale : length fraction ≡ v.scale

padded-IsDigit : (scale : ℕ) (s : Text) → All IsDigit s → All IsDigit (padded scale s)
unfolding padded pad_start
padded-IsDigit scale s h = ground (
  arith,
  All-append IsDigit (replicate (scale + 1 - length s) b'0') s
      (All-replicate IsDigit (scale + 1 - length s) b'0' (omega arith)) h,
)

value_from-padded : (scale : ℕ) (s : Text) → value_from 0 (padded scale s) ≡ value_from 0 s
unfolding padded pad_start
value_from-padded scale s = ground (arith, value_from_0-zeros (scale + 1 - length s) s)

length-padded : (scale : ℕ) (s : Text) → scale < length (padded scale s)
unfolding padded pad_start
length-padded scale s = ground (
  arith,
  length-append (replicate (scale + 1 - length s) b'0') s,
  length-replicate {A = ℕ} (scale + 1 - length s) b'0',
)

with_point :
    (neg : Bool) (whole fraction : Text)
    → fraction ≢ []
    → sign neg ++ (whole ++ (b'.' ∷ fraction)) ≡ render neg whole fraction
with_point neg whole [] h = absurd (h refl)
with_point neg whole (c ∷ f) h = refl

pub format_unscaled-IsRendered : (v : Decimal) → v.unscaled ≢ 0 → IsRendered v (format_unscaled v)
unfolding format_unscaled pointed
format_unscaled-IsRendered v nz = elim (Bool-cases (v.scale == 0)) [
  | inl flat ↦ record {
    whole = show v.unscaled;
    fraction = [];
    same = ground arith;
    some_whole = show-ne-nil v.unscaled;
    whole_digits = show-IsDigit v.unscaled;
    fraction_digits = tt;
    value = rw (append-nil (show v.unscaled)) (value_from-show v.unscaled);
    scale = ground arith;
  }
  | inr deep ↦
      let full = padded v.scale (show v.unscaled) in
      let cut = length full - v.scale in
      let long = length-padded v.scale (show v.unscaled) in
      let behind : length (drop cut full) ≡ v.scale = omega (arith, length-drop cut full) in
      let digits = padded-IsDigit v.scale (show v.unscaled) (show-IsDigit v.unscaled) in
      record {
        whole = take cut full;
        fraction = drop cut full;
        same = ground (
          arith,
          with_point v.neg (take cut full) (drop cut full)
              (λ e. absurd (ground (arith, ap length e))),
        );
        some_whole = take-ne-nil cut full (omega arith) (omega arith);
        whole_digits = All-take IsDigit cut full digits;
        fraction_digits = All-drop IsDigit cut full digits;
        value =
            ap (value_from 0) (take-append-drop cut full)
            ∙ value_from-padded v.scale (show v.unscaled)
            ∙ value_from-show v.unscaled;
        scale = behind;
      }
]
