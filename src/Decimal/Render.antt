-- ===== src/Decimal/Render.antt =====
-- Printed decimals: a sign, a whole part and a fraction, and how they are read and trimmed.
use web_gui.Base.{
  ℕ, ◌≡◌, refl, ◌≢◌, ◌∙◌, ap, Bool, true, false, not, ◌&&◌, [], ◌∷◌, ◌++◌, arith, ◌==◌, length, All,
  All-append, append_assoc, append-nil, none, some,
}
use web_gui.Text.{Text, is_nonempty, is_space, trim, trim_start, trim_end, keep_end, text_eq}
use web_gui.Text.Digits.{value_from, IsDigit}
use web_gui.Auth.Totp.Laws.{All-all}
use web_gui.Decimal.{
  Decimal, split_point, parse_parts, parse_signed, parse_decimal, sign, drop_trailing, drop_point,
  has_point, zero_if_bare, trim_trailing_zeros,
}
use web_gui.Decimal.Zeros.{drop_trailing-append, drop_trailing-IsDigit}

-- A printed number; no point stands before an empty fraction.
abbrev pub with_fraction : Text → Text → Text
with_fraction whole [] = whole
with_fraction whole (c ∷ s) = whole ++ (b'.' ∷ c ∷ s)

abbrev pub render : Bool → Text → Text → Text
render neg whole fraction = sign neg ++ with_fraction whole fraction

abbrev NoSpace : Text → Type 0
NoSpace s = All (λ c. is_space c ≡ false) s

is_space_digit : (c : ℕ) → IsDigit c → is_space c ≡ false
unfolding is_space
is_space_digit c h = ground arith

IsDigit-NoSpace : (s : Text) → All IsDigit s → NoSpace s
IsDigit-NoSpace [] h = tt
IsDigit-NoSpace (c ∷ s) (p, h) = (is_space_digit c p, IsDigit-NoSpace s h)

trim_start_lem : (s : Text) → NoSpace s → trim_start s ≡ s
unfolding trim_start
trim_start_lem [] h = refl
trim_start_lem (c ∷ s) (p, h) = rw p

keep_end_lem : (c : ℕ) (s : Text) → is_space c ≡ false → keep_end c s ≡ c ∷ s
unfolding keep_end
keep_end_lem c [] h = rw h
keep_end_lem c (d ∷ s) h = refl

trim_end_lem : (s : Text) → NoSpace s → trim_end s ≡ s
unfolding trim_end
trim_end_lem [] h = refl
trim_end_lem (c ∷ s) (p, h) = ap (keep_end c) (trim_end_lem s h) ∙ keep_end_lem c s p

pub trim_lem : (s : Text) → NoSpace s → trim s ≡ s
unfolding trim
trim_lem s h = ap trim_end (trim_start_lem s h) ∙ trim_end_lem s h

NoSpace-with_fraction :
    (whole fraction : Text)
    → All IsDigit whole
    → All IsDigit fraction
    → NoSpace (with_fraction whole fraction)
NoSpace-with_fraction whole [] h k = IsDigit-NoSpace whole h
NoSpace-with_fraction whole (c ∷ s) h k =
    All-append (λ c. is_space c ≡ false) whole (b'.' ∷ c ∷ s) (IsDigit-NoSpace whole h)
      (unfold is_space in refl, IsDigit-NoSpace (c ∷ s) k)

NoSpace-render :
    (neg : Bool) (whole fraction : Text)
    → All IsDigit whole
    → All IsDigit fraction
    → NoSpace (render neg whole fraction)
NoSpace-render true whole fraction h k =
    (unfold is_space in refl, NoSpace-with_fraction whole fraction h k)
NoSpace-render false whole fraction h k = NoSpace-with_fraction whole fraction h k

split_point_whole : (s : Text) → All IsDigit s → split_point s ≡ (s, none)
unfolding split_point
split_point_whole [] h = refl
split_point_whole (c ∷ s) (p, h) = rw (split_point_whole s h) (ground arith)

split_point-append : (s t : Text) → All IsDigit s → split_point (s ++ (b'.' ∷ t)) ≡ (s, some t)
unfolding split_point
split_point-append [] t h = ground arith
split_point-append (c ∷ s) t (p, h) = rw (split_point-append s t h) (ground arith)

-- The number that digits with a sign, a whole part and a fraction spell.
abbrev pub spelled : Bool → Text → Text → Decimal
spelled neg whole fraction = record {
  neg = neg && not (value_from 0 (whole ++ fraction) == 0);
  unscaled = value_from 0 (whole ++ fraction);
  scale = length fraction;
}

parse_parts-split_point :
    (neg : Bool) (c : ℕ) (w fraction : Text)
    → All IsDigit (c ∷ w)
    → All IsDigit fraction
    → parse_parts neg (split_point (with_fraction (c ∷ w) fraction))
      ≡ some (spelled neg (c ∷ w) fraction)
unfolding parse_parts
parse_parts-split_point neg c w [] h k =
    rw (split_point_whole (c ∷ w) h, All-all (c ∷ w) h, append-nil (c ∷ w))
parse_parts-split_point neg c w (d ∷ s) h k =
    rw (split_point-append (c ∷ w) (d ∷ s) h, All-all (c ∷ w) h, All-all (d ∷ s) k)

parse_signed_digit :
    (c : ℕ) (s : Text) → IsDigit c → parse_signed (c ∷ s) ≡ parse_parts false (split_point (c ∷ s))
unfolding parse_signed
parse_signed_digit c s p = ground arith

-- A printed number is read back.
pub parse_decimal-render :
    (neg : Bool) (whole fraction : Text)
    → whole ≢ []
    → All IsDigit whole
    → All IsDigit fraction
    → parse_decimal (render neg whole fraction) ≡ some (spelled neg whole fraction)
unfolding parse_decimal parse_signed
parse_decimal-render neg [] fraction ne h k = absurd (ne refl)
parse_decimal-render true (c ∷ w) fraction ne h k =
    rw (trim_lem _ (NoSpace-render true (c ∷ w) fraction h k))
      (parse_parts-split_point true c w fraction h k)
parse_decimal-render false (c ∷ w) [] ne h k =
    rw (trim_lem _ (NoSpace-render false (c ∷ w) [] h k), parse_signed_digit c w h.0)
      (parse_parts-split_point false c w [] h k)
parse_decimal-render false (c ∷ w) (d ∷ s) ne h k =
    rw
      (
        trim_lem _ (NoSpace-render false (c ∷ w) (d ∷ s) h k),
        parse_signed_digit c (w ++ (b'.' ∷ d ∷ s)) h.0,
      )
      (parse_parts-split_point false c w (d ∷ s) h k)

has_point-append : (s t : Text) → has_point (s ++ (b'.' ∷ t)) ≡ true
unfolding has_point
has_point-append [] t = refl
has_point-append (c ∷ s) t = rw (has_point-append s t) (ground arith)

has_point_digits : (s : Text) → All IsDigit s → has_point s ≡ false
unfolding has_point
has_point_digits [] h = refl
has_point_digits (c ∷ s) (p, h) = rw (has_point_digits s h) (ground arith)

has_point_whole : (neg : Bool) (s : Text) → All IsDigit s → has_point (sign neg ++ s) ≡ false
unfolding has_point
has_point_whole true s h = has_point_digits s h
has_point_whole false s h = has_point_digits s h

drop_point_digits : (s : Text) → All IsDigit s → drop_point s ≡ s
unfolding drop_point
drop_point_digits [] h = refl
drop_point_digits (c ∷ s) (p, h) = rw (drop_point_digits s h) (ground arith)

drop_point-append : (s t : Text) → All IsDigit t → drop_point (s ++ (b'.' ∷ t)) ≡ with_fraction s t
unfolding drop_point
drop_point-append [] [] h = refl
drop_point-append [] (d ∷ t) h = rw (drop_point_digits (d ∷ t) h)
drop_point-append (c ∷ s) [] h = rw (drop_point-append s [] h, nonempty s) (ground arith)
  where
    nonempty : (s : Text) → is_nonempty (s ++ (b'.' ∷ [])) ≡ true
    nonempty [] = refl
    nonempty (c ∷ s) = refl
drop_point-append (c ∷ s) (d ∷ t) h = rw (drop_point-append s (d ∷ t) h, nonempty s) (ground arith)
  where
    nonempty : (s : Text) → is_nonempty (s ++ (b'.' ∷ d ∷ t)) ≡ true
    nonempty [] = refl
    nonempty (c ∷ s) = refl

with_fraction-append : (s w f : Text) → with_fraction (s ++ w) f ≡ s ++ with_fraction w f
with_fraction-append s w [] = refl
with_fraction-append s w (c ∷ f) = append_assoc s w (b'.' ∷ c ∷ f)

zero_if_bare_lem :
    (neg : Bool) (whole fraction : Text)
    → whole ≢ []
    → All IsDigit whole
    → value_from 0 (whole ++ fraction) ≢ 0
    → zero_if_bare (render neg whole fraction) ≡ render neg whole fraction
unfolding zero_if_bare text_eq value_from
zero_if_bare_lem neg [] fraction ne h v = absurd (ne refl)
zero_if_bare_lem true (c ∷ []) [] ne h v = ground arith
zero_if_bare_lem true (c ∷ []) (d ∷ f) ne h v = ground arith
zero_if_bare_lem true (c ∷ x ∷ w) [] ne h v = ground arith
zero_if_bare_lem true (c ∷ x ∷ w) (d ∷ f) ne h v = ground arith
zero_if_bare_lem false (c ∷ []) [] ne h v = ground arith
zero_if_bare_lem false (c ∷ []) (d ∷ f) ne h v = ground arith
zero_if_bare_lem false (c ∷ x ∷ w) [] ne h v = ground arith
zero_if_bare_lem false (c ∷ x ∷ w) (d ∷ f) ne h v = ground arith

-- Trimming drops the zeros at the end of the fraction, and the point of an empty one.
pub trim_trailing_zeros-render :
    (neg : Bool) (whole fraction : Text)
    → whole ≢ []
    → All IsDigit whole
    → All IsDigit fraction
    → value_from 0 (whole ++ drop_trailing b'0' fraction) ≢ 0
    → trim_trailing_zeros (render neg whole fraction)
      ≡ render neg whole (drop_trailing b'0' fraction)
unfolding trim_trailing_zeros
trim_trailing_zeros-render neg whole [] ne h k v =
    unfold drop_trailing in rw (has_point_whole neg whole h)
trim_trailing_zeros-render neg whole (d ∷ f) ne h k v =
    let kept = drop_trailing b'0' (d ∷ f) in
    rw
      (
        ← append_assoc (sign neg) whole (b'.' ∷ d ∷ f),
        has_point-append (sign neg ++ whole) (d ∷ f),
        drop_trailing-append b'0' (sign neg ++ whole) b'.' (d ∷ f) (omega arith),
        drop_point-append (sign neg ++ whole) kept (drop_trailing-IsDigit b'0' (d ∷ f) k),
        with_fraction-append (sign neg) whole kept,
      )
      (zero_if_bare_lem neg whole kept ne h v)
