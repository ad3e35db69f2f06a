-- ===== src/SafeUri/Images.antt =====
-- The inline images that app/src/lib/safe-uri.ts lets through.
use web_gui.Base.{
  ℕ, ◌≡◌, ◌≢◌, ◌≤◌, refl, ap, ◌∙◌, ◌⊎◌, inl, inr, Bool, true, false, List, [], ◌∷◌, ◌++◌, Option,
  none, some, ◌==◌, arith, all, any, All, length, Bool-cases, if◌then◌else◌,
}
use web_gui.Text.{Text, codes, starts_with, contains, lower_unit}
use web_gui.Text.Split.{Lacks}
use web_gui.Params.{is_alphanumeric}
use web_gui.Params.Laws.{IsAlphanumeric, is_alphanumeric-IsAlphanumeric}
use web_gui.SafeUri.{is_subtype_unit, is_subtype, after_prefix, is_image_data}

-- Each unit in lower case.
unfoldable pub lowered : Text → Text
lowered [] = []
lowered (c ∷ s) = lower_unit c ∷ lowered s

-- A letter, a digit or one of `.!#$&^+-_`.
pub data IsSubtypeUnit (c : ℕ) : Type 0 where
  plain : IsAlphanumeric c → IsSubtypeUnit c
  mark : (before after : Text) → codes ".!#$&^+-_" ≡ before ++ c ∷ after → IsSubtypeUnit c

-- `data:image/` in any case, a subtype that is not empty, and `;` or `,` in front of the rest.
pub record IsDataImage (t : Text) : Type 0 where
  pub scheme : Text
  pub is_scheme : lowered scheme ≡ codes "data:image/"
  pub subtype : Text
  pub some_subtype : 1 ≤ length subtype
  pub units : All IsSubtypeUnit subtype
  pub separator : ℕ
  pub separates : (separator ≡ b';') ⊎ (separator ≡ b',')
  pub rest : Text
  pub spelled : t ≡ scheme ++ (subtype ++ separator ∷ rest)

any-split :
    (c : ℕ) (cs : Text)
    → any (λ d. c == d) cs ≡ true
    → (before : Text) × ((after : Text) × (cs ≡ before ++ c ∷ after))
any-split c [] h = absurd (ground arith)
any-split c (d ∷ cs) h = elim (Bool-cases (c == d)) [
  | inl here ↦ let same : d ≡ c = ground arith in ([], (cs, ap (λ x. x ∷ cs) same))
  | inr away ↦
      let (before, (after, same)) = any-split c cs (rw away at h) in
      (d ∷ before, (after, ap (λ x. d ∷ x) same))
]

is_subtype_unit-IsSubtypeUnit : (c : ℕ) → is_subtype_unit c ≡ true → IsSubtypeUnit c
is_subtype_unit-IsSubtypeUnit c h = elim (Bool-cases (is_alphanumeric c)) [
  | inl letter ↦ plain (is_alphanumeric-IsAlphanumeric c letter)
  | inr other ↦
      let (before, (after, same)) = any-split c (codes ".!#$&^+-_") (rw other at h) in
      mark before after same
]

-- The subtype, the separator and what follows.
record Parts (first : Bool) (s : Text) : Type 0 where
  subtype : Text
  long : (if first then 1 else 0) ≤ length subtype
  units : All IsSubtypeUnit subtype
  separator : ℕ
  separates : (separator ≡ b';') ⊎ (separator ≡ b',')
  rest : Text
  spelled : s ≡ subtype ++ separator ∷ rest

is_subtype-Parts : (first : Bool) (s : Text) → is_subtype first s ≡ true → Parts first s
unfolding is_subtype
is_subtype-Parts first [] h = absurd (ground arith)
is_subtype-Parts first (c ∷ s) h = elim (Bool-cases (is_subtype_unit c)) [
  | inl unit ↦
      let p = is_subtype-Parts false s (ground arith) in
      record {
        subtype = c ∷ p.subtype;
        long = ground arith;
        units = (is_subtype_unit-IsSubtypeUnit c unit, p.units);
        separator = p.separator;
        separates = p.separates;
        rest = p.rest;
        spelled = ap (λ x. c ∷ x) p.spelled;
      }
  | inr other ↦ record {
    subtype = [];
    long = ground arith;
    units = tt;
    separator = c;
    separates = elim (Bool-cases (c == b';')) [
      | inl semicolon ↦ inl (ground arith)
      | inr comma ↦ inr (ground arith)
    ];
    rest = s;
    spelled = refl;
  }
]

after_prefix-split :
    (s ps : Text) {rest : Text}
    → after_prefix s ps ≡ some rest
    → (scheme : Text) × ((lowered scheme ≡ ps) × (s ≡ scheme ++ rest))
unfolding after_prefix lowered
after_prefix-split s [] h = ([], (refl, ground arith))
after_prefix-split [] (p ∷ ps) h = absurd (ground arith)
after_prefix-split (c ∷ s) (p ∷ ps) h = elim (Bool-cases (lower_unit c == p)) [
  | inr other ↦ absurd (ground arith)
  | inl same ↦
      let (scheme, (lower, split)) = after_prefix-split s ps (rw same at h) in
      let e : lower_unit c ≡ p = ground arith in
      (c ∷ scheme, (ap (λ x. x ∷ lowered scheme) e ∙ ap (λ x. p ∷ x) lower, ap (λ x. c ∷ x) split))
]

pub is_image_data-IsDataImage : (t : Text) → is_image_data t ≡ true → IsDataImage t
unfolding is_image_data
is_image_data-IsDataImage t h =
    elim (web_gui.Base.Option-cases (after_prefix t (codes "data:image/"))) [
      | inl other ↦ absurd (ground arith)
      | inr (s, e) ↦
          let (scheme, (is_scheme, split)) = after_prefix-split t (codes "data:image/") e in
          let p = is_subtype-Parts true s (rw e at h) in
          record {
            scheme = scheme;
            is_scheme = is_scheme;
            subtype = p.subtype;
            some_subtype = p.long;
            units = p.units;
            separator = p.separator;
            separates = p.separates;
            rest = p.rest;
            spelled = split ∙ ap (λ x. scheme ++ x) p.spelled;
          }
    ]

pub starts_with-split : (t p : Text) → starts_with t p ≡ true → (rest : Text) × (t ≡ p ++ rest)
unfolding starts_with
starts_with-split t [] h = (t, refl)
starts_with-split [] (p ∷ ps) h = absurd (ground arith)
starts_with-split (c ∷ t) (p ∷ ps) h =
    let (rest, same) = starts_with-split t ps (ground arith) in
    let e : c ≡ p = ground arith in (rest, ap (λ x. x ∷ t) e ∙ ap (λ x. p ∷ x) same)

pub contains-Lacks : (c : ℕ) (t : Text) → contains t (c ∷ []) ≡ false → Lacks c t
unfolding contains starts_with
contains-Lacks c [] h = tt
contains-Lacks c (d ∷ t) h = (ground arith, contains-Lacks c t (ground arith))
