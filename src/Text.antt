-- ===== src/Text.antt =====
-- Strings of the program as lists of UTF-16 code units, with the string methods that the modelled
-- code calls: ===, trim, startsWith, endsWith, indexOf, slice, toString of a number, parseInt.
pub mod Digits
pub mod Split
pub mod ParseInt
use Prim.Native.Char.{code}
use Prim.Native.String.{String}
use web_gui.Base.{
  ℕ, ◌+◌, ◌-◌, ◌≡◌, refl, ◌↔◌, Bool, true, false, ◌&&◌, ◌||◌, List, [], ◌∷◌, ◌++◌, Option, none,
  some, arith, ◌==◌, leb, ltb, if◌then◌else◌, length, replicate, take, drop, ap, subst, suc, ◌≤◌,
  ◌<◌, Bool-cases, inl, inr,
}

abbrev pub Text : Type 0
Text = List ℕ

-- The code units of an ASCII literal.
abbrev pub codes : String → Text
codes String.[] = []
codes (String.◌∷◌ c s) = code c ∷ codes s

-- `a === b` on strings.
unfoldable pub text_eq : Text → Text → Bool
text_eq [] [] = true
text_eq [] (y ∷ ys) = false
text_eq (x ∷ xs) [] = false
text_eq (x ∷ xs) (y ∷ ys) = (x == y) && text_eq xs ys

pub text_eq_refl : (a : Text) → text_eq a a ≡ true
unfolding text_eq
text_eq_refl [] = refl
text_eq_refl (x ∷ xs) = ground (arith, text_eq_refl xs)

pub eq_of_text_eq : (a b : Text) → text_eq a b ≡ true → a ≡ b
unfolding text_eq
eq_of_text_eq [] [] h = refl
eq_of_text_eq [] (y ∷ ys) h = cc
eq_of_text_eq (x ∷ xs) [] h = cc
eq_of_text_eq (x ∷ xs) (y ∷ ys) h = ground (arith, eq_of_text_eq xs ys)

pub text_eq_iff : (a b : Text) → (text_eq a b ≡ true) ↔ (a ≡ b)
text_eq_iff a b =
    (eq_of_text_eq a b, λ e. web_gui.Base.subst (λ x. text_eq a x ≡ true) e (text_eq_refl a))

-- The white space and line terminators that `trim` strips (ECMAScript WhiteSpace, LineTerminator).
unfoldable pub is_space : ℕ → Bool
is_space c =
    (leb 9 c && leb c 13)
    || (c == 32)
    || (c == 0xa0)
    || (c == 0x1680)
    || (leb 0x2000 c && leb c 0x200a)
    || (c == 0x2028)
    || (c == 0x2029)
    || (c == 0x202f)
    || (c == 0x205f)
    || (c == 0x3000)
    || (c == 0xfeff)

unfoldable pub trim_start : Text → Text
unfolding is_space
trim_start [] = []
trim_start (c ∷ s) = if is_space c then trim_start s else c ∷ s

-- A unit is dropped at the end if it is a space and nothing is kept after it.
unfoldable pub keep_end : ℕ → Text → Text
unfolding is_space
keep_end c [] = if is_space c then [] else c ∷ []
keep_end c (d ∷ s) = c ∷ d ∷ s

unfoldable pub trim_end : Text → Text
unfolding keep_end
trim_end [] = []
trim_end (c ∷ s) = keep_end c (trim_end s)

unfoldable pub trim : Text → Text
unfolding trim_start trim_end
trim s = trim_end (trim_start s)

unfoldable pub starts_with : Text → Text → Bool
starts_with s [] = true
starts_with [] (p ∷ ps) = false
starts_with (c ∷ s) (p ∷ ps) = (c == p) && starts_with s ps

-- `s.includes(p)`
unfoldable pub contains : Text → Text → Bool
contains [] p = starts_with [] p
contains (c ∷ s) p = starts_with (c ∷ s) p || contains s p

-- `s.replace(/:$/, '')`
unfoldable pub strip_colon : Text → Text
strip_colon [] = []
strip_colon (c ∷ []) = if c == b':' then [] else c ∷ []
strip_colon (c ∷ d ∷ s) = c ∷ strip_colon (d ∷ s)

abbrev pub is_digit : ℕ → Bool
is_digit c = leb b'0' c && leb c b'9'

-- `/^\d+$/` on a text.
abbrev pub is_nonempty : Text → Bool
is_nonempty [] = false
is_nonempty (c ∷ s) = true

pub trim_example : trim (codes "  a b ") ≡ codes "a b"
unfolding trim
trim_example = refl

-- `s.indexOf(c)` for a character `c`, counted from `i`.
index_from : ℕ → ℕ → Text → Option ℕ
index_from i c [] = none
index_from i c (d ∷ s) = if d == c then some i else index_from (i + 1) c s

unfoldable pub index_of : ℕ → Text → Option ℕ
unfolding index_from
index_of c s = index_from 0 c s

-- Letter case on ASCII; every other unit is left as it is.
abbrev pub upper_unit : ℕ → ℕ
upper_unit c = if leb b'a' c && leb c b'z' then c - 32 else c

abbrev pub lower_unit : ℕ → ℕ
lower_unit c = if leb b'A' c && leb c b'Z' then c + 32 else c

-- `s.padStart(n, '0')`
unfoldable pub pad_start : ℕ → Text → Text
pad_start n s = replicate (n - length s) b'0' ++ s

-- `if (s)` on a string or undefined: the empty string counts as absent.
abbrev pub truthy : Option Text → Option Text
truthy none = none
truthy (some []) = none
truthy (some (c ∷ s)) = some (c ∷ s)

index_from-some :
    (i c : ℕ) (s : Text) {k : ℕ}
    → index_from i c s ≡ some k
    → (i ≤ k) × ((k < i + length s) × (take 1 (drop (k - i) s) ≡ c ∷ []))
unfolding index_from
index_from-some i c [] h = absurd (ground arith)
index_from-some i c (d ∷ s) {k} h = elim (Bool-cases (d == c)) [
  | inl e ↦
      let same : k ≡ i = ground arith in
      let unit : d ≡ c = ground arith in
      let start : k - i ≡ 0 = omega arith in
      (omega arith, (omega arith, rw start (ap (λ d. d ∷ []) unit)))
  | inr e ↦
      let (low, (high, found)) = index_from-some (i + 1) c s {k = k} (ground arith) in
      let next : k - i ≡ suc (k - (i + 1)) = omega arith in
      (omega arith, (omega arith, rw next found))
]

-- The unit is at the index that is found.
pub index_of-some :
    (c : ℕ) (s : Text) {k : ℕ}
    → index_of c s ≡ some k
    → (k < length s) × (take 1 (drop k s) ≡ c ∷ [])
unfolding index_of
index_of-some c s {k} h =
    let (low, (high, found)) = index_from-some 0 c s {k = k} h in
    let same : k - 0 ≡ k = omega arith in
    (omega arith, subst (λ n. take 1 (drop n s) ≡ c ∷ []) same found)
