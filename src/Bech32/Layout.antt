-- ===== src/Bech32/Layout.antt =====
-- The letters of the data part and the place of the separator (app/src/lib/bech32.ts).
use web_gui.Base.{
  ℕ, zero, suc, ◌+◌, ◌<◌, ◌≡◌, refl, ap, ◌∙◌, Bool, true, false, not, ◌&&◌, List, [], ◌∷◌, ◌++◌,
  inl, inr, Option, none, some, arith, ◌==◌, leb, if◌then◌else◌, All, All-append, length, take,
  drop, all, any,
}
use web_gui.Text.{Text, index_of, lower_unit}
use web_gui.Text.Split.{Lacks}
use web_gui.Bech32.{charset, letters_from, spell, words_of, last_index_of, is_upper, is_graphic}

-- A unit that may stand in a text that is not in upper case.
abbrev pub IsPlain : ℕ → Type 0
IsPlain c = (is_graphic c ≡ true) × (is_upper c ≡ false)

record IsLetter (w : ℕ) : Type 0 where
  unit : ℕ
  same : letters_from charset w ≡ unit ∷ []
  found : index_of unit charset ≡ some w
  plain : IsPlain unit
  data_unit : (unit == b'1') ≡ false

abbrev is_some_of : Option ℕ → ℕ → Bool
is_some_of none w = false
is_some_of (some v) w = v == w

is_letter : ℕ → Text → Bool
is_letter w (c ∷ []) =
    is_some_of (index_of c charset) w && is_graphic c && not (is_upper c) && not (c == b'1')
is_letter w _ = false

all_letters : ℕ → Bool
all_letters zero = true
all_letters (suc n) = is_letter n (letters_from charset n) && all_letters n

all_letters-true : all_letters 32 ≡ true
unfolding all_letters is_letter letters_from index_of
all_letters-true = refl

is_some_of_lem : (o : Option ℕ) (w : ℕ) → is_some_of o w ≡ true → o ≡ some w
is_some_of_lem none w h = absurd (ground arith)
is_some_of_lem (some v) w h = let e : v ≡ w = ground arith in ap some e

is_letter-IsLetter :
    (w : ℕ) (t : Text) → letters_from charset w ≡ t → is_letter w t ≡ true → IsLetter w
unfolding is_letter
is_letter-IsLetter w [] e h = absurd (ground arith)
is_letter-IsLetter w (c ∷ d ∷ t) e h = absurd (ground arith)
is_letter-IsLetter w (c ∷ []) e h = record {
  unit = c;
  same = e;
  found = is_some_of_lem (index_of c charset) w (ground arith);
  plain = (ground arith, ground arith);
  data_unit = ground arith;
}

IsLetter-below : (n w : ℕ) → all_letters n ≡ true → w < n → IsLetter w
unfolding all_letters
IsLetter-below zero w h lt = absurd (omega arith)
IsLetter-below (suc n) w h lt = elim (web_gui.Base.Bool-cases (w == n)) [
  | inl e ↦
      let same : w ≡ n = ground arith in
      is_letter-IsLetter w (letters_from charset w) refl (rw same (ground arith))
  | inr e ↦ IsLetter-below n w (ground arith) (ground arith)
]

letter : (w : ℕ) → w < 32 → IsLetter w
letter w h = IsLetter-below 32 w all_letters-true h

-- The spelled words: as many units, plain, none of them the separator, and read back.
pub record IsSpelled (ws : List ℕ) : Type 0 where
  pub size : length (spell ws) ≡ length ws
  pub plain : All IsPlain (spell ws)
  pub lacks : Lacks b'1' (spell ws)
  pub read : words_of (spell ws) ≡ some ws

pub spell-IsSpelled : (ws : List ℕ) → All (λ w. w < 32) ws → IsSpelled ws
unfolding spell words_of
spell-IsSpelled [] _ = record { size = refl; plain = tt; lacks = tt; read = refl }
spell-IsSpelled (w ∷ ws) (h, hs) =
    let l = letter w h in
    let r = spell-IsSpelled ws hs in
    record {
      size = rw l.same (ap suc r.size);
      plain = rw l.same (l.plain, r.plain);
      lacks = rw l.same (λ e. absurd (ground (arith, l.data_unit)), r.lacks);
      read = rw (l.same, l.found, r.read) refl;
    }

last_index_of-Lacks : (c : ℕ) (d : Text) → Lacks c d → last_index_of c d ≡ none
unfolding last_index_of
last_index_of-Lacks c [] _ = refl
last_index_of-Lacks c (x ∷ d) (h, hs) = rw (last_index_of-Lacks c d hs) (ground arith)

pub last_index_of-append :
    (c : ℕ) (p d : Text) → Lacks c d → last_index_of c (p ++ c ∷ d) ≡ some (length p)
unfolding last_index_of
last_index_of-append c [] d h = rw (last_index_of-Lacks c d h) (ground arith)
last_index_of-append c (x ∷ p) d h = rw (last_index_of-append c p d h) refl

pub take-append : (p q : Text) → take (length p) (p ++ q) ≡ p
take-append [] q = refl
take-append (x ∷ p) q = ap (λ r. x ∷ r) (take-append p q)

pub drop-append : (p : Text) (c : ℕ) (d : Text) → drop (suc (length p)) (p ++ c ∷ d) ≡ d
drop-append [] c d = refl
drop-append (x ∷ p) c d = drop-append p c d

pub all-graphic : (t : Text) → All IsPlain t → all is_graphic t ≡ true
all-graphic [] _ = refl
all-graphic (c ∷ t) ((g, u), h) = rw (g, all-graphic t h) refl

pub any-upper : (t : Text) → All IsPlain t → any is_upper t ≡ false
any-upper [] _ = refl
any-upper (c ∷ t) ((g, u), h) = rw (u, any-upper t h) refl

-- Lower case on ASCII.
abbrev pub lower_ascii : Text → Text
lower_ascii [] = []
lower_ascii (c ∷ t) = lower_unit c ∷ lower_ascii t

pub lower_ascii-plain : (t : Text) → All IsPlain t → lower_ascii t ≡ t
lower_ascii-plain [] _ = refl
lower_ascii-plain (c ∷ t) ((g, u), h) =
    let same : lower_unit c ≡ c = ground arith in rw (same, lower_ascii-plain t h) refl

pub plain-ascii : (t : Text) → All IsPlain t → All (λ c. c < 128) t
plain-ascii [] _ = tt
plain-ascii (c ∷ t) ((g, u), h) = (ground arith, plain-ascii t h)
