-- ===== src/Bech32/Polymod.antt =====
-- How polymod (app/src/lib/bech32.ts) acts on words: a change below the top digits of the state
-- comes out of the following steps as it went in.
use native.Mathlib.Nat.{mod-lt, mod-eq_of_lt}
use web_gui.Base.{
  ℕ, suc, ◌+◌, ◌*◌, ◌/◌, ◌%◌, ◌^◌, ◌<◌, ◌≡◌, refl, sym, ap, ap₂, ◌∙◌, Bool, true, false, List, [],
  ◌∷◌, ◌++◌, arith, ◌==◌, if◌then◌else◌, All, Bool-cases, inl, inr,
}
use web_gui.Base.Bits.{
  bit_and, bit_xor, bit_and_mask, bit_xor_fields, bit_xor-lt, bit_xor_assoc, bit_xor_comm,
  zero-bit_xor, bit_xor-zero,
}
use web_gui.Bech32.{generator, shl, shr, mixed, polymod_step, polymod_from}

bit_xor_swap : (a b c : ℕ) → bit_xor (bit_xor a b) c ≡ bit_xor (bit_xor a c) b
bit_xor_swap a b c =
    bit_xor_assoc a b c ∙ ap (λ t. bit_xor a t) (bit_xor_comm b c) ∙ sym (bit_xor_assoc a c b)

toggled_swap :
    (t : Bool) (g a b : ℕ)
    → (if t then bit_xor a b else bit_xor (bit_xor a b) g)
      ≡ bit_xor (if t then a else bit_xor a g) b
toggled_swap true g a b = refl
toggled_swap false g a b = bit_xor_swap a b g

mixed-bit_xor :
    (top i : ℕ) (gs : List ℕ) (a b : ℕ)
    → mixed top i gs (bit_xor a b) ≡ bit_xor (mixed top i gs a) b
unfolding mixed
mixed-bit_xor top i [] a b = refl
mixed-bit_xor top i (g ∷ gs) a b =
    let t = bit_and (shr top i) 1 == 0 in
    ap (mixed top (suc i) gs) (toggled_swap t g a b)
    ∙ mixed-bit_xor top (suc i) gs (if t then a else bit_xor a g) b

mixed-lt :
    (top i : ℕ) (gs : List ℕ) (a : ℕ)
    → All (λ g. g < 2 ^ 30) gs
    → a < 2 ^ 30
    → mixed top i gs a < 2 ^ 30
unfolding mixed
mixed-lt top i [] a _ h = h
mixed-lt top i (g ∷ gs) a (small, hs) h = elim (Bool-cases (bit_and (shr top i) 1 == 0)) [
  | inl e ↦ rw e (mixed-lt top (suc i) gs a hs h)
  | inr e ↦ rw e (mixed-lt top (suc i) gs (bit_xor a g) hs (bit_xor-lt 30 a g h small))
]

-- The state behind a step on the value 0.
abbrev pub next : ℕ → ℕ
next s = mixed (s / 2 ^ 25) 0 generator (s % 2 ^ 25 * 32)

shifted : (s : ℕ) → shl (bit_and s 0x1ffffff) 5 ≡ s % 2 ^ 25 * 32
shifted s =
    let masked = bit_and_mask 25 s 0x1ffffff refl in
    let small = mod-lt s {m = 2 ^ 25} (omega arith) in
    ap (λ t. shl t 5) masked ∙ mod-eq_of_lt (omega arith)

pub polymod_step-next : (s v : ℕ) → polymod_step s v ≡ bit_xor (next s) v
unfolding polymod_step
polymod_step-next s v =
    ap (λ t. mixed (shr s 25) 0 generator (bit_xor t v)) (shifted s)
    ∙ mixed-bit_xor (s / 2 ^ 25) 0 generator (s % 2 ^ 25 * 32) v

pub next-lt : (s : ℕ) → next s < 2 ^ 30
next-lt s =
    let small = mod-lt s {m = 2 ^ 25} (omega arith) in
    mixed-lt (s / 2 ^ 25) 0 generator (s % 2 ^ 25 * 32)
      (omega arith, (omega arith, (omega arith, (omega arith, (omega arith, tt))))) (omega arith)

split_xor : (s d : ℕ) → d < 2 ^ 25 → bit_xor s d ≡ s / 2 ^ 25 * 2 ^ 25 + bit_xor (s % 2 ^ 25) d
split_xor s d h =
    let small = mod-lt s {m = 2 ^ 25} (omega arith) in
    let same : 0 * 2 ^ 25 + d ≡ d = omega arith in
    let parts : s / 2 ^ 25 * 2 ^ 25 + s % 2 ^ 25 ≡ s = omega arith in
    ap₂ bit_xor (sym parts) (sym same)
    ∙ bit_xor_fields 25 (s / 2 ^ 25) 0 (s % 2 ^ 25) d small h
    ∙ ap (λ (t : ℕ). t * 2 ^ 25 + bit_xor (s % 2 ^ 25) d) (bit_xor-zero (s / 2 ^ 25))

scaled_xor : (a b : ℕ) → bit_xor a b * 32 ≡ bit_xor (a * 32) (b * 32)
scaled_xor a b =
    ground (arith, bit_xor_fields 5 a b 0 0 (omega arith) (omega arith), zero-bit_xor 0)

pub next-bit_xor : (s d : ℕ) → d < 2 ^ 25 → next (bit_xor s d) ≡ bit_xor (next s) (d * 32)
next-bit_xor s d h =
    let low = bit_xor-lt 25 (s % 2 ^ 25) d (mod-lt s (omega arith)) h in
    let cut = split_xor s d h in
    let top : bit_xor s d / 2 ^ 25 ≡ s / 2 ^ 25 = omega arith in
    let rest : bit_xor s d % 2 ^ 25 ≡ bit_xor (s % 2 ^ 25) d = omega arith in
    ap₂ (λ (t r : ℕ). mixed t 0 generator (r * 32)) top rest
    ∙ ap (mixed (s / 2 ^ 25) 0 generator) (scaled_xor (s % 2 ^ 25) d)
    ∙ mixed-bit_xor (s / 2 ^ 25) 0 generator (s % 2 ^ 25 * 32) (d * 32)

-- The number with the words as its digits, behind `d`.
abbrev pub number_from : ℕ → List ℕ → ℕ
number_from d [] = d
number_from d (w ∷ ws) = number_from (d * 32 + w) ws

abbrev pub zeros : List ℕ → List ℕ
zeros [] = []
zeros (w ∷ ws) = 0 ∷ zeros ws

-- The number before each word stays below the top digits.
abbrev pub Fits : ℕ → List ℕ → Type 0
Fits d [] = Unit
Fits d (w ∷ ws) = (w < 32) × ((d < 2 ^ 25) × Fits (d * 32 + w) ws)

polymod_step-bit_xor :
    (s d w : ℕ)
    → d < 2 ^ 25
    → w < 32
    → polymod_step (bit_xor s d) w ≡ bit_xor (polymod_step s 0) (d * 32 + w)
polymod_step-bit_xor s d w h k =
    let joined = bit_xor_fields 5 d 0 0 w (omega arith) k in
    let digits : bit_xor (d * 32) w ≡ d * 32 + w =
      ground (arith, joined, bit_xor-zero d, zero-bit_xor w) in
    polymod_step-next (bit_xor s d) w
    ∙ ap (λ t. bit_xor t w) (next-bit_xor s d h)
    ∙ bit_xor_assoc (next s) (d * 32) w
    ∙ ap₂ bit_xor (sym (polymod_step-next s 0 ∙ bit_xor-zero (next s))) digits

pub polymod_from-bit_xor :
    (ws : List ℕ) (s d : ℕ)
    → Fits d ws
    → polymod_from (bit_xor s d) ws ≡ bit_xor (polymod_from s (zeros ws)) (number_from d ws)
unfolding polymod_from
polymod_from-bit_xor [] s d _ = refl
polymod_from-bit_xor (w ∷ ws) s d (small, (h, fits)) =
    ap (λ t. polymod_from t ws) (polymod_step-bit_xor s d w h small)
    ∙ polymod_from-bit_xor ws (polymod_step s 0) (d * 32 + w) fits

pub polymod_from-append :
    (vs ws : List ℕ) (s : ℕ) → polymod_from s (vs ++ ws) ≡ polymod_from (polymod_from s vs) ws
unfolding polymod_from
polymod_from-append [] ws s = refl
polymod_from-append (v ∷ vs) ws s = polymod_from-append vs ws (polymod_step s v)
