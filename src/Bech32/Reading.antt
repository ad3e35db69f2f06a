-- ===== src/Bech32/Reading.antt =====
-- What decode (app/src/lib/bech32.ts) reads of a text: the separator and the letters behind it.
use web_gui.Base.{
  ℕ, zero, suc, ◌<◌, ◌≡◌, refl, sym, ap, subst, List, [], ◌∷◌, ◌++◌, Option, none, some, arith,
  ◌==◌, All, length, take, drop, inl, inr, Bool-cases, Option-cases,
}
use web_gui.Text.{Text, index_of, index_of-some}
use web_gui.Bech32.{words_of, both, spell, letters_from, charset, last_index_of}

letters_from-take : (cs : Text) (w : ℕ) → letters_from cs w ≡ take 1 (drop w cs)
unfolding letters_from
letters_from-take [] zero = refl
letters_from-take [] (suc w) = refl
letters_from-take (c ∷ cs) zero = refl
letters_from-take (c ∷ cs) (suc w) = letters_from-take cs w

-- What reading a data part gives.
pub record IsRead (s : Text) (ws : List ℕ) : Type 0 where
  pub spelled : spell ws ≡ s
  pub small : All (λ w. w < 32) ws
  pub size : length ws ≡ length s

both-some :
    (o : Option ℕ) (p : Option (List ℕ)) {ws : List ℕ}
    → both o p ≡ some ws
    → (w : ℕ) × ((vs : List ℕ) × ((o ≡ some w) × ((p ≡ some vs) × (ws ≡ w ∷ vs))))
both-some none p h = absurd (ground arith)
both-some (some w) none h = absurd (ground arith)
both-some (some w) (some vs) h = (w, (vs, (refl, (refl, ground arith))))

pub words_of-IsRead : (s : Text) {ws : List ℕ} → words_of s ≡ some ws → IsRead s ws
unfolding words_of spell
words_of-IsRead [] {ws} h =
    let e : [] ≡ ws = ground arith in
    subst (IsRead []) e (record { spelled = refl; small = tt; size = refl })
words_of-IsRead (c ∷ s) {ws} h =
    let (w, (vs, (found, (rest, e)))) = both-some (index_of c charset) (words_of s) h in
    let (low, unit) = index_of-some c charset found in
    let r = words_of-IsRead s rest in
    subst (IsRead (c ∷ s)) (sym e) (record {
      spelled = rw (letters_from-take charset w, unit, r.spelled) refl;
      small = (low, r.small);
      size = ap suc r.size;
    })

pub last_index_of-cut :
    (c : ℕ) (s : Text) {i : ℕ} → last_index_of c s ≡ some i → s ≡ take i s ++ c ∷ drop (suc i) s
unfolding last_index_of
last_index_of-cut c [] h = absurd (ground arith)
last_index_of-cut c (d ∷ s) {i} h = elim (Option-cases (last_index_of c s)) [
  | inr (k, e) ↦
      let same : i ≡ suc k = ground arith in
      subst (λ i. d ∷ s ≡ take i (d ∷ s) ++ c ∷ drop (suc i) (d ∷ s)) (sym same)
        (ap (λ r. d ∷ r) (last_index_of-cut c s e))
  | inl e ↦ elim (Bool-cases (d == c)) [
    | inl t ↦
        let same : i ≡ 0 = ground arith in
        let unit : d ≡ c = ground arith in rw same (ap (λ d. d ∷ s) unit)
    | inr f ↦ absurd (ground arith)
  ]
]
