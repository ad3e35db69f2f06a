-- ===== src/Text/Split.antt =====
-- `s.split(c)` at a one-character separator, and joining back.
use web_gui.Base.{ℕ, ◌≡◌, refl, ◌≢◌, List, [], ◌∷◌, ◌++◌, arith, ◌==◌, if◌then◌else◌, All}

-- A unit put in front of the first part.
push_head : ℕ → List (List ℕ) → List (List ℕ)
push_head c [] = (c ∷ []) ∷ []
push_head c (p ∷ ps) = (c ∷ p) ∷ ps

unfoldable pub split_on : ℕ → List ℕ → List (List ℕ)
unfolding push_head
split_on sep [] = [] ∷ []
split_on sep (c ∷ s) = let rest = split_on sep s in if c == sep then [] ∷ rest else push_head c rest

-- The text with the separator between the parts.
abbrev pub join_with : ℕ → List (List ℕ) → List ℕ
join_with sep [] = []
join_with sep (p ∷ []) = p
join_with sep (p ∷ q ∷ ps) = p ++ sep ∷ join_with sep (q ∷ ps)

abbrev pub Lacks : ℕ → List ℕ → Type 0
Lacks sep s = All (λ c. c ≢ sep) s

split_on-ne-nil : (sep : ℕ) (s : List ℕ) → split_on sep s ≢ []
unfolding split_on
split_on-ne-nil sep [] = cc
split_on-ne-nil sep (c ∷ s) = go (split_on sep s) (split_on-ne-nil sep s)
  where
    go : (ps : List (List ℕ)) → ps ≢ [] → (if c == sep then [] ∷ ps else push_head c ps) ≢ []
    go [] h = absurd (h refl)
    go (p ∷ ps) h = ground arith

join-push_head :
    (sep c : ℕ) (ps : List (List ℕ))
    → ps ≢ []
    → join_with sep (push_head c ps) ≡ c ∷ join_with sep ps
unfolding push_head
join-push_head sep c [] h = absurd (h refl)
join-push_head sep c (p ∷ []) h = refl
join-push_head sep c (p ∷ q ∷ ps) h = refl

join-nil :
    (sep : ℕ) (ps : List (List ℕ)) → ps ≢ [] → join_with sep ([] ∷ ps) ≡ sep ∷ join_with sep ps
join-nil sep [] h = absurd (h refl)
join-nil sep (p ∷ ps) h = refl

-- Joining the parts gives the text back.
pub join-split_on : (sep : ℕ) (s : List ℕ) → join_with sep (split_on sep s) ≡ s
unfolding split_on
join-split_on sep [] = refl
join-split_on sep (c ∷ s) = ground (
  arith,
  join-push_head sep c (split_on sep s) (split_on-ne-nil sep s),
  join-nil sep (split_on sep s) (split_on-ne-nil sep s),
  join-split_on sep s,
)

pub split_on_part : (sep : ℕ) (p : List ℕ) → Lacks sep p → split_on sep p ≡ p ∷ []
unfolding split_on
split_on_part sep [] h = refl
split_on_part sep (c ∷ p) (d, h) = ground (arith, split_on_part sep p h)

-- A part without the separator is split off at the separator behind it.
pub split_on-append :
    (sep : ℕ) (p rest : List ℕ)
    → Lacks sep p
    → split_on sep (p ++ sep ∷ rest) ≡ p ∷ split_on sep rest
unfolding split_on
split_on-append sep [] rest h = ground arith
split_on-append sep (c ∷ p) rest (d, h) = ground (arith, split_on-append sep p rest h)
