-- ===== src/Passkey/Traces.antt =====
-- Traces of createChallenge and consumeChallenge (app/src/lib/passkey.ts): what operations leave of
-- the entry of another token.
use web_gui.Base.{
  ℕ, ◌≤◌, ◌≡◌, refl, ap, ◌∙◌, ◌⊎◌, inl, inr, true, false, List, [], ◌∷◌, Option, none, some, arith,
  All, Option-cases, Bool-cases,
}
use web_gui.Text.{Text, text_eq}
use web_gui.JsMap.{
  Map, get, delete, HasUniqueKeys, get-set, get-delete, get-prune, set-HasUniqueKeys,
  delete-HasUniqueKeys, prune-HasUniqueKeys, unless,
}
use web_gui.Passkey.{
  ChallengePurpose, ChallengeEntry, challenge_is_over, create_challenge, consume_challenge,
}

pub data Op : Type 0 where
  create : (challenge : Text) → ChallengePurpose → (token : Text) → (now : ℕ) → Op
  consume : (token : Text) → ChallengePurpose → (now : ℕ) → Op

abbrev pub Store : Type 0
Store = Map ChallengeEntry

abbrev pub apply : Op → Store → Store
apply (create challenge purpose token now) m = create_challenge challenge purpose token now m
apply (consume token purpose now) m = (consume_challenge token purpose now m).1

abbrev pub run_ops : List Op → Store → Store
run_ops [] m = m
run_ops (op ∷ ops) m = run_ops ops (apply op m)

-- The operation is on another token, and not later than `now`.
abbrev pub Avoids : Text → ℕ → Op → Type 0
Avoids token now (create _ _ t at) = (text_eq t token ≡ false) × (at ≤ now)
Avoids token now (consume t _ at) = (text_eq t token ≡ false) × (at ≤ now)

-- The random generator does not make the token again.
abbrev pub NotMade : Text → Op → Type 0
NotMade token (create _ _ t at) = text_eq t token ≡ false
NotMade token (consume t _ at) = Unit

pub consume_state :
    (token : Text) (p : ChallengePurpose) (now : ℕ) (m : Store)
    → ((consume_challenge token p now m).1 ≡ m × (get token m ≡ none))
      ⊎ ((consume_challenge token p now m).1 ≡ delete token m)
unfolding consume_challenge
consume_state token p now m = elim (Option-cases (get token m)) [
  | inl e ↦ inl (rw (consume_challenge, e) refl, e)
  | inr (entry, e) ↦ inr (rw (consume_challenge, e) refl)
]

pub apply-HasUniqueKeys : (op : Op) (m : Store) → HasUniqueKeys m → HasUniqueKeys (apply op m)
unfolding create_challenge
apply-HasUniqueKeys (create c p t now) m u =
    set-HasUniqueKeys t _ _ (prune-HasUniqueKeys (challenge_is_over now) m u)
apply-HasUniqueKeys (consume t p now) m u = elim (consume_state t p now m) [
  | inl (e, _) ↦ rw e u
  | inr e ↦ rw e (delete-HasUniqueKeys t m u)
]

-- What an operation on another token leaves of a token's entry.
get-apply_other :
    (token : Text) (now : ℕ) (op : Op) (m : Store)
    → HasUniqueKeys m
    → Avoids token now op
    → (get token (apply op m) ≡ get token m)
      ⊎ ((at : ℕ) × ((at ≤ now)
            × (get token (apply op m) ≡ unless (challenge_is_over at) (get token m))))
unfolding create_challenge
get-apply_other token now (create c p t at) m u (other, le) =
    inr (at, (le, get-set t token _ _ ∙ rw other (get-prune (challenge_is_over at) token m u)))
get-apply_other token now (consume t p at) m u (other, le) = elim (consume_state t p at m) [
  | inl (e, _) ↦ inl (ap (get token) e)
  | inr e ↦ inl (ap (get token) e ∙ get-delete t token m u ∙ rw other refl)
]

-- The entry of a token after operations on other tokens: itself, or dropped once it is over.
unfoldable pub HoldsUntil : ℕ → ChallengeEntry → Option ChallengeEntry → Type 0
HoldsUntil now entry o = (o ≡ some entry) ⊎ ((o ≡ none) × (challenge_is_over now entry ≡ true))

get-apply-HoldsUntil :
    (token : Text) (now : ℕ) (entry : ChallengeEntry) (op : Op) (m : Store)
    → HasUniqueKeys m
    → Avoids token now op
    → HoldsUntil now entry (get token m)
    → HoldsUntil now entry (get token (apply op m))
unfolding HoldsUntil
get-apply-HoldsUntil token now entry op m u a (inl e) = elim (get-apply_other token now op m u a) [
  | inl same ↦ inl (same ∙ e)
  | inr (at, (le, pruned)) ↦ elim (Bool-cases (challenge_is_over at entry)) [
    | inl over ↦ inr (pruned ∙ ap (unless (challenge_is_over at)) e ∙ rw over refl, ground arith)
    | inr live ↦ inl (pruned ∙ ap (unless (challenge_is_over at)) e ∙ rw live refl)
  ]
]
get-apply-HoldsUntil token now entry op m u a (inr (e, over)) =
    elim (get-apply_other token now op m u a) [
      | inl same ↦ inr (same ∙ e, over)
      | inr (at, (le, pruned)) ↦ inr (pruned ∙ ap (unless (challenge_is_over at)) e, over)
    ]

pub held_at_once :
    (now : ℕ) {entry : ChallengeEntry} {o : Option ChallengeEntry}
    → o ≡ some entry
    → HoldsUntil now entry o
unfolding HoldsUntil
held_at_once now e = inl e

pub get-run_ops-HoldsUntil :
    (token : Text) (now : ℕ) (entry : ChallengeEntry) (ops : List Op) (m : Store)
    → HasUniqueKeys m
    → All (Avoids token now) ops
    → HoldsUntil now entry (get token m)
    → HoldsUntil now entry (get token (run_ops ops m)) × HasUniqueKeys (run_ops ops m)
get-run_ops-HoldsUntil token now entry [] m u _ h = (h, u)
get-run_ops-HoldsUntil token now entry (op ∷ ops) m u (a, rest) h =
    get-run_ops-HoldsUntil token now entry ops (apply op m) (apply-HasUniqueKeys op m u) rest
      (get-apply-HoldsUntil token now entry op m u a h)
