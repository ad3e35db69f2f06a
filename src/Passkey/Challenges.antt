-- ===== src/Passkey/Challenges.antt =====
-- The fate of one challenge of app/src/lib/passkey.ts.
use web_gui.Base.{
  ℕ, ◌+◌, ◌≡◌, refl, ap, ◌∙◌, inl, inr, Bool, true, false, ◌&&◌, List, [], ◌∷◌, Option, none, some,
  arith, ltb, if◌then◌else◌, All,
}
use web_gui.Text.{Text, text_eq, text_eq_refl}
use web_gui.JsMap.{get, prune, HasUniqueKeys, get-set, get-delete, get-prune, unless}
use web_gui.Passkey.{
  ChallengePurpose, ChallengeEntry, challenge_ttl_ms, challenge_is_over, purpose_eq,
  create_challenge, redeem, consume_challenge,
}
use web_gui.Passkey.Traces.{
  Op, create, consume, Store, apply, run_ops, Avoids, NotMade, HoldsUntil, consume_state,
  apply-HasUniqueKeys, held_at_once, get-run_ops-HoldsUntil,
}

consume-HoldsUntil :
    (token : Text) (q : ChallengePurpose) (now : ℕ) (entry : ChallengeEntry) (m : Store)
    → HoldsUntil now entry (get token m)
    → (consume_challenge token q now m).0 ≡ redeem q now entry
unfolding HoldsUntil redeem consume_challenge
consume-HoldsUntil token q now entry m (inl e) = rw (consume_challenge, e) refl
consume-HoldsUntil token q now entry m (inr (e, over)) = rw (consume_challenge, e, over) refl

-- A token that is not there stays away until it is made.
get-apply-NotMade :
    (token : Text) (op : Op) (m : Store)
    → HasUniqueKeys m
    → NotMade token op
    → get token m ≡ none
    → get token (apply op m) ≡ none
unfolding create_challenge
get-apply-NotMade token (create c p t at) m u other e =
    get-set t token _ _
    ∙ rw other (get-prune (challenge_is_over at) token m u ∙ ap (unless (challenge_is_over at)) e)
get-apply-NotMade token (consume t p at) m u _ e = elim (consume_state t p at m) [
  | inl (same, _) ↦ ap (get token) same ∙ e
  | inr same ↦
      ap (get token) same ∙ get-delete t token m u ∙ none_or (text_eq t token) (get token m) e
]
  where
    none_or : (b : Bool) (o : Option ChallengeEntry) → o ≡ none → (if b then none else o) ≡ none
    none_or true o e = refl
    none_or false o e = e

get-run_ops-NotMade :
    (token : Text) (ops : List Op) (m : Store)
    → HasUniqueKeys m
    → All (NotMade token) ops
    → get token m ≡ none
    → get token (run_ops ops m) ≡ none
get-run_ops-NotMade token [] m u _ e = e
get-run_ops-NotMade token (op ∷ ops) m u (a, rest) e =
    get-run_ops-NotMade token ops (apply op m) (apply-HasUniqueKeys op m u) rest
      (get-apply-NotMade token op m u a e)

get-consume_same :
    (token : Text) (p : ChallengePurpose) (now : ℕ) (m : Store)
    → HasUniqueKeys m
    → get token (consume_challenge token p now m).1 ≡ none
get-consume_same token p now m u = elim (consume_state token p now m) [
  | inl (same, e) ↦ ap (get token) same ∙ e
  | inr same ↦ ap (get token) same ∙ get-delete token token m u ∙ rw (text_eq_refl token) refl
]

consume-none :
    (token : Text) (p : ChallengePurpose) (now : ℕ) (m : Store)
    → get token m ≡ none
    → (consume_challenge token p now m).0 ≡ none
unfolding consume_challenge
consume-none token p now m e = rw (consume_challenge, e) refl

redeem_lem :
    (entry : ChallengeEntry) (q : ChallengePurpose) (now : ℕ)
    → redeem q now entry ≡ (
        if ltb now entry.expires_at && purpose_eq entry.purpose q
        then some entry.challenge
        else none)
unfolding redeem
redeem_lem entry q now = ground arith

get-create_challenge :
    (challenge token : Text) (p : ChallengePurpose) (made : ℕ) (m : Store)
    → get token (create_challenge challenge p token made m)
      ≡ some (record { challenge = challenge; expires_at = made + challenge_ttl_ms; purpose = p })
unfolding create_challenge
get-create_challenge challenge token p made m =
    get-set token token _ (prune (challenge_is_over made) m) ∙ rw (text_eq_refl token) refl

-- A challenge that is made for a token is redeemed, after any operations on other tokens that are
-- not later, exactly if less than five minutes have passed and the purpose is the one it was made
-- for. That first attempt, whether it succeeds or not, is the only one: as long as the random
-- generator does not make the token again, every later attempt is refused.
pub consume-create_challenge :
    (m : Store) (challenge token : Text) (p q : ChallengePurpose) (made now : ℕ)
    (between later : List Op)
    → HasUniqueKeys m
    → All (Avoids token now) between
    → All (NotMade token) later
    → ((consume_challenge token q now
          (run_ops between (create_challenge challenge p token made m))).0
        ≡ (if ltb now (made + challenge_ttl_ms) && purpose_eq p q then some challenge else none))
      × ((again : ChallengePurpose) (at : ℕ)
          → (consume_challenge token again at (
              run_ops later
                (consume_challenge token q now
                  (run_ops between (create_challenge challenge p token made m))).1)).0
            ≡ none)
consume-create_challenge m challenge token p q made now between later u avoid fresh =
    let start = create_challenge challenge p token made m in
    let entry : ChallengeEntry = record {
      challenge = challenge;
      expires_at = made + challenge_ttl_ms;
      purpose = p;
    } in
    let unique = apply-HasUniqueKeys (create challenge p token made) m u in
    let (held, unique') =
      get-run_ops-HoldsUntil token now entry between start unique avoid
        (held_at_once now (get-create_challenge challenge token p made m)) in
    let after = run_ops between start in
    let left = (consume_challenge token q now after).1 in
    let left_unique : HasUniqueKeys left =
      apply-HasUniqueKeys (consume token q now) after unique' in
    (
      consume-HoldsUntil token q now entry after held ∙ redeem_lem entry q now,
      λ again at. consume-none token again at (run_ops later left) (
          get-run_ops-NotMade token later left left_unique fresh
            (get-consume_same token q now after unique')),
    )
