-- ===== src/Bitcoin/Retry.antt =====
-- How often createBitcoinWalletFromSeedWithRetry of app/src/lib/bitcoin-wallet.ts calls the service.
use web_gui.Base.{
  ℕ, ◌+◌, ◌-◌, ◌≤◌, ◌<◌, ◌≡◌, refl, subst, ◌∙◌, zero, suc, true, false, ◌⊎◌, inl, inr, Option, none,
  some, arith, Bool-cases,
}
use web_gui.Bitcoin.{SidecarResult, is_retryable, attempts_of, create_from, create_with_retry}

-- The attempts from `first` on end with number `last`, of the numbers up to `limit`.
pub record IsRetried (outcome : ℕ → SidecarResult) (first limit last : ℕ) : Type 0 where
  pub from : first ≤ last
  pub upto : last ≤ limit
  pub transient : (k : ℕ) → first ≤ k → k < last → is_retryable (outcome k) ≡ true
  pub final : (is_retryable (outcome last) ≡ false) ⊎ (last ≡ limit)

le-cases : (a b : ℕ) → a ≤ b → (a ≡ b) ⊎ (suc a ≤ b)
le-cases a b h = ground arith

final_at :
    {P : Type 0} {last limit limit' : ℕ} → limit ≡ limit' → P ⊎ (last ≡ limit) → P ⊎ (last ≡ limit')
final_at e (inl h) = inl h
final_at e (inr h) = inr (h ∙ e)

attempts_of-pos : (attempts : Option ℕ) → 1 + (attempts_of attempts - 1) ≡ attempts_of attempts
attempts_of-pos none = refl
attempts_of-pos (some n) = ground arith

create_from-IsRetried :
    (outcome : ℕ → SidecarResult) (first left : ℕ)
    → IsRetried outcome first (first + left) (create_from outcome first left).1
      × ((create_from outcome first left).0 ≡ outcome (create_from outcome first left).1)
unfolding create_from
create_from-IsRetried outcome first zero = (
  record {
    from = omega arith;
    upto = omega arith;
    transient = λ k low high. absurd (omega arith);
    final = inr (omega arith);
  },
  refl,
)
create_from-IsRetried outcome first (suc left) = elim (Bool-cases (is_retryable (outcome first))) [
  | inr stop ↦
      rw (create_from, stop)
        (
          record {
            from = omega arith;
            upto = omega arith;
            transient = λ k low high. absurd (omega arith);
            final = inl stop;
          },
          refl,
        )
  | inl again ↦
      let (later, same) = create_from-IsRetried outcome (suc first) left in
      let from_later = later.from in
      let upto_later = later.upto in
      rw (create_from, again)
        (
          record {
            from = omega arith;
            upto = omega arith;
            transient = λ k low high. elim (le-cases first k low) [
              | inl e ↦ subst (λ n. is_retryable (outcome n) ≡ true) e again
              | inr above ↦ later.transient k above high
            ];
            final = final_at (omega arith) later.final;
          },
          same,
        )
]

-- Creating the wallet makes between one and the given number of attempts (3 if none is given, at least
-- one): every attempt before the last failed with 502, 503 or 504, the last is the one whose outcome
-- is the result, and either it is no such failure or it is the last one allowed.
pub create_with_retry-IsRetried :
    (outcome : ℕ → SidecarResult) (attempts : Option ℕ)
    → IsRetried outcome 1 (attempts_of attempts) (create_with_retry outcome attempts).1
      × ((create_with_retry outcome attempts).0 ≡ outcome (create_with_retry outcome attempts).1)
unfolding create_with_retry
create_with_retry-IsRetried outcome attempts =
    subst
      (λ limit.
        IsRetried outcome 1 limit (create_from outcome 1 (attempts_of attempts - 1)).1
        × ((create_from outcome 1 (attempts_of attempts - 1)).0
            ≡ outcome (create_from outcome 1 (attempts_of attempts - 1)).1))
      (attempts_of-pos attempts) (create_from-IsRetried outcome 1 (attempts_of attempts - 1))
