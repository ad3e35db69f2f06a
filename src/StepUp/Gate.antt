-- ===== src/StepUp/Gate.antt =====
-- What requireStepUp lets through.
use web_gui.Base.{
  ℕ, refl, ◌⊎◌, ◌≡◌, ◌≢◌, ◌↔◌, true, false, Option, none, some, arith, Option-cases, Bool-cases,
  inl, inr,
}
use web_gui.Text.{Text, trim, truthy}
use web_gui.Auth.RateLimit.{Attempts, check_rpc_rate_limit}
use web_gui.Auth.Totp.{Bytes}
use web_gui.StepUp.{
  StepUpState, TotpCheck, TotpFailureReason, ok, StepUpResult, verify_and_burn_totp_code,
  require_step_up,
}

-- The HTTP status that a handler answers with when the gate refuses, 200 for a pass.
abbrev pub status_of : StepUpResult → ℕ
status_of StepUpResult.ok = 200
status_of (StepUpResult.failed status error) = status

module _ (hmac_sha1 : Bytes → Bytes → Bytes) (code ip : Text) (secret : Option Text) (now : ℕ)
    (rpc : Attempts) (s : StepUpState) where
  abbrev pub gate : StepUpResult × (Attempts × StepUpState)
  gate = require_step_up hmac_sha1 code ip secret now (rpc, s)

  abbrev pub check_with : Text → TotpCheck × StepUpState
  check_with key = verify_and_burn_totp_code hmac_sha1 (trim code) key (some ip) now s

  -- The gate answers 429 exactly if the request counter refuses; 409 exactly if it does not and no
  -- secret is stored; 401 exactly if it does not, a secret is stored and the check of the code with
  -- it fails; and it passes exactly if that check succeeds.
  pub require_step_up_iff :
      ((status_of gate.0 ≡ 429) ↔ ((check_rpc_rate_limit ip now rpc).0 ≡ false))
      × ((status_of gate.0 ≡ 409)
          ↔ (((check_rpc_rate_limit ip now rpc).0 ≡ true) × (truthy secret ≡ none)))
      × ((status_of gate.0 ≡ 401) ↔ (
          ((check_rpc_rate_limit ip now rpc).0 ≡ true)
          × ((key : Text) × ((truthy secret ≡ some key) × ((check_with key).0 ≢ ok)))))
      × ((gate.0 ≡ StepUpResult.ok) ↔ (
          ((check_rpc_rate_limit ip now rpc).0 ≡ true)
          × ((key : Text) × ((truthy secret ≡ some key) × ((check_with key).0 ≡ ok)))))
  unfolding require_step_up
  require_step_up_iff = elim (Bool-cases (check_rpc_rate_limit ip now rpc).0) [
    | inl allowed ↦ elim (Option-cases (truthy secret)) [
      | inl missing ↦ (
        ground arith,
        ground arith,
        (λ e. absurd (ground arith), λ p. absurd (no_key p.1 missing)),
        (λ e. absurd (ground arith), λ p. absurd (no_key p.1 missing)),
      )
      | inr (key, stored) ↦ (
        ground arith,
        ground arith,
        (λ e. (allowed, (key, (stored, ground arith))), λ (_, (k, (e, bad))). ground arith),
        (λ e. (allowed, (key, (stored, ground arith))), λ (_, (k, (e, good))). ground arith),
      )
    ]
    | inr over ↦ (
      ground arith,
      ground arith,
      (λ e. absurd (ground arith), λ p. absurd (ground arith)),
      (λ e. absurd (ground arith), λ p. absurd (ground arith)),
    )
  ]
    where
      no_key :
          {P : Text → Type 0}
          → ((key : Text) × ((truthy secret ≡ some key) × P key))
          → truthy secret ≡ none
          → ⊥
      no_key (key, (e, p)) missing = cc

pub StepUpResult-cases :
    (x : StepUpResult)
    → (x ≡ StepUpResult.ok)
      ⊎ ((status : ℕ) × ((error : Text) × (x ≡ StepUpResult.failed status error)))
StepUpResult-cases StepUpResult.ok = inl refl
StepUpResult-cases (StepUpResult.failed status error) = inr (status, (error, refl))

TotpCheck-cases :
    (x : TotpCheck) → (x ≡ TotpCheck.ok) ⊎ ((r : TotpFailureReason) × (x ≡ TotpCheck.failed r))
TotpCheck-cases TotpCheck.ok = inl refl
TotpCheck-cases (TotpCheck.failed r) = inr (r, refl)

-- The gate never answers 400, which the checks in front of it give.
pub require_step_up-ne-400 :
    (hmac_sha1 : Bytes → Bytes → Bytes) (code ip : Text) (secret : Option Text) (now : ℕ)
    (s : Attempts × StepUpState) {error : Text}
    → (require_step_up hmac_sha1 code ip secret now s).0 ≢ StepUpResult.failed 400 error
unfolding require_step_up
require_step_up-ne-400 hmac_sha1 code ip secret now s e =
    elim (Bool-cases (check_rpc_rate_limit ip now s.0).0) [
      | inr over ↦ absurd (ground arith)
      | inl allowed ↦ elim (Option-cases (truthy secret)) [
        | inl missing ↦ absurd (ground arith)
        | inr (key, stored) ↦
            elim (TotpCheck-cases
              (verify_and_burn_totp_code hmac_sha1 (trim code) key (some ip) now s.1).0) [
                | inl right ↦ absurd (ground arith)
                | inr (reason, wrong) ↦ absurd (ground arith)
              ]
      ]
    ]
