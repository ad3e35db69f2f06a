-- ===== src/Gated/Laws.antt =====
-- What the gate in front of an endpoint guarantees.
use web_gui.Base.{◌≡◌, refl, ◌⊎◌, inl, inr, arith}
use web_gui.Text.{Text}
use web_gui.Auth.Totp.{Bytes}
use web_gui.StepUp.{StepUpResult}
use web_gui.StepUp.Gate.{StepUpResult-cases, require_step_up-ne-400}
use web_gui.Base.Int.{ℤ}
use web_gui.Json.{Json}
use web_gui.Gated.{RpcAnswer, Caller, Checked, bad, good, refused, passed, State, gate, gated}

pub Checked-cases :
    {R : Type 0} (x : Checked R) → ((e : Text) × (x ≡ bad e)) ⊎ ((r : R) × (x ≡ good r))
Checked-cases (bad e) = inl (e, refl)
Checked-cases (good r) = inr (r, refl)

module _ {R A : Type 0} (hmac_sha1 : Bytes → Bytes → Bytes) (caller : Caller) (work : R → A)
    (s : State) where
  -- Work is done only on a checked request, and behind the gate with the code of the request.
  pub gated-passed :
      (checked : Checked (R × Text)) {a : A}
      → (gated hmac_sha1 caller checked work s).0 ≡ passed a
      → (r : R) × ((code : Text) × ((checked ≡ good (r, code))
            × (((gate hmac_sha1 caller code s).0 ≡ StepUpResult.ok) × (a ≡ work r))))
  unfolding gated
  gated-passed (bad e) h = absurd (ground arith)
  gated-passed (good (r, code)) h = elim (StepUpResult-cases (gate hmac_sha1 caller code s).0) [
    | inl e ↦ (r, (code, (refl, (e, ground arith))))
    | inr (status, (error, e)) ↦ absurd (ground arith)
  ]

  -- An answer 400 is one of the checks, and leaves the state.
  pub gated_bad_request :
      (checked : Checked (R × Text)) {error : Text}
      → (gated hmac_sha1 caller checked work s).0 ≡ refused error 400
      → (gated hmac_sha1 caller checked work s).1 ≡ s
  unfolding gated gate
  gated_bad_request (bad e) h = refl
  gated_bad_request (good (r, code)) {error} h =
      elim (StepUpResult-cases (gate hmac_sha1 caller code s).0) [
        | inl e ↦ absurd (ground arith)
        | inr (status, (message, e)) ↦ absurd (
            require_step_up-ne-400 hmac_sha1 code caller.ip caller.secret caller.now s
              {error = error} (ground arith))
      ]

pub RpcAnswer-cases :
    (x : RpcAnswer)
    → ((v : Json) × (x ≡ RpcAnswer.result v))
      ⊎ (((message : Text) × ((code : ℤ) × (x ≡ RpcAnswer.rpc_error message code)))
          ⊎ (x ≡ RpcAnswer.other_error))
RpcAnswer-cases (RpcAnswer.result v) = inl (v, refl)
RpcAnswer-cases (RpcAnswer.rpc_error message code) = inr (inl (message, (code, refl)))
RpcAnswer-cases RpcAnswer.other_error = inr (inr refl)
