-- ===== src/Send/Codes.antt =====
-- Which answers of POST /api/send (app/src/pages/api/send.ts) touch the state of the step-up gate.
use web_gui.Base.{ℕ, ◌≡◌, ◌≢◌, refl, inl, inr, Option, none, arith}
use web_gui.Text.{Text}
use web_gui.JsMap.{Map}
use web_gui.Json.{Json}
use web_gui.Auth.RateLimit.{Attempts}
use web_gui.Auth.Totp.{Bytes}
use web_gui.StepUp.{StepUpState, require_step_up}
use web_gui.StepUp.Gate.{StepUpResult-cases, require_step_up-ne-400}
use web_gui.Send.{
  DaemonCall, DaemonAnswer, Response, refused, SendRequest, check_body, post_checked, post,
  answered, call_of,
}
use web_gui.Send.Guards.{Checked-cases}

answered-ne-refused :
    (a : DaemonAnswer) {error : Text} {status : ℕ} → answered a ≢ refused error status
unfolding answered
answered-ne-refused (DaemonAnswer.sent tx_id) e = absurd (ground arith)
answered-ne-refused (DaemonAnswer.rpc_error message code) e = absurd (ground arith)
answered-ne-refused DaemonAnswer.other_error e = absurd (ground arith)

module _ (to_lower : Text → Text) (network : Option Text) (hmac_sha1 : Bytes → Bytes → Bytes)
    (daemon : DaemonCall → DaemonAnswer) (ip : Text) (secret : Option Text) (now : ℕ)
    (s : Attempts × StepUpState) where
  abbrev result : Option (Map Json) → Response × (Option DaemonCall × (Attempts × StepUpState))
  result body = post to_lower network hmac_sha1 daemon ip secret now body s

  post_checked-ne-400 :
      (code : Text) (r : SendRequest) {error : Text}
      → (post_checked to_lower network hmac_sha1 daemon ip secret now code r s).0
        ≢ refused error 400
  unfolding post_checked
  post_checked-ne-400 code r {error} e =
      elim (StepUpResult-cases (require_step_up hmac_sha1 code ip secret now s).0) [
        | inl passed ↦
            let answer : answered (daemon (call_of r)) ≡ refused error 400 =
              rw (post_checked, passed) at e in
            answered-ne-refused (daemon (call_of r)) answer
        | inr (status, (message, over)) ↦
            require_step_up-ne-400 hmac_sha1 code ip secret now s {error = error} (ground arith)
      ]

  -- An answer with status 400, which the checks of the request give, has sent nothing and has left
  -- the request counter, the used codes and the failure counts as they were, so no code is consumed.
  pub post_bad_request :
      (body : Option (Map Json)) {error : Text}
      → (result body).0 ≡ refused error 400
      → (result body).1 ≡ (none, s)
  unfolding post
  post_bad_request body e = elim (Checked-cases (check_body to_lower network body)) [
    | inl (message, refusal) ↦ rw (post, refusal) refl
    | inr (r, accepted) ↦ absurd (post_checked-ne-400 _ r (rw (post, accepted) at e))
  ]
