-- ===== src/TokenManage/Safety.antt =====
-- What a call of the daemon by app/src/pages/api/token-manage.ts guarantees.
use web_gui.Base.{◌≡◌, refl, sym, ap, subst, ◌∙◌, Option, none, some, arith, Option-cases, inl, inr}
use web_gui.Text.{Text}
use web_gui.JsMap.{get}
use web_gui.Json.{Json, null, fields_of}
use web_gui.Auth.Totp.{Bytes}
use web_gui.StepUp.{StepUpResult}
use web_gui.Gated.{Caller, good, passed, refused, State, gate, totp_from_body}
use web_gui.Gated.Laws.{gated-passed, gated_bad_request}
use web_gui.TokenManage.Actions.{Action, actions, validate_params}
use web_gui.TokenManage.{
  Call, Response, Daemon, check_call, check_body, call_of, called, answered, token_manage,
}
use web_gui.TokenManage.Checks.{IsSafeCall, validate_params-IsSafeCall}

check_call-good :
    (call : Call) (code : Text) {c : Call} {code' : Text}
    → check_call call code ≡ good (c, code')
    → (call ≡ c)
      × ((code ≡ code')
          × ((a : Action) × ((get call.action actions ≡ some a) × IsSafeCall a call.params)))
unfolding check_call
check_call-good call code h = elim (Option-cases (get call.action actions)) [
  | inl unknown ↦ absurd (ground arith)
  | inr (a, known) ↦ elim (Option-cases (validate_params a call.params)) [
    | inl valid ↦
        (ground arith, (ground arith, (a, (known, validate_params-IsSafeCall a call.params valid))))
    | inr (error, invalid) ↦ absurd (ground arith)
  ]
]

check_body-good :
    (body : Option Json) {c : Call} {code : Text}
    → check_body body ≡ good (c, code)
    → (value : Json) × ((body ≡ some value)
        × (check_call (call_of (fields_of value)) (totp_from_body (fields_of value))
            ≡ good (c, code)))
unfolding check_body
check_body-good none h = absurd (ground arith)
check_body-good (some null) h = absurd (ground arith)
check_body-good (some value) h = (value, (refl, h))

-- If a token operation gets behind the gate, then the call is the one of the body, its action is one
-- of the nine, and its parameters are safe: the account is 0, every identifier of the action is a text
-- of 10 to 120 letters and digits, the amount of a mint or an unmint is positive with at most 18
-- decimals, and a token that is issued has a ticker of 1 to 5 letters and digits and at most 18
-- decimals; the gate passed with the code of the body; and the daemon's answer decides the response.
pub token_manage-passed :
    (hmac_sha1 : Bytes → Bytes → Bytes) (daemon : Daemon) (caller : Caller) (body : Option Json)
    (s : State) {response : Response} {call : Call}
    → (token_manage hmac_sha1 daemon caller body s).0 ≡ passed (response, call)
    → (value : Json) × ((body ≡ some value)
        × (((gate hmac_sha1 caller (totp_from_body (fields_of value)) s).0 ≡ StepUpResult.ok)
            × ((call ≡ call_of (fields_of value))
                × ((response ≡ answered (daemon call))
                    × ((a : Action) × ((get call.action actions ≡ some a)
                          × IsSafeCall a call.params))))))
unfolding token_manage
token_manage-passed hmac_sha1 daemon caller body s {response} {call} h =
    let (r, (code, (checked, (gate_ok, work)))) =
      gated-passed hmac_sha1 caller (called daemon) s (check_body body) h in
    let (value, (same, accepted)) = check_body-good body checked in
    let (r_is, (code_is, (a, (known, safe)))) = check_call-good _ _ accepted in
    let call_is : call ≡ call_of (fields_of value) = ap (λ w. w.1) work ∙ sym r_is in
    let response_is : response ≡ answered (daemon call) =
      ap (λ w. w.0) work ∙ sym (ap (λ w. answered (daemon w.1)) work) in
    (
      value,
      (
        same,
        (
          subst (λ c. (gate hmac_sha1 caller c s).0 ≡ StepUpResult.ok) (sym code_is) gate_ok,
          (
            call_is,
            (
              response_is,
              (
                a,
                (
                  subst (λ (c : Call). get c.action actions ≡ some a) (sym call_is) known,
                  subst (λ (c : Call). IsSafeCall a c.params) (sym call_is) safe,
                ),
              ),
            ),
          ),
        ),
      ),
    )

-- An operation that is refused with status 400 leaves the request counter, the used codes and the
-- failure counts as they were, so it consumes no code.
pub token_manage-refused :
    (hmac_sha1 : Bytes → Bytes → Bytes) (daemon : Daemon) (caller : Caller) (body : Option Json)
    (s : State) {error : Text}
    → (token_manage hmac_sha1 daemon caller body s).0 ≡ refused error 400
    → (token_manage hmac_sha1 daemon caller body s).1 ≡ s
unfolding token_manage
token_manage-refused hmac_sha1 daemon caller body s h =
    gated_bad_request hmac_sha1 caller (called daemon) s (check_body body) h
