-- ===== src/Bitcoin/Safety.antt =====
-- What a send by app/src/pages/api/bitcoin/send.ts guarantees, and what it reports.
use web_gui.Base.{
  ℕ, ◌≤◌, ◌≡◌, refl, sym, subst, ap, ◌∙◌, true, false, Bool, ◌&&◌, Option, none, some, arith, inl,
  inr, leb, Bool-cases,
}
use web_gui.Base.Int.{ℤ, pos, negsuc}
use web_gui.Text.{Text, is_nonempty}
use web_gui.JsMap.{Map}
use web_gui.Json.{Json, null, fields_of}
use web_gui.Auth.Totp.{Bytes}
use web_gui.StepUp.{StepUpResult}
use web_gui.Decimal.{Decimal, parse_decimal}
use web_gui.Validation.{is_valid_amount}
use web_gui.Validation.Amounts.{IsAmount, is_valid_amount-IsAmount}
use web_gui.Gated.{Caller, good, passed, refused, State, gate, totp_from_body}
use web_gui.Gated.Laws.{gated-passed, gated_bad_request}
use web_gui.Bitcoin.{sidecar_request}
use web_gui.Bitcoin.Send.{
  SendRequest, clamped, check_request, check_body, request_of, called, answered, Response, Sidecar,
  bitcoin_send,
}

-- No fee rate, or one of 1 to 1000 sat/vB.
pub data IsSaneFee : Option ℕ → Type 0 where
  default : IsSaneFee none
  within : (fee : ℕ) → 1 ≤ fee → fee ≤ 1000 → IsSaneFee (some fee)

pub record IsSendable (r : SendRequest) : Type 0 where
  pub some_address : is_nonempty r.address ≡ true
  pub units : Decimal
  pub reads : parse_decimal r.amount_btc ≡ some units
  pub amount : IsAmount 8 units
  pub fee : IsSaneFee r.fee_rate

clamped-IsSaneFee : (fee : Option ℤ) → IsSaneFee (clamped fee)
unfolding clamped
clamped-IsSaneFee none = default
clamped-IsSaneFee (some (negsuc n)) = default
clamped-IsSaneFee (some (pos fee)) = elim (Bool-cases (leb 1 fee && leb fee 1000)) [
  | inl sane ↦ rw (clamped, sane) (within fee (ground arith) (ground arith))
  | inr wild ↦ rw (clamped, wild) default
]

check_request-good :
    (r : SendRequest) (code : Text) {q : SendRequest} {code' : Text}
    → IsSaneFee r.fee_rate
    → check_request r code ≡ good (q, code')
    → (r ≡ q) × ((code ≡ code') × IsSendable r)
check_request-good r code fee h = elim (Bool-cases (is_nonempty r.address)) [
  | inr empty ↦ absurd (ground arith)
  | inl full ↦ elim (Bool-cases (is_valid_amount r.amount_btc 8)) [
    | inr invalid ↦ absurd (ground arith)
    | inl valid ↦
        let (units, (reads, amount)) = is_valid_amount-IsAmount r.amount_btc 8 valid in
        (
          ground arith,
          (
            ground arith,
            record {
              some_address = full;
              units = units;
              reads = reads;
              amount = amount;
              fee = fee;
            },
          ),
        )
  ]
]

module _ (string_of : Json → Text) (floor_of : Option Json → Option ℤ) where
  request_of-IsSaneFee : (body : Map Json) → IsSaneFee (request_of floor_of body).fee_rate
  unfolding request_of
  request_of-IsSaneFee body = clamped-IsSaneFee _

  check_body-good :
      (body : Option Json) {r : SendRequest} {code : Text}
      → check_body floor_of body ≡ good (r, code)
      → (value : Json) × ((body ≡ some value)
          × ((request_of floor_of (fields_of value) ≡ r)
              × ((totp_from_body (fields_of value) ≡ code) × IsSendable r)))
  unfolding check_body
  check_body-good none h = absurd (ground arith)
  check_body-good (some null) h = absurd (ground arith)
  check_body-good (some value) h =
      let (same, (code_is, fit)) =
        check_request-good _ _ (request_of-IsSaneFee (fields_of value)) h in
      (value, (refl, (same, (code_is, subst IsSendable same fit))))

  -- If the wallet service is asked to send, then Bitcoin support is on, the gate passed with the code
  -- of the body, the request is the one of the body, with an address, a positive amount of at most 8
  -- decimals, and no fee rate or one of 1 to 1000 sat/vB; and the service's answer decides the response.
  pub bitcoin_send-passed :
      (hmac_sha1 : Bytes → Bytes → Bytes) (enabled : Bool) (sidecar : Sidecar) (caller : Caller)
      (body : Option Json) (s : State) {answer : Response} {r : SendRequest}
      → (bitcoin_send string_of floor_of hmac_sha1 enabled sidecar caller body s).0
        ≡ passed (answer, r)
      → (enabled ≡ true)
        × ((value : Json) × ((body ≡ some value)
              × (((gate hmac_sha1 caller (totp_from_body (fields_of value)) s).0 ≡ StepUpResult.ok)
                  × ((request_of floor_of (fields_of value) ≡ r)
                      × (IsSendable r
                          × (answer ≡ answered (sidecar_request string_of (sidecar r))))))))
  unfolding bitcoin_send
  bitcoin_send-passed hmac_sha1 false sidecar caller body s h = absurd (ground arith)
  bitcoin_send-passed hmac_sha1 true sidecar caller body s {answer} {r} h =
      let (q, (code, (checked, (gate_ok, work)))) =
        gated-passed hmac_sha1 caller (called string_of floor_of sidecar) s
          (check_body floor_of body) h in
      let (value, (same, (request_is, (code_is, fit)))) = check_body-good body checked in
      let q_is : q ≡ r = sym (ap (λ w. w.1) work) in
      (
        refl,
        (
          value,
          (
            same,
            (
              subst (λ c. (gate hmac_sha1 caller c s).0 ≡ StepUpResult.ok) (sym code_is) gate_ok,
              (
                request_is ∙ q_is,
                (
                  subst IsSendable q_is fit,
                  ap (λ w. w.0) work
                      ∙ ap (λ x. answered (sidecar_request string_of (sidecar x))) q_is,
                ),
              ),
            ),
          ),
        ),
      )

  -- A send refused with status 400 before the gate leaves the request counter, the used codes and the
  -- failure counts as they were, so it consumes no code.
  pub bitcoin_send-refused :
      (hmac_sha1 : Bytes → Bytes → Bytes) (enabled : Bool) (sidecar : Sidecar) (caller : Caller)
      (body : Option Json) (s : State) {error : Text}
      → (bitcoin_send string_of floor_of hmac_sha1 enabled sidecar caller body s).0
        ≡ refused error 400
      → (bitcoin_send string_of floor_of hmac_sha1 enabled sidecar caller body s).1 ≡ s
  unfolding bitcoin_send
  bitcoin_send-refused hmac_sha1 false sidecar caller body s h = refl
  bitcoin_send-refused hmac_sha1 true sidecar caller body s h =
      gated_bad_request hmac_sha1 caller (called string_of floor_of sidecar) s
        (check_body floor_of body) h
