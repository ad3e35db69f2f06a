-- ===== src/Send/Guards.antt =====
-- What POST /api/send (app/src/pages/api/send.ts) sends, and what it leaves alone.
use web_gui.Base.{
  ℕ, ◌≡◌, refl, sym, ap, subst, ◌∙◌, ◌⊎◌, inl, inr, true, false, not, ◌&&◌, Option, some, arith,
  Option-cases, Bool-cases,
}
use web_gui.Text.{Text, codes, is_nonempty}
use web_gui.JsMap.{Map}
use web_gui.Json.{Json, field, trimmed}
use web_gui.Auth.RateLimit.{Attempts}
use web_gui.Auth.Totp.{Bytes}
use web_gui.StepUp.{StepUpState, StepUpResult, require_step_up}
use web_gui.Decimal.{Decimal, parse_decimal}
use web_gui.Validation.{is_valid_amount}
use web_gui.Validation.Amounts.{IsAmount, is_valid_amount-IsAmount}
use web_gui.Bech32.{Bech32Decoded, DecodeResult, DecodeError, decode, decoded, thrown, bech32m}
use web_gui.Gated.{totp_from_body}
use web_gui.StepUp.Gate.{StepUpResult-cases}
use web_gui.Send.{
  DaemonCall, DaemonAnswer, Response, SendRequest, AssetType, precision, Checked, bad, good,
  asset_type_of, is_foreign, is_token, expected_hrp, check_address, check_request, check_body,
  call_of, post_checked, post, answered,
}

DecodeResult-cases :
    (x : DecodeResult)
    → ((e : DecodeError) × (x ≡ thrown e)) ⊎ ((d : Bech32Decoded) × (x ≡ decoded d))
DecodeResult-cases (thrown e) = inl (e, refl)
DecodeResult-cases (decoded d) = inr (d, refl)

pub Checked-cases : (x : Checked) → ((e : Text) × (x ≡ bad e)) ⊎ ((r : SendRequest) × (x ≡ good r))
Checked-cases (bad e) = inl (e, refl)
Checked-cases (good r) = inr (r, refl)

module _ (to_lower : Text → Text) (network : Option Text) where
  -- A request that the checks in front of the gate let through.
  pub record IsSendable (r : SendRequest) : Type 0 where
    pub some_address : is_nonempty r.address ≡ true
    pub units : Decimal
    pub reads : parse_decimal r.amount ≡ some units
    pub amount : IsAmount (precision r.asset_type) units
    pub token_named : is_token r.asset_type ≡ true → is_nonempty r.token_id ≡ true
    pub target : Bech32Decoded
    pub decodes : decode to_lower r.address bech32m ≡ decoded target
    pub at_home : is_foreign (expected_hrp to_lower network) target.prefix ≡ false

  check_address-good :
      (r : SendRequest) {q : SendRequest}
      → check_address to_lower network r ≡ good q
      → (r ≡ q)
        × ((d : Bech32Decoded) × ((decode to_lower r.address bech32m ≡ decoded d)
              × (is_foreign (expected_hrp to_lower network) d.prefix ≡ false)))
  unfolding check_address
  check_address-good r {q} h = elim (DecodeResult-cases (decode to_lower r.address bech32m)) [
    | inl (e, unread) ↦ absurd (ground arith)
    | inr (d, read) ↦ elim (Bool-cases (is_foreign (expected_hrp to_lower network) d.prefix)) [
      | inl foreign ↦ absurd (ground arith)
      | inr home ↦ (ground arith, (d, (read, home)))
    ]
  ]

  check_request-good :
      (r : SendRequest) {q : SendRequest}
      → check_request to_lower network r ≡ good q
      → (is_nonempty r.address ≡ true)
        × ((is_valid_amount r.amount (precision r.asset_type) ≡ true)
            × (((is_token r.asset_type && not (is_nonempty r.token_id)) ≡ false)
                × (check_address to_lower network r ≡ good q)))
  unfolding check_request
  check_request-good r h = ground arith

  pub check_request-IsSendable :
      (r : SendRequest) {q : SendRequest} → check_request to_lower network r ≡ good q → IsSendable q
  check_request-IsSendable r {q} h =
      let (address, (amount, (named, rest))) = check_request-good r h in
      let (same, (d, (read, home))) = check_address-good r rest in
      let (units, (reads, is_amount)) =
        is_valid_amount-IsAmount r.amount (precision r.asset_type) amount in
      subst IsSendable same (record {
        some_address = address;
        units = units;
        reads = reads;
        amount = is_amount;
        token_named = λ t. ground arith;
        target = d;
        decodes = read;
        at_home = home;
      })

  -- The request that the fields of a body make.
  abbrev pub request_of : Map Json → AssetType → SendRequest
  request_of body asset_type = record {
    asset_type = asset_type;
    address = trimmed (field (codes "address") body);
    amount = trimmed (field (codes "amount") body);
    token_id = trimmed (field (codes "token_id") body);
  }

  check_body-good :
      (body : Map Json) {q : SendRequest}
      → check_body to_lower network (some body) ≡ good q
      → (asset_type : AssetType) × ((asset_type_of (field (codes "asset_type") body)
            ≡ some asset_type)
          × (check_request to_lower network (request_of body asset_type) ≡ good q))
  unfolding check_body
  check_body-good body h = elim (Option-cases (asset_type_of (field (codes "asset_type") body))) [
    | inl missing ↦ absurd (ground arith)
    | inr (asset_type, e) ↦ (asset_type, (e, ground arith))
  ]

  check_request-same :
      (r : SendRequest) {q : SendRequest} → check_request to_lower network r ≡ good q → r ≡ q
  check_request-same r h = (check_address-good r (check_request-good r h).1.1.1).0

  module _ (hmac_sha1 : Bytes → Bytes → Bytes) (daemon : DaemonCall → DaemonAnswer) (ip : Text)
      (secret : Option Text) (now : ℕ) (s : Attempts × StepUpState) where
    abbrev gate_of : Text → StepUpResult × (Attempts × StepUpState)
    gate_of code = require_step_up hmac_sha1 code ip secret now s

    abbrev result : Option (Map Json) → Response × (Option DaemonCall × (Attempts × StepUpState))
    result body = post to_lower network hmac_sha1 daemon ip secret now body s

    post_checked-call :
        (code : Text) (r : SendRequest) {call : DaemonCall}
        → (post_checked to_lower network hmac_sha1 daemon ip secret now code r s).1.0 ≡ some call
        → ((gate_of code).0 ≡ StepUpResult.ok)
          × ((call ≡ call_of r)
              × ((post_checked to_lower network hmac_sha1 daemon ip secret now code r s).0
                  ≡ answered (daemon call)))
    unfolding post_checked
    post_checked-call code r {call} h = elim (StepUpResult-cases (gate_of code).0) [
      | inr (status, (error, e)) ↦ absurd (ground arith)
      | inl e ↦
          let same : call ≡ call_of r = ground arith in (e, (same, rw (post_checked, e, same) refl))
    ]

    -- If a call of the daemon is made for a body, then its asset type is one of the two, its fields
    -- (trimmed) make a sendable request and the call is the one of that request; the step-up gate
    -- passed with the code of the body; and the answer of the daemon decides the response. A sendable
    -- request has an amount that is positive, below 10 ^ 38 and of the asset's precision, an address
    -- that decodes as bech32m with the prefix of the network, and a token id for a token.
    pub post-call :
        (body : Map Json) {call : DaemonCall}
        → (result (some body)).1.0 ≡ some call
        → (asset_type : AssetType) × ((asset_type_of (field (codes "asset_type") body)
              ≡ some asset_type)
            × (IsSendable (request_of body asset_type)
                × ((call ≡ call_of (request_of body asset_type))
                    × (((gate_of (totp_from_body body)).0 ≡ StepUpResult.ok)
                        × ((result (some body)).0 ≡ answered (daemon call))))))
    unfolding post
    post-call body {call} h = elim (Checked-cases (check_body to_lower network (some body))) [
      | inl (e, refusal) ↦ absurd (ground arith)
      | inr (r, accepted) ↦
          let (asset_type, (typed, checked)) = check_body-good body accepted in
          let sendable = check_request-IsSendable (request_of body asset_type) checked in
          let same = check_request-same (request_of body asset_type) checked in
          let called = rw (post, accepted) at h in
          let (passed, (call_eq, answer)) = post_checked-call (totp_from_body body) r called in
          (
            asset_type,
            (
              typed,
              (
                subst IsSendable (sym same) sendable,
                (call_eq ∙ ap call_of (sym same), (passed, rw (post, accepted) answer)),
              ),
            ),
          )
    ]
