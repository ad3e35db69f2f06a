-- ===== src/Bitcoin/Reports.antt =====
-- What app/src/pages/api/bitcoin/send.ts tells the browser of a send, by what became of the request to
-- the wallet service.
use web_gui.Base.{
  ℕ, ◌≡◌, ◌≢◌, refl, sym, subst, [], ◌∷◌, ◌++◌, true, false, Bool, ◌==◌, Option, none, some, arith,
  inl, inr, Bool-cases, Option-cases,
}
use web_gui.Text.{Text, codes, is_nonempty}
use web_gui.Text.Digits.{show}
use web_gui.JsMap.{get}
use web_gui.Json.{Json, bool, fields_of, is_truthy, is_nullish}
use web_gui.Bitcoin.{
  Fetched, rejected, response, sidecar_request, sidecar_body, is_false, raised, error_text,
}
use web_gui.Bitcoin.Send.{answered, Response, failure_status, failure_text}

-- A response that reports a failure: outside the 200 range, without a truthy JSON body, or with
-- `ok: false` in it.
pub data IsFailure : Bool → Option Json → Type 0 where
  out_of_range : (body : Option Json) → IsFailure false body
  unread : (is_ok : Bool) → IsFailure is_ok none
  falsy : (is_ok : Bool) (v : Json) → is_truthy (some v) ≡ false → IsFailure is_ok (some v)
  denied :
      (is_ok : Bool) (v : Json)
      → get (codes "ok") (fields_of v) ≡ some (bool false)
      → IsFailure is_ok (some v)

-- The message that is passed on: the field `error` of the body, or a text with the status where there
-- is none, or a fixed text where it is empty.
pub data Says (string_of : Json → Text) (status : ℕ) : Option Json → Text → Type 0 where
  bodiless : Says string_of status none (codes "BTC wallet error " ++ show status)
  unnamed :
      (v : Json)
      → is_nullish (get (codes "error") (fields_of v)) ≡ true
      → Says string_of status (some v) (codes "BTC wallet error " ++ show status)
  named :
      (v w : Json)
      → get (codes "error") (fields_of v) ≡ some w
      → is_nullish (some w) ≡ false
      → string_of w ≢ []
      → Says string_of status (some v) (string_of w)
  blank :
      (v w : Json)
      → get (codes "error") (fields_of v) ≡ some w
      → is_nullish (some w) ≡ false
      → string_of w ≡ []
      → Says string_of status (some v) (codes "Bitcoin send failed")

abbrev pub doubt : Text
doubt =
    codes
      "The send timed out - the transaction may or may not have been broadcast. Check History before sending again to avoid paying twice."

abbrev pub not_available : Text
not_available = codes "Bitcoin wallet service unavailable"

-- What is told of a send.
pub data IsReport (string_of : Json → Text) : Fetched → Response → Type 0 where
  success :
      (status : ℕ) (v : Json)
      → is_truthy (some v) ≡ true
      → get (codes "ok") (fields_of v) ≢ some (bool false)
      → IsReport string_of (response true status (some v)) (Response.ok v)
  timeout : IsReport string_of (rejected true) (Response.failed doubt 504)
  unreachable : IsReport string_of (rejected false) (Response.failed not_available 503)
  unavailable :
      (is_ok : Bool) (body : Option Json)
      → IsFailure is_ok body
      → IsReport string_of (response is_ok 503 body) (Response.failed not_available 503)
  doubtful :
      (is_ok : Bool) (body : Option Json)
      → IsFailure is_ok body
      → IsReport string_of (response is_ok 504 body) (Response.failed doubt 504)
  conflict :
      (is_ok : Bool) (body : Option Json) (error : Text)
      → IsFailure is_ok body
      → Says string_of 409 body error
      → IsReport string_of (response is_ok 409 body) (Response.failed error 409)
  declined :
      (is_ok : Bool) (status : ℕ) (body : Option Json) (error : Text)
      → status ≢ 503
      → status ≢ 504
      → status ≢ 409
      → IsFailure is_ok body
      → Says string_of status body error
      → IsReport string_of (response is_ok status body) (Response.failed error 400)

is_nonempty-false : (t : Text) → is_nonempty t ≡ false → t ≡ []
is_nonempty-false [] h = refl
is_nonempty-false (c ∷ t) h = absurd (ground arith)

is_nonempty-true : (t : Text) → is_nonempty t ≡ true → t ≢ []
is_nonempty-true t h e = absurd (ground arith)

is_false-true : (v : Option Json) → is_false v ≡ true → v ≡ some (bool false)
is_false-true (some (bool false)) h = refl
is_false-true v h = absurd (ground arith)

is_false-false : (v : Option Json) → is_false v ≡ false → v ≢ some (bool false)
is_false-false v h e = absurd (ground arith)

module _ (string_of : Json → Text) where
  abbrev message : Option Json → ℕ → Text
  message none status = error_text string_of none status
  message (some v) status = error_text string_of (get (codes "error") (fields_of v)) status

  failure_text-Says :
      (body : Option Json) (status : ℕ)
      → (status == 503) ≡ false
      → (status == 504) ≡ false
      → Says string_of status body (failure_text (message body status) status)
  unfolding failure_text
  failure_text-Says none status a b = rw (failure_text, a, b) bodiless
  failure_text-Says (some v) status a b = elim (Option-cases (get (codes "error") (fields_of v))) [
    | inl missing ↦ rw (failure_text, a, b, missing) (unnamed v (rw missing refl))
    | inr (w, given) ↦ elim (Bool-cases (is_nullish (some w))) [
      | inl nothing ↦ rw (failure_text, a, b, given, nothing) (unnamed v (rw given nothing))
      | inr something ↦ elim (Bool-cases (is_nonempty (string_of w))) [
        | inl full ↦
            rw (failure_text, a, b, given, something, full)
              (named v w given something (is_nonempty-true _ full))
        | inr empty ↦
            rw (failure_text, a, b, given, something, empty)
              (blank v w given something (is_nonempty-false _ empty))
      ]
    ]
  ]

  other-IsReport :
      (is_ok : Bool) (status : ℕ) (body : Option Json)
      → (status == 503) ≡ false
      → (status == 504) ≡ false
      → IsFailure is_ok body
      → IsReport string_of
          (response is_ok status body)
          (answered (raised (message body status) status))
  unfolding answered failure_status
  other-IsReport is_ok status body n503 n504 failure =
      let says = failure_text-Says body status n503 n504 in
      elim (Bool-cases (status == 409)) [
        | inl e ↦
            let same : status ≡ 409 = ground arith in
            rw (answered, failure_status, n503, n504, e)
              (subst
                (λ n.
                  Says string_of n body (failure_text (message body status) status)
                  → IsReport string_of (response is_ok n body)
                      (Response.failed (failure_text (message body status) status) n))
                (sym same) (conflict is_ok body _ failure) says)
        | inr n409 ↦
            rw (answered, failure_status, n503, n504, n409)
              (declined is_ok status body _ (ground arith) (ground arith) (ground arith) failure
                says)
      ]

  failed-IsReport :
      (is_ok : Bool) (status : ℕ) (body : Option Json)
      → IsFailure is_ok body
      → IsReport string_of
          (response is_ok status body)
          (answered (raised (message body status) status))
  unfolding answered failure_status failure_text
  failed-IsReport is_ok status body failure = elim (Bool-cases (status == 503)) [
    | inl e ↦ let same : status ≡ 503 = ground arith in rw same (unavailable is_ok body failure)
    | inr n503 ↦ elim (Bool-cases (status == 504)) [
      | inl e ↦ let same : status ≡ 504 = ground arith in rw same (doubtful is_ok body failure)
      | inr n504 ↦ other-IsReport is_ok status body n503 n504 failure
    ]
  ]

  body-IsReport :
      (is_ok : Bool) (status : ℕ) (v : Json)
      → is_truthy (some v) ≡ true
      → IsReport string_of
          (response is_ok status (some v))
          (answered (sidecar_body string_of is_ok status v))
  unfolding answered
  body-IsReport false status v truthy =
      failed-IsReport false status (some v) (out_of_range (some v))
  body-IsReport true status v truthy =
      elim (Bool-cases (is_false (get (codes "ok") (fields_of v)))) [
        | inl refused ↦
            rw refused
              (failed-IsReport true status (some v) (denied true v (is_false-true _ refused)))
        | inr fine ↦ rw fine (success status v truthy (is_false-false _ fine))
      ]

  -- A send is told as done exactly with a response in the 200 range whose body is truthy and does not
  -- say ok: false, and with this body. Every other outcome is told as a failure: a fetch that timed
  -- out, and a failed response with status 504, as 504 with the text that the send may have happened; a
  -- fetch that failed otherwise, and a failed response with status 503, as 503 with the text that the
  -- service is unavailable; a failed response with status 409 as 409, and with another one as 400, both
  -- with the message of its body, or with a fixed text where that has none or an empty one.
  pub answered-IsReport :
      (fetched : Fetched)
      → IsReport string_of fetched (answered (sidecar_request string_of fetched))
  unfolding answered sidecar_request failure_status failure_text
  answered-IsReport (rejected true) = timeout
  answered-IsReport (rejected false) = unreachable
  answered-IsReport (response is_ok status none) = failed-IsReport is_ok status none (unread is_ok)
  answered-IsReport (response is_ok status (some v)) = elim (Bool-cases (is_truthy (some v))) [
    | inl truthy ↦ rw (sidecar_request, truthy) (body-IsReport is_ok status v truthy)
    | inr nothing ↦
        rw (sidecar_request, nothing)
          (failed-IsReport is_ok status (some v) (falsy is_ok v nothing))
  ]
