-- ===== src/TransactionAbandon/Safety.antt =====
-- What a call of the daemon by app/src/pages/api/transaction-abandon.ts guarantees.
use web_gui.Base.{
  ℕ, ◌≤◌, ◌≡◌, ◌⊎◌, ◌&&◌, [], ◌∷◌, All, leb, refl, sym, subst, ap, ◌∙◌, true, Option, none, some,
  arith, length, inl, inr, all, Bool-cases,
}
use web_gui.Base.Int.{pos}
use web_gui.Text.{Text, codes}
use web_gui.JsMap.{Map}
use web_gui.Json.{Json, int, text, field, fields_of, trimmed}
use web_gui.Auth.Totp.{Bytes}
use web_gui.StepUp.{StepUpResult}
use web_gui.Gated.{Caller, good, passed, refused, State, gate, totp_from_body}
use web_gui.Gated.Laws.{gated-passed, gated_bad_request}
use web_gui.TransactionAbandon.{
  is_hex_digit, is_transaction_id, check_fields, check_body, call_of, called, answered, Response,
  Daemon, transaction_abandon,
}

abbrev pub IsHexDigit : ℕ → Type 0
IsHexDigit c = ((b'0' ≤ c) × (c ≤ b'9')) ⊎ (((b'a' ≤ c) × (c ≤ b'f')) ⊎ ((b'A' ≤ c) × (c ≤ b'F')))

is_hex_digit-IsHexDigit : (c : ℕ) → is_hex_digit c ≡ true → IsHexDigit c
is_hex_digit-IsHexDigit c h = elim (Bool-cases (leb b'0' c && leb c b'9')) [
  | inl digit ↦ inl (ground arith, ground arith)
  | inr letter ↦ elim (Bool-cases (leb b'a' c && leb c b'f')) [
    | inl small ↦ inr (inl (ground arith, ground arith))
    | inr capital ↦ inr (inr (ground arith, ground arith))
  ]
]

all-IsHexDigit : (s : Text) → all is_hex_digit s ≡ true → All IsHexDigit s
all-IsHexDigit [] h = tt
all-IsHexDigit (c ∷ s) h =
    (is_hex_digit-IsHexDigit c (ground arith), all-IsHexDigit s (ground arith))

-- A text of 16 to 80 hexadecimal digits.
pub record IsTransactionId (id : Text) : Type 0 where
  pub long : 16 ≤ length id
  pub short : length id ≤ 80
  pub hex : All IsHexDigit id

is_transaction_id_sound : (id : Text) → is_transaction_id id ≡ true → IsTransactionId id
unfolding is_transaction_id
is_transaction_id_sound id h = record {
  long = ground arith;
  short = ground arith;
  hex = all-IsHexDigit id (ground arith);
}

abbrev pub id_of : Json → Text
id_of value = trimmed (field (codes "transaction_id") (fields_of value))

check_body-good :
    (body : Option Json) {id : Text} {code : Text}
    → check_body body ≡ good (id, code)
    → (value : Json) × ((body ≡ some value)
        × ((id ≡ id_of value) × (IsTransactionId id × (code ≡ totp_from_body (fields_of value)))))
unfolding check_body check_fields
check_body-good none h = absurd (ground arith)
check_body-good (some value) {id} {code} h = elim (Bool-cases (is_transaction_id (id_of value))) [
  | inr invalid ↦ absurd (ground arith)
  | inl valid ↦
      let same : id_of value ≡ id = ground arith in
      (
        value,
        (
          refl,
          (sym same, (subst IsTransactionId same (is_transaction_id_sound _ valid), ground arith)),
        ),
      )
]

-- If a transaction is abandoned, then the gate passed with the code of the body, the daemon is called
-- with the account 0 and the trimmed identifier of the body, which is 16 to 80 hexadecimal digits, and
-- with nothing else, and its answer decides the response.
pub transaction_abandon-passed :
    (hmac_sha1 : Bytes → Bytes → Bytes) (daemon : Daemon) (caller : Caller) (body : Option Json)
    (s : State) {response : Response} {call : Map Json}
    → (transaction_abandon hmac_sha1 daemon caller body s).0 ≡ passed (response, call)
    → (value : Json) × ((body ≡ some value)
        × (((gate hmac_sha1 caller (totp_from_body (fields_of value)) s).0 ≡ StepUpResult.ok)
            × (IsTransactionId (id_of value)
                × ((call
                      ≡ (codes "account", int (pos 0))
                        ∷ (codes "transaction_id", text (id_of value))
                        ∷ [])
                    × (response ≡ answered (daemon call))))))
unfolding transaction_abandon call_of
transaction_abandon-passed hmac_sha1 daemon caller body s h =
    let (id, (code, (checked, (gate_ok, work)))) =
      gated-passed hmac_sha1 caller (called daemon) s (check_body body) h in
    let (value, (same, (id_is, (valid, code_is)))) = check_body-good body checked in
    (
      value,
      (
        same,
        (
          subst (λ c. (gate hmac_sha1 caller c s).0 ≡ StepUpResult.ok) code_is gate_ok,
          (
            subst IsTransactionId id_is valid,
            (
              ap (λ w. w.1) work ∙ ap call_of id_is,
              ap (λ w. w.0) work ∙ sym (ap (λ w. answered (daemon w.1)) work),
            ),
          ),
        ),
      ),
    )

-- An abandon that is refused with status 400 leaves the request counter, the used codes and the
-- failure counts as they were, so it consumes no code.
pub transaction_abandon-refused :
    (hmac_sha1 : Bytes → Bytes → Bytes) (daemon : Daemon) (caller : Caller) (body : Option Json)
    (s : State) {error : Text}
    → (transaction_abandon hmac_sha1 daemon caller body s).0 ≡ refused error 400
    → (transaction_abandon hmac_sha1 daemon caller body s).1 ≡ s
unfolding transaction_abandon
transaction_abandon-refused hmac_sha1 daemon caller body s h =
    gated_bad_request hmac_sha1 caller (called daemon) s (check_body body) h
