-- ===== src/RpcProxy/Redaction.antt =====
-- What the browser learns of a failed call through app/src/pages/api/rpc.ts.
use web_gui.Base.{ℕ, ◌+◌, ◌≤◌, ◌≡◌, sym, ap, ◌∙◌, ◌⊎◌, inl, inr, true, arith, Bool-cases, ◌==◌}
use web_gui.Base.Int.{ℤ, pos, negsuc}
use web_gui.Text.{Text}
use web_gui.Gated.{RpcAnswer, rpc_error, other_error, unavailable}
use web_gui.RpcProxy.{error, is_forwardable, answered}

-- -1, or between -32700 and -32002; `negsuc n` is -(n + 1).
pub data IsPublicCode : ℤ → Type 0 where
  application : IsPublicCode (negsuc 0)
  protocol : (n : ℕ) → 32002 ≤ n + 1 → n + 1 ≤ 32700 → IsPublicCode (negsuc n)

is_forwardable-IsPublicCode : (code : ℤ) → is_forwardable code ≡ true → IsPublicCode code
unfolding is_forwardable
is_forwardable-IsPublicCode (pos code) h = absurd (ground arith)
is_forwardable-IsPublicCode (negsuc n) h = elim (Bool-cases (n == 0)) [
  | inl first ↦ let e : n ≡ 0 = ground arith in rw e application
  | inr later ↦ protocol n (ground arith) (ground arith)
]

-- A failed call is answered with status 502, and its message is either the fixed one or that of the
-- daemon, which is shown only with the code -1 or one between -32700 and -32002.
pub answered-error :
    (answer : RpcAnswer) {message : Text} {status : ℕ} {code : ℤ}
    → answered answer ≡ error message status code
    → (status ≡ 502)
      × ((message ≡ unavailable) ⊎ ((answer ≡ rpc_error message code) × IsPublicCode code))
unfolding answered
answered-error (RpcAnswer.result v) h = absurd (ground arith)
answered-error other_error h = (ground arith, inl (ground arith))
answered-error (rpc_error m c) {message} {status} {code} h = elim (Bool-cases (is_forwardable c)) [
  | inl shown ↦
      let same : rpc_error m c ≡ rpc_error message code = ground arith in
      let same_code : c ≡ code = ground arith in
      (
        ground arith,
        inr (same, is_forwardable-IsPublicCode code (ap is_forwardable (sym same_code) ∙ shown)),
      )
  | inr hidden ↦ (ground arith, inl (ground arith))
]
