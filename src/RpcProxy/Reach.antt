-- ===== src/RpcProxy/Reach.antt =====
-- Which methods of the daemon a browser reaches through app/src/pages/api/rpc.ts.
use web_gui.Base.{
  ℕ, ◌≤◌, ◌≡◌, ◌≢◌, refl, sym, ap, subst, ◌∙◌, Bool, true, false, not, ◌&&◌, List, [], ◌∷◌, ◌++◌,
  Option, none, some, arith, All, Bool-cases, inl, inr, leb,
}
use web_gui.Base.Int.{ℤ, pos, negsuc}
use web_gui.Text.{Text, codes, text_eq, text_eq_refl, is_nonempty}
use web_gui.JsMap.{Map, get, set, get-set}
use web_gui.Json.{Json, null, int, object_of}
use web_gui.Auth.RateLimit.{Attempts, check_rpc_rate_limit}
use web_gui.Gated.{RpcAnswer}
use web_gui.RpcProxy.{
  Call, is_allowed, lookahead_method, set_lookahead, allowed_call, method_call, body_call, proxy,
  answered, params_or_empty,
}
use web_gui.StakeTrade.Actions as StakeActions
use web_gui.TokenManage.Actions as TokenActions

abbrev keys {ℓ} : {V : Type ℓ} → Map V → List Text
keys [] = []
keys ((k, v) ∷ m) = k ∷ keys m

-- The methods that only the endpoints behind the step-up gate may call.
abbrev pub gated_methods : List Text
gated_methods =
    codes "address_send"
    ∷ codes "token_send"
    ∷ codes "transaction_abandon"
    ∷ (keys StakeActions.actions ++ keys TokenActions.actions)

abbrev refused_all : List Text → Bool
refused_all [] = true
refused_all (m ∷ ms) = not (is_allowed m) && refused_all ms

gated_methods-refused : refused_all gated_methods ≡ true
unfolding is_allowed text_eq
gated_methods-refused = refl

refused_all-ne :
    (method : Text) (ms : List Text)
    → is_allowed method ≡ true
    → refused_all ms ≡ true
    → All (λ m. method ≢ m) ms
refused_all-ne method [] allowed h = tt
refused_all-ne method (m ∷ ms) allowed h = (
  λ e. absurd (true-ne-false (sym (subst (λ x. is_allowed x ≡ true) e allowed) ∙ not_allowed)),
  refused_all-ne method ms allowed (ground arith),
)
  where
    not_allowed : is_allowed m ≡ false
    not_allowed = ground arith

    true-ne-false : true ≡ false → ⊥
    true-ne-false e = cc

-- A call that the proxy passes on.
pub record IsPassable (call : Call) : Type 0 where
  pub allowed : is_allowed call.method ≡ true
  pub ungated : All (λ m. call.method ≢ m) gated_methods
  pub bounded :
      text_eq call.method lookahead_method ≡ true
      → (size : ℕ) × ((get (codes "lookahead_size") call.params ≡ some (int (pos size)))
          × (size ≤ 10000))

module _ (number_of : Option Json → Option ℤ) (daemon : Call → RpcAnswer) where
  set_lookahead-call :
      (o : Option ℤ) (call : Call) {c : Call}
      → (set_lookahead number_of daemon o call).1 ≡ some c
      → (size : ℕ) × ((size ≤ 10000)
          × ((record call { params = set (codes "lookahead_size") (int (pos size)) call.params }
                ≡ c)
              × ((set_lookahead number_of daemon o call).0 ≡ answered (daemon c))))
  set_lookahead-call none call h = absurd (ground arith)
  set_lookahead-call (some (negsuc n)) call h = absurd (ground arith)
  set_lookahead-call (some (pos size)) call {c} h = elim (Bool-cases (leb size 10000)) [
    | inl small ↦
        let clamped : Call = record call {
          params = set (codes "lookahead_size") (int (pos size)) call.params;
        } in
        let same : clamped ≡ c = ground arith in
        (size, (ground arith, (same, rw small (ap (λ d. answered (daemon d)) same))))
    | inr large ↦ absurd (ground arith)
  ]

  ungated_of : (method : Text) → is_allowed method ≡ true → All (λ m. method ≢ m) gated_methods
  ungated_of method h = refused_all-ne method gated_methods h gated_methods-refused

  allowed_call-IsPassable :
      (call : Call) {c : Call}
      → is_allowed call.method ≡ true
      → (allowed_call number_of daemon call).1 ≡ some c
      → IsPassable c × ((allowed_call number_of daemon call).0 ≡ answered (daemon c))
  unfolding allowed_call
  allowed_call-IsPassable call {c} allowed h =
      elim (Bool-cases (text_eq call.method lookahead_method)) [
        | inl look ↦
            let (size, (small, (same, answer))) =
              set_lookahead-call (number_of (get (codes "lookahead_size") call.params)) call
                (rw (allowed_call, look) at h) in
            (
              subst IsPassable same (record {
                allowed = allowed;
                ungated = ungated_of call.method allowed;
                bounded = λ e. (
                  size,
                  (
                    get-set (codes "lookahead_size") (codes "lookahead_size") (int (pos size))
                          call.params
                        ∙ rw (text_eq_refl (codes "lookahead_size")) refl,
                    small,
                  ),
                );
              }),
              rw (allowed_call, look) answer,
            )
        | inr plain ↦
            let same : call ≡ c = ground arith in
            (
              subst IsPassable same (record {
                allowed = allowed;
                ungated = ungated_of call.method allowed;
                bounded = λ e. absurd (ground arith);
              }),
              rw (allowed_call, plain) (ap (λ d. answered (daemon d)) same),
            )
      ]

  method_call-IsPassable :
      (method : Option Text) (body : Map Json) {c : Call}
      → (method_call number_of daemon method body).1 ≡ some c
      → IsPassable c × ((method_call number_of daemon method body).0 ≡ answered (daemon c))
  method_call-IsPassable none body h = absurd (ground arith)
  method_call-IsPassable (some method) body h = elim (Bool-cases (is_nonempty method)) [
    | inr empty ↦ absurd (ground arith)
    | inl full ↦ elim (Bool-cases (is_allowed method)) [
      | inr refused ↦ absurd (ground arith)
      | inl allowed ↦
          rw (full, allowed)
            (allowed_call-IsPassable
              (record {
                method = method;
                params = params_or_empty (object_of (get (codes "params") body));
              })
              allowed (rw (full, allowed) at h))
    ]
  ]

  body_call-IsPassable :
      (body : Option Json) {c : Call}
      → (body_call number_of daemon body).1 ≡ some c
      → IsPassable c × ((body_call number_of daemon body).0 ≡ answered (daemon c))
  unfolding body_call
  body_call-IsPassable none h = absurd (ground arith)
  body_call-IsPassable (some null) h = absurd (ground arith)
  body_call-IsPassable (some body) h = method_call-IsPassable _ _ h

  -- If the proxy calls the daemon, then the request counter let the client through, the method is on
  -- the allowlist and none of those that the endpoints behind the step-up gate may call (sends,
  -- abandoning, and every staking, trading and token action), a lookahead size is at most 10000, and
  -- the daemon's answer decides the response.
  pub proxy-call :
      (ip : Text) (now : ℕ) (body : Option Json) (rpc : Attempts) {c : Call}
      → (proxy number_of daemon ip now body rpc).0.1 ≡ some c
      → ((check_rpc_rate_limit ip now rpc).0 ≡ true)
        × (IsPassable c × ((proxy number_of daemon ip now body rpc).0.0 ≡ answered (daemon c)))
  unfolding proxy
  proxy-call ip now body rpc h = elim (Bool-cases (check_rpc_rate_limit ip now rpc).0) [
    | inr over ↦ absurd (ground arith)
    | inl allowed ↦
        (allowed, rw (proxy, allowed) (body_call-IsPassable body (rw (proxy, allowed) at h)))
  ]
