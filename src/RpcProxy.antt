-- ===== src/RpcProxy.antt =====
-- app/src/pages/api/rpc.ts and app/src/lib/rpc-allowlist.ts: the proxy that passes the browser's calls
-- on to the wallet daemon. `number_of` is Number(v) where that is an integer, none otherwise; the
-- codes of the daemon's errors are integers.
pub mod Reach
pub mod Redaction
mod Tests
use web_gui.Base.{
  ℕ, ◌+◌, Bool, true, false, not, ◌&&◌, ◌||◌, List, [], ◌∷◌, ◌++◌, Option, none, some, ◌==◌, leb,
  if◌then◌else◌, any,
}
use web_gui.Base.Int.{ℤ, pos, negsuc}
use web_gui.Text.{Text, codes, text_eq, is_nonempty}
use web_gui.JsMap.{Map, get, set}
use web_gui.Json.{Json, null, int, field, fields_of, object_of}
use web_gui.Auth.RateLimit.{Attempts, check_rpc_rate_limit}
use web_gui.Gated.{RpcAnswer, rpc_error, other_error, unavailable}

abbrev pub allowed_rpc_methods : List Text
allowed_rpc_methods =
    codes "node_best_block_height"
    ∷ codes "node_chainstate_info"
    ∷ codes "account_balance"
    ∷ codes "address_new"
    ∷ codes "address_show"
    ∷ codes "staking_status"
    ∷ codes "staking_start"
    ∷ codes "staking_stop"
    ∷ codes "staking_list_pools"
    ∷ codes "staking_list_created_block_ids"
    ∷ codes "delegation_list_ids"
    ∷ codes "wallet_info"
    ∷ codes "wallet_best_block"
    ∷ codes "node_get_tokens_info"
    ∷ codes "order_list_own"
    ∷ codes "order_list_all_active"
    ∷ codes "wallet_lock_private_keys"
    ∷ codes "wallet_set_lookahead_size"
    ∷ codes "transaction_list_by_address"
    ∷ codes "transaction_list_pending"
    ∷ codes "account_utxos"
    ∷ []

unfoldable pub is_allowed : Text → Bool
is_allowed method = any (λ m. text_eq m method) allowed_rpc_methods

pub record Call : Type 0 where
  pub method : Text
  pub params : Map Json

pub data Response : Type 0 where
  ok : (result : Json) → Response
  error : (message : Text) → (status : ℕ) → (code : ℤ) → Response
  -- reading the method of a null body throws
  thrown : Response

abbrev pub bad_request : Text → Response
bad_request message = error message 400 (pos 0)

abbrev pub params_or_empty : Option (Map Json) → Map Json
params_or_empty none = []
params_or_empty (some params) = params

-- An integer in [0, 10000].
abbrev pub is_lookahead : Option ℤ → Bool
is_lookahead (some (pos size)) = leb size 10000
is_lookahead _ = false

abbrev pub lookahead_method : Text
lookahead_method = codes "wallet_set_lookahead_size"

-- A code that is neither of the transport band nor an HTTP status: an application error (-1) or one of
-- the JSON-RPC protocol.
unfoldable pub is_forwardable : ℤ → Bool
is_forwardable (pos code) = false
is_forwardable (negsuc n) = (n == 0) || (leb 32001 n && leb n 32699)

unfoldable pub answered : RpcAnswer → Response
answered (RpcAnswer.result v) = ok v
answered (rpc_error message code) =
    error (if is_forwardable code then message else unavailable) 502 code
answered other_error = error unavailable 502 (negsuc 0)

module _ (number_of : Option Json → Option ℤ) (daemon : Call → RpcAnswer) where
  -- The call, and the one that reached the daemon.
  abbrev pub called : Call → Response × Option Call
  called call = (answered (daemon call), some call)

  abbrev pub set_lookahead : Option ℤ → Call → Response × Option Call
  set_lookahead (some (pos size)) call =
      if leb size 10000
      then called
          (record call { params = set (codes "lookahead_size") (int (pos size)) call.params })
      else (bad_request (codes "lookahead_size must be an integer in [0, 10000]"), none)
  set_lookahead _ call =
      (bad_request (codes "lookahead_size must be an integer in [0, 10000]"), none)

  unfoldable pub allowed_call : Call → Response × Option Call
  allowed_call call =
      if text_eq call.method lookahead_method
      then set_lookahead (number_of (get (codes "lookahead_size") call.params)) call
      else called call

  abbrev pub method_call : Option Text → Map Json → Response × Option Call
  method_call none body = (bad_request (codes "\"method\" must be a non-empty string"), none)
  method_call (some method) body =
      if not (is_nonempty method)
      then (bad_request (codes "\"method\" must be a non-empty string"), none)
      else if not (is_allowed method)
      then (error (codes "Method \"" ++ (method ++ codes "\" is not allowed")) 403 (pos 0), none)
      else allowed_call (record {
        method = method;
        params = params_or_empty (object_of (get (codes "params") body));
      })

  unfoldable pub body_call : Option Json → Response × Option Call
  body_call none = (bad_request (codes "Invalid JSON body"), none)
  body_call (some null) = (thrown, none)
  body_call (some body) = method_call (field (codes "method") (fields_of body)) (fields_of body)

  unfoldable pub proxy : Text → ℕ → Option Json → Attempts → (Response × Option Call) × Attempts
  proxy ip now body rpc =
      let (allowed, rpc') = check_rpc_rate_limit ip now rpc in
      if not allowed
      then ((error (codes "Rate limit exceeded") 429 (pos 0), none), rpc')
      else (body_call body, rpc')
