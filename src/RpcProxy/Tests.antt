-- ===== src/RpcProxy/Tests.antt =====
-- Runs of app/src/pages/api/rpc.ts on concrete bodies.
use web_gui.Base.{ℕ, ◌≡◌, refl, true, [], ◌∷◌, Option, none, some}
use web_gui.Base.Int.{ℤ, pos, negsuc}
use web_gui.Text.{Text, codes}
use web_gui.Json.{Json, int, text, obj, member, end}
use web_gui.Auth.RateLimit.{check_rpc_rate_limit}
use web_gui.Gated.{RpcAnswer, rpc_error}
use web_gui.Gated.Fixtures.{run_gate}
use web_gui.RpcProxy.{
  Call, error, proxy, body_call, allowed_call, is_allowed, is_forwardable, answered,
}
use web_gui.RpcProxy.Reach.{IsPassable, proxy-call}

abbrev number_of : Option Json → Option ℤ
number_of (some (int z)) = some z
number_of _ = none

abbrev daemon : Call → RpcAnswer
daemon call = rpc_error (codes "wallet closed") (negsuc 0)

abbrev lookahead : ℤ → Option Json
lookahead size = some (
    obj (
      member (codes "method") (text (codes "wallet_set_lookahead_size"))
        (member (codes "params") (obj (member (codes "lookahead_size") (int size) end)) end)))

run : Unit {0}
unfolding run_gate proxy body_call allowed_call is_allowed is_forwardable answered
run = tt

abbrev ip : Text
ip = codes "10.0.0.1"

too_large :
    (proxy number_of daemon ip 60000 (lookahead (pos 10001)) []).0
    ≡ (error (codes "lookahead_size must be an integer in [0, 10000]") 400 (pos 0), none)
unfolding run
too_large = refl

not_allowed :
    (proxy number_of daemon ip 60000
      (some (obj (member (codes "method") (text (codes "address_send")) end)))
      []).0
    ≡ (error (codes "Method \"address_send\" is not allowed") 403 (pos 0), none)
unfolding run
not_allowed = refl

abbrev resize : Call
resize = record {
  method = codes "wallet_set_lookahead_size";
  params = (codes "lookahead_size", int (pos 20)) ∷ [];
}

resized : (proxy number_of daemon ip 60000 (lookahead (pos 20)) []).0.1 ≡ some resize
unfolding run
resized = refl

proxy-call_example :
    ((check_rpc_rate_limit ip 60000 []).0 ≡ true)
    × (IsPassable resize
        × ((proxy number_of daemon ip 60000 (lookahead (pos 20)) []).0.0
            ≡ answered (daemon resize)))
proxy-call_example = proxy-call number_of daemon ip 60000 (lookahead (pos 20)) [] resized

abbrev bad_gateway : ℕ
bad_gateway = 502

shown : answered (daemon resize) ≡ error (codes "wallet closed") 502 (negsuc 0)
unfolding run
shown = refl
