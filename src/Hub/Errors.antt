-- ===== src/Hub/Errors.antt =====
-- The errors of crates/atlas-bot-hub/src/lib.rs and their JSON-RPC form.
use atlas_bot.Common.{ℕ, Text, codes, Bool, true, false, Option, none, some, [], ◌∷◌, ◌++◌}
use atlas_bot.Json.{Json, str, object}
use atlas_bot.Gateway.Types.{
  GatewayError, unknown_method, invalid_args, agent_not_found, upstream, rejected,
}

pub data RelayCode : Type 0 where
  command_rejected upstream_error identity_unavailable link_required : RelayCode

-- `BotRelayError`; its detail holds the upstream text alone
pub record RelayError : Type 0 where
  pub code : RelayCode
  pub retryable : Bool
  pub upstream_text : Option Text
  pub reason : Option Text

-- `JsonRpcError`: one that is made from a relay error, or with a code of its own, here without the
-- minus sign.
pub data RpcError : Type 0 where
  relay : RelayError → RpcError
  rpc_error : ℕ → Text → Option Json → RpcError

pub data Outcome : Type 0 where
  result : Json → Outcome
  error : RpcError → Outcome

pub record Response : Type 0 where
  pub id : Json
  pub outcome : Outcome

rejection : Option Text → Text → RpcError
rejection detail why =
    relay record {
      code = command_rejected;
      retryable = false;
      upstream_text = detail;
      reason = some why;
    }

unfoldable pub upstream_failure : Bool → Text → RpcError
upstream_failure retryable detail = relay record {
  code = upstream_error;
  retryable = retryable;
  upstream_text = some detail;
  reason = none;
}

unfoldable pub reject_args : Text → RpcError
unfolding rejection
reject_args msg = rejection (some msg) (codes "args_invalid")

unfoldable pub not_yet_enabled : Text → RpcError
unfolding rejection
not_yet_enabled method = rejection (some method) (codes "not_yet_enabled")

unfoldable pub agent_id_mismatch : RpcError
unfolding rejection
agent_id_mismatch = rejection none (codes "agent_id_mismatch")

unfoldable pub unknown_agent : Text → RpcError
unfolding rejection
unknown_agent id = rejection (some (codes "unknown agent " ++ id)) (codes "args_invalid")

unfoldable pub invalid_params : Text → RpcError
invalid_params detail =
    rpc_error 32602 (codes "invalid_params") (some (object (("detail", str detail) ∷ [])))

-- `GatewayError`'s `Display`
unfoldable pub to_string : GatewayError → Text
to_string (unknown_method m) = codes "gateway/unknown-method: " ++ m
to_string (invalid_args m) = codes "invalid args: " ++ m
to_string (agent_not_found id) = codes "agent not found: " ++ id
to_string (upstream m) = codes "upstream: " ++ m
to_string (rejected why detail) = codes "command_rejected/" ++ why

unfoldable pub gateway_error_to_rpc : GatewayError → RpcError
unfolding rejection upstream_failure to_string
gateway_error_to_rpc (unknown_method m) = rejection none (codes "gateway/unknown-method")
gateway_error_to_rpc (invalid_args m) = rejection (some m) (codes "args_invalid")
gateway_error_to_rpc (agent_not_found id) = upstream_failure true (to_string (agent_not_found id))
gateway_error_to_rpc (upstream m) = upstream_failure true (to_string (upstream m))
gateway_error_to_rpc (rejected why detail) = rejection detail why
