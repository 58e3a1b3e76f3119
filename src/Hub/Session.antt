-- ===== src/Hub/Session.antt =====
-- `Session` of crates/atlas-bot-hub/src/lib.rs: the hello that opens a connection, and the requests
-- that follow.
pub mod Opening
use atlas_bot.Common.{
  Text, codes, text_eq, Bool, true, false, not, ◌&&◌, Option, none, some, List, [], ◌∷◌, ◌⊎◌, inl,
  inr, if◌then◌else◌, is_some,
}
use atlas_bot.Json.{Json, get_key}
use atlas_bot.Hub.Types.{Hub, GatewayOps, Clock, Request, Wire}
use atlas_bot.Hub.Errors.{
  RpcError, relay, identity_unavailable, Outcome, result, error, Response, invalid_params,
}
use atlas_bot.Hub.Events.{register_connection}
use atlas_bot.Hub.Rpc.{hello_ack, handle_rpc}
use atlas_bot.Hub.Auth.{
  AuthConfig, AuthMode, dev, static, oidc, AuthError, Jwt, authenticate, to_jsonrpc,
  unauthorized_error,
}

pub record Session : Type 0 where
  pub connection_id : Text
  pub hello_done : Bool
  pub auth_config : AuthConfig
  pub bearer : Option Text

-- `Session::with_auth`
unfoldable pub with_auth : AuthConfig → Option Text → Session
with_auth config bearer = record {
  connection_id = [];
  hello_done = false;
  auth_config = config;
  bearer = bearer;
}

-- What a frame is answered with: an acknowledgement or an error alone, or a response.
pub data Reply : Type 0 where
  ack : Json → Reply
  refusal : RpcError → Reply
  response : Response → Reply

-- `serde_json` on the text of a frame and on the request in it
pub record Frames : Type 0 where
  pub parse : Text → Option Json
  pub request : Json → Option Request

-- the acknowledged connection and user, or the error
with_user : Text → RpcError ⊎ Text → RpcError ⊎ (Text × Text)
with_user user (inl e) = inl e
with_user user (inr conn) = inr (conn, user)

admit : Wire → Clock → Json → AuthError ⊎ Text → RpcError ⊎ (Text × Text)
unfolding with_user
admit wire clock hello (inl e) = inl (to_jsonrpc e)
admit wire clock hello (inr user) = with_user user (hello_ack wire clock hello)

unfoldable pub gate_hello : Wire → Clock → Jwt → Session → Json → RpcError ⊎ (Text × Text)
unfolding admit
gate_hello wire clock jwt s hello = admit wire clock hello (authenticate jwt s.auth_config s.bearer)

not_dev : AuthMode → Bool
not_dev dev = false
not_dev static = true
not_dev oidc = true

hello_required : Session → RpcError
unfolding not_dev
hello_required s =
    if not_dev s.auth_config.mode
    then unauthorized_error (codes "hello required (auth gate)")
    else relay record {
      code = identity_unavailable;
      retryable = true;
      upstream_text = some (codes "hello required");
      reason = none;
    }

module _ {G : Type 0} (wire : Wire) (clock : Clock) (gw : GatewayOps G) (jwt : Jwt) where
  opened : Text → Session → Hub G → Session × Hub G
  opened conn s h =
      (record s { connection_id = conn; hello_done = true }, register_connection conn h)

  -- the answer to a hello that stands alone
  greet : RpcError ⊎ (Text × Text) → Session → Hub G → List Reply × (Session × Hub G)
  unfolding opened
  greet (inl e) s h = (refusal e ∷ [], (s, h))
  greet (inr (conn, user)) s h = (ack (wire.ack_value conn user) ∷ [], opened conn s h)

  bare_hello : Text ⊎ Json → Session → Hub G → List Reply × (Session × Hub G)
  unfolding greet
  bare_hello (inl e) s h = ([], (s, h))
  bare_hello (inr hello) s h = greet (gate_hello wire clock jwt s hello) s h

  answer : Request → Outcome → Reply
  answer req outcome = response record { id = req.id; outcome = outcome }

  -- the answer to a hello that is a request
  greet_request :
      Request → RpcError ⊎ (Text × Text) → Session → Hub G → List Reply × (Session × Hub G)
  unfolding opened answer
  greet_request req (inl e) s h = (answer req (error e) ∷ [], (s, h))
  greet_request req (inr (conn, user)) s h =
      (answer req (result (wire.ack_value conn user)) ∷ [], opened conn s h)

  hello_request : Request → Text ⊎ Json → Session → Hub G → List Reply × (Session × Hub G)
  unfolding greet_request answer
  hello_request req (inl e) s h = (answer req (error (invalid_params e)) ∷ [], (s, h))
  hello_request req (inr hello) s h = greet_request req (gate_hello wire clock jwt s hello) s h

  on_request : Request → Session → Hub G → List Reply × (Session × Hub G)
  unfolding hello_request hello_required answer
  on_request req s h =
      if s.hello_done
      then (let (r, h') = handle_rpc wire clock gw s.connection_id req h in
          (response r ∷ [], (s, h')))
      else if text_eq req.method (codes "hello")
      then hello_request req (wire.hello req.params) s h
      else (answer req (error (hello_required s)) ∷ [], (s, h))

  is_bare_hello : Session → Json → Bool
  is_bare_hello s v =
      not s.hello_done
      && not (is_some (get_key "jsonrpc" v))
      && is_some (get_key "protocol_version" v)

  is_request : Json → Bool
  is_request v =
      is_some (get_key "jsonrpc" v) && is_some (get_key "id" v) && is_some (get_key "method" v)

  asked : Option Request → Session → Hub G → List Reply × (Session × Hub G)
  unfolding on_request
  asked none s h = ([], (s, h))
  asked (some req) s h = on_request req s h

  on_value : Frames → Json → Session → Hub G → List Reply × (Session × Hub G)
  unfolding bare_hello asked is_bare_hello is_request
  on_value frames v s h =
      if is_bare_hello s v
      then bare_hello (wire.hello v) s h
      else if is_request v
      then asked (frames.request v) s h
      else ([], (s, h))

  parsed : Frames → Option Json → Session → Hub G → List Reply × (Session × Hub G)
  unfolding on_value
  parsed frames none s h = ([], (s, h))
  parsed frames (some v) s h = on_value frames v s h

  unfoldable pub on_text : Frames → Text → Session → Hub G → List Reply × (Session × Hub G)
  unfolding parsed
  on_text frames text s h = parsed frames (frames.parse text) s h
