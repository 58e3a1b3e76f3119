-- ===== src/Acp/Session.antt =====
-- The session of the adapter of crates/atlas-acp-adapter/src/lib.rs: its methods, `dispatch` and the loop
-- over the socket. What it asks of the hub client is a record of operations (HubClient).
pub mod Order
use atlas_bot.Common.{
  ℕ, ◌%◌, Text, codes, text_eq, Bool, true, false, not, Option, none, some, List, [], ◌∷◌, ◌++◌,
  ◌⊎◌, inl, inr, map, if◌then◌else◌, is_empty, unwrap_or, ◌or_else◌,
}
use atlas_bot.Gateway.Types.{default_agent_id}
use atlas_bot.Json.{
  Json, null, bool, num, str, array, object, get_key, get_str, get_array, as_str, as_u64, and_then,
}
use atlas_bot.Acp.Replies.{
  frozen_whitelist, is_whitelisted, err_method_not_found, err_invalid_params, err_internal, rpc_ok,
  rpc_error, or_null, extract_prompt_text, agent_row, session_of, Incoming, is_notification,
  method_of, text, ping, close, other, failed,
}

-- The client of the hub with states `H`; an error is its text.
pub record HubClient (H : Type 0) : Type 0 where
  pub hello_ack : Json
  pub capabilities : List Text
  pub assert_no_acp_capabilities : Option Text
  pub roster : H → (Text ⊎ Json) × H
  pub list_agents : Text → H → (Text ⊎ Json) × H
  pub prompt_closed_loop : Text → Text → H → (Text ⊎ (Json × Json × Json)) × H
  pub interrupt : Text → H → (Text ⊎ Json) × H
  pub transcript_tail : Text → ℕ → H → (Text ⊎ Json) × H

pub record AcpSession (H : Type 0) : Type 0 where
  pub hub : H
  pub selected_agent : Text
  pub session_id : Option Text
  pub initialized : Bool

module _ {H : Type 0} (hub : HubClient H) (version : Text) where
  opened : H → AcpSession H
  opened h = record {
    hub = h;
    selected_agent = default_agent_id;
    session_id = none;
    initialized = false;
  }

  checked : H → Option Text → Text ⊎ AcpSession H
  unfolding opened
  checked h none = inr (opened h)
  checked h (some e) = inl e

  -- over what connecting to the hub gives
  connect : Text ⊎ H → Text ⊎ AcpSession H
  unfolding checked
  connect (inl e) = inl e
  connect (inr h) = checked h hub.assert_no_acp_capabilities

  handle_initialize : Json → AcpSession H → Json × AcpSession H
  unfolding rpc_ok get_key
  handle_initialize id s = (
    rpc_ok id (
        object (
          ("protocolVersion", num 1)
          ∷ (
            "agentCapabilities",
            object (
                ("session", object (("prompt", bool true) ∷ ("cancel", bool true) ∷ []))
                ∷ ("atlasAlphaSubset", bool true)
                ∷ []),
          )
          ∷ (
            "agentInfo",
            object (
                ("name", str (codes "atlas-acp-adapter"))
                ∷ ("version", str version)
                ∷ ("title", str (codes "atlas-bot α ACP adapter (subset)"))
                ∷ []),
          )
          ∷ (
            "hub",
            object (
                ("connection_id", or_null (get_key "connection_id" hub.hello_ack))
                ∷ ("computer_hub_version", or_null (get_key "computer_hub_version" hub.hello_ack))
                ∷ ("capabilities", array (map str hub.capabilities))
                ∷ []),
          )
          ∷ ("whitelist", array (map str frozen_whitelist))
          ∷ [])),
    record s { initialized = true },
  )

  abbrev with_hub : H → AcpSession H → AcpSession H
  with_hub h s = record s { hub = h }

  abbrev hot : Text ⊎ Json → Json
  hot (inl e) = null
  hot (inr v) = v

  listed : Json → Text → (Text ⊎ Json) × H → AcpSession H → Json × AcpSession H
  unfolding rpc_error rpc_ok agent_row get_array
  listed id agent (inl e, h) s = (rpc_error id err_internal e, with_hub h s)
  listed id agent (inr roster, h) s =
      let (extra, h') = hub.list_agents agent h in
      (
        rpc_ok id (
            object (
              ("agents", array (map agent_row (unwrap_or (get_array "agents" roster) [])))
              ∷ ("listAgents", hot extra)
              ∷ ("selectedAgentId", str agent)
              ∷ [])),
        with_hub h' s,
      )

  handle_agents_list : Json → AcpSession H → Json × AcpSession H
  unfolding listed
  handle_agents_list id s = listed id s.selected_agent (hub.roster s.hub) s

  handle_session_new : Text → Json → Json → AcpSession H → Json × AcpSession H
  unfolding rpc_ok get_key
  handle_session_new uuid id params s =
      let agent =
        unwrap_or (and_then (get_key "agentId" params or_else get_key "agent_id" params) as_str)
          s.selected_agent in
      let sid = codes "sess_" ++ uuid in
      (
        rpc_ok id (object (("sessionId", str sid) ∷ ("agentId", str agent) ∷ [])),
        record s { selected_agent = agent; session_id = some sid },
      )

  looped :
      Json → Text → Text → (Text ⊎ (Json × Json × Json)) × H → AcpSession H → Json × AcpSession H
  unfolding rpc_error rpc_ok get_key
  looped id sid agent (inl e, h) s = (rpc_error id err_internal e, with_hub h s)
  looped id sid agent (inr (send, turn, tail), h) s = (
    rpc_ok id (
        object (
          ("sessionId", str sid)
          ∷ ("agentId", str agent)
          ∷ ("stopReason", str (codes "end_turn"))
          ∷ ("accepted", unwrap_or (get_key "accepted" send) (bool true))
          ∷ ("turn", turn)
          ∷ ("transcriptTail", tail)
          ∷ ("preview", or_null (and_then (get_key "event" turn) (get_key "preview")))
          ∷ [])),
    with_hub h s,
  )

  prompted : Json → Json → Text ⊎ Text → AcpSession H → Json × AcpSession H
  unfolding rpc_error looped extract_prompt_text get_str
  prompted id params (inl e) s = (rpc_error id err_invalid_params e, s)
  prompted id params (inr sid) s =
      let agent = unwrap_or (get_str "agentId" params) s.selected_agent in
      let text = extract_prompt_text params in
      if is_empty text
      then (rpc_error id err_invalid_params (codes "empty prompt"), s)
      else looped id sid agent (hub.prompt_closed_loop agent text s.hub) s

  unfoldable pub handle_session_prompt : Json → Json → AcpSession H → Json × AcpSession H
  unfolding rpc_error prompted session_of get_str
  handle_session_prompt id params s =
      if not s.initialized
      then (rpc_error id err_invalid_params (codes "call initialize first"), s)
      else prompted id params (session_of (get_str "sessionId" params) s.session_id) s

  replied : Json → (Json → Json) → (Text ⊎ Json) × H → AcpSession H → Json × AcpSession H
  unfolding rpc_error rpc_ok
  replied id f (inl e, h) s = (rpc_error id err_internal e, with_hub h s)
  replied id f (inr v, h) s = (rpc_ok id (f v), with_hub h s)

  handle_session_cancel : Json → Json → AcpSession H → Json × AcpSession H
  unfolding replied get_str
  handle_session_cancel id params s =
      let agent = unwrap_or (get_str "agentId" params) s.selected_agent in
      replied id (λ r. object (("agentId", str agent) ∷ ("interrupt", r) ∷ []))
        (hub.interrupt agent s.hub) s

  -- the limit `as u32`
  handle_transcript_tail : Json → Json → AcpSession H → Json × AcpSession H
  unfolding replied get_key
  handle_transcript_tail id params s =
      let agent =
        unwrap_or (and_then (get_key "agentId" params or_else get_key "id" params) as_str)
          s.selected_agent in
      let limit = unwrap_or (and_then (get_key "limit" params) as_u64) 20 % 4294967296 in
      replied id (λ tail. tail) (hub.transcript_tail agent limit s.hub) s

  handled : Text → Json → Text → Json → AcpSession H → Json × AcpSession H
  unfolding handle_initialize handle_agents_list handle_session_new handle_session_prompt
      handle_session_cancel handle_transcript_tail rpc_error
  handled uuid id method params s =
      if text_eq method (codes "initialize")
      then handle_initialize id s
      else if text_eq method (codes "agents/list")
      then handle_agents_list id s
      else if text_eq method (codes "session/new")
      then handle_session_new uuid id params s
      else if text_eq method (codes "session/prompt")
      then handle_session_prompt id params s
      else if text_eq method (codes "session/cancel")
      then handle_session_cancel id params s
      else if text_eq method (codes "transcript/tail")
      then handle_transcript_tail id params s
      else (rpc_error id err_method_not_found (codes "method not in α whitelist: " ++ method), s)

  unfoldable pub dispatch : Text → Json → AcpSession H → Json × AcpSession H
  unfolding handled is_whitelisted rpc_error get_key get_str
  dispatch uuid req s =
      let id = or_null (get_key "id" req) in
      let method = method_of req in
      let params = unwrap_or (get_key "params" req) (object []) in
      if is_empty method
      then (rpc_error id err_invalid_params (codes "missing method"), s)
      else if not (is_whitelisted method)
      then (rpc_error id err_method_not_found (codes "method not in α whitelist: " ++ method), s)
      else handled uuid id method params s

  -- The loop of `handle_acp_socket` over what comes: the answers that are sent, and the session at its end.
  module _ (from_str : Text → Option Json) where
    -- the answer to a value, and whether the loop goes on
    answered : Text → Json → Bool → AcpSession H → List Json × Bool × AcpSession H
    unfolding dispatch is_notification
    answered uuid v sends s =
        if is_notification v
        then ([], true, s)
        else (let (reply, s') = dispatch uuid v s in (reply ∷ [], sends, s'))

    received : Text → Option Json → Bool → AcpSession H → List Json × Bool × AcpSession H
    unfolding answered rpc_error
    received uuid none sends s =
        (rpc_error null err_invalid_params (codes "invalid JSON") ∷ [], sends, s)
    received uuid (some v) sends s = answered uuid v sends s

    step : Incoming → AcpSession H → List Json × Bool × AcpSession H
    unfolding received
    step (text t uuid sends) s = received uuid (from_str t) sends s
    step (ping sends) s = ([], sends, s)
    step close s = ([], false, s)
    step failed s = ([], false, s)
    step other s = ([], true, s)

    unfoldable pub handle_acp_socket : List Incoming → AcpSession H → List Json × AcpSession H
    unfolding step
    handle_acp_socket [] s = ([], s)
    handle_acp_socket (m ∷ ms) s =
        let (replies, goes_on, s') = step m s in
        let (later, t) = handle_acp_socket ms s' in
        if goes_on then (replies ++ later, t) else ([], s')

    served : Text ⊎ AcpSession H → List Incoming → List Json
    unfolding handle_acp_socket rpc_error
    served (inl e) ms = rpc_error null err_internal (codes "hub connect failed: " ++ e) ∷ []
    served (inr s) ms = (handle_acp_socket ms s).0

    -- the answers to a client
    serve : Text ⊎ H → List Incoming → List Json
    unfolding served connect
    serve hub_connection ms = served (connect hub_connection) ms
