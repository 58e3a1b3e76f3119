-- ===== src/Hub/Rpc.antt =====
-- The requests of crates/atlas-bot-hub/src/lib.rs: `handle_rpc`, `handle_command`,
-- `handle_vnc_descriptor` and `hello_ack`.
pub mod Cold
use atlas_bot.Common.{
  ℕ, Text, codes, text_eq, Bool, false, not, Option, none, some, List, [], ◌∷◌, ◌++◌, ◌⊎◌, inl, inr,
  Dict, get, insert, remove, contains_key, if◌then◌else◌, unwrap_or, succ_u64,
}
use atlas_bot.Json.{Json, get_str}
use atlas_bot.Gateway.Types.{Result, ok, err, upstream}
use atlas_bot.Hub.Types.{
  no_subs, Hub, GatewayOps, Clock, Method, bot_status, bot_roster, bot_transcript_offbox,
  bot_subscribe, bot_unsubscribe, bot_command, bot_vnc_descriptor, bot_bind_conversation,
  hello_method, other_method, OffboxParams, SubscribeParams, CommandParams, Request, Wire,
}
use atlas_bot.Hub.Errors.{
  RpcError, rpc_error, Outcome, result, error, Response, upstream_failure, reject_args,
  not_yet_enabled, agent_id_mismatch, unknown_agent, invalid_params, gateway_error_to_rpc,
}
use atlas_bot.Hub.Offbox.{page_offbox}
use atlas_bot.Hub.Events.{register_connection}
use atlas_bot.Hub.After.{after_command_success}

-- whether `args.agentId` names another agent than the envelope
unfoldable pub mismatch : CommandParams → Bool
mismatch p = elim (get_str "agentId" p.args) [
  | none ↦ false
  | some id ↦ not (text_eq id p.agent_id)
]

vnc_reply : Wire → Result Json → Outcome
vnc_reply wire (err e) = error (gateway_error_to_rpc e)
vnc_reply wire (ok raw) = elim (wire.vnc_value raw) [
  | some shaped ↦ result shaped
  | none ↦ elim (get_str "vncUrl" raw) [
    | some url ↦ result raw
    | none ↦ error (gateway_error_to_rpc (upstream (codes "malformed vnc descriptor")))
  ]
]

module _ {G : Type 0} (wire : Wire) (clock : Clock) (gw : GatewayOps G) where
  command_reply : CommandParams → Result Json → Hub G → Outcome × Hub G
  command_reply p (ok r) h =
      (result r, after_command_success wire clock p.name p.agent_id p.args r h)
  command_reply p (err e) h = (error (gateway_error_to_rpc e), h)

  call_gateway : CommandParams → Hub G → Outcome × Hub G
  unfolding command_reply
  call_gateway p h =
      let (r, g) = gw.invoke p.agent_id p.name p.args h.gateway in
      command_reply p r (record h { gateway = g })

  unfoldable pub handle_command : CommandParams → Hub G → Outcome × Hub G
  unfolding call_gateway
  handle_command p h = if mismatch p then (error agent_id_mismatch, h) else call_gateway p h

  unfoldable pub handle_vnc_descriptor : Text → Hub G → Outcome × Hub G
  unfolding vnc_reply
  handle_vnc_descriptor id h =
      let (r, g) = gw.vnc_descriptor id h.gateway in (vnc_reply wire r, record h { gateway = g })

-- `hello_ack`: the connection's id, for the right kind of client
unfoldable pub hello_ack : Wire → Clock → Json → RpcError ⊎ Text
hello_ack wire clock hello = elim (wire.bot_client hello) [
  | some kind ↦ inl (upstream_failure false (codes "unsupported kind " ++ kind))
  | none ↦ inr (codes "conn_" ++ clock.uuid)
]

-- `seqs.entry(a).or_insert(1)` and `seqs.remove(&a)` for all of them
unfoldable pub add_seqs : List Text → Dict ℕ → Dict ℕ
add_seqs [] m = m
add_seqs (a ∷ rest) m = add_seqs rest (if contains_key a m then m else insert a 1 m)

unfoldable pub drop_seqs : List Text → Dict ℕ → Dict ℕ
drop_seqs [] m = m
drop_seqs (a ∷ rest) m = drop_seqs rest (remove a m)

module _ {G : Type 0} where
  unfoldable pub subscribe : Text → SubscribeParams → Hub G → Hub G
  unfolding add_seqs
  subscribe conn p h =
      let cs = unwrap_or (get conn h.subs) no_subs in
      record h {
        subs =
            insert conn
              (record { seqs = add_seqs p.agent_ids cs.seqs; full_fidelity = p.full_fidelity })
              h.subs;
      }

  unfoldable pub unsubscribe : Text → SubscribeParams → Hub G → Hub G
  unfolding drop_seqs
  unsubscribe conn p h = elim (get conn h.subs) [
    | none ↦ h
    | some cs ↦ record h {
      subs = insert conn (record cs { seqs = drop_seqs p.agent_ids cs.seqs }) h.subs;
    }
  ]

  cold : Hub G → Hub G
  cold h = record h { cold_hits = succ_u64 h.cold_hits }

  hot : Hub G → Hub G
  hot h = record h { hot_hits = succ_u64 h.hot_hits }

  offbox_reply : Wire → Text ⊎ OffboxParams → Hub G → Outcome
  offbox_reply wire (inl e) h = error (reject_args e)
  offbox_reply wire (inr p) h = elim (get p.agent_id h.offbox) [
    | none ↦ error (unknown_agent p.agent_id)
    | some entries ↦
        let (page, next) = page_offbox entries p.cursor in result (wire.offbox_value page next)
  ]

  hello_reply : Wire → Clock → Text ⊎ Json → Hub G → Outcome × Hub G
  unfolding hello_ack
  hello_reply wire clock (inl e) h = (error (invalid_params e), h)
  hello_reply wire clock (inr hello) h = elim (hello_ack wire clock hello) [
    | inl e ↦ (error e, h)
    | inr conn ↦ (result (wire.ack_value conn (codes "user_local_dev")), register_connection conn h)
  ]

module _ {G : Type 0} (wire : Wire) (clock : Clock) (gw : GatewayOps G) where
  handle_method : Text → Text → Json → Option Method → Hub G → Outcome × Hub G
  unfolding cold hot offbox_reply hello_reply
  handle_method conn name params none h =
      (error (upstream_failure false (codes "unknown method " ++ name)), h)
  handle_method conn name params (some bot_status) h =
      (result (wire.status_value h.run_state), cold h)
  handle_method conn name params (some bot_roster) h = (result (wire.roster_value h.roster), cold h)
  handle_method conn name params (some bot_transcript_offbox) h =
      (offbox_reply wire (wire.offbox_params params) h, cold h)
  handle_method conn name params (some bot_subscribe) h = elim (wire.subscribe_params params) [
    | inl e ↦ (error (reject_args e), h)
    | inr p ↦ (result wire.empty_value, subscribe conn p h)
  ]
  handle_method conn name params (some bot_unsubscribe) h = elim (wire.subscribe_params params) [
    | inl e ↦ (error (reject_args e), h)
    | inr p ↦ (result wire.empty_value, unsubscribe conn p h)
  ]
  handle_method conn name params (some bot_command) h = elim (wire.command_params params) [
    | inl e ↦ (error (reject_args e), hot h)
    | inr p ↦ handle_command wire clock gw p (hot h)
  ]
  handle_method conn name params (some bot_vnc_descriptor) h = elim (wire.vnc_params params) [
    | inl e ↦ (error (reject_args e), hot h)
    | inr id ↦ handle_vnc_descriptor wire clock gw id (hot h)
  ]
  handle_method conn name params (some bot_bind_conversation) h = (error (not_yet_enabled name), h)
  handle_method conn name params (some hello_method) h =
      hello_reply wire clock (wire.hello params) h
  handle_method conn name params (some (other_method m)) h =
      (error (rpc_error 32601 (codes "unknown method `" ++ m ++ codes "`") none), h)

  unfoldable pub handle_rpc : Text → Request → Hub G → Response × Hub G
  unfolding handle_method
  handle_rpc conn req h =
      let (outcome, h') = handle_method conn req.method req.params (wire.method_of req.method) h in
      (record { id = req.id; outcome = outcome }, h')
