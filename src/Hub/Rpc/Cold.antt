-- ===== src/Hub/Rpc/Cold.antt =====
-- Which requests reach the gateway.
use atlas_bot.Common.{
  ℕ, Text, codes, Bool, true, false, Option, none, some, ◌⊎◌, inl, inr, ◌≡◌, refl, get, insert,
  Bool-cases, if◌then◌else◌, succ_u64,
}
use atlas_bot.Json.{Json}
use atlas_bot.Gateway.Types.{Result, ok, err}
use atlas_bot.Hub.Types.{
  Hub, GatewayOps, Clock, Method, bot_status, bot_roster, bot_transcript_offbox, bot_subscribe,
  bot_unsubscribe, bot_command, bot_vnc_descriptor, bot_bind_conversation, hello_method,
  other_method, ConnSubs, CommandParams, SubscribeParams, Request, Wire,
}
use atlas_bot.Hub.Events.{register_connection}
use atlas_bot.Hub.Errors.{RpcError, Outcome, error, reject_args}
use atlas_bot.Hub.After.Keeps.{Keeps, Keeps-refl, Keeps-success}
use atlas_bot.Hub.Rpc
use atlas_bot.Hub.Rpc.{
  mismatch, handle_command, handle_vnc_descriptor, handle_rpc, subscribe, unsubscribe,
}

-- The calls of the gateway that a request leads to.
module _ {G : Type 0} (wire : Wire) (gw : GatewayOps G) where
  invoked : Text ⊎ CommandParams → G → G
  invoked (inl e) g = g
  invoked (inr p) g = if mismatch p then g else (gw.invoke p.agent_id p.name p.args g).1

  described : Text ⊎ Text → G → G
  described (inl e) g = g
  described (inr id) g = (gw.vnc_descriptor id g).1

  pub called : Option Method → Json → G → G
  unfolding invoked described
  called none params g = g
  called (some bot_command) params g = invoked (wire.command_params params) g
  called (some bot_vnc_descriptor) params g = described (wire.vnc_params params) g
  called (some _) params g = g

-- Whether a method is counted as cold, and as hot.
pub is_cold : Option Method → Bool
is_cold none = false
is_cold (some bot_status) = true
is_cold (some bot_roster) = true
is_cold (some bot_transcript_offbox) = true
is_cold (some _) = false

pub is_hot : Option Method → Bool
is_hot none = false
is_hot (some bot_command) = true
is_hot (some bot_vnc_descriptor) = true
is_hot (some _) = false

abbrev pub counted : Bool → ℕ → ℕ
counted b n = if b then succ_u64 n else n

module _ {G : Type 0} (wire : Wire) (clock : Clock) (gw : GatewayOps G) where
  reply-Keeps :
      (p : CommandParams) (r : Result Json) (h : Hub G)
      → Keeps h (Rpc.command_reply wire clock gw p r h).1
  unfolding Rpc.command_reply
  reply-Keeps p (ok r) h = Keeps-success wire clock p.name p.agent_id p.args r h
  reply-Keeps p (err e) h = Keeps-refl h

  abbrev Effect : Bool → Bool → (G → G) → Hub G → Hub G → Type 0
  Effect is_cold is_hot call h h' =
      (h'.gateway ≡ call h.gateway)
      × (h'.cold_hits ≡ counted is_cold h.cold_hits)
      × (h'.hot_hits ≡ counted is_hot h.hot_hits)

  command-Effect :
      (p : CommandParams) (h : Hub G)
      → Effect false false (invoked wire gw (inr p)) h (handle_command wire clock gw p h).1
  unfolding handle_command Rpc.call_gateway invoked
  command-Effect p h =
      let (r, g) = gw.invoke p.agent_id p.name p.args h.gateway in
      let k = reply-Keeps p r (record h { gateway = g }) in
      elim (Bool-cases (mismatch p)) [
        | inl e ↦ rw e (refl, refl, refl)
        | inr e ↦ rw e (k.gateway_same, k.cold_same, k.hot_same)
      ]

  commanded-Effect :
      (d : Text ⊎ CommandParams) (h : Hub G)
      → Effect false true
          (invoked wire gw d)
          h
          (elim d as (λ _. Outcome × Hub G) [
            | inl e ↦ (error (reject_args e), Rpc.hot h)
            | inr p ↦ handle_command wire clock gw p (Rpc.hot h)
          ]).1
  unfolding Rpc.hot invoked
  commanded-Effect (inl e) h = (refl, refl, refl)
  commanded-Effect (inr p) h = command-Effect p (Rpc.hot h)

  described-Effect :
      (d : Text ⊎ Text) (h : Hub G)
      → Effect false true
          (described wire gw d)
          h
          (elim d as (λ _. Outcome × Hub G) [
            | inl e ↦ (error (reject_args e), Rpc.hot h)
            | inr id ↦ handle_vnc_descriptor wire clock gw id (Rpc.hot h)
          ]).1
  unfolding Rpc.hot described handle_vnc_descriptor
  described-Effect (inl e) h = (refl, refl, refl)
  described-Effect (inr id) h = (refl, refl, refl)

  subscribed-Effect :
      (d : Text ⊎ SubscribeParams) (conn : Text) (h : Hub G)
      → Effect false false
          (λ g. g)
          h
          (elim d as (λ _. Outcome × Hub G) [
            | inl e ↦ (error (reject_args e), h)
            | inr p ↦ (Outcome.result wire.empty_value, subscribe conn p h)
          ]).1
  unfolding subscribe
  subscribed-Effect (inl e) conn h = (refl, refl, refl)
  subscribed-Effect (inr p) conn h = (refl, refl, refl)

  unsubscribe-Effect :
      (o : Option ConnSubs) (conn : Text) (p : SubscribeParams) (h : Hub G)
      → Effect false false
          (λ g. g)
          h
          (elim o as (λ _. Hub G) [
            | none ↦ h
            | some cs ↦ record h {
              subs = insert conn (record cs { seqs = Rpc.drop_seqs p.agent_ids cs.seqs }) h.subs;
            }
          ])
  unsubscribe-Effect none conn p h = (refl, refl, refl)
  unsubscribe-Effect (some cs) conn p h = (refl, refl, refl)

  unsubscribed-Effect :
      (d : Text ⊎ SubscribeParams) (conn : Text) (h : Hub G)
      → Effect false false
          (λ g. g)
          h
          (elim d as (λ _. Outcome × Hub G) [
            | inl e ↦ (error (reject_args e), h)
            | inr p ↦ (Outcome.result wire.empty_value, unsubscribe conn p h)
          ]).1
  unfolding unsubscribe
  unsubscribed-Effect (inl e) conn h = (refl, refl, refl)
  unsubscribed-Effect (inr p) conn h = unsubscribe-Effect (get conn h.subs) conn p h

  acked-Effect :
      (a : RpcError ⊎ Text) (h : Hub G)
      → Effect false false
          (λ g. g)
          h
          (elim a as (λ _. Outcome × Hub G) [
            | inl e ↦ (error e, h)
            | inr conn ↦ (
              Outcome.result (wire.ack_value conn (codes "user_local_dev")),
              register_connection conn h,
            )
          ]).1
  unfolding register_connection
  acked-Effect (inl e) h = (refl, refl, refl)
  acked-Effect (inr conn) h = (refl, refl, refl)

  hello-Effect :
      (d : Text ⊎ Json) (h : Hub G)
      → Effect false false (λ g. g) h (Rpc.hello_reply wire clock d h).1
  unfolding Rpc.hello_reply
  hello-Effect (inl e) h = (refl, refl, refl)
  hello-Effect (inr hello) h = acked-Effect _ h

  method-Effect :
      (o : Option Method) (conn name : Text) (params : Json) (h : Hub G)
      → Effect
          (is_cold o)
          (is_hot o)
          (called wire gw o params)
          h
          (Rpc.handle_method wire clock gw conn name params o h).1
  unfolding Rpc.handle_method called is_cold is_hot Rpc.cold
  method-Effect none conn name params h = (refl, refl, refl)
  method-Effect (some bot_status) conn name params h = (refl, refl, refl)
  method-Effect (some bot_roster) conn name params h = (refl, refl, refl)
  method-Effect (some bot_transcript_offbox) conn name params h = (refl, refl, refl)
  method-Effect (some bot_subscribe) conn name params h =
      subscribed-Effect (wire.subscribe_params params) conn h
  method-Effect (some bot_unsubscribe) conn name params h =
      unsubscribed-Effect (wire.subscribe_params params) conn h
  method-Effect (some bot_command) conn name params h =
      commanded-Effect (wire.command_params params) h
  method-Effect (some bot_vnc_descriptor) conn name params h =
      described-Effect (wire.vnc_params params) h
  method-Effect (some bot_bind_conversation) conn name params h = (refl, refl, refl)
  method-Effect (some hello_method) conn name params h = hello-Effect (wire.hello params) h
  method-Effect (some (other_method m)) conn name params h = (refl, refl, refl)

  -- A request changes the gateway by the call that it stands for and by nothing else: `bot.command`
  -- with parameters that decode, and whose `args.agentId` is missing or names the envelope's agent,
  -- invokes the command once; `bot.vncDescriptor` with parameters that decode asks for a descriptor
  -- once; every other request, and every refused one, leaves the gateway as it was. The status, the
  -- roster and the cold transcript count as cold, commands and descriptors as hot, also when refused.
  pub handle_rpc-calls :
      (conn : Text) (req : Request) (h : Hub G)
      → (let h' = (handle_rpc wire clock gw conn req h).1 in
          (h'.gateway ≡ called wire gw (wire.method_of req.method) req.params h.gateway)
          × (h'.cold_hits ≡ counted (is_cold (wire.method_of req.method)) h.cold_hits)
          × (h'.hot_hits ≡ counted (is_hot (wire.method_of req.method)) h.hot_hits))
  unfolding handle_rpc
  handle_rpc-calls conn req h =
      method-Effect (wire.method_of req.method) conn req.method req.params h
