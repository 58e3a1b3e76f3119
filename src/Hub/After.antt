-- ===== src/Hub/After.antt =====
-- `after_command_success` of crates/atlas-bot-hub/src/lib.rs: what the hub takes from the answer of
-- the gateway to a command.
pub mod Keeps
use atlas_bot.Common.{
  Text, codes, text_eq, Bool, false, not, ◌||◌, Option, none, some, List, [], ◌∷◌, ◌++◌,
  if◌then◌else◌, unwrap_or, ◌or_else◌, is_empty,
}
use atlas_bot.Json.{
  Json, num, str, array, object, as_array, get_key, get_str, get_bool, get_array, and_then,
}
use atlas_bot.Gateway.Types.{TranscriptEntry}
use atlas_bot.Hub.Types.{Hub, Clock, Wire}
use atlas_bot.Hub.Offbox.{
  ingest_turn_entries, seed_offbox, append_offbox_entry, update_row, upsert_roster_agent,
}
use atlas_bot.Hub.Events.{emit_turn_finished}

-- `result.pointer("/agent/id")` and `result.pointer("/agent/name")`, as strings
agent_field : Json → Option Text
agent_field v = and_then (get_key "agent" v) (get_str "id")

agent_name : Json → Text
agent_name v = unwrap_or (and_then (get_key "agent" v) (get_str "name")) (codes "agent")

-- `filter_map` of the entries that decode
unfoldable pub decode_entries : Wire → List Json → List TranscriptEntry
decode_entries wire [] = []
decode_entries wire (v ∷ vs) =
    let rest = decode_entries wire vs in
    elim (wire.transcript_entry v) [ none ↦ rest | some e ↦ e ∷ rest ]

wants_finish : Json → Bool
wants_finish r =
    unwrap_or (get_bool "hubEmitTurnFinished" r) false || unwrap_or (get_bool "completed" r) false

module _ {G : Type 0} (wire : Wire) (clock : Clock) where
  -- entries of a turn that is complete: those that decode, else all as they are
  take_entries : Text → Option (List Json) → Hub G → Hub G
  unfolding decode_entries
  take_entries id none h = h
  take_entries id (some vs) h =
      if is_empty (decode_entries wire vs)
      then seed_offbox id vs h
      else ingest_turn_entries id (decode_entries wire vs) h

  after_send_prompt : Text → Json → Hub G → Hub G
  unfolding take_entries wants_finish
  after_send_prompt id r h =
      if h.turn_bridge_active || not (wants_finish r)
      then h
      else (let preview = unwrap_or (get_str "preview" r or_else get_str "reply" r) [] in
          let h' = take_entries id (get_array "entries" r) h in
          if is_empty preview then h' else emit_turn_finished wire clock id preview h')

  seed_from : Text → Json → Hub G → Hub G
  seed_from id v h = elim (as_array (unwrap_or (get_key "transcript" v) (array []))) [
    | none ↦ h
    | some vs ↦ seed_offbox id vs h
  ]

  after_create_agent : Json → Hub G → Hub G
  unfolding agent_field agent_name seed_from
  after_create_agent r h = elim (get_str "agentId" r or_else agent_field r) [
    | none ↦ h
    | some id ↦ seed_from id r (upsert_roster_agent id (agent_name r) (codes "unknown") h)
  ]

  after_interrupt : Text → Json → Json → Hub G → Hub G
  after_interrupt id args r h =
      let target = unwrap_or (get_str "agentId" args or_else get_str "id" args) id in
      if unwrap_or (get_bool "hadActiveRun" r) false
      then (let h' =
            append_offbox_entry target
              (object (
                ("id", str (codes "offbox_int_" ++ clock.uuid))
                ∷ ("role", str (codes "system"))
                ∷ ("text", str (codes "run interrupted"))
                ∷ ("seq", num 0)
                ∷ []))
              h in
          record h' {
            roster = update_row target (λ x. record x { status = codes "idle" }) h'.roster;
          })
      else h

  after_tail : Text → Json → Hub G → Hub G
  after_tail id r h = elim (get_array "entries" r) [
    | none ↦ h
    | some vs ↦ seed_offbox (unwrap_or (get_str "agentId" r) id) vs h
  ]

  unfoldable pub after_command_success : Text → Text → Json → Json → Hub G → Hub G
  unfolding after_send_prompt after_create_agent after_interrupt after_tail
  after_command_success name id args r h =
      if text_eq name (codes "sendPrompt")
      then after_send_prompt id r h
      else if text_eq name (codes "createAgent")
      then after_create_agent r h
      else if text_eq name (codes "interruptAgentRun")
      then after_interrupt id args r h
      else if text_eq name (codes "getAgentTranscriptTail")
      then after_tail id r h
      else h
