-- ===== src/Sandbox/Turns.antt =====
-- The turns of the sidecar: `commit_turn`, `soft_persist_session` and `send_prompt` of
-- crates/atlas-bot-gateway/src/box_sidecar.rs.
pub mod Idle
pub mod Kept
use atlas_bot.Common.{
  ◌+◌, ◌-◌, Text, codes, text_eq, Bool, true, false, Option, none, some, List, [], ◌∷◌, ◌++◌, map,
  get, insert, if◌then◌else◌, ◌==◌, take, is_empty, is_some, trim, unwrap_or,
}
use atlas_bot.Json.{Json, num, bool, str, array, object, get_str}
use atlas_bot.Gateway.Types.{
  Result, ok, err, GatewayError, invalid_args, agent_not_found, upstream, TranscriptEntry,
  RuntimeHint, entry_value,
}
use atlas_bot.Sandbox.FilePaths.{components, join}
use atlas_bot.Sandbox.Files.{FileSystem}
use atlas_bot.Sandbox.Tools.{agent_dir, ensure_agent_workspace, maybe_run_tools}
use atlas_bot.Sandbox.Boxes.{Box, publish, with_files}
use atlas_bot.Sandbox.Replies.{History, compose_reply, build_llm_messages, chat_complete, is_echo}
use atlas_bot.Sandbox.Agents.{
  Sidecar, Settings, Waits, mark_running, set_running, clear_pending, next_seq, push_entry,
  append_system_notice, remember, user_entry, assistant_entry,
}

module _ {F : Type 0} (fs : FileSystem F) (c : Settings) (w : Waits F) where
  session_line : Text → Text → Text
  session_line prompt reply =
      w.print (object (("ts", num w.now) ∷ ("user", str prompt) ∷ ("assistant", str reply) ∷ []))
      ++ 10 ∷ []

  -- a failure is only logged
  unfoldable pub soft_persist_session : Text → Text → Text → F → F
  unfolding ensure_agent_workspace session_line
  soft_persist_session id prompt reply f =
      (fs.append
        (components (join (agent_dir fs w.at_gates c.workspace_root id) (codes "session.jsonl")))
        (session_line prompt reply) (ensure_agent_workspace fs w.at_gates c.workspace_root id f)).1

  persisted : Text → Text → Text → Sidecar F → Sidecar F
  unfolding soft_persist_session
  persisted id prompt reply s =
      if c.session_persist
      then record s { box = with_files (soft_persist_session id prompt reply s.box.files) s.box }
      else s

  -- the two entries, the history and the flag of an agent that is there
  committed : Text → Text → Text → Sidecar F → List TranscriptEntry × Sidecar F
  unfolding push_entry next_seq remember set_running
  committed id prompt preview s =
      let user : TranscriptEntry = user_entry prompt (next_seq id s) in
      let s1 = push_entry id user s in
      let assistant : TranscriptEntry = assistant_entry preview (next_seq id s1) in
      let s2 = push_entry id assistant s1 in
      let h = remember c.history_max_turns prompt preview (unwrap_or (get id s2.history) []) in
      (user ∷ assistant ∷ [], set_running id false (record s2 { history = insert id h s2.history }))

  unfoldable pub commit_turn :
      Text → Text → Text → Sidecar F → Result (Text × List TranscriptEntry) × Sidecar F
  unfolding committed persisted
  commit_turn id prompt reply s =
      if is_some (get id s.agents)
      then (let (entries, s') = committed id prompt (trim reply) s in
          (ok (trim reply, entries), persisted id prompt (trim reply) s'))
      else (err (agent_not_found id), s)

  -- the end of a turn that failed; an interrupt is noted in the transcript
  unfoldable pub stop : Text → Bool → Sidecar F → Sidecar F
  unfolding clear_pending set_running append_system_notice
  stop id noted s =
      let s' = set_running id false (clear_pending id s) in
      if noted then append_system_notice id (codes "run interrupted") s' else s'

  abbrev is_interrupt : GatewayError → Bool
  is_interrupt (upstream t) = text_eq t (codes "gateway/run-interrupted")
  is_interrupt _ = false

  finished :
      Text → Text → Result (Text × List TranscriptEntry) × Sidecar F → Result Json × Sidecar F
  unfolding clear_pending
  finished id prompt (err e, s) = (err e, s)
  finished id prompt (ok (preview, entries), s) = (
    ok (
        object (
          ("accepted", bool true)
          ∷ ("completed", bool true)
          ∷ ("preview", str preview)
          ∷ ("entries", array (map entry_value entries))
          ∷ ("hubEmitTurnFinished", bool true)
          ∷ [])),
    record (clear_pending id s) {
      box = publish (RuntimeHint.finished id preview prompt entries) s.box;
    },
  )

  emit_delta : Text → Text → Box F → Box F
  emit_delta id text b =
      if is_empty text then b else publish (RuntimeHint.assistant_delta id text) b

  -- from the reply on
  replied : Text → Text → Result Text → Sidecar F → Result Json × Sidecar F
  unfolding stop is_echo emit_delta commit_turn finished
  replied id prompt (err e) s = (err e, stop id (is_interrupt e) s)
  replied id prompt (ok reply) s =
      if is_echo prompt reply
      then (err (upstream (codes "box reply looked like stub echo; refusing")), stop id false s)
      else finished id prompt
          (commit_turn id prompt reply (record s { box = emit_delta id (take 48 reply) s.box }))

  users : History → List Text
  users [] = []
  users ((role, text) ∷ h) =
      let rest = users h in if text_eq role (codes "user") then text ∷ rest else rest

  -- tools first; without evidence of them the model, if there is one
  reply_for : Text → Text → History → Option Text → Result Text
  unfolding compose_reply build_llm_messages chat_complete users
  reply_for id prompt h (some e) = ok (compose_reply id prompt (users h) (some e))
  reply_for id prompt h none =
      if c.has_llm
      then chat_complete w.print prompt (w.answer (build_llm_messages id prompt h))
      else ok (compose_reply id prompt (users h) none)

  -- from the end of the delay on
  answered_turn : Text → Text → Sidecar F → Result Json × Sidecar F
  unfolding replied reply_for maybe_run_tools
  answered_turn id prompt s =
      let (evidence, b) = maybe_run_tools fs w.at_gates c.workspace_root id prompt s.box in
      replied id prompt (reply_for id prompt (unwrap_or (get id s.history) []) evidence)
        (w.until_reply (record s { box = b }))

  delayed_turn : Text → Text → Sidecar F → Result Json × Sidecar F
  unfolding answered_turn stop
  delayed_turn id prompt s =
      if c.turn_delay == 0
      then answered_turn id prompt s
      else if w.cancelled
      then (err (upstream (codes "gateway/run-interrupted")), stop id true (w.in_delay s))
      else answered_turn id prompt (w.in_delay s)

  -- the slot of the turn, with a new cancel channel
  opened : Text → Sidecar F → Sidecar F
  unfolding clear_pending
  opened id s = record s {
    pending = insert id s.next_turn (clear_pending id s).pending;
    next_turn = s.next_turn + 1;
  }

  marked : Text → Text → Result (Unit {0}) × Sidecar F → Result Json × Sidecar F
  unfolding delayed_turn opened
  marked id prompt (err e, s) = (err e, s)
  marked id prompt (ok u, s) = delayed_turn id prompt (opened id s)

  prompted : Text → Option Text → Sidecar F → Result Json × Sidecar F
  unfolding marked mark_running
  prompted id none s = (err (invalid_args (codes "missing prompt")), s)
  prompted id (some prompt) s = marked id prompt (mark_running id s)

  unfoldable pub send_prompt : Text → Json → Sidecar F → Result Json × Sidecar F
  unfolding prompted get_str
  send_prompt id args s = prompted id (get_str "prompt" args) s
