-- ===== src/Gateway/Turns.antt =====
-- Turns: `mark_running`, `clear_pending`, `finish_turn`, `interrupt_agent_run` and `send_prompt` of
-- crates/atlas-bot-gateway/src/lib.rs, and the task that `send_prompt` spawns.
pub mod Runs
use atlas_bot.Common.{
  ℕ, Text, codes, Bool, true, false, Option, none, some, [], ◌∷◌, ◌++◌, get, insert, remove, show,
  if◌then◌else◌, unwrap_or, ◌or_else◌, succ_u64, ◌+◌,
}
use atlas_bot.Json.{Json, bool, object, get_str, get_bool}
use atlas_bot.Gateway.Types.{
  ok, err, ok_or, invalid_args, agent_not_found, AgentRecord, TranscriptEntry, finished, Gateway,
  Exec, ◌>>=◌, ◌>>◌, pure, lift, modify,
}

start_run : Text → Option AgentRecord → Exec (Unit {0})
start_run id none s = (err (agent_not_found id), s)
start_run id (some a) s =
    if a.is_running
    then (err (invalid_args (codes "agent already running; interrupt first")), s)
    else (ok tt, record s { agents = insert id (record a { is_running = true }) s.agents })

unfoldable pub mark_running : Text → Exec (Unit {0})
unfolding start_run
mark_running id s = start_run id (get id s.agents) s

unfoldable pub clear_pending : Text → Gateway → Gateway
clear_pending id s = record s { pending = remove id s.pending }

-- `next_entry_seq.entry(id).or_insert(1)`
unfoldable pub next_seq : Text → Gateway → ℕ
next_seq id s = unwrap_or (get id s.next_entry_seq) 1

-- takes the next sequence number for an entry and appends the entry
unfoldable pub push_entry : Text → TranscriptEntry → Gateway → Gateway
push_entry id e s = record s {
  next_entry_seq = insert id (succ_u64 e.seq) s.next_entry_seq;
  transcripts = insert id (unwrap_or (get id s.transcripts) [] ++ e ∷ []) s.transcripts;
}

abbrev user_entry : Text → ℕ → TranscriptEntry
user_entry prompt n = record {
  id = codes "msg_u_" ++ show n;
  role = codes "user";
  text = prompt;
  seq = n;
}

abbrev assistant_entry : Text → ℕ → TranscriptEntry
assistant_entry prompt n = record {
  id = codes "msg_a_" ++ show n;
  role = codes "assistant";
  text = codes "echo: " ++ prompt;
  seq = n;
}

-- The turn of a running agent: both entries, the flag, the pending slot and the hint.
complete_turn : Text → Text → AgentRecord → Gateway → Gateway
unfolding next_seq push_entry clear_pending
complete_turn id prompt a s =
    let user : TranscriptEntry = user_entry prompt (next_seq id s) in
    let s1 = push_entry id user s in
    let assistant : TranscriptEntry = assistant_entry prompt (next_seq id s1) in
    let s2 = push_entry id assistant s1 in
    let s3 : Gateway = record s2 {
      agents = insert id (record a { is_running = false }) s2.agents;
    } in
    record (clear_pending id s3) {
      sent = s.sent ++ finished id (codes "echo: " ++ prompt) prompt (user ∷ assistant ∷ []) ∷ [];
    }

finish_run : Text → Text → Option AgentRecord → Exec (Unit {0})
finish_run id prompt none s = (err (agent_not_found id), s)
finish_run id prompt (some a) s =
    if a.is_running then (ok tt, complete_turn id prompt a s) else (ok tt, s)

unfoldable pub finish_turn : Text → Text → Exec (Unit {0})
unfolding complete_turn finish_run
finish_turn id prompt s = finish_run id prompt (get id s.agents) s

-- the agent that `interrupt_agent_run` means
unfoldable pub interrupt_target : Text → Json → Text
interrupt_target envelope args =
    unwrap_or (get_str "agentId" args or_else get_str "id" args) envelope

abbrev notice_entry : ℕ → TranscriptEntry
notice_entry n = record {
  id = codes "msg_int_" ++ show n;
  role = codes "system";
  text = codes "run interrupted";
  seq = n;
}

stop_run : Text → Option AgentRecord → Exec Json
unfolding next_seq push_entry
stop_run id none s = (err (agent_not_found id), s)
stop_run id (some a) s = (
  ok (object (("hadActiveRun", bool a.is_running) ∷ [])),
  (if a.is_running
      then push_entry id (notice_entry (next_seq id s))
          (record s { agents = insert id (record a { is_running = false }) s.agents })
      else s),
)

-- Taking the agent's slot out of `pending` drops or fires its cancel channel.
unfoldable pub interrupt_agent_run : Text → Json → Exec Json
unfolding interrupt_target stop_run
interrupt_agent_run envelope args s =
    let target = interrupt_target envelope args in
    let s' = clear_pending target s in stop_run target (get target s'.agents) s'

-- a new cancel channel in the agent's slot, and the task that waits on it
unfoldable pub spawn_turn : Text → Text → Bool → Gateway → Gateway
unfolding clear_pending
spawn_turn id prompt immediate s = record s {
  pending = insert id s.next_turn (clear_pending id s).pending;
  next_turn = s.next_turn + 1;
  tasks =
      s.tasks
      ++ record {
        turn = s.next_turn;
        agent_id = id;
        prompt = prompt;
        delay = if immediate then 0 else s.config.turn_delay;
      }
        ∷ [];
}

unfoldable pub send_prompt : Text → Json → Exec Json
send_prompt id args = do
  prompt ← lift (ok_or (get_str "prompt" args) (invalid_args (codes "missing prompt")))
  let immediate = unwrap_or (get_bool "immediate" args) false
  mark_running id
  modify (spawn_turn id prompt immediate)
  pure (object (("accepted", bool true) ∷ []))
