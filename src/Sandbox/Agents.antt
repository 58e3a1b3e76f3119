-- ===== src/Sandbox/Agents.antt =====
-- The agents of crates/atlas-bot-gateway/src/box_sidecar.rs: their flags (`mark_running`,
-- `set_running`, `clear_pending`), entries (`append_system_notice`) and the history of their turns.
use atlas_bot.Common.{
  ℕ, ◌-◌, ◌*◌, Text, codes, Bool, true, Option, none, some, List, [], ◌∷◌, ◌++◌, Dict, get, insert,
  remove, if◌then◌else◌, ◌==◌, ltb, leb, max_u64, length, drop, show, succ_u64, unwrap_or,
}
use atlas_bot.Json.{Json}
use atlas_bot.Gateway.Types.{UploadRecord, ChannelStore}
use atlas_bot.Vnc.{VncTokenRecord}
use atlas_bot.Gateway.Types.{
  Result, ok, err, invalid_args, agent_not_found, AgentRecord, TranscriptEntry,
}
use atlas_bot.Sandbox.Boxes.{Box, Meanwhile}
use atlas_bot.Sandbox.Replies.{History, Answer}

-- The agents and their turns, beside what the tools change. `pending` names the cancel channel of
-- each agent's turn.
pub record Sidecar (F : Type 0) : Type 0 where
  pub box : Box F
  pub agents : Dict AgentRecord
  pub transcripts : Dict (List TranscriptEntry)
  pub history : Dict History
  pub next_entry_seq : Dict ℕ
  pub pending : Dict ℕ
  pub next_turn : ℕ
  pub next_agent_n : ℕ
  pub invokes : ℕ
  pub uploads : Dict UploadRecord
  pub channel_connections : ChannelStore
  pub vnc_tokens : Dict VncTokenRecord

-- The settings that a turn reads; the delay in milliseconds.
pub record Settings : Type 0 where
  pub workspace_root : Text
  pub turn_delay : ℕ
  pub history_max_turns : ℕ
  pub session_persist : Bool
  pub has_llm : Bool
  pub attach_ttl : ℕ

-- The settings as a start with these keeps them: `history_max_turns.max(1)`.
abbrev pub new_settings : Settings → Settings
new_settings c = record c {
  history_max_turns = if c.history_max_turns == 0 then 1 else c.history_max_turns;
}

-- What a prompt meets while it waits: the other handlers in the delay and whether an interrupt ends
-- it, those at the gates of the tools, those on the agents until the reply is there, and the answer of
-- the model to its messages. And the clock and the print of JSON.
pub record Waits (F : Type 0) : Type 0 where
  pub in_delay : Sidecar F → Sidecar F
  pub cancelled : Bool
  pub at_gates : Meanwhile F
  pub until_reply : Sidecar F → Sidecar F
  pub answer : List Json → Answer
  pub now : ℕ
  pub print : Json → Text

abbrev pub notice : Text → ℕ → TranscriptEntry
notice text n = record {
  id = codes "msg_sys_" ++ show n;
  role = codes "system";
  text = text;
  seq = n;
}

module _ {F : Type 0} where
  unfoldable pub start_run : Text → Option AgentRecord → Sidecar F → Result (Unit {0}) × Sidecar F
  start_run id none s = (err (agent_not_found id), s)
  start_run id (some a) s =
      if a.is_running
      then (err (invalid_args (codes "agent already running; interrupt first")), s)
      else (ok tt, record s { agents = insert id (record a { is_running = true }) s.agents })

  unfoldable pub mark_running : Text → Sidecar F → Result (Unit {0}) × Sidecar F
  unfolding start_run
  mark_running id s = start_run id (get id s.agents) s

  unfoldable pub flagged : Text → Bool → Option AgentRecord → Sidecar F → Sidecar F
  flagged id b none s = s
  flagged id b (some a) s = record s { agents = insert id (record a { is_running = b }) s.agents }

  unfoldable pub set_running : Text → Bool → Sidecar F → Sidecar F
  unfolding flagged
  set_running id b s = flagged id b (get id s.agents) s

  unfoldable pub clear_pending : Text → Sidecar F → Sidecar F
  clear_pending id s = record s { pending = remove id s.pending }

  unfoldable pub next_seq : Text → Sidecar F → ℕ
  next_seq id s = unwrap_or (get id s.next_entry_seq) 1

  unfoldable pub push_entry : Text → TranscriptEntry → Sidecar F → Sidecar F
  push_entry id e s = record s {
    next_entry_seq = insert id (succ_u64 e.seq) s.next_entry_seq;
    transcripts = insert id (unwrap_or (get id s.transcripts) [] ++ e ∷ []) s.transcripts;
  }

  unfoldable pub append_system_notice : Text → Text → Sidecar F → Sidecar F
  unfolding push_entry next_seq
  append_system_notice id text s = push_entry id (notice text (next_seq id s)) s

-- the newest messages, two for a turn; `saturating_mul`
unfoldable pub newest : ℕ → History → History
newest max h =
    let msgs = if leb (max * 2) max_u64 then max * 2 else max_u64 in
    if ltb msgs (length h) then drop (length h - msgs) h else h

unfoldable pub remember : ℕ → Text → Text → History → History
unfolding newest
remember max prompt reply h =
    newest max (h ++ (codes "user", prompt) ∷ (codes "assistant", reply) ∷ [])

abbrev pub user_entry : Text → ℕ → TranscriptEntry
user_entry prompt n = record {
  id = codes "msg_u_" ++ show n;
  role = codes "user";
  text = prompt;
  seq = n;
}

abbrev pub assistant_entry : Text → ℕ → TranscriptEntry
assistant_entry reply n = record {
  id = codes "msg_a_" ++ show n;
  role = codes "assistant";
  text = reply;
  seq = n;
}
