-- ===== src/Cli/Agents.antt =====
-- The agents of the command line gateway, crates/atlas-bot-gateway/src/cli_gateway.rs: its state, the
-- agents with their transcripts, the flags of their turns, and `commit_turn`.
use atlas_bot.Common.{
  ℕ, Text, codes, Bool, true, false, Option, none, some, List, [], ◌∷◌, ◌++◌, map, Dict, get,
  insert, remove, if◌then◌else◌, is_some, show, trim, succ_u64, unwrap_or,
}
use atlas_bot.Json.{Json, str, array, object, get_str, get_nonempty, get_count}
use atlas_bot.Gateway.Types.{
  Result, ok, err, invalid_args, agent_not_found, AgentRecord, TranscriptEntry, entry_value,
  agent_summary_value, agent_id, default_agent_id,
}
use atlas_bot.Gateway.Groups.{sort_by_id}
use atlas_bot.Gateway.Tail.{tail_page}
use atlas_bot.Approval.{ApprovalState, ToolApprovalMode}
use atlas_bot.Cli.Stream.{Hint}

-- What is published: a hint of a run with its agent, or the end of a turn.
pub data Published : Type 0 where
  hinted : Text → Hint → Published
  finished : Text → Text → Text → List TranscriptEntry → Published

-- `Shared` with its `Inner`, less the settings. `pending` names the cancel channel of each agent's
-- turn; beside the fields of the source, a counter that names them, what was published, and the agents
-- whose child was killed, one entry for each child.
pub record CliGateway : Type 0 where
  pub agents : Dict AgentRecord
  pub transcripts : Dict (List TranscriptEntry)
  pub next_entry_seq : Dict ℕ
  pub next_agent_n : ℕ
  pub invokes : ℕ
  pub pending : Dict ℕ
  pub next_turn : ℕ
  pub approval : ApprovalState
  pub sent : List Published
  pub killed : List Text

abbrev pub default_agent : AgentRecord
default_agent = record {
  id = default_agent_id;
  name = codes "Watcher";
  description = codes "P3.5 CLI agent";
  is_running = false;
  created_at = 1700000000000;
  is_group = false;
  member_ids = [];
}

abbrev ready : TranscriptEntry
ready = record {
  id = codes "msg_seed";
  role = codes "assistant";
  text = codes "cli gateway ready";
  seq = 1;
}

unfoldable pub new_full : ToolApprovalMode → CliGateway
new_full mode = record {
  agents = insert default_agent_id default_agent [];
  transcripts = insert default_agent_id (ready ∷ []) [];
  next_entry_seq = insert default_agent_id 2 [];
  next_agent_n = 2;
  invokes = 0;
  pending = [];
  next_turn = 0;
  approval = record { mode = mode; pending = []; inject = []; sent = [] };
  sent = [];
  killed = [];
}

unfoldable pub list_agents : CliGateway → Result Json × CliGateway
unfolding agent_summary_value
list_agents s = (ok (array (map agent_summary_value (sort_by_id (map (λ r. r.1) s.agents)))), s)

unfoldable pub created : ℕ → Text → Option Text → CliGateway → Result Json × CliGateway
unfolding agent_id agent_summary_value
created now description none s = (err (invalid_args (codes "missing name")), s)
created now description (some name) s =
    let id = agent_id s.next_agent_n in
    let new : AgentRecord = record {
      id = id;
      name = name;
      description = description;
      is_running = false;
      created_at = now;
      is_group = false;
      member_ids = [];
    } in
    let seed : TranscriptEntry = record {
      id = codes "msg_seed_" ++ id;
      role = codes "assistant";
      text = codes "agent " ++ (name ++ codes " ready");
      seq = 1;
    } in
    (
      ok (
          object (
            ("agent", agent_summary_value new)
            ∷ ("transcript", array (entry_value seed ∷ []))
            ∷ ("agentId", str id)
            ∷ [])),
      record s {
        next_agent_n = succ_u64 s.next_agent_n;
        agents = insert id new s.agents;
        transcripts = insert id (seed ∷ []) s.transcripts;
        next_entry_seq = insert id 2 s.next_entry_seq;
      },
    )

unfoldable pub create_agent : ℕ → Json → CliGateway → Result Json × CliGateway
unfolding created get_nonempty get_str
create_agent now args s =
    created now (unwrap_or (get_str "description" args) []) (get_nonempty "name" args) s

unfoldable pub get_transcript_tail : Text → Json → CliGateway → Result Json × CliGateway
unfolding tail_page get_count
get_transcript_tail id args s =
    if is_some (get id s.agents)
    then (
      ok (
          object (
            (
              "entries",
              array (
                  map entry_value (
                    tail_page (unwrap_or (get_count "limit" args) 20) (get_count "beforeSeq" args)
                      (unwrap_or (get id s.transcripts) []))),
            )
            ∷ ("agentId", str id)
            ∷ [])),
      s,
    )
    else (err (agent_not_found id), s)

unfoldable pub start_run : Text → Option AgentRecord → CliGateway → Result (Unit {0}) × CliGateway
start_run id none s = (err (agent_not_found id), s)
start_run id (some a) s =
    if a.is_running
    then (err (invalid_args (codes "agent already running; interrupt first")), s)
    else (ok tt, record s { agents = insert id (record a { is_running = true }) s.agents })

unfoldable pub mark_running : Text → CliGateway → Result (Unit {0}) × CliGateway
unfolding start_run
mark_running id s = start_run id (get id s.agents) s

unfoldable pub flagged : Text → Bool → Option AgentRecord → CliGateway → CliGateway
flagged id b none s = s
flagged id b (some a) s = record s { agents = insert id (record a { is_running = b }) s.agents }

unfoldable pub set_running : Text → Bool → CliGateway → CliGateway
unfolding flagged
set_running id b s = flagged id b (get id s.agents) s

unfoldable pub clear_pending : Text → CliGateway → CliGateway
clear_pending id s = record s { pending = remove id s.pending }

unfoldable pub next_seq : Text → CliGateway → ℕ
next_seq id s = unwrap_or (get id s.next_entry_seq) 1

unfoldable pub push_entry : Text → TranscriptEntry → CliGateway → CliGateway
push_entry id e s = record s {
  next_entry_seq = insert id (succ_u64 e.seq) s.next_entry_seq;
  transcripts = insert id (unwrap_or (get id s.transcripts) [] ++ e ∷ []) s.transcripts;
}

unfoldable pub append_system_notice : Text → Text → CliGateway → CliGateway
unfolding push_entry next_seq
append_system_notice id text s =
    let n = next_seq id s in
    push_entry id
      (record { id = codes "msg_sys_" ++ show n; role = codes "system"; text = text; seq = n }) s

abbrev pub user_entry : Text → ℕ → TranscriptEntry
user_entry prompt n = record {
  id = codes "msg_u_" ++ show n;
  role = codes "user";
  text = prompt;
  seq = n;
}

abbrev pub assistant_entry : Text → ℕ → TranscriptEntry
assistant_entry reply n = record {
  id = codes "msg_a_" ++ show n;
  role = codes "assistant";
  text = reply;
  seq = n;
}

-- the two entries and the flag of an agent that is there
unfoldable pub committed : Text → Text → Text → CliGateway → List TranscriptEntry × CliGateway
unfolding push_entry next_seq set_running
committed id prompt preview s =
    let user : TranscriptEntry = user_entry prompt (next_seq id s) in
    let s1 = push_entry id user s in
    let assistant : TranscriptEntry = assistant_entry preview (next_seq id s1) in
    (user ∷ assistant ∷ [], set_running id false (push_entry id assistant s1))

unfoldable pub commit_turn :
    Text → Text → Text → CliGateway → Result (Text × List TranscriptEntry) × CliGateway
unfolding committed
commit_turn id prompt reply s =
    if is_some (get id s.agents)
    then (let (entries, s') = committed id prompt (trim reply) s in (ok (trim reply, entries), s'))
    else (err (agent_not_found id), s)
