-- ===== src/Cli/Turns.antt =====
-- The turns of the command line gateway: `send_prompt`, `interrupt_agent_run`, `dispatch` and `invoke` of
-- crates/atlas-bot-gateway/src/cli_gateway.rs.
pub mod Refusal
use atlas_bot.Common.{
  ℕ, ◌+◌, Text, codes, text_eq, Bool, true, false, ◌||◌, Option, none, some, List, [], ◌∷◌, ◌++◌,
  map, get, insert, if◌then◌else◌, contains, succ_u64, unwrap_or, ◌or_else◌,
}
use atlas_bot.Json.{Json, bool, str, array, object, get_str}
use atlas_bot.Gateway.Types.{
  Result, ok, err, GatewayError, unknown_method, invalid_args, agent_not_found, AgentRecord,
  TranscriptEntry, entry_value,
}
use atlas_bot.Cli.Stream.{run}
use atlas_bot.Cli.Stream.Ends.{interrupted}
use atlas_bot.Cli.Agents.{
  finished, CliGateway, list_agents, create_agent, get_transcript_tail, mark_running, set_running,
  clear_pending, append_system_notice, commit_turn,
}
use atlas_bot.Cli.Children.{Settings, Child, error_text, run_cli}

abbrev pub completed_value : Text → List TranscriptEntry → Json
completed_value preview entries = object (
    ("accepted", bool true)
    ∷ ("completed", bool true)
    ∷ ("preview", str preview)
    ∷ ("entries", array (map entry_value entries))
    ∷ ("hubEmitTurnFinished", bool true)
    ∷ [])

module _ (from_str : Text → Option Json) (c : Settings)
    (spawn : Text → Text → List Text → Child) where
  completed :
      Text → Text → Result (Text × List TranscriptEntry) × CliGateway → Result Json × CliGateway
  completed id prompt (err e, s) = (err e, s)
  completed id prompt (ok (preview, entries), s) = (
    ok (completed_value preview entries),
    record s { sent = s.sent ++ finished id preview prompt entries ∷ [] },
  )

  stop : Text → GatewayError → CliGateway → CliGateway
  unfolding set_running append_system_notice error_text
  stop id e s =
      let s' = set_running id false s in
      if contains (codes "run-interrupted") (error_text e)
      then append_system_notice id (codes "run interrupted") s'
      else s'

  replied : Text → Text → Option (Result Text) × CliGateway → Option (Result Json) × CliGateway
  unfolding completed commit_turn stop clear_pending
  replied id prompt (none, s) = (none, s)
  replied id prompt (some (ok reply), s) =
      let (r, s') = completed id prompt (commit_turn id prompt reply (clear_pending id s)) in
      (some r, s')
  replied id prompt (some (err e), s) = (some (err e), stop id e (clear_pending id s))

  -- the slot of the turn, with a new cancel channel
  opened : Text → CliGateway → CliGateway
  unfolding clear_pending
  opened id s = record s {
    pending = insert id s.next_turn (clear_pending id s).pending;
    next_turn = s.next_turn + 1;
  }

  marked : Text → Text → Result (Unit {0}) × CliGateway → Option (Result Json) × CliGateway
  unfolding opened run_cli replied
  marked id prompt (err e, s) = (some (err e), s)
  marked id prompt (ok u, s) = replied id prompt (run_cli from_str c spawn id prompt (opened id s))

  prompted : Text → Option Text → CliGateway → Option (Result Json) × CliGateway
  unfolding marked mark_running
  prompted id none s = (some (err (invalid_args (codes "missing prompt"))), s)
  prompted id (some prompt) s = marked id prompt (mark_running id s)

  -- None, where the child still runs.
  unfoldable pub send_prompt : Text → Json → CliGateway → Option (Result Json) × CliGateway
  unfolding prompted get_str
  send_prompt id args s = prompted id (get_str "prompt" args) s

-- the cancel channel that the agent's slot had, signalled where its receiver is still there
unfoldable pub signalled : (ℕ → Bool) → Option ℕ → Bool
signalled listens none = false
signalled listens (some turn) = listens turn

unfoldable pub stopped_run :
    Text → Bool → Option AgentRecord → CliGateway → Result Json × CliGateway
stopped_run id killed none s = (err (agent_not_found id), s)
stopped_run id killed (some a) s = (
  ok (object (("hadActiveRun", bool (a.is_running || killed)) ∷ ("killed", bool killed) ∷ [])),
  (if a.is_running
      then record s { agents = insert id (record a { is_running = false }) s.agents }
      else s),
)

unfoldable pub interrupt_agent_run :
    (ℕ → Bool) → Text → Json → CliGateway → Result Json × CliGateway
unfolding signalled stopped_run clear_pending get_str
interrupt_agent_run listens envelope args s =
    let target = unwrap_or (get_str "agentId" args or_else get_str "id" args) envelope in
    stopped_run target (signalled listens (get target s.pending)) (get target s.agents)
      (clear_pending target s)

abbrev returns : Result Json × CliGateway → Option (Result Json) × CliGateway
returns (r, s) = (some r, s)

module _ (from_str : Text → Option Json) (c : Settings) (spawn : Text → Text → List Text → Child)
    (listens : ℕ → Bool) (now : ℕ) where
  unfoldable pub dispatch : Text → Text → Json → CliGateway → Option (Result Json) × CliGateway
  unfolding list_agents create_agent send_prompt interrupt_agent_run get_transcript_tail
  dispatch id name args s =
      if text_eq name (codes "listAgents")
      then returns (list_agents s)
      else if text_eq name (codes "createAgent")
      then returns (create_agent now args s)
      else if text_eq name (codes "sendPrompt")
      then send_prompt from_str c spawn id args s
      else if text_eq name (codes "interruptAgentRun")
      then returns (interrupt_agent_run listens id args s)
      else if text_eq name (codes "getAgentTranscriptTail")
      then returns (get_transcript_tail id args s)
      else (some (err (unknown_method name)), s)

  unfoldable pub invoke : Text → Text → Json → CliGateway → Option (Result Json) × CliGateway
  unfolding dispatch
  invoke id name args s = dispatch id name args (record s { invokes = succ_u64 s.invokes })
