-- ===== src/Cli/Stream.antt =====
-- A streamed run: the loop of `run_cli_streaming`, the hints that it publishes and the gate of
-- `await_cli_tool_approval`, of crates/atlas-bot-gateway/src/cli_gateway.rs. What the loop waits for
-- comes as a list of events.
pub mod Passes
pub mod Refused
pub mod Ends
pub mod Chunks
use atlas_bot.Common.{
  Text, codes, Bool, true, false, ◌&&◌, not, Option, none, some, List, [], ◌∷◌, ◌++◌, if◌then◌else◌,
  is_empty, starts_with,
}
use atlas_bot.Json.{Json}
use atlas_bot.Gateway.Types.{Result, ok, err, upstream, ExitCode}
use atlas_bot.Approval.{
  ApprovalState, ToolApprovalMode, off, Gate, settled, waiting, Wake, GateOutcome, denied,
  open_gate, close_gate, reason, is_allow, format_pending_summary, CliToolGateClass, gated,
  classify_cli_tool,
}
use atlas_bot.Cli.Reply.{truncate_hint}
use atlas_bot.Cli.Lines.{
  StreamLineKind, final, cli_error, tool_started, tool_observed, other, classify_stream_line,
  without_line_end,
}

-- The hints of one agent.
pub data Hint : Type 0 where
  assistant_delta : Text → Hint
  tool : Text → Text → Option ExitCode → Hint

-- What becomes of a child after `start_kill`, for which the code then waits: the kill ends it; or the
-- kill fails, and the child exits by itself, or it does not.
pub data KillEnd : Type 0 where
  by_kill by_itself not_at_all : KillEnd

-- While the gate of a line's tool waits: the UUID of the gate, what is submitted, and what ends the
-- wait, where none is an interrupt: the wait is dropped where it is, its slot with it. Then what becomes
-- of the child where the tool is refused.
pub record Pause : Type 0 where
  pub uuid : Text
  pub submissions : ApprovalState → ApprovalState
  pub wake : Option Wake
  pub kill_end : KillEnd

-- What the loop meets in turn: a line, the end of the output, an error of reading, the deadline, or
-- an interrupt.
pub data Event : Type 0 where
  line : Text → Pause → Event
  eof : Event
  read_error : Text → Event
  deadline interrupt : KillEnd → Event

-- The variables of the loop, the gates, the hints that were published, and whether the child was
-- killed, by `start_kill` or as it was dropped (`kill_on_drop`).
pub record Stream : Type 0 where
  pub approval : ApprovalState
  pub sent : List Hint
  pub killed : Bool
  pub deltas : List Text
  pub final_from_result : Option Text
  pub error : Option Text
  pub plain : Text

abbrev pub publish : Hint → Stream → Stream
publish h s = record s { sent = s.sent ++ h ∷ [] }

unfoldable pub emit_delta : Text → Stream → Stream
unfolding truncate_hint
emit_delta t s =
    let text = truncate_hint t in if is_empty text then s else publish (assistant_delta text) s

unfoldable pub emit_tool : Text → Text → Option ExitCode → Stream → Stream
unfolding truncate_hint
emit_tool name summary code s = publish (tool name (truncate_hint summary) code) s

unfoldable pub push_deltas : List Text → Stream → Stream
unfolding emit_delta
push_deltas [] s = s
push_deltas (t ∷ ts) s = push_deltas ts (record (emit_delta t s) { deltas = s.deltas ++ t ∷ [] })

-- `await_cli_tool_approval`, or the interrupt that comes first
ended : Text → Option Wake → Stream → GateOutcome × Stream
unfolding close_gate
ended id none s = (denied, s)
ended id (some w) s = let (o, a) = close_gate w id s.approval in (o, record s { approval = a })

asked : Text → Text → Pause → Gate × ApprovalState → Stream → GateOutcome × Stream
unfolding ended emit_tool format_pending_summary
asked name detail p (settled o, a) s = (o, record s { approval = a })
asked name detail p (waiting id, a) s =
    let s1 =
      emit_tool (codes "approval_pending") (format_pending_summary id name detail) none
        (record s { approval = a }) in
    ended id p.wake (record s1 { approval = p.submissions s1.approval })

unfoldable pub await_cli_tool_approval : Text → Text → Text → Pause → Stream → GateOutcome × Stream
unfolding asked open_gate
await_cli_tool_approval agent name detail p s =
    asked name detail p
      (open_gate (codes "appr_" ++ p.uuid)
        (record { agent_id = agent; tool = name; summary = detail }) s.approval)
      s

-- How the loop stands after an event: it goes on, it reached the end of the output, it waits for a child
-- that never exits, or it returned.
pub data Run : Type 0 where
  running at_end stuck : Stream → Run
  returned : Result Text → Stream → Run

abbrev pub kill : Stream → Stream
kill s = record s { killed = true }

-- `start_kill`, the wait for the child, and the return
unfoldable pub end_child : KillEnd → Result Text → Stream → Run
end_child by_kill r s = returned r (kill s)
end_child by_itself r s = returned r s
end_child not_at_all r s = stuck s

unfoldable pub refusal : Text → GateOutcome → Text
unfolding reason
refusal name o =
    codes "[cli tool approval] "
    ++ (reason o
        ++ (codes " tool=" ++ (name ++ codes " (child interrupted; not box zero-side-effect)")))

-- the outcome of a gate: a refusal ends the child and is the reply
decided : Text → Text → KillEnd → GateOutcome × Stream → Run
unfolding refusal emit_tool end_child
decided name summary e (o, s) =
    if is_allow o
    then running (emit_tool name (summary ++ codes " approval=allow") none s)
    else end_child e (ok (refusal name o)) s

is_off : ToolApprovalMode → Bool
is_off off = true
is_off _ = false

gated_start : Text → Text → Text → Pause → Stream → Run
unfolding decided await_cli_tool_approval is_off
gated_start agent name summary p s =
    if is_off s.approval.mode
    then running s
    else decided name summary p.kill_end (
        await_cli_tool_approval agent name
          (codes "cli tool_call started name=" ++ (name ++ (codes " " ++ summary))) p s)

-- a tool that starts: it is always announced
started : CliToolGateClass → Text → Text → Text → Pause → Stream → Run
unfolding gated_start emit_tool
started gated agent name summary p s =
    gated_start agent name summary p (emit_tool name summary none s)
started _ agent name summary p s = running (emit_tool name summary none s)

plain_line : Text → Stream → Stream
plain_line t s =
    if not (starts_with (codes "{") t) && not (starts_with (codes "ATLAS_") t)
    then record s { plain = (if is_empty s.plain then [] else s.plain ++ 10 ∷ []) ++ t }
    else s

on_kind : Text → Text → Pause → StreamLineKind → Stream → Run
unfolding started plain_line emit_tool classify_cli_tool
on_kind agent t p (final r) s = running (record s { final_from_result = some r })
on_kind agent t p (cli_error e) s = running (record s { error = some e })
on_kind agent t p (tool_observed name summary code) s = running (emit_tool name summary code s)
on_kind agent t p (tool_started name summary status) s =
    started (classify_cli_tool name summary (codes "started")) agent name summary p s
on_kind agent t p other s = running (plain_line t s)

module _ (from_str : Text → Option Json) (agent : Text) where
  on_line : Text → Pause → Stream → Run
  unfolding on_kind push_deltas classify_stream_line without_line_end
  on_line raw p s =
      let t = without_line_end raw in
      if is_empty t
      then running s
      else let (kind, ts) = classify_stream_line from_str t in
        on_kind agent t p kind (push_deltas ts s)

  unfoldable pub step : Event → Stream → Run
  unfolding on_line end_child
  step (line raw p) s = on_line raw p s
  step eof s = at_end s
  step (read_error e) s = returned (err (upstream (codes "CLI stdout read: " ++ e))) (kill s)
  step (deadline e) s =
      end_child e (err (upstream (codes "CLI timeout (ATLAS_AGENT_CLI_TIMEOUT_MS exceeded)"))) s
  step (interrupt e) s = end_child e (err (upstream (codes "gateway/run-interrupted"))) s

  follow : (Stream → Run) → Run → Run
  follow k (running s) = k s
  follow k (at_end s) = at_end s
  follow k (stuck s) = stuck s
  follow k (returned r s) = returned r s

  -- the loop over the events that there are; it still runs where they end before it does
  unfoldable pub run : List Event → Stream → Run
  unfolding follow step
  run [] s = running s
  run (e ∷ es) s = follow (run es) (step e s)
