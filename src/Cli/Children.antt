-- ===== src/Cli/Children.antt =====
-- A run of the command line: `run_cli` and `run_cli_text` of
-- crates/atlas-bot-gateway/src/cli_gateway.rs, around the loop in Stream.
use atlas_bot.Common.{
  Text, codes, text_eq, Bool, true, false, ◌||◌, Option, none, some, List, [], ◌∷◌, ◌++◌, map,
  if◌then◌else◌, is_empty, trim, ◌⊎◌, inl, inr,
}
use mathlib.Core.Option
use atlas_bot.Json.{Json}
use atlas_bot.Gateway.Types.{
  ExitCode, Result, ok, err, GatewayError, unknown_method, invalid_args, agent_not_found, upstream,
  rejected,
}
use atlas_bot.Cli.Spawn.{CliDialect, build_cli_argv, reply_is_json_document}
use atlas_bot.Cli.Reply.{extract_text_mode_reply, humanize_cli_failure_body}
use atlas_bot.Cli.Stream.{
  Event, Stream, Run, running, at_end, stuck, returned, KillEnd, by_kill, by_itself, not_at_all,
  run,
}
use atlas_bot.Cli.Stream.Ends.{Exit, exited, wait_error, interrupted, finish, code_text}
use atlas_bot.Cli.Agents.{hinted, CliGateway}

-- The settings that a run reads.
pub record Settings : Type 0 where
  pub cli_path : Text
  pub dialect : CliDialect
  pub extra_args : List Text
  pub stream_enabled : Bool

-- How a child starts: it does not, as its binary is not found or for another error, or without one of its
-- pipes, where it is dropped and so killed, or as it should.
pub data Start : Type 0 where
  not_found : Start
  spawn_error : Text → Start
  no_stdout no_stderr spawned : Start

-- How the wait for a child in text mode ends: with an exit and what its output decodes to, or with an
-- error of joining its reader, or none where its output stays open; or at the deadline.
pub data Wait : Type 0 where
  waited : Exit → Option (Text ⊎ Text) → Wait
  overdue : KillEnd → Wait

-- A child: what a streamed run reads of it and how it exits, the same in text mode; its standard error,
-- none where something that it started holds it open for ever; and what other handlers do while it
-- runs, beside what they submit at its gates.
pub record Child : Type 0 where
  pub start : Start
  pub events : List Event
  pub exit : Exit
  pub wait : Wait
  pub stderr : Option Text
  pub others : CliGateway → CliGateway

-- The `Display` of an error.
unfoldable pub error_text : GatewayError → Text
error_text (unknown_method t) = codes "gateway/unknown-method: " ++ t
error_text (invalid_args t) = codes "invalid args: " ++ t
error_text (agent_not_found t) = codes "agent not found: " ++ t
error_text (upstream t) = codes "upstream: " ++ t
error_text (rejected reason detail) = codes "command_rejected/" ++ reason

-- An empty reply or an echo of the prompt is no reply.
unfoldable pub checked_reply : Text → Text → Text → Result Text
unfolding trim
checked_reply prompt stderr text =
    if is_empty text
    then err (
        upstream (
          if is_empty (trim stderr)
          then codes "CLI produced empty reply"
          else codes "CLI produced empty reply; stderr: " ++ trim stderr))
    else if text_eq text prompt || text_eq text (codes "echo: " ++ prompt)
    then err (upstream (codes "CLI reply looked like stub echo; refusing"))
    else ok text

-- None, where the run still waits.
abbrev reply_at : Run → Option (Result Text) × Stream
reply_at (running s) = (none, s)
reply_at (at_end s) = (none, s)
reply_at (stuck s) = (none, s)
reply_at (returned r s) = (some r, s)

-- From the loop of a streamed run to its reply.
unfoldable pub concluded : Exit → Run → Option (Result Text) × Stream
unfolding finish
concluded exit (at_end s) = reply_at (finish exit s)
concluded exit r = reply_at r

abbrev pub note_killed : Text → CliGateway → CliGateway
note_killed id s = record s { killed = s.killed ++ id ∷ [] }

-- the reply of a run in text mode whose child is killed, and whether it was
ended_by : KillEnd → Result Text → Option (Result Text) × Bool
ended_by by_kill r = (some r, true)
ended_by by_itself r = (some r, false)
ended_by not_at_all r = (none, false)

abbrev pub new_stream : CliGateway → Stream
new_stream s = record {
  approval = s.approval;
  sent = [];
  killed = false;
  deltas = [];
  final_from_result = none;
  error = none;
  plain = [];
}

-- what a run leaves behind
abbrev pub after_stream : Text → Stream → CliGateway → CliGateway
after_stream id t s = record s {
  approval = t.approval;
  sent = s.sent ++ map (hinted id) t.sent;
  killed = if t.killed then s.killed ++ id ∷ [] else s.killed;
}

module _ (from_str : Text → Option Json) (c : Settings)
    (spawn : Text → Text → List Text → Child) where
  unfoldable pub output_of : Bool → Option ExitCode → Text ⊎ Text → Result Text
  unfolding humanize_cli_failure_body extract_text_mode_reply
  output_of success code (inl e) = err (upstream (codes "stdout join: " ++ e))
  output_of true code (inr raw) =
      extract_text_mode_reply from_str raw (reply_is_json_document c.extra_args)
  output_of false code (inr raw) = err (
      upstream (
        codes "CLI non-zero exit "
        ++ (code_text code ++ (codes ": " ++ humanize_cli_failure_body from_str raw))))

  -- the reply, where there is one, and whether the child was killed
  unfoldable pub run_cli_text : Wait → Option (Result Text) × Bool
  unfolding output_of ended_by
  run_cli_text (waited (exited success code) out) = (Option.map (output_of success code) out, false)
  run_cli_text (waited (wait_error e) out) = (some (err (upstream (codes "CLI wait: " ++ e))), true)
  run_cli_text (waited (interrupted e) out) =
      ended_by e (err (upstream (codes "gateway/run-interrupted")))
  run_cli_text (overdue e) =
      ended_by e (err (upstream (codes "CLI timeout (ATLAS_AGENT_CLI_TIMEOUT_MS exceeded)")))

  unfoldable pub text_run : Text → Child → CliGateway → Option (Result Text) × CliGateway
  unfolding run_cli_text
  text_run id child s =
      let (r, killed) = run_cli_text child.wait in (r, if killed then note_killed id s else s)

  unfoldable pub streamed_run : Text → Child → CliGateway → Option (Result Text) × CliGateway
  unfolding concluded run
  streamed_run id child s =
      let (r, t) = concluded child.exit (run from_str id child.events (new_stream s)) in
      (r, after_stream id t s)

  unfoldable pub checked :
      Text → Child → Option (Result Text) × CliGateway → Option (Result Text) × CliGateway
  unfolding checked_reply
  checked prompt child (none, s) = (none, s)
  checked prompt child (some (err e), s) = (some (err e), child.others s)
  checked prompt child (some (ok t), s) =
      (Option.map (λ stderr. checked_reply prompt stderr t) child.stderr, child.others s)

  unfoldable pub started :
      Text → Text → Child → Start → CliGateway → Option (Result Text) × CliGateway
  unfolding checked streamed_run text_run
  started id prompt child not_found s = (
    some (
        err (
          upstream (
            codes "CLI binary not found ("
            ++ (c.cli_path
                ++ codes
                    "): install and login Cursor/Atlas agent, or set ATLAS_AGENT_CLI to a real binary (see docs/cli-primary-runbook.md)")))),
    s,
  )
  started id prompt child (spawn_error e) s =
      (some (err (upstream (codes "CLI spawn failed (" ++ (c.cli_path ++ (codes "): " ++ e))))), s)
  started id prompt child no_stdout s =
      (some (err (upstream (codes "CLI stdout missing"))), note_killed id s)
  started id prompt child no_stderr s =
      (some (err (upstream (codes "CLI stderr missing"))), note_killed id s)
  started id prompt child spawned s =
      checked prompt child
        (if c.stream_enabled then streamed_run id child s else text_run id child s)

  abbrev pub child_of : Text → Text → Child
  child_of id prompt = spawn c.cli_path id (build_cli_argv c.dialect c.extra_args prompt)

  unfoldable pub run_cli : Text → Text → CliGateway → Option (Result Text) × CliGateway
  unfolding started build_cli_argv
  run_cli id prompt s = started id prompt (child_of id prompt) (child_of id prompt).start s
