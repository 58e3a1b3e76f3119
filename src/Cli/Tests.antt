-- ===== src/Cli/Tests.antt =====
-- The command line gateway at concrete inputs. The reader of JSON takes one line for a chunk of text
-- and one for the start of a shell, and refuses all others.
use atlas_bot.Common.{
  Text, codes, text_eq, true, false, Option, none, some, List, [], ◌∷◌, ◌++◌, ◌≡◌, refl,
  if◌then◌else◌, trim, join_texts, not, ◌&&◌, is_ascii_alphanumeric,
}
use atlas_bot.Json.{Json, str, object}
use atlas_bot.Gateway.Types.{ok, plus}
use atlas_bot.Approval.{auto_deny, classify_cli_tool}
use atlas_bot.Cli.Spawn.{parse_dialect, resolve_spawn_plan, reply_is_json_document}
use atlas_bot.Cli.Spawn.Formats.{is_atlas, reply_is_json_document-resolve_spawn_plan}
use atlas_bot.Cli.Reply.{extract_text_mode_reply}
use atlas_bot.Cli.Reply.Trimmed.{trim-extract_text_mode_reply}
use atlas_bot.Cli.Lines.{classify_stream_line, without_line_end}
use atlas_bot.Cli.Lines.Chunks.{IsChunk}
use atlas_bot.Cli.Stream.{Event, Run, line, eof, Pause, by_kill, Stream, run, at_end, returned}
use atlas_bot.Cli.Stream.Ends.{exited, finish}
use atlas_bot.Cli.Stream.Chunks.{Chunk, chunk_lines, texts, finish-run}
use atlas_bot.Cli.Stream.Passes.{line_gates}
use atlas_bot.Cli.Stream.Refused.{line_tool, lines, IsRefused, run-IsRefused}
use atlas_bot.Json.{get_str}
use atlas_bot.Common.{get}
use atlas_bot.Approval.{auto_denied}
use atlas_bot.Cli.Stream.{refusal}
use atlas_bot.Cli.Agents.{default_agent, new_full}
use atlas_bot.Cli.Children.{Settings, Child, spawned, overdue}
use atlas_bot.Cli.Turns.{send_prompt}
use atlas_bot.Cli.Turns.Refusal.{echoes, IsCompleted, send_prompt-IsCompleted}

abbrev no_args : Text → Option (List Text)
no_args raw = none

reply_is_json_document-resolve_spawn_plan_example :
    reply_is_json_document (resolve_spawn_plan no_args none false (some (codes "oops"))).extra_args
    ≡ (is_atlas (parse_dialect none) && not false)
reply_is_json_document-resolve_spawn_plan_example =
    reply_is_json_document-resolve_spawn_plan no_args none (some (codes "oops")) false refl

abbrev chunk_line : Text
chunk_line = codes "{hi}"

abbrev shell_line : Text
shell_line = codes "{sh}"

from_str : Text → Option Json
unfolding text_eq codes
from_str t =
    if text_eq t chunk_line
    then some (object (("type", str (codes "text")) ∷ ("data", str (codes "hi")) ∷ []))
    else if text_eq t shell_line
    then some (object (("type", str (codes "tool_call")) ∷ ("name", str (codes "Shell")) ∷ []))
    else none

plain_reply : extract_text_mode_reply from_str (codes " hi ") false ≡ ok (codes "hi")
unfolding extract_text_mode_reply codes
plain_reply = refl

trim-extract_text_mode_reply_example : trim (codes "hi") ≡ codes "hi"
trim-extract_text_mode_reply_example =
    trim-extract_text_mode_reply from_str (codes " hi ") false (codes "hi") plain_reply

abbrev pause : Pause
pause = record { uuid = codes "1"; submissions = λ a. a; wake = none; kill_end = by_kill }

abbrev quiet : Stream
quiet = record {
  approval = record { mode = auto_deny; pending = []; inject = []; sent = [] };
  sent = [];
  killed = false;
  deltas = [];
  final_from_result = none;
  error = none;
  plain = [];
}

abbrev hi : Chunk
hi = record { raw = chunk_line; text = codes "hi"; pause = pause }

hi-IsChunk : IsChunk from_str chunk_line (codes "hi")
unfolding from_str without_line_end codes
hi-IsChunk = record { rest = codes "hi}"; braced = refl; parses = refl; filled = refl }

finish-run_example :
    (t : Stream) × (run from_str (codes "agt_1") (chunk_lines (hi ∷ hi ∷ []) ++ eof ∷ []) quiet
      ≡ at_end t)
    × (finish (exited true (some (plus 0))) t
        ≡ returned (ok (join_texts [] (texts (hi ∷ hi ∷ [])))) t)
finish-run_example =
    finish-run from_str (codes "agt_1") (hi ∷ hi ∷ []) quiet (some (plus 0))
      (hi-IsChunk, (hi-IsChunk, tt)) refl refl refl refl

shell_gates : line_gates from_str shell_line ≡ true
unfolding from_str without_line_end codes text_eq classify_stream_line classify_cli_tool trim
    is_ascii_alphanumeric
shell_gates = refl

hi_passes : line_gates from_str chunk_line ≡ false
unfolding from_str without_line_end codes text_eq classify_stream_line
hi_passes = refl

abbrev refused_run : List Event → Run
refused_run later =
    run from_str (codes "agt_1")
      (lines from_str (codes "agt_1") ((chunk_line, pause) ∷ []) ++ line shell_line pause ∷ later)
      quiet

run-IsRefused_example :
    IsRefused by_kill (line_tool from_str shell_line) quiet (refused_run (eof ∷ []))
    × (refused_run (eof ∷ []) ≡ refused_run [])
run-IsRefused_example =
    run-IsRefused from_str (codes "agt_1") ((chunk_line, pause) ∷ []) shell_line pause (eof ∷ [])
      quiet (hi_passes, tt) shell_gates refl

abbrev refusing_child : Child
refusing_child = record {
  start = spawned;
  events =
      lines from_str (codes "agt_1") ((chunk_line, pause) ∷ []) ++ line shell_line pause ∷ eof ∷ [];
  exit = exited true (some (plus 0));
  wait = overdue by_kill;
  stderr = some [];
  others = λ s. s;
}

abbrev settings : Settings
settings = record {
  cli_path = codes "/bin/agent";
  dialect = parse_dialect none;
  extra_args = [];
  stream_enabled = true;
}

abbrev spawn : Text → Text → List Text → Child
spawn path id argv = refusing_child

abbrev hello : Json
hello = object (("prompt", str (codes "hello")) ∷ [])

hello_prompt : get_str "prompt" hello ≡ some (codes "hello")
unfolding get_str
hello_prompt = refl

not_echoed : echoes (codes "hello") (refusal (line_tool from_str shell_line) auto_denied) ≡ false
unfolding refusal from_str without_line_end codes text_eq classify_stream_line
not_echoed = refl

starts_there : get (codes "agt_1") (new_full auto_deny).agents ≡ some default_agent
unfolding new_full get atlas_bot.Common.insert text_eq codes
starts_there = refl

starts_in_auto_deny : (new_full auto_deny).approval.mode ≡ auto_deny
unfolding new_full
starts_in_auto_deny = refl

send_prompt-IsCompleted_example :
    IsCompleted by_kill
      (codes "agt_1")
      (trim (refusal (line_tool from_str shell_line) auto_denied))
      (send_prompt from_str settings spawn (codes "agt_1") hello (new_full auto_deny))
send_prompt-IsCompleted_example =
    send_prompt-IsCompleted from_str settings spawn (codes "agt_1") (codes "hello") hello
      ((chunk_line, pause) ∷ []) shell_line [] pause (eof ∷ []) default_agent (new_full auto_deny)
      hello_prompt starts_there refl starts_in_auto_deny refl refl refl refl refl (hi_passes, tt)
      shell_gates not_echoed (λ u k. k)
