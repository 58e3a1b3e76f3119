-- ===== src/Cli/Stream/Ends.antt =====
-- How a streamed run ends, after the loop: the exit status and the reply, of `run_cli_streaming` of
-- crates/atlas-bot-gateway/src/cli_gateway.rs.
use atlas_bot.Common.{
  ◌+◌, Text, codes, Bool, true, false, Option, none, some, [], ◌∷◌, ◌++◌, if◌then◌else◌, is_empty,
  trim, show, join_texts, unwrap_or, ◌or_else◌, ◌≡◌, ap, ◌∙◌,
}
use mathlib.Core.Option
use atlas_bot.Json.{and_then}
use atlas_bot.Gateway.Types.{Result, ok, err, GatewayError, upstream, ExitCode, plus, minus}
use atlas_bot.Cli.Reply.{truncate_hint}
use atlas_bot.Cli.Stream.{Stream, kill, KillEnd, Run, returned, end_child}

-- The exit status; a child that a signal ends has no code. Or an error of waiting, which drops the
-- child, or an interrupt.
pub data Exit : Type 0 where
  exited : Bool → Option ExitCode → Exit
  wait_error : Text → Exit
  interrupted : KillEnd → Exit

-- `filter(|s| !s.trim().is_empty())`
abbrev not_blank : Text → Option Text
not_blank s = if is_empty (trim s) then none else some s

-- The `Display` of an `i32`.
abbrev pub show_code : ExitCode → Text
show_code (plus n) = show n
show_code (minus n) = b'-' ∷ show (n + 1)

pub code_text : Option ExitCode → Text
code_text code = unwrap_or (Option.map show_code code) (codes "-1")

failed : Text → Text → GatewayError
unfolding truncate_hint
failed code detail =
    if is_empty detail
    then upstream (codes "CLI non-zero exit " ++ code)
    else upstream (codes "CLI non-zero exit " ++ (code ++ (codes ": " ++ truncate_hint detail)))

unfoldable pub detail_of : Stream → Text
unfolding trim join_texts
detail_of s = trim (
    unwrap_or (and_then s.error not_blank or_else and_then s.final_from_result not_blank)
      (join_texts [] s.deltas))

-- the result, else the plain lines, else the deltas
without_result : Stream → Text
unfolding trim join_texts
without_result s = if is_empty (trim s.plain) then join_texts [] s.deltas else trim s.plain

reply_of : Option Text → Stream → Text
unfolding without_result
reply_of none s = without_result s
reply_of (some r) s = trim r

unless_error : Option Text → Stream → Result Text
unfolding reply_of truncate_hint
unless_error (some msg) s = err (upstream (codes "CLI JSON error: " ++ truncate_hint (trim msg)))
unless_error none s = ok (reply_of s.final_from_result s)

unfoldable pub finish : Exit → Stream → Run
unfolding unless_error failed detail_of code_text end_child
finish (exited false code) s = returned (err (failed (code_text code) (detail_of s))) s
finish (exited true code) s = returned (unless_error (and_then s.error not_blank) s) s
finish (wait_error e) s = returned (err (upstream (codes "CLI wait: " ++ e))) (kill s)
finish (interrupted e) s = end_child e (err (upstream (codes "gateway/run-interrupted"))) s

-- A run without an error, a result and plain lines has the deltas as its reply.
pub finish-deltas :
    (code : Option ExitCode) (s : Stream)
    → s.error ≡ none
    → s.final_from_result ≡ none
    → s.plain ≡ []
    → finish (exited true code) s ≡ returned (ok (join_texts [] s.deltas)) s
unfolding finish
finish-deltas code s e r p =
    ap (λ o. returned (unless_error (and_then o not_blank) s) s) e
    ∙ ap (λ o. returned (ok (reply_of o s)) s) r
    ∙ ap (λ t. returned (ok (if is_empty (trim t) then join_texts [] s.deltas else trim t)) s) p
