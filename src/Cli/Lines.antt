-- ===== src/Cli/Lines.antt =====
-- One line of a streamed run: `classify_stream_line` and its readers, of
-- crates/atlas-bot-gateway/src/cli_gateway.rs. The JSON reader is a parameter.
pub mod Chunks
use atlas_bot.Common.{
  ℕ, zero, suc, ◌+◌, ◌-◌, ◌%◌, Text, codes, text_eq, Bool, true, false, ◌&&◌, ◌||◌, not, Option,
  none, some, List, [], ◌∷◌, ◌++◌, if◌then◌else◌, ltb, leb, ◌==◌, is_empty, is_some, strip_prefix,
  parse_usize, to_ascii_lowercase, unwrap_or, ◌or_else◌, trim_end_matches,
}
use mathlib.Core.Option
use atlas_bot.Json.{Json, num, neg, as_str, get_key, get_str, get_array, and_then}
use atlas_bot.Gateway.Types.{ExitCode, plus, minus}
use atlas_bot.Cli.Reply.{filled, message_or}

-- `StreamLineKind`
pub data StreamLineKind : Type 0 where
  final cli_error : Text → StreamLineKind
  tool_started : Text → Text → Text → StreamLineKind
  tool_observed : Text → Text → Option ExitCode → StreamLineKind
  other : StreamLineKind

-- `c as i32` of a 32-bit pattern
of_bits : ℕ → ExitCode
of_bits n = if ltb n 2147483648 then plus n else minus (4294967295 - n)

-- `as_i64().map(|c| c as i32)`; a number above the largest `i64` is none
unfoldable pub as_i32 : Json → Option ExitCode
unfolding of_bits
as_i32 (num n) = if leb n 9223372036854775807 then some (of_bits (n % 4294967296)) else none
as_i32 (neg n) = some (of_bits (4294967295 - n % 4294967296))
as_i32 _ = none

magnitude : ℕ → Option ExitCode
magnitude zero = some (plus 0)
magnitude (suc n) = if ltb n 2147483648 then some (minus n) else none

abbrev minus_digits : Text → Option ℕ
minus_digits [] = none
minus_digits (c ∷ s) = if c == b'+' then none else parse_usize (c ∷ s)

positive : Option ℕ → Option ExitCode
positive none = none
positive (some n) = if ltb n 2147483648 then some (plus n) else none

-- `parse::<i32>`
unfoldable pub parse_i32 : Text → Option ExitCode
unfolding magnitude positive
parse_i32 [] = none
parse_i32 (c ∷ s) =
    if c == b'-' then and_then (minus_digits s) magnitude else positive (parse_usize (c ∷ s))

-- the piece before the first tab, and what stands behind it if there is one
unfoldable pub split_tab : Text → Text × Option Text
split_tab [] = ([], none)
split_tab (c ∷ s) = let rest = split_tab s in if c == 9 then ([], some s) else (c ∷ rest.0, rest.1)

-- the pieces of `splitn(3, '\t')`
unfoldable pub tab_parts : Text → Text × Option Text × Option Text
unfolding split_tab
tab_parts s =
    let (tool, rest) = split_tab s in
    let second = Option.map split_tab rest in
    (tool, Option.map (λ p. p.0) second, and_then second (λ p. p.1))

abbrev coded : Text → Text → Option ExitCode → StreamLineKind
coded tool summary none = tool_started tool summary (codes "started")
coded tool summary (some c) = tool_observed tool summary (some c)

-- a line of a mock: started, or observed where it has an exit code
unfoldable pub mock_tool : Text → StreamLineKind
unfolding tab_parts parse_i32
mock_tool rest =
    let (tool, summary, code) = tab_parts rest in
    coded tool (unwrap_or summary []) (and_then code parse_i32)

unfoldable pub is_assistant_partial : Json → Bool
unfolding get_key
is_assistant_partial v =
    let has_model = is_some (get_key "model_call_id" v) in
    let has_ts = is_some (get_key "timestamp_ms" v) in
    if has_model && not has_ts
    then false
    else if has_ts && not has_model
    then true
    else not has_model

unfoldable pub cli_stream_tool_name : Json → Text
unfolding get_key
cli_stream_tool_name v =
    unwrap_or
      (and_then
        (get_key "name" v
          or_else get_key "toolName" v
          or_else get_key "tool" v
          or_else and_then (get_key "tool_call" v) (get_key "name"))
        as_str)
      (codes "tool_call")

unfoldable pub cli_stream_status : Json → Text
unfolding get_key
cli_stream_status v =
    unwrap_or (and_then (get_key "status" v or_else get_key "subtype" v) as_str) []

unfoldable pub cli_stream_summary : Json → Text → Text
unfolding get_str
cli_stream_summary v status = unwrap_or (get_str "summary" v or_else get_str "title" v) status

unfoldable pub classify_tool_call_line : Json → StreamLineKind
unfolding cli_stream_status cli_stream_tool_name cli_stream_summary get_key as_i32
    to_ascii_lowercase
classify_tool_call_line v =
    let status = cli_stream_status v in
    let tool = cli_stream_tool_name v in
    let summary = cli_stream_summary v status in
    if text_eq (to_ascii_lowercase status) (codes "completed")
    then tool_observed tool summary (and_then (get_key "exit_code" v) as_i32)
    else tool_started tool summary status

abbrev is_text : Text → Option Text → Bool
is_text t none = false
is_text t (some s) = text_eq s t

-- the texts of the parts whose type is `text`, one behind the other
part_texts : List Json → Text
unfolding get_str
part_texts [] = []
part_texts (part ∷ parts) =
    (if is_text (codes "text") (get_str "type" part)
      then unwrap_or (get_str "text" part) []
      else [])
    ++ part_texts parts

unfoldable pub extract_assistant_text : Json → Option Text
unfolding part_texts get_key get_array get_str
extract_assistant_text v =
    and_then (and_then (get_key "message" v) (get_array "content"))
      (λ parts. filled (part_texts parts))
    or_else and_then (get_str "text" v) filled

-- What a line is, and the deltas that it adds: each is pushed and sent as a hint.
abbrev pub Read : Type 0
Read = StreamLineKind × List Text

abbrev delta : Option Text → Read
delta none = (other, [])
delta (some t) = (other, t ∷ [])

abbrev ending : Option Text → StreamLineKind
ending none = other
ending (some r) = final r

unfoldable pub classify_value : Json → Read
unfolding is_assistant_partial extract_assistant_text get_str classify_tool_call_line
    cli_stream_tool_name cli_stream_status cli_stream_summary get_key as_i32 message_or
classify_value v =
    let ty = unwrap_or (get_str "type" v) [] in
    if text_eq ty (codes "assistant")
    then (if is_assistant_partial v then delta (extract_assistant_text v) else (other, []))
    else if text_eq ty (codes "text")
    then delta (and_then (get_str "data" v) filled)
    else if text_eq ty (codes "tool_call")
    then (classify_tool_call_line v, [])
    else if text_eq ty (codes "tool_call_update")
    then (
      tool_observed (cli_stream_tool_name v) (cli_stream_summary v (cli_stream_status v))
          (and_then (get_key "exit_code" v) as_i32),
      [],
    )
    else if text_eq ty (codes "result")
    then (ending (get_str "result" v), [])
    else if text_eq ty (codes "error")
    then (cli_error (message_or (codes "CLI stream error") v), [])
    else (other, [])

parsed : Option Json → Read
unfolding classify_value
parsed none = (other, [])
parsed (some v) = classify_value v

abbrev is_line_end : ℕ → Bool
is_line_end c = c == 13 || c == 10

unfoldable pub without_line_end : Text → Text
unfolding trim_end_matches
without_line_end line = trim_end_matches is_line_end line

module _ (from_str : Text → Option Json) where
  or_json : Text → Option Text → Read
  unfolding mock_tool parsed
  or_json line none = parsed (from_str line)
  or_json line (some rest) = (mock_tool rest, [])

  or_mock : Text → Option Text → Read
  unfolding or_json strip_prefix
  or_mock line none = or_json line (strip_prefix (codes "ATLAS_TOOL" ++ 9 ∷ []) line)
  or_mock line (some rest) = (other, rest ∷ [])

  unfoldable pub classify_stream_line : Text → Read
  unfolding or_mock without_line_end strip_prefix
  classify_stream_line raw =
      let line = without_line_end raw in
      if is_empty line
      then (other, [])
      else or_mock line (strip_prefix (codes "ATLAS_DELTA" ++ 9 ∷ []) line)
