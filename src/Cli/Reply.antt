-- ===== src/Cli/Reply.antt =====
-- The reply in text mode: `extract_text_mode_reply`, `humanize_cli_failure_body` and `truncate_hint`
-- of crates/atlas-bot-gateway/src/cli_gateway.rs. The JSON reader is a parameter.
pub mod Trimmed
pub mod Hints
use atlas_bot.Common.{
  Text, codes, text_eq, Bool, true, false, ◌&&◌, ◌||◌, not, Option, none, some, [], ◌∷◌, ◌++◌,
  if◌then◌else◌, leb, length, take, bytes_of, is_empty, trim, to_ascii_lowercase, starts_with,
  unwrap_or, ◌or_else◌,
}
use atlas_bot.Json.{Json, obj, get_str, get_bool, and_then}
use atlas_bot.Gateway.Types.{Result, ok, err, upstream}

unfoldable pub truncate_hint : Text → Text
unfolding bytes_of
truncate_hint s = if leb (length (bytes_of s)) 65536 then s else take 65536 s ++ (8230 ∷ [])

-- `filter(|s| !s.is_empty())`
abbrev pub filled : Text → Option Text
filled s = if is_empty s then none else some s

unfoldable pub message_or : Text → Json → Text
unfolding get_str
message_or fallback v = unwrap_or (and_then (get_str "message" v) filled) fallback

json_error : Text → Result Text
json_error msg = err (upstream (codes "CLI JSON error: " ++ msg))

-- an empty text with the reason why it stopped
stopped : Option Text → Result Text
unfolding trim to_ascii_lowercase
stopped none = ok []
stopped (some raw) =
    let why = trim raw in
    if not (is_empty why) && not (text_eq (to_ascii_lowercase why) (codes "end_turn"))
    then err (upstream (codes "CLI JSON reply empty (stopReason=" ++ (why ++ codes ")")))
    else ok []

with_text : Json → Option Text → Result Text
unfolding stopped get_str get_bool message_or json_error trim
with_text v (some t) = if is_empty (trim t) then stopped (get_str "stopReason" v) else ok (trim t)
with_text v none =
    if unwrap_or (get_bool "is_error" v) false
    then json_error (message_or (codes "is_error") v)
    else err (upstream (codes "CLI JSON reply missing text field"))

abbrev is_text : Text → Option Text → Bool
is_text t none = false
is_text t (some s) = text_eq s t

abbrev is_object : Json → Bool
is_object (obj fs) = true
is_object _ = false

-- the one JSON document of the reply
document : Text → Option Json → Result Text
unfolding get_str with_text message_or json_error
document trimmed none = ok trimmed
document trimmed (some v) =
    if not (is_object v)
    then err (upstream (codes "CLI JSON reply was not an object"))
    else if is_text (codes "error") (get_str "type" v)
    then json_error (message_or (codes "CLI JSON error") v)
    else with_text v (get_str "text" v)

module _ (from_str : Text → Option Json) where
  unfoldable pub extract_text_mode_reply : Text → Bool → Result Text
  unfolding document trim
  extract_text_mode_reply raw json_mode =
      let trimmed = trim raw in
      if not json_mode || is_empty trimmed || not (starts_with (codes "{") trimmed)
      then ok trimmed
      else document trimmed (from_str trimmed)

  humanized : Text → Option Json → Text
  unfolding get_str
  humanized trimmed none = trimmed
  humanized trimmed (some v) =
      unwrap_or (and_then (get_str "message" v) filled or_else and_then (get_str "error" v) filled)
        trimmed

  unfoldable pub humanize_cli_failure_body : Text → Text
  unfolding humanized trim
  humanize_cli_failure_body raw =
      let trimmed = trim raw in
      if is_empty trimmed then [] else humanized trimmed (from_str trimmed)
