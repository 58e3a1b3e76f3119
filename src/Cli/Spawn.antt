-- ===== src/Cli/Spawn.antt =====
-- How the command line is called: `CliDialect`, `resolve_spawn_plan`, `build_cli_argv` and the formats
-- of crates/atlas-bot-gateway/src/cli_gateway.rs. The reader of a JSON list of texts is a parameter.
pub mod Formats
use atlas_bot.Common.{
  Text, codes, text_eq, Bool, true, false, Option, none, some, List, [], ◌∷◌, ◌++◌, if◌then◌else◌,
  trim, to_ascii_lowercase, strip_prefix, unwrap_or, ◌||◌,
}
use atlas_bot.Json.{and_then}

pub data CliDialect : Type 0 where
  atlas cursor : CliDialect

-- `CliDialect::parse` and `as_str`
named : Text → CliDialect
named s = if text_eq s (codes "cursor") || text_eq s (codes "legacy") then cursor else atlas

unfoldable pub parse_dialect : Option Text → CliDialect
unfolding named to_ascii_lowercase trim
parse_dialect none = atlas
parse_dialect (some raw) = named (to_ascii_lowercase (trim raw))

unfoldable pub dialect_str : CliDialect → Text
dialect_str atlas = codes "atlas"
dialect_str cursor = codes "cursor"

pub record CliSpawnPlan : Type 0 where
  pub dialect : CliDialect
  pub extra_args : List Text
  pub streams : Bool

unfoldable pub default_extra_args : CliDialect → Bool → List Text
default_extra_args atlas false = codes "--output-format" ∷ codes "json" ∷ []
default_extra_args atlas true = codes "--output-format" ∷ codes "streaming-json" ∷ []
default_extra_args cursor false = codes "--output-format" ∷ codes "text" ∷ []
default_extra_args cursor true =
    codes "--output-format" ∷ codes "stream-json" ∷ codes "--stream-partial-output" ∷ []

module _ (from_str : Text → Option (List Text)) where
  unfoldable pub resolve_spawn_plan : Option Text → Bool → Option Text → CliSpawnPlan
  unfolding parse_dialect default_extra_args
  resolve_spawn_plan dialect_raw stream extra_args_raw = record {
    dialect = parse_dialect dialect_raw;
    extra_args =
        unwrap_or (and_then extra_args_raw from_str)
          (default_extra_args (parse_dialect dialect_raw) stream);
    streams = stream;
  }

unfoldable pub build_cli_argv : CliDialect → List Text → Text → List Text
build_cli_argv atlas extra_args prompt = extra_args ++ (codes "-p" ∷ prompt ∷ [])
build_cli_argv cursor extra_args prompt = codes "-p" ∷ extra_args ++ (prompt ∷ [])

abbrev head : List Text → Option Text
head [] = none
head (a ∷ args) = some a

-- the value of one argument, which stands before `rest`; `later` is what `rest` says
format_in : Text → List Text → Option Text → Option Text → Option Text
format_in a rest later (some v) = some v
format_in a rest later none = if text_eq a (codes "--output-format") then head rest else later

unfoldable pub output_format_value : List Text → Option Text
unfolding format_in strip_prefix
output_format_value [] = none
output_format_value (a ∷ rest) =
    format_in a rest (output_format_value rest) (strip_prefix (codes "--output-format=") a)

is_json : Option Text → Bool
is_json none = false
is_json (some v) = text_eq v (codes "json")

unfoldable pub reply_is_json_document : List Text → Bool
unfolding output_format_value is_json
reply_is_json_document extra_args = is_json (output_format_value extra_args)
