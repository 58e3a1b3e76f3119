-- ===== src/Cli/Spawn/Formats.antt =====
-- The format that is asked for is the format that is read.
use atlas_bot.Common.{
  Text, codes, text_eq, Bool, true, false, not, Option, none, some, List, ◌≡◌, refl, ap, ◌∙◌, ◌&&◌,
}
use atlas_bot.Cli.Spawn.{
  CliDialect, atlas, cursor, parse_dialect, dialect_str, default_extra_args, resolve_spawn_plan,
  reply_is_json_document,
}

-- The name of a dialect is read back.
pub parse_dialect-dialect_str : (d : CliDialect) → parse_dialect (some (dialect_str d)) ≡ d
unfolding parse_dialect dialect_str codes text_eq
parse_dialect-dialect_str atlas = refl
parse_dialect-dialect_str cursor = refl

abbrev pub is_atlas : CliDialect → Bool
is_atlas atlas = true
is_atlas cursor = false

default_format :
    (d : CliDialect) (stream : Bool)
    → reply_is_json_document (default_extra_args d stream) ≡ (is_atlas d && not stream)
unfolding reply_is_json_document default_extra_args codes text_eq
default_format atlas true = refl
default_format atlas false = refl
default_format cursor true = refl
default_format cursor false = refl

abbrev pub IsUnreadable : (Text → Option (List Text)) → Option Text → Type 0
IsUnreadable from_str none = Unit {0}
IsUnreadable from_str (some raw) = from_str raw ≡ none

default_args :
    (from_str : Text → Option (List Text)) (dialect_raw raw : Option Text) (stream : Bool)
    → IsUnreadable from_str raw
    → (resolve_spawn_plan from_str dialect_raw stream raw).extra_args
      ≡ default_extra_args (parse_dialect dialect_raw) stream
unfolding resolve_spawn_plan
default_args from_str dialect_raw none stream h = refl
default_args from_str dialect_raw (some raw) stream h = rw h refl

-- Where the extra arguments are not given or are no list of texts, the reply is read as one JSON
-- document exactly where the dialect is not Cursor's and the reply is not streamed; the arguments ask
-- for that format.
pub reply_is_json_document-resolve_spawn_plan :
    (from_str : Text → Option (List Text)) (dialect_raw raw : Option Text) (stream : Bool)
    → IsUnreadable from_str raw
    → reply_is_json_document (resolve_spawn_plan from_str dialect_raw stream raw).extra_args
      ≡ (is_atlas (parse_dialect dialect_raw) && not stream)
reply_is_json_document-resolve_spawn_plan from_str dialect_raw raw stream h =
    ap reply_is_json_document (default_args from_str dialect_raw raw stream h)
    ∙ default_format (parse_dialect dialect_raw) stream
