-- ===== src/Sandbox/Triggers.antt =====
-- The tool triggers of a prompt: `first_token`, `parse_trigger_path`, `parse_write_file` and
-- `scan_unknown_run_commands` of crates/atlas-bot-gateway/src/box_sidecar.rs.
pub mod Scan
use atlas_bot.Common.{
  ℕ, zero, suc, ◌+◌, Text, codes, text_eq, ◌||◌, Option, none, some, List, [], ◌∷◌, ◌++◌,
  if◌then◌else◌, is_empty, trim, trim_start, after_first, first_line, split_word, unwrap_or, any,
  length,
}
use atlas_bot.Json.{and_then}

abbrev pub Trigger : Type 0
Trigger = Text

-- the word at the start, and what stands behind it
unfoldable pub first_token : Text → Option (Text × Text)
unfolding trim_start split_word
first_token s =
    let t = trim_start s in
    if is_empty t then none else some ((split_word t).0, trim_start (split_word t).1)

unfoldable pub parse_trigger_path : Text → Text → Option Text
unfolding after_first first_token
parse_trigger_path prompt trigger =
    and_then (after_first trigger prompt)
      (λ rest. and_then (first_token rest) (λ t. if is_empty t.0 then none else some t.0))

-- the path, and the content: what stands behind `<<<` where that occurs
unfoldable pub parse_write_file : Text → Option (Text × Text)
unfolding after_first first_token trim
parse_write_file prompt = and_then (after_first (codes "WRITE_FILE") prompt) (λ rest.
    and_then (first_token rest)
      (λ t. some (t.0, trim (unwrap_or (after_first (codes "<<<") t.1) t.1))))

-- the command behind one `RUN `
unfoldable pub command_of : Text → Text
unfolding first_line split_word trim_start trim
command_of after = (split_word (trim_start (trim (first_line after)))).0

abbrev whitelist : List Text
whitelist = codes "ls" ∷ codes "pwd" ∷ codes "cat" ∷ codes "mkdir" ∷ []

-- the report on it, where it is on no list
unfoldable pub reported : Text → List (Text × Text)
unfolding command_of
reported after =
    let cmd = command_of after in
    if is_empty cmd || any (λ w. text_eq cmd w) whitelist
    then []
    else (cmd, codes "closed-set reject; not silent") ∷ []

abbrev Scan : Type 0
Scan = Option (List (Text × Text))

-- one round of the loop; what `rest` finds comes behind
round : (Text → Scan) → Option Text → Scan
unfolding reported
round rest none = some []
round rest (some after) = and_then (rest after) (λ found. some (reported after ++ found))

-- the loop, on fuel; none where the fuel runs out
scan : ℕ → Text → Scan
unfolding after_first round
scan zero search = none
scan (suc fuel) search = round (scan fuel) (after_first (codes "RUN ") search)

unfoldable pub scan_unknown_run_commands : Text → Scan
unfolding scan
scan_unknown_run_commands prompt = scan (length prompt + 1) prompt
