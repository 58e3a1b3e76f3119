-- ===== src/Gateway/Tail.antt =====
-- `get_transcript_tail` of crates/atlas-bot-gateway/src/lib.rs.
pub mod Paging
mod Tests
use atlas_bot.Common.{
  ℕ, Text, Bool, true, Option, none, some, List, [], ◌∷◌, ◌-◌, map, get, contains_key, ltb, length,
  drop, if◌then◌else◌, unwrap_or,
}
use atlas_bot.Json.{Json, str, array, object, get_count}
use atlas_bot.Gateway.Types.{
  agent_not_found, TranscriptEntry, Exec, ◌>>=◌, ◌>>◌, pure, read, ensure, entry_value,
}

-- `before_seq.map(|b| e.seq < b).unwrap_or(true)`
is_before : Option ℕ → TranscriptEntry → Bool
is_before none e = true
is_before (some b) e = ltb e.seq b

pub entries_before : Option ℕ → List TranscriptEntry → List TranscriptEntry
unfolding is_before
entries_before b [] = []
entries_before b (e ∷ es) = if is_before b e then e ∷ entries_before b es else entries_before b es

-- the last `limit` of them
unfoldable pub tail_page : ℕ → Option ℕ → List TranscriptEntry → List TranscriptEntry
tail_page limit before es =
    drop (length (entries_before before es) - limit) (entries_before before es)

unfoldable pub get_transcript_tail : Text → Json → Exec Json
get_transcript_tail id args = do
  let limit = unwrap_or (get_count "limit" args) 20
  let before = get_count "beforeSeq" args
  agents ← read (λ s. s.agents)
  ensure (contains_key id agents) (agent_not_found id)
  es ← read (λ s. unwrap_or (get id s.transcripts) [])
  pure (
      object (
        ("entries", array (map entry_value (tail_page limit before es)))
        ∷ ("agentId", str id)
        ∷ []))
