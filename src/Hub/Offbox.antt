-- ===== src/Hub/Offbox.antt =====
-- The cold transcripts and the roster of crates/atlas-bot-hub/src/lib.rs: `page_offbox`,
-- `ingest_turn_entries`, `seed_offbox`, `append_offbox_entry` and `upsert_roster_agent`.
pub mod Paging
pub mod Ingest
use atlas_bot.Common.{
  ℕ, ◌+◌, Text, codes, text_eq, text_lt, Bool, false, Option, none, some, List, [], ◌∷◌, ◌++◌, get,
  insert, any, map, length, take, drop, leb, ltb, if◌then◌else◌, unwrap_or, strip_prefix,
  parse_usize, show,
}
use Prim.Native.Nat.{min}
use atlas_bot.Json.{Json, str, get_key, and_then}
use atlas_bot.Gateway.Types.{TranscriptEntry, entry_value}
use atlas_bot.Hub.Types.{RosterEntry, Hub}

abbrev pub offbox_page_size : ℕ
offbox_page_size = 2

-- where a cursor points: `c<index>`, and the start for any other text
unfoldable pub cursor_start : Option Text → ℕ
cursor_start none = 0
cursor_start (some c) = unwrap_or (and_then (strip_prefix (codes "c") c) parse_usize) 0

-- the page and the cursor of the next
unfoldable pub page_offbox : List Json → Option Text → List Json × Option Text
unfolding cursor_start
page_offbox entries cursor =
    let start = cursor_start cursor in
    if leb (length entries) start
    then ([], none)
    else (let end = min (start + offbox_page_size) (length entries) in
        (
          drop start (take end entries),
          (if ltb end (length entries) then some (codes "c" ++ show end) else none),
        ))

-- `x.get("id") == Some(id)`
unfoldable pub has_id : Text → Json → Bool
has_id id x = elim (get_key "id" x) [
  | some v ↦ elim v [ str t ↦ text_eq t id | _ ↦ false ]
  | none ↦ false
]

-- a transcript entry with its id
unfoldable pub keyed : TranscriptEntry → Text × Json
unfolding entry_value
keyed e = (e.id, entry_value e)

-- the entries that are not there yet, by their ids
unfoldable pub ingest : List (Text × Json) → List Json → List Json
ingest [] entries = entries
ingest ((id, v) ∷ vs) entries =
    ingest vs (if any (has_id id) entries then entries else entries ++ v ∷ [])

module _ {G : Type 0} where
  unfoldable pub ingest_turn_entries : Text → List TranscriptEntry → Hub G → Hub G
  ingest_turn_entries id es h = record h {
    offbox = insert id (ingest (map keyed es) (unwrap_or (get id h.offbox) [])) h.offbox;
  }

  unfoldable pub seed_offbox : Text → List Json → Hub G → Hub G
  seed_offbox id entries h = record h { offbox = insert id entries h.offbox }

  unfoldable pub append_offbox_entry : Text → Json → Hub G → Hub G
  append_offbox_entry id entry h = record h {
    offbox = insert id (unwrap_or (get id h.offbox) [] ++ entry ∷ []) h.offbox;
  }

-- the first row of an agent, if any, is changed
unfoldable pub update_row : Text → (RosterEntry → RosterEntry) → List RosterEntry → List RosterEntry
update_row id f [] = []
update_row id f (r ∷ rs) = if text_eq r.agent_id id then f r ∷ rs else r ∷ update_row id f rs

unfoldable pub has_row : Text → List RosterEntry → Bool
has_row id rs = any (λ r. text_eq r.agent_id id) rs

-- `sort_by` of the agent ids, which keeps the order of equal ones
place_row : RosterEntry → List RosterEntry → List RosterEntry
place_row r [] = r ∷ []
place_row r (x ∷ xs) = if text_lt x.agent_id r.agent_id then x ∷ place_row r xs else r ∷ x ∷ xs

unfoldable pub sort_rows : List RosterEntry → List RosterEntry
unfolding place_row
sort_rows [] = []
sort_rows (r ∷ rs) = place_row r (sort_rows rs)

unfoldable pub upsert_row : Text → Text → Text → List RosterEntry → List RosterEntry
unfolding has_row
upsert_row id name status rs =
    if has_row id rs
    then update_row id (λ r. record r { name = name; status = status }) rs
    else sort_rows
        (rs ++ record { agent_id = id; name = name; status = status; last_turn_at = none } ∷ [])

unfoldable pub upsert_roster_agent : {G : Type 0} → Text → Text → Text → Hub G → Hub G
upsert_roster_agent id name status h = record h { roster = upsert_row id name status h.roster }
