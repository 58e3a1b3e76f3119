-- ===== src/Gateway/Groups.antt =====
-- Agents and groups: `list_agents`, `create_agent`, `create_group`, `set_group_members` and what
-- they call, of crates/atlas-bot-gateway/src/lib.rs.
pub mod Members
use mathlib.Core.Option
use atlas_bot.Common.{
  ℕ, Text, codes, text_eq, text_lt, Bool, true, false, none, some, List, [], ◌∷◌, ◌++◌, map, Dict,
  get, insert, if◌then◌else◌, unwrap_or, succ_u64, is_empty,
}
use atlas_bot.Json.{Json, str, array, object, as_str, get_str, get_nonempty, get_array, nonempty}
use atlas_bot.Json
use atlas_bot.Gateway.Types.{
  Result, ok, err, and_then, ok_or, invalid_args, AgentRecord, TranscriptEntry, Host, Exec, ◌>>=◌,
  ◌>>◌, lift, read, ensure, agent_summary_value, entry_value, agent_id,
}

-- `Vec::sort` of strings
insert_sorted : Text → List Text → List Text
insert_sorted x [] = x ∷ []
insert_sorted x (y ∷ ys) = if text_lt y x then y ∷ insert_sorted x ys else x ∷ y ∷ ys

unfoldable pub sort : List Text → List Text
unfolding insert_sorted
sort [] = []
sort (x ∷ xs) = insert_sorted x (sort xs)

-- `Vec::dedup`: of a run of equal entries one stays
keep : Text → List Text → List Text
keep x [] = x ∷ []
keep x (y ∷ ys) = if text_eq x y then y ∷ ys else x ∷ y ∷ ys

unfoldable pub dedup : List Text → List Text
unfolding keep
dedup [] = []
dedup (x ∷ xs) = keep x (dedup xs)

parse_entries : List Json → Result (List Text)
parse_entries [] = ok []
parse_entries (v ∷ vs) =
    and_then
      (ok_or (Json.and_then (as_str v) nonempty)
        (invalid_args (codes "invalid memberAgentIds entry")))
      (λ id. and_then (parse_entries vs) (λ ids. ok (id ∷ ids)))

unfoldable pub parse_member_agent_ids : Json → Result (List Text)
unfolding parse_entries
parse_member_agent_ids args =
    and_then
      (ok_or (get_array "memberAgentIds" args) (invalid_args (codes "missing memberAgentIds")))
      (λ entries.
        if is_empty entries
        then err (invalid_args (codes "empty memberAgentIds"))
        else and_then (parse_entries entries) (λ ids.
          if is_empty (dedup (sort ids))
          then err (invalid_args (codes "empty memberAgentIds"))
          else ok (dedup (sort ids))))

-- The members exist and are no groups.
unfoldable pub validate_group_members : Dict AgentRecord → List Text → Result (Unit {0})
validate_group_members agents [] = ok tt
validate_group_members agents (id ∷ ids) = elim (get id agents) [
  | none ↦ err (invalid_args (codes "unknown member agent id: " ++ id))
  | some a ↦
      if a.is_group
      then err (invalid_args (codes "group nesting forbidden: " ++ id ++ codes " is a group"))
      else validate_group_members agents ids
]

-- `list_agents`: the summaries in the order of the ids
insert_by_id : AgentRecord → List AgentRecord → List AgentRecord
insert_by_id a [] = a ∷ []
insert_by_id a (b ∷ bs) = if text_lt b.id a.id then b ∷ insert_by_id a bs else a ∷ b ∷ bs

pub sort_by_id : List AgentRecord → List AgentRecord
sort_by_id [] = []
sort_by_id (a ∷ as') = insert_by_id a (sort_by_id as')

unfoldable pub list_agents : Exec Json
unfolding insert_by_id sort_by_id agent_summary_value
list_agents = do
  found ← read (λ s. map (λ r. r.1) s.agents)
  lift (ok (array (map agent_summary_value (sort_by_id found))))

-- What `create_agent` and `create_group` do once their arguments are read: the next `agt_N`, its
-- record, its seed entry and its sequence counter.
add_agent : ℕ → Text → Text → Bool → List Text → Text → Exec Json
add_agent now name description is_group member_ids kind s =
    let id = agent_id s.next_agent_n in
    let new : AgentRecord = record {
      id = id;
      name = name;
      description = description;
      is_running = false;
      created_at = now;
      is_group = is_group;
      member_ids = member_ids;
    } in
    let seed : TranscriptEntry = record {
      id = codes "msg_seed_" ++ id;
      role = codes "assistant";
      text = kind ++ name ++ codes " ready";
      seq = 1;
    } in
    (
      ok (
          object (
            ("agent", agent_summary_value new)
            ∷ ("transcript", array (entry_value seed ∷ []))
            ∷ ("agentId", str id)
            ∷ [])),
      record s {
        next_agent_n = succ_u64 s.next_agent_n;
        agents = insert id new s.agents;
        transcripts = insert id (seed ∷ []) s.transcripts;
        next_entry_seq = insert id 2 s.next_entry_seq;
      },
    )

unfoldable pub create_agent : Host → Json → Exec Json
unfolding add_agent
create_agent host args = do
  name ← lift (ok_or (get_nonempty "name" args) (invalid_args (codes "missing name")))
  let description = unwrap_or (get_str "description" args) []
  add_agent host.now name description false [] (codes "agent ")

unfoldable pub create_group : Host → Json → Exec Json
unfolding add_agent
create_group host args = do
  name ← lift (ok_or (get_nonempty "name" args) (invalid_args (codes "missing name")))
  let description = unwrap_or (get_str "description" args) []
  member_ids ← lift (parse_member_agent_ids args)
  agents ← read (λ s. s.agents)
  lift (validate_group_members agents member_ids)
  add_agent host.now name description true member_ids (codes "group ")

replace_members : Text → AgentRecord → List Text → Exec Json
replace_members id a member_ids s =
    let a' : AgentRecord = record a { member_ids = member_ids } in
    (ok (agent_summary_value a'), record s { agents = insert id a' s.agents })

unfoldable pub set_group_members : Json → Exec Json
unfolding replace_members
set_group_members args = do
  id ← lift (ok_or (get_nonempty "id" args) (invalid_args (codes "missing id")))
  member_ids ← lift (parse_member_agent_ids args)
  agents ← read (λ s. s.agents)
  existing ← lift (ok_or (get id agents) (invalid_args (codes "unknown group id: " ++ id)))
  ensure existing.is_group (invalid_args (codes "not a group: " ++ id))
  lift (validate_group_members agents member_ids)
  replace_members id existing member_ids
