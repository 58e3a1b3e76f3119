-- ===== src/Sandbox/Commands.antt =====
-- The commands of the sidecar beside prompts: agents, groups, channels, interrupts and transcripts, of
-- crates/atlas-bot-gateway/src/box_sidecar.rs.
use atlas_bot.Common.{
  ℕ, Text, codes, Bool, true, false, ◌||◌, not, Option, none, some, List, [], ◌∷◌, ◌++◌, map, get,
  insert, if◌then◌else◌, succ_u64, unwrap_or, ◌or_else◌, contains_key,
}
use atlas_bot.Json.{Json, bool, str, array, object, get_str, get_nonempty, get_count}
use atlas_bot.Gateway.Types.{
  Result, ok, err, and_then, ok_or, invalid_args, agent_not_found, rejected, AgentRecord,
  TranscriptEntry, ChannelStore, entry_value, agent_summary_value, agent_id,
}
use atlas_bot.Gateway.Groups.{sort_by_id, parse_member_agent_ids, validate_group_members}
use atlas_bot.Gateway.Channels.{
  parse_channel_id, parse_channel_platform, require_stub_platform, parse_channel_token,
  sand_channels_view, store_token, forget_token, refresh_token,
}
use atlas_bot.Gateway.Tail.{tail_page}
use atlas_bot.Sandbox.Files.{FileSystem}
use atlas_bot.Sandbox.Tools.{ensure_agent_workspace}
use atlas_bot.Sandbox.Boxes.{Meanwhile, with_files}
use atlas_bot.Sandbox.Agents.{Sidecar, clear_pending}

-- a command that goes on where the result before it is no error
unfoldable pub given_ok :
    {F A B : Type 0}
    → Result A
    → (A → Sidecar F → Result B × Sidecar F)
    → Sidecar F
    → Result B × Sidecar F
given_ok (err e) k s = (err e, s)
given_ok (ok a) k s = k a s

-- the agent and the platform, which is the stub's
unfoldable pub channel : Json → Result (Text × Text)
unfolding parse_channel_id parse_channel_platform require_stub_platform
channel args = and_then (parse_channel_id args) (λ id.
    and_then (parse_channel_platform args)
      (λ platform. and_then (require_stub_platform platform) (λ u. ok (id, platform))))

-- the cancel channel of the agent's slot, signalled where its receiver is still there
unfoldable pub signalled : (ℕ → Bool) → Option ℕ → Bool
signalled listens none = false
signalled listens (some turn) = listens turn

module _ {F : Type 0} where
  unfoldable pub list_agents : Sidecar F → Result Json × Sidecar F
  unfolding agent_summary_value
  list_agents s = (ok (array (map agent_summary_value (sort_by_id (map (λ r. r.1) s.agents)))), s)

  unfoldable pub known : Text → Sidecar F → Result (Unit {0})
  known id s =
      if contains_key id s.agents
      then ok tt
      else err (invalid_args (codes "unknown agent id: " ++ id))

  -- a change of the store of one agent's channels, and the view of them after it
  unfoldable pub change_channels :
      Text → (ChannelStore → ChannelStore) → Sidecar F → Result Json × Sidecar F
  unfolding sand_channels_view known
  change_channels id f s =
      given_ok (known id s)
        (λ u s. (
          ok (sand_channels_view (f s.channel_connections) id),
          record s { channel_connections = f s.channel_connections },
        ))
        s

  unfoldable pub get_agent_channels : Json → Sidecar F → Result Json × Sidecar F
  unfolding sand_channels_view known parse_channel_id
  get_agent_channels args s =
      given_ok (parse_channel_id args)
        (λ id. given_ok (known id s) (λ u s. (ok (sand_channels_view s.channel_connections id), s)))
        s

  unfoldable pub connect_channel : Json → Sidecar F → Result Json × Sidecar F
  unfolding channel parse_channel_token store_token change_channels
  connect_channel args s =
      given_ok (channel args)
        (λ c.
          given_ok (parse_channel_token args)
            (λ token. change_channels c.0 (store_token c.0 c.1 token)))
        s

  unfoldable pub disconnect_channel : Json → Sidecar F → Result Json × Sidecar F
  unfolding channel forget_token change_channels
  disconnect_channel args s =
      given_ok (channel args) (λ c. change_channels c.0 (forget_token c.0 c.1)) s

  unfoldable pub refresh_channel : Json → Sidecar F → Result Json × Sidecar F
  unfolding channel refresh_token change_channels
  refresh_channel args s =
      given_ok (channel args) (λ c. change_channels c.0 (refresh_token c.0 c.1)) s

  -- a group, and its members as they are now to be
  unfoldable pub replaced : Text → List Text → AgentRecord → Sidecar F → Result Json × Sidecar F
  unfolding agent_summary_value
  replaced id member_ids a s =
      let a' : AgentRecord = record a { member_ids = member_ids } in
      (ok (agent_summary_value a'), record s { agents = insert id a' s.agents })

  unfoldable pub members_of : Text → List Text → AgentRecord → Sidecar F → Result Json × Sidecar F
  unfolding replaced validate_group_members
  members_of id member_ids a s =
      if a.is_group
      then given_ok (validate_group_members s.agents member_ids) (λ u. replaced id member_ids a) s
      else (err (invalid_args (codes "not a group: " ++ id)), s)

  unfoldable pub set_group_members : Json → Sidecar F → Result Json × Sidecar F
  unfolding members_of parse_member_agent_ids get_nonempty
  set_group_members args s =
      given_ok (ok_or (get_nonempty "id" args) (invalid_args (codes "missing id")))
        (λ id. given_ok (parse_member_agent_ids args) (λ member_ids.
          given_ok (ok_or (get id s.agents) (invalid_args (codes "unknown group id: " ++ id)))
            (members_of id member_ids)))
        s

  unfoldable pub interrupted_run :
      Text → Bool → Option AgentRecord → Sidecar F → Result Json × Sidecar F
  interrupted_run id cancelled none s = (err (agent_not_found id), s)
  interrupted_run id cancelled (some a) s =
      if not (a.is_running || cancelled)
      then (err (rejected (codes "no_active_run") none), s)
      else (
        ok (object (("hadActiveRun", bool true) ∷ ("killed", bool cancelled) ∷ [])),
        (if a.is_running
            then record s { agents = insert id (record a { is_running = false }) s.agents }
            else s),
      )

  unfoldable pub interrupt_agent_run :
      (ℕ → Bool) → Text → Json → Sidecar F → Result Json × Sidecar F
  unfolding signalled interrupted_run clear_pending get_str
  interrupt_agent_run listens envelope args s =
      let target = unwrap_or (get_str "agentId" args or_else get_str "id" args) envelope in
      interrupted_run target (signalled listens (get target s.pending)) (get target s.agents)
        (clear_pending target s)

  unfoldable pub get_transcript_tail : Text → Json → Sidecar F → Result Json × Sidecar F
  unfolding tail_page get_count
  get_transcript_tail id args s =
      if contains_key id s.agents
      then (
        ok (
            object (
              (
                "entries",
                array (
                    map entry_value (
                      tail_page (unwrap_or (get_count "limit" args) 20) (get_count "beforeSeq" args)
                        (unwrap_or (get id s.transcripts) []))),
              )
              ∷ ("agentId", str id)
              ∷ [])),
        s,
      )
      else (err (agent_not_found id), s)

module _ {F : Type 0} (fs : FileSystem F) (m : Meanwhile F) (root : Text) (now : ℕ) where
  unfoldable pub make_workspace : Text → Sidecar F → Sidecar F
  unfolding ensure_agent_workspace
  make_workspace id s = record s {
    box = with_files (ensure_agent_workspace fs m root id s.box.files) s.box;
  }

  -- what `create_agent` and `create_group` do once their arguments are read
  unfoldable pub add_agent :
      Text → Text → Bool → List Text → Text → Sidecar F → Result Json × Sidecar F
  unfolding agent_id agent_summary_value make_workspace
  add_agent name description is_group member_ids kind s =
      let id = agent_id s.next_agent_n in
      let new : AgentRecord = record {
        id = id;
        name = name;
        description = description;
        is_running = false;
        created_at = now;
        is_group = is_group;
        member_ids = member_ids;
      } in
      let seed : TranscriptEntry = record {
        id = codes "msg_seed_" ++ id;
        role = codes "assistant";
        text = kind ++ (name ++ codes " ready");
        seq = 1;
      } in
      (
        ok (
            object (
              ("agent", agent_summary_value new)
              ∷ ("transcript", array (entry_value seed ∷ []))
              ∷ ("agentId", str id)
              ∷ [])),
        make_workspace id (record s {
          next_agent_n = succ_u64 s.next_agent_n;
          agents = insert id new s.agents;
          transcripts = insert id (seed ∷ []) s.transcripts;
          next_entry_seq = insert id 2 s.next_entry_seq;
          history = insert id [] s.history;
        }),
      )

  unfoldable pub create_agent : Json → Sidecar F → Result Json × Sidecar F
  unfolding add_agent get_nonempty get_str
  create_agent args s =
      given_ok (ok_or (get_nonempty "name" args) (invalid_args (codes "missing name")))
        (λ name.
          add_agent name (unwrap_or (get_str "description" args) []) false [] (codes "agent "))
        s

  unfoldable pub create_group : Json → Sidecar F → Result Json × Sidecar F
  unfolding add_agent parse_member_agent_ids validate_group_members get_nonempty get_str
  create_group args s =
      given_ok (ok_or (get_nonempty "name" args) (invalid_args (codes "missing name")))
        (λ name. given_ok (parse_member_agent_ids args) (λ member_ids.
          given_ok (validate_group_members s.agents member_ids) (λ u.
            add_agent name (unwrap_or (get_str "description" args) []) true member_ids
              (codes "group "))))
        s
