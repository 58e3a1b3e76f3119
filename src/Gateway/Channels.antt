-- ===== src/Gateway/Channels.antt =====
-- The channel connections of crates/atlas-bot-gateway/src/channels.rs, and the four handlers of
-- lib.rs that keep them.
pub mod Secrecy
pub mod Connections
mod Tests
use atlas_bot.Common.{
  Text, codes, text_eq, Option, none, some, List, [], ◌∷◌, ◌++◌, map, Dict, get, insert, remove,
  contains_key, if◌then◌else◌, unwrap_or, is_empty, trim,
}
use atlas_bot.Json.{Json, str, array, object, get_str, get_nonempty}
use atlas_bot.Gateway.Types.{
  Result, ok, err, and_then, ok_or, invalid_args, ChannelTokenEntry, ChannelStore, Exec, ◌>>=◌,
  ◌>>◌, lift, read, modify, ensure,
}
use atlas_bot.Gateway.Groups.{sort}

abbrev pub stub_platform : Text
stub_platform = codes "slack"

abbrev pub stub_status : Text
stub_status = codes "connected"

unfoldable pub stub_connected : Text → ChannelTokenEntry
stub_connected token = record {
  token = token;
  status = stub_status;
  detail = codes "local stub, no egress";
}

unfoldable pub refresh_stub : ChannelTokenEntry → ChannelTokenEntry
refresh_stub e = record e {
  status = stub_status;
  detail = codes "local stub refreshed (no egress)";
}

slack_stub_manifest : Json
slack_stub_manifest = object (
    ("platform", str stub_platform)
    ∷ ("displayName", str (codes "Slack (local stub)"))
    ∷ ("availability", str (codes "available"))
    ∷ ("blurb", str (codes "Local stub connector — no real Slack egress."))
    ∷ (
      "connectGuide",
      str (
          codes
            "Paste a token to register a local stub connection. This does not call Slack or leave the machine."),
    )
    ∷ ("credentialLabel", str (codes "Bot token (local stub, no egress)"))
    ∷ [])

connection_value : Text → ChannelTokenEntry → Json
connection_value platform entry = object (
    ("label", str (codes "Slack (local stub)"))
    ∷ ("platform", str platform)
    ∷ ("status", str entry.status)
    ∷ ("detail", str entry.detail)
    ∷ [])

abbrev keys {ℓ} : {V : Type ℓ} → Dict V → List Text
keys m = map (λ r. r.0) m

connection_values : Dict ChannelTokenEntry → List Text → List Json
connection_values m [] = []
connection_values m (p ∷ ps) = elim (get p m) [
  | none ↦ connection_values m ps
  | some entry ↦ connection_value p entry ∷ connection_values m ps
]

connections : Option (Dict ChannelTokenEntry) → List Json
connections none = []
connections (some m) = connection_values m (sort (keys m))

unfoldable pub sand_channels_view : ChannelStore → Text → Json
unfolding connection_value connection_values connections slack_stub_manifest
sand_channels_view store agent_id = object (
    ("connections", array (connections (get agent_id store)))
    ∷ ("manifests", array (slack_stub_manifest ∷ []))
    ∷ [])

unfoldable pub parse_channel_id : Json → Result Text
parse_channel_id args = ok_or (get_nonempty "id" args) (invalid_args (codes "missing id"))

unfoldable pub parse_channel_platform : Json → Result Text
parse_channel_platform args =
    ok_or (get_nonempty "platform" args) (invalid_args (codes "missing platform"))

unfoldable pub require_stub_platform : Text → Result (Unit {0})
require_stub_platform platform =
    if text_eq platform stub_platform
    then ok tt
    else err (
        invalid_args (
          codes "unsupported platform: "
          ++ platform
          ++ codes " (C1 stub allows only "
          ++ stub_platform
          ++ codes ")"))

unfoldable pub parse_channel_token : Json → Result Text
parse_channel_token args =
    and_then (ok_or (get_str "token" args) (invalid_args (codes "missing token"))) (λ raw.
      if is_empty (trim raw) then err (invalid_args (codes "empty token")) else ok (trim raw))

-- the test that the four handlers make once they hold the lock
unfoldable pub known_agent : Text → Exec (Unit {0})
known_agent id = do
  agents ← read (λ s. s.agents)
  ensure (contains_key id agents) (invalid_args (codes "unknown agent id: " ++ id))

unfoldable pub view_of : Text → Exec Json
view_of id = read (λ s. sand_channels_view s.channel_connections id)

unfoldable pub get_agent_channels : Json → Exec Json
get_agent_channels args = do id ← lift (parse_channel_id args); known_agent id; view_of id

-- `entry(id).or_default().insert(platform, …)`
unfoldable pub store_token : Text → Text → Text → ChannelStore → ChannelStore
store_token id platform token store =
    insert id (insert platform (stub_connected token) (unwrap_or (get id store) [])) store

unfoldable pub connect_channel : Json → Exec Json
connect_channel args = do
  id ← lift (parse_channel_id args)
  platform ← lift (parse_channel_platform args)
  lift (require_stub_platform platform)
  token ← lift (parse_channel_token args)
  known_agent id
  modify
      (λ s. record s { channel_connections = store_token id platform token s.channel_connections })
  view_of id

-- an agent with no connection left has no entry
put_nonempty : Text → Dict ChannelTokenEntry → ChannelStore → ChannelStore
put_nonempty id [] store = remove id store
put_nonempty id (r ∷ m) store = insert id (r ∷ m) store

forget_in : Text → Text → Option (Dict ChannelTokenEntry) → ChannelStore → ChannelStore
forget_in id platform none store = store
forget_in id platform (some m) store = put_nonempty id (remove platform m) store

unfoldable pub forget_token : Text → Text → ChannelStore → ChannelStore
unfolding put_nonempty forget_in
forget_token id platform store = forget_in id platform (get id store) store

unfoldable pub disconnect_channel : Json → Exec Json
disconnect_channel args = do
  id ← lift (parse_channel_id args)
  platform ← lift (parse_channel_platform args)
  lift (require_stub_platform platform)
  known_agent id
  modify (λ s. record s { channel_connections = forget_token id platform s.channel_connections })
  view_of id

refresh_entry :
    Text → Text → Dict ChannelTokenEntry → Option ChannelTokenEntry → ChannelStore → ChannelStore
refresh_entry id platform m none store = store
refresh_entry id platform m (some e) store = insert id (insert platform (refresh_stub e) m) store

refresh_in : Text → Text → Option (Dict ChannelTokenEntry) → ChannelStore → ChannelStore
refresh_in id platform none store = store
refresh_in id platform (some m) store = refresh_entry id platform m (get platform m) store

unfoldable pub refresh_token : Text → Text → ChannelStore → ChannelStore
unfolding refresh_entry refresh_in
refresh_token id platform store = refresh_in id platform (get id store) store

unfoldable pub refresh_channel : Json → Exec Json
refresh_channel args = do
  id ← lift (parse_channel_id args)
  platform ← lift (parse_channel_platform args)
  lift (require_stub_platform platform)
  known_agent id
  modify (λ s. record s { channel_connections = refresh_token id platform s.channel_connections })
  view_of id
