-- ===== src/Gateway/Types/Start.antt =====
-- The JSON form of agents and entries, and the start of the gateway of
-- crates/atlas-bot-gateway/src/lib.rs.
use atlas_bot.Common.{
  ℕ, Text, codes, Bool, true, false, [], if◌then◌else◌, ◌∷◌, ◌++◌, map, Dict, show, insert,
}
use atlas_bot.Json.{Json, null, bool, num, str, array, object}
use atlas_bot.Gateway.Types.Records.{
  Gateway, AgentRecord, TranscriptEntry, UploadRecord, UploadMeta, AttachMode, memory, disk,
  GatewayConfig,
}

-- `agent_summary_value`
unfoldable pub agent_summary_value : AgentRecord → Json
agent_summary_value a = object (
    ("id", str a.id)
    ∷ ("name", str a.name)
    ∷ ("description", str a.description)
    ∷ ("isRunning", bool a.is_running)
    ∷ ("isActive", bool true)
    ∷ ("isGroup", bool a.is_group)
    ∷ ("memberIds", array (map str a.member_ids))
    ∷ ("hasUnread", bool false)
    ∷ ("isComposingMessage", bool false)
    ∷ ("createdAt", num a.created_at)
    ∷ ("avatarDataUrl", null)
    ∷ ("awaitingUserResponse", null)
    ∷ ("lastEntry", null)
    ∷ ("lastMessageId", null)
    ∷ [])

-- `TranscriptEntry` as `Serialize` writes it
unfoldable pub entry_value : TranscriptEntry → Json
entry_value e =
    object
      (("id", str e.id) ∷ ("role", str e.role) ∷ ("text", str e.text) ∷ ("seq", num e.seq) ∷ [])

-- `format!("agt_{n}")`
unfoldable pub agent_id : ℕ → Text
agent_id n = codes "agt_" ++ show n

abbrev pub default_agent_id : Text
default_agent_id = codes "agt_1"

seed_agent : AgentRecord
seed_agent = record {
  id = default_agent_id;
  name = codes "Watcher";
  description = codes "P3 stub agent";
  is_running = false;
  created_at = 1700000000000;
  is_group = false;
  member_ids = [];
}

-- the record of a `meta.json`, and back
unfoldable pub from_meta : UploadMeta → UploadRecord
from_meta m = record {
  path = m.path;
  filename = m.filename;
  agent_id = m.agent_id;
  bytes = m.bytes;
  created_at = m.created_at;
  state = m.state;
}

unfoldable pub to_meta : Text → UploadRecord → UploadMeta
to_meta id r = record {
  upload_id = id;
  path = r.path;
  filename = r.filename;
  bytes = r.bytes;
  created_at = r.created_at;
  state = r.state;
  agent_id = r.agent_id;
}

-- The records of the `meta.json` files, by the id in the file. `can_read` says whether the directory, and
-- the file in it, can be read; what cannot is skipped.
unfoldable pub load_disk_uploads :
    (Text → Bool) → Dict UploadMeta → Dict UploadRecord → Dict UploadRecord
load_disk_uploads can_read [] into = into
load_disk_uploads can_read ((dir, m) ∷ files) into =
    load_disk_uploads can_read files
      (if can_read dir then insert m.upload_id (from_meta m) into else into)

abbrev loaded : AttachMode → (Text → Bool) → Dict UploadMeta → Dict UploadRecord
loaded memory can_read files = []
loaded disk can_read files = load_disk_uploads can_read files []

-- `InMemoryGateway::with_config`, over the files that stand under the attachment root
unfoldable pub with_config : GatewayConfig → (Text → Bool) → Dict UploadMeta → Gateway
unfolding seed_agent
with_config cfg can_read files = record {
  config = cfg;
  agents = (default_agent_id, seed_agent) ∷ [];
  transcripts =
      (
        default_agent_id,
        record {
          id = codes "msg_seed";
          role = codes "assistant";
          text = codes "stub ready";
          seq = 1;
        }
            ∷ [],
      )
      ∷ [];
  next_entry_seq = (default_agent_id, 2) ∷ [];
  next_agent_n = 2;
  uploads = loaded cfg.attach_mode can_read files;
  channel_connections = [];
  invokes = 0;
  pending = [];
  tasks = [];
  next_turn = 0;
  sent = [];
  disk_meta = files;
}
