-- ===== src/Sandbox/Start.antt =====
-- The start of the sidecar: `new_with_approval` of crates/atlas-bot-gateway/src/box_sidecar.rs, less what
-- it reads of the environment.
use atlas_bot.Common.{
  Text, codes, false, [], ◌∷◌, ◌++◌, arith, if◌then◌else◌, insert, bytes_of, get,
}
use atlas_bot.Gateway.Types.{AgentRecord, TranscriptEntry, default_agent_id}
use atlas_bot.Approval.{ToolApprovalMode}
use atlas_bot.Sandbox.FilePaths.{components, join}
use atlas_bot.Sandbox.Files.{FileSystem}
use atlas_bot.Sandbox.Agents.{Sidecar, Settings}
use atlas_bot.Sandbox.Turns.Kept.{AllKept, insert-IsKept}

abbrev pub default_agent : AgentRecord
default_agent = record {
  id = default_agent_id;
  name = codes "Watcher";
  description = codes "R2 box sidecar agent";
  is_running = false;
  created_at = 1700000000000;
  is_group = false;
  member_ids = [];
}

abbrev pub ready : TranscriptEntry
ready = record {
  id = codes "msg_seed";
  role = codes "assistant";
  text = codes "box sidecar ready";
  seq = 1;
}

module _ {F : Type 0} (fs : FileSystem F) (root : Text) where
  -- the marker file of a workspace that has none
  seed_marker : Text → F → F
  unfolding components join
  seed_marker dir f =
      if (fs.links f).exists (components (join dir (codes ".box-sidecar")))
      then f
      else (fs.write (components (join dir (codes ".box-sidecar")))
          (bytes_of (codes "r2-box-sidecar" ++ 10 ∷ [])) f).1

  -- the workspace of the default agent; errors are ignored
  seed_workspace : F → F
  unfolding seed_marker components join
  seed_workspace f =
      let dir = join root default_agent_id in
      seed_marker dir
        (fs.create_dir_all (components (join dir (codes "uploads")))
          (fs.create_dir_all (components dir) (fs.create_dir_all (components root) f).1).1).1

  unfoldable pub new_with_approval : ToolApprovalMode → F → Sidecar F
  unfolding seed_workspace
  new_with_approval mode f = record {
    box = record {
      files = seed_workspace f;
      approval = record { mode = mode; pending = []; inject = []; sent = [] };
      sent = [];
    };
    agents = insert default_agent_id default_agent [];
    transcripts = insert default_agent_id (ready ∷ []) [];
    history = insert default_agent_id [] [];
    next_entry_seq = insert default_agent_id 2 [];
    pending = [];
    next_turn = 0;
    next_agent_n = 2;
    invokes = 0;
    uploads = [];
    channel_connections = [];
    vnc_tokens = [];
  }

  -- A new sidecar keeps the bounds on its history.
  pub new_with_approval-AllKept :
      (c : Settings) (mode : ToolApprovalMode) (f : F) → AllKept c (new_with_approval mode f)
  unfolding new_with_approval get
  new_with_approval-AllKept c mode f k =
      insert-IsKept c.history_max_turns default_agent_id k [] [] (tt, omega arith) (tt, omega arith)
