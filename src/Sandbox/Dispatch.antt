-- ===== src/Sandbox/Dispatch.antt =====
-- `dispatch`, `invoke` and the desktop call of the sidecar, crates/atlas-bot-gateway/src/box_sidecar.rs.
pub mod Kept
pub mod Runs
use atlas_bot.Common.{Text, codes, text_eq, if◌then◌else◌, succ_u64}
use atlas_bot.Json.{Json}
use atlas_bot.Gateway.Types.{Result, err, unknown_method}
use atlas_bot.Vnc.{Mint, mint_vnc_descriptor}
use atlas_bot.Sandbox.Files.{FileSystem}
use atlas_bot.Sandbox.Agents.{Sidecar, Settings, Waits}
use atlas_bot.Sandbox.Turns.{send_prompt}
use atlas_bot.Sandbox.Commands.{
  list_agents, create_agent, create_group, set_group_members, get_agent_channels, connect_channel,
  disconnect_channel, refresh_channel, interrupt_agent_run, get_transcript_tail,
}
use atlas_bot.Sandbox.Uploads.{Given, upload_attachment, attach_upload}

module _ {F : Type 0} (fs : FileSystem F) (c : Settings) (w : Waits F) (g : Given) where
  unfoldable pub dispatch : Text → Text → Json → Sidecar F → Result Json × Sidecar F
  unfolding list_agents create_agent create_group set_group_members get_agent_channels
      connect_channel disconnect_channel refresh_channel send_prompt interrupt_agent_run
      get_transcript_tail upload_attachment attach_upload
  dispatch id name args s =
      if text_eq name (codes "listAgents")
      then list_agents s
      else if text_eq name (codes "createAgent")
      then create_agent fs w.at_gates c.workspace_root g.host.now args s
      else if text_eq name (codes "createGroup")
      then create_group fs w.at_gates c.workspace_root g.host.now args s
      else if text_eq name (codes "setGroupMembers")
      then set_group_members args s
      else if text_eq name (codes "getAgentChannels")
      then get_agent_channels args s
      else if text_eq name (codes "connectChannel")
      then connect_channel args s
      else if text_eq name (codes "disconnectChannel")
      then disconnect_channel args s
      else if text_eq name (codes "refreshChannel")
      then refresh_channel args s
      else if text_eq name (codes "sendPrompt")
      then send_prompt fs c w id args s
      else if text_eq name (codes "interruptAgentRun")
      then interrupt_agent_run g.listens id args s
      else if text_eq name (codes "getAgentTranscriptTail")
      then get_transcript_tail id args s
      else if text_eq name (codes "uploadAttachment")
      then upload_attachment fs c w g id args s
      else if text_eq name (codes "attachUpload")
      then attach_upload fs c w g args s
      else (err (unknown_method name), s)

  unfoldable pub invoke : Text → Text → Json → Sidecar F → Result Json × Sidecar F
  unfolding dispatch
  invoke id name args s = dispatch id name args (record s { invokes = succ_u64 s.invokes })

-- `mint_vnc_descriptor`, over what its probe found
unfoldable pub vnc_descriptor : {F : Type 0} → Mint → Text → Sidecar F → Result Json × Sidecar F
unfolding mint_vnc_descriptor
vnc_descriptor m id s =
    let (r, tokens) = mint_vnc_descriptor m id s.vnc_tokens in (r, record s { vnc_tokens = tokens })
