-- ===== src/Gateway/Dispatch.antt =====
-- `dispatch` and `invoke` of the in-memory gateway, crates/atlas-bot-gateway/src/lib.rs.
use atlas_bot.Common.{Text, codes, text_eq, if◌then◌else◌, succ_u64}
use atlas_bot.Json.{Json}
use atlas_bot.Gateway.Types.{unknown_method, Host, Exec, throw}
use atlas_bot.Gateway.Groups.{list_agents, create_agent, create_group, set_group_members}
use atlas_bot.Gateway.Channels.{
  get_agent_channels, connect_channel, disconnect_channel, refresh_channel,
}
use atlas_bot.Gateway.Turns.{send_prompt, interrupt_agent_run}
use atlas_bot.Gateway.Tail.{get_transcript_tail}
use atlas_bot.Gateway.Uploads.{upload_attachment, attach_upload}

unfoldable pub dispatch : Host → Text → Text → Json → Exec Json
dispatch host agent_id name args =
    if text_eq name (codes "listAgents")
    then list_agents
    else if text_eq name (codes "createAgent")
    then create_agent host args
    else if text_eq name (codes "createGroup")
    then create_group host args
    else if text_eq name (codes "setGroupMembers")
    then set_group_members args
    else if text_eq name (codes "getAgentChannels")
    then get_agent_channels args
    else if text_eq name (codes "connectChannel")
    then connect_channel args
    else if text_eq name (codes "disconnectChannel")
    then disconnect_channel args
    else if text_eq name (codes "refreshChannel")
    then refresh_channel args
    else if text_eq name (codes "sendPrompt")
    then send_prompt agent_id args
    else if text_eq name (codes "interruptAgentRun")
    then interrupt_agent_run agent_id args
    else if text_eq name (codes "getAgentTranscriptTail")
    then get_transcript_tail agent_id args
    else if text_eq name (codes "uploadAttachment")
    then upload_attachment host agent_id args
    else if text_eq name (codes "attachUpload")
    then attach_upload host args
    else throw (unknown_method name)

unfoldable pub invoke : Host → Text → Text → Json → Exec Json
unfolding dispatch
invoke host agent_id name args s =
    dispatch host agent_id name args (record s { invokes = succ_u64 s.invokes })
