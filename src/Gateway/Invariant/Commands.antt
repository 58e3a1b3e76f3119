-- ===== src/Gateway/Invariant/Commands.antt =====
-- Every command keeps the invariant of the gateway's state.
use atlas_bot.Common.{Text, Bool, true, false, refl, if◌then◌else◌}
use atlas_bot.Json.{Json}
use atlas_bot.Gateway.Types.{Gateway, Host, Exec, Ends, Ends-throw}
use atlas_bot.Gateway.Dispatch.{dispatch, invoke}
use atlas_bot.Gateway.Invariant.{IsValid}
use atlas_bot.Gateway.Invariant.Agents.{
  HasRoom, create_agent-IsValid, create_group-IsValid, set_group_members-IsValid,
  list_agents-IsValid, get_transcript_tail-IsValid, get_agent_channels-IsValid,
  connect_channel-IsValid, disconnect_channel-IsValid, refresh_channel-IsValid,
}
use atlas_bot.Gateway.Invariant.Running.{send_prompt-IsValid, interrupt_agent_run-IsValid}
use atlas_bot.Gateway.Invariant.Attachments.{upload_attachment-IsValid, attach_upload-IsValid}

Ends-if :
    {A : Type 0} (b : Bool) (m n : Exec A) (t : Gateway)
    → Ends IsValid m t
    → Ends IsValid n t
    → Ends IsValid (if b then m else n) t
Ends-if true m n t p q = p
Ends-if false m n t p q = q

-- Every command keeps the invariant, on every branch, as long as no counter is about to wrap.
module _ (s : Gateway) (v : IsValid s) (room : HasRoom s) where
  dispatch-IsValid :
      (host : Host) (id name : Text) (args : Json) → Ends IsValid (dispatch host id name args) s
  unfolding dispatch
  dispatch-IsValid host id name args = Ends-if _ _ _ s (list_agents-IsValid s v) (
      Ends-if _ _ _ s (create_agent-IsValid s v room host args) (
        Ends-if _ _ _ s (create_group-IsValid s v room host args) (
          Ends-if _ _ _ s (set_group_members-IsValid s v room args) (
            Ends-if _ _ _ s (get_agent_channels-IsValid s v args) (
              Ends-if _ _ _ s (connect_channel-IsValid s v args) (
                Ends-if _ _ _ s (disconnect_channel-IsValid s v args) (
                  Ends-if _ _ _ s (refresh_channel-IsValid s v args) (
                    Ends-if _ _ _ s (send_prompt-IsValid s v id args) (
                      Ends-if _ _ _ s (interrupt_agent_run-IsValid s v room _ id args refl) (
                        Ends-if _ _ _ s (get_transcript_tail-IsValid s v id args) (
                          Ends-if _ _ _ s (upload_attachment-IsValid s v host id args) (
                            Ends-if _ _ _ s (attach_upload-IsValid s v host args)
                              (Ends-throw _ s v)))))))))))))

-- A command keeps the invariant, whether it is refused or carried out, as long as no counter is
-- about to wrap around.
pub invoke-IsValid :
    (host : Host) (id name : Text) (args : Json) (s : Gateway)
    → IsValid s
    → HasRoom s
    → IsValid (invoke host id name args s).1
unfolding invoke
invoke-IsValid host id name args s v room =
    (dispatch-IsValid _ (record { all_ok = v.all_ok })
      (record { agents = room.agents; entries = room.entries }) host id name args).at
