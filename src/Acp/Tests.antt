-- ===== src/Acp/Tests.antt =====
-- The adapter at a concrete connection, over a hub that counts the prompts it gets.
use atlas_bot.Common.{
  ℕ, suc, Text, codes, text_eq, true, false, Option, none, some, List, [], ◌∷◌, inl, inr, ◌≡◌, refl,
}
use atlas_bot.Json.{Json, null, str, object, get_key, get_str}
use atlas_bot.Acp.Replies.{Incoming, text, ping, close}
use atlas_bot.Acp.Session.{HubClient, AcpSession, handle_acp_socket}
use atlas_bot.Acp.Session.Order.{
  KeptByOthers, asks_initialize, IsWaiting, handle_acp_socket-IsWaiting,
}

abbrev counting : HubClient ℕ
counting = record {
  hello_ack = null;
  capabilities = [];
  assert_no_acp_capabilities = none;
  roster = λ h. (inr (object []), h);
  list_agents = λ agent h. (inl (codes "down"), h);
  prompt_closed_loop = λ agent prompt h. (inr (null, null, null), suc h);
  interrupt = λ agent h. (inr null, h);
  transcript_tail = λ agent limit h. (inr null, h);
}

-- the hub got no prompt
abbrev Unprompted : ℕ → Type 0
Unprompted h = h ≡ 0

kept : KeptByOthers counting Unprompted
kept = record {
  rosters = λ h q. q;
  lists = λ agent h q. q;
  interrupts = λ agent h q. q;
  tails = λ agent limit h q. q;
}

abbrev prompt_request : Json
prompt_request = object (
    ("id", null)
    ∷ ("method", str (codes "session/prompt"))
    ∷ ("params", object (("sessionId", str (codes "s")) ∷ ("prompt", str (codes "hi")) ∷ []))
    ∷ [])

abbrev from_str : Text → Option Json
from_str t = some prompt_request

abbrev fresh : AcpSession ℕ
fresh = record { hub = 0; selected_agent = codes "agt_1"; session_id = none; initialized = false }

abbrev messages : List Incoming
messages = text (codes "{}") (codes "1") true ∷ ping true ∷ close ∷ []

no_initialize : asks_initialize from_str (text (codes "{}") (codes "1") true) ≡ false
unfolding get_str get_key codes text_eq
no_initialize = refl

handle_acp_socket-IsWaiting_example :
    IsWaiting counting
      (codes "0")
      Unprompted
      kept
      (handle_acp_socket counting (codes "0") from_str messages fresh).1
handle_acp_socket-IsWaiting_example =
    handle_acp_socket-IsWaiting counting (codes "0") Unprompted kept from_str messages fresh
      (no_initialize, (refl, (refl, tt))) (refl, refl)
