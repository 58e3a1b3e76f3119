-- ===== src/Acp/Session/Order.antt =====
-- The order that the adapter holds its clients to.
use atlas_bot.Common.{
  ℕ, Text, codes, text_eq, Bool, true, false, not, Option, none, some, List, [], ◌∷◌, ◌⊎◌, inl, inr,
  ◌≡◌, All, Bool-cases, if◌then◌else◌, is_empty, unwrap_or,
}
use atlas_bot.Json.{Json, null, get_key, object}
use atlas_bot.Acp.Replies.{
  Incoming, text, ping, close, other, failed, is_notification, is_whitelisted, method_of,
}
use atlas_bot.Acp.Session.{
  HubClient, AcpSession, listed, handle_agents_list, handle_session_new, handle_session_prompt,
  handle_session_cancel, handle_transcript_tail, replied, handled, dispatch, answered, received,
  step, handle_acp_socket,
}

-- What the calls of the hub beside a prompt keep.
pub record KeptByOthers {H : Type 0} (hub : HubClient H) (Q : H → Type 0) : Type 0 where
  pub rosters : (h : H) → Q h → Q (hub.roster h).1
  pub lists : (agent : Text) (h : H) → Q h → Q (hub.list_agents agent h).1
  pub interrupts : (agent : Text) (h : H) → Q h → Q (hub.interrupt agent h).1
  pub tails : (agent : Text) (limit : ℕ) (h : H) → Q h → Q (hub.transcript_tail agent limit h).1

abbrev initializes : Option Json → Bool
initializes none = false
initializes (some v) = text_eq (method_of v) (codes "initialize")

-- Whether a message is a text that asks for `initialize`.
abbrev pub asks_initialize : (Text → Option Json) → Incoming → Bool
asks_initialize from_str (text t uuid sends) = initializes (from_str t)
asks_initialize from_str _ = false

module _ {H : Type 0} (hub : HubClient H) (version : Text) (Q : H → Type 0)
    (kept : KeptByOthers hub Q) where
  -- not initialized, and the hub as `Q` says
  abbrev pub IsWaiting : AcpSession H → Type 0
  IsWaiting s = (s.initialized ≡ false) × Q s.hub

  listed-IsWaiting :
      (id : Json) (agent : Text) (r : (Text ⊎ Json) × H) (s : AcpSession H)
      → s.initialized ≡ false
      → Q r.1
      → IsWaiting (listed hub version id agent r s).1
  unfolding listed
  listed-IsWaiting id agent (inl e, h) s w q = (w, q)
  listed-IsWaiting id agent (inr v, h) s w q = (w, kept.lists agent h q)

  replied-IsWaiting :
      (id : Json) (f : Json → Json) (r : (Text ⊎ Json) × H) (s : AcpSession H)
      → s.initialized ≡ false
      → Q r.1
      → IsWaiting (replied hub version id f r s).1
  unfolding replied
  replied-IsWaiting id f (inl e, h) s w q = (w, q)
  replied-IsWaiting id f (inr v, h) s w q = (w, q)

  if-IsWaiting :
      (b : Bool) (x y : Json × AcpSession H)
      → IsWaiting x.1
      → IsWaiting y.1
      → IsWaiting (if b then x else y).1
  if-IsWaiting true x y h k = h
  if-IsWaiting false x y h k = k

  unless-IsWaiting :
      (b : Bool) (x y : Json × AcpSession H)
      → b ≡ false
      → IsWaiting x.1
      → IsWaiting (if not b then x else y).1
  unless-IsWaiting true x y e h = cc
  unless-IsWaiting false x y e h = h

  handle_session_prompt-IsWaiting :
      (id params : Json) (s : AcpSession H)
      → IsWaiting s
      → IsWaiting (handle_session_prompt hub version id params s).1
  unfolding handle_session_prompt
  handle_session_prompt-IsWaiting id params s (w, q) = unless-IsWaiting s.initialized _ _ w (w, q)

  -- any method but `initialize`
  handled-IsWaiting :
      (uuid : Text) (id : Json) (method : Text) (params : Json) (s : AcpSession H)
      → text_eq method (codes "initialize") ≡ false
      → IsWaiting s
      → IsWaiting (handled hub version uuid id method params s).1
  unfolding handled handle_agents_list handle_session_new handle_session_cancel
      handle_transcript_tail
  handled-IsWaiting uuid id method params s e (w, q) = rw e (
      if-IsWaiting (text_eq method (codes "agents/list")) _ _
        (listed-IsWaiting id s.selected_agent (hub.roster s.hub) s w (kept.rosters s.hub q))
        (if-IsWaiting (text_eq method (codes "session/new")) _ _ (w, q)
          (if-IsWaiting (text_eq method (codes "session/prompt")) _ _
            (handle_session_prompt-IsWaiting id params s (w, q))
            (if-IsWaiting (text_eq method (codes "session/cancel")) _ _
              (replied-IsWaiting id _ (hub.interrupt _ s.hub) s w (kept.interrupts _ s.hub q))
              (if-IsWaiting (text_eq method (codes "transcript/tail")) _ _
                (replied-IsWaiting id _ (hub.transcript_tail _ _ s.hub) s w
                  (kept.tails _ _ s.hub q))
                (w, q))))))

  dispatch-IsWaiting :
      (uuid : Text) (v : Json) (s : AcpSession H)
      → text_eq (method_of v) (codes "initialize") ≡ false
      → IsWaiting s
      → IsWaiting (dispatch hub version uuid v s).1
  unfolding dispatch
  dispatch-IsWaiting uuid v s e h = if-IsWaiting (is_empty (method_of v)) _ _ h (
      if-IsWaiting (not (is_whitelisted (method_of v))) _ _ h (
        handled-IsWaiting uuid (unwrap_or (get_key "id" v) null) (method_of v)
          (unwrap_or (get_key "params" v) (object [])) s e h))

  module _ (from_str : Text → Option Json) where
    answered-IsWaiting :
        (uuid : Text) (v : Json) (sends : Bool) (s : AcpSession H)
        → text_eq (method_of v) (codes "initialize") ≡ false
        → IsWaiting s
        → IsWaiting (answered hub version from_str uuid v sends s).2
    unfolding answered
    answered-IsWaiting uuid v sends s e h = elim (Bool-cases (is_notification v)) [
      | inl n ↦ rw n h
      | inr n ↦ rw n (dispatch-IsWaiting uuid v s e h)
    ]

    received-IsWaiting :
        (uuid : Text) (v : Option Json) (sends : Bool) (s : AcpSession H)
        → initializes v ≡ false
        → IsWaiting s
        → IsWaiting (received hub version from_str uuid v sends s).2
    unfolding received
    received-IsWaiting uuid none sends s e h = h
    received-IsWaiting uuid (some v) sends s e h = answered-IsWaiting uuid v sends s e h

    step-IsWaiting :
        (m : Incoming) (s : AcpSession H)
        → asks_initialize from_str m ≡ false
        → IsWaiting s
        → IsWaiting (step hub version from_str m s).2
    unfolding step
    step-IsWaiting (text t uuid sends) s e h = received-IsWaiting uuid (from_str t) sends s e h
    step-IsWaiting (ping sends) s e h = h
    step-IsWaiting close s e h = h
    step-IsWaiting other s e h = h
    step-IsWaiting failed s e h = h

    -- No prompt reaches the hub over a connection before its client asks to initialize: what every other
    -- call of the hub keeps, holds after any messages without `initialize` if it held before them.
    pub handle_acp_socket-IsWaiting :
        (ms : List Incoming) (s : AcpSession H)
        → All (λ m. asks_initialize from_str m ≡ false) ms
        → IsWaiting s
        → IsWaiting (handle_acp_socket hub version from_str ms s).1
    unfolding handle_acp_socket
    handle_acp_socket-IsWaiting [] s asks h = h
    handle_acp_socket-IsWaiting (m ∷ ms) s (e, asks) h =
        let waits = step-IsWaiting m s e h in
        elim (Bool-cases (step hub version from_str m s).1) [
          | inl g ↦ rw g (handle_acp_socket-IsWaiting ms _ asks waits)
          | inr g ↦ rw g waits
        ]
