-- ===== src/Sandbox/Dispatch/Kept.antt =====
-- What each command of the sidecar does to the history of the agents.
use atlas_bot.Common.{
  ℕ, ◌*◌, ◌≤◌, Text, codes, text_eq, Bool, true, false, not, Option, none, some, List, [], ◌∷◌,
  ◌++◌, ◌⊎◌, inl, inr, arith, Dict, max_u64, length, if◌then◌else◌, contains_key, unwrap_or,
  Bool-cases,
}
use atlas_bot.Json.{Json, get_str}
use atlas_bot.Sandbox.FilePaths.{join}
use atlas_bot.Gateway.Types.{Result, ok, err, AgentRecord, ChannelStore, UploadRecord, agent_id}
use atlas_bot.Sandbox.Files.{FileSystem}
use atlas_bot.Sandbox.Agents.{Sidecar, Settings, Waits, clear_pending}
use atlas_bot.Sandbox.Turns.Kept.{AllKept, insert-IsKept, send_prompt-AllKept}
use atlas_bot.Sandbox.Commands.{
  given_ok, list_agents, known, change_channels, get_agent_channels, connect_channel,
  disconnect_channel, refresh_channel, replaced, members_of, set_group_members, interrupted_run,
  interrupt_agent_run, get_transcript_tail, make_workspace, add_agent, create_agent, create_group,
}
use atlas_bot.Sandbox.Uploads.{
  Given, uploads_dir, io_done, io, sweep_one, sweep, sweep_expired_uploads, kept, with_meta,
  store_upload, upload_attachment, attach_upload,
}
use atlas_bot.Sandbox.Dispatch.{dispatch, invoke}

module _ {F : Type 0} (c : Settings) where
  if-AllKept :
      {A : Type 0} (b : Bool) (x y : A × Sidecar F)
      → AllKept c x.1
      → AllKept c y.1
      → AllKept c (if b then x else y).1
  if-AllKept true x y h k = h
  if-AllKept false x y h k = k

  given_ok-AllKept :
      {A B : Type 0} (r : Result A) (f : A → Sidecar F → Result B × Sidecar F) (s : Sidecar F)
      → AllKept c s
      → ((a : A) (t : Sidecar F) → AllKept c t → AllKept c (f a t).1)
      → AllKept c (given_ok r f s).1
  unfolding given_ok
  given_ok-AllKept (ok a) f s k h = h a s k
  given_ok-AllKept (err e) f s k h = k

  change_channels-AllKept :
      (id : Text) (f : ChannelStore → ChannelStore) (s : Sidecar F)
      → AllKept c s
      → AllKept c (change_channels id f s).1
  unfolding change_channels
  change_channels-AllKept id f s k = given_ok-AllKept (known id s) _ s k (λ u t k. k)

  members_of-AllKept :
      (id : Text) (ids : List Text) (a : AgentRecord) (s : Sidecar F)
      → AllKept c s
      → AllKept c (members_of id ids a s).1
  unfolding members_of replaced
  members_of-AllKept id ids a s k =
      if-AllKept a.is_group _ _ (given_ok-AllKept _ _ s k (λ u t k. k)) k

  interrupted_run-AllKept :
      (id : Text) (b : Bool) (o : Option AgentRecord) (s : Sidecar F)
      → AllKept c s
      → AllKept c (interrupted_run id b o s).1
  unfolding interrupted_run
  interrupted_run-AllKept id b none s k = k
  interrupted_run-AllKept id b (some a) s k = elim (Bool-cases a.is_running) [
    | inl e ↦ rw e k
    | inr e ↦ rw e (if-AllKept (not b) _ _ k k)
  ]

  set_group_members-AllKept :
      (args : Json) (s : Sidecar F) → AllKept c s → AllKept c (set_group_members args s).1
  unfolding set_group_members
  set_group_members-AllKept args s k = given_ok-AllKept _ _ s k (λ id t k.
      given_ok-AllKept _ _ t k
        (λ ids t k. given_ok-AllKept _ _ t k (λ a t k. members_of-AllKept id ids a t k)))

  connect_channel-AllKept :
      (args : Json) (s : Sidecar F) → AllKept c s → AllKept c (connect_channel args s).1
  unfolding connect_channel
  connect_channel-AllKept args s k =
      given_ok-AllKept _ _ s k
        (λ a t k. given_ok-AllKept _ _ t k (λ token t k. change_channels-AllKept a.0 _ t k))

  module _ (fs : FileSystem F) (w : Waits F) (g : Given) where
    io_done-AllKept :
        (what : Text) (r : Option Text × F) (f : Sidecar F → Result Json × Sidecar F)
        (s : Sidecar F)
        → AllKept c s
        → ((t : Sidecar F) → AllKept c t → AllKept c (f t).1)
        → AllKept c (io_done fs c w g what r f s).1
    unfolding io_done
    io_done-AllKept what (none, files) f s k h = h _ k
    io_done-AllKept what (some e, files) f s k h = k

    io-AllKept :
        (what : Text) (act : F → Option Text × F) (f : Sidecar F → Result Json × Sidecar F)
        (s : Sidecar F)
        → AllKept c s
        → ((t : Sidecar F) → AllKept c t → AllKept c (f t).1)
        → AllKept c (io fs c w g what act f s).1
    unfolding io
    io-AllKept what act f s k h = io_done-AllKept what (act s.box.files) f s k h

    sweep_one-AllKept :
        (id : Text) (r : UploadRecord) (b : Bool) (s : Sidecar F)
        → AllKept c s
        → AllKept c (sweep_one fs c w g id r b s)
    unfolding sweep_one
    sweep_one-AllKept id r true s k = k
    sweep_one-AllKept id r false s k = k

    sweep-AllKept :
        (us : Dict UploadRecord) (s : Sidecar F) → AllKept c s → AllKept c (sweep fs c w g us s)
    unfolding sweep
    sweep-AllKept [] s k = k
    sweep-AllKept ((id, r) ∷ us) s k = sweep-AllKept us _ (sweep_one-AllKept id r _ s k)

    with_meta-AllKept :
        (dir id : Text) (rec : UploadRecord) (r : Text ⊎ Text) (s : Sidecar F)
        → AllKept c s
        → AllKept c (with_meta fs c w g dir id rec r s).1
    unfolding with_meta kept
    with_meta-AllKept dir id rec (inl e) s k = k
    with_meta-AllKept dir id rec (inr text) s k = io-AllKept _ _ _ s k (λ t k. k)

    store_upload-AllKept :
        (id : Text) (a : Text × List ℕ) (s : Sidecar F)
        → AllKept c s
        → AllKept c (store_upload fs c w g id a s).1
    unfolding store_upload
    store_upload-AllKept id (name, bytes) s k =
        let upload_id = codes "upl_" ++ g.host.uuid in
        let dir = join (uploads_dir fs c w g id) upload_id in
        let rec : UploadRecord = record {
          path = join dir name;
          filename = name;
          agent_id = id;
          bytes = length bytes;
          created_at = g.host.now;
          state = codes "ready";
        } in
        io-AllKept _ _ _ s k
          (λ t k. io-AllKept _ _ _ t k (λ t k. with_meta-AllKept dir upload_id rec _ t k))

    upload_attachment-AllKept :
        (id : Text) (args : Json) (s : Sidecar F)
        → AllKept c s
        → AllKept c (upload_attachment fs c w g id args s).1
    unfolding upload_attachment sweep_expired_uploads make_workspace
    upload_attachment-AllKept id args s k =
        given_ok-AllKept _ _ _ (sweep-AllKept s.uploads s k) (store_upload-AllKept id)

    attach_upload-AllKept :
        (args : Json) (s : Sidecar F) → AllKept c s → AllKept c (attach_upload fs c w g args s).1
    unfolding attach_upload sweep_expired_uploads
    attach_upload-AllKept args s k =
        given_ok-AllKept _ _ _ (sweep-AllKept s.uploads s k) (λ id t k. k)

    add_agent-AllKept :
        (name description : Text) (is_group : Bool) (ids : List Text) (kind : Text) (s : Sidecar F)
        → AllKept c s
        → AllKept c
            (add_agent fs w.at_gates c.workspace_root g.host.now name description is_group ids kind
              s).1
    unfolding add_agent make_workspace
    add_agent-AllKept name description is_group ids kind s k j =
        insert-IsKept c.history_max_turns (agent_id s.next_agent_n) j [] s.history (tt, omega arith)
          (k j)

    create_agent-AllKept :
        (args : Json) (s : Sidecar F)
        → AllKept c s
        → AllKept c (create_agent fs w.at_gates c.workspace_root g.host.now args s).1
    unfolding create_agent
    create_agent-AllKept args s k = given_ok-AllKept _ _ s k (λ name t k.
        add_agent-AllKept name (unwrap_or (get_str "description" args) []) false [] (codes "agent ")
          t k)

    create_group-AllKept :
        (args : Json) (s : Sidecar F)
        → AllKept c s
        → AllKept c (create_group fs w.at_gates c.workspace_root g.host.now args s).1
    unfolding create_group
    create_group-AllKept args s k = given_ok-AllKept _ _ s k (λ name t k.
        given_ok-AllKept _ _ t k (λ ids t k. given_ok-AllKept _ _ t k (λ u t k.
          add_agent-AllKept name (unwrap_or (get_str "description" args) []) true ids
            (codes "group ") t k)))

    module _ (small : c.history_max_turns * 2 ≤ max_u64)
        (delay : (s : Sidecar F) → AllKept c s → AllKept c (w.in_delay s))
        (waiting : (s : Sidecar F) → AllKept c s → AllKept c (w.until_reply s)) where
      dispatch-AllKept :
          (id name : Text) (args : Json) (s : Sidecar F)
          → AllKept c s
          → AllKept c (dispatch fs c w g id name args s).1
      unfolding dispatch list_agents get_agent_channels disconnect_channel refresh_channel
          interrupt_agent_run get_transcript_tail clear_pending
      dispatch-AllKept id name args s k = if-AllKept (text_eq name (codes "listAgents")) _ _ k (
          if-AllKept (text_eq name (codes "createAgent")) _ _ (create_agent-AllKept args s k) (
            if-AllKept (text_eq name (codes "createGroup")) _ _ (create_group-AllKept args s k) (
              if-AllKept (text_eq name (codes "setGroupMembers")) _ _
                (set_group_members-AllKept args s k)
                (if-AllKept (text_eq name (codes "getAgentChannels")) _ _
                  (given_ok-AllKept _ _ s k (λ i t k. given_ok-AllKept _ _ t k (λ u t k. k)))
                  (if-AllKept (text_eq name (codes "connectChannel")) _ _
                    (connect_channel-AllKept args s k)
                    (if-AllKept (text_eq name (codes "disconnectChannel")) _ _
                      (given_ok-AllKept _ _ s k (λ a t k. change_channels-AllKept a.0 _ t k))
                      (if-AllKept (text_eq name (codes "refreshChannel")) _ _
                        (given_ok-AllKept _ _ s k (λ a t k. change_channels-AllKept a.0 _ t k))
                        (if-AllKept (text_eq name (codes "sendPrompt")) _ _
                          (send_prompt-AllKept fs c w small delay waiting id args s k)
                          (if-AllKept (text_eq name (codes "interruptAgentRun")) _ _
                            (interrupted_run-AllKept _ _ _ _ k)
                            (if-AllKept (text_eq name (codes "getAgentTranscriptTail")) _ _
                              (if-AllKept (contains_key id s.agents) _ _ k k)
                              (if-AllKept (text_eq name (codes "uploadAttachment")) _ _
                                (upload_attachment-AllKept id args s k)
                                (if-AllKept (text_eq name (codes "attachUpload")) _ _
                                  (attach_upload-AllKept args s k) k))))))))))))

      -- Every command of the sidecar, whether it is carried out or refused, keeps the history of every
      -- agent in whole turns, a prompt and its reply, and in no more of them than the settings keep.
      -- What runs while a prompt waits keeps that too, and the setting fits half a usize.
      pub invoke-AllKept :
          (id name : Text) (args : Json) (s : Sidecar F)
          → AllKept c s
          → AllKept c (invoke fs c w g id name args s).1
      unfolding invoke
      invoke-AllKept id name args s k = dispatch-AllKept id name args _ k
