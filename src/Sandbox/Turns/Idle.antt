-- ===== src/Sandbox/Turns/Idle.antt =====
-- How the flag and the slot of a turn are left where its prompt ends.
use atlas_bot.Common.{
  Text, text_eq_refl, Bool, true, false, Option, none, some, List, ◌≡◌, refl, ap, ◌∙◌, inl, inr,
  Bool-cases, if◌then◌else◌, get, get-insert_self, get-remove, is_some, ◌==◌,
}
use atlas_bot.Json.{Json, get_str}
use atlas_bot.Gateway.Types.{Result, ok, err, AgentRecord, TranscriptEntry}
use atlas_bot.Sandbox.Files.{FileSystem}
use atlas_bot.Sandbox.Replies.{is_echo}
use atlas_bot.Sandbox.Turns.{
  persisted, committed, commit_turn, stop, is_interrupt, finished, replied, answered_turn,
  delayed_turn, marked, prompted, send_prompt,
}
use atlas_bot.Sandbox.Agents.{
  Sidecar, Settings, Waits, start_run, mark_running, flagged, set_running, clear_pending,
  push_entry, append_system_notice,
}

abbrev IsThere : {F : Type 0} → Text → Sidecar F → Type 0
IsThere id s = is_some (get id s.agents) ≡ true

-- The agent is there with its flag down.
abbrev IsIdle : {F : Type 0} → Text → Sidecar F → Type 0
IsIdle id s = (a : AgentRecord) × (get id s.agents ≡ some a) × (a.is_running ≡ false)

abbrev HasNoSlot : {F : Type 0} → Text → Sidecar F → Type 0
HasNoSlot id s = get id s.pending ≡ none

-- The agent is there with its flag down, and has no slot.
abbrev pub IsFree : {F : Type 0} → Text → Sidecar F → Type 0
IsFree id s = IsIdle id s × HasNoSlot id s

-- What other handlers do leaves the agent there.
abbrev pub LeavesThere : {F : Type 0} → Text → (Sidecar F → Sidecar F) → Type 0
LeavesThere {F} id f =
    (s : Sidecar F) → is_some (get id s.agents) ≡ true → is_some (get id (f s).agents) ≡ true

module _ {F : Type 0} where
  flagged-IsIdle :
      (id : Text) (o : Option AgentRecord) (s : Sidecar F)
      → is_some o ≡ true
      → IsIdle id (flagged id false o s)
  unfolding flagged
  flagged-IsIdle id none s h = cc
  flagged-IsIdle id (some a) s h = (
    record a { is_running = false },
    get-insert_self id (record a { is_running = false }) s.agents,
    refl,
  )

  flagged-HasNoSlot :
      (id : Text) (b : Bool) (o : Option AgentRecord) (s : Sidecar F)
      → HasNoSlot id s
      → HasNoSlot id (flagged id b o s)
  unfolding flagged
  flagged-HasNoSlot id b none s h = h
  flagged-HasNoSlot id b (some a) s h = h

  clear_pending-HasNoSlot : (id : Text) (s : Sidecar F) → HasNoSlot id (clear_pending id s)
  unfolding clear_pending
  clear_pending-HasNoSlot id s =
      get-remove id id s.pending ∙ ap (λ b. if b then none else get id s.pending) (text_eq_refl id)

  set_running-IsIdle :
      (id : Text) (s : Sidecar F) → IsThere id s → IsIdle id (set_running id false s)
  unfolding set_running
  set_running-IsIdle id s h = flagged-IsIdle id (get id s.agents) s h

module _ {F : Type 0} (fs : FileSystem F) (c : Settings) (w : Waits F) where
  stop-IsFree :
      (id : Text) (noted : Bool) (s : Sidecar F) → IsThere id s → IsFree id (stop fs c w id noted s)
  unfolding stop set_running append_system_notice push_entry clear_pending
  stop-IsFree id true s h = (
    flagged-IsIdle id (get id s.agents) (clear_pending id s) h,
    flagged-HasNoSlot id false (get id s.agents) (clear_pending id s)
        (clear_pending-HasNoSlot id s),
  )
  stop-IsFree id false s h = (
    flagged-IsIdle id (get id s.agents) (clear_pending id s) h,
    flagged-HasNoSlot id false (get id s.agents) (clear_pending id s)
        (clear_pending-HasNoSlot id s),
  )

  persisted-IsIdle :
      (id prompt reply : Text) (s : Sidecar F)
      → IsIdle id s
      → IsIdle id (persisted fs c w id prompt reply s)
  unfolding persisted
  persisted-IsIdle id prompt reply s h = elim (Bool-cases c.session_persist) [
    | inl e ↦ rw e h
    | inr e ↦ rw e h
  ]

  finished-IsFree :
      (id prompt : Text) (preview : Text) (entries : List TranscriptEntry) (s : Sidecar F)
      → IsIdle id s
      → IsFree id (finished fs c w id prompt (ok (preview, entries), s)).1
  unfolding finished clear_pending
  finished-IsFree id prompt preview entries s h = (h, clear_pending-HasNoSlot id s)

  committed-IsFree :
      (id prompt reply : Text) (s : Sidecar F)
      → IsThere id s
      → IsFree id (finished fs c w id prompt (commit_turn fs c w id prompt reply s)).1
  unfolding commit_turn committed push_entry
  committed-IsFree id prompt reply s h =
      rw h (
        finished-IsFree id prompt _ _ _
          (persisted-IsIdle id prompt _ _ (set_running-IsIdle id _ h)))

  replied-IsFree :
      (id prompt : Text) (r : Result Text) (s : Sidecar F)
      → IsThere id s
      → IsFree id (replied fs c w id prompt r s).1
  unfolding replied
  replied-IsFree id prompt (err e) s h = stop-IsFree id (is_interrupt fs c w e) s h
  replied-IsFree id prompt (ok reply) s h = elim (Bool-cases (is_echo prompt reply)) [
    | inl e ↦ rw e (stop-IsFree id false s h)
    | inr e ↦ rw e (committed-IsFree id prompt reply _ h)
  ]

  module _ (id : Text) (in_delay : LeavesThere id w.in_delay)
      (until_reply : LeavesThere id w.until_reply) where
    answered_turn-IsFree :
        (prompt : Text) (s : Sidecar F)
        → IsThere id s
        → IsFree id (answered_turn fs c w id prompt s).1
    unfolding answered_turn
    answered_turn-IsFree prompt s h = replied-IsFree id prompt _ _ (until_reply _ h)

    delayed_turn-IsFree :
        (prompt : Text) (s : Sidecar F)
        → IsThere id s
        → IsFree id (delayed_turn fs c w id prompt s).1
    unfolding delayed_turn
    delayed_turn-IsFree prompt s h = elim (Bool-cases (c.turn_delay == 0)) [
      | inl e ↦ rw e (answered_turn-IsFree prompt s h)
      | inr e ↦ elim (Bool-cases w.cancelled) [
        | inl k ↦ rw (e, k) (stop-IsFree id true (w.in_delay s) (in_delay s h))
        | inr k ↦ rw (e, k) (answered_turn-IsFree prompt (w.in_delay s) (in_delay s h))
      ]
    ]

    marked-IsFree :
        (prompt : Text) (a : AgentRecord) (s : Sidecar F)
        → a.is_running ≡ false
        → IsFree id (marked fs c w id prompt (start_run id (some a) s)).1
    unfolding marked start_run
    marked-IsFree prompt a s h = rw h (
        delayed_turn-IsFree prompt _
          (ap is_some (get-insert_self id (record a { is_running = true }) s.agents)))

    prompted-IsFree :
        (o : Option Text) (s : Sidecar F) → IsFree id s → IsFree id (prompted fs c w id o s).1
    unfolding prompted mark_running
    prompted-IsFree none s h = h
    prompted-IsFree (some prompt) s ((a, e, idle), slot) = rw e (marked-IsFree prompt a s idle)

    -- Where a prompt to an agent without a turn ends, the flag of that agent is down and its slot is
    -- empty: after a reply, an error of the model, an interrupt, a refused echo and wrong arguments
    -- alike. This is so in whatever state the other handlers, which leave the agent there, made
    -- meanwhile, also in one in which another prompt has set the flag and filled the slot.
    pub send_prompt-IsFree :
        (args : Json) (s : Sidecar F) → IsFree id s → IsFree id (send_prompt fs c w id args s).1
    unfolding send_prompt
    send_prompt-IsFree args s h = prompted-IsFree (get_str "prompt" args) s h
