-- ===== src/Sandbox/Turns/Kept.antt =====
-- What the history of an agent looks like: whole turns, and no more of them than the settings keep.
use atlas_bot.Common.{
  ℕ, zero, suc, ◌-◌, ◌*◌, ◌≤◌, Text, codes, Bool, true, false, Option, none, some, List, [], ◌∷◌,
  ◌++◌, Dict, ◌≡◌, refl, arith, inl, inr, Bool-cases, get, insert, get-insert, text_eq, is_some,
  ltb, leb, max_u64, length, length-drop, drop, unwrap_or, ◌==◌,
}
use atlas_bot.Json.{Json, get_str}
use atlas_bot.Gateway.Types.{Result, ok, err, AgentRecord, TranscriptEntry}
use atlas_bot.Sandbox.Files.{FileSystem}
use atlas_bot.Sandbox.Replies.{History, is_echo}
use atlas_bot.Sandbox.Turns.{
  persisted, committed, commit_turn, stop, is_interrupt, finished, replied, answered_turn,
  delayed_turn, opened, marked, prompted, send_prompt,
}
use atlas_bot.Sandbox.Agents.{
  Sidecar, Settings, Waits, start_run, mark_running, flagged, set_running, clear_pending,
  push_entry, append_system_notice, newest, remember,
}

-- Prompts and replies in turn.
abbrev pub AreTurns : History → Type 0
AreTurns [] = Unit {0}
AreTurns ((r, t) ∷ []) = ⊥
AreTurns ((r, t) ∷ (q, u) ∷ h) = (r ≡ codes "user") × (q ≡ codes "assistant") × AreTurns h

append-AreTurns :
    (h : History) (prompt reply : Text)
    → AreTurns h
    → AreTurns (h ++ (codes "user", prompt) ∷ (codes "assistant", reply) ∷ [])
append-AreTurns [] prompt reply a = (refl, refl, tt)
append-AreTurns ((r, t) ∷ []) prompt reply a = absurd a
append-AreTurns ((r, t) ∷ (q, u) ∷ h) prompt reply (e, f, a) =
    (e, f, append-AreTurns h prompt reply a)

-- the number of turns
turns : History → ℕ
turns [] = 0
turns ((r, t) ∷ []) = 0
turns ((r, t) ∷ (q, u) ∷ h) = suc (turns h)

length-turns : (h : History) → AreTurns h → length h ≡ turns h * 2
unfolding turns
length-turns [] a = omega arith
length-turns ((r, t) ∷ []) a = absurd a
length-turns ((r, t) ∷ (q, u) ∷ h) a = omega (arith, length-turns h a.2)

drop-AreTurns : (n m : ℕ) (h : History) → m ≡ n * 2 → AreTurns h → AreTurns (drop m h)
drop-AreTurns zero m h e a = let nought : m ≡ 0 = omega arith in rw nought a
drop-AreTurns (suc n) m h e a =
    let more : m ≡ suc (suc (n * 2)) = omega arith in rw more (two h (drop-AreTurns n (n * 2)) a)
  where
    two :
        (g : History)
        → ((k : History) → n * 2 ≡ n * 2 → AreTurns k → AreTurns (drop (n * 2) k))
        → AreTurns g
        → AreTurns (drop (suc (suc (n * 2))) g)
    two [] rest b = tt
    two ((r, t) ∷ []) rest b = absurd b
    two ((r, t) ∷ (q, u) ∷ g) rest (_, _, b) = rest g refl b

-- Whole turns, and no more than the settings keep.
abbrev pub IsKept : ℕ → History → Type 0
IsKept max h = AreTurns h × (length h ≤ max * 2)

newest-IsKept : (max : ℕ) (h : History) → max * 2 ≤ max_u64 → AreTurns h → IsKept max (newest max h)
unfolding newest
newest-IsKept max h small a = elim (Bool-cases (ltb (max * 2) (length h))) [
  | inl e ↦
      rw (fits, e)
        (
          drop-AreTurns (turns h - max) (length h - max * 2) h (omega (arith, length-turns h a)) a,
          omega (arith, length-drop (length h - max * 2) h),
        )
  | inr e ↦ rw (fits, e) (a, ground arith)
]
  where
    fits : leb (max * 2) max_u64 ≡ true
    fits = ground arith

abbrev pub AllKept : {F : Type 0} → Settings → Sidecar F → Type 0
AllKept c s = (k : Text) → IsKept c.history_max_turns (unwrap_or (get k s.history) [])

pub insert-IsKept :
    (max : ℕ) (id k : Text) (h : History) (m : Dict History)
    → IsKept max h
    → IsKept max (unwrap_or (get k m) [])
    → IsKept max (unwrap_or (get k (insert id h m)) [])
insert-IsKept max id k h m new old =
    rw (get-insert id k h m)
      (elim (Bool-cases (text_eq id k)) [ inl e ↦ rw e new | inr e ↦ rw e old ])

module _ {F : Type 0} (fs : FileSystem F) (c : Settings) (w : Waits F)
    (small : c.history_max_turns * 2 ≤ max_u64) where
  remember-IsKept :
      (prompt reply : Text) (h : History)
      → AreTurns h
      → IsKept c.history_max_turns (remember c.history_max_turns prompt reply h)
  unfolding remember
  remember-IsKept prompt reply h a =
      newest-IsKept c.history_max_turns _ small (append-AreTurns h prompt reply a)

  flagged-AllKept :
      (id : Text) (b : Bool) (o : Option AgentRecord) (s : Sidecar F)
      → AllKept c s
      → AllKept c (flagged id b o s)
  unfolding flagged
  flagged-AllKept id b none s k = k
  flagged-AllKept id b (some a) s k = k

  stop-AllKept :
      (id : Text) (noted : Bool) (s : Sidecar F) → AllKept c s → AllKept c (stop fs c w id noted s)
  unfolding stop append_system_notice push_entry set_running clear_pending
  stop-AllKept id true s k = flagged-AllKept id false _ (clear_pending id s) k
  stop-AllKept id false s k = flagged-AllKept id false _ (clear_pending id s) k

  committed-AllKept :
      (id prompt preview : Text) (s : Sidecar F)
      → AllKept c s
      → AllKept c (committed fs c w id prompt preview s).1
  unfolding committed push_entry set_running
  committed-AllKept id prompt preview s k = flagged-AllKept id false _ _ (λ j.
      insert-IsKept c.history_max_turns id j _ s.history
        (remember-IsKept prompt preview (unwrap_or (get id s.history) []) (k id).0) (k j))

  commit_turn-AllKept :
      (id prompt reply : Text) (s : Sidecar F)
      → AllKept c s
      → AllKept c (commit_turn fs c w id prompt reply s).1
  unfolding commit_turn persisted
  commit_turn-AllKept id prompt reply s k = elim (Bool-cases (is_some (get id s.agents))) [
    | inl e ↦ elim (Bool-cases c.session_persist) [
      | inl f ↦ rw (e, f) (committed-AllKept id prompt _ s k)
      | inr f ↦ rw (e, f) (committed-AllKept id prompt _ s k)
    ]
    | inr e ↦ rw e k
  ]

  finished-AllKept :
      (id prompt : Text) (r : Result (Text × List TranscriptEntry) × Sidecar F)
      → AllKept c r.1
      → AllKept c (finished fs c w id prompt r).1
  unfolding finished
  finished-AllKept id prompt (err e, s) k = k
  finished-AllKept id prompt (ok (preview, entries), s) k = k

  replied-AllKept :
      (id prompt : Text) (r : Result Text) (s : Sidecar F)
      → AllKept c s
      → AllKept c (replied fs c w id prompt r s).1
  unfolding replied
  replied-AllKept id prompt (err e) s k = stop-AllKept id (is_interrupt fs c w e) s k
  replied-AllKept id prompt (ok reply) s k = elim (Bool-cases (is_echo prompt reply)) [
    | inl e ↦ rw e (stop-AllKept id false s k)
    | inr e ↦ rw e (finished-AllKept id prompt _ (commit_turn-AllKept id prompt reply _ k))
  ]

  module _ (delay : (s : Sidecar F) → AllKept c s → AllKept c (w.in_delay s))
      (waiting : (s : Sidecar F) → AllKept c s → AllKept c (w.until_reply s)) where
    answered_turn-AllKept :
        (id prompt : Text) (s : Sidecar F)
        → AllKept c s
        → AllKept c (answered_turn fs c w id prompt s).1
    unfolding answered_turn
    answered_turn-AllKept id prompt s k = replied-AllKept id prompt _ _ (waiting _ k)

    delayed_turn-AllKept :
        (id prompt : Text) (s : Sidecar F)
        → AllKept c s
        → AllKept c (delayed_turn fs c w id prompt s).1
    unfolding delayed_turn
    delayed_turn-AllKept id prompt s k = elim (Bool-cases (c.turn_delay == 0)) [
      | inl e ↦ rw e (answered_turn-AllKept id prompt s k)
      | inr e ↦ elim (Bool-cases w.cancelled) [
        | inl f ↦ rw (e, f) (stop-AllKept id true (w.in_delay s) (delay s k))
        | inr f ↦ rw (e, f) (answered_turn-AllKept id prompt (w.in_delay s) (delay s k))
      ]
    ]

    marked-AllKept :
        (id prompt : Text) (o : Option AgentRecord) (s : Sidecar F)
        → AllKept c s
        → AllKept c (marked fs c w id prompt (start_run id o s)).1
    unfolding marked start_run opened clear_pending
    marked-AllKept id prompt none s k = k
    marked-AllKept id prompt (some a) s k = elim (Bool-cases a.is_running) [
      | inl e ↦ rw e k
      | inr e ↦ rw e (delayed_turn-AllKept id prompt _ k)
    ]

    prompted-AllKept :
        (id : Text) (o : Option Text) (s : Sidecar F)
        → AllKept c s
        → AllKept c (prompted fs c w id o s).1
    unfolding prompted mark_running
    prompted-AllKept id none s k = k
    prompted-AllKept id (some prompt) s k = marked-AllKept id prompt (get id s.agents) s k

    -- A prompt keeps the history of every agent in whole turns, a prompt and its reply, and in no more
    -- of them than the settings keep. What runs while the prompt waits keeps that too, and the setting
    -- fits half a usize.
    pub send_prompt-AllKept :
        (id : Text) (args : Json) (s : Sidecar F)
        → AllKept c s
        → AllKept c (send_prompt fs c w id args s).1
    unfolding send_prompt
    send_prompt-AllKept id args s k = prompted-AllKept id (get_str "prompt" args) s k
