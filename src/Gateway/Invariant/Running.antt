-- ===== src/Gateway/Invariant/Running.antt =====
-- Prompts, interrupts and the ends of turns keep the invariant.
use atlas_bot.Common.{
  ◌+◌, ◌≤◌, ◌<◌, Text, Bool, true, false, some, ◌≡◌, refl, arith, get, insert, Bool-cases,
  Option-cases, inl, inr, max_u64, unwrap_or, get-insert_self, succ_u64, succ_u64_lem,
}
use atlas_bot.Json.{Json}
use atlas_bot.Gateway.Types.{
  AgentRecord, Gateway, Ends, Ends-pure, Ends-lift, Ends-modify, Ends-bind,
}
use atlas_bot.Gateway.Turns.{
  mark_running, spawn_turn, send_prompt, interrupt_target, clear_pending, interrupt_agent_run,
  finish_turn,
}
use atlas_bot.Gateway.Invariant.{IsValid, AllOk, AllOk-write, AllOk-push}
use atlas_bot.Gateway.Invariant.Agents.{HasRoom}

-- The flag of a running turn is set or cleared.
module _ (s : Gateway) (v : IsValid s) (id : Text) where
  set_running :
      (a : AgentRecord) (b : Bool)
      → get id s.agents ≡ some a
      → AllOk
          (insert id (record a { is_running = b }) s.agents)
          s.transcripts
          s.next_entry_seq
          s.next_agent_n
  set_running a b found = AllOk-write v.all_ok id a _ found refl refl (v.all_ok id a found).members

  pub mark_running-IsValid : Ends IsValid (mark_running id) s
  unfolding mark_running
  mark_running-IsValid = elim (Option-cases (get id s.agents)) [
    | inl e ↦ record { at = rw e v }
    | inr (a, e) ↦ elim (Bool-cases a.is_running) [
      | inl r ↦ record { at = rw e (rw r v) }
      | inr r ↦ record { at = rw e (rw r (record { all_ok = set_running a true e })) }
    ]
  ]

  pub send_prompt-IsValid : (args : Json) → Ends IsValid (send_prompt id args) s
  unfolding send_prompt spawn_turn
  send_prompt-IsValid args = Ends-lift _ _ s v λ prompt _.
      Ends-bind _ _ s mark_running-IsValid
        λ _ t w. Ends-modify _ _ t (Ends-pure _ _ (record { all_ok = w.all_ok }))

module _ (s : Gateway) (v : IsValid s) (room : HasRoom s) (id : Text) where
  -- the counter of an agent that exists, as the handlers read it
  next_seq_lem :
      (a : AgentRecord) (found : get id s.agents ≡ some a)
      → get id s.next_entry_seq ≡ some (unwrap_or (get id s.next_entry_seq) 1)
  next_seq_lem a found = rw (v.all_ok id a found).counted

  next_seq_room :
      (a : AgentRecord) (found : get id s.agents ≡ some a)
      → unwrap_or (get id s.next_entry_seq) 1 + 2 ≤ max_u64
  next_seq_room a found =
      let o = v.all_ok id a found in rw o.counted (room.entries id o.next o.counted)

  pub finish_turn-IsValid : (prompt : Text) → Ends IsValid (finish_turn id prompt) s
  unfolding finish_turn
  finish_turn-IsValid prompt = elim (Option-cases (get id s.agents)) [
    | inl e ↦ record { at = rw e v }
    | inr (a, e) ↦ elim (Bool-cases a.is_running) [
      | inl r ↦ record {
        at = rw e (
            rw r (record {
              all_ok =
                  let n = unwrap_or (get id s.next_entry_seq) 1 in
                  let fits = next_seq_room a e in
                  let below : succ_u64 n < max_u64 = omega (arith, succ_u64_lem n (omega arith)) in
                  let user = AllOk-push v.all_ok id a _ n e (next_seq_lem a e) refl (omega arith) in
                  let read_back = get-insert_self id (succ_u64 n) s.next_entry_seq in
                  let both =
                    AllOk-push user id a _ (succ_u64 n) e read_back (rw read_back refl) below in
                  AllOk-write both id a _ e refl refl (v.all_ok id a e).members;
            }));
      }
      | inr r ↦ record { at = rw e (rw r v) }
    ]
  ]

  pub interrupt_agent_run-IsValid :
      (envelope : Text) (args : Json)
      → interrupt_target envelope args ≡ id
      → Ends IsValid (interrupt_agent_run envelope args) s
  unfolding interrupt_agent_run clear_pending
  interrupt_agent_run-IsValid envelope args target = elim (Option-cases (get id s.agents)) [
    | inl e ↦ record { at = rw target (rw e (record { all_ok = v.all_ok })) }
    | inr (a, e) ↦ elim (Bool-cases a.is_running) [
      | inl r ↦ record {
        at = rw target (
            rw e (
              rw r (record {
                all_ok =
                    let n = unwrap_or (get id s.next_entry_seq) 1 in
                    let fits = next_seq_room a e in
                    AllOk-push (set_running s v id a false e) id _ _ n
                      (get-insert_self id _ s.agents) (next_seq_lem a e) refl (omega arith);
              })));
      }
      | inr r ↦ record { at = rw target (rw e (rw r (record { all_ok = v.all_ok }))) }
    ]
  ]
