-- ===== src/Gateway/Turns/Runs.antt =====
-- An agent has one run at a time.
use atlas_bot.Common.{
  Text, codes, Bool, true, false, some, [], ◌∷◌, ◌≡◌, refl, ap, get, insert, get-insert_self,
  unwrap_or,
}
use atlas_bot.Json.{Json, bool, object, get_str, get_bool}
use atlas_bot.Gateway.Types.{
  GatewayError, Result, ok, err, invalid_args, AgentRecord, Gateway, ◌>>=◌, pure, lift, modify,
}
use atlas_bot.Gateway.Turns.{
  mark_running, start_run, spawn_turn, send_prompt, finish_turn, finish_run, complete_turn,
  push_entry, clear_pending,
}

abbrev pub busy : GatewayError
busy = invalid_args (codes "agent already running; interrupt first")

module _ (id : Text) where
  -- whether the agent is there and has a run
  abbrev pub Runs : Bool → Gateway → Type 0
  Runs b s = (a : AgentRecord) × (get id s.agents ≡ some a) × (a.is_running ≡ b)

  mark_running-busy : (s : Gateway) → Runs true s → mark_running id s ≡ (err busy, s)
  unfolding mark_running start_run
  mark_running-busy s (a, e, r) = rw (e, r) refl

  mark_running_idle :
      (s : Gateway)
      → (r : Runs false s)
      → mark_running id s
        ≡ (ok tt, record s { agents = insert id (record r.0 { is_running = true }) s.agents })
  unfolding mark_running start_run
  mark_running_idle s (a, e, r) = rw (e, r) refl

  abbrev pub accepted : Result Json
  accepted = ok (object (("accepted", bool true) ∷ []))

  started : Text → Json → (s : Gateway) → Runs false s → Gateway
  started prompt args s r =
      spawn_turn id prompt (unwrap_or (get_bool "immediate" args) false)
        (record s { agents = insert id (record r.0 { is_running = true }) s.agents })

  module _ (args : Json) (prompt : Text) (asked : get_str "prompt" args ≡ some prompt) where
    send_prompt_idle :
        (s : Gateway) (r : Runs false s)
        → send_prompt id args s ≡ (accepted, started prompt args s r)
    unfolding send_prompt ◌>>=◌ lift modify pure started
    send_prompt_idle s r = rw (asked, mark_running_idle s r) refl

    send_prompt-busy : (s : Gateway) → Runs true s → send_prompt id args s ≡ (err busy, s)
    unfolding send_prompt ◌>>=◌ lift
    send_prompt-busy s r = rw (asked, mark_running-busy s r) refl

  started-Runs :
      (prompt : Text) (args : Json) (s : Gateway) (r : Runs false s)
      → Runs true (started prompt args s r)
  unfolding started spawn_turn
  started-Runs prompt args s r =
      (record r.0 { is_running = true }, get-insert_self id _ s.agents, refl)

  finish_turn-Runs :
      (prompt : Text) (s : Gateway) → Runs true s → Runs false (finish_turn id prompt s).1
  unfolding finish_turn finish_run complete_turn push_entry clear_pending
  finish_turn-Runs prompt s (a, e, r) =
      rw (e, r) (record a { is_running = false }, get-insert_self id _ s.agents, refl)

  -- An agent that has no run takes a prompt; until its turn ends it refuses every other prompt and
  -- stays as it is, and once the turn has ended it takes a prompt again.
  pub send_prompt-send_prompt :
      (args later : Json) (prompt next : Text) (s : Gateway)
      → get_str "prompt" args ≡ some prompt
      → get_str "prompt" later ≡ some next
      → Runs false s
      → (let s' = (send_prompt id args s).1 in
          ((send_prompt id args s).0 ≡ accepted)
          × (send_prompt id later s' ≡ (err busy, s'))
          × ((send_prompt id later (finish_turn id prompt s').1).0 ≡ accepted))
  send_prompt-send_prompt args later prompt next s asked asked' r =
      let first = send_prompt_idle args prompt asked s r in
      let s' = started prompt args s r in
      let r' = started-Runs prompt args s r in
      let r'' = finish_turn-Runs prompt s' r' in
      rw first (
        refl,
        send_prompt-busy later next asked' s' r',
        ap (λ x. x.0) (send_prompt_idle later next asked' (finish_turn id prompt s').1 r''),
      )
