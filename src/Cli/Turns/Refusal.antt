-- ===== src/Cli/Turns/Refusal.antt =====
-- What a refused tool does to the turn around its run.
use atlas_bot.Common.{
  Text, codes, text_eq, Bool, true, false, ◌||◌, Option, none, some, List, [], ◌∷◌, ◌++◌, ◌≡◌, refl,
  ap, ◌∙◌, get, insert, get-insert_self, if◌then◌else◌, is_some, trim,
}
use mathlib.Core.Option
use atlas_bot.Json.{Json, get_str}
use atlas_bot.Gateway.Types.{
  Result, ok, err, AgentRecord, TranscriptEntry, agent_not_found, invalid_args,
}
use atlas_bot.Approval.{auto_deny, auto_denied}
use atlas_bot.Cli.Stream.{Pause, KillEnd, by_kill, by_itself, not_at_all, Event, line, run, refusal}
use atlas_bot.Cli.Stream.Passes.{line_gates}
use atlas_bot.Cli.Stream.Refused.{line_tool, lines, Ungated, IsRefused, run-IsRefused}
use atlas_bot.Cli.Agents.{
  CliGateway, start_run, mark_running, flagged, set_running, clear_pending, push_entry, committed,
  commit_turn,
}
use atlas_bot.Cli.Children.{
  Settings, Child, spawned, checked_reply, concluded, new_stream, after_stream, streamed_run,
  text_run, checked, started, child_of, run_cli,
}
use atlas_bot.Cli.Turns.{completed_value, completed, replied, opened, marked, prompted, send_prompt}

abbrev pub echoes : Text → Text → Bool
echoes prompt text = text_eq text prompt || text_eq text (codes "echo: " ++ prompt)

-- A child of this agent was killed.
abbrev pub IsKilled : Text → CliGateway → Type 0
IsKilled id s = (earlier later : List Text) × (s.killed ≡ earlier ++ id ∷ later)

-- The child ends, by the kill or by itself.
abbrev pub child_ends : KillEnd → Bool
child_ends by_kill = true
child_ends by_itself = true
child_ends not_at_all = false

-- Where the kill ended the child, it is noted.
abbrev pub IsNoted : KillEnd → Text → CliGateway → Type 0
IsNoted by_kill id s = IsKilled id s
IsNoted by_itself id s = Unit
IsNoted not_at_all id s = Unit

IsNoted-resp :
    (e : KillEnd) (id : Text) (s t : CliGateway)
    → t.killed ≡ s.killed
    → IsNoted e id s
    → IsNoted e id t
IsNoted-resp by_kill id s t h (earlier, later, k) = (earlier, later, h ∙ k)
IsNoted-resp by_itself id s t h u = u
IsNoted-resp not_at_all id s t h u = u

-- The agent is there, and the kill of its child is noted.
abbrev pub IsStopped : KillEnd → Text → CliGateway → Type 0
IsStopped e id s = (is_some (get id s.agents) ≡ true) × IsNoted e id s

-- The agent is not running, or gone.
abbrev runs : Option AgentRecord → Bool
runs none = false
runs (some a) = a.is_running

flagged-runs :
    (id : Text) (o : Option AgentRecord) (s : CliGateway)
    → get id s.agents ≡ o
    → runs (get id (flagged id false o s).agents) ≡ false
unfolding flagged
flagged-runs id none s h = ap runs h
flagged-runs id (some a) s h =
    ap runs (get-insert_self id (record a { is_running = false }) s.agents)

flagged_killed :
    (id : Text) (o : Option AgentRecord) (s : CliGateway) → (flagged id false o s).killed ≡ s.killed
unfolding flagged
flagged_killed id none s = refl
flagged_killed id (some a) s = refl

committed-runs :
    (id prompt preview : Text) (s : CliGateway)
    → runs (get id (committed id prompt preview s).1.agents) ≡ false
unfolding committed set_running push_entry
committed-runs id prompt preview s = flagged-runs id (get id s.agents) _ refl

committed_killed :
    (id prompt preview : Text) (s : CliGateway)
    → (committed id prompt preview s).1.killed ≡ s.killed
unfolding committed set_running push_entry
committed_killed id prompt preview s = flagged_killed id (get id s.agents) _

-- A turn that completed with this preview, its agent free again, and the child killed where the kill
-- works.
abbrev pub IsCompleted : KillEnd → Text → Text → Option (Result Json) × CliGateway → Type 0
IsCompleted e id preview r =
    (entries : List TranscriptEntry) × (r.0 ≡ some (ok (completed_value preview entries)))
    × (runs (get id r.1.agents) ≡ false)
    × IsNoted e id r.1

reply_kept :
    (prompt stderr name : Text)
    → echoes prompt (refusal name auto_denied) ≡ false
    → checked_reply prompt stderr (refusal name auto_denied) ≡ ok (refusal name auto_denied)
unfolding checked_reply refusal codes
reply_kept prompt stderr name h = rw h refl

module _ (from_str : Text → Option Json) (c : Settings) (spawn : Text → Text → List Text → Child)
    (id prompt : Text) where
  streamed_refused :
      (e : KillEnd) (child : Child) (name : Text) (s : CliGateway)
      → child_ends e ≡ true
      → IsRefused e name (new_stream s) (run from_str id child.events (new_stream s))
      → (u : CliGateway) × (streamed_run from_str c spawn id child s
          ≡ (some (ok (refusal name auto_denied)), u))
        × (u.agents ≡ s.agents)
        × IsNoted e id u
  unfolding streamed_run concluded
  streamed_refused by_kill child name s works (t, e, k) = (
    after_stream id t s,
    ap (λ r. let (o, t) = concluded child.exit r in (o, after_stream id t s)) e,
    refl,
    (s.killed, [], ap (λ b. if b then s.killed ++ id ∷ [] else s.killed) k),
  )
  streamed_refused by_itself child name s works (t, e, k) = (
    after_stream id t s,
    ap (λ r. let (o, t) = concluded child.exit r in (o, after_stream id t s)) e,
    refl,
    tt,
  )
  streamed_refused not_at_all child name s works h = cc

  started_refused :
      (e : KillEnd) (child : Child) (stderr name : Text) (s : CliGateway)
      → c.stream_enabled ≡ true
      → child.stderr ≡ some stderr
      → child_ends e ≡ true
      → echoes prompt (refusal name auto_denied) ≡ false
      → IsRefused e name (new_stream s) (run from_str id child.events (new_stream s))
      → (u : CliGateway) × (started from_str c spawn id prompt child spawned s
          ≡ (some (ok (refusal name auto_denied)), child.others u))
        × (u.agents ≡ s.agents)
        × IsNoted e id u
  unfolding started checked
  started_refused e child stderr name s h closed works plain r =
      let (u, out, same, k) = streamed_refused e child name s works r in
      (
        u,
        ap
              (λ b. checked from_str c spawn prompt child (
                if b
                then streamed_run from_str c spawn id child s
                else text_run from_str c spawn id child s))
              h
            ∙ ap (checked from_str c spawn prompt child) out
            ∙ ap
                (λ o. (
                  Option.map (λ e. checked_reply prompt e (refusal name auto_denied)) o,
                  child.others u,
                ))
                closed
            ∙ ap (λ r. (some r, child.others u)) (reply_kept prompt stderr name plain),
        same,
        k,
      )

  replied-IsCompleted :
      (e : KillEnd) (reply : Text) (s : CliGateway)
      → IsStopped e id s
      → IsCompleted e id (trim reply) (replied from_str c spawn id prompt (some (ok reply), s))
  unfolding replied completed commit_turn clear_pending
  replied-IsCompleted e reply s (there, k) =
      let s' = clear_pending id s in
      let done = committed id prompt (trim reply) s' in
      let at : commit_turn id prompt reply s' ≡ (ok (trim reply, done.0), done.1) =
        ap (λ b. if b then (ok (trim reply, done.0), done.1) else (err (agent_not_found id), s'))
          there in
      (
        done.0,
        ap (λ r. some (completed from_str c spawn id prompt r).0) at,
        ap (λ r. runs (get id (completed from_str c spawn id prompt r).1.agents)) at
            ∙ committed-runs id prompt (trim reply) s',
        IsNoted-resp e id s
            (completed from_str c spawn id prompt (commit_turn id prompt reply s')).1
            (ap (λ r. (completed from_str c spawn id prompt r).1.killed) at
              ∙ committed_killed id prompt (trim reply) s')
            k,
      )

  -- the agent with its flag and its slot, as its run begins
  abbrev begun : AgentRecord → CliGateway → CliGateway
  begun a s =
      opened from_str c spawn id
        (record s { agents = insert id (record a { is_running = true }) s.agents })

  marked_run :
      (a : AgentRecord) (s : CliGateway)
      → get id s.agents ≡ some a
      → a.is_running ≡ false
      → marked from_str c spawn id prompt (mark_running id s)
        ≡ replied from_str c spawn id prompt (run_cli from_str c spawn id prompt (begun a s))
  unfolding marked mark_running start_run
  marked_run a s there idle =
      ap (λ o. marked from_str c spawn id prompt (start_run id o s)) there
      ∙ ap
          (λ b. marked from_str c spawn id prompt (
            if b
            then (err (invalid_args (codes "agent already running; interrupt first")), s)
            else (
              ok tt,
              record s { agents = insert id (record a { is_running = true }) s.agents },
            )))
          idle

  -- Where approvals are denied automatically, a streamed prompt to a free agent whose child prints lines
  -- that start no gated tool and then one that does is answered, if the child ends, by the kill or by
  -- itself where the kill fails, and its standard error is closed: the turn completes with the refusal of
  -- that tool as its preview, the child was killed where the kill worked, and the agent is free again.
  -- The refusal is no echo of the prompt, and what else runs meanwhile leaves the agent there and what
  -- was killed noted.
  pub send_prompt-IsCompleted :
      (args : Json) (before : List (Text × Pause)) (raw stderr : Text) (p : Pause)
      (later : List Event) (a : AgentRecord) (s : CliGateway)
      → get_str "prompt" args ≡ some prompt
      → get id s.agents ≡ some a
      → a.is_running ≡ false
      → s.approval.mode ≡ auto_deny
      → c.stream_enabled ≡ true
      → (child_of from_str c spawn id prompt).start ≡ spawned
      → (child_of from_str c spawn id prompt).events
        ≡ lines from_str id before ++ line raw p ∷ later
      → (child_of from_str c spawn id prompt).stderr ≡ some stderr
      → child_ends p.kill_end ≡ true
      → Ungated from_str id before
      → line_gates from_str raw ≡ true
      → echoes prompt (refusal (line_tool from_str raw) auto_denied) ≡ false
      → ((u : CliGateway)
          → IsStopped p.kill_end id u
          → IsStopped p.kill_end id ((child_of from_str c spawn id prompt).others u))
      → IsCompleted p.kill_end id
          (trim (refusal (line_tool from_str raw) auto_denied))
          (send_prompt from_str c spawn id args s)
  unfolding send_prompt prompted run_cli
  send_prompt-IsCompleted args before raw stderr p later a s h there idle mode streams start events
        closed works ungated gates plain keeps =
      let child = child_of from_str c spawn id prompt in
      let s' = begun a s in
      let name = line_tool from_str raw in
      let (refused, unread) =
        run-IsRefused from_str id before raw p later (new_stream s') ungated gates mode in
      let (u, out, same, k) =
        started_refused p.kill_end child stderr name s' streams closed works plain
          (rw events refused) in
      let stopped : IsStopped p.kill_end id (child.others u) = keeps u (
        ap (λ d. is_some (get id d)) same
            ∙ ap is_some (get-insert_self id (record a { is_running = true }) s.agents),
        k,
      ) in
      let path : send_prompt from_str c spawn id args s
          ≡ replied from_str c spawn id prompt
              (some (ok (refusal name auto_denied)), child.others u) =
        ap (λ o. prompted from_str c spawn id o s) h
        ∙ marked_run a s there idle
        ∙ ap
            (λ st.
              replied from_str c spawn id prompt (started from_str c spawn id prompt child st s'))
            start
        ∙ ap (replied from_str c spawn id prompt) out in
      rw path (replied-IsCompleted p.kill_end (refusal name auto_denied) (child.others u) stopped)
