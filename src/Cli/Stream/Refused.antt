-- ===== src/Cli/Stream/Refused.antt =====
-- The line that the gate refuses.
use atlas_bot.Common.{
  Text, codes, true, false, Option, none, List, [], ◌∷◌, ◌++◌, ◌≡◌, refl, ap, sym, ◌∙◌, inl, inr,
  Bool-cases, is_empty, All, if◌then◌else◌,
}
use atlas_bot.Json.{Json}
use atlas_bot.Gateway.Types.{Result, ok}
use atlas_bot.Approval.{
  auto_deny, auto_denied, CliToolGateClass, gated, exempt, observe_only, classify_cli_tool,
}
use atlas_bot.Approval.Gates.{open_gate-auto_deny}
use atlas_bot.Cli.Lines.{
  StreamLineKind, final, cli_error, tool_started, tool_observed, other, classify_stream_line,
  without_line_end,
}
use atlas_bot.Cli.Stream.{
  Event, line, KillEnd, by_kill, by_itself, not_at_all, Pause, Stream, Run, running, stuck,
  returned, kill, end_child, refusal, push_deltas, emit_tool, asked, await_cli_tool_approval,
  decided, is_off, gated_start, started, on_kind, on_line, step, follow, run,
}
use atlas_bot.Cli.Stream.Passes.{
  is_gated, gates, line_gates, Keeps, Keeps-trans, push_deltas-Keeps, line_ungated,
}

-- A run that began with this stream ends with the refusal of the tool as its reply, with its child killed;
-- or without a kill, where the kill fails and the child exits by itself; or it waits for the child.
abbrev pub IsRefused : KillEnd → Text → Stream → Run → Type 0
IsRefused by_kill name s r =
    (t : Stream) × (r ≡ returned (ok (refusal name auto_denied)) t) × (t.killed ≡ true)
IsRefused by_itself name s r =
    (t : Stream) × (r ≡ returned (ok (refusal name auto_denied)) t) × (t.killed ≡ s.killed)
IsRefused not_at_all name s r = (t : Stream) × (r ≡ stuck t) × (t.killed ≡ s.killed)

end_child-IsRefused :
    (e : KillEnd) (name : Text) (s t : Stream)
    → Keeps s t
    → IsRefused e name s (end_child e (ok (refusal name auto_denied)) t)
unfolding end_child
end_child-IsRefused by_kill name s t h = (kill t, refl, refl)
end_child-IsRefused by_itself name s t h = (t, refl, h.killed)
end_child-IsRefused not_at_all name s t h = (t, refl, h.killed)

IsRefused-Keeps :
    (e : KillEnd) (name : Text) (s t : Stream) (r : Run)
    → Keeps s t
    → IsRefused e name t r
    → IsRefused e name s r
IsRefused-Keeps by_kill name s t r h k = k
IsRefused-Keeps by_itself name s t r h (u, e, k) = (u, e, k ∙ h.killed)
IsRefused-Keeps not_at_all name s t r h (u, e, k) = (u, e, k ∙ h.killed)

-- A run has ended, or waits for the child: whatever comes is not read.
data IsOver : Run → Type 0 where
  waits : (t : Stream) → IsOver (stuck t)
  ends : (r : Result Text) (t : Stream) → IsOver (returned r t)

end_child-IsOver : (e : KillEnd) (r : Result Text) (s : Stream) → IsOver (end_child e r s)
unfolding end_child
end_child-IsOver by_kill r s = ends r (kill s)
end_child-IsOver by_itself r s = ends r s
end_child-IsOver not_at_all r s = waits s

-- The gated line ends the loop as the end of the child says.
abbrev EndsIn : KillEnd → Text → Run → Stream → Type 0
EndsIn e name r s = (t : Stream) × (r ≡ end_child e (ok (refusal name auto_denied)) t) × Keeps s t

abbrev tool_of : StreamLineKind → Text
tool_of (tool_started name summary status) = name
tool_of _ = []

-- the tool that a line starts
abbrev pub line_tool : (Text → Option Json) → Text → Text
line_tool from_str raw = tool_of (classify_stream_line from_str (without_line_end raw)).0

await_auto_deny :
    (agent name detail : Text) (p : Pause) (s : Stream)
    → s.approval.mode ≡ auto_deny
    → await_cli_tool_approval agent name detail p s ≡ (auto_denied, s)
unfolding await_cli_tool_approval asked
await_auto_deny agent name detail p s h =
    ap (λ g. asked name detail p g s)
      (open_gate-auto_deny (codes "appr_" ++ p.uuid)
        (record { agent_id = agent; tool = name; summary = detail }) s.approval h)

gated_auto_deny :
    (agent name summary : Text) (p : Pause) (s : Stream)
    → s.approval.mode ≡ auto_deny
    → gated_start agent name summary p s ≡ end_child p.kill_end (ok (refusal name auto_denied)) s
unfolding gated_start decided
gated_auto_deny agent name summary p s h =
    let detail = codes "cli tool_call started name=" ++ (name ++ (codes " " ++ summary)) in
    ap
      (λ mode.
        if is_off mode
        then running s
        else decided name summary p.kill_end (await_cli_tool_approval agent name detail p s))
      h
    ∙ ap (decided name summary p.kill_end) (await_auto_deny agent name detail p s h)

started_gated :
    (c : CliToolGateClass) (agent name summary : Text) (p : Pause) (s : Stream)
    → is_gated c ≡ true
    → s.approval.mode ≡ auto_deny
    → EndsIn p.kill_end name (started c agent name summary p s) s
unfolding started
started_gated gated agent name summary p s h k = (
  emit_tool name summary none s,
  gated_auto_deny agent name summary p (emit_tool name summary none s) k,
  record { approval = refl; killed = refl },
)
started_gated exempt agent name summary p s h k = cc
started_gated observe_only agent name summary p s h k = cc

on_kind_gated :
    (k : StreamLineKind) (agent t : Text) (p : Pause) (s : Stream)
    → gates k ≡ true
    → s.approval.mode ≡ auto_deny
    → EndsIn p.kill_end (tool_of k) (on_kind agent t p k s) s
unfolding on_kind
on_kind_gated (tool_started name summary status) agent t p s h k =
    started_gated (classify_cli_tool name summary (codes "started")) agent name summary p s h k
on_kind_gated (final r) agent t p s h k = cc
on_kind_gated (cli_error e) agent t p s h k = cc
on_kind_gated (tool_observed name summary code) agent t p s h k = cc
on_kind_gated other agent t p s h k = cc

module _ (from_str : Text → Option Json) (agent : Text) where
  line_gated :
      (raw : Text) (p : Pause) (s : Stream)
      → line_gates from_str raw ≡ true
      → s.approval.mode ≡ auto_deny
      → EndsIn p.kill_end (line_tool from_str raw) (step from_str agent (line raw p) s) s
  unfolding step on_line
  line_gated raw p s h k = elim (Bool-cases (is_empty (without_line_end raw))) [
    | inl e ↦ cc (rw e at h)
    | inr e ↦ rw e (
        let (kind, ts) = classify_stream_line from_str (without_line_end raw) in
        let begun = push_deltas-Keeps ts s in
        let (t, same, keeps) =
          on_kind_gated kind agent (without_line_end raw) p (push_deltas ts s) (rw e at h)
            (ap (λ a. a.mode) begun.approval ∙ k) in
        (t, same, Keeps-trans s (push_deltas ts s) t begun keeps))
  ]

  abbrev pub lines : List (Text × Pause) → List Event
  lines [] = []
  lines ((raw, p) ∷ ls) = line raw p ∷ lines ls

  abbrev pub Ungated : List (Text × Pause) → Type 0
  Ungated ls = All (λ l. line_gates from_str l.0 ≡ false) ls

  follow_over : (r : Run) (k : Stream → Run) → IsOver r → follow from_str agent k r ≡ r
  unfolding follow
  follow_over r k (waits t) = refl
  follow_over r k (ends o t) = refl

  run_line :
      (raw : Text) (p : Pause) (later : List Event) (s : Stream)
      → line_gates from_str raw ≡ true
      → s.approval.mode ≡ auto_deny
      → run from_str agent (line raw p ∷ later) s ≡ step from_str agent (line raw p) s
  unfolding run
  run_line raw p later s h k =
      let (t, e, keeps) = line_gated raw p s h k in
      follow_over (step from_str agent (line raw p) s) (run from_str agent later)
        (rw e (end_child-IsOver p.kill_end (ok (refusal (line_tool from_str raw) auto_denied)) t))

  -- Where approvals are denied automatically, the first line that starts a gated tool ends the run.
  -- The reply is the refusal of that tool, and the child is killed; where the kill fails, the reply is
  -- the same once the child exits by itself, and there is none while it does not. What comes after that
  -- line is not read: the run is the one in which nothing comes.
  pub run-IsRefused :
      (before : List (Text × Pause)) (raw : Text) (p : Pause) (later : List Event) (s : Stream)
      → Ungated before
      → line_gates from_str raw ≡ true
      → s.approval.mode ≡ auto_deny
      → IsRefused p.kill_end
          (line_tool from_str raw)
          s
          (run from_str agent (lines before ++ line raw p ∷ later) s)
        × (run from_str agent (lines before ++ line raw p ∷ later) s
            ≡ run from_str agent (lines before ++ line raw p ∷ []) s)
  unfolding run follow
  run-IsRefused [] raw p later s ungated h k =
      let (t, e, keeps) = line_gated raw p s h k in
      (
        rw (run_line raw p later s h k ∙ e)
            (end_child-IsRefused p.kill_end (line_tool from_str raw) s t keeps),
        run_line raw p later s h k ∙ sym (run_line raw p [] s h k),
      )
  run-IsRefused ((first, q) ∷ before) raw p later s (u, ungated) h k =
      let (t, e, same) = line_ungated from_str agent first q s u in
      let (refused, unread) =
        run-IsRefused before raw p later t ungated h (ap (λ a. a.mode) same.approval ∙ k) in
      rw e (
        IsRefused-Keeps p.kill_end (line_tool from_str raw) s t
            (run from_str agent (lines before ++ line raw p ∷ later) t) same refused,
        unread,
      )
