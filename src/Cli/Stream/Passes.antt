-- ===== src/Cli/Stream/Passes.antt =====
-- The lines that the gate is not for.
use atlas_bot.Common.{
  Text, codes, Bool, true, false, Option, none, some, List, [], ◌∷◌, ◌++◌, ◌≡◌, refl, ◌∙◌, arith,
  inl, inr, Bool-cases, is_empty, if◌then◌else◌,
}
use atlas_bot.Json.{Json}
use atlas_bot.Approval.{CliToolGateClass, gated, exempt, observe_only, classify_cli_tool}
use atlas_bot.Cli.Lines.{
  StreamLineKind, final, cli_error, tool_started, tool_observed, other, classify_stream_line,
  without_line_end,
}
use atlas_bot.Cli.Stream.{
  line, Pause, Stream, Run, running, push_deltas, emit_delta, emit_tool, started, plain_line,
  on_kind, on_line, step,
}

-- whether a line starts a tool that the gate is for
abbrev pub is_gated : CliToolGateClass → Bool
is_gated gated = true
is_gated _ = false

abbrev pub gates : StreamLineKind → Bool
gates (tool_started name summary status) =
    is_gated (classify_cli_tool name summary (codes "started"))
gates _ = false

abbrev pub line_gates : (Text → Option Json) → Text → Bool
line_gates from_str raw =
    if is_empty (without_line_end raw)
    then false
    else gates (classify_stream_line from_str (without_line_end raw)).0

-- The gates are as they were, and so is whether the child was killed.
pub record Keeps (s t : Stream) : Type 0 where
  pub approval : t.approval ≡ s.approval
  pub killed : t.killed ≡ s.killed

pub Keeps-refl : (s : Stream) → Keeps s s
Keeps-refl s = record { approval = refl; killed = refl }

pub Keeps-trans : (s t u : Stream) → Keeps s t → Keeps t u → Keeps s u
Keeps-trans s t u h k = record { approval = k.approval ∙ h.approval; killed = k.killed ∙ h.killed }

emit_delta-Keeps : (t : Text) (s : Stream) → Keeps s (emit_delta t s)
unfolding emit_delta
emit_delta-Keeps t s = record { approval = ground arith; killed = ground arith }

pub push_deltas-Keeps : (ts : List Text) (s : Stream) → Keeps s (push_deltas ts s)
unfolding push_deltas
push_deltas-Keeps [] s = Keeps-refl s
push_deltas-Keeps (t ∷ ts) s =
    let h = emit_delta-Keeps t s in
    let next = record (emit_delta t s) { deltas = s.deltas ++ t ∷ [] } in
    Keeps-trans s next (push_deltas ts next) (record { approval = h.approval; killed = h.killed })
      (push_deltas-Keeps ts next)

plain_line-Keeps : (t : Text) (s : Stream) → Keeps s (plain_line t s)
unfolding plain_line
plain_line-Keeps t s = record { approval = ground arith; killed = ground arith }

-- The loop goes on.
abbrev pub GoesOn : Run → Stream → Type 0
GoesOn r s = (t : Stream) × (r ≡ running t) × Keeps s t

started_ungated :
    (c : CliToolGateClass) (agent name summary : Text) (p : Pause) (s : Stream)
    → is_gated c ≡ false
    → GoesOn (started c agent name summary p s) s
unfolding started
started_ungated gated agent name summary p s h = cc
started_ungated exempt agent name summary p s h =
    (emit_tool name summary none s, refl, record { approval = refl; killed = refl })
started_ungated observe_only agent name summary p s h =
    (emit_tool name summary none s, refl, record { approval = refl; killed = refl })

on_kind_ungated :
    (k : StreamLineKind) (agent t : Text) (p : Pause) (s : Stream)
    → gates k ≡ false
    → GoesOn (on_kind agent t p k s) s
unfolding on_kind
on_kind_ungated (final r) agent t p s h =
    (record s { final_from_result = some r }, refl, record { approval = refl; killed = refl })
on_kind_ungated (cli_error e) agent t p s h =
    (record s { error = some e }, refl, record { approval = refl; killed = refl })
on_kind_ungated (tool_observed name summary code) agent t p s h =
    (emit_tool name summary code s, refl, record { approval = refl; killed = refl })
on_kind_ungated (tool_started name summary status) agent t p s h =
    started_ungated (classify_cli_tool name summary (codes "started")) agent name summary p s h
on_kind_ungated other agent t p s h = (plain_line t s, refl, plain_line-Keeps t s)

module _ (from_str : Text → Option Json) (agent : Text) where
  pub line_ungated :
      (raw : Text) (p : Pause) (s : Stream)
      → line_gates from_str raw ≡ false
      → GoesOn (step from_str agent (line raw p) s) s
  unfolding step on_line
  line_ungated raw p s h = elim (Bool-cases (is_empty (without_line_end raw))) [
    | inl e ↦ rw e (s, refl, Keeps-refl s)
    | inr e ↦ rw e (
        let (k, ts) = classify_stream_line from_str (without_line_end raw) in
        let (t, runs, same) =
          on_kind_ungated k agent (without_line_end raw) p (push_deltas ts s) (rw e at h) in
        (t, runs, Keeps-trans s (push_deltas ts s) t (push_deltas-Keeps ts s) same))
  ]
