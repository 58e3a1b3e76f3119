-- ===== src/Sandbox/Boxes.antt =====
-- What the tools of crates/atlas-bot-gateway/src/box_sidecar.rs change, how one follows another, and
-- the hint and the evidence of each: `emit_tool_hint` and the evidences of `maybe_run_tools`.
use atlas_bot.Common.{
  ℕ, Text, codes, Bool, true, false, Option, none, some, List, [], ◌∷◌, ◌++◌, map, ◌⊎◌, inl, inr,
}
use atlas_bot.Gateway.Types.{RuntimeHint, plus}
use atlas_bot.Approval.{ApprovalState, Wake}

-- The state that the tools change: the files, the gates, and the hints that were published.
pub record Box (F : Type 0) : Type 0 where
  pub files : F
  pub approval : ApprovalState
  pub sent : List RuntimeHint

-- What happens while the gate of a tool waits, by the tool's name: the UUID of the gate, the other
-- handlers that run, and what wakes it.
pub record Meanwhile (F : Type 0) : Type 0 where
  pub uuid : Text → Text
  pub others : Text → Box F → Box F
  pub wake : Text → Wake

abbrev pub publish : {F : Type 0} → RuntimeHint → Box F → Box F
publish hint s = record s { sent = s.sent ++ hint ∷ [] }

abbrev pub with_files : {F : Type 0} → F → Box F → Box F
with_files f s = record s { files = f }

-- A tool adds its evidences to those of the turn.
abbrev pub Tool : Type 0 → Type 0
Tool F = Box F → List Text × Box F

abbrev pub nothing : {F : Type 0} → Tool F
nothing s = ([], s)

-- one tool after another
unfoldable pub in_turn : {F : Type 0} → List (Tool F) → Tool F
in_turn [] s = ([], s)
in_turn (t ∷ ts) s = let (xs, s1) = t s in let (ys, s2) = in_turn ts s1 in (xs ++ ys, s2)

unfoldable pub when : {F : Type 0} → Bool → Tool F → Tool F
when true a = a
when false a = nothing

unfoldable pub each : {F A : Type 0} → List A → (A → Tool F) → Tool F
unfolding in_turn
each xs a = in_turn (map a xs)

abbrev pub given : {A : Type 0} → Option A → List A
given none = []
given (some a) = a ∷ []

-- a summary as a hint and as an evidence
unfoldable pub report : {F : Type 0} → Text → Text → ℕ → Text → Tool F
report id name code summary s =
    (summary ∷ [], publish (RuntimeHint.tool id name summary (some (plus code))) s)

-- with exit code 0 for a success and 1 for an error
unfoldable pub told : {F : Type 0} → Text → Text → Text → Text ⊎ Text → Tool F
unfolding report
told id name label (inl e) = report id name 1 (codes "[" ++ (label ++ (codes " error] " ++ e)))
told id name label (inr summary) = report id name 0 summary
