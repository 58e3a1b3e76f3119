-- ===== src/Sandbox/Triggers/Scan.antt =====
-- The scan for unknown commands ends, and misses none.
use atlas_bot.Common.{
  ℕ, zero, suc, ◌+◌, ◌<◌, Text, codes, Option, none, some, List, [], ◌∷◌, ◌++◌, ◌≡◌, refl, ap, ◌∙◌,
  arith, length, strip_prefix, append-strip_prefix, after_first, length-after_first, Option-cases,
  inl, inr, some_inj,
}
use atlas_bot.Sandbox.Triggers.{reported, round, scan, scan_unknown_run_commands}

-- What stands behind the occurrences of `RUN `, at every place of the text.
noted : Option Text → List Text → List Text
noted none rest = rest
noted (some after) rest = after ∷ rest

pub runs_in : Text → List Text
unfolding noted
runs_in [] = []
runs_in (c ∷ s) = noted (strip_prefix (codes "RUN ") (c ∷ s)) (runs_in s)

pub reports : List Text → List (Text × Text)
reports [] = []
reports (after ∷ more) = reported after ++ reports more

run_length : length (codes "RUN ") ≡ 4
unfolding codes
run_length = refl

runs_in_run : (after : Text) → runs_in (codes "RUN " ++ after) ≡ after ∷ runs_in after
unfolding runs_in strip_prefix codes
runs_in_run after = refl

after_none : (s : Text) → after_first (codes "RUN ") s ≡ none → runs_in s ≡ []
unfolding after_first runs_in
after_none [] h = refl
after_none (c ∷ s) h = elim (Option-cases (strip_prefix (codes "RUN ") (c ∷ s))) [
  | inl e ↦ rw e (after_none s (rw e at h))
  | inr (after, e) ↦ cc (rw e at h)
]

no_run : strip_prefix (codes "RUN ") [] ≡ none
unfolding strip_prefix codes
no_run = refl

runs_in_skip :
    (c : ℕ) (s : Text) → strip_prefix (codes "RUN ") (c ∷ s) ≡ none → runs_in (c ∷ s) ≡ runs_in s
unfolding runs_in
runs_in_skip c s e = rw e refl

after_some :
    (s after : Text) → after_first (codes "RUN ") s ≡ some after → runs_in s ≡ after ∷ runs_in after
unfolding after_first
after_some [] after h = cc (no_run)
after_some (c ∷ s) after h = elim (Option-cases (strip_prefix (codes "RUN ") (c ∷ s))) [
  | inl e ↦ runs_in_skip c s e ∙ after_some s after (rw e at h)
  | inr (rest, e) ↦
      let same : rest ≡ after = some_inj (rw e at h) in
      let split : c ∷ s ≡ codes "RUN " ++ after =
        append-strip_prefix (codes "RUN ") (c ∷ s) after (e ∙ ap some same) in
      ap runs_in split ∙ runs_in_run after
]

scan_enough :
    (fuel : ℕ) (s : Text) (o : Option Text)
    → length s < fuel
    → after_first (codes "RUN ") s ≡ o
    → scan fuel s ≡ some (reports (runs_in s))
unfolding scan round reports
scan_enough zero s o h e = absurd (omega arith)
scan_enough (suc fuel) s none h e = rw (e, after_none s e) refl
scan_enough (suc fuel) s (some after) h e =
    rw (e, after_some s after e)
      (rw
        (scan_enough fuel after (after_first (codes "RUN ") after)
          (omega (arith, length-after_first (codes "RUN ") s after e, run_length)) refl)
        refl)

-- The scan ends on every prompt, and it reports, in order, on what stands behind each `RUN ` at any
-- place of the prompt.
pub scan_unknown_run_commands_lem :
    (prompt : Text) → scan_unknown_run_commands prompt ≡ some (reports (runs_in prompt))
unfolding scan_unknown_run_commands
scan_unknown_run_commands_lem prompt =
    scan_enough (length prompt + 1) prompt (after_first (codes "RUN ") prompt) (omega arith) refl
