-- ===== src/Sandbox/Dispatch/Runs.antt =====
-- The sidecar as a system of commands. While a prompt waits, other commands run, and each of them may
-- wait for others again.
use atlas_bot.Common.{Text, ◌*◌, ◌≤◌, max_u64}
use atlas_bot.Json.{Json}
use atlas_bot.Approval.{ToolApprovalMode}
use atlas_bot.Sandbox.Files.{FileSystem}
use atlas_bot.Sandbox.Agents.{Sidecar, Settings, Waits}
use atlas_bot.Sandbox.Uploads.{Given}
use atlas_bot.Sandbox.Turns.Kept.{AllKept}
use atlas_bot.Sandbox.Dispatch.{invoke}
use atlas_bot.Sandbox.Dispatch.Kept.{invoke-AllKept}
use atlas_bot.Sandbox.Start.{new_with_approval, new_with_approval-AllKept}

-- From one state to another by commands, one begun after the other. What a command finds after its
-- delay and when its reply is there is reached by commands, too.
pub data Reach {F : Type 0} (fs : FileSystem F) (c : Settings)
    : Sidecar F → Sidecar F → Type 0 where
  here : {s : Sidecar F} → Reach fs c s s
  next :
      {s t : Sidecar F}
      → Reach fs c s t
      → (w : Waits F) (g : Given) (id name : Text) (args : Json)
      → ((u : Sidecar F) → Reach fs c u (w.in_delay u))
      → ((u : Sidecar F) → Reach fs c u (w.until_reply u))
      → Reach fs c s (invoke fs c w g id name args t).1

Reach-AllKept :
    {F : Type 0} {fs : FileSystem F} {c : Settings} {s t : Sidecar F}
    → c.history_max_turns * 2 ≤ max_u64
    → Reach fs c s t
    → AllKept c s
    → AllKept c t
Reach-AllKept small here k = k
Reach-AllKept {F = F} {fs = fs} {c = c} small (next r w g id name args delay reply) k =
    invoke-AllKept c fs w g small (λ u. Reach-AllKept small (delay u))
      (λ u. Reach-AllKept small (reply u)) id name args _ (Reach-AllKept small r k)

-- In every state that a new sidecar reaches by commands, other commands running while a prompt waits
-- among them, the history of every agent is in whole turns, a prompt and its reply, and in no more of
-- them than the settings keep. The setting fits half a usize.
pub reached-AllKept :
    {F : Type 0} (fs : FileSystem F) (c : Settings) (mode : ToolApprovalMode) (f : F)
    (t : Sidecar F)
    → c.history_max_turns * 2 ≤ max_u64
    → Reach fs c (new_with_approval fs c.workspace_root mode f) t
    → AllKept c t
reached-AllKept fs c mode f t small r =
    Reach-AllKept small r (new_with_approval-AllKept fs c.workspace_root c mode f)
