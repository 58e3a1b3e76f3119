-- ===== src/Sandbox/Tools/Denied.antt =====
-- Where approvals are denied automatically, no gated tool touches the files.
use atlas_bot.Common.{Text, codes, ◌++◌, ◌≡◌, refl, ap, ◌∙◌}
use atlas_bot.Approval.{ApprovalState, auto_deny, auto_denied}
use atlas_bot.Approval.Gates.{open_gate-auto_deny}
use atlas_bot.Sandbox.Files.{FileSystem}
use atlas_bot.Sandbox.Tools.{
  opened, await_tool_approval, allowed_or, gated_tool, guarded, Act, ensure_agent_workspace,
  write_file, write_act, shell_cat, cat_act, shell_mkdir, mkdir_act, maybe_run_tools,
}
use atlas_bot.Sandbox.Boxes.{Box, Meanwhile, with_files}
use atlas_bot.Sandbox.Tools.Keeps.{Keeps, tools-Keeps}

module _ {F : Type 0} (fs : FileSystem F) (m : Meanwhile F) (root id : Text) where
  abbrev P : F → ApprovalState → Box F → Type 0
  P f a s = (s.files ≡ f) × (s.approval ≡ a)

  await-auto_deny :
      (name detail : Text) (s : Box F)
      → s.approval.mode ≡ auto_deny
      → await_tool_approval fs m root id name detail s ≡ (auto_denied, s)
  unfolding await_tool_approval opened
  await-auto_deny name detail s h =
      ap (λ g. opened fs m root id name detail g s)
        (open_gate-auto_deny (codes "appr_" ++ m.uuid name)
          (record { agent_id = id; tool = name; summary = detail }) s.approval h)

  module _ (f : F) (a : ApprovalState) (h : a.mode ≡ auto_deny) where
    guarded-Keeps :
        (name detail refusal label rel : Text) (act : Act fs m root id)
        → Keeps (P f a) (guarded fs m root id name detail refusal label rel act)
    unfolding guarded gated_tool allowed_or
    guarded-Keeps name detail refusal label rel act s (e, e') =
        rw (await-auto_deny name detail s (ap (λ b. b.mode) e' ∙ h)) (e, e')

    write_file-Keeps : (w : Text × Text) → Keeps (P f a) (write_file fs m root id w)
    unfolding write_file
    write_file-Keeps (rel, content) =
        guarded-Keeps (codes "write_file") (codes "WRITE_FILE " ++ rel)
          (codes "tool:write_file path=" ++ rel) (codes "tool:write_file") rel
          (write_act fs m root id rel content)

    shell_cat-Keeps : (rel : Text) → Keeps (P f a) (shell_cat fs m root id rel)
    unfolding shell_cat
    shell_cat-Keeps rel =
        guarded-Keeps (codes "shell_cat") (codes "RUN cat " ++ rel)
          (codes "tool:shell cmd=cat path=" ++ rel) (codes "tool:shell cmd=cat") rel
          (cat_act fs m root id rel)

    shell_mkdir-Keeps : (rel : Text) → Keeps (P f a) (shell_mkdir fs m root id rel)
    unfolding shell_mkdir
    shell_mkdir-Keeps rel =
        guarded-Keeps (codes "shell_mkdir") (codes "RUN mkdir " ++ rel)
          (codes "tool:shell cmd=mkdir path=" ++ rel) (codes "tool:shell cmd=mkdir") rel
          (mkdir_act fs m root id rel)

  -- Where approvals are denied automatically, the tools of any prompt leave the files as they are once
  -- the workspace of the agent is there, and leave the gates as they were.
  pub maybe_run_tools-auto_deny :
      (prompt : Text) (s : Box F)
      → s.approval.mode ≡ auto_deny
      → ((maybe_run_tools fs m root id prompt s).1.files
          ≡ ensure_agent_workspace fs m root id s.files)
        × ((maybe_run_tools fs m root id prompt s).1.approval ≡ s.approval)
  unfolding maybe_run_tools
  maybe_run_tools-auto_deny prompt s h =
      let f = ensure_agent_workspace fs m root id s.files in
      tools-Keeps (P f s.approval) (λ k t p. p) fs m root id prompt
        (write_file-Keeps f s.approval h) (shell_cat-Keeps f s.approval h)
        (shell_mkdir-Keeps f s.approval h) (with_files f s) (refl, refl)
