-- ===== src/Sandbox/Tools/Inside.antt =====
-- The tools change files below the workspace of the agent alone.
use atlas_bot.Common.{
  ℕ, Text, codes, false, Option, none, some, List, [], ◌++◌, ◌⊎◌, inl, inr, ◌≡◌, refl, All,
  is_empty, text_eq, Bool-cases, append_nil, sym,
}
use atlas_bot.Approval.{
  Gate, ApprovalState, GateOutcome, settled, waiting, open_gate, allowed, denied, timed_out,
  auto_denied,
}
use atlas_bot.Sandbox.FilePaths.{Component, components, components-join, names_of, is_absolute}
use atlas_bot.Sandbox.Resolve.Inside.{IsName, resolve_sandbox_path-IsName}
use atlas_bot.Sandbox.Resolve.{resolve_sandbox_path}
use atlas_bot.Sandbox.Files.{FileSystem, write_text_capped}
use atlas_bot.Sandbox.Below.{IsBelow, IsAbove, on_path}
use atlas_bot.Sandbox.Files.Keeping.{write_text_capped-keeps}
use atlas_bot.Sandbox.Tools.{
  perform, opened, await_tool_approval, allowed_or, gated_tool, guarded, Act, agent_dir, entry,
  make_marker, ensure_agent_workspace, wrote, write_act, made, mkdir_act, cat_act, write_file,
  shell_cat, shell_mkdir, maybe_run_tools,
}
use atlas_bot.Sandbox.Boxes.{Box, Meanwhile, Tool}
use atlas_bot.Sandbox.Tools.Keeps.{Keeps, perform-Keeps, tools-Keeps}

module _ {F : Type 0} (fs : FileSystem F) (m : Meanwhile F) (root id : Text) (Q : F → Type 0) where
  abbrev dir : List Component
  dir = components (agent_dir fs m root id)

  -- A property of the files that no change below the workspace can break, and that what happens while
  -- a gate waits does not break.
  pub record KeptBelow : Type 0 where
    pub others : (name : Text) (s : Box F) → Q s.files → Q (m.others name s).files
    pub writes :
        (path : List Component) (bytes : List ℕ) (f : F)
        → IsBelow dir path
        → Q f
        → Q (fs.write path bytes f).1
    pub dirs :
        (path : List Component) (f : F)
        → IsBelow dir path ⊎ IsAbove dir path
        → Q f
        → Q (fs.create_dir_all path f).1

  abbrev P : Box F → Type 0
  P s = Q s.files

  module _ (loc : KeptBelow) (named : is_empty (agent_dir fs m root id) ≡ false) where
    below :
        (path rel : Text) (f : F)
        → resolve_sandbox_path (fs.links f) (agent_dir fs m root id) rel ≡ inr path
        → IsBelow dir (components path)
    below path rel f h =
        resolve_sandbox_path-IsName (fs.links f) (agent_dir fs m root id) named rel path h

    opened-P :
        (name detail : Text) (g : Gate × ApprovalState) (s : Box F)
        → P s
        → P (opened fs m root id name detail g s).1
    unfolding opened
    opened-P name detail (settled o, a) s q = q
    opened-P name detail (waiting gid, a) s q = loc.others name _ q

    await-P :
        (name detail : Text) (s : Box F)
        → P s
        → P (await_tool_approval fs m root id name detail s).1
    unfolding await_tool_approval
    await-P name detail s q =
        opened-P name detail
          (open_gate (codes "appr_" ++ m.uuid name)
            (record { agent_id = id; tool = name; summary = detail }) s.approval)
          s q

    allowed_or-P :
        (name refusal : Text) (tool : Tool F) (r : GateOutcome × Box F)
        → Keeps P tool
        → P r.1
        → P (allowed_or fs m root id name refusal tool r).1
    unfolding allowed_or
    allowed_or-P name refusal tool (allowed, s) k q = k s q
    allowed_or-P name refusal tool (denied, s) k q = q
    allowed_or-P name refusal tool (timed_out, s) k q = q
    allowed_or-P name refusal tool (auto_denied, s) k q = q

    gated-Keeps :
        (name detail refusal : Text) (tool : Tool F)
        → Keeps P tool
        → Keeps P (gated_tool fs m root id name detail refusal tool)
    unfolding gated_tool
    gated-Keeps name detail refusal tool k s q =
        allowed_or-P name refusal tool (await_tool_approval fs m root id name detail s) k
          (await-P name detail s q)

    wrote-Q : (rel : Text) (r : (Text ⊎ ℕ) × F) → Q r.1 → Q (wrote fs m root id rel r).1
    unfolding wrote
    wrote-Q rel (r, f) q = q

    made-Q : (rel : Text) (r : Option Text × F) → Q r.1 → Q (made fs m root id rel r).1
    unfolding made
    made-Q rel (none, f) q = q
    made-Q rel (some e, f) q = q

    guarded-Keeps :
        (name detail refusal label rel : Text) (act : Act fs m root id)
        → ((path : Text) (f : F)
            → IsBelow dir (components path)
            → Q f
            → Q (act (components path) f).1)
        → Keeps P (guarded fs m root id name detail refusal label rel act)
    unfolding guarded
    guarded-Keeps name detail refusal label rel act k =
        gated-Keeps name detail refusal (perform fs m root id name label rel act) (
          perform-Keeps P (λ h s q. q) fs m root id name label rel act
            (λ path s at q. k path s.files (below path rel s.files at) q))

    write_act-Q :
        (rel content path : Text) (f : F)
        → IsBelow dir (components path)
        → Q f
        → Q (write_act fs m root id rel content (components path) f).1
    unfolding write_act
    write_act-Q rel content path f b q =
        wrote-Q rel (write_text_capped fs (components path) content f) (
          write_text_capped-keeps fs Q (components path) content f
            (λ bytes g. loc.writes (components path) bytes g b)
            (λ up g e. loc.dirs up g (on_path dir (components path) up b e)) q)

    mkdir_act-Q :
        (rel path : Text) (f : F)
        → IsBelow dir (components path)
        → Q f
        → Q (mkdir_act fs m root id rel (components path) f).1
    unfolding mkdir_act
    mkdir_act-Q rel path f b q =
        made-Q rel (fs.create_dir_all (components path) f) (loc.dirs (components path) f (inl b) q)

    write_file-Keeps : (w : Text × Text) → Keeps P (write_file fs m root id w)
    unfolding write_file
    write_file-Keeps (rel, content) =
        guarded-Keeps (codes "write_file") (codes "WRITE_FILE " ++ rel)
          (codes "tool:write_file path=" ++ rel) (codes "tool:write_file") rel
          (write_act fs m root id rel content) (write_act-Q rel content)

    shell_cat-Keeps : (rel : Text) → Keeps P (shell_cat fs m root id rel)
    unfolding shell_cat
    shell_cat-Keeps rel =
        guarded-Keeps (codes "shell_cat") (codes "RUN cat " ++ rel)
          (codes "tool:shell cmd=cat path=" ++ rel) (codes "tool:shell cmd=cat") rel
          (cat_act fs m root id rel) (λ path f b q. q)

    shell_mkdir-Keeps : (rel : Text) → Keeps P (shell_mkdir fs m root id rel)
    unfolding shell_mkdir
    shell_mkdir-Keeps rel =
        guarded-Keeps (codes "shell_mkdir") (codes "RUN mkdir " ++ rel)
          (codes "tool:shell cmd=mkdir path=" ++ rel) (codes "tool:shell cmd=mkdir") rel
          (mkdir_act fs m root id rel) (mkdir_act-Q rel)

    entry-IsBelow :
        (name : Text)
        → is_absolute name ≡ false
        → All IsName (names_of name)
        → IsBelow dir (entry fs m root id name)
    unfolding entry
    entry-IsBelow name rel all =
        (names_of name, components-join (agent_dir fs m root id) name named rel, all)

    marker-IsBelow : IsBelow dir (entry fs m root id (codes ".box-sidecar"))
    unfolding is_absolute names_of codes text_eq
    marker-IsBelow = entry-IsBelow (codes ".box-sidecar") refl (tt, tt)

    uploads-IsBelow : IsBelow dir (entry fs m root id (codes "uploads"))
    unfolding is_absolute names_of codes text_eq
    uploads-IsBelow = entry-IsBelow (codes "uploads") refl (tt, tt)

    make_marker-Q : (f : F) → Q f → Q (make_marker fs m root id f)
    unfolding make_marker
    make_marker-Q f q =
        elim (Bool-cases ((fs.links f).exists (entry fs m root id (codes ".box-sidecar")))) [
          | inl e ↦ rw e q
          | inr e ↦ rw e (loc.writes _ _ f marker-IsBelow q)
        ]

    ensure-Q : (f : F) → Q f → Q (ensure_agent_workspace fs m root id f)
    unfolding ensure_agent_workspace
    ensure-Q f q =
        make_marker-Q _ (
          loc.dirs _ _ (inl uploads-IsBelow)
            (loc.dirs dir f (inl ([], sym (append_nil dir), tt)) q))

    -- The tools of a prompt change the files in the workspace of the agent alone: what no write and no
    -- new directory below the workspace breaks, nor a new directory on the way to it, holds after the
    -- tools if it held before. What runs while a gate waits keeps it, and the workspace is named.
    pub maybe_run_tools-P :
        (prompt : Text) (s : Box F) → Q s.files → Q (maybe_run_tools fs m root id prompt s).1.files
    unfolding maybe_run_tools
    maybe_run_tools-P prompt s q =
        tools-Keeps P (λ h s q. q) fs m root id prompt write_file-Keeps shell_cat-Keeps
          shell_mkdir-Keeps _ (ensure-Q s.files q)
