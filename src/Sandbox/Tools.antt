-- ===== src/Sandbox/Tools.antt =====
-- The tools of a prompt: `ensure_agent_workspace`, `emit_tool_hint`, `await_tool_approval` and
-- `maybe_run_tools` of crates/atlas-bot-gateway/src/box_sidecar.rs.
pub mod Keeps
pub mod Inside
pub mod Denied
use atlas_bot.Common.{
  ℕ, Text, codes, not, Option, none, some, List, [], ◌∷◌, ◌++◌, ◌⊎◌, inl, inr, if◌then◌else◌,
  contains, show, length, bytes_of, join_texts, unwrap_or,
}
use atlas_bot.Gateway.Types.{RuntimeHint}
use atlas_bot.Approval.{
  ApprovalState, Gate, settled, waiting, GateOutcome, open_gate, close_gate, reason, is_allow,
  format_pending_summary,
}
use atlas_bot.Sandbox.FilePaths.{Component, components, join}
use atlas_bot.Sandbox.Resolve.{resolve_sandbox_path}
use atlas_bot.Sandbox.Triggers.{parse_trigger_path, parse_write_file, scan_unknown_run_commands}
use atlas_bot.Sandbox.Files.{
  FileSystem, attempt, list_dir_safe, run_allowlisted, read_text_capped, write_text_capped,
}
use atlas_bot.Sandbox.Boxes.{
  Box, Meanwhile, publish, with_files, Tool, in_turn, when, each, given, report, told,
}

module _ {F : Type 0} (fs : FileSystem F) (m : Meanwhile F) (root id : Text) where
  unfoldable pub agent_dir : Text
  unfolding join
  agent_dir = join root id

  entry : Text → List Component
  unfolding components join
  entry name = components (join agent_dir name)

  make_marker : F → F
  unfolding entry
  make_marker f =
      if (fs.links f).exists (entry (codes ".box-sidecar"))
      then f
      else (fs.write (entry (codes ".box-sidecar")) (bytes_of (codes "agent=" ++ (id ++ 10 ∷ [])))
          f).1

  unfoldable pub ensure_agent_workspace : F → F
  unfolding make_marker
  ensure_agent_workspace f =
      make_marker
        (fs.create_dir_all (entry (codes "uploads"))
          (fs.create_dir_all (components agent_dir) f).1).1

  -- the pending hint, the wait, and the outcome
  opened : Text → Text → Gate × ApprovalState → Box F → GateOutcome × Box F
  unfolding format_pending_summary close_gate
  opened name detail (settled o, a) s = (o, record s { approval = a })
  opened name detail (waiting gid, a) s =
      let hint =
        RuntimeHint.tool id (codes "approval_pending") (format_pending_summary gid name detail)
          none in
      let s1 = m.others name (publish hint (record s { approval = a })) in
      let (o, a') = close_gate (m.wake name) gid s1.approval in (o, record s1 { approval = a' })

  unfoldable pub await_tool_approval : Text → Text → Box F → GateOutcome × Box F
  unfolding opened open_gate
  await_tool_approval name detail s =
      opened name detail
        (open_gate (codes "appr_" ++ m.uuid name)
          (record { agent_id = id; tool = name; summary = detail }) s.approval)
        s

  -- an action on the files at a path that the sandbox resolves
  abbrev pub Act : Type 0
  Act = List Component → F → (Text ⊎ Text) × F

  act_at : Text → Text → Act → Text ⊎ Text → Tool F
  unfolding told
  act_at name label act (inl e) s = told id name label (inl e) s
  act_at name label act (inr path) s =
      let (r, f) = act (components path) s.files in told id name label r (with_files f s)

  unfoldable pub perform : Text → Text → Text → Act → Tool F
  unfolding act_at
  perform name label rel act s =
      act_at name label act (resolve_sandbox_path (fs.links s.files) agent_dir rel) s

  allowed_or : Text → Text → Tool F → GateOutcome × Box F → List Text × Box F
  unfolding report reason
  allowed_or name refusal tool (o, s) =
      if is_allow o
      then tool s
      else report id name 1
          (codes "["
            ++ (refusal ++ (codes " error] " ++ (reason o ++ codes " (no workspace side effect)"))))
          s

  -- a tool behind a gate; without an allow it only reports the refusal
  unfoldable pub gated_tool : Text → Text → Text → Tool F → Tool F
  unfolding allowed_or await_tool_approval
  gated_tool name detail refusal tool s =
      allowed_or name refusal tool (await_tool_approval name detail s)

  -- the gate, and behind it an action at a path
  unfoldable pub guarded : Text → Text → Text → Text → Text → Act → Tool F
  unfolding gated_tool perform
  guarded name detail refusal label rel act =
      gated_tool name detail refusal (perform name label rel act)

  unfoldable pub list_dir : Tool F
  unfolding told list_dir_safe
  list_dir s =
      told id (codes "list_dir") (codes "tool:list_dir")
        (attempt (list_dir_safe fs (components agent_dir) s.files)
          (λ listing. inr (codes "[tool:list_dir cwd=" ++ (agent_dir ++ (codes "]\n" ++ listing)))))
        s

  unfoldable pub run_shell : Text → Tool F
  unfolding told run_allowlisted
  run_shell cmd s =
      told id (codes "shell_" ++ cmd) (codes "tool:shell cmd=" ++ cmd)
        (attempt (run_allowlisted fs (components agent_dir) cmd s.files) (λ out. inr (
          codes "[tool:shell cmd="
          ++ (cmd ++ (codes " cwd=" ++ (agent_dir ++ (codes "]\n" ++ out)))))))
        s

  unfoldable pub read_act : Text → Act
  unfolding read_text_capped
  read_act rel path f = (
    attempt (read_text_capped fs path f) (λ body. inr (
        codes "[tool:read_file path="
        ++ (rel ++ (codes " bytes=" ++ (show (length (bytes_of body)) ++ (codes "]\n" ++ body)))))),
    f,
  )

  unfoldable pub read_file : Text → Tool F
  unfolding perform read_act
  read_file rel = perform (codes "read_file") (codes "tool:read_file") rel (read_act rel)

  wrote : Text → (Text ⊎ ℕ) × F → (Text ⊎ Text) × F
  wrote rel (r, f) = (
    attempt r (λ n. inr (
        codes "[tool:write_file path="
        ++ (rel ++ (codes " bytes=" ++ (show n ++ codes " approval=allow] wrote ok"))))),
    f,
  )

  unfoldable pub write_act : Text → Text → Act
  unfolding wrote write_text_capped
  write_act rel content path f = wrote rel (write_text_capped fs path content f)

  unfoldable pub write_file : Text × Text → Tool F
  unfolding guarded write_act
  write_file (rel, content) =
      guarded (codes "write_file") (codes "WRITE_FILE " ++ rel)
        (codes "tool:write_file path=" ++ rel) (codes "tool:write_file") rel (write_act rel content)

  unfoldable pub cat_act : Text → Act
  unfolding read_text_capped
  cat_act rel path f = (
    attempt (read_text_capped fs path f) (λ body.
        inr (codes "[tool:shell cmd=cat path=" ++ (rel ++ (codes " approval=allow]\n" ++ body)))),
    f,
  )

  unfoldable pub shell_cat : Text → Tool F
  unfolding guarded cat_act
  shell_cat rel =
      guarded (codes "shell_cat") (codes "RUN cat " ++ rel)
        (codes "tool:shell cmd=cat path=" ++ rel) (codes "tool:shell cmd=cat") rel (cat_act rel)

  made : Text → Option Text × F → (Text ⊎ Text) × F
  made rel (none, f) =
      (inr (codes "[tool:shell cmd=mkdir path=" ++ (rel ++ codes " approval=allow] ok")), f)
  made rel (some e, f) = (inl e, f)

  unfoldable pub mkdir_act : Text → Act
  unfolding made
  mkdir_act rel path f = made rel (fs.create_dir_all path f)

  unfoldable pub shell_mkdir : Text → Tool F
  unfolding guarded mkdir_act
  shell_mkdir rel =
      guarded (codes "shell_mkdir") (codes "RUN mkdir " ++ rel)
        (codes "tool:shell cmd=mkdir path=" ++ rel) (codes "tool:shell cmd=mkdir") rel
        (mkdir_act rel)

  unfoldable pub reject : Text × Text → Tool F
  unfolding report
  reject (cmd, detail) = report id (codes "shell_reject") 1 (
      codes "[tool:shell error] command not on whitelist: "
      ++ (cmd ++ (codes " (" ++ (detail ++ codes ")"))))

  unfoldable pub tools : Text → List (Tool F)
  unfolding when each
  tools prompt =
      when (contains (codes "LIST_DIR") prompt) list_dir
      ∷ when (contains (codes "RUN ls") prompt) (run_shell (codes "ls"))
      ∷ when (contains (codes "RUN pwd") prompt) (run_shell (codes "pwd"))
      ∷ each (given (parse_trigger_path prompt (codes "READ_FILE"))) read_file
      ∷ each (given (parse_write_file prompt)) write_file
      ∷ each (given (parse_trigger_path prompt (codes "RUN cat"))) shell_cat
      ∷ each (given (parse_trigger_path prompt (codes "RUN mkdir"))) shell_mkdir
      ∷ each (unwrap_or (scan_unknown_run_commands prompt) []) reject
      ∷ []

  evidence : List Text → Option Text
  unfolding join_texts
  evidence [] = none
  evidence (e ∷ es) = some (join_texts (10 ∷ []) (e ∷ es))

  unfoldable pub maybe_run_tools : Text → Box F → Option Text × Box F
  unfolding evidence tools in_turn ensure_agent_workspace
  maybe_run_tools prompt s =
      let (es, s') = in_turn (tools prompt) (with_files (ensure_agent_workspace s.files) s) in
      (evidence es, s')
