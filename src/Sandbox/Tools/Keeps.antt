-- ===== src/Sandbox/Tools/Keeps.antt =====
-- What every tool of a prompt keeps: a rule for each way in which tools are put together.
use atlas_bot.Common.{
  ℕ, Text, codes, Bool, true, false, List, [], ◌∷◌, map, All, ◌⊎◌, inl, inr, ◌≡◌, refl, unwrap_or,
  contains,
}
use atlas_bot.Gateway.Types.{RuntimeHint}
use atlas_bot.Sandbox.FilePaths.{Component, components}
use atlas_bot.Sandbox.Resolve.{resolve_sandbox_path}
use atlas_bot.Sandbox.Triggers.{parse_trigger_path, parse_write_file, scan_unknown_run_commands}
use atlas_bot.Sandbox.Files.{FileSystem}
use atlas_bot.Sandbox.Tools.{
  act_at, perform, agent_dir, list_dir, read_act, run_shell, read_file, write_file, shell_cat,
  shell_mkdir, reject, tools,
}
use atlas_bot.Sandbox.Boxes.{
  Box, Meanwhile, publish, with_files, Tool, in_turn, when, each, given, report, told,
}

abbrev pub Keeps : {F : Type 0} → (Box F → Type 0) → Tool F → Type 0
Keeps {F} P t = (s : Box F) → P s → P (t s).1

module _ {F : Type 0} (P : Box F → Type 0) where
  pub in_turn-Keeps : (ts : List (Tool F)) → All (Keeps P) ts → Keeps P (in_turn ts)
  unfolding in_turn
  in_turn-Keeps [] k s p = p
  in_turn-Keeps (t ∷ ts) (k, ks) s p = in_turn-Keeps ts ks (t s).1 (k s p)

  when-Keeps : (t : Bool) (a : Tool F) → Keeps P a → Keeps P (when t a)
  unfolding when
  when-Keeps true a k s p = k s p
  when-Keeps false a k s p = p

  All-map :
      {A : Type 0} (xs : List A) (a : A → Tool F)
      → ((x : A) → Keeps P (a x))
      → All (Keeps P) (map a xs)
  All-map [] a k = tt
  All-map (x ∷ xs) a k = (k x, All-map xs a k)

  each-Keeps :
      {A : Type 0} (xs : List A) (a : A → Tool F) → ((x : A) → Keeps P (a x)) → Keeps P (each xs a)
  unfolding each
  each-Keeps xs a k = in_turn-Keeps (map a xs) (All-map xs a k)

  module _ (sends : (h : RuntimeHint) (s : Box F) → P s → P (publish h s)) where
    pub report-Keeps :
        (id name : Text) (code : ℕ) (summary : Text) → Keeps P (report id name code summary)
    unfolding report
    report-Keeps id name code summary s p = sends _ s p

    pub told-Keeps : (id name label : Text) (r : Text ⊎ Text) → Keeps P (told id name label r)
    unfolding told
    told-Keeps id name label (inl e) s p = sends _ s p
    told-Keeps id name label (inr t) s p = sends _ s p

    module _ (fs : FileSystem F) (m : Meanwhile F) (root id : Text) where
      act_at-P :
          (name label : Text) (act : List Component → F → (Text ⊎ Text) × F) (r : Text ⊎ Text)
          (s : Box F)
          → ((path : Text) → r ≡ inr path → P (with_files (act (components path) s.files).1 s))
          → P s
          → P (act_at fs m root id name label act r s).1
      unfolding act_at
      act_at-P name label act (inl e) s k p = told-Keeps id name label (inl e) s p
      act_at-P name label act (inr path) s k p =
          told-Keeps id name label (act (components path) s.files).0
            (with_files (act (components path) s.files).1 s) (k path refl)

      pub perform-Keeps :
          (name label rel : Text) (act : List Component → F → (Text ⊎ Text) × F)
          → ((path : Text) (s : Box F)
              → resolve_sandbox_path (fs.links s.files) (agent_dir fs m root id) rel ≡ inr path
              → P s
              → P (with_files (act (components path) s.files).1 s))
          → Keeps P (perform fs m root id name label rel act)
      unfolding perform
      perform-Keeps name label rel act k s p =
          act_at-P name label act
            (resolve_sandbox_path (fs.links s.files) (agent_dir fs m root id) rel) s
            (λ path at. k path s at p) p

      -- the tools that are behind no gate
      list_dir-Keeps : Keeps P (list_dir fs m root id)
      unfolding list_dir
      list_dir-Keeps s p = told-Keeps id _ _ _ s p

      run_shell-Keeps : (cmd : Text) → Keeps P (run_shell fs m root id cmd)
      unfolding run_shell
      run_shell-Keeps cmd s p = told-Keeps id _ _ _ s p

      read_file-Keeps : (rel : Text) → Keeps P (read_file fs m root id rel)
      unfolding read_file
      read_file-Keeps rel = perform-Keeps _ _ rel (read_act fs m root id rel) (λ path s at p. p)

      reject-Keeps : (x : Text × Text) → Keeps P (reject fs m root id x)
      unfolding reject
      reject-Keeps (cmd, detail) s p = report-Keeps id _ _ _ s p

      pub tools-Keeps :
          (prompt : Text)
          → ((w : Text × Text) → Keeps P (write_file fs m root id w))
          → ((rel : Text) → Keeps P (shell_cat fs m root id rel))
          → ((rel : Text) → Keeps P (shell_mkdir fs m root id rel))
          → Keeps P (in_turn (tools fs m root id prompt))
      unfolding tools
      tools-Keeps prompt writes cats mkdirs = in_turn-Keeps (tools fs m root id prompt) (
        when-Keeps (contains (codes "LIST_DIR") prompt) (list_dir fs m root id) list_dir-Keeps,
        (
          when-Keeps (contains (codes "RUN ls") prompt) (run_shell fs m root id (codes "ls"))
              (run_shell-Keeps (codes "ls")),
          (
            when-Keeps (contains (codes "RUN pwd") prompt) (run_shell fs m root id (codes "pwd"))
                (run_shell-Keeps (codes "pwd")),
            (
              each-Keeps (given (parse_trigger_path prompt (codes "READ_FILE")))
                  (read_file fs m root id) read_file-Keeps,
              (
                each-Keeps (given (parse_write_file prompt)) (write_file fs m root id) writes,
                (
                  each-Keeps (given (parse_trigger_path prompt (codes "RUN cat")))
                      (shell_cat fs m root id) cats,
                  (
                    each-Keeps (given (parse_trigger_path prompt (codes "RUN mkdir")))
                        (shell_mkdir fs m root id) mkdirs,
                    (
                      each-Keeps (unwrap_or (scan_unknown_run_commands prompt) [])
                          (reject fs m root id) reject-Keeps,
                      tt,
                    ),
                  ),
                ),
              ),
            ),
          ),
        ),
      )
