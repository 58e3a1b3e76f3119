-- ===== src/Sandbox/Files.antt =====
-- The files of the sandbox: `list_dir_safe`, `run_allowlisted`, `read_text_capped` and
-- `write_text_capped` of crates/atlas-bot-gateway/src/box_sidecar.rs, over a file system that is a
-- parameter: its state, and what `std::fs` and the two commands answer. It sees a path by its
-- components.
pub mod Caps
pub mod Keeping
use atlas_bot.Common.{
  ℕ, ◌+◌, Text, codes, text_eq, Bool, ◌||◌, not, Option, none, some, List, [], ◌∷◌, ◌++◌, ◌⊎◌, inl,
  inr, if◌then◌else◌, ltb, length, show, trim, bytes_of, join_texts, unwrap_or,
}
use mathlib.Core.Option
use atlas_bot.Gateway.Groups.{sort}
use atlas_bot.Sandbox.FilePaths.{Component, parent}
use atlas_bot.Sandbox.Resolve.{Links}

-- `std::process::Output`; a process that a signal ends has no exit code
pub record Output : Type 0 where
  pub success : Bool
  pub code : Option ℕ
  pub stdout : Text
  pub stderr : Text

-- The file system with states `F`. An error is its text.
pub record FileSystem (F : Type 0) : Type 0 where
  pub links : F → Links
  pub metadata_len : List Component → F → Text ⊎ ℕ
  pub read : List Component → F → Text ⊎ List ℕ
  pub from_utf8 : List ℕ → Text ⊎ Text
  pub read_dir : List Component → F → Text ⊎ List Text
  pub write : List Component → List ℕ → F → Option Text × F
  pub append : List Component → Text → F → Option Text × F
  pub remove_dir_all : List Component → F → Option Text × F
  pub create_dir_all : List Component → F → Option Text × F
  pub output : Text → List Component → F → Text ⊎ Output

abbrev pub attempt : {A B : Type 0} → Text ⊎ A → (A → Text ⊎ B) → Text ⊎ B
attempt (inl e) k = inl e
attempt (inr a) k = k a

abbrev pub or_error : {A : Type 0} → (Text → Text) → Text ⊎ A → Text ⊎ A
or_error f (inl e) = inl (f e)
or_error f (inr a) = inr a

abbrev pub box_text_file_max_bytes : ℕ
box_text_file_max_bytes = 65536

pub too_long : ℕ → Text
too_long n =
    codes "text exceeds "
    ++ (show box_text_file_max_bytes ++ (codes " byte cap (got " ++ (show n ++ codes " bytes)")))

module _ {F : Type 0} (fs : FileSystem F) where
  unfoldable pub list_dir_safe : List Component → F → Text ⊎ Text
  unfolding sort join_texts
  list_dir_safe dir f =
      attempt (fs.read_dir dir f) (λ names. inr (join_texts (10 ∷ []) (sort names)))

  ended : Output → Text ⊎ Text
  unfolding trim
  ended out =
      if not out.success
      then inl (
          codes "exit "
          ++ (unwrap_or (Option.map show out.code) (codes "-1") ++ (codes ": " ++ out.stderr)))
      else inr (trim out.stdout)

  unfoldable pub run_allowlisted : List Component → Text → F → Text ⊎ Text
  unfolding ended
  run_allowlisted cwd cmd f =
      if text_eq cmd (codes "ls") || text_eq cmd (codes "pwd")
      then attempt (fs.output cmd cwd f) ended
      else inl (codes "command not on whitelist: " ++ cmd)

  unfoldable pub capped : List ℕ → Text ⊎ Text
  unfolding too_long
  capped bytes =
      if ltb box_text_file_max_bytes (length bytes)
      then inl (too_long (length bytes))
      else or_error (λ e. codes "not utf-8 text: " ++ e) (fs.from_utf8 bytes)

  unfoldable pub read_text_capped : List Component → F → Text ⊎ Text
  unfolding capped too_long
  read_text_capped path f = attempt (fs.metadata_len path f) (λ n.
      if ltb box_text_file_max_bytes n then inl (too_long n) else attempt (fs.read path f) capped)

  -- `create_dir_all` of the parent, if there is one
  make_parent : Option (List Component) → F → Option Text × F
  make_parent none f = (none, f)
  make_parent (some dir) f = fs.create_dir_all dir f

  written : ℕ → Option Text × F → (Text ⊎ ℕ) × F
  written n (none, f) = (inr n, f)
  written n (some e, f) = (inl e, f)

  write_behind : List Component → List ℕ → Option Text × F → (Text ⊎ ℕ) × F
  unfolding written
  write_behind path bytes (none, f) = written (length bytes) (fs.write path bytes f)
  write_behind path bytes (some e, f) = (inl e, f)

  unfoldable pub write_text_capped : List Component → Text → F → (Text ⊎ ℕ) × F
  unfolding write_behind make_parent too_long
  write_text_capped path content f =
      let bytes = bytes_of content in
      if ltb box_text_file_max_bytes (length bytes)
      then (inl (too_long (length bytes)), f)
      else write_behind path bytes (make_parent (parent path) f)
