-- ===== src/Sandbox/Resolve.antt =====
-- `resolve_sandbox_path` of crates/atlas-bot-gateway/src/box_sidecar.rs. The file system answers
-- two questions, which paths exist and what they are behind their links.
pub mod Inside
use atlas_bot.Common.{
  Text, codes, Bool, ◌&&◌, not, Option, none, some, List, [], ◌∷◌, ◌++◌, ◌⊎◌, inl, inr,
  if◌then◌else◌, is_empty, trim, unwrap_or,
}
use atlas_bot.Sandbox.FilePaths.{
  Component, root_dir, cur_dir, parent_dir, normal, components, is_absolute, join, begins, parent,
  file_name,
}

-- `Path::exists` and `std::fs::canonicalize`, of a path by its components
pub record Links : Type 0 where
  pub exists : List Component → Bool
  pub canonicalize : List Component → Option (List Component)

-- the loop over the components: the error of the first that is refused
unfoldable pub refused : Text → List Component → Option Text
refused rel [] = none
refused rel (normal s ∷ cs) = refused rel cs
refused rel (cur_dir ∷ cs) = refused rel cs
refused rel (parent_dir ∷ cs) = some (codes "path escape rejected (..): " ++ rel)
refused rel (root_dir ∷ cs) = some (codes "absolute path rejected: " ++ rel)

pub real : Links → List Component → List Component
real v cs = unwrap_or (v.canonicalize cs) cs

behind : Links → List Component → Option (List Component) → List Component
unfolding real
behind v joined none = joined
behind v joined (some up) = (if v.exists up then real v up else up) ++ file_name joined

-- the place behind the links, as far as the path exists
pub candidate : Links → List Component → List Component
unfolding real behind
candidate v joined = if v.exists joined then real v joined else behind v joined (parent joined)

unfoldable pub within : Links → Text → Text → Text ⊎ Text
unfolding real candidate
within v cwd rel =
    let joined = components (join cwd rel) in
    if not (begins (real v (components cwd)) (candidate v joined))
      && not (begins (components cwd) joined)
    then inl (codes "path escapes workspace: " ++ rel)
    else inr (join cwd rel)

unfoldable pub checked : Links → Text → Text → Option Text → Text ⊎ Text
unfolding within
checked v cwd rel (some e) = inl e
checked v cwd rel none = within v cwd rel

-- an error, or the path in the workspace
unfoldable pub resolve_sandbox_path : Links → Text → Text → Text ⊎ Text
unfolding checked refused
resolve_sandbox_path v cwd raw =
    let rel = trim raw in
    if is_empty rel
    then inl (codes "empty relative path")
    else if is_absolute rel
    then inl (codes "absolute path rejected: " ++ rel)
    else checked v cwd rel (refused rel (components rel))
