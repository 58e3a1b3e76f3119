-- ===== src/Sandbox/Files/Keeping.antt =====
-- What a write keeps: whatever the writes at its path and the directory above keep.
use atlas_bot.Common.{
  ℕ, Text, Option, none, some, List, ◌≡◌, refl, length, bytes_of, inl, inr, ltb, Bool-cases,
}
use atlas_bot.Sandbox.FilePaths.{Component, parent}
use atlas_bot.Sandbox.Files.{
  FileSystem, box_text_file_max_bytes, write_text_capped, write_behind, make_parent, written,
}

module _ {F : Type 0} (fs : FileSystem F) (Q : F → Type 0) where
  make_parent-keeps :
      (o : Option (List Component)) (f : F)
      → ((up : List Component) (g : F) → o ≡ some up → Q g → Q (fs.create_dir_all up g).1)
      → Q f
      → Q (make_parent fs o f).1
  unfolding make_parent
  make_parent-keeps none f k q = q
  make_parent-keeps (some up) f k q = k up f refl q

  written-keeps : (n : ℕ) (r : Option Text × F) → Q r.1 → Q (written fs n r).1
  unfolding written
  written-keeps n (none, f) q = q
  written-keeps n (some e, f) q = q

  write_behind-keeps :
      (path : List Component) (bytes : List ℕ) (r : Option Text × F)
      → ((g : F) → Q g → Q (fs.write path bytes g).1)
      → Q r.1
      → Q (write_behind fs path bytes r).1
  unfolding write_behind
  write_behind-keeps path bytes (none, f) k q =
      written-keeps (length bytes) (fs.write path bytes f) (k f q)
  write_behind-keeps path bytes (some e, f) k q = q

  pub write_text_capped-keeps :
      (path : List Component) (content : Text) (f : F)
      → ((bytes : List ℕ) (g : F) → Q g → Q (fs.write path bytes g).1)
      → ((up : List Component) (g : F) → parent path ≡ some up → Q g → Q (fs.create_dir_all up g).1)
      → Q f
      → Q (write_text_capped fs path content f).1
  unfolding write_text_capped
  write_text_capped-keeps path content f writes dirs q =
      elim (Bool-cases (ltb box_text_file_max_bytes (length (bytes_of content)))) [
        | inl e ↦ rw e q
        | inr e ↦ rw e (
            write_behind-keeps path (bytes_of content) (make_parent fs (parent path) f)
              (writes (bytes_of content)) (make_parent-keeps (parent path) f dirs q))
      ]
