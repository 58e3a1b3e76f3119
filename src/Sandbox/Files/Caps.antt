-- ===== src/Sandbox/Files/Caps.antt =====
-- The cap on the texts that the sandbox reads and writes.
use atlas_bot.Common.{
  ℕ, ◌≤◌, Text, List, ◌⊎◌, inl, inr, ◌≡◌, refl, arith, length, bytes_of, Bool-cases, ltb, ◌<◌,
  if◌then◌else◌,
}
use atlas_bot.Sandbox.FilePaths.{Component}
use atlas_bot.Sandbox.Files.{
  FileSystem, attempt, box_text_file_max_bytes, read_text_capped, write_text_capped, capped,
  or_error, too_long,
}

attempt_inv :
    {A B : Type 0} (r : Text ⊎ A) (k : A → Text ⊎ B) {b : B}
    → attempt r k ≡ inr b
    → (a : A) × (r ≡ inr a) × (k a ≡ inr b)
attempt_inv (inl e) k h = cc
attempt_inv (inr a) k h = (a, refl, h)

or_error_inv :
    {A : Type 0} (g : Text → Text) (r : Text ⊎ A) {a : A} → or_error g r ≡ inr a → r ≡ inr a
or_error_inv g (inl e) h = cc
or_error_inv g (inr b) h = h

module _ {F : Type 0} (fs : FileSystem F) where
  capped_inv :
      (bytes : List ℕ) (text : Text)
      → capped fs bytes ≡ inr text
      → (fs.from_utf8 bytes ≡ inr text) × (length bytes ≤ box_text_file_max_bytes)
  unfolding capped
  capped_inv bytes text h = elim (Bool-cases (ltb box_text_file_max_bytes (length bytes))) [
    | inl e ↦ cc (rw e at h)
    | inr e ↦ (or_error_inv _ (fs.from_utf8 bytes) (rw e at h), ground arith)
  ]

  after_metadata :
      (path : List Component) (f : F) (text : Text) (n : ℕ)
      → (if ltb box_text_file_max_bytes n
          then inl (too_long n)
          else attempt (fs.read path f) (capped fs))
        ≡ inr text
      → attempt (fs.read path f) (capped fs) ≡ inr text
  after_metadata path f text n h = elim (Bool-cases (ltb box_text_file_max_bytes n)) [
    | inl e ↦ cc (rw e at h)
    | inr e ↦ rw e at h
  ]

  -- What is read as text are the bytes of the file, no more than 64 KiB of them, decoded.
  pub read_text_capped-le :
      (path : List Component) (f : F) (text : Text)
      → read_text_capped fs path f ≡ inr text
      → (bytes : List ℕ) × (fs.read path f ≡ inr bytes)
        × (fs.from_utf8 bytes ≡ inr text)
        × (length bytes ≤ box_text_file_max_bytes)
  unfolding read_text_capped
  read_text_capped-le path f text h =
      let (n, _, later) = attempt_inv (fs.metadata_len path f) _ h in
      let (bytes, got, rest) =
        attempt_inv (fs.read path f) (capped fs) (after_metadata path f text n later) in
      let (decoded, small) = capped_inv bytes text rest in (bytes, got, decoded, small)

  -- A text of more than 64 KiB is not written: the files stay as they were, also their directories.
  pub write_text_capped-large :
      (path : List Component) (content : Text) (f : F)
      → box_text_file_max_bytes < length (bytes_of content)
      → write_text_capped fs path content f ≡ (inl (too_long (length (bytes_of content))), f)
  unfolding write_text_capped
  write_text_capped-large path content f h = ground arith
