-- ===== src/Sandbox/Uploads.antt =====
-- Attachments of the sidecar: `upload_attachment`, `attach_upload` and `sweep_expired_uploads` of
-- crates/atlas-bot-gateway/src/box_sidecar.rs.
use atlas_bot.Common.{
  ℕ, Text, codes, Bool, true, false, Option, none, some, List, [], ◌∷◌, ◌++◌, ◌⊎◌, inl, inr, Dict,
  get, insert, remove, length, bytes_of,
}
use atlas_bot.Json.{Json, str, object, get_nonempty}
use atlas_bot.Gateway.Types.{
  Result, ok, err, ok_or, invalid_args, upstream, UploadRecord, UploadMeta, Host, to_meta,
}
use atlas_bot.Gateway.Uploads.{is_expired, read_upload, attachment}
use atlas_bot.Sandbox.FilePaths.{components, join, parent}
use atlas_bot.Sandbox.Files.{FileSystem}
use atlas_bot.Sandbox.Tools.{agent_dir}
use atlas_bot.Sandbox.Boxes.{with_files}
use atlas_bot.Sandbox.Agents.{Sidecar, Settings, Waits}
use atlas_bot.Sandbox.Commands.{given_ok, make_workspace}

-- What a command is given beside what a prompt is: the host, the print of the meta data of an upload,
-- and whether the receiver of a cancel channel is still there.
pub record Given : Type 0 where
  pub host : Host
  pub print_meta : UploadMeta → Text ⊎ Text
  pub listens : ℕ → Bool

module _ {F : Type 0} (fs : FileSystem F) (c : Settings) (w : Waits F) (g : Given) where
  unfoldable pub io_done :
      Text
      → Option Text × F
      → (Sidecar F → Result Json × Sidecar F)
      → Sidecar F
      → Result Json × Sidecar F
  io_done what (none, f) k s = k (record s { box = with_files f s.box })
  io_done what (some e, f) k s = (err (upstream (what ++ e)), record s { box = with_files f s.box })

  -- a step on the files that ends the command where it fails
  unfoldable pub io :
      Text
      → (F → Option Text × F)
      → (Sidecar F → Result Json × Sidecar F)
      → Sidecar F
      → Result Json × Sidecar F
  unfolding io_done
  io what act k s = io_done what (act s.box.files) k s

  unfoldable pub removed_dir : Text → F → F
  unfolding components parent
  removed_dir path f = elim (parent (components path)) [
    | none ↦ f
    | some dir ↦ (fs.remove_dir_all dir f).1
  ]

  -- the removal of one upload, where it is expired; a failure to remove its directory is ignored
  unfoldable pub sweep_one : Text → UploadRecord → Bool → Sidecar F → Sidecar F
  unfolding removed_dir
  sweep_one id r false s = s
  sweep_one id r true s = record s {
    uploads = remove id s.uploads;
    box = with_files (removed_dir r.path s.box.files) s.box;
  }

  unfoldable pub sweep : Dict UploadRecord → Sidecar F → Sidecar F
  unfolding sweep_one is_expired
  sweep [] s = s
  sweep ((id, r) ∷ rest) s =
      sweep rest (sweep_one id r (is_expired g.host.now c.attach_ttl r.created_at) s)

  unfoldable pub sweep_expired_uploads : Sidecar F → Sidecar F
  unfolding sweep
  sweep_expired_uploads s = sweep s.uploads s

  unfoldable pub uploads_dir : Text → Text
  unfolding agent_dir join
  uploads_dir id = join (agent_dir fs w.at_gates c.workspace_root id) (codes "uploads")

  unfoldable pub kept : Text → UploadRecord → Sidecar F → Result Json × Sidecar F
  kept upload_id rec s = (
    ok (object (("path", str rec.path) ∷ ("uploadId", str upload_id) ∷ [])),
    record s { uploads = insert upload_id rec s.uploads },
  )

  unfoldable pub with_meta :
      Text → Text → UploadRecord → Text ⊎ Text → Sidecar F → Result Json × Sidecar F
  unfolding kept join components
  with_meta dir upload_id rec (inl e) s = (err (upstream e), s)
  with_meta dir upload_id rec (inr text) s =
      io (codes "meta: ") (fs.write (components (join dir (codes "meta.json"))) (bytes_of text))
        (kept upload_id rec) s

  -- what `upload_attachment` does with a file name and bytes that passed the checks
  unfoldable pub store_upload : Text → Text × List ℕ → Sidecar F → Result Json × Sidecar F
  unfolding with_meta uploads_dir to_meta join components
  store_upload id (name, bytes) s =
      let upload_id = codes "upl_" ++ g.host.uuid in
      let dir = join (uploads_dir id) upload_id in
      let rec : UploadRecord = record {
        path = join dir name;
        filename = name;
        agent_id = id;
        bytes = length bytes;
        created_at = g.host.now;
        state = codes "ready";
      } in
      io (codes "mkdir: ") (fs.create_dir_all (components dir))
        (io (codes "write: ") (fs.write (components rec.path) bytes)
          (with_meta dir upload_id rec (g.print_meta (to_meta upload_id rec))))
        s

  unfoldable pub upload_attachment : Text → Json → Sidecar F → Result Json × Sidecar F
  unfolding store_upload sweep_expired_uploads make_workspace read_upload
  upload_attachment id args s =
      given_ok (read_upload g.host args) (store_upload id)
        (make_workspace fs w.at_gates c.workspace_root g.host.now id (sweep_expired_uploads s))

  unfoldable pub attach_upload : Json → Sidecar F → Result Json × Sidecar F
  unfolding sweep_expired_uploads get_nonempty
  attach_upload args s =
      given_ok (ok_or (get_nonempty "uploadId" args) (invalid_args (codes "missing uploadId")))
        (λ id s. (attachment g.host c.attach_ttl (get id s.uploads), s)) (sweep_expired_uploads s)
