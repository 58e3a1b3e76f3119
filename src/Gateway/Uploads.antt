-- ===== src/Gateway/Uploads.antt =====
-- Attachments: `upload_attachment`, `attach_upload`, `sweep_expired_uploads` and `is_expired` of
-- crates/atlas-bot-gateway/src/lib.rs.
pub mod Sweep
pub mod Storing
pub mod Loading
pub mod Removing
pub mod Persistence
pub mod Lifetime
mod Tests
use atlas_bot.Common.{
  ℕ, Text, text_eq, codes, Bool, true, false, ◌||◌, Option, none, some, List, [], ◌∷◌, ◌++◌, ◌+◌,
  ◌-◌, ◌%◌, map, ◌⊎◌, inl, inr, Dict, get, insert, remove, ltb, leb, ◌==◌, length, if◌then◌else◌,
  is_ascii_alphanumeric,
}
use atlas_bot.Json.{Json, str, object, get_str, get_nonempty}
use atlas_bot.Sandbox.FilePaths.{join}
use atlas_bot.Gateway.Types.{
  UploadMeta, Result, ok, err, and_then, ok_or, invalid_args, upstream, rejected, AttachMode,
  memory, disk, UploadRecord, Gateway, Host, Exec, ◌>>=◌, ◌>>◌, pure, lift, read, modify, to_meta,
}

abbrev pub upload_args_json_max_bytes : ℕ
upload_args_json_max_bytes = 3145728

abbrev pub attachment_object_max_bytes : ℕ
attachment_object_max_bytes = 26214400

-- `age_ms >= ttl.as_millis() as i64`, with `age_ms` the difference of the two times: the cast keeps
-- the low 64 bits of the milliseconds and reads them as a signed number. The times are not negative.
unfoldable pub is_expired : ℕ → ℕ → ℕ → Bool
is_expired now ttl created_at =
    let w = ttl % 18446744073709551616 in
    if ltb w 9223372036854775808
    then leb (created_at + w) now
    else leb created_at (now + (18446744073709551616 - w))

-- one character of a file name
safe_char : ℕ → ℕ
safe_char c = if is_ascii_alphanumeric c || c == b'.' || c == b'-' || c == b'_' then c else b'_'

unfoldable pub safe_name : Text → Text
unfolding safe_char
safe_name s = map safe_char s

-- `remove_dir_all(attach_root/id)`; a failure is ignored
unfoldable pub remove_dir : Host → Text → Dict UploadMeta → Dict UploadMeta
remove_dir host id files = if host.can_remove id then remove id files else files

-- the removal of the file at the path of an upload; a failure is ignored
unfoldable pub remove_file : Option Text → Dict UploadMeta → Dict UploadMeta
remove_file none files = files
remove_file (some dir) files = remove dir files

-- the removal of one upload, where it is expired
unfoldable pub sweep_one : Host → AttachMode → Text → UploadRecord → Bool → Gateway → Gateway
unfolding remove_dir remove_file
sweep_one host mode id r false s = s
sweep_one host memory id r true s = record s { uploads = remove id s.uploads }
sweep_one host disk id r true s = record s {
  uploads = remove id s.uploads;
  disk_meta = remove_file (host.meta_at r.path) (remove_dir host id s.disk_meta);
}

-- the sweep over the uploads that are left to look at
unfoldable pub sweep : Host → AttachMode → ℕ → Dict UploadRecord → Gateway → Gateway
sweep host mode ttl [] s = s
sweep host mode ttl ((id, r) ∷ rest) s =
    sweep host mode ttl rest (sweep_one host mode id r (is_expired host.now ttl r.created_at) s)

unfoldable pub sweep_expired_uploads : Host → Gateway → Gateway
sweep_expired_uploads host s = sweep host s.config.attach_mode s.config.attach_ttl s.uploads s

unfoldable pub no_error : Option Text → Text → Exec (Unit {0})
no_error none what s = (ok tt, s)
no_error (some e) what s = (err (upstream (what ++ e)), s)

unfoldable pub root_of : Gateway → Text
root_of s = elim s.config.attach_mode [
  | memory ↦ s.config.upload_root
  | disk ↦ s.config.attach_root
]

-- what a write leaves in a `meta.json`, by whether it failed, what it wrote_bytes and what was there
abbrev pub contents : Host → Option Text → Option UploadMeta → Option UploadMeta → Option UploadMeta
contents host none written before = written
contents host (some e) written before = host.left before

-- a `meta.json` with these contents
unfoldable pub set_meta : Text → Option UploadMeta → Gateway → Gateway
set_meta id none s = record s { disk_meta = remove id s.disk_meta }
set_meta id (some m) s = record s { disk_meta = insert id m s.disk_meta }

-- the write of the bytes: a file of that name is a `meta.json`
unfoldable pub wrote_bytes : AttachMode → Host → Text → Text → List ℕ → Gateway → Gateway
unfolding set_meta
wrote_bytes memory host id name bytes s = s
wrote_bytes disk host id name bytes s =
    if text_eq name (codes "meta.json")
    then set_meta id (contents host host.write_error (host.decode_meta bytes) (get id s.disk_meta))
        s
    else s

-- the write of the metadata
unfoldable pub noted : Host → Text → UploadRecord → Gateway → Gateway
unfolding set_meta
noted host id rec s =
    set_meta id (contents host host.meta_error (some (to_meta id rec)) (get id s.disk_meta)) s

-- `write_disk_meta`, in disk mode alone
unfoldable pub persist : AttachMode → Host → Text → UploadRecord → Exec (Unit {0})
unfolding noted
persist memory host id rec = pure tt
persist disk host id rec = do modify (noted host id rec); no_error host.meta_error (codes "meta: ")

decoded : Text ⊎ List ℕ → Result (List ℕ)
decoded (inl e) = err (invalid_args (codes "invalid bytesBase64: " ++ e))
decoded (inr bytes) = ok bytes

-- what `upload_attachment` does with a file name and bytes that passed the checks
unfoldable pub store_upload : Host → Text → Text → List ℕ → Exec Json
unfolding wrote_bytes join
store_upload host agent_id name bytes = do
  let id = codes "upl_" ++ host.uuid
  root ← read root_of
  mode ← read (λ s. s.config.attach_mode)
  no_error host.mkdir_error (codes "mkdir: ")
  modify (wrote_bytes mode host id name bytes)
  no_error host.write_error (codes "write: ")
  let path = join (join root id) name
  let rec : UploadRecord = record {
    path = path;
    filename = name;
    agent_id = agent_id;
    bytes = length bytes;
    created_at = host.now;
    state = codes "ready";
  }
  persist mode host id rec
  modify (λ s. record s { uploads = insert id rec s.uploads })
  pure (object (("path", str path) ∷ ("uploadId", str id) ∷ []))

-- the file name and the bytes, or the first check that fails
unfoldable pub read_upload : Host → Json → Result (Text × List ℕ)
unfolding decoded
read_upload host args =
    if ltb upload_args_json_max_bytes (host.json_bytes args)
    then err (rejected (codes "args_too_large") none)
    else and_then (ok_or (get_nonempty "filename" args) (invalid_args (codes "missing filename")))
        (λ filename.
          and_then (ok_or (get_str "bytesBase64" args) (invalid_args (codes "missing bytesBase64")))
            (λ b64. and_then (decoded (host.base64_decode b64)) (λ bytes.
              if ltb attachment_object_max_bytes (length bytes)
              then err (rejected (codes "attachment_too_large") none)
              else ok (safe_name filename, bytes))))

unfoldable pub upload_attachment : Host → Text → Json → Exec Json
upload_attachment host agent_id args = do
  modify (sweep_expired_uploads host)
  (name, bytes) ← lift (read_upload host args)
  store_upload host agent_id name bytes

pub attachment : Host → ℕ → Option UploadRecord → Result Json
attachment host ttl none = err (rejected (codes "attachment_not_found") none)
attachment host ttl (some rec) =
    if is_expired host.now ttl rec.created_at
    then err (rejected (codes "attachment_not_found") none)
    else ok (
        object (
          ("path", str rec.path)
          ∷ ("filename", str rec.filename)
          ∷ ("agentId", str rec.agent_id)
          ∷ []))

unfoldable pub attach_upload : Host → Json → Exec Json
unfolding attachment
attach_upload host args = do
  modify (sweep_expired_uploads host)
  id ← lift (ok_or (get_nonempty "uploadId" args) (invalid_args (codes "missing uploadId")))
  found ← read (λ s. attachment host s.config.attach_ttl (get id s.uploads))
  lift found
