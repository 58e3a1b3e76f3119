-- ===== src/Gateway/Uploads/Storing.antt =====
-- The state and the answer of an upload that passes its checks and meets no file system error.
use atlas_bot.Common.{
  ℕ, Text, codes, Option, none, List, [], ◌∷◌, ◌++◌, ◌≡◌, refl, ◌∙◌, insert, length,
}
use atlas_bot.Json.{Json, str, object}
use atlas_bot.Sandbox.FilePaths.{join}
use atlas_bot.Gateway.Types.{
  Exec, ◌>>=◌, modify, pure, read, Result, ok, AttachMode, memory, disk, UploadRecord, to_meta,
  Gateway, Host,
}
use atlas_bot.Gateway.Uploads.{
  no_error, root_of, set_meta, wrote_bytes, noted, persist, store_upload,
}

-- where the file goes
abbrev pub upload_path : Gateway → Text → Text → Text
upload_path s uuid name = join (join (root_of s) (codes "upl_" ++ uuid)) name

pub record Works (host : Host) : Type 0 where
  pub made : host.mkdir_error ≡ none
  pub written : host.write_error ≡ none
  pub noted : host.meta_error ≡ none

abbrev pub stored : Host → Gateway → Text → Text → List ℕ → UploadRecord
stored host s agent_id name bytes = record {
  path = upload_path s host.uuid name;
  filename = name;
  agent_id = agent_id;
  bytes = length bytes;
  created_at = host.now;
  state = codes "ready";
}

abbrev pub noted_in : AttachMode → Text → UploadRecord → Gateway → Gateway
noted_in memory id r s = s
noted_in disk id r s = record s { disk_meta = insert id (to_meta id r) s.disk_meta }

abbrev pub reply_of : Host → Text → Gateway → Result Json
reply_of host name s = ok (
    object (
      ("path", str (upload_path s host.uuid name))
      ∷ ("uploadId", str (codes "upl_" ++ host.uuid))
      ∷ []))

-- after the write of the file
abbrev written : Host → Text → List ℕ → Gateway → Gateway
written host name bytes s =
    wrote_bytes s.config.attach_mode host (codes "upl_" ++ host.uuid) name bytes s

abbrev pub put_upload : Host → Text → Text → List ℕ → Gateway → Gateway
put_upload host agent_id name bytes s =
    let id = codes "upl_" ++ host.uuid in
    let r = stored host s agent_id name bytes in
    let s' =
      noted_in s.config.attach_mode id r (wrote_bytes s.config.attach_mode host id name bytes s) in
    record s' { uploads = insert id r s'.uploads }

module _ {B : Type 0} (k : Unit {0} → Exec B) (s : Gateway) where
  no_error-none : (o : Option Text) (what : Text) → o ≡ none → (no_error o what >>= k) s ≡ k tt s
  unfolding no_error ◌>>=◌
  no_error-none o what e = rw e refl

module _ (host : Host) (works : Works host) where
  persist_works :
      (mode : AttachMode) (id : Text) (r : UploadRecord) (k : Unit {0} → Exec Json) (s : Gateway)
      → (persist mode host id r >>= k) s ≡ k tt (noted_in mode id r s)
  unfolding persist noted set_meta no_error ◌>>=◌ modify pure
  persist_works memory id r k s = refl
  persist_works disk id r k s = rw works.noted refl

  pub store_upload_lem :
      (agent_id name : Text) (bytes : List ℕ) (s : Gateway)
      → store_upload host agent_id name bytes s
        ≡ (reply_of host name s, put_upload host agent_id name bytes s)
  unfolding store_upload ◌>>=◌ read modify pure
  store_upload_lem agent_id name bytes s =
      no_error-none _ s host.mkdir_error (codes "mkdir: ") works.made
      ∙ no_error-none _ (written host name bytes s) host.write_error (codes "write: ") works.written
      ∙ persist_works s.config.attach_mode _ (stored host s agent_id name bytes) _
          (written host name bytes s)
