-- ===== src/Gateway/Uploads/Lifetime.antt =====
-- The time in which an upload can be attached.
use atlas_bot.Common.{
  ℕ, ◌+◌, ◌<◌, Text, text_eq, codes, Option, inl, inr, Bool-cases, none, some, List, [], ◌∷◌, ◌++◌,
  ◌≡◌, refl, sym, ◌∙◌, ap, arith, get, get-insert_self, Distinct, Distinct-insert, if◌then◌else◌,
  leb,
}
use mathlib.Core.Path.{subst}
use atlas_bot.Json.{Json, str, object, get_nonempty}
use atlas_bot.Gateway.Types.{
  UploadMeta, ◌>>=◌, modify, lift, ok, err, AttachMode, memory, disk, UploadRecord, Gateway, Host,
  rejected,
}
use atlas_bot.Gateway.Uploads.{
  set_meta, wrote_bytes, is_expired, sweep_expired_uploads, root_of, read_upload, upload_attachment,
  attach_upload, attachment,
}
use atlas_bot.Gateway.Uploads.Sweep.{
  sweep_expired_uploads-config, sweep_expired_uploads-Distinct, attach_upload_lem,
}
use atlas_bot.Gateway.Uploads.Storing.{
  Works, upload_path, stored, noted_in, put_upload, reply_of, store_upload_lem,
}

-- With a time to live that fits the signed 64 bits, an upload expires when it is that old.
is_expired_lem :
    (now ttl created : ℕ)
    → ttl < 9223372036854775808
    → is_expired now ttl created ≡ leb (created + ttl) now
unfolding is_expired
is_expired_lem now ttl created h = ground arith

module _ (up : Host) (agent_id name : Text) (bytes : List ℕ) (args : Json) (s : Gateway) where
  upload_attachment_lem :
      Works up
      → read_upload up args ≡ ok (name, bytes)
      → upload_attachment up agent_id args s ≡ (
          let swept = sweep_expired_uploads up s in
          (reply_of up name swept, put_upload up agent_id name bytes swept))
  unfolding upload_attachment ◌>>=◌ modify lift
  upload_attachment_lem works read_ok =
      rw read_ok (store_upload_lem up works agent_id name bytes (sweep_expired_uploads up s))

noted_in-uploads :
    (m : AttachMode) (id : Text) (r : UploadRecord) (s : Gateway)
    → (noted_in m id r s).uploads ≡ s.uploads
noted_in-uploads memory id r s = refl
noted_in-uploads disk id r s = refl

set_meta-uploads :
    (id : Text) (o : Option UploadMeta) (s : Gateway) → (set_meta id o s).uploads ≡ s.uploads
unfolding set_meta
set_meta-uploads id none s = refl
set_meta-uploads id (some m) s = refl

set_meta-config :
    (id : Text) (o : Option UploadMeta) (s : Gateway) → (set_meta id o s).config ≡ s.config
unfolding set_meta
set_meta-config id none s = refl
set_meta-config id (some m) s = refl

module _ (host : Host) (id name : Text) (bytes : List ℕ) (s : Gateway) where
  wrote_bytes-uploads : (m : AttachMode) → (wrote_bytes m host id name bytes s).uploads ≡ s.uploads
  unfolding wrote_bytes
  wrote_bytes-uploads memory = refl
  wrote_bytes-uploads disk = elim (Bool-cases (text_eq name (codes "meta.json"))) [
    | inl e ↦ rw e (set_meta-uploads id _ s)
    | inr e ↦ rw e refl
  ]

  wrote_bytes-config : (m : AttachMode) → (wrote_bytes m host id name bytes s).config ≡ s.config
  unfolding wrote_bytes
  wrote_bytes-config memory = refl
  wrote_bytes-config disk = elim (Bool-cases (text_eq name (codes "meta.json"))) [
    | inl e ↦ rw e (set_meta-config id _ s)
    | inr e ↦ rw e refl
  ]

noted_in-config :
    (m : AttachMode) (id : Text) (r : UploadRecord) (s : Gateway)
    → (noted_in m id r s).config ≡ s.config
noted_in-config memory id r s = refl
noted_in-config disk id r s = refl

module _ (up down : Host) (agent_id name : Text) (bytes : List ℕ) (args later : Json)
    (s : Gateway) where
  abbrev after_upload : Gateway
  after_upload = put_upload up agent_id name bytes (sweep_expired_uploads up s)

  module _ (d : Distinct s.uploads) where
    after-config : after_upload.config ≡ s.config
    after-config =
        noted_in-config _ _ _ _
        ∙ wrote_bytes-config up _ name bytes (sweep_expired_uploads up s) _
        ∙ sweep_expired_uploads-config up s d

    after-Distinct : Distinct after_upload.uploads
    after-Distinct = Distinct-insert _ _ _ (
        subst Distinct
          (sym (
            noted_in-uploads _ _ _ _
            ∙ wrote_bytes-uploads up _ name bytes (sweep_expired_uploads up s) _))
          (sweep_expired_uploads-Distinct up s d))

    stored-swept :
        stored up (sweep_expired_uploads up s) agent_id name bytes ≡ stored up s agent_id name bytes
    unfolding root_of
    stored-swept = rw (sweep_expired_uploads-config up s d) refl

    get-after :
        get (codes "upl_" ++ up.uuid) after_upload.uploads ≡ some (stored up s agent_id name bytes)
    get-after = get-insert_self _ _ _ ∙ ap some stored-swept

    reply-swept : reply_of up name (sweep_expired_uploads up s) ≡ reply_of up name s
    unfolding root_of
    reply-swept = rw (sweep_expired_uploads-config up s d) refl

    found_lem :
        s.config.attach_ttl < 9223372036854775808
        → attachment down s.config.attach_ttl (some (stored up s agent_id name bytes)) ≡ (
            if leb (up.now + s.config.attach_ttl) down.now
            then err (rejected (codes "attachment_not_found") none)
            else ok (
                object (
                  ("path", str (upload_path s up.uuid name))
                  ∷ ("filename", str name)
                  ∷ ("agentId", str agent_id)
                  ∷ [])))
    unfolding attachment
    found_lem fits = rw (is_expired_lem down.now s.config.attach_ttl up.now fits) refl

    attach_after :
        s.config.attach_ttl < 9223372036854775808
        → get_nonempty "uploadId" later ≡ some (codes "upl_" ++ up.uuid)
        → (attach_upload down later after_upload).0 ≡ (
            if leb (up.now + s.config.attach_ttl) down.now
            then err (rejected (codes "attachment_not_found") none)
            else ok (
                object (
                  ("path", str (upload_path s up.uuid name))
                  ∷ ("filename", str name)
                  ∷ ("agentId", str agent_id)
                  ∷ [])))
    attach_after fits asked =
        attach_upload_lem down after_upload after-Distinct later _ asked
        ∙ ap
            (λ c. attachment down c.attach_ttl (get (codes "upl_" ++ up.uuid) after_upload.uploads))
            after-config
        ∙ ap (attachment down s.config.attach_ttl) get-after
        ∙ found_lem fits

  -- Take an upload whose arguments pass the checks, with no file system error, and later an
  -- `attachUpload` with its upload id, where the time to live fits the signed 64 bits. The upload
  -- returns its path and id; the attach returns that path, the file name and the agent of the upload
  -- while less than the time to live has passed, and `attachment_not_found` from then on.
  pub attach_upload-upload_attachment :
      Distinct s.uploads
      → Works up
      → read_upload up args ≡ ok (name, bytes)
      → s.config.attach_ttl < 9223372036854775808
      → get_nonempty "uploadId" later ≡ some (codes "upl_" ++ up.uuid)
      → ((upload_attachment up agent_id args s).0 ≡ reply_of up name s)
        × ((attach_upload down later (upload_attachment up agent_id args s).1).0 ≡ (
            if leb (up.now + s.config.attach_ttl) down.now
            then err (rejected (codes "attachment_not_found") none)
            else ok (
                object (
                  ("path", str (upload_path s up.uuid name))
                  ∷ ("filename", str name)
                  ∷ ("agentId", str agent_id)
                  ∷ []))))
  attach_upload-upload_attachment d works read_ok fits asked =
      let uploaded = upload_attachment_lem up agent_id name bytes args s works read_ok in
      (
        ap (λ r. r.0) uploaded ∙ reply-swept d,
        ap (λ r. (attach_upload down later r.1).0) uploaded ∙ attach_after d fits asked,
      )
