-- ===== src/Gateway/Invariant/Attachments.antt =====
-- Uploads, attachments and the sweep keep the invariant.
use atlas_bot.Common.{
  ℕ, Text, text_eq, codes, Option, none, some, List, [], ◌∷◌, Dict, Bool, true, false, inl, inr,
  Bool-cases,
}
use atlas_bot.Json.{Json}
use atlas_bot.Gateway.Types.{
  UploadMeta, UploadRecord, AttachMode, memory, disk, Gateway, Host, Ends, Ends-pure, Ends-return,
  Ends-lift, Ends-read, Ends-modify, Ends-bind,
}
use atlas_bot.Gateway.Uploads.{
  set_meta, wrote_bytes, noted, sweep_one, sweep, sweep_expired_uploads, no_error, persist,
  store_upload, upload_attachment, attach_upload,
}
use atlas_bot.Gateway.Invariant.{IsValid}

-- The attachments.
sweep_one-IsValid :
    (host : Host) (mode : AttachMode) (id : Text) (r : UploadRecord) (b : Bool) (s : Gateway)
    → IsValid s
    → IsValid (sweep_one host mode id r b s)
unfolding sweep_one
sweep_one-IsValid host mode id r false s v = v
sweep_one-IsValid host memory id r true s v = record { all_ok = v.all_ok }
sweep_one-IsValid host disk id r true s v = record { all_ok = v.all_ok }

pub sweep-IsValid :
    (host : Host) (mode : AttachMode) (ttl : ℕ) (us : Dict UploadRecord) (s : Gateway)
    → IsValid s
    → IsValid (sweep host mode ttl us s)
unfolding sweep
sweep-IsValid host mode ttl [] s v = v
sweep-IsValid host mode ttl ((id, r) ∷ us) s v =
    sweep-IsValid host mode ttl us _ (sweep_one-IsValid host mode id r _ s v)

no_error-IsValid :
    (s : Gateway) → IsValid s → (o : Option Text) (what : Text) → Ends IsValid (no_error o what) s
unfolding no_error
no_error-IsValid s v none what = record { at = v }
no_error-IsValid s v (some e) what = record { at = v }

set_meta-IsValid :
    (id : Text) (o : Option UploadMeta) (s : Gateway) → IsValid s → IsValid (set_meta id o s)
unfolding set_meta
set_meta-IsValid id none s v = record { all_ok = v.all_ok }
set_meta-IsValid id (some m) s v = record { all_ok = v.all_ok }

wrote_bytes-IsValid :
    (m : AttachMode) (host : Host) (id name : Text) (bytes : List ℕ) (s : Gateway)
    → IsValid s
    → IsValid (wrote_bytes m host id name bytes s)
unfolding wrote_bytes
wrote_bytes-IsValid memory host id name bytes s v = v
wrote_bytes-IsValid disk host id name bytes s v =
    elim (Bool-cases (text_eq name (codes "meta.json"))) [
      | inl e ↦ rw e (set_meta-IsValid id _ s v)
      | inr e ↦ rw e v
    ]

module _ (s : Gateway) (v : IsValid s) where
  pub sweep_expired_uploads-IsValid : (host : Host) → IsValid (sweep_expired_uploads host s)
  unfolding sweep_expired_uploads
  sweep_expired_uploads-IsValid host = sweep-IsValid host _ _ s.uploads s v

  pub persist-IsValid :
      (m : AttachMode) (host : Host) (id : Text) (r : UploadRecord)
      → Ends IsValid (persist m host id r) s
  unfolding persist noted
  persist-IsValid memory host id r = Ends-pure _ s v
  persist-IsValid disk host id r =
      Ends-modify _ _ s (no_error-IsValid _ (set_meta-IsValid id _ s v) host.meta_error _)

module _ (s : Gateway) (v : IsValid s) where
  pub store_upload-IsValid :
      (host : Host) (id name : Text) (bytes : List ℕ)
      → Ends IsValid (store_upload host id name bytes) s
  unfolding store_upload
  store_upload-IsValid host id name bytes = Ends-read _ _ s (
      Ends-read _ _ s (
        Ends-bind _ _ s (no_error-IsValid s v host.mkdir_error _) λ _ t w. Ends-modify _ _ t (
          Ends-bind _ _ _
            (no_error-IsValid _ (wrote_bytes-IsValid _ host _ name bytes t w) host.write_error _)
            λ _ t' w'.
              Ends-bind _ _ t' (persist-IsValid t' w' _ host _ _)
                λ _ u x. Ends-modify _ _ u (Ends-pure _ _ (record { all_ok = x.all_ok })))))

module _ (s : Gateway) (v : IsValid s) where
  pub upload_attachment-IsValid :
      (host : Host) (id : Text) (args : Json) → Ends IsValid (upload_attachment host id args) s
  unfolding upload_attachment
  upload_attachment-IsValid host id args =
      let w = sweep_expired_uploads-IsValid s v host in
      Ends-modify _ _ s (Ends-lift _ _ _ w λ read _. store_upload-IsValid _ w host id read.0 read.1)

  pub attach_upload-IsValid : (host : Host) (args : Json) → Ends IsValid (attach_upload host args) s
  unfolding attach_upload
  attach_upload-IsValid host args =
      let w = sweep_expired_uploads-IsValid s v host in
      Ends-modify _ _ s (Ends-lift _ _ _ w λ id _. Ends-read _ _ _ (Ends-return _ _ w))
