-- ===== src/Gateway/Uploads/Sweep.antt =====
-- What the sweep of expired uploads leaves, and the answer to `attachUpload`.
use atlas_bot.Common.{
  ℕ, Text, text_eq, text_eq_iff, Bool, true, false, Option, none, some, [], ◌∷◌, ◌≡◌, refl, ◌∙◌,
  arith, Dict, get, get-remove, Distinct, Distinct-remove, if◌then◌else◌,
}
use atlas_bot.Json.{Json, get_nonempty}
use atlas_bot.Gateway.Types.{
  ◌>>=◌, modify, lift, read, AttachMode, memory, disk, UploadRecord, Gateway, Host,
}
use atlas_bot.Gateway.Uploads.{
  is_expired, sweep_one, sweep, sweep_expired_uploads, attach_upload, attachment,
}

-- what the sweep keeps of an entry
abbrev pub live : ℕ → ℕ → Option UploadRecord → Option UploadRecord
live now ttl none = none
live now ttl (some r) = if is_expired now ttl r.created_at then none else some r

abbrev swept : ℕ → ℕ → Option UploadRecord → Option UploadRecord → Option UploadRecord
swept now ttl none old = old
swept now ttl (some r) old = if is_expired now ttl r.created_at then none else old

get-sweep_one :
    (host : Host) (mode : AttachMode) (j : Text) (r : UploadRecord) (b : Bool) (s : Gateway)
    (id : Text)
    → get id (sweep_one host mode j r b s).uploads
      ≡ (if b then (if text_eq j id then none else get id s.uploads) else get id s.uploads)
unfolding sweep_one
get-sweep_one host mode j r false s id = refl
get-sweep_one host memory j r true s id = get-remove j id s.uploads
get-sweep_one host disk j r true s id = get-remove j id s.uploads

get-sweep :
    (host : Host) (mode : AttachMode) (ttl : ℕ) (us : Dict UploadRecord) (s : Gateway) (id : Text)
    → Distinct us
    → get id (sweep host mode ttl us s).uploads ≡ swept host.now ttl (get id us) (get id s.uploads)
unfolding sweep get
get-sweep host mode ttl [] s id d = refl
get-sweep host mode ttl ((j, r) ∷ us) s id (new, d) =
    let s' = sweep_one host mode j r (is_expired host.now ttl r.created_at) s in
    ground (
      arith,
      get-sweep host mode ttl us s' id d,
      get-sweep_one host mode j r (is_expired host.now ttl r.created_at) s id,
      text_eq_iff j id,
    )

pub sweep_one-config :
    (host : Host) (mode : AttachMode) (j : Text) (r : UploadRecord) (b : Bool) (s : Gateway)
    → (sweep_one host mode j r b s).config ≡ s.config
unfolding sweep_one
sweep_one-config host mode j r false s = refl
sweep_one-config host memory j r true s = refl
sweep_one-config host disk j r true s = refl

pub sweep-config :
    (host : Host) (mode : AttachMode) (ttl : ℕ) (us : Dict UploadRecord) (s : Gateway)
    → (sweep host mode ttl us s).config ≡ s.config
unfolding sweep
sweep-config host mode ttl [] s = refl
sweep-config host mode ttl ((j, r) ∷ us) s =
    sweep-config host mode ttl us _ ∙ sweep_one-config host mode j r _ s

pub sweep_one-Distinct :
    (host : Host) (mode : AttachMode) (j : Text) (r : UploadRecord) (b : Bool) (s : Gateway)
    → Distinct s.uploads
    → Distinct (sweep_one host mode j r b s).uploads
unfolding sweep_one
sweep_one-Distinct host mode j r false s d = d
sweep_one-Distinct host memory j r true s d = Distinct-remove j s.uploads d
sweep_one-Distinct host disk j r true s d = Distinct-remove j s.uploads d

pub sweep-Distinct :
    (host : Host) (mode : AttachMode) (ttl : ℕ) (us : Dict UploadRecord) (s : Gateway)
    → Distinct s.uploads
    → Distinct (sweep host mode ttl us s).uploads
unfolding sweep
sweep-Distinct host mode ttl [] s d = d
sweep-Distinct host mode ttl ((j, r) ∷ us) s d =
    sweep-Distinct host mode ttl us _ (sweep_one-Distinct host mode j r _ s d)

module _ (host : Host) (s : Gateway) (d : Distinct s.uploads) where
  pub get-sweep_expired :
      (id : Text)
      → get id (sweep_expired_uploads host s).uploads
        ≡ live host.now s.config.attach_ttl (get id s.uploads)
  unfolding sweep_expired_uploads
  get-sweep_expired id =
      ground (arith, get-sweep host s.config.attach_mode s.config.attach_ttl s.uploads s id d)

  attachment-live :
      (o : Option UploadRecord) (ttl : ℕ)
      → attachment host ttl (live host.now ttl o) ≡ attachment host ttl o
  unfolding attachment
  attachment-live none ttl = refl
  attachment-live (some r) ttl = ground arith

  pub sweep_expired_uploads-config : (sweep_expired_uploads host s).config ≡ s.config
  unfolding sweep_expired_uploads
  sweep_expired_uploads-config =
      sweep-config host s.config.attach_mode s.config.attach_ttl s.uploads s

  pub sweep_expired_uploads-Distinct : Distinct (sweep_expired_uploads host s).uploads
  unfolding sweep_expired_uploads
  sweep_expired_uploads-Distinct =
      sweep-Distinct host s.config.attach_mode s.config.attach_ttl s.uploads s d

  -- the answer to `attachUpload` with a given id
  pub attach_upload_lem :
      (args : Json) (id : Text)
      → get_nonempty "uploadId" args ≡ some id
      → (attach_upload host args s).0 ≡ attachment host s.config.attach_ttl (get id s.uploads)
  unfolding attach_upload ◌>>=◌ modify lift read
  attach_upload_lem args id asked =
      rw (asked, sweep_expired_uploads-config, get-sweep_expired id)
        (attachment-live (get id s.uploads) s.config.attach_ttl)
