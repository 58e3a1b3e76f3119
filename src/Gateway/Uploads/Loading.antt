-- ===== src/Gateway/Uploads/Loading.antt =====
-- What a restart finds of the uploads: `load_disk_uploads` and the `meta.json` files.
use atlas_bot.Common.{
  Text, text_eq, text_eq_iff, Bool, true, if◌then◌else◌, none, some, [], ◌∷◌, ◌≡◌, refl, sym, ◌∙◌,
  ap, arith, Dict, get, insert, remove, get-insert, Distinct, All, Option-cases, Bool-cases, inl,
  inr, ◌or_else◌, some_inj,
}
use mathlib.Core.Option
use atlas_bot.Gateway.Types.{
  AttachMode, memory, disk, UploadRecord, UploadMeta, to_meta, from_meta, load_disk_uploads,
  with_config, Gateway, GatewayConfig,
}

-- each file lies in the directory of its upload
abbrev pub Named : Dict UploadMeta → Type 0
Named files = All (λ e. e.1.upload_id ≡ e.0) files

pub get-load_disk_uploads :
    (can_read : Text → Bool) (files : Dict UploadMeta) (into : Dict UploadRecord) (id : Text)
    → Distinct files
    → Named files
    → get id (load_disk_uploads can_read files into)
      ≡ ((if can_read id then Option.map from_meta (get id files) else none) or_else get id into)
unfolding load_disk_uploads get
get-load_disk_uploads can_read [] into id d n = ground arith
get-load_disk_uploads can_read ((k, m) ∷ files) into id (new, d) (name, n) = ground (
  arith,
  name,
  get-load_disk_uploads can_read files
      (if can_read k then insert m.upload_id (from_meta m) into else into) id d n,
  get-insert m.upload_id id (from_meta m) into,
  text_eq_iff k id,
)

-- In disk mode every upload has its file, with the same contents.
pub record IsPersisted (s : Gateway) : Type 0 where
  pub noted :
      s.config.attach_mode ≡ disk
      → (id : Text) (r : UploadRecord) → get id s.uploads ≡ some r
      → get id s.disk_meta ≡ some (to_meta id r)
  pub distinct : Distinct s.disk_meta
  pub named : Named s.disk_meta

pub from_meta-to_meta : (id : Text) (r : UploadRecord) → from_meta (to_meta id r) ≡ r
unfolding from_meta to_meta
from_meta-to_meta id r = refl

pub restart :
    (again : Text → Bool) (s : Gateway) (id : Text) (r : UploadRecord)
    → IsPersisted s
    → s.config.attach_mode ≡ disk
    → get id s.uploads ≡ some r
    → again id ≡ true
    → get id (with_config s.config again s.disk_meta).uploads ≡ some r
unfolding with_config
restart again s id r p mode found reads =
    rw
      (
        mode,
        get-load_disk_uploads again s.disk_meta [] id p.distinct p.named,
        reads,
        p.noted mode id r found,
      )
      (ap some (from_meta-to_meta id r))

pub Named-insert :
    (id : Text) (m : UploadMeta) (files : Dict UploadMeta)
    → m.upload_id ≡ id
    → Named files
    → Named (insert id m files)
unfolding insert
Named-insert id m [] e n = (e, tt)
Named-insert id m ((k, v) ∷ files) e (h, n) = elim (Bool-cases (text_eq k id)) [
  | inl same ↦ rw same (e, n)
  | inr other ↦ rw other (h, Named-insert id m files e n)
]

pub Named-remove : (id : Text) (files : Dict UploadMeta) → Named files → Named (remove id files)
unfolding remove
Named-remove id [] n = tt
Named-remove id ((k, v) ∷ files) (h, n) = elim (Bool-cases (text_eq k id)) [
  | inl same ↦ rw same (Named-remove id files n)
  | inr other ↦ rw other (h, Named-remove id files n)
]

pub get-Named :
    (id : Text) (m : UploadMeta) (files : Dict UploadMeta)
    → Named files
    → get id files ≡ some m
    → m.upload_id ≡ id
unfolding get
get-Named id m [] n h = cc
get-Named id m ((k, v) ∷ files) (e, n) h =
    ground (arith, get-Named id m files n, text_eq_iff k id, e)

pub to_meta-from_meta :
    (id : Text) (m : UploadMeta) → m.upload_id ≡ id → to_meta id (from_meta m) ≡ m
unfolding to_meta from_meta
to_meta-from_meta id m e = rw (← e) refl

pub loaded_noted :
    (can_read : Text → Bool) (files : Dict UploadMeta) (id : Text) (r : UploadRecord)
    → Distinct files
    → Named files
    → get id (load_disk_uploads can_read files []) ≡ some r
    → get id files ≡ some (to_meta id r)
unfolding get
loaded_noted can_read files id r d n h =
    let loaded : ((if can_read id then Option.map from_meta (get id files) else none) or_else none)
        ≡ some r =
      sym (get-load_disk_uploads can_read files [] id d n) ∙ h in
    elim (Bool-cases (can_read id)) [
      | inr b ↦ absurd (cc (rw b at loaded))
      | inl b ↦ elim (Option-cases (get id files)) [
        | inl e ↦ absurd (cc (rw (b, e) at loaded))
        | inr (m, e) ↦
            let same : from_meta m ≡ r = some_inj (rw (b, e) at loaded) in
            e
            ∙ ap some
                (sym (to_meta-from_meta id m (get-Named id m files n e)) ∙ ap (to_meta id) same)
      ]
    ]

pub loaded-IsPersisted :
    (mode : AttachMode) (cfg : GatewayConfig) (can_read : Text → Bool) (files : Dict UploadMeta)
    → cfg.attach_mode ≡ mode
    → Distinct files
    → Named files
    → IsPersisted (with_config cfg can_read files)
unfolding with_config
loaded-IsPersisted memory cfg can_read files e d n = record {
  noted = λ h. cc (e, h);
  distinct = d;
  named = n;
}
loaded-IsPersisted disk cfg can_read files e d n = record {
  noted = λ _ id r h. loaded_noted can_read files id r d n (rw e at h);
  distinct = d;
  named = n;
}
