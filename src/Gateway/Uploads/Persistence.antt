-- ===== src/Gateway/Uploads/Persistence.antt =====
-- The `meta.json` files behind uploads, attaches and restarts.
use atlas_bot.Common.{
  ℕ, Text, codes, text_eq, text_eq_iff, Bool, true, Option, ◌++◌, none, some, List, ◌≡◌, refl, ◌∙◌,
  ap, arith, Dict, get, insert, remove, get-insert, Distinct, Distinct-insert, Option-cases,
  Bool-cases, inl, inr,
}
use atlas_bot.Json.{Json}
use atlas_bot.Gateway.Types.{
  AttachMode, memory, disk, UploadRecord, UploadMeta, to_meta, with_config, Gateway, GatewayConfig,
  Host, Exec, ◌>>=◌, modify, pure, ok,
}
use atlas_bot.Gateway.Uploads.{
  contents, set_meta, wrote_bytes, noted, persist, no_error, read_upload, sweep_expired_uploads,
  store_upload, upload_attachment, attach_upload,
}
use atlas_bot.Gateway.Types.{Ends, Ends-modify, Ends-lift, Ends-read, Ends-return}
use atlas_bot.Gateway.Uploads.Storing.{noted_in}
use atlas_bot.Gateway.Uploads.Loading.{
  Named, IsPersisted, restart, Named-insert, loaded-IsPersisted,
}
use atlas_bot.Gateway.Uploads.Removing.{
  remove-IsPersisted, AreApart, sweep_expired-IsPersisted, IsNew, get-remove-none, sweep-IsNew,
}

put-IsPersisted :
    (m : AttachMode) (id : Text) (r : UploadRecord) (s : Gateway)
    → s.config.attach_mode ≡ m
    → IsPersisted s
    → IsPersisted (let t = noted_in m id r s in record t { uploads = insert id r t.uploads })
put-IsPersisted memory id r s e p = record {
  noted = λ d. cc (e, d);
  distinct = p.distinct;
  named = p.named;
}
put-IsPersisted disk id r s e p = record {
  noted = λ d j q h. ground (
    arith,
    get-insert id j r s.uploads,
    get-insert id j (to_meta id r) s.disk_meta,
    text_eq_iff id j,
    p.noted e j q,
    h,
  );
  distinct = Distinct-insert id (to_meta id r) s.disk_meta p.distinct;
  named = Named-insert id (to_meta id r) s.disk_meta (unfold to_meta in refl) p.named;
}

-- What a failed write leaves of a `meta.json` decodes to what was there before, or not.
abbrev pub Tears : Host → Type 0
Tears host = (o : Option UploadMeta) (m : UploadMeta) → host.left o ≡ some m → o ≡ some m

left_none : (host : Host) → Tears host → (o : Option UploadMeta) → o ≡ none → host.left o ≡ none
left_none host tears o e = elim (Option-cases (host.left o)) [
  | inl h ↦ h
  | inr (m, h) ↦ absurd (cc (tears o m h, e))
]

contents-none :
    (host : Host) (error : Option Text) (o : Option UploadMeta)
    → Tears host
    → o ≡ none
    → contents host error none o ≡ none
contents-none host none o tears e = refl
contents-none host (some m) o tears e = left_none host tears o e

module _ (host : Host) (tears : Tears host) (id : Text) (s : Gateway) (n : IsNew id s)
    (p : IsPersisted s) where
  removed-IsNew : IsNew id (record s { disk_meta = remove id s.disk_meta })
  removed-IsNew = record { uploads = n.uploads; files = get-remove-none id id s.disk_meta n.files }

  -- A state in which the upload may be noted, and is not yet.
  abbrev IsReady : Gateway → Type 0
  IsReady t = (t.config ≡ s.config) × IsNew id t × IsPersisted t

  set_meta-IsReady : (o : Option UploadMeta) → o ≡ none → IsReady (set_meta id o s)
  unfolding set_meta
  set_meta-IsReady none e = (refl, removed-IsNew, remove-IsPersisted id s p (λ d. n.uploads))
  set_meta-IsReady (some m) e = cc

  wrote_bytes-IsReady :
      (mode : AttachMode) (name : Text) (bytes : List ℕ)
      → (text_eq name (codes "meta.json") ≡ true → host.decode_meta bytes ≡ none)
      → IsReady (wrote_bytes mode host id name bytes s)
  unfolding wrote_bytes
  wrote_bytes-IsReady memory name bytes plain = (refl, n, p)
  wrote_bytes-IsReady disk name bytes plain = elim (Bool-cases (text_eq name (codes "meta.json"))) [
    | inl e ↦ rw e (
        set_meta-IsReady _ (
          ap (λ o. contents host host.write_error o (get id s.disk_meta)) (plain e)
          ∙ contents-none host host.write_error (get id s.disk_meta) tears n.files))
    | inr e ↦ rw e (refl, n, p)
  ]

  put-Ends :
      (mode : AttachMode) (r : UploadRecord) (reply : Json)
      → s.config.attach_mode ≡ mode
      → Ends IsPersisted
          (persist mode host id r >>= λ _.
            modify (λ s. record s { uploads = insert id r s.uploads }) >>= λ _. pure reply)
          s
  unfolding persist noted set_meta no_error modify pure ◌>>=◌
  put-Ends memory r reply e = record { at = put-IsPersisted memory id r s e p }
  put-Ends disk r reply e = elim (Option-cases host.meta_error) [
    | inl h ↦ record { at = rw h (put-IsPersisted disk id r s e p) }
    | inr (m, h) ↦ record {
      at =
          rw (h, left_none host tears (get id s.disk_meta) n.files)
            (remove-IsPersisted id s p (λ d. n.uploads));
    }
  ]

Ends-no_error :
    {B : Type 0} (o : Option Text) (what : Text) (k : Unit {0} → Exec B) (s : Gateway)
    → IsPersisted s
    → Ends IsPersisted (k tt) s
    → Ends IsPersisted (no_error o what >>= k) s
unfolding no_error ◌>>=◌
Ends-no_error none what k s p e = record { at = e.at }
Ends-no_error (some m) what k s p e = record { at = p }

-- An upload can be kept: its id is new, what a failed write leaves does not decode, and it is no file
-- `meta.json` that decodes as the metadata of an upload.
pub record Fits (host : Host) (args : Json) (s : Gateway) : Type 0 where
  pub uploads : get (codes "upl_" ++ host.uuid) s.uploads ≡ none
  pub files : get (codes "upl_" ++ host.uuid) s.disk_meta ≡ none
  pub tears : Tears host
  pub plain :
      (name : Text) (bytes : List ℕ)
      → read_upload host args ≡ ok (name, bytes)
      → text_eq name (codes "meta.json") ≡ true
      → host.decode_meta bytes ≡ none

store_upload-IsPersisted :
    (host : Host) (agent_id name : Text) (bytes : List ℕ) (s : Gateway)
    → Tears host
    → (text_eq name (codes "meta.json") ≡ true → host.decode_meta bytes ≡ none)
    → IsNew (codes "upl_" ++ host.uuid) s
    → IsPersisted s
    → Ends IsPersisted (store_upload host agent_id name bytes) s
unfolding store_upload
store_upload-IsPersisted host agent_id name bytes s tears plain n p =
    let id = codes "upl_" ++ host.uuid in
    let mode = s.config.attach_mode in
    let (same, new, kept) = wrote_bytes-IsReady host tears id s n p mode name bytes plain in
    Ends-read _ _ s (
      Ends-read _ _ s (
        Ends-no_error host.mkdir_error _ _ s p (
          Ends-modify _ _ s (
            Ends-no_error host.write_error _ _ _ kept
              (put-Ends host tears id _ new kept mode _ _ (ap (λ c. c.attach_mode) same))))))

upload_attachment-IsPersisted :
    (host : Host) (agent_id : Text) (args : Json) (s : Gateway)
    → AreApart host s.uploads
    → Fits host args s
    → IsPersisted s
    → Ends IsPersisted (upload_attachment host agent_id args) s
unfolding upload_attachment sweep_expired_uploads
upload_attachment-IsPersisted host agent_id args s apart f p =
    let q = sweep_expired-IsPersisted host s apart p in
    let n =
      sweep-IsNew host s.config.attach_mode s.config.attach_ttl s.uploads
        (codes "upl_" ++ host.uuid) s (record { uploads = f.uploads; files = f.files }) in
    Ends-modify _ _ s (
      Ends-lift _ _ _ q λ read e.
        store_upload-IsPersisted host agent_id read.0 read.1 _ f.tears (f.plain read.0 read.1 e) n
          q)

attach_upload-IsPersisted :
    (host : Host) (args : Json) (s : Gateway)
    → AreApart host s.uploads
    → IsPersisted s
    → Ends IsPersisted (attach_upload host args) s
unfolding attach_upload
attach_upload-IsPersisted host args s apart p =
    let q = sweep_expired-IsPersisted host s apart p in
    Ends-modify _ _ s (Ends-lift _ _ _ q λ id _. Ends-read _ _ _ (Ends-return _ _ q))

-- The states that uploads, attaches and restarts lead to. A restart reads the files that it can.
pub data Uploaded (start : Gateway) : Gateway → Type 0 where
  begun : Uploaded start start
  uploaded :
      (s : Gateway) (host : Host) (agent_id : Text) (args : Json)
      → Uploaded start s
      → Uploaded start (upload_attachment host agent_id args s).1
  attached :
      (s : Gateway) (host : Host) (args : Json)
      → Uploaded start s
      → Uploaded start (attach_upload host args s).1
  restarted :
      (s : Gateway) (cfg : GatewayConfig) (can_read : Text → Bool)
      → cfg.attach_root ≡ s.config.attach_root
      → Uploaded start s
      → Uploaded start (with_config cfg can_read s.disk_meta)

-- What holds of the host at each step.
abbrev pub IsOrderly : {start s : Gateway} → Uploaded start s → Type 0
IsOrderly begun = Unit
IsOrderly (uploaded s host agent_id args u) =
    AreApart host s.uploads × Fits host args s × IsOrderly u
IsOrderly (attached s host args u) = AreApart host s.uploads × IsOrderly u
IsOrderly (restarted s cfg can_read e u) = IsOrderly u

Uploaded-IsPersisted :
    {s t : Gateway} (u : Uploaded s t) → IsOrderly u → IsPersisted s → IsPersisted t
Uploaded-IsPersisted begun o p = p
Uploaded-IsPersisted (uploaded s host agent_id args u) (apart, f, o) p =
    (upload_attachment-IsPersisted host agent_id args s apart f (Uploaded-IsPersisted u o p)).at
Uploaded-IsPersisted (attached s host args u) (apart, o) p =
    (attach_upload-IsPersisted host args s apart (Uploaded-IsPersisted u o p)).at
Uploaded-IsPersisted (restarted s cfg can_read e u) o p =
    let q = Uploaded-IsPersisted u o p in
    loaded-IsPersisted cfg.attach_mode cfg can_read _ refl q.distinct q.named

-- Start a gateway over `meta.json` files that each name their own directory, and let any uploads,
-- attaches and restarts over the same directory follow, where files may fail to be written, removed or
-- read. In disk mode, a restart that can read its file then finds each upload that is in memory, with
-- the same path, file name, agent, size, time and state. Each new upload has a new id and is no file
-- `meta.json` that decodes as metadata, what a failed write leaves decodes to nothing or to what was
-- there, and no path of an upload is the `meta.json` of another.
pub restart_keeps_uploads :
    (cfg : GatewayConfig) (can_read again : Text → Bool) (files : Dict UploadMeta) (s : Gateway)
    (id : Text) (r : UploadRecord)
    → Distinct files
    → Named files
    → (u : Uploaded (with_config cfg can_read files) s) → IsOrderly u
    → s.config.attach_mode ≡ disk
    → get id s.uploads ≡ some r
    → again id ≡ true
    → get id (with_config s.config again s.disk_meta).uploads ≡ some r
restart_keeps_uploads cfg can_read again files s id r d n u o mode found reads =
    restart again s id r
      (Uploaded-IsPersisted u o (loaded-IsPersisted cfg.attach_mode cfg can_read files refl d n))
      mode found reads
