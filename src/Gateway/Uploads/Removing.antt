-- ===== src/Gateway/Uploads/Removing.antt =====
-- What a sweep leaves of the `meta.json` files.
use atlas_bot.Common.{
  ℕ, Text, text_eq_iff, text_eq_refl, Bool, true, false, Option, if◌then◌else◌, none, some, [], ◌∷◌,
  ◌≡◌, ◌∙◌, ap, arith, Dict, get, remove, get-remove, Distinct-remove, All, Bool-cases, inl, inr,
}
use atlas_bot.Gateway.Types.{AttachMode, memory, disk, UploadRecord, UploadMeta, Gateway, Host}
use atlas_bot.Gateway.Uploads.{remove_dir, remove_file, sweep, sweep_one, sweep_expired_uploads}
use atlas_bot.Gateway.Uploads.Loading.{IsPersisted, Named-remove}

pub remove-IsPersisted :
    (dir : Text) (s : Gateway)
    → IsPersisted s
    → (s.config.attach_mode ≡ disk → get dir s.uploads ≡ none)
    → IsPersisted (record s { disk_meta = remove dir s.disk_meta })
remove-IsPersisted dir s p free = record {
  noted = λ d id r h.
      ground (arith, get-remove dir id s.disk_meta, text_eq_iff dir id, p.noted d id r, free d, h);
  distinct = Distinct-remove dir s.disk_meta p.distinct;
  named = Named-remove dir s.disk_meta p.named;
}

-- The removal of an upload, whose directory may be left.
pub drop-IsPersisted :
    (id : Text) (s : Gateway)
    → IsPersisted s
    → IsPersisted (record s { uploads = remove id s.uploads })
drop-IsPersisted id s p = record {
  noted = λ d j r h. ground (arith, get-remove id j s.uploads, p.noted d j r, h);
  distinct = p.distinct;
  named = p.named;
}

-- A path that is in no other directory than this.
abbrev pub IsHome : Option Text → Text → Type 0
IsHome none id = Unit
IsHome (some dir) id = dir ≡ id

-- No path of an upload is the `meta.json` of another.
abbrev pub AreApart : Host → Dict UploadRecord → Type 0
AreApart host us = All (λ e. IsHome (host.meta_at e.1.path) e.0) us

pub removed_none : (id : Text) (us : Dict UploadRecord) → get id (remove id us) ≡ none
removed_none id us = get-remove id id us ∙ ap (λ b. if b then none else get id us) (text_eq_refl id)

pub remove_file-IsPersisted :
    (at : Option Text) (id : Text) (s : Gateway)
    → IsHome at id
    → get id s.uploads ≡ none
    → IsPersisted s
    → IsPersisted (record s { disk_meta = remove_file at s.disk_meta })
unfolding remove_file
remove_file-IsPersisted none id s home gone p = record {
  noted = p.noted;
  distinct = p.distinct;
  named = p.named;
}
remove_file-IsPersisted (some dir) id s home gone p = remove-IsPersisted dir s p (λ d. rw home gone)

pub remove_dir-IsPersisted :
    (host : Host) (id : Text) (s : Gateway)
    → get id s.uploads ≡ none
    → IsPersisted s
    → IsPersisted (record s { disk_meta = remove_dir host id s.disk_meta })
unfolding remove_dir
remove_dir-IsPersisted host id s gone p = elim (Bool-cases (host.can_remove id)) [
  | inl b ↦ rw b (remove-IsPersisted id s p (λ d. gone))
  | inr b ↦ rw b (record { noted = p.noted; distinct = p.distinct; named = p.named })
]

pub sweep_one-IsPersisted :
    (host : Host) (mode : AttachMode) (id : Text) (r : UploadRecord) (b : Bool) (s : Gateway)
    → IsHome (host.meta_at r.path) id
    → IsPersisted s
    → IsPersisted (sweep_one host mode id r b s)
unfolding sweep_one
sweep_one-IsPersisted host mode id r false s home p = p
sweep_one-IsPersisted host memory id r true s home p = drop-IsPersisted id s p
sweep_one-IsPersisted host disk id r true s home p =
    let t : Gateway = record s { uploads = remove id s.uploads } in
    let gone = removed_none id s.uploads in
    remove_file-IsPersisted (host.meta_at r.path) id
      (record t { disk_meta = remove_dir host id t.disk_meta }) home gone
      (remove_dir-IsPersisted host id t gone (drop-IsPersisted id s p))

pub sweep-IsPersisted :
    (host : Host) (mode : AttachMode) (ttl : ℕ) (us : Dict UploadRecord) (s : Gateway)
    → AreApart host us
    → IsPersisted s
    → IsPersisted (sweep host mode ttl us s)
unfolding sweep
sweep-IsPersisted host mode ttl [] s apart p = p
sweep-IsPersisted host mode ttl ((id, r) ∷ us) s (home, apart) p =
    sweep-IsPersisted host mode ttl us _ apart (sweep_one-IsPersisted host mode id r _ s home p)

pub sweep_expired-IsPersisted :
    (host : Host) (s : Gateway)
    → AreApart host s.uploads
    → IsPersisted s
    → IsPersisted (sweep_expired_uploads host s)
unfolding sweep_expired_uploads
sweep_expired-IsPersisted host s apart p =
    sweep-IsPersisted host _ s.config.attach_ttl s.uploads s apart p

-- Nothing is known of an id.
pub record IsNew (id : Text) (s : Gateway) : Type 0 where
  pub uploads : get id s.uploads ≡ none
  pub files : get id s.disk_meta ≡ none

pub get-remove-none :
    {V : Type 0} (dir id : Text) (m : Dict V) → get id m ≡ none → get id (remove dir m) ≡ none
get-remove-none dir id m h = ground (arith, get-remove dir id m, h)

pub remove_file-none :
    (at : Option Text) (id : Text) (m : Dict UploadMeta)
    → get id m ≡ none
    → get id (remove_file at m) ≡ none
unfolding remove_file
remove_file-none none id m h = h
remove_file-none (some dir) id m h = get-remove-none dir id m h

pub remove_dir-none :
    (host : Host) (dir id : Text) (m : Dict UploadMeta)
    → get id m ≡ none
    → get id (remove_dir host dir m) ≡ none
unfolding remove_dir
remove_dir-none host dir id m h = elim (Bool-cases (host.can_remove dir)) [
  | inl b ↦ rw b (get-remove-none dir id m h)
  | inr b ↦ rw b h
]

pub sweep_one-IsNew :
    (host : Host) (mode : AttachMode) (j : Text) (r : UploadRecord) (b : Bool) (id : Text)
    (s : Gateway)
    → IsNew id s
    → IsNew id (sweep_one host mode j r b s)
unfolding sweep_one
sweep_one-IsNew host mode j r false id s n = n
sweep_one-IsNew host memory j r true id s n = record {
  uploads = get-remove-none j id s.uploads n.uploads;
  files = n.files;
}
sweep_one-IsNew host disk j r true id s n = record {
  uploads = get-remove-none j id s.uploads n.uploads;
  files =
      remove_file-none (host.meta_at r.path) id _ (remove_dir-none host j id s.disk_meta n.files);
}

pub sweep-IsNew :
    (host : Host) (mode : AttachMode) (ttl : ℕ) (us : Dict UploadRecord) (id : Text) (s : Gateway)
    → IsNew id s
    → IsNew id (sweep host mode ttl us s)
unfolding sweep
sweep-IsNew host mode ttl [] id s n = n
sweep-IsNew host mode ttl ((j, r) ∷ us) id s n =
    sweep-IsNew host mode ttl us id _ (sweep_one-IsNew host mode j r _ id s n)
