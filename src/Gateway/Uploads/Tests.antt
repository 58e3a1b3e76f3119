-- ===== src/Gateway/Uploads/Tests.antt =====
-- Uploads at concrete inputs.
use atlas_bot.Common.{
  ℕ, ◌+◌, codes, text_eq, none, some, [], ◌∷◌, ◌++◌, inr, ◌≡◌, refl, arith, get, insert, true,
  is_ascii_alphanumeric, trim, if◌then◌else◌, leb,
}
use atlas_bot.Json.{Json, str, object, get_str, get_nonempty, nonempty, get_key}
use atlas_bot.Gateway.Types.{
  ok, err, GatewayConfig, stub, disk, UploadRecord, Host, Gateway, with_config, rejected,
}
use atlas_bot.Gateway.Types.{◌>>=◌, modify, lift, read, pure, load_disk_uploads, to_meta}
use atlas_bot.Gateway.Uploads.{
  sweep_expired_uploads, sweep, store_upload, root_of, no_error, persist, wrote_bytes, noted,
  set_meta, read_upload, upload_attachment, attach_upload, safe_name,
}
use atlas_bot.Gateway.Uploads.Storing.{reply_of, upload_path}
use atlas_bot.Gateway.Uploads.Lifetime.{attach_upload-upload_attachment}
use atlas_bot.Gateway.Uploads.Removing.{AreApart}
use atlas_bot.Gateway.Uploads.Persistence.{Fits, begun, uploaded, restart_keeps_uploads}

abbrev config : GatewayConfig
config = record {
  turn_delay = 50;
  vnc_mode = stub;
  attach_mode = disk;
  attach_root = codes "/attach";
  upload_root = codes "/upload";
  attach_ttl = 1000;
}

abbrev host_at : ℕ → Host
host_at now = record {
  now = now;
  uuid = codes "u1";
  mkdir_error = none;
  write_error = none;
  meta_error = none;
  left = λ o. none;
  can_remove = λ _. true;
  meta_at = λ path. none;
  json_bytes = λ _. 100;
  base64_decode = λ _. inr (104 ∷ 105 ∷ []);
  decode_meta = λ bytes. none;
}

abbrev empty : Gateway
empty = with_config config (λ _. true) []

abbrev upload_args : Json
upload_args =
    object (("filename", str (codes "a b.txt")) ∷ ("bytesBase64", str (codes "aGk=")) ∷ [])

abbrev attach_args : Json
attach_args = object (("uploadId", str (codes "upl_u1")) ∷ [])

upload_read : read_upload (host_at 5000) upload_args ≡ ok (codes "a_b.txt", 104 ∷ 105 ∷ [])
unfolding read_upload get_str get_nonempty nonempty get_key trim codes safe_name
    is_ascii_alphanumeric
upload_read = refl

upload_asked : get_nonempty "uploadId" attach_args ≡ some (codes "upl_" ++ codes "u1")
unfolding get_nonempty get_str nonempty get_key trim codes
upload_asked = refl

attach_upload-upload_attachment_example :
    ((upload_attachment (host_at 5000) (codes "agt_1") upload_args empty).0
      ≡ reply_of (host_at 5000) (codes "a_b.txt") empty)
    × ((attach_upload
          (host_at 5999)
          attach_args
          (upload_attachment (host_at 5000) (codes "agt_1") upload_args empty).1).0
        ≡ (if leb (5000 + 1000) 5999
            then err (rejected (codes "attachment_not_found") none)
            else ok (
                object (
                  ("path", str (upload_path empty (codes "u1") (codes "a_b.txt")))
                  ∷ ("filename", str (codes "a_b.txt"))
                  ∷ ("agentId", str (codes "agt_1"))
                  ∷ []))))
unfolding with_config load_disk_uploads
attach_upload-upload_attachment_example =
    attach_upload-upload_attachment (host_at 5000) (host_at 5999) (codes "agt_1") (codes "a_b.txt")
      (104 ∷ 105 ∷ []) upload_args attach_args empty tt
      (record { made = refl; written = refl; noted = refl }) upload_read (omega arith) upload_asked

abbrev stored_upload : UploadRecord
stored_upload = record {
  path = codes "/attach/upl_u1/a_b.txt";
  filename = codes "a_b.txt";
  agent_id = codes "agt_1";
  bytes = 2;
  created_at = 5000;
  state = codes "ready";
}

abbrev after : Gateway
after = (upload_attachment (host_at 5000) (codes "agt_1") upload_args empty).1

after_disk : after.config.attach_mode ≡ disk
unfolding upload_attachment read_upload get_str get_nonempty nonempty get_key trim codes safe_name
    ◌>>=◌ modify lift read pure sweep_expired_uploads sweep with_config load_disk_uploads
    store_upload root_of no_error persist wrote_bytes noted set_meta get insert text_eq to_meta
    is_ascii_alphanumeric
after_disk = refl

after_there : get (codes "upl_u1") after.uploads ≡ some stored_upload
unfolding upload_attachment read_upload get_str get_nonempty nonempty get_key trim codes safe_name
    ◌>>=◌ modify lift read pure sweep_expired_uploads sweep with_config load_disk_uploads
    store_upload root_of no_error persist wrote_bytes noted set_meta get insert text_eq to_meta
    is_ascii_alphanumeric
after_there = refl

starts_apart : AreApart (host_at 5000) empty.uploads
unfolding with_config load_disk_uploads
starts_apart = tt

upload-Fits : Fits (host_at 5000) upload_args empty
unfolding with_config load_disk_uploads get
upload-Fits = record {
  uploads = refl;
  files = refl;
  tears = λ o m h. cc;
  plain = λ name bytes read named. refl;
}

restart_keeps_uploads_example :
    get (codes "upl_u1") (with_config after.config (λ _. true) after.disk_meta).uploads
    ≡ some stored_upload
restart_keeps_uploads_example =
    restart_keeps_uploads config (λ _. true) (λ _. true) [] after (codes "upl_u1") stored_upload tt
      tt (uploaded empty (host_at 5000) (codes "agt_1") upload_args begun)
      (starts_apart, upload-Fits, tt) after_disk after_there refl
