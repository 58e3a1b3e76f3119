-- ===== src/Gateway/Types/Records.antt =====
-- The errors, the records and the shared state of crates/atlas-bot-gateway/src/lib.rs.
use atlas_bot.Common.{ℕ, Text, Bool, Option, none, some, List, ◌⊎◌, Dict, ◌≡◌, refl, arith}
use atlas_bot.Json.{Json}

pub data GatewayError : Type 0 where
  unknown_method invalid_args agent_not_found upstream : Text → GatewayError
  rejected : Text → Option Text → GatewayError

pub data Result {ℓ} (A : Type ℓ) : Type ℓ where
  ok : A → Result A
  err : GatewayError → Result A

-- `and_then`, for the `?` of a function that has no state
abbrev pub and_then {ℓ κ} : {A : Type ℓ} {B : Type κ} → Result A → (A → Result B) → Result B
and_then (ok a) f = f a
and_then (err e) f = err e

abbrev pub ok_or {ℓ} : {A : Type ℓ} → Option A → GatewayError → Result A
ok_or none e = err e
ok_or (some a) e = ok a

pub data VncMode : Type 0 where
  stub proxy : VncMode

pub data AttachMode : Type 0 where
  memory disk : AttachMode

-- The parts of `GatewayConfig` that the handlers read; durations in milliseconds.
pub record GatewayConfig : Type 0 where
  pub turn_delay : ℕ
  pub vnc_mode : VncMode
  pub attach_mode : AttachMode
  pub attach_root : Text
  pub upload_root : Text
  pub attach_ttl : ℕ

-- `created_at` is a whole number of milliseconds.
pub record AgentRecord : Type 0 where
  pub id : Text
  pub name : Text
  pub description : Text
  pub is_running : Bool
  pub created_at : ℕ
  pub is_group : Bool
  pub member_ids : List Text

pub record TranscriptEntry : Type 0 where
  pub id : Text
  pub role : Text
  pub text : Text
  pub seq : ℕ

pub record UploadRecord : Type 0 where
  pub path : Text
  pub filename : Text
  pub agent_id : Text
  pub bytes : ℕ
  pub created_at : ℕ
  pub state : Text

pub record UploadMeta : Type 0 where
  pub upload_id : Text
  pub path : Text
  pub filename : Text
  pub bytes : ℕ
  pub created_at : ℕ
  pub state : Text
  pub agent_id : Text

pub record ChannelTokenEntry : Type 0 where
  pub token : Text
  pub status : Text
  pub detail : Text

abbrev pub ChannelStore : Type 0
ChannelStore = Dict (Dict ChannelTokenEntry)

-- An `i32`: `minus n` is -(n + 1).
pub data ExitCode : Type 0 where
  plus minus : ℕ → ExitCode

pub data RuntimeHint : Type 0 where
  tool : Text → Text → Text → Option ExitCode → RuntimeHint
  assistant_delta : Text → Text → RuntimeHint
  finished : Text → Text → Text → List TranscriptEntry → RuntimeHint

-- A turn that `send_prompt` has spawned; `turn` names its cancel channel.
pub record Task : Type 0 where
  pub turn : ℕ
  pub agent_id : Text
  pub prompt : Text
  pub delay : ℕ

-- `Shared` with its `Inner`. `pending` holds the cancel channel of each agent's turn. Beside the
-- fields of the source: the spawned tasks, a counter that names cancel channels, the hints that were
-- sent, and what the `meta.json` files under the attachment root hold, by directory, where they decode.
-- The upload root is another directory.
pub record Gateway : Type 0 where
  pub config : GatewayConfig
  pub agents : Dict AgentRecord
  pub transcripts : Dict (List TranscriptEntry)
  pub next_entry_seq : Dict ℕ
  pub next_agent_n : ℕ
  pub uploads : Dict UploadRecord
  pub channel_connections : ChannelStore
  pub invokes : ℕ
  pub pending : Dict ℕ
  pub tasks : List Task
  pub next_turn : ℕ
  pub sent : List RuntimeHint
  pub disk_meta : Dict UploadMeta

-- What the libraries and the system answer to a handler: the clock in milliseconds, a new UUID, the
-- errors of the file system, what a `meta.json` decodes to after a write over it failed, by what it
-- decoded to before, whether the removal of a directory removes its `meta.json`, the directory whose
-- `meta.json` the removal of a path removes, the bytes of a JSON value in `serde_json`'s print, what
-- `base64` decodes (an error text, or the bytes), and what bytes decode to as a `meta.json`.
pub record Host : Type 0 where
  pub now : ℕ
  pub uuid : Text
  pub mkdir_error : Option Text
  pub write_error : Option Text
  pub meta_error : Option Text
  pub left : Option UploadMeta → Option UploadMeta
  pub can_remove : Text → Bool
  pub meta_at : Text → Option Text
  pub json_bytes : Json → ℕ
  pub base64_decode : Text → Text ⊎ List ℕ
  pub decode_meta : List ℕ → Option UploadMeta

-- Inversions of a successful step.
pub and_then-eq-ok {ℓ κ} :
    {A : Type ℓ} {B : Type κ} (m : Result A) (f : A → Result B) {b : B}
    → and_then m f ≡ ok b
    → (a : A) × (m ≡ ok a) × (f a ≡ ok b)
and_then-eq-ok (ok a) f h = (a, refl, h)
and_then-eq-ok (err e) f h = cc

pub ok_or-eq-ok {ℓ} :
    {A : Type ℓ} (o : Option A) (e : GatewayError) {a : A} → ok_or o e ≡ ok a → o ≡ some a
ok_or-eq-ok none e h = cc
ok_or-eq-ok (some b) e h = ground arith
