-- ===== src/Hub/Types.antt =====
-- The data of crates/atlas-bot-hub/src/lib.rs, and what it takes from the protocol crate and from
-- the gateway.
use atlas_bot.Common.{ℕ, Text, codes, Bool, false, Option, none, List, [], ◌∷◌, ◌⊎◌, Dict}
use atlas_bot.Json.{Json, num, str, object}
use atlas_bot.Gateway.Types.{Result, TranscriptEntry, default_agent_id}

-- `BotRosterEntry`
pub record RosterEntry : Type 0 where
  pub agent_id : Text
  pub name : Text
  pub status : Text
  pub last_turn_at : Option ℕ

pub record ConnSubs : Type 0 where
  pub seqs : Dict ℕ
  pub full_fidelity : Bool

abbrev pub no_subs : ConnSubs
no_subs = record { seqs = []; full_fidelity = false }

-- A `bot.event` on the bus: the connection that it is for, and the parts of its envelope.
pub record Event : Type 0 where
  pub conn : Text
  pub agent_id : Text
  pub seq : ℕ
  pub channel : Text
  pub body : Json

-- `Hub`, over the state of its gateway. `sent` is what went out on the event bus.
pub record Hub (G : Type 0) : Type 0 where
  pub gateway : G
  pub run_state : Json
  pub roster : List RosterEntry
  pub offbox : Dict (List Json)
  pub subs : Dict ConnSubs
  pub sent : List Event
  pub cold_hits : ℕ
  pub hot_hits : ℕ
  pub turn_bridge_active : Bool
  pub finished_dedupe : Dict (Text × ℕ)

-- `atlas_bot_gateway::Gateway`: the two calls that the hub makes
pub record GatewayOps (G : Type 0) : Type 0 where
  pub invoke : Text → Text → Json → G → Result Json × G
  pub vnc_descriptor : Text → G → Result Json × G

-- The clock of `Instant` and that of `SystemTime`, in milliseconds, and a new UUID.
pub record Clock : Type 0 where
  pub instant : ℕ
  pub unix_ms : ℕ
  pub uuid : Text

-- The methods that `handle_rpc` names, and the others that the protocol knows.
pub data Method : Type 0 where
  bot_status bot_roster bot_transcript_offbox bot_subscribe bot_unsubscribe : Method
  bot_command bot_vnc_descriptor bot_bind_conversation hello_method : Method
  other_method : Text → Method

pub record OffboxParams : Type 0 where
  pub agent_id : Text
  pub cursor : Option Text

pub record SubscribeParams : Type 0 where
  pub agent_ids : List Text
  pub full_fidelity : Bool

pub record CommandParams : Type 0 where
  pub agent_id : Text
  pub name : Text
  pub args : Json

pub record Request : Type 0 where
  pub id : Json
  pub method : Text
  pub params : Json

-- What the protocol crate and `serde_json` make of a request's method and parameters (an error
-- text, or the parameters), and of the results. `bot_client` tells whether a hello has that kind,
-- and is otherwise the kind in print.
pub record Wire : Type 0 where
  pub method_of : Text → Option Method
  pub offbox_params : Json → Text ⊎ OffboxParams
  pub subscribe_params : Json → Text ⊎ SubscribeParams
  pub command_params : Json → Text ⊎ CommandParams
  pub vnc_params : Json → Text ⊎ Text
  pub hello : Json → Text ⊎ Json
  pub bot_client : Json → Option Text
  pub ack_value : Text → Text → Json
  pub status_value : Json → Json
  pub roster_value : List RosterEntry → Json
  pub offbox_value : List Json → Option Text → Json
  pub empty_value : Json
  pub vnc_value : Json → Option Json
  pub turn_finished_value : Text → Text → Json
  pub transcript_entry : Json → Option TranscriptEntry

seed_entry : Json
seed_entry = object (
    ("id", str (codes "msg_seed"))
    ∷ ("role", str (codes "assistant"))
    ∷ ("text", str (codes "stub ready"))
    ∷ ("seq", num 1)
    ∷ [])

-- `Hub::new`; `hibernated` is the run state that it starts in
unfoldable pub new_hub : {G : Type 0} → G → Json → Hub G
unfolding seed_entry
new_hub gateway hibernated = record {
  gateway = gateway;
  run_state = hibernated;
  roster =
      record {
        agent_id = default_agent_id;
        name = codes "Watcher";
        status = codes "unknown";
        last_turn_at = none;
      }
      ∷ [];
  offbox = (default_agent_id, seed_entry ∷ []) ∷ [];
  subs = [];
  sent = [];
  cold_hits = 0;
  hot_hits = 0;
  turn_bridge_active = false;
  finished_dedupe = [];
}
