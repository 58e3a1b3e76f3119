-- ===== src/Hub/Tests.antt =====
-- The hub's theorems at concrete inputs, over a gateway that counts its calls.
use atlas_bot.Common.{
  ℕ, ◌+◌, ◌≤◌, Text, codes, text_eq, true, false, none, some, List, [], ◌∷◌, ◌++◌, ◌⊎◌, inl, inr,
  ◌≡◌, ◌↔◌, refl, arith, get, if◌then◌else◌, max_u64, unwrap_or,
}
use atlas_bot.Json.{Json, null, num, str, object}
use atlas_bot.Gateway.Types.{ok, RuntimeHint, assistant_delta, TranscriptEntry}
use atlas_bot.Hub.Types.{
  Hub, GatewayOps, Clock, bot_status, bot_command, CommandParams, Request, Wire, new_hub,
}
use atlas_bot.Hub.Offbox.Paging.{all_pages, all_pages_lem}
use atlas_bot.Hub.Events.{is_duplicate, retain_recent, fan_out, emit_turn_finished}
use atlas_bot.Hub.Events.Sequence.{seqs_of, counter, count_of, numbers, fanout_all, fanout_all-seqs}
use atlas_bot.Hub.Events.Dedupe.{emit_turn_finished_twice}
use atlas_bot.Hub.Rpc.{handle_rpc}
use atlas_bot.Hub.Rpc.Cold.{called, is_cold, is_hot, counted, handle_rpc-calls}
use atlas_bot.Hub.Auth.{AuthConfig, static, Jwt, authenticate}
use atlas_bot.Hub.Auth.Gate.{Proves, Enrolled, authenticate_iff}
use atlas_bot.Hub.Session.{Frames, with_auth, on_text}
use atlas_bot.Hub.Session.Opening.{Opening, on_text-Opening}
use atlas_bot.Hub.Hints.{IngestConfig, Headers, extract_event_token, post_runtime_hint}
use atlas_bot.Hub.Hints.Ingest.{Posted, post_runtime_hint-Posted}

abbrev command_params : CommandParams
command_params = record { agent_id = codes "agt_1"; name = codes "listAgents"; args = null }

abbrev test_wire : Wire
test_wire = record {
  method_of = λ m. if text_eq m (codes "bot.command") then some bot_command else some bot_status;
  offbox_params = λ _. inl (codes "no");
  subscribe_params = λ _. inl (codes "no");
  command_params = λ _. inr command_params;
  vnc_params = λ _. inl (codes "no");
  hello = λ v. inr v;
  bot_client = λ _. none;
  ack_value = λ conn user. str conn;
  status_value = λ v. v;
  roster_value = λ _. null;
  offbox_value = λ _ _. null;
  empty_value = null;
  vnc_value = λ _. none;
  turn_finished_value = λ id preview. str preview;
  transcript_entry = λ _. none;
}

abbrev counting : GatewayOps ℕ
counting = record {
  invoke = λ id name args n. (ok args, n + 1);
  vnc_descriptor = λ id n. (ok null, n + 1);
}

abbrev clock_at : ℕ → Clock
clock_at n = record { instant = n; unix_ms = n; uuid = codes "u" }

abbrev test_hub : Hub ℕ
test_hub = record (new_hub 0 null) {
  subs = (codes "c1", record { seqs = (codes "agt_1", 7) ∷ []; full_fidelity = false }) ∷ [];
}

abbrev request : Request
request = record { id = num 1; method = codes "bot.command"; params = null }

handle_rpc-calls_example :
    (let h' = (handle_rpc test_wire (clock_at 1) counting (codes "c1") request test_hub).1 in
      (h'.gateway
        ≡ called test_wire counting
            (test_wire.method_of request.method)
            request.params
            test_hub.gateway)
      × (h'.cold_hits ≡ counted (is_cold (test_wire.method_of request.method)) test_hub.cold_hits)
      × (h'.hot_hits ≡ counted (is_hot (test_wire.method_of request.method)) test_hub.hot_hits))
handle_rpc-calls_example =
    handle_rpc-calls test_wire (clock_at 1) counting (codes "c1") request test_hub

all_pages_lem_example : all_pages 4 (num 1 ∷ num 2 ∷ num 3 ∷ []) none ≡ num 1 ∷ num 2 ∷ num 3 ∷ []
all_pages_lem_example = all_pages_lem (num 1 ∷ num 2 ∷ num 3 ∷ []) (omega arith)

abbrev turn_entry : TranscriptEntry
turn_entry = record { id = codes "msg_u_2"; role = codes "user"; text = codes "hi"; seq = 2 }

abbrev emissions : List (Text × (Text × Json))
emissions =
    (codes "agt_1", (codes "hub:tool", null))
    ∷ (codes "agt_2", (codes "hub:tool", null))
    ∷ (codes "agt_1", (codes "hub:tool", null))
    ∷ []

few_events :
    unwrap_or (counter (codes "c1") (codes "agt_1") test_hub.subs) 0
      + count_of (codes "agt_1") emissions
    ≤ max_u64
unfolding counter count_of get text_eq codes new_hub
few_events = omega arith

fanout_all-seqs_example :
    seqs_of (codes "c1") (codes "agt_1") (fanout_all emissions test_hub).sent
    ≡ seqs_of (codes "c1") (codes "agt_1") test_hub.sent
      ++ numbers
          (counter (codes "c1") (codes "agt_1") test_hub.subs)
          (count_of (codes "agt_1") emissions)
unfolding get
fanout_all-seqs_example =
    fanout_all-seqs (codes "c1") (codes "agt_1") emissions test_hub (refl, tt) few_events

not_yet :
    is_duplicate 1000
      (codes "done")
      (get (codes "agt_1") (retain_recent 1000 test_hub.finished_dedupe))
    ≡ false
unfolding is_duplicate get retain_recent new_hub
not_yet = refl

emit_turn_finished_twice_example :
    (let h1 =
        emit_turn_finished test_wire (clock_at 1000) (codes "agt_1") (codes "done") test_hub in
      let h2 = emit_turn_finished test_wire (clock_at 2500) (codes "agt_1") (codes "done") h1 in
      (h1.sent
        ≡ test_hub.sent
          ++ (fan_out
              (codes "agt_1")
              (codes "hub:turn_finished")
              (test_wire.turn_finished_value (codes "agt_1") (codes "done"))
              test_hub.subs).1)
      × (h2.sent ≡ h1.sent)
      × (h2.subs ≡ h1.subs)
      × (h2.roster ≡ h1.roster))
emit_turn_finished_twice_example =
    emit_turn_finished_twice test_wire (clock_at 1000) (clock_at 2500) (codes "agt_1")
      (codes "done") test_hub not_yet (omega arith)

abbrev test_jwt : Jwt
test_jwt = record {
  decode_hs256 = λ token secret.
      if text_eq token secret
      then inr (record { sub = codes "ann"; aud = none })
      else inl (codes "bad");
  decode_header = λ token. inr none;
  decode = λ key issuer audience token. inl (codes "bad");
  is_user_id = λ _. true;
  debug = λ text. text;
}

abbrev static_config : AuthConfig
static_config = record {
  mode = static;
  jwt_secret = some (codes "k");
  allowlist = some (codes "ann" ∷ []);
  oidc_issuer = none;
  oidc_audience = none;
  jwks_keys = [];
}

authenticate_iff_example :
    (authenticate test_jwt static_config (some (codes "k")) ≡ inr (codes "ann")) ↔ (
      Proves test_jwt static_config static (some (codes "k")) (codes "ann")
      × Enrolled test_jwt static_config (codes "ann") (some (codes "ann" ∷ [])))
authenticate_iff_example = authenticate_iff test_jwt static_config (some (codes "k")) (codes "ann")

abbrev test_frames : Frames
test_frames = record {
  parse = λ t. some (object (("protocol_version", str t) ∷ []));
  request = λ v. none;
}

on_text-Opening_example :
    Opening test_wire
      (clock_at 1)
      counting
      test_jwt
      (with_auth static_config (some (codes "k")))
      test_hub
      (on_text test_wire
        (clock_at 1)
        counting
        test_jwt
        test_frames
        (codes "1")
        (with_auth static_config (some (codes "k")))
        test_hub).1
unfolding with_auth
on_text-Opening_example =
    on_text-Opening test_wire (clock_at 1) counting test_jwt test_frames (codes "1")
      (with_auth static_config (some (codes "k"))) test_hub refl

abbrev test_ingest : IngestConfig
test_ingest = record { token = some (codes "t"); allow_insecure = false }

abbrev test_headers : Headers
test_headers = record { event_token = some (codes " t "); authorization = none }

abbrev delta : Text ⊎ RuntimeHint
delta = inr (assistant_delta (codes "agt_1") (codes "hi"))

post_runtime_hint-Posted_example :
    Posted test_wire
      (clock_at 1)
      test_ingest
      (extract_event_token test_headers)
      40
      delta
      test_hub
      (post_runtime_hint test_wire (clock_at 1) test_ingest test_headers 40 delta test_hub)
post_runtime_hint-Posted_example =
    post_runtime_hint-Posted test_wire (clock_at 1) test_ingest test_headers 40 delta test_hub
