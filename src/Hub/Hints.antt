-- ===== src/Hub/Hints.antt =====
-- Runtime hints: `spawn_turn_bridge` and `apply_runtime_hint` of crates/atlas-bot-hub/src/lib.rs and
-- the ingest of crates/atlas-bot-hub/src/event_ingest.rs.
pub mod Ingest
use atlas_bot.Common.{
  ℕ, Text, codes, text_eq, Bool, true, false, Option, none, some, List, [], ◌∷◌, ◌⊎◌, inl, inr, ltb,
  if◌then◌else◌, ◌or_else◌,
}
use atlas_bot.Json.{Json, null, num, neg, str, object, nonempty, and_then}
use atlas_bot.Gateway.Types.{RuntimeHint, ExitCode, plus, minus, tool, assistant_delta, finished}
use atlas_bot.Hub.Types.{Hub, Clock, Wire}
use atlas_bot.Hub.Offbox.{ingest_turn_entries}
use atlas_bot.Hub.Events.{fanout_event, emit_turn_finished}
use atlas_bot.Hub.Auth.{bearer_from_authorization}

exit_value : Option ExitCode → Json
exit_value none = null
exit_value (some (plus n)) = num n
exit_value (some (minus n)) = neg n

module _ {G : Type 0} (wire : Wire) (clock : Clock) where
  unfoldable pub apply_runtime_hint : RuntimeHint → Hub G → Hub G
  unfolding exit_value
  apply_runtime_hint (tool id name summary code) h =
      fanout_event id (codes "hub:tool")
        (object (
          ("agentId", str id)
          ∷ ("tool", str name)
          ∷ ("summary", str summary)
          ∷ ("exitCode", exit_value code)
          ∷ []))
        h
  apply_runtime_hint (assistant_delta id text) h =
      fanout_event id (codes "hub:assistant_delta")
        (object (("agentId", str id) ∷ ("text", str text) ∷ [])) h
  apply_runtime_hint (finished id preview user entries) h =
      emit_turn_finished wire clock id preview (ingest_turn_entries id entries h)

  -- what `spawn_turn_bridge` does with the hints that it receives, in their order
  unfoldable pub apply_hints : List RuntimeHint → Hub G → Hub G
  apply_hints [] h = h
  apply_hints (x ∷ xs) h = apply_hints xs (apply_runtime_hint x h)

unfoldable pub spawn_turn_bridge : {G : Type 0} → Hub G → Hub G
spawn_turn_bridge h = record h { turn_bridge_active = true }

abbrev pub event_body_max_bytes : ℕ
event_body_max_bytes = 65536

-- `IngestState` beside the hub, and the two headers that are read
pub record IngestConfig : Type 0 where
  pub token : Option Text
  pub allow_insecure : Bool

pub record Headers : Type 0 where
  pub event_token : Option Text
  pub authorization : Option Text

-- `extract_event_token`
unfoldable pub extract_event_token : Headers → Option Text
unfolding nonempty bearer_from_authorization
extract_event_token hs =
    and_then hs.event_token nonempty or_else bearer_from_authorization hs.authorization

pub data Status : Type 0 where
  no_content bad_request unauthorized forbidden payload_too_large : Status

same_token : Text → Option Text → Bool
same_token expected none = false
same_token expected (some got) = text_eq got expected

token_ok : Option Text → Bool → Option Text → Status ⊎ Unit {0}
unfolding same_token
token_ok (some expected) insecure got = if same_token expected got then inr tt else inl unauthorized
token_ok none insecure got = if insecure then inr tt else inl forbidden

module _ {G : Type 0} (wire : Wire) (clock : Clock) where
  take_hint : Text ⊎ RuntimeHint → Hub G → Status × Hub G
  unfolding apply_runtime_hint
  take_hint (inl e) h = (bad_request, h)
  take_hint (inr hint) h = (no_content, apply_runtime_hint wire clock hint h)

  after_token : Status ⊎ Unit {0} → Text ⊎ RuntimeHint → Hub G → Status × Hub G
  unfolding take_hint
  after_token (inl status) body h = (status, h)
  after_token (inr _) body h = take_hint body h

  -- `post_runtime_hint`: the length of the body, and what `serde_json` makes of it
  unfoldable pub post_runtime_hint :
      IngestConfig → Headers → ℕ → Text ⊎ RuntimeHint → Hub G → Status × Hub G
  unfolding token_ok after_token extract_event_token
  post_runtime_hint config hs size body h =
      if ltb event_body_max_bytes size
      then (payload_too_large, h)
      else after_token (token_ok config.token config.allow_insecure (extract_event_token hs)) body h
