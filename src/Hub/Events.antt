-- ===== src/Hub/Events.antt =====
-- The event fan-out of crates/atlas-bot-hub/src/lib.rs: `fanout_event`, `emit_turn_finished`,
-- `emit_resync_required` and the registration of connections.
pub mod Sequence
pub mod Dedupe
use atlas_bot.Common.{
  ℕ, ◌-◌, Text, codes, text_eq, Bool, false, Option, none, some, List, [], ◌∷◌, ◌++◌, ◌&&◌, Dict,
  get, insert, remove, contains_key, ltb, if◌then◌else◌, succ_u64,
}
use atlas_bot.Json.{Json, str, object}
use atlas_bot.Hub.Types.{ConnSubs, no_subs, Event, Hub, Clock, Wire}
use atlas_bot.Hub.Offbox.{update_row}

-- One connection: nothing where it has no subscription to the agent, else the event with the
-- counter's value, and the counter goes up.
fan_seq : Text → Text → Text → Json → ConnSubs → Option ℕ → ConnSubs × List Event
fan_seq conn id channel body cs none = (cs, [])
fan_seq conn id channel body cs (some n) = (
  record cs { seqs = insert id (succ_u64 n) cs.seqs },
  record { conn = conn; agent_id = id; seq = n; channel = channel; body = body } ∷ [],
)

unfoldable pub fan_one : Text → Text → Text → Json → ConnSubs → ConnSubs × List Event
unfolding fan_seq
fan_one conn id channel body cs = fan_seq conn id channel body cs (get id cs.seqs)

unfoldable pub fan_out : Text → Text → Json → Dict ConnSubs → Dict ConnSubs × List Event
fan_out id channel body [] = ([], [])
fan_out id channel body ((conn, cs) ∷ subs) =
    let (cs', events) = fan_one conn id channel body cs in
    let (subs', rest) = fan_out id channel body subs in ((conn, cs') ∷ subs', events ++ rest)

module _ {G : Type 0} where
  unfoldable pub fanout_event : Text → Text → Json → Hub G → Hub G
  fanout_event id channel body h =
      let (subs', events) = fan_out id channel body h.subs in
      record h { subs = subs'; sent = h.sent ++ events }

  unfoldable pub emit_resync_required : Text → Hub G → Hub G
  emit_resync_required id h =
      fanout_event id (codes "hub:resync_required") (object (("agentId", str id) ∷ [])) h

  unfoldable pub register_connection : Text → Hub G → Hub G
  register_connection conn h = record h {
    subs = if contains_key conn h.subs then h.subs else insert conn no_subs h.subs;
  }

  unfoldable pub unregister_connection : Text → Hub G → Hub G
  unregister_connection conn h = record h { subs = remove conn h.subs }

-- `now.duration_since(t) < 2s`, which is 0 where `t` is later
unfoldable pub recent : ℕ → ℕ → Bool
recent now t = ltb (now - t) 2000

-- `finished_dedupe.retain(...)`
unfoldable pub retain_recent : ℕ → Dict (Text × ℕ) → Dict (Text × ℕ)
retain_recent now [] = []
retain_recent now ((id, (p, t)) ∷ m) =
    let rest = retain_recent now m in if recent now t then (id, (p, t)) ∷ rest else rest

unfoldable pub is_duplicate : ℕ → Text → Option (Text × ℕ) → Bool
is_duplicate now preview none = false
is_duplicate now preview (some (prev, t)) = text_eq prev preview && recent now t

module _ {G : Type 0} (wire : Wire) where
  -- the event, and the agent's row
  unfoldable pub announce : Clock → Text → Text → Hub G → Hub G
  announce clock id preview h =
      let h' =
        fanout_event id (codes "hub:turn_finished") (wire.turn_finished_value id preview) h in
      record h' {
        roster =
            update_row id
              (λ r. record r { status = codes "idle"; last_turn_at = some clock.unix_ms })
              h'.roster;
      }

  unfoldable pub emit_turn_finished : Clock → Text → Text → Hub G → Hub G
  unfolding announce retain_recent is_duplicate
  emit_turn_finished clock id preview h =
      let kept = retain_recent clock.instant h.finished_dedupe in
      if is_duplicate clock.instant preview (get id kept)
      then record h { finished_dedupe = kept }
      else announce clock id preview
          (record h { finished_dedupe = insert id (preview, clock.instant) kept })
