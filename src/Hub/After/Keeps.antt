-- ===== src/Hub/After/Keeps.antt =====
-- Changes of the hub that leave the gateway and the hit counters alone.
use atlas_bot.Common.{
  Text, codes, Bool, true, false, Option, none, some, List, ◌≡◌, refl, ◌∙◌, if◌then◌else◌,
}
use atlas_bot.Json.{Json, get_array}
use atlas_bot.Hub.Types.{Hub, Clock, Wire}
use atlas_bot.Hub.Offbox.{
  seed_offbox, ingest_turn_entries, append_offbox_entry, upsert_roster_agent,
}
use atlas_bot.Hub.Events.{fanout_event, announce, emit_turn_finished}
use atlas_bot.Hub.After
use atlas_bot.Hub.After.{after_command_success}

pub record Keeps {G : Type 0} (before after : Hub G) : Type 0 where
  pub gateway_same : after.gateway ≡ before.gateway
  pub cold_same : after.cold_hits ≡ before.cold_hits
  pub hot_same : after.hot_hits ≡ before.hot_hits

module _ {G : Type 0} where
  pub Keeps-refl : (h : Hub G) → Keeps h h
  Keeps-refl h = record { gateway_same = refl; cold_same = refl; hot_same = refl }

  Keeps-trans : {h k l : Hub G} → Keeps h k → Keeps k l → Keeps h l
  Keeps-trans p q = record {
    gateway_same = q.gateway_same ∙ p.gateway_same;
    cold_same = q.cold_same ∙ p.cold_same;
    hot_same = q.hot_same ∙ p.hot_same;
  }

  Keeps-if : (b : Bool) (h k l : Hub G) → Keeps h k → Keeps h l → Keeps h (if b then k else l)
  Keeps-if true h k l p q = p
  Keeps-if false h k l p q = q

module _ {G : Type 0} (wire : Wire) (clock : Clock) where
  Keeps-emit :
      (id preview : Text) (h : Hub G) → Keeps h (emit_turn_finished wire clock id preview h)
  unfolding emit_turn_finished announce fanout_event
  Keeps-emit id preview h =
      Keeps-if _ _ _ _ record { gateway_same = refl; cold_same = refl; hot_same = refl }
        record { gateway_same = refl; cold_same = refl; hot_same = refl }

  Keeps-take :
      (id : Text) (o : Option (List Json)) (h : Hub G)
      → Keeps h (After.take_entries wire clock id o h)
  unfolding After.take_entries seed_offbox ingest_turn_entries
  Keeps-take id none h = Keeps-refl h
  Keeps-take id (some vs) h =
      Keeps-if _ _ _ _ record { gateway_same = refl; cold_same = refl; hot_same = refl }
        record { gateway_same = refl; cold_same = refl; hot_same = refl }

  Keeps-prompt :
      (id : Text) (r : Json) (h : Hub G) → Keeps h (After.after_send_prompt wire clock id r h)
  unfolding After.after_send_prompt
  Keeps-prompt id r h = Keeps-if _ _ _ _ (Keeps-refl h) (
      let p = Keeps-take id (get_array "entries" r) h in
      Keeps-if _ _ _ _ p (Keeps-trans p (Keeps-emit id _ _)))

  Keeps-seed_from :
      (id : Text) (o : Option (List Json)) (h : Hub G)
      → Keeps h (elim o as (λ _. Hub G) [ none ↦ h | some vs ↦ seed_offbox id vs h ])
  unfolding seed_offbox
  Keeps-seed_from id none h = Keeps-refl h
  Keeps-seed_from id (some vs) h = record { gateway_same = refl; cold_same = refl; hot_same = refl }

  Keeps-created :
      (o : Option Text) (r : Json) (h : Hub G)
      → Keeps h (elim o as (λ _. Hub G) [
        | none ↦ h
        | some id ↦
            After.seed_from wire clock id r
              (upsert_roster_agent id (After.agent_name r) (codes "unknown") h)
      ])
  unfolding After.seed_from upsert_roster_agent
  Keeps-created none r h = Keeps-refl h
  Keeps-created (some id) r h =
      Keeps-trans record { gateway_same = refl; cold_same = refl; hot_same = refl }
        (Keeps-seed_from id _ _)

  Keeps-create : (r : Json) (h : Hub G) → Keeps h (After.after_create_agent wire clock r h)
  unfolding After.after_create_agent
  Keeps-create r h = Keeps-created _ r h

  Keeps-interrupt :
      (id : Text) (args r : Json) (h : Hub G)
      → Keeps h (After.after_interrupt wire clock id args r h)
  unfolding After.after_interrupt append_offbox_entry
  Keeps-interrupt id args r h =
      Keeps-if _ _ _ _ record { gateway_same = refl; cold_same = refl; hot_same = refl }
        (Keeps-refl h)

  Keeps-tailed :
      (id : Text) (o : Option (List Json)) (h : Hub G)
      → Keeps h (elim o as (λ _. Hub G) [ none ↦ h | some vs ↦ seed_offbox id vs h ])
  Keeps-tailed id o h = Keeps-seed_from id o h

  Keeps-tail : (id : Text) (r : Json) (h : Hub G) → Keeps h (After.after_tail wire clock id r h)
  unfolding After.after_tail
  Keeps-tail id r h = Keeps-tailed _ _ h

  pub Keeps-success :
      (name id : Text) (args r : Json) (h : Hub G)
      → Keeps h (after_command_success wire clock name id args r h)
  unfolding after_command_success
  Keeps-success name id args r h = Keeps-if _ _ _ _ (Keeps-prompt id r h) (
      Keeps-if _ _ _ _ (Keeps-create r h) (
        Keeps-if _ _ _ _ (Keeps-interrupt id args r h)
          (Keeps-if _ _ _ _ (Keeps-tail id r h) (Keeps-refl h))))
