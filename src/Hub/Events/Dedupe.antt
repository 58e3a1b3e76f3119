-- ===== src/Hub/Events/Dedupe.antt =====
-- A turn's end is announced once.
use atlas_bot.Common.{
  ℕ, ◌+◌, ◌<◌, Text, codes, text_eq_refl, true, false, none, some, [], ◌∷◌, ◌++◌, ◌≡◌, refl, sym,
  ◌∙◌, ap, arith, Dict, get, insert, get-insert_self,
}
use atlas_bot.Hub.Types.{Hub, Clock, Wire}
use atlas_bot.Hub.Events.{
  recent, retain_recent, is_duplicate, announce, emit_turn_finished, fan_out, fanout_event,
}

get-retain_none :
    (now : ℕ) (m : Dict (Text × ℕ)) (id : Text)
    → get id m ≡ none
    → get id (retain_recent now m) ≡ none
unfolding get retain_recent
get-retain_none now [] id h = refl
get-retain_none now ((k, (p, t)) ∷ m) id h = ground (arith, h, get-retain_none now m id)

get-retain :
    (now : ℕ) (m : Dict (Text × ℕ)) (id p : Text) (t : ℕ)
    → get id m ≡ some (p, t)
    → recent now t ≡ true
    → get id (retain_recent now m) ≡ some (p, t)
unfolding get retain_recent
get-retain now [] id p t h r = cc
get-retain now ((k, (q, u)) ∷ m) id p t h r = ground (arith, h, r, get-retain now m id p t)

recent_lem : (now t : ℕ) → now < t + 2000 → recent now t ≡ true
unfolding recent
recent_lem now t h = ground (arith, h)

module _ {G : Type 0} (wire : Wire) where
  -- the hub after the end of a turn that is announced
  announced : Clock → Text → Text → Hub G → Hub G
  announced clock id preview h = announce wire clock id preview (record h {
    finished_dedupe =
        insert id (preview, clock.instant) (retain_recent clock.instant h.finished_dedupe);
  })

  emit_new :
      (clock : Clock) (id preview : Text) (h : Hub G)
      → is_duplicate clock.instant preview (get id (retain_recent clock.instant h.finished_dedupe))
        ≡ false
      → emit_turn_finished wire clock id preview h ≡ announced clock id preview h
  unfolding emit_turn_finished announced
  emit_new clock id preview h new = rw new refl

  emit_again :
      (clock : Clock) (id preview : Text) (t : ℕ) (h : Hub G)
      → get id h.finished_dedupe ≡ some (preview, t)
      → recent clock.instant t ≡ true
      → emit_turn_finished wire clock id preview h
        ≡ record h { finished_dedupe = retain_recent clock.instant h.finished_dedupe }
  unfolding emit_turn_finished is_duplicate
  emit_again clock id preview t h there r =
      rw (get-retain clock.instant h.finished_dedupe id preview t there r, text_eq_refl, r) refl

  announced-noted :
      (clock : Clock) (id preview : Text) (h : Hub G)
      → get id (announced clock id preview h).finished_dedupe ≡ some (preview, clock.instant)
  unfolding announced announce fanout_event
  announced-noted clock id preview h = get-insert_self _ _ _

  announced-sent :
      (clock : Clock) (id preview : Text) (h : Hub G)
      → (announced clock id preview h).sent
        ≡ h.sent
          ++ (fan_out id (codes "hub:turn_finished") (wire.turn_finished_value id preview) h.subs).1
  unfolding announced announce fanout_event
  announced-sent clock id preview h = refl

  -- Where the end of a turn is no repetition, it is announced to every subscribed connection; the
  -- same end again within two seconds sends nothing and leaves all counters and the roster as they
  -- were.
  pub emit_turn_finished_twice :
      (first second : Clock) (id preview : Text) (h : Hub G)
      → is_duplicate first.instant preview (get id (retain_recent first.instant h.finished_dedupe))
        ≡ false
      → second.instant < first.instant + 2000
      → (let h1 = emit_turn_finished wire first id preview h in
          let h2 = emit_turn_finished wire second id preview h1 in
          (h1.sent
            ≡ h.sent
              ++ (fan_out id
                  (codes "hub:turn_finished")
                  (wire.turn_finished_value id preview)
                  h.subs).1)
          × (h2.sent ≡ h1.sent)
          × (h2.subs ≡ h1.subs)
          × (h2.roster ≡ h1.roster))
  emit_turn_finished_twice first second id preview h new soon =
      let one = emit_new first id preview h new in
      let close : recent second.instant first.instant ≡ true =
        recent_lem second.instant first.instant soon in
      let two =
        emit_again second id preview first.instant (announced first id preview h)
          (announced-noted first id preview h) close in
      let both = ap (emit_turn_finished wire second id preview) one ∙ two in
      (
        ap (λ k. k.sent) one ∙ announced-sent first id preview h,
        ap (λ k. k.sent) both ∙ sym (ap (λ k. k.sent) one),
        ap (λ k. k.subs) both ∙ sym (ap (λ k. k.subs) one),
        ap (λ k. k.roster) both ∙ sym (ap (λ k. k.roster) one),
      )
