-- ===== src/Hub/Events/Sequence.antt =====
-- The sequence numbers that a subscription sees.
use mathlib.Core.Option
use atlas_bot.Common.{
  ℕ, zero, suc, ◌+◌, ◌≤◌, ◌<◌, Text, text_eq, text_eq_iff, ◌&&◌, Option, none, some, List, [], ◌∷◌,
  ◌++◌, ◌≡◌, refl, sym, ◌∙◌, ap, arith, Dict, get, get-insert, Distinct, Bool-cases, inl, inr,
  if◌then◌else◌, unwrap_or, succ_u64, succ_u64_lem, max_u64, append_nil, append_assoc,
}
use atlas_bot.Json.{Json, and_then}
use atlas_bot.Hub.Types.{ConnSubs, Event, Hub}
use atlas_bot.Hub.Events.{fan_seq, fan_one, fan_out, fanout_event}

-- the numbers of the events of an agent that go to a connection
pub seqs_of : Text → Text → List Event → List ℕ
seqs_of conn id [] = []
seqs_of conn id (e ∷ es) =
    let rest = seqs_of conn id es in
    if text_eq e.conn conn && text_eq e.agent_id id then e.seq ∷ rest else rest

-- the next number of a connection's subscription to an agent, if it has one
unfoldable pub counter : Text → Text → Dict ConnSubs → Option ℕ
counter conn id subs = and_then (get conn subs) (λ cs. get id cs.seqs)

abbrev listed : Option ℕ → List ℕ
listed none = []
listed (some n) = n ∷ []

seqs_of-append :
    (conn id : Text) (xs ys : List Event)
    → seqs_of conn id (xs ++ ys) ≡ seqs_of conn id xs ++ seqs_of conn id ys
unfolding seqs_of
seqs_of-append conn id [] ys = refl
seqs_of-append conn id (e ∷ xs) ys = ground (arith, seqs_of-append conn id xs ys)

-- One connection.
module _ (conn id channel : Text) (body : Json) (cs : ConnSubs) where
  fan_seq-lem :
      (o : Option ℕ) (a : Text)
      → get id cs.seqs ≡ o
      → (get a (fan_seq conn id channel body cs o).0.seqs
          ≡ (if text_eq id a then Option.map succ_u64 o else get a cs.seqs))
        × ((c : Text)
            → seqs_of c a (fan_seq conn id channel body cs o).1
              ≡ (if text_eq conn c && text_eq id a then listed o else []))
  unfolding fan_seq seqs_of
  fan_seq-lem none a e = (ground (arith, e, text_eq_iff id a), λ c. ground arith)
  fan_seq-lem (some n) a e =
      (ground (arith, get-insert id a (succ_u64 n) cs.seqs), λ c. ground arith)

  fan_one-seqs :
      (a : Text)
      → get a (fan_one conn id channel body cs).0.seqs
        ≡ (if text_eq id a then Option.map succ_u64 (get id cs.seqs) else get a cs.seqs)
  unfolding fan_one
  fan_one-seqs a = (fan_seq-lem (get id cs.seqs) a refl).0

  fan_one-events :
      (c a : Text)
      → seqs_of c a (fan_one conn id channel body cs).1
        ≡ (if text_eq conn c && text_eq id a then listed (get id cs.seqs) else [])
  unfolding fan_one
  fan_one-events c a = (fan_seq-lem (get id cs.seqs) a refl).1 c

-- All connections.
module _ (id channel : Text) (body : Json) where
  fan_out-keys :
      (subs : Dict ConnSubs) (c : Text)
      → get c subs ≡ none
      → get c (fan_out id channel body subs).0 ≡ none
  unfolding fan_out get
  fan_out-keys [] c h = refl
  fan_out-keys ((conn, cs) ∷ subs) c h = ground (arith, h, fan_out-keys subs c)

  fan_out-Distinct :
      (subs : Dict ConnSubs) → Distinct subs → Distinct (fan_out id channel body subs).0
  unfolding fan_out
  fan_out-Distinct [] d = tt
  fan_out-Distinct ((conn, cs) ∷ subs) (new, d) =
      (fan_out-keys subs conn new, fan_out-Distinct subs d)

  fan_out-counter :
      (subs : Dict ConnSubs) (c a : Text)
      → counter c a (fan_out id channel body subs).0
        ≡ (if text_eq id a then Option.map succ_u64 (counter c a subs) else counter c a subs)
  unfolding fan_out counter get
  fan_out-counter [] c a = ground arith
  fan_out-counter ((conn, cs) ∷ subs) c a =
      ground
        (arith, fan_out-counter subs c a, fan_one-seqs conn id channel body cs a, text_eq_iff id a)

  fan_out-unsubscribed :
      (subs : Dict ConnSubs) (c a : Text)
      → get c subs ≡ none
      → seqs_of c a (fan_out id channel body subs).1 ≡ []
  unfolding fan_out get seqs_of
  fan_out-unsubscribed [] c a h = refl
  fan_out-unsubscribed ((conn, cs) ∷ subs) c a h = ground (
    arith,
    h,
    fan_out-unsubscribed subs c a,
    fan_one-events conn id channel body cs c a,
    seqs_of-append c a (fan_one conn id channel body cs).1 (fan_out id channel body subs).1,
  )

  fan_out-events :
      (subs : Dict ConnSubs) (c a : Text)
      → Distinct subs
      → seqs_of c a (fan_out id channel body subs).1
        ≡ (if text_eq id a then listed (counter c a subs) else [])
  unfolding fan_out counter get seqs_of
  fan_out-events [] c a d = ground arith
  fan_out-events ((conn, cs) ∷ subs) c a (new, d) =
      let split =
        seqs_of-append c a (fan_one conn id channel body cs).1 (fan_out id channel body subs).1 in
      elim (Bool-cases (text_eq conn c)) [
        | inl same ↦
            let none_there : get c subs ≡ none =
              ap (λ k. get k subs) (sym ((text_eq_iff conn c).0 same)) ∙ new in
            ground (
              arith,
              same,
              split,
              fan_one-events conn id channel body cs c a,
              text_eq_iff id a,
              fan_out-unsubscribed subs c a none_there,
              append_nil (seqs_of c a (fan_one conn id channel body cs).1),
            )
        | inr other ↦ ground (
          arith,
          other,
          split,
          fan_one-events conn id channel body cs c a,
          text_eq_iff id a,
          fan_out-events subs c a d,
        )
      ]

-- Any number of events, each with its agent, channel and body.
unfoldable pub fanout_all : {G : Type 0} → List (Text × (Text × Json)) → Hub G → Hub G
fanout_all [] h = h
fanout_all ((id, (channel, body)) ∷ es) h = fanout_all es (fanout_event id channel body h)

-- how many of them are of an agent
unfoldable pub count_of : Text → List (Text × (Text × Json)) → ℕ
count_of a [] = 0
count_of a ((id, _) ∷ es) = let n = count_of a es in if text_eq id a then suc n else n

pub from_to : ℕ → ℕ → List ℕ
from_to n zero = []
from_to n (suc k) = n ∷ from_to (n + 1) k

-- the numbers that a subscription gets for so many events
abbrev pub numbers : Option ℕ → ℕ → List ℕ
numbers none k = []
numbers (some n) k = from_to n k

module _ {G : Type 0} (conn a : Text) where
  fanout_event-lem :
      (id channel : Text) (body : Json) (h : Hub G)
      → Distinct h.subs
      → (seqs_of conn a (fanout_event id channel body h).sent
          ≡ seqs_of conn a h.sent ++ (if text_eq id a then listed (counter conn a h.subs) else []))
        × (counter conn a (fanout_event id channel body h).subs ≡ (
            if text_eq id a
            then Option.map succ_u64 (counter conn a h.subs)
            else counter conn a h.subs))
        × Distinct (fanout_event id channel body h).subs
  unfolding fanout_event
  fanout_event-lem id channel body h d = (
    seqs_of-append conn a h.sent _
        ∙ ap (λ l. seqs_of conn a h.sent ++ l) (fan_out-events id channel body h.subs conn a d),
    fan_out-counter id channel body h.subs conn a,
    fan_out-Distinct id channel body h.subs d,
  )

  fanout_all-subscribed :
      (es : List (Text × (Text × Json))) (n : ℕ) (h : Hub G)
      → Distinct h.subs
      → counter conn a h.subs ≡ some n
      → n + count_of a es ≤ max_u64
      → seqs_of conn a (fanout_all es h).sent ≡ seqs_of conn a h.sent ++ from_to n (count_of a es)
  unfolding fanout_all count_of from_to
  fanout_all-subscribed [] n h d at room = sym (append_nil (seqs_of conn a h.sent))
  fanout_all-subscribed ((id, (channel, body)) ∷ es) n h d at room =
      let (sent, next, d') = fanout_event-lem id channel body h d in
      let h' = fanout_event id channel body h in
      elim (Bool-cases (text_eq id a)) [
        | inl same ↦
            let room_there : n + suc (count_of a es) ≤ max_u64 = rw same at room in
            let below : n < max_u64 = omega arith in
            let next' : counter conn a h'.subs ≡ some (n + 1) =
              ground (arith, next, same, at, succ_u64_lem n below) in
            let sent' : seqs_of conn a h'.sent ≡ seqs_of conn a h.sent ++ n ∷ [] =
              ground (arith, sent, same, at) in
            rw same (
              fanout_all-subscribed es (n + 1) h' d' next' (omega arith)
              ∙ ap (λ l. l ++ from_to (n + 1) (count_of a es)) sent'
              ∙ append_assoc (seqs_of conn a h.sent) (n ∷ []) (from_to (n + 1) (count_of a es)))
        | inr other ↦
            let next' : counter conn a h'.subs ≡ some n = ground (arith, next, other, at) in
            let sent' : seqs_of conn a h'.sent ≡ seqs_of conn a h.sent ++ [] =
              ground (arith, sent, other) in
            rw other (
              fanout_all-subscribed es n h' d' next' (rw other at room)
              ∙ ap (λ l. l ++ from_to n (count_of a es))
                  (sent' ∙ append_nil (seqs_of conn a h.sent)))
      ]

  fanout_all-unsubscribed :
      (es : List (Text × (Text × Json))) (h : Hub G)
      → Distinct h.subs
      → counter conn a h.subs ≡ none
      → seqs_of conn a (fanout_all es h).sent ≡ seqs_of conn a h.sent
  unfolding fanout_all
  fanout_all-unsubscribed [] h d at = refl
  fanout_all-unsubscribed ((id, (channel, body)) ∷ es) h d at =
      let (sent, next, d') = fanout_event-lem id channel body h d in
      let h' = fanout_event id channel body h in
      let next' : counter conn a h'.subs ≡ none = ground (arith, next, at) in
      let sent' : seqs_of conn a h'.sent ≡ seqs_of conn a h.sent ++ [] = ground (arith, sent, at) in
      fanout_all-unsubscribed es h' d' next' ∙ sent' ∙ append_nil (seqs_of conn a h.sent)

  fanout_all-cases :
      (o : Option ℕ) (es : List (Text × (Text × Json))) (h : Hub G)
      → Distinct h.subs
      → counter conn a h.subs ≡ o
      → unwrap_or o 0 + count_of a es ≤ max_u64
      → seqs_of conn a (fanout_all es h).sent ≡ seqs_of conn a h.sent ++ numbers o (count_of a es)
  fanout_all-cases none es h d at room =
      fanout_all-unsubscribed es h d at ∙ sym (append_nil (seqs_of conn a h.sent))
  fanout_all-cases (some n) es h d at room = fanout_all-subscribed es n h d at room

  -- Send any events of any agents, while no counter passes the largest `u64`. A connection whose
  -- subscription to an agent stands at `n` gets the events of that agent under the numbers n, n + 1,
  -- …, without a gap and without a repetition; a connection without that subscription gets none.
  pub fanout_all-seqs :
      (es : List (Text × (Text × Json))) (h : Hub G)
      → Distinct h.subs
      → unwrap_or (counter conn a h.subs) 0 + count_of a es ≤ max_u64
      → seqs_of conn a (fanout_all es h).sent
        ≡ seqs_of conn a h.sent ++ numbers (counter conn a h.subs) (count_of a es)
  fanout_all-seqs es h d room = fanout_all-cases (counter conn a h.subs) es h d refl room
