-- ===== src/Gateway/Invariant.antt =====
-- What holds of the gateway's agents, transcripts and counters whatever the commands and turns.
pub mod Agents
pub mod Running
pub mod Attachments
pub mod Commands
pub mod Runs
use atlas_bot.Common.{
  ℕ, ◌+◌, ◌≤◌, ◌<◌, Text, codes, text_eq, text_eq_iff, Bool, true, false, Option, none, some, List,
  [], ◌∷◌, ◌++◌, ◌≡◌, inl, inr, refl, sym, arith, ap, Dict, get, insert, get-insert,
  get-insert_self, Bool-cases, Option-cases, unwrap_or, All, show, show-injective, max_u64,
  succ_u64, succ_u64_lem, some_inj, ◌∙◌, strip_prefix, strip_prefix-append,
}
use mathlib.Core.Path.{subst₂}
use atlas_bot.Gateway.Types.{AgentRecord, TranscriptEntry, Gateway, agent_id}
use atlas_bot.Gateway.Groups.Members.{IsMember}

-- Sequence numbers from `lo` on rise strictly and stay below `hi`.
abbrev pub Rises : ℕ → List TranscriptEntry → ℕ → Type 0
Rises lo [] hi = lo ≤ hi
Rises lo (e ∷ es) hi = (lo ≤ e.seq) × Rises (e.seq + 1) es hi

pub Rises-append :
    (lo : ℕ) (es : List TranscriptEntry) (e : TranscriptEntry)
    → Rises lo es e.seq
    → Rises lo (es ++ e ∷ []) (e.seq + 1)
Rises-append lo [] e h = omega arith
Rises-append lo (d ∷ es) e (h, k) = (h, Rises-append (d.seq + 1) es e k)

-- The parts of the state that the invariant reads.
module _ (agents : Dict AgentRecord) (transcripts : Dict (List TranscriptEntry)) (seqs : Dict ℕ)
    (next_n : ℕ) where
  -- An agent is stored under its own id, which is an `agt_N` that was handed out; the members of a
  -- group are agents and no groups; the transcript's sequence numbers rise strictly from 1 and stay
  -- below the counter.
  pub record AgentOk (k : Text) (a : AgentRecord) : Type 0 where
    pub named : a.id ≡ k
    pub n : ℕ
    pub numbered : k ≡ agent_id n
    pub handed_out : n < next_n
    pub members : All (IsMember agents) a.member_ids
    pub entries : List TranscriptEntry
    pub kept : get k transcripts ≡ some entries
    pub next : ℕ
    pub counted : get k seqs ≡ some next
    pub rises : Rises 1 entries next

  abbrev pub AllOk : Type 0
  AllOk = (k : Text) (a : AgentRecord) → get k agents ≡ some a → AgentOk k a

pub record IsValid (s : Gateway) : Type 0 where
  pub all_ok : AllOk s.agents s.transcripts s.next_entry_seq s.next_agent_n

-- Agents stay, and stay a group or no group.
abbrev pub Extends : Dict AgentRecord → Dict AgentRecord → Type 0
Extends old new =
    (k : Text) (a : AgentRecord)
    → get k old ≡ some a
    → (a' : AgentRecord) × (get k new ≡ some a') × (a'.is_group ≡ a.is_group)

All-IsMember :
    (old new : Dict AgentRecord) (ids : List Text)
    → Extends old new
    → All (IsMember old) ids
    → All (IsMember new) ids
All-IsMember old new [] ext h = tt
All-IsMember old new (id ∷ ids) ext ((a, e, g), h) =
    let (a', e', g') = ext id a e in ((a', e', g' ∙ g), All-IsMember old new ids ext h)

pub agent_id-injective : (m n : ℕ) → m ≤ max_u64 → n ≤ max_u64 → agent_id m ≡ agent_id n → m ≡ n
unfolding agent_id
agent_id-injective m n hm hn e = show-injective m n hm hn (
    some_inj (
      sym (strip_prefix-append (codes "agt_") (show m))
      ∙ ap (strip_prefix (codes "agt_")) e
      ∙ strip_prefix-append (codes "agt_") (show n)))

-- Reading a map after a write, by the two cases of the key.
module _ {ℓ} {V : Type ℓ} (k j : Text) (v : V) (m : Dict V) where
  get-insert_eq : text_eq k j ≡ true → get j (insert k v m) ≡ some v
  get-insert_eq e = rw (get-insert, e)

  get-insert_ne : text_eq k j ≡ false → get j (insert k v m) ≡ get j m
  get-insert_ne e = rw (get-insert, e)

Extends-insert :
    (k : Text) (a a' : AgentRecord) (agents : Dict AgentRecord)
    → get k agents ≡ some a
    → a'.is_group ≡ a.is_group
    → Extends agents (insert k a' agents)
Extends-insert k a a' agents e g j b h = elim (Bool-cases (text_eq k j)) [
  | inl same ↦ (
    a',
    get-insert_eq k j a' agents same,
    g
        ∙ ap (λ r. r.is_group)
            (some_inj (sym e ∙ ap (λ i. get i agents) ((text_eq_iff k j).0 same) ∙ h)),
  )
  | inr other ↦ (b, get-insert_ne k j a' agents other ∙ h, refl)
]

module _ {agents : Dict AgentRecord} {transcripts : Dict (List TranscriptEntry)} {seqs : Dict ℕ}
    {n : ℕ} (v : AllOk agents transcripts seqs n) where
  -- Other ids than the one that is written keep what they had.
  module _ {agents' : Dict AgentRecord} {transcripts' : Dict (List TranscriptEntry)}
      {seqs' : Dict ℕ} {n' : ℕ} (ext : Extends agents agents') (more : n ≤ n') where
    AgentOk-mono :
        {k : Text} {a : AgentRecord}
        → get k transcripts' ≡ get k transcripts
        → get k seqs' ≡ get k seqs
        → AgentOk agents transcripts seqs n k a
        → AgentOk agents' transcripts' seqs' n' k a
    AgentOk-mono et es o = record {
      named = o.named;
      n = o.n;
      numbered = o.numbered;
      handed_out = omega (arith, o.handed_out);
      members = All-IsMember agents agents' _ ext o.members;
      entries = o.entries;
      kept = et ∙ o.kept;
      next = o.next;
      counted = es ∙ o.counted;
      rises = o.rises;
    }

  -- A record is replaced by one with the same id and kind, and members that are allowed.
  pub AllOk-write :
      (k : Text) (a a' : AgentRecord)
      → get k agents ≡ some a
      → a'.id ≡ a.id
      → a'.is_group ≡ a.is_group
      → All (IsMember agents) a'.member_ids
      → AllOk (insert k a' agents) transcripts seqs n
  AllOk-write k a a' e named group members j b h =
      let ext = Extends-insert k a a' agents e group in
      elim (Bool-cases (text_eq k j)) [
        | inl same ↦
            let same_key = (text_eq_iff k j).0 same in
            let same_record : a' ≡ b = some_inj (sym (get-insert_eq k j a' agents same) ∙ h) in
            subst₂ (λ i c. AgentOk (insert k a' agents) transcripts seqs n i c) same_key same_record
              (let o = v k a e in
                record {
                  named = named ∙ o.named;
                  n = o.n;
                  numbered = o.numbered;
                  handed_out = o.handed_out;
                  members = All-IsMember agents (insert k a' agents) _ ext members;
                  entries = o.entries;
                  kept = o.kept;
                  next = o.next;
                  counted = o.counted;
                  rises = o.rises;
                })
        | inr other ↦
            AgentOk-mono ext (omega arith) refl refl
              (v j b (sym (get-insert_ne k j a' agents other) ∙ h))
      ]

  -- An entry with the counter's value is appended, and the counter goes up by one.
  pub AllOk-push :
      (k : Text) (a : AgentRecord) (e : TranscriptEntry) (next : ℕ)
      → get k agents ≡ some a
      → get k seqs ≡ some next
      → e.seq ≡ next
      → next < max_u64
      → AllOk agents
          (insert k (unwrap_or (get k transcripts) [] ++ e ∷ []) transcripts)
          (insert k (succ_u64 e.seq) seqs)
          n
  AllOk-push k a e next found counted numbered room j b h = elim (Bool-cases (text_eq k j)) [
    | inl same ↦
        let key = (text_eq_iff k j).0 same in
        let same_record : a ≡ b = some_inj (sym found ∙ ap (λ i. get i agents) key ∙ h) in
        let o = v k a found in
        let at_next : o.next ≡ e.seq = some_inj (sym o.counted ∙ counted) ∙ sym numbered in
        let below : e.seq < max_u64 = rw numbered room in
        subst₂
          (λ i c.
            AgentOk agents (insert k (unwrap_or (get k transcripts) [] ++ e ∷ []) transcripts)
              (insert k (succ_u64 e.seq) seqs) n i c)
          key same_record
          (record {
            named = o.named;
            n = o.n;
            numbered = o.numbered;
            handed_out = o.handed_out;
            members = o.members;
            entries = unwrap_or (get k transcripts) [] ++ e ∷ [];
            kept = get-insert_self k _ transcripts;
            next = succ_u64 e.seq;
            counted = get-insert_self k _ seqs;
            rises =
                rw (succ_u64_lem e.seq below, o.kept)
                  (Rises-append 1 o.entries e (rw (← at_next) o.rises));
          })
    | inr other ↦
        AgentOk-mono (λ i c g. (c, g, refl)) (omega arith) (get-insert_ne k j _ transcripts other)
          (get-insert_ne k j _ seqs other) (v j b h)
  ]

  -- The next id is new, so adding an agent under it replaces nothing.
  pub agent_id_fresh : n ≤ max_u64 → get (agent_id n) agents ≡ none
  agent_id_fresh room = elim (Option-cases (get (agent_id n) agents)) [
    | inl e ↦ e
    | inr (a, e) ↦
        let o = v (agent_id n) a e in
        let taken = agent_id-injective n o.n room (omega (arith, o.handed_out)) o.numbered in
        absurd (omega (arith, o.handed_out))
  ]

  Extends-add : (a : AgentRecord) → n ≤ max_u64 → Extends agents (insert (agent_id n) a agents)
  Extends-add a room j b h = elim (Bool-cases (text_eq (agent_id n) j)) [
    | inl same ↦ absurd (cc ((text_eq_iff (agent_id n) j).0 same, agent_id_fresh room, h))
    | inr other ↦ (b, get-insert_ne (agent_id n) j a agents other ∙ h, refl)
  ]

  -- An agent is added under the next id.
  pub AllOk-add :
      (a : AgentRecord) (seed : TranscriptEntry)
      → n < max_u64
      → a.id ≡ agent_id n
      → All (IsMember agents) a.member_ids
      → seed.seq ≡ 1
      → AllOk
          (insert (agent_id n) a agents)
          (insert (agent_id n) (seed ∷ []) transcripts)
          (insert (agent_id n) 2 seqs)
          (succ_u64 n)
  AllOk-add a seed room named members first j b h = elim (Bool-cases (text_eq (agent_id n) j)) [
    | inl same ↦
        let key = (text_eq_iff (agent_id n) j).0 same in
        let same_record : a ≡ b = some_inj (sym (get-insert_eq (agent_id n) j a agents same) ∙ h) in
        subst₂
          (λ i c.
            AgentOk (insert (agent_id n) a agents) (insert (agent_id n) (seed ∷ []) transcripts)
              (insert (agent_id n) 2 seqs) (succ_u64 n) i c)
          key same_record
          (record {
            named = named;
            n = n;
            numbered = refl;
            handed_out = omega (arith, succ_u64_lem n room);
            members = All-IsMember agents _ _ (Extends-add a (omega arith)) members;
            entries = seed ∷ [];
            kept = get-insert_self (agent_id n) _ transcripts;
            next = 2;
            counted = get-insert_self (agent_id n) _ seqs;
            rises = omega (arith, first);
          })
    | inr other ↦
        AgentOk-mono (Extends-add a (omega arith)) (omega (arith, succ_u64_lem n room))
          (get-insert_ne (agent_id n) j _ transcripts other)
          (get-insert_ne (agent_id n) j _ seqs other)
          (v j b (sym (get-insert_ne (agent_id n) j a agents other) ∙ h))
  ]
