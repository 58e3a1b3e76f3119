-- ===== src/Gateway/Tail/Paging.antt =====
-- Paging backwards through a transcript.
use atlas_bot.Common.{
  ℕ, ◌+◌, ◌-◌, ◌≤◌, ◌<◌, Option, none, some, List, [], ◌∷◌, ◌++◌, ◌≡◌, refl, arith, ap, sym, ◌∙◌,
  length, drop, take, take-append-drop,
}
use atlas_bot.Gateway.Types.{TranscriptEntry}
use atlas_bot.Gateway.Tail.{entries_before, tail_page}
use atlas_bot.Gateway.Invariant.{Rises}

Rises-weaken :
    (lo lo' : ℕ) (es : List TranscriptEntry) (hi : ℕ) → lo' ≤ lo → Rises lo es hi → Rises lo' es hi
Rises-weaken lo lo' [] hi h r = omega arith
Rises-weaken lo lo' (e ∷ es) hi h (r, rs) = (omega arith, rs)

Rises-entries_before :
    (b : Option ℕ) (lo : ℕ) (es : List TranscriptEntry) (hi : ℕ)
    → Rises lo es hi
    → Rises lo (entries_before b es) hi
unfolding entries_before
Rises-entries_before b lo [] hi r = r
Rises-entries_before b lo (e ∷ es) hi (r, rs) =
    let ih = Rises-entries_before b (e.seq + 1) es hi rs in
    ground (arith, ih, Rises-weaken (e.seq + 1) lo (entries_before b es) hi (omega arith) ih)

entries_before-none : (es : List TranscriptEntry) → entries_before none es ≡ es
unfolding entries_before
entries_before-none [] = refl
entries_before-none (e ∷ es) = ap (λ l. e ∷ l) (entries_before-none es)

-- nothing below `lo` in a list that rises from `lo`
entries_before-nil :
    (c lo : ℕ) (es : List TranscriptEntry) (hi : ℕ)
    → c ≤ lo
    → Rises lo es hi
    → entries_before (some c) es ≡ []
unfolding entries_before
entries_before-nil c lo [] hi h r = refl
entries_before-nil c lo (e ∷ es) hi h (r, rs) =
    ground (arith, entries_before-nil c (e.seq + 1) es hi (omega arith) rs)

seq_bound :
    (lo : ℕ) (front : List TranscriptEntry) (e : TranscriptEntry) (rest : List TranscriptEntry)
    (hi : ℕ)
    → Rises lo (front ++ e ∷ rest) hi
    → lo ≤ e.seq
seq_bound lo [] e rest hi (r, rs) = r
seq_bound lo (d ∷ front) e rest hi (r, rs) = omega (arith, seq_bound (d.seq + 1) front e rest hi rs)

entries_before-middle :
    (lo : ℕ) (front : List TranscriptEntry) (e : TranscriptEntry) (rest : List TranscriptEntry)
    (hi : ℕ)
    → Rises lo (front ++ e ∷ rest) hi
    → entries_before (some e.seq) (front ++ e ∷ rest) ≡ front
unfolding entries_before
entries_before-middle lo [] e rest hi (r, rs) =
    ground (arith, entries_before-nil e.seq (e.seq + 1) rest hi (omega arith) rs)
entries_before-middle lo (d ∷ front) e rest hi (r, rs) = ground (
  arith,
  seq_bound (d.seq + 1) front e rest hi rs,
  entries_before-middle (d.seq + 1) front e rest hi rs,
)

entries_before-twice :
    (b c : ℕ) (es : List TranscriptEntry)
    → c ≤ b
    → entries_before (some c) (entries_before (some b) es) ≡ entries_before (some c) es
unfolding entries_before
entries_before-twice b c [] h = refl
entries_before-twice b c (e ∷ es) h = ground (arith, entries_before-twice b c es h)

seq-lt :
    (b : ℕ) (es front : List TranscriptEntry) (e : TranscriptEntry) (rest : List TranscriptEntry)
    → entries_before (some b) es ≡ front ++ e ∷ rest
    → e.seq < b
unfolding entries_before
seq-lt b [] [] e rest h = cc
seq-lt b [] (d ∷ front) e rest h = cc
seq-lt b (x ∷ es) [] e rest h = ground (arith, seq-lt b es [] e rest)
seq-lt b (x ∷ es) (d ∷ front) e rest h =
    ground (arith, seq-lt b es front e rest, seq-lt b es (d ∷ front) e rest)

module _ (limit hi : ℕ) (es : List TranscriptEntry) (e : TranscriptEntry)
    (rest : List TranscriptEntry) (rises : Rises 1 es hi) where
  split_page :
      (F : List TranscriptEntry)
      → drop (length F - limit) F ≡ e ∷ rest
      → (front : List TranscriptEntry) × (F ≡ front ++ e ∷ rest)
  split_page F h =
      (take (length F - limit) F, rw (← h) (sym (take-append-drop (length F - limit) F)))

  below_page :
      (before : Option ℕ) (front : List TranscriptEntry)
      → entries_before before es ≡ front ++ e ∷ rest
      → entries_before (some e.seq) (entries_before before es) ≡ entries_before (some e.seq) es
  below_page none front h = rw (entries_before-none es) refl
  below_page (some b) front h =
      let lower = seq-lt b es front e rest h in entries_before-twice b e.seq es (omega arith)

  before_page :
      (before : Option ℕ) (front : List TranscriptEntry)
      → entries_before before es ≡ front ++ e ∷ rest
      → entries_before (some e.seq) es ≡ front
  before_page before front h =
      let rises_page : Rises 1 (front ++ e ∷ rest) hi =
        rw (← h) (Rises-entries_before before 1 es hi rises) in
      sym (below_page before front h)
      ∙ ap (entries_before (some e.seq)) h
      ∙ entries_before-middle 1 front e rest hi rises_page

  -- In a transcript with rising sequence numbers, take a page (the last `limit` entries before
  -- `before`) that starts with the entry `e`: the entries before `e.seq`, followed by the page, are
  -- all the entries before `before`. A client that asks next for what is before the first entry of
  -- its page misses none and sees none twice.
  pub continues :
      (before : Option ℕ)
      → tail_page limit before es ≡ e ∷ rest
      → entries_before (some e.seq) es ++ e ∷ rest ≡ entries_before before es
  unfolding tail_page
  continues before h =
      let (front, split) = split_page (entries_before before es) h in
      ap (λ l. l ++ e ∷ rest) (before_page before front split) ∙ sym split
