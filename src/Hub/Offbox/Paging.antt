-- ===== src/Hub/Offbox/Paging.antt =====
-- Following the cursors of `page_offbox`.
use atlas_bot.Common.{
  ℕ, zero, suc, ◌+◌, ◌≤◌, ◌<◌, Text, codes, Option, none, some, List, [], ◌∷◌, ◌++◌, ◌≡◌, refl, sym,
  ◌∙◌, ap, arith, length, take, drop, drop_all, ltb, leb, Bool-cases, inl, inr, true, if◌then◌else◌,
  max_u64, strip_prefix-append, parse_usize-show, show,
}
use Prim.Native.Nat.{min}
use atlas_bot.Json.{Json}
use atlas_bot.Hub.Offbox.{cursor_start, page_offbox}

-- all pages from a cursor on, at most so many
unfoldable pub all_pages : ℕ → List Json → Option Text → List Json
all_pages zero entries cursor = []
all_pages (suc n) entries cursor =
    let (page, next) = page_offbox entries cursor in
    page ++ elim next [ none ↦ [] | some c ↦ all_pages n entries (some c) ]

cursor_start-show : (n : ℕ) → n ≤ max_u64 → cursor_start (some (codes "c" ++ show n)) ≡ n
unfolding cursor_start
cursor_start-show n h = rw (strip_prefix-append (codes "c") (show n), parse_usize-show n h)

drop-take :
    {A : Type 0} (k e : ℕ) (xs : List A) → k ≤ e → drop k (take e xs) ++ drop e xs ≡ drop k xs
drop-take zero zero xs h = refl
drop-take zero (suc e) [] h = refl
drop-take zero (suc e) (x ∷ xs) h = ap (λ l. x ∷ l) (drop-take zero e xs (omega arith))
drop-take (suc k) zero xs h = absurd (omega arith)
drop-take (suc k) (suc e) [] h = refl
drop-take (suc k) (suc e) (x ∷ xs) h = drop-take k e xs (omega arith)

-- what follows a page that ends at `end`, given what the pages from there are
next_pages :
    (n : ℕ) (entries : List Json) (end : ℕ)
    → length entries ≤ max_u64
    → ((cursor : Option Text)
        → cursor_start cursor ≡ end
        → end < length entries
        → all_pages n entries cursor ≡ drop end entries)
    → (elim (if ltb end (length entries) then some (codes "c" ++ show end) else none)
        as (λ x. List Json) [ none ↦ [] | some c ↦ all_pages n entries (some c) ])
      ≡ drop end entries
next_pages n entries end small later = elim (Bool-cases (ltb end (length entries))) [
  | inr last ↦ rw last (sym (drop_all end entries (ground (arith, last))))
  | inl more ↦
      let inside : end < length entries = ground (arith, more) in
      rw more (later (some (codes "c" ++ show end)) (cursor_start-show end (omega arith)) inside)
]

all_pages_from :
    (fuel : ℕ) (entries : List Json) (cursor : Option Text)
    → length entries ≤ max_u64
    → length entries ≤ cursor_start cursor + fuel
    → all_pages (suc fuel) entries cursor ≡ drop (cursor_start cursor) entries
unfolding all_pages page_offbox
all_pages_from zero entries cursor small enough =
    let past : leb (length entries) (cursor_start cursor) ≡ true = ground (arith, enough) in
    rw past (sym (drop_all (cursor_start cursor) entries (omega arith)))
all_pages_from (suc fuel) entries cursor small enough =
    let start = cursor_start cursor in
    let end = min (start + 2) (length entries) in
    elim (Bool-cases (leb (length entries) start)) [
      | inl past ↦ rw past (sym (drop_all start entries (ground (arith, past))))
      | inr inside ↦ rw inside (
          ap (λ l. drop start (take end entries) ++ l)
            (next_pages (suc fuel) entries end small λ c at more.
              all_pages_from fuel entries c small (omega arith) ∙ ap (λ k. drop k entries) at)
          ∙ drop-take start end entries (ground (arith, inside)))
    ]

-- A client that starts without a cursor and follows the `nextCursor` of each page gets all entries,
-- each once and in their order, and is done after at most one page more than there are entries. The
-- entries are not more than a `usize` counts.
pub all_pages_lem :
    (entries : List Json)
    → length entries ≤ max_u64
    → all_pages (suc (length entries)) entries none ≡ entries
unfolding cursor_start
all_pages_lem entries small = all_pages_from (length entries) entries none small (omega arith)
