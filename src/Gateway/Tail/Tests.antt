-- ===== src/Gateway/Tail/Tests.antt =====
-- Paging through a transcript of four entries.
use atlas_bot.Common.{ℕ, codes, some, [], ◌∷◌, ◌++◌, ◌≡◌, refl, arith}
use atlas_bot.Gateway.Types.{TranscriptEntry}
use atlas_bot.Gateway.Tail.{is_before, entries_before, tail_page}
use atlas_bot.Gateway.Tail.Paging.{continues}

abbrev entry : ℕ → TranscriptEntry
entry n = record { id = codes "msg"; role = codes "user"; text = codes "x"; seq = n }

two_last :
    tail_page 2 (some 4) (entry 1 ∷ entry 2 ∷ entry 3 ∷ entry 4 ∷ []) ≡ entry 2 ∷ entry 3 ∷ []
unfolding tail_page entries_before is_before
two_last = refl

continues_example :
    entries_before (some 2) (entry 1 ∷ entry 2 ∷ entry 3 ∷ entry 4 ∷ []) ++ entry 2 ∷ entry 3 ∷ []
    ≡ entries_before (some 4) (entry 1 ∷ entry 2 ∷ entry 3 ∷ entry 4 ∷ [])
continues_example =
    continues 2 5 (entry 1 ∷ entry 2 ∷ entry 3 ∷ entry 4 ∷ []) (entry 2) (entry 3 ∷ [])
      (omega arith, (omega arith, (omega arith, (omega arith, omega arith)))) (some 4) two_last
