-- ===== src/Hub/Offbox/Ingest.antt =====
-- Taking the entries of a turn into a cold transcript.
use atlas_bot.Common.{Text, text_eq, true, false, List, [], ◌∷◌, ◌++◌, ◌≡◌, any, map, All}
use atlas_bot.Json.{Json}
use atlas_bot.Gateway.Types.{TranscriptEntry, entry_value}
use atlas_bot.Hub.Offbox.{keyed, has_id, ingest}

-- each entry carries the id that it is filed under
abbrev pub Filed : List (Text × Json) → Type 0
Filed vs = All (λ e. has_id e.0 e.1 ≡ true) vs

abbrev Present : List Json → List (Text × Json) → Type 0
Present entries vs = All (λ e. any (has_id e.0) entries ≡ true) vs

-- no two entries with one id
abbrev pub AreDistinct : List TranscriptEntry → Type 0
AreDistinct [] = Unit {0}
AreDistinct (e ∷ es) = All (λ f. text_eq e.id f.id ≡ false) es × AreDistinct es

-- Some of the entries, in their order.
pub data Some : List TranscriptEntry → List TranscriptEntry → Type 0 where
  done : Some [] []
  skip : {e : TranscriptEntry} {xs ys : List TranscriptEntry} → Some xs ys → Some xs (e ∷ ys)
  take : {e : TranscriptEntry} {xs ys : List TranscriptEntry} → Some xs ys → Some (e ∷ xs) (e ∷ ys)

-- What a cold transcript is after it took the entries of a turn: the entries it had, and behind them
-- new ones, which are entries of the turn in their order, with ids that it did not have and no id twice.
-- It has the id of every entry of the turn, and taking them again leaves it as it is.
pub record IsTaken (entries : List Json) (es : List TranscriptEntry) (after : List Json)
    : Type 0 where
  pub added : List TranscriptEntry
  pub from_turn : Some added es
  pub behind : after ≡ entries ++ map entry_value added
  pub new : All (λ e. any (has_id e.id) entries ≡ false) added
  pub distinct : AreDistinct added
  pub present : All (λ e. any (has_id e.id) after ≡ true) es
  pub again : ingest (map keyed es) after ≡ after

-- the entries that are taken
abbrev Added : List Json → List TranscriptEntry → Type 0
Added entries es =
    (added : List TranscriptEntry) × Some added es
    × (ingest (map keyed es) entries ≡ entries ++ map entry_value added)
    × All (λ e. any (has_id e.id) entries ≡ false) added
    × AreDistinct added
