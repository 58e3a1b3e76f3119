-- ===== src/Common/Search.antt =====
-- Searching in text, as `str` does: `find`, `contains`, `split`, and the bytes of UTF-8.
use Prim.Native.Nat.{ℕ, ◌+◌, ◌/◌, ◌%◌, ◌≤◌}
use mathlib.Core.Path.{◌≡◌}
use mathlib.Core.Bool.{Bool, ◌&&◌}
use mathlib.Core.Option.{Option, some}
use mathlib.Core.List.{List, [], ◌∷◌, ◌++◌}
use native.Mathlib.Omega.{arith}
use atlas_bot.Common.Tests.{ltb, ◌==◌, if◌then◌else◌, is_some, ◌or_else◌}
use atlas_bot.Common.Lists.{is_empty, length}
use atlas_bot.Common.Texts.{Text, strip_prefix, is_whitespace}

-- `s.find(p)` with the slice behind the match: what follows the first occurrence of `p`
unfoldable pub after_first : Text → Text → Option Text
after_first p [] = strip_prefix p []
after_first p (c ∷ s) = strip_prefix p (c ∷ s) or_else after_first p s

-- `str::contains`
abbrev pub contains : Text → Text → Bool
contains p s = is_some (after_first p s)

-- `str::starts_with`
abbrev pub starts_with : Text → Text → Bool
starts_with p s = is_some (strip_prefix p s)

-- `s.split('\n').next()`
unfoldable pub first_line : Text → Text
first_line [] = []
first_line (c ∷ s) = let rest = first_line s in if c == 10 then [] else c ∷ rest

-- the text up to the first whitespace, and from there on
unfoldable pub split_word : Text → Text × Text
unfolding is_whitespace
split_word [] = ([], [])
split_word (c ∷ s) =
    let rest = split_word s in if is_whitespace c then ([], c ∷ s) else (c ∷ rest.0, rest.1)

-- `str::trim_end_matches` with a test of the last characters
unfoldable pub trim_end_matches : (ℕ → Bool) → Text → Text
trim_end_matches p [] = []
trim_end_matches p (c ∷ s) =
    let rest = trim_end_matches p s in if is_empty rest && p c then [] else c ∷ rest

-- `[Text].join(sep)`
unfoldable pub join_texts : Text → List Text → Text
join_texts sep [] = []
join_texts sep (t ∷ []) = t
join_texts sep (t ∷ u ∷ ts) = t ++ (sep ++ join_texts sep (u ∷ ts))

-- the bytes of a character, and of a text, in UTF-8
unfoldable pub utf8 : ℕ → List ℕ
utf8 c =
    if ltb c 128
    then c ∷ []
    else if ltb c 2048
    then (192 + c / 64) ∷ (128 + c % 64) ∷ []
    else if ltb c 65536
    then (224 + c / 4096) ∷ (128 + (c / 64) % 64) ∷ (128 + c % 64) ∷ []
    else (240 + c / 262144) ∷ (128 + (c / 4096) % 64) ∷ (128 + (c / 64) % 64) ∷ (128 + c % 64) ∷ []

unfoldable pub bytes_of : Text → List ℕ
unfolding utf8
bytes_of [] = []
bytes_of (c ∷ s) = utf8 c ++ bytes_of s

pub length-strip_prefix :
    (p s rest : Text) → strip_prefix p s ≡ some rest → length s ≡ length p + length rest
unfolding strip_prefix
length-strip_prefix [] s rest h = ground arith
length-strip_prefix (a ∷ p) [] rest h = cc
length-strip_prefix (a ∷ p) (b ∷ s) rest h = ground (arith, length-strip_prefix p s rest)

-- what follows an occurrence is shorter by it at least
pub length-after_first :
    (p s rest : Text) → after_first p s ≡ some rest → length p + length rest ≤ length s
unfolding after_first
length-after_first p [] rest h = omega (arith, length-strip_prefix p [] rest h)
length-after_first p (c ∷ s) rest h =
    ground (arith, length-strip_prefix p (c ∷ s) rest, length-after_first p s rest)
