-- ===== src/Common/Texts.antt =====
-- Text that the program walks, builds or compares by content: a list of code points. Names that
-- it only compares with literals (JSON keys, command names) are native strings.
use Prim.Native.Nat.{ℕ, ◌+◌}
use Prim.Native.Char.{code}
use Prim.Native.String.{String}
use mathlib.Core.Path.{◌≡◌, refl, ap, ◌∙◌}
use mathlib.Core.Logic.{◌↔◌, inl, inr}
use mathlib.Core.Bool.{Bool, true, false, ◌&&◌, ◌||◌}
use mathlib.Core.Option.{Option, none, some}
use mathlib.Core.List.{List, [], ◌∷◌, ◌++◌, map}
use native.Mathlib.Omega.{arith}
use atlas_bot.Common.Tests.{ltb, leb, ◌==◌, if◌then◌else◌, Bool-cases}
use atlas_bot.Common.Lists.{is_empty}

abbrev pub Text : Type 0
Text = List ℕ

unfoldable pub codes : String → Text
codes String.[] = []
codes (String.◌∷◌ c s) = code c ∷ codes s

unfoldable pub text_eq : Text → Text → Bool
text_eq [] [] = true
text_eq (a ∷ s) (b ∷ t) = a == b && text_eq s t
text_eq _ _ = false

pub text_eq_iff : (s t : Text) → (text_eq s t ≡ true) ↔ (s ≡ t)
unfolding text_eq
text_eq_iff [] [] = (λ _. refl, λ _. refl)
text_eq_iff [] (b ∷ t) = (λ h. cc, λ h. cc)
text_eq_iff (a ∷ s) [] = (λ h. cc, λ h. cc)
text_eq_iff (a ∷ s) (b ∷ t) = ground (arith, text_eq_iff s t)

pub text_eq_refl : (s : Text) → text_eq s s ≡ true
text_eq_refl s = (text_eq_iff s s).1 refl

-- `Ord for str`: bytes of UTF-8 are ordered as the code points are.
unfoldable pub text_lt : Text → Text → Bool
text_lt [] [] = false
text_lt [] (b ∷ t) = true
text_lt (a ∷ s) [] = false
text_lt (a ∷ s) (b ∷ t) = ltb a b || (a == b && text_lt s t)

pub text_lt_trans : (r s t : Text) → text_lt r s ≡ true → text_lt s t ≡ true → text_lt r t ≡ true
unfolding text_lt
text_lt_trans [] [] t h k = cc
text_lt_trans [] (b ∷ s) [] h k = cc
text_lt_trans [] (b ∷ s) (c ∷ t) h k = refl
text_lt_trans (a ∷ r) [] t h k = cc
text_lt_trans (a ∷ r) (b ∷ s) [] h k = cc
text_lt_trans (a ∷ r) (b ∷ s) (c ∷ t) h k = ground (arith, text_lt_trans r s t)

pub text_lt_total : (s t : Text) → text_lt s t ≡ false → text_eq s t ≡ false → text_lt t s ≡ true
unfolding text_lt text_eq
text_lt_total [] [] h k = cc
text_lt_total [] (b ∷ t) h k = cc
text_lt_total (a ∷ s) [] h k = refl
text_lt_total (a ∷ s) (b ∷ t) h k = ground (arith, text_lt_total s t)

-- `char::is_whitespace`: the Unicode property White_Space.
unfoldable pub is_whitespace : ℕ → Bool
is_whitespace c =
    (leb 9 c && leb c 13)
    || c == 32
    || c == 133
    || c == 160
    || c == 5760
    || (leb 8192 c && leb c 8202)
    || c == 8232
    || c == 8233
    || c == 8239
    || c == 8287
    || c == 12288

-- `str::trim`
unfoldable pub trim_start : Text → Text
trim_start [] = []
trim_start (c ∷ s) = let rest = trim_start s in if is_whitespace c then rest else c ∷ s

trim_end : Text → Text
trim_end [] = []
trim_end (c ∷ s) =
    let rest = trim_end s in if is_empty rest && is_whitespace c then [] else c ∷ rest

unfoldable pub trim : Text → Text
unfolding trim_start trim_end is_whitespace
trim s = trim_end (trim_start s)

trim_end_idem : (s : Text) → trim_end (trim_end s) ≡ trim_end s
unfolding trim_end
trim_end_idem [] = refl
trim_end_idem (c ∷ s) = elim (Bool-cases (is_empty (trim_end s) && is_whitespace c)) [
  | inl e ↦ rw e refl
  | inr e ↦ rw (e, trim_end_idem s, e) refl
]

-- what is left starts with no whitespace
trim-trim_start : (s : Text) → trim_start (trim_end (trim_start s)) ≡ trim_end (trim_start s)
unfolding trim_start trim_end
trim-trim_start [] = refl
trim-trim_start (c ∷ s) = elim (Bool-cases (is_whitespace c)) [
  | inl e ↦ rw e (trim-trim_start s)
  | inr e ↦ ground (arith, e)
]

pub trim-trim : (s : Text) → trim (trim s) ≡ trim s
unfolding trim
trim-trim s = ap trim_end (trim-trim_start s) ∙ trim_end_idem (trim_start s)

-- `char::to_ascii_lowercase`, `str::to_ascii_lowercase`
pub lower : ℕ → ℕ
lower c = if leb b'A' c && leb c b'Z' then c + 32 else c

unfoldable pub to_ascii_lowercase : Text → Text
unfolding lower
to_ascii_lowercase s = map lower s

unfoldable pub is_ascii_alphanumeric : ℕ → Bool
is_ascii_alphanumeric c =
    (leb b'0' c && leb c b'9') || (leb b'A' c && leb c b'Z') || (leb b'a' c && leb c b'z')

-- `str::strip_prefix`
unfoldable pub strip_prefix : Text → Text → Option Text
strip_prefix [] s = some s
strip_prefix (a ∷ p) [] = none
strip_prefix (a ∷ p) (b ∷ s) = if a == b then strip_prefix p s else none

pub strip_prefix-append : (p s : Text) → strip_prefix p (p ++ s) ≡ some s
unfolding strip_prefix
strip_prefix-append [] s = refl
strip_prefix-append (a ∷ p) s = ground (arith, strip_prefix-append p s)

pub append-strip_prefix : (p s rest : Text) → strip_prefix p s ≡ some rest → s ≡ p ++ rest
unfolding strip_prefix
append-strip_prefix [] s rest h = ground arith
append-strip_prefix (a ∷ p) [] rest h = cc
append-strip_prefix (a ∷ p) (b ∷ s) rest h = ground (arith, append-strip_prefix p s rest)
