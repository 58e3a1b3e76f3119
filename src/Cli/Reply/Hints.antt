-- ===== src/Cli/Reply/Hints.antt =====
-- The cap on the text of a hint, which tests bytes and cuts characters.
use atlas_bot.Common.{
  ℕ, zero, suc, ◌≤◌, ◌<◌, Text, [], ◌∷◌, ◌++◌, ◌≡◌, refl, ap, arith, inl, inr, Bool-cases, leb,
  length, take, length-append, utf8, bytes_of,
}
use atlas_bot.Cli.Reply.{truncate_hint}

length-take-le : (n : ℕ) (s : Text) → length (take n s) ≤ n
length-take-le zero s = omega arith
length-take-le (suc n) [] = omega arith
length-take-le (suc n) (c ∷ s) = omega (arith, length-take-le n s)

take_all : (n : ℕ) (s : Text) → length s ≤ n → take n s ≡ s
take_all zero [] h = refl
take_all zero (c ∷ s) h = absurd (omega arith)
take_all (suc n) [] h = refl
take_all (suc n) (c ∷ s) h = ap (λ t. c ∷ t) (take_all n s (omega arith))

length-utf8-le : (c : ℕ) → 1 ≤ length (utf8 c)
unfolding utf8
length-utf8-le c = ground arith

length-bytes_of-le : (s : Text) → length s ≤ length (bytes_of s)
unfolding bytes_of
length-bytes_of-le [] = omega arith
length-bytes_of-le (c ∷ s) =
    omega (arith, length-utf8-le c, length-bytes_of-le s, length-append (utf8 c) (bytes_of s))

cut_length : (s : Text) → length (take 65536 s ++ 8230 ∷ []) ≤ 65537
cut_length s = omega (arith, length-append (take 65536 s) (8230 ∷ []), length-take-le 65536 s)

-- A hint has 65537 characters at most.
pub length-truncate_hint-le : (s : Text) → length (truncate_hint s) ≤ 65537
unfolding truncate_hint
length-truncate_hint-le s = elim (Bool-cases (leb (length (bytes_of s)) 65536)) [
  | inl e ↦ rw e (ground (arith, length-bytes_of-le s))
  | inr e ↦ rw e (cut_length s)
]

-- A text of more than 65536 bytes and no more characters than that is not cut: it only gets an
-- ellipsis behind it.
truncate_hint_grows :
    (s : Text) → 65536 < length (bytes_of s) → length s ≤ 65536 → truncate_hint s ≡ s ++ 8230 ∷ []
unfolding truncate_hint
truncate_hint_grows s h k = elim (Bool-cases (leb (length (bytes_of s)) 65536)) [
  | inl e ↦ absurd (ground arith)
  | inr e ↦ rw e (ap (λ t. t ++ 8230 ∷ []) (take_all 65536 s k))
]
