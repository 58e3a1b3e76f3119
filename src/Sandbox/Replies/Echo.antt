-- ===== src/Sandbox/Replies/Echo.antt =====
-- A composed reply never repeats the prompt.
use atlas_bot.Common.{
  ℕ, ◌+◌, ◌≤◌, ◌<◌, Text, codes, text_eq, text_eq_iff, false, Option, List, [], ◌∷◌, ◌++◌, ◌≡◌,
  refl, ap, arith, length, length-append, join_texts, inl, inr, Bool-cases, show, take,
}
use atlas_bot.Sandbox.Replies.{
  parts, prior_parts, evidence_part, context_marker, compose_reply, is_echo,
}

join_head : (sep t : Text) (ts : List Text) → length t ≤ length (join_texts sep (t ∷ ts))
unfolding join_texts
join_head sep t [] = omega arith
join_head sep t (u ∷ ts) = omega (arith, length-append t (sep ++ join_texts sep (u ∷ ts)))

join_tail :
    (sep t u : Text) (ts : List Text)
    → length (join_texts sep (t ∷ u ∷ ts))
      ≡ length t + length sep + length (join_texts sep (u ∷ ts))
unfolding join_texts
join_tail sep t u ts = omega (
  arith,
  length-append t (sep ++ join_texts sep (u ∷ ts)),
  length-append sep (join_texts sep (u ∷ ts)),
)

named_length : (agent turn : Text) → 18 ≤ length (codes "box-sidecar agent=" ++ (agent ++ turn))
unfolding codes
named_length agent turn = omega arith

ack_length : (prompt : Text) → length (codes "ack=" ++ prompt) ≡ length prompt + 4
unfolding codes
ack_length prompt = omega arith

echo_length : (prompt : Text) → length (codes "echo: " ++ prompt) ≡ length prompt + 6
unfolding codes
echo_length prompt = omega arith

join_long :
    (sep a b c d : Text) (rest : List Text) (n : ℕ)
    → 18 ≤ length a
    → length d ≡ n + 4
    → n + 6 < length (join_texts sep (a ∷ b ∷ c ∷ d ∷ rest))
join_long sep a b c d rest n h k = omega (
  arith,
  join_tail sep a b (c ∷ d ∷ rest),
  join_tail sep b c (d ∷ rest),
  join_tail sep c d rest,
  join_head sep d rest,
)

compose_reply_long :
    (agent prompt : Text) (prior : List Text) (evidence : Option Text)
    → length prompt + 6 < length (compose_reply agent prompt prior evidence)
unfolding compose_reply parts prior_parts
compose_reply_long agent prompt [] evidence =
    join_long (codes " | ") (codes "box-sidecar agent=" ++ (agent ++ (codes " turn=" ++ show 1)))
      (codes "saw_prior=none") (codes "ctx=none") (codes "ack=" ++ prompt) (evidence_part evidence)
      (length prompt) (named_length agent (codes " turn=" ++ show 1)) (ack_length prompt)
compose_reply_long agent prompt (p ∷ prior) evidence =
    let turn = codes " turn=" ++ show (length (p ∷ prior) + 1) in
    join_long (codes " | ") (codes "box-sidecar agent=" ++ (agent ++ turn))
      (codes "saw_prior=" ++ take 64 p) (codes "ctx=" ++ context_marker p) (codes "ack=" ++ prompt)
      (evidence_part evidence) (length prompt) (named_length agent turn) (ack_length prompt)

text_eq_longer : (s t : Text) → length t < length s → text_eq s t ≡ false
text_eq_longer s t h = elim (Bool-cases (text_eq s t)) [
  | inl e ↦ absurd (omega (arith, ap length ((text_eq_iff s t).0 e)))
  | inr e ↦ e
]

-- A composed reply is neither the prompt nor its echo, so the guard against echoes never refuses it.
pub is_echo-compose_reply :
    (agent prompt : Text) (prior : List Text) (evidence : Option Text)
    → is_echo prompt (compose_reply agent prompt prior evidence) ≡ false
unfolding is_echo
is_echo-compose_reply agent prompt prior evidence =
    let reply = compose_reply agent prompt prior evidence in
    rw
      (
        text_eq_longer reply prompt (omega (arith, compose_reply_long agent prompt prior evidence)),
        text_eq_longer reply (codes "echo: " ++ prompt)
            (omega (arith, compose_reply_long agent prompt prior evidence, echo_length prompt)),
      )
      refl
