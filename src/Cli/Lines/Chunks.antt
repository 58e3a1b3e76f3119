-- ===== src/Cli/Lines/Chunks.antt =====
-- A line of a streamed run that holds a chunk of text.
use atlas_bot.Common.{
  ℕ, Text, codes, text_eq, Bool, false, ◌&&◌, Option, some, [], ◌∷◌, ◌++◌, ◌≡◌, refl, ap, sym, ◌∙◌,
  inl, inr, Bool-cases, is_empty, if◌then◌else◌, strip_prefix, trim_end_matches,
}
use atlas_bot.Json.{Json, object, str}
use atlas_bot.Cli.Lines.{
  Read, other, classify_stream_line, classify_value, or_mock, or_json, parsed, is_line_end,
  without_line_end,
}

trim_end_matches_idem :
    (p : ℕ → Bool) (s : Text) → trim_end_matches p (trim_end_matches p s) ≡ trim_end_matches p s
unfolding trim_end_matches
trim_end_matches_idem p [] = refl
trim_end_matches_idem p (c ∷ s) = elim (Bool-cases (is_empty (trim_end_matches p s) && p c)) [
  | inl e ↦ rw e refl
  | inr e ↦ rw (e, trim_end_matches_idem p s, e) refl
]

pub without_line_end_idem : (s : Text) → without_line_end (without_line_end s) ≡ without_line_end s
unfolding without_line_end
without_line_end_idem s = trim_end_matches_idem is_line_end s

-- A line with one chunk of text: `{"type": "text", "data": …}`, and its end.
pub record IsChunk (from_str : Text → Option Json) (raw chunk : Text) : Type 0 where
  pub rest : Text
  pub braced : without_line_end raw ≡ b'{' ∷ rest
  pub parses :
      from_str (without_line_end raw)
      ≡ some (object (("type", str (codes "text")) ∷ ("data", str chunk) ∷ []))
  pub filled : is_empty chunk ≡ false

chunk_value :
    (chunk : Text)
    → is_empty chunk ≡ false
    → classify_value (object (("type", str (codes "text")) ∷ ("data", str chunk) ∷ []))
      ≡ (other, chunk ∷ [])
unfolding classify_value codes text_eq
chunk_value chunk h = rw h refl

module _ (from_str : Text → Option Json) where
  abbrev whole : Text → Read
  whole t =
      if is_empty t
      then (other, [])
      else or_mock from_str t (strip_prefix (codes "ATLAS_DELTA" ++ 9 ∷ []) t)

  braced_line : (rest : Text) → whole (b'{' ∷ rest) ≡ parsed (from_str (b'{' ∷ rest))
  unfolding or_mock or_json strip_prefix codes
  braced_line rest = refl

  pub classify_chunk :
      (raw chunk : Text)
      → IsChunk from_str raw chunk
      → classify_stream_line from_str (without_line_end raw) ≡ (other, chunk ∷ [])
  unfolding classify_stream_line parsed
  classify_chunk raw chunk c =
      ap whole (without_line_end_idem raw ∙ c.braced)
      ∙ braced_line c.rest
      ∙ ap parsed (ap from_str (sym c.braced) ∙ c.parses)
      ∙ chunk_value chunk c.filled
