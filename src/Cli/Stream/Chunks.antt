-- ===== src/Cli/Stream/Chunks.antt =====
-- The text that is streamed in chunks is the reply.
use atlas_bot.Common.{
  Text, codes, true, Option, none, List, [], ◌∷◌, ◌++◌, ◌≡◌, refl, ap, sym, ◌∙◌, arith, is_empty,
  All, if◌then◌else◌, strip_prefix, join_texts, append_assoc, append_nil,
}
use atlas_bot.Json.{Json}
use atlas_bot.Gateway.Types.{ok, ExitCode}
use atlas_bot.Cli.Lines.{StreamLineKind, other, without_line_end}
use atlas_bot.Cli.Lines.Chunks.{IsChunk, classify_chunk}
use atlas_bot.Cli.Stream.{
  Event, line, eof, Pause, Stream, Run, running, at_end, returned, push_deltas, emit_delta,
  plain_line, on_kind, on_line, step, follow, run,
}
use atlas_bot.Cli.Stream.Ends.{exited, finish, finish-deltas}

pub record Chunk : Type 0 where
  pub raw : Text
  pub text : Text
  pub pause : Pause

abbrev pub chunk_lines : List Chunk → List Event
chunk_lines [] = []
chunk_lines (c ∷ cs) = line c.raw c.pause ∷ chunk_lines cs

abbrev pub texts : List Chunk → List Text
texts [] = []
texts (c ∷ cs) = c.text ∷ texts cs

-- What the chunks leave alone, and the deltas that they add.
record Adds (ts : List Text) (s t : Stream) : Type 0 where
  deltas : t.deltas ≡ s.deltas ++ ts
  result : t.final_from_result ≡ s.final_from_result
  error : t.error ≡ s.error
  plain : t.plain ≡ s.plain

emit_delta-Adds :
    (c : Text) (s : Stream)
    → Adds (c ∷ []) s (record (emit_delta c s) { deltas = s.deltas ++ c ∷ [] })
unfolding emit_delta
emit_delta-Adds c s = ground arith

Adds-Adds : (ts us : List Text) (s t u : Stream) → Adds ts s t → Adds us t u → Adds (ts ++ us) s u
Adds-Adds ts us s t u h k = record {
  deltas = k.deltas ∙ ap (λ l. l ++ us) h.deltas ∙ append_assoc s.deltas ts us;
  result = k.result ∙ h.result;
  error = k.error ∙ h.error;
  plain = k.plain ∙ h.plain;
}

plain_line_braced : (rest : Text) (s : Stream) → plain_line (b'{' ∷ rest) s ≡ s
unfolding plain_line strip_prefix codes
plain_line_braced rest s = refl

module _ (from_str : Text → Option Json) (agent : Text) where
  abbrev read_as : Pause → Stream → Text → StreamLineKind × List Text → Run
  read_as p s t r = if is_empty t then running s else on_kind agent t p r.0 (push_deltas r.1 s)

  step_chunk :
      (c : Chunk) (s : Stream)
      → IsChunk from_str c.raw c.text
      → step from_str agent (line c.raw c.pause) s
        ≡ running (record (emit_delta c.text s) { deltas = s.deltas ++ c.text ∷ [] })
  unfolding step on_line on_kind push_deltas
  step_chunk c s h =
      let next = record (emit_delta c.text s) { deltas = s.deltas ++ c.text ∷ [] } in
      ap (read_as c.pause s (without_line_end c.raw)) (classify_chunk from_str c.raw c.text h)
      ∙ ap (λ t. read_as c.pause s t (other, c.text ∷ [])) h.braced
      ∙ ap running (plain_line_braced h.rest next)

  abbrev pub AreChunks : List Chunk → Type 0
  AreChunks cs = All (λ c. IsChunk from_str c.raw c.text) cs

  run_chunks :
      (cs : List Chunk) (s : Stream)
      → AreChunks cs
      → (t : Stream) × (run from_str agent (chunk_lines cs ++ eof ∷ []) s ≡ at_end t)
        × Adds (texts cs) s t
  unfolding run follow step
  run_chunks [] s h = (
    s,
    refl,
    record { deltas = sym (append_nil s.deltas); result = refl; error = refl; plain = refl },
  )
  run_chunks (c ∷ cs) s (h, hs) =
      let next = record (emit_delta c.text s) { deltas = s.deltas ++ c.text ∷ [] } in
      let (t, e, adds) = run_chunks cs next hs in
      (
        t,
        ap (follow from_str agent (run from_str agent (chunk_lines cs ++ eof ∷ [])))
              (step_chunk c s h)
            ∙ e,
        Adds-Adds (c.text ∷ []) (texts cs) s next t (emit_delta-Adds c.text s) adds,
      )

  -- A run in which the child prints chunks of text, one to a line, and exits with success has the
  -- chunks, one behind the other, as its reply. It starts with nothing read, and no chunk is empty.
  pub finish-run :
      (cs : List Chunk) (s : Stream) (code : Option ExitCode)
      → AreChunks cs
      → s.deltas ≡ []
      → s.final_from_result ≡ none
      → s.error ≡ none
      → s.plain ≡ []
      → (t : Stream) × (run from_str agent (chunk_lines cs ++ eof ∷ []) s ≡ at_end t)
        × (finish (exited true code) t ≡ returned (ok (join_texts [] (texts cs))) t)
  finish-run cs s code h d r e p =
      let (t, runs, adds) = run_chunks cs s h in
      (
        t,
        runs,
        finish-deltas code t (adds.error ∙ e) (adds.result ∙ r) (adds.plain ∙ p)
            ∙ ap (λ ds. returned (ok (join_texts [] ds)) t)
                (adds.deltas ∙ ap (λ l. l ++ texts cs) d),
      )
