-- ===== src/Ingest/Chunker/Delimited.antt =====
-- The blocks that are cut at a delimiter, and the tables and figures among them.
use kb_backend.Ingest.Chunker.{
  Block, Setting, is_barrier, kept_pieces, cut_blocks, apply_delimiter, chunk_blocks,
}
use kb_backend.Ingest.Chunker.Barriers.{barrier_texts, barrier_texts-cons, merge_blocks_barriers}
use kb_backend.Prelude.Strip.{strip, has_text, has_text-strip}
use kb_backend.Prelude.Text.{split_any, is_text}
use kb_backend.Prelude.{
  String, ◌≡◌, refl, sym, ap, ◌∙◌, inl, inr, false, not, ◌&&◌, ◌||◌, Option, none, some, List, [],
  ◌∷◌, ◌++◌, map, arith, Bool-cases, filter,
}

module _ {F : Type 0} where
  same_kind : (b : Block F) (t : String) → is_barrier (record b { text = t }) ≡ is_barrier b
  unfolding is_barrier
  same_kind b t = refl

  pieces_plain :
      (b : Block F) (ts : List String) (rest : List (Block F))
      → is_barrier b ≡ false
      → barrier_texts (kept_pieces b ts ++ rest) ≡ barrier_texts rest
  unfolding kept_pieces
  pieces_plain b [] rest h = refl
  pieces_plain b (t ∷ ts) rest h = elim (Bool-cases (has_text t)) [
    | inl e ↦ rw (e, has_text-strip t, e, same_kind b (strip t), h) (pieces_plain b ts rest h)
    | inr e ↦ rw e (pieces_plain b ts rest h)
  ]

  alone : (b : Block F) → is_barrier b ≡ false → barrier_texts (b ∷ []) ≡ []
  alone b h = elim (Bool-cases (has_text b.text)) [ inl e ↦ rw (e, h) refl | inr e ↦ rw e refl ]

  cut_blocks_barriers :
      (d : String) (bs : List (Block F)) → barrier_texts (cut_blocks d bs) ≡ barrier_texts bs
  unfolding cut_blocks
  cut_blocks_barriers d [] = refl
  cut_blocks_barriers d (b ∷ bs) =
      let rest = cut_blocks_barriers d bs in
      elim (Bool-cases (is_barrier b || not (has_text b.text))) [
        | inl e ↦ rw e (
            sym (barrier_texts-cons b (cut_blocks d bs))
            ∙ ap (λ x. barrier_texts (b ∷ []) ++ x) rest
            ∙ barrier_texts-cons b bs)
        | inr e ↦
            let prose : is_barrier b ≡ false = ground (arith, e) in
            rw e (
              pieces_plain b (split_any d b.text) (cut_blocks d bs) prose
              ∙ rest
              ∙ ap (λ x. x ++ barrier_texts bs) (sym (alone b prose))
              ∙ barrier_texts-cons b bs)
      ]

  apply_delimiter_barriers :
      (delimiter : Option String) (bs : List (Block F))
      → barrier_texts (apply_delimiter delimiter bs) ≡ barrier_texts bs
  unfolding apply_delimiter
  apply_delimiter_barriers none bs = refl
  apply_delimiter_barriers (some d) bs = elim (Bool-cases (is_text d)) [
    | inl e ↦ rw e (cut_blocks_barriers d bs)
    | inr e ↦ rw e refl
  ]

module _ {F : Type 0} (set : Setting) where
  -- The chunks that are marked to be left out of the summaries are the tables and the figures with a
  -- text, each a chunk of its own, in their order: their contents are the stripped texts.
  pub chunk_blocks_barriers :
      (delimiter : Option String) (bs : List (Block F))
      → map (λ p. p.content) (filter (λ p. p.skip_summary) (chunk_blocks set delimiter bs))
        ≡ map (λ b. strip (strip b.text)) (filter (λ b. has_text b.text && is_barrier b) bs)
  unfolding chunk_blocks
  chunk_blocks_barriers delimiter bs =
      merge_blocks_barriers set (apply_delimiter delimiter bs)
      ∙ apply_delimiter_barriers delimiter bs
