-- ===== src/Ingest/Chunker/Ordered.antt =====
-- The numbering of the chunks.
use mathlib.Core.List.{map-append}
use kb_backend.Ingest.Chunker.{
  Block, Setting, Chunking, is_barrier, is_title, ntok, add, emit_members, flush, starts,
  slide_loop, emit_slides, visit, visit_all, merge_blocks, has_text, tail_loop, reverse,
  chunk_blocks, apply_delimiter,
}
use kb_backend.Prelude.{
  ℕ, zero, suc, ◌+◌, String, ◌≡◌, refl, sym, ap, ◌∙◌, inl, inr, Bool, false, ◌&&◌, Option, List, [],
  ◌∷◌, ◌++◌, map, arith, ltb, Bool-cases, length, filter, length-append, nonempty,
}

-- `list(range(n))`
abbrev pub upto : ℕ → List ℕ
upto zero = []
upto (suc n) = upto n ++ (n ∷ [])

module _ {F : Type 0} where
  -- the chunks so far are numbered in their order, and the counter is their number
  record IsNumbered (st : Chunking F) : Type 0 where
    counted : st.order ≡ length st.pieces
    numbered : map (λ p. p.chunk_order) st.pieces ≡ upto st.order

  add-IsNumbered :
      (c : String) (page : ℕ) (path : Option String) (pos : _) (skip : Bool) (st : Chunking F)
      → IsNumbered st
      → IsNumbered (add c page path pos skip st)
  unfolding add
  add-IsNumbered c page path pos skip st h = elim (Bool-cases (has_text c)) [
    | inl e ↦
        let next : suc st.order ≡ st.order + 1 = omega arith in
        rw e record {
          counted = ap (λ n. n + 1) h.counted ∙ sym (length-append st.pieces _);
          numbered =
              map-append (λ p. p.chunk_order) st.pieces _
              ∙ ap (λ ns. ns ++ (st.order ∷ [])) h.numbered
              ∙ ap upto next;
        }
    | inr e ↦ rw e h
  ]

  emit_members-IsNumbered :
      (ms : List (Block F)) (st : Chunking F) → IsNumbered st → IsNumbered (emit_members ms st)
  unfolding emit_members
  emit_members-IsNumbered [] st h = h
  emit_members-IsNumbered (m ∷ ms) st h =
      elim (Bool-cases (nonempty (filter has_text (map (λ b. b.text) (m ∷ ms))))) [
        | inl e ↦ rw e (add-IsNumbered _ _ _ _ _ st h)
        | inr e ↦ rw e h
      ]

module _ {F : Type 0} (set : Setting) where
  waits-IsNumbered :
      (ps : List (Block F)) (n : ℕ) (st : Chunking F)
      → IsNumbered st
      → IsNumbered (record st { pending = ps; pending_toks = n })
  waits-IsNumbered ps n st h = record { counted = h.counted; numbered = h.numbered }

  flush-IsNumbered : (carry : ℕ) (st : Chunking F) → IsNumbered st → IsNumbered (flush set carry st)
  unfolding flush
  flush-IsNumbered carry st h =
      let sent = emit_members-IsNumbered st.pending st h in
      let n = length st.pending in
      let tail = tail_loop set n carry (reverse st.pending) [] in
      elim (Bool-cases
        ((ltb 0 carry && nonempty st.pending) && (ltb 0 (length tail) && ltb (length tail) n))) [
          | inl e ↦ rw e (waits-IsNumbered _ _ _ sent)
          | inr e ↦ rw e (waits-IsNumbered _ _ _ sent)
        ]

  slide-IsNumbered :
      (b : Block F) (toks ss : List ℕ) (st : Chunking F)
      → IsNumbered st
      → IsNumbered (slide_loop set b toks ss st)
  unfolding slide_loop
  slide-IsNumbered b toks [] st h = h
  slide-IsNumbered b toks (s ∷ ss) st h =
      slide-IsNumbered b toks ss _ (add-IsNumbered _ _ _ _ false st h)

  slides-IsNumbered :
      (b : Block F) (st : Chunking F) → IsNumbered st → IsNumbered (emit_slides set b st)
  unfolding emit_slides
  slides-IsNumbered b st h =
      let toks = set.encode b.text in
      slide-IsNumbered b toks (starts set (length toks) (length toks) 0) st h

  visit-IsNumbered : (b : Block F) (st : Chunking F) → IsNumbered st → IsNumbered (visit set b st)
  unfolding visit
  visit-IsNumbered b st h =
      let flushed = flush-IsNumbered 0 st h in
      elim (Bool-cases (has_text b.text)) [
        | inr t ↦ rw t h
        | inl t ↦ elim (Bool-cases (is_barrier b)) [
          | inl e ↦ rw (t, e) (emit_members-IsNumbered (b ∷ []) (flush set 0 st) flushed)
          | inr e ↦ elim (Bool-cases (is_title b)) [
            | inl title ↦ rw (t, e, title) (waits-IsNumbered _ _ _ flushed)
            | inr other ↦ elim (Bool-cases (ltb set.size (ntok set b))) [
              | inl long ↦ rw (t, e, other, long) (slides-IsNumbered b (flush set 0 st) flushed)
              | inr short ↦
                  elim (Bool-cases
                    (nonempty st.pending && ltb set.size (st.pending_toks + ntok set b))) [
                      | inl full ↦
                          rw (t, e, other, short, full)
                            (waits-IsNumbered _ _ _ (flush-IsNumbered set.carried st h))
                      | inr fits ↦ rw (t, e, other, short, fits) (waits-IsNumbered _ _ _ h)
                    ]
            ]
          ]
        ]
      ]

  visit_all-IsNumbered :
      (bs : List (Block F)) (st : Chunking F) → IsNumbered st → IsNumbered (visit_all set bs st)
  unfolding visit_all
  visit_all-IsNumbered [] st h = h
  visit_all-IsNumbered (b ∷ bs) st h =
      visit_all-IsNumbered bs (visit set b st) (visit-IsNumbered b st h)

  merge_blocks_numbered :
      (bs : List (Block F))
      → map (λ p. p.chunk_order) (merge_blocks set bs) ≡ upto (length (merge_blocks set bs))
  unfolding merge_blocks
  merge_blocks_numbered bs =
      let all_numbered = flush-IsNumbered 0 _ (
        visit_all-IsNumbered bs (record { pieces = []; order = 0; pending = []; pending_toks = 0 })
          (record { counted = refl; numbered = refl })) in
      all_numbered.numbered ∙ ap upto all_numbered.counted

  -- The chunks of a file are numbered from 0 without a gap, in their order.
  pub chunk_blocks_numbered :
      (delimiter : Option String) (bs : List (Block F))
      → let chunks = chunk_blocks set delimiter bs in
        map (λ p. p.chunk_order) chunks ≡ upto (length chunks)
  unfolding chunk_blocks
  chunk_blocks_numbered delimiter bs = merge_blocks_numbered (apply_delimiter delimiter bs)
