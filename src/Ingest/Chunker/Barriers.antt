-- ===== src/Ingest/Chunker/Barriers.antt =====
-- Tables and figures are chunks of their own.
use mathlib.Core.List.{reverse, reverse-cons, append-nil, append_assoc}
use kb_backend.Prelude.Strip.{strip, has_text, has_text-strip}
use kb_backend.Ingest.Chunker.{
  Block, Chunk, Setting, Chunking, is_barrier, is_title, add, emit_members, tail_loop, flush,
  slide_loop, visit, visit_all, merge_blocks, ntok, emit_slides, starts,
}
use kb_backend.Prelude.{
  ℕ, ◌+◌, ◌-◌, String, ◌≡◌, refl, sym, ap, ◌∙◌, inl, inr, Bool, true, false, not, ◌&&◌, Option,
  List, [], ◌∷◌, ◌++◌, map, arith, ltb, Bool-cases, length, filter, any, any-append, nonempty,
}

any-reverse : {A : Type 0} (p : A → Bool) (xs : List A) → any p (reverse xs) ≡ any p xs
any-reverse p [] = refl
any-reverse p (x ∷ xs) =
    ap (any p) (reverse-cons x xs)
    ∙ any-append p (reverse xs) (x ∷ [])
    ∙ ground (arith, any-reverse p xs)

module _ {F : Type 0} where
  -- the contents of the chunks that are marked to be skipped by the summaries
  abbrev skips : List (Chunk F) → List String
  skips ps = map (λ p. p.content) (filter (λ p. p.skip_summary) ps)

  -- the tables and figures that have a text
  abbrev pub barrier_texts : List (Block F) → List String
  barrier_texts bs =
      map (λ b. strip (strip b.text)) (filter (λ b. has_text b.text && is_barrier b) bs)

  pub barrier_texts-cons :
      (b : Block F) (bs : List (Block F))
      → barrier_texts (b ∷ []) ++ barrier_texts bs ≡ barrier_texts (b ∷ bs)
  barrier_texts-cons b bs = elim (Bool-cases (has_text b.text && is_barrier b)) [
    | inl e ↦ rw e refl
    | inr e ↦ rw e refl
  ]

  appended :
      (b : Block F) (ps : List (Block F))
      → not (any is_barrier ps) ≡ true
      → is_barrier b ≡ false
      → not (any is_barrier (ps ++ (b ∷ []))) ≡ true
  appended b ps h e = ground (arith, any-append is_barrier ps (b ∷ []), h, e)

  skips-append : (ps qs : List (Chunk F)) → skips (ps ++ qs) ≡ skips ps ++ skips qs
  skips-append [] qs = refl
  skips-append (p ∷ ps) qs = elim (Bool-cases p.skip_summary) [
    | inl e ↦ rw (e, skips-append ps qs) refl
    | inr e ↦ rw (e, skips-append ps qs) refl
  ]

  add_plain :
      (c : String) (page : ℕ) (path : Option String) (pos : _) (st : Chunking F)
      → skips (add c page path pos false st).pieces ≡ skips st.pieces
  unfolding add
  add_plain c page path pos st = elim (Bool-cases (has_text c)) [
    | inl e ↦ rw e (skips-append st.pieces _ ∙ append-nil (skips st.pieces))
    | inr e ↦ rw e refl
  ]

  emit_plain :
      (ms : List (Block F)) (st : Chunking F)
      → any is_barrier ms ≡ false
      → skips (emit_members ms st).pieces ≡ skips st.pieces
  unfolding emit_members
  emit_plain [] st h = refl
  emit_plain (m ∷ ms) st h =
      elim (Bool-cases (nonempty (filter has_text (map (λ b. b.text) (m ∷ ms))))) [
        | inl e ↦ rw (e, h) (add_plain _ _ _ _ st)
        | inr e ↦ rw e refl
      ]

  emit_barrier :
      (b : Block F) (st : Chunking F)
      → is_barrier b ≡ true
      → has_text b.text ≡ true
      → skips (emit_members (b ∷ []) st).pieces ≡ skips st.pieces ++ (strip (strip b.text) ∷ [])
  unfolding emit_members add
  emit_barrier b st h t = rw (t, h, has_text-strip b.text, t) (skips-append st.pieces _)

  add-pending :
      (c : String) (page : ℕ) (path : Option String) (pos : _) (skip : Bool) (st : Chunking F)
      → (add c page path pos skip st).pending ≡ st.pending
  unfolding add
  add-pending c page path pos skip st = elim (Bool-cases (has_text c)) [
    | inl e ↦ rw e refl
    | inr e ↦ rw e refl
  ]

  slide_plain :
      (set : Setting) (b : Block F) (toks ss : List ℕ) (st : Chunking F)
      → (skips (slide_loop set b toks ss st).pieces ≡ skips st.pieces)
        × ((slide_loop set b toks ss st).pending ≡ st.pending)
  unfolding slide_loop
  slide_plain set b toks [] st = (refl, refl)
  slide_plain set b toks (s ∷ ss) st =
      let (shown, same) = slide_plain set b toks ss _ in
      (shown ∙ add_plain _ _ _ _ st, same ∙ add-pending _ _ _ _ false st)

  tail_plain :
      (set : Setting) (n budget : ℕ) (bs tail : List (Block F))
      → any is_barrier bs ≡ false
      → any is_barrier tail ≡ false
      → any is_barrier (tail_loop set n budget bs tail) ≡ false
  unfolding tail_loop
  tail_plain set n budget [] tail h t = t
  tail_plain set n budget (b ∷ bs) tail h t =
      let h2 : any is_barrier bs ≡ false = ground (arith, h) in
      let t2 : any is_barrier (b ∷ tail) ≡ false = ground (arith, h, t) in
      ground (arith, tail_plain set n (budget - ntok set b) bs (b ∷ tail) h2 t2, t)

module _ {F : Type 0} (set : Setting) where
  -- no table or figure waits to be merged
  abbrev is_plain : Chunking F → Bool
  is_plain st = not (any is_barrier st.pending)

  flush_plain :
      (carry : ℕ) (st : Chunking F)
      → is_plain st ≡ true
      → (skips (flush set carry st).pieces ≡ skips st.pieces)
        × (is_plain (flush set carry st) ≡ true)
  unfolding flush
  flush_plain carry st h =
      let none_waits : any is_barrier st.pending ≡ false = ground (arith, h) in
      let n = length st.pending in
      let tail = tail_loop set n carry (reverse st.pending) [] in
      let tail_none : any is_barrier tail ≡ false =
        tail_plain set n carry (reverse st.pending) []
          (any-reverse is_barrier st.pending ∙ none_waits) refl in
      elim (Bool-cases
        ((ltb 0 carry && nonempty st.pending) && (ltb 0 (length tail) && ltb (length tail) n))) [
          | inl e ↦ rw e (emit_plain st.pending st none_waits, ap not tail_none)
          | inr e ↦ rw e (emit_plain st.pending st none_waits, refl)
        ]

  emit_members-pending :
      (ms : List (Block F)) (st : Chunking F) → (emit_members ms st).pending ≡ st.pending
  unfolding emit_members
  emit_members-pending [] st = refl
  emit_members-pending (m ∷ ms) st =
      elim (Bool-cases (nonempty (filter has_text (map (λ b. b.text) (m ∷ ms))))) [
        | inl e ↦ rw e (add-pending _ _ _ _ _ st)
        | inr e ↦ rw e refl
      ]

  slides_plain :
      (b : Block F) (st : Chunking F)
      → (skips (emit_slides set b st).pieces ≡ skips st.pieces)
        × ((emit_slides set b st).pending ≡ st.pending)
  unfolding emit_slides
  slides_plain b st =
      let toks = set.encode b.text in
      slide_plain set b toks (starts set (length toks) (length toks) 0) st

  visit_plain :
      (b : Block F) (st : Chunking F)
      → is_plain st ≡ true
      → (skips (visit set b st).pieces ≡ skips st.pieces ++ barrier_texts (b ∷ []))
        × (is_plain (visit set b st) ≡ true)
  unfolding visit
  visit_plain b st h =
      let (kept, plain) = flush_plain 0 st h in
      elim (Bool-cases (has_text b.text)) [
        | inr t ↦ rw t (sym (append-nil (skips st.pieces)), h)
        | inl t ↦ elim (Bool-cases (is_barrier b)) [
          | inl e ↦
              rw (t, e)
                (
                  emit_barrier b (flush set 0 st) e t
                      ∙ ap (λ x. x ++ (strip (strip b.text) ∷ [])) kept,
                  ap (λ x. not (any is_barrier x)) (emit_members-pending (b ∷ []) (flush set 0 st))
                      ∙ plain,
                )
          | inr e ↦ elim (Bool-cases (is_title b)) [
            | inl title ↦ rw (t, e, title) (kept ∙ sym (append-nil (skips st.pieces)), rw e refl)
            | inr other ↦ elim (Bool-cases (ltb set.size (ntok set b))) [
              | inl long ↦
                  let (shown, same) = slides_plain b (flush set 0 st) in
                  rw (t, e, other, long)
                    (
                      shown ∙ kept ∙ sym (append-nil (skips st.pieces)),
                      ap (λ x. not (any is_barrier x)) same ∙ plain,
                    )
              | inr short ↦
                  elim (Bool-cases
                    (nonempty st.pending && ltb set.size (st.pending_toks + ntok set b))) [
                      | inl full ↦
                          let (shown, plain') = flush_plain set.carried st h in
                          rw (t, e, other, short, full)
                            (
                              shown ∙ sym (append-nil (skips st.pieces)),
                              appended b (flush set set.carried st).pending plain' e,
                            )
                      | inr fits ↦
                          rw (t, e, other, short, fits)
                            (sym (append-nil (skips st.pieces)), appended b st.pending h e)
                    ]
            ]
          ]
        ]
      ]

  visit_all_plain :
      (bs : List (Block F)) (st : Chunking F)
      → is_plain st ≡ true
      → (skips (visit_all set bs st).pieces ≡ skips st.pieces ++ barrier_texts bs)
        × (is_plain (visit_all set bs st) ≡ true)
  unfolding visit_all
  visit_all_plain [] st h = (sym (append-nil (skips st.pieces)), h)
  visit_all_plain (b ∷ bs) st h =
      let (one, plain) = visit_plain b st h in
      let (rest, plain') = visit_all_plain bs (visit set b st) plain in
      let parts = barrier_texts-cons b bs in
      (
        rest
            ∙ ap (λ x. x ++ barrier_texts bs) one
            ∙ append_assoc (skips st.pieces) (barrier_texts (b ∷ [])) (barrier_texts bs)
            ∙ ap (λ x. skips st.pieces ++ x) parts,
        plain',
      )

  pub merge_blocks_barriers :
      (bs : List (Block F))
      → map (λ p. p.content) (filter (λ p. p.skip_summary) (merge_blocks set bs))
        ≡ map (λ b. strip (strip b.text)) (filter (λ b. has_text b.text && is_barrier b) bs)
  unfolding merge_blocks
  merge_blocks_barriers bs =
      let (shown, plain) =
        visit_all_plain bs (record { pieces = []; order = 0; pending = []; pending_toks = 0 })
          refl in
      let (same, _) =
        flush_plain 0
          (visit_all set bs (record { pieces = []; order = 0; pending = []; pending_toks = 0 }))
          plain in
      same ∙ shown
