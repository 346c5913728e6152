-- ===== src/Ingest/Chunker.antt =====
-- The splitting of the blocks of a file into chunks: app/ingest/chunker.py.
pub mod Barriers
pub mod Ordered
pub mod Slides
pub mod Delimited
use kb_backend.Prelude.Text.{join_lines, is_text, split_any}
use mathlib.Core.List.{reverse}
use kb_backend.Prelude.Strip.{has_text, strip}
use kb_backend.Prelude.{
  ℕ, zero, suc, ◌+◌, ◌-◌, String, Bool, true, false, not, ◌&&◌, Option, none, some, List, [], ◌∷◌,
  ◌++◌, map, ltb, leb, if◌then◌else◌, length, take, drop, filter, any, max, nonempty, ◌||◌,
}

-- app/adapters/parser.py: the types of a block
pub data BlockType : Type 0 where
  text : BlockType
  title : BlockType
  table : BlockType
  figure : BlockType
  equation : BlockType
  header : BlockType
  footer : BlockType
  caption : BlockType

-- `Block`; the numbers of a box are floats
pub record Block (F : Type 0) : Type 0 where
  pub page : ℕ
  pub text : String
  pub section_path : Option String
  pub block_type : BlockType
  pub bbox : Option (F × F × F × F)
  pub level : Option ℕ

-- one box of `position`
pub record Spot (F : Type 0) : Type 0 where
  pub page : ℕ
  pub l : F
  pub t : F
  pub r : F
  pub b : F

pub record Chunk (F : Type 0) : Type 0 where
  pub content : String
  pub page : ℕ
  pub section_path : Option String
  pub chunk_order : ℕ
  pub position : Option (List (Spot F))
  pub skip_summary : Bool

-- The library tiktoken, and what the two products of `size` with the float `overlap` are cut to.
pub record Setting : Type 0 where
  pub encode : String → List ℕ
  pub decode : List ℕ → String
  pub size : ℕ
  pub kept : ℕ
  pub carried : ℕ

-- `b.block_type in _BARRIER`
unfoldable pub is_barrier : {F : Type 0} → Block F → Bool
is_barrier b = elim b.block_type [
  | text ↦ false
  | title ↦ false
  | table ↦ true
  | figure ↦ true
  | equation ↦ false
  | header ↦ false
  | footer ↦ false
  | caption ↦ false
]

unfoldable pub is_title : {F : Type 0} → Block F → Bool
is_title b = elim b.block_type [
  | text ↦ false
  | title ↦ true
  | table ↦ false
  | figure ↦ false
  | equation ↦ false
  | header ↦ false
  | footer ↦ false
  | caption ↦ false
]

-- What the inner functions of `chunk_blocks` share.
pub record Chunking (F : Type 0) : Type 0 where
  pub pieces : List (Chunk F)
  pub order : ℕ
  pub pending : List (Block F)
  pub pending_toks : ℕ

module _ {F : Type 0} where
  -- `pos_of`
  unfoldable pub spots : List (Block F) → List (Spot F)
  spots [] = []
  spots (b ∷ bs) =
      let rest = spots bs in
      elim b.bbox [
        | none ↦ rest
        | some (l, t, r, u) ↦ record { page = b.page; l = l; t = t; r = r; b = u } ∷ rest
      ]

  unfoldable pub pos_of : List (Block F) → Option (List (Spot F))
  unfolding spots
  pos_of members = let pos = spots members in if nonempty pos then some pos else none

  -- `add`
  unfoldable pub add :
      String → ℕ → Option String → Option (List (Spot F)) → Bool → Chunking F → Chunking F
  add content page section_path position skip_summary st =
      if has_text content
      then record st {
        pieces =
            st.pieces
            ++ (record {
              content = strip content;
              page = page;
              section_path = section_path;
              chunk_order = st.order;
              position = position;
              skip_summary = skip_summary;
            }
                ∷ []);
        order = st.order + 1;
      }
      else st

  -- `emit`
  unfoldable pub emit_members : List (Block F) → Chunking F → Chunking F
  unfolding add pos_of join_lines is_barrier
  emit_members [] st = st
  emit_members (m ∷ ms) st =
      let texts = filter has_text (map (λ b. b.text) (m ∷ ms)) in
      if nonempty texts
      then add (strip (join_lines texts)) m.page m.section_path (pos_of (m ∷ ms))
          (any is_barrier (m ∷ ms)) st
      else st

module _ (set : Setting) where
  -- `step`
  unfoldable pub step : ℕ
  step = max 1 set.kept

  -- the starts of the windows of `emit_slides` over `n` tokens, from one start on; each turn of the
  -- loop takes one unit of the first argument
  unfoldable pub starts : ℕ → ℕ → ℕ → List ℕ
  unfolding step
  starts zero n start = []
  starts (suc fuel) n start =
      let rest = starts fuel n (start + step) in
      if leb n start then [] else if leb n (start + set.size) then start ∷ [] else start ∷ rest

module _ {F : Type 0} (set : Setting) where
  -- `ntok`
  unfoldable pub ntok : Block F → ℕ
  ntok b = length (set.encode b.text)

  unfoldable pub sum_toks : List (Block F) → ℕ
  unfolding ntok
  sum_toks [] = 0
  sum_toks (b ∷ bs) = ntok b + sum_toks bs

  -- the loop of `flush` over `reversed(pending)`, whose length is `n`
  unfoldable pub tail_loop : ℕ → ℕ → List (Block F) → List (Block F) → List (Block F)
  unfolding ntok
  tail_loop n budget [] tail = tail
  tail_loop n budget (b ∷ bs) tail =
      let rest = tail_loop n (budget - ntok b) bs (b ∷ tail) in
      if leb n (length tail) then tail else if leb (ntok b) budget then rest else tail

  -- `flush`
  unfoldable pub flush : ℕ → Chunking F → Chunking F
  unfolding emit_members tail_loop sum_toks
  flush carry st =
      let n = length st.pending in
      let tail = tail_loop n carry (reverse st.pending) [] in
      let sent = emit_members st.pending st in
      if (ltb 0 carry && nonempty st.pending) && (ltb 0 (length tail) && ltb (length tail) n)
      then record sent { pending = tail; pending_toks = sum_toks tail }
      else record sent { pending = []; pending_toks = 0 }

  unfoldable pub slide_loop : Block F → List ℕ → List ℕ → Chunking F → Chunking F
  unfolding add pos_of
  slide_loop b toks [] st = st
  slide_loop b toks (s ∷ ss) st = slide_loop b toks ss (
      add (strip (set.decode (take set.size (drop s toks)))) b.page b.section_path (pos_of (b ∷ []))
        false st)

  -- `emit_slides`
  unfoldable pub emit_slides : Block F → Chunking F → Chunking F
  unfolding starts slide_loop
  emit_slides b st =
      let toks = set.encode b.text in
      slide_loop b toks (starts set (length toks) (length toks) 0) st

  -- the body of the loop over the blocks
  unfoldable pub visit : Block F → Chunking F → Chunking F
  visit b st =
      let t = ntok b in
      let flushed = flush 0 st in
      if not (has_text b.text)
      then st
      else if is_barrier b
      then emit_members (b ∷ []) flushed
      else if is_title b
      then record flushed { pending = b ∷ []; pending_toks = t }
      else if ltb set.size t
      then emit_slides b flushed
      else let ready =
          if nonempty st.pending && ltb set.size (st.pending_toks + t)
          then flush set.carried st
          else st in
        record ready { pending = ready.pending ++ (b ∷ []); pending_toks = ready.pending_toks + t }

  unfoldable pub visit_all : List (Block F) → Chunking F → Chunking F
  unfolding visit
  visit_all [] st = st
  visit_all (b ∷ bs) st = visit_all bs (visit b st)

  -- `chunk_blocks` after `_apply_delimiter`
  unfoldable pub merge_blocks : List (Block F) → List (Chunk F)
  unfolding visit_all flush
  merge_blocks bs =
      (flush 0
        (visit_all bs (record { pieces = []; order = 0; pending = []; pending_toks = 0 }))).pieces

-- the loop of `_apply_delimiter` over the pieces of a text
unfoldable pub kept_pieces : {F : Type 0} → Block F → List String → List (Block F)
kept_pieces b [] = []
kept_pieces b (t ∷ ts) =
    let rest = kept_pieces b ts in if has_text t then record b { text = strip t } ∷ rest else rest

-- the loop of `_apply_delimiter` over the blocks
unfoldable pub cut_blocks : {F : Type 0} → String → List (Block F) → List (Block F)
cut_blocks d [] = []
cut_blocks d (b ∷ bs) =
    let rest = cut_blocks d bs in
    if is_barrier b || not (has_text b.text)
    then b ∷ rest
    else kept_pieces b (split_any d b.text) ++ rest

-- `_apply_delimiter`
unfoldable pub apply_delimiter : {F : Type 0} → Option String → List (Block F) → List (Block F)
unfolding cut_blocks
apply_delimiter none bs = bs
apply_delimiter (some d) bs = if is_text d then cut_blocks d bs else bs

-- `chunk_blocks`
unfoldable pub chunk_blocks :
    {F : Type 0} → Setting → Option String → List (Block F) → List (Chunk F)
chunk_blocks set delimiter bs = merge_blocks set (apply_delimiter delimiter bs)
