-- ===== src/Tests/Chunks.antt =====
-- The chunks of a small file, with one token for each character.
use Prim.Native.Char.{code}
use Prim.Native.String.{◌++◌}
use kb_backend.Prelude.Strip.{is_space, strip, has_text}
use kb_backend.Ingest.Chunker.{
  Block, BlockType, Setting, chunk_blocks, starts, merge_blocks, visit_all, visit, flush,
  emit_members, add, is_barrier, is_title, emit_slides, slide_loop, apply_delimiter,
}
use kb_backend.Ingest.Chunker.Ordered.{chunk_blocks_numbered, upto}
use kb_backend.Ingest.Chunker.Slides.{starts_cover_all, covers}
use kb_backend.Ingest.Chunker.Delimited.{chunk_blocks_barriers}
use kb_backend.Prelude.{
  ℕ, String, ◌≡◌, refl, true, ◌&&◌, none, some, List, [], ◌∷◌, map, arith, length, filter,
}

codes : String → List ℕ
codes String.[] = []
codes (String.◌∷◌ c s) = code c ∷ codes s

-- the decoding shows a full stop for each token
dots : List ℕ → String
dots [] = ""
dots (n ∷ ns) = "." ++ dots ns

abbrev windows : Setting
windows = record { encode = codes; decode = dots; size = 4; kept = 3; carried = 1 }

abbrev block : BlockType → String → Block ℕ
block kind words = record {
  page = 1;
  text = words;
  section_path = none;
  block_type = kind;
  bbox = none;
  level = none;
}

abbrev blocks : List (Block ℕ)
blocks =
    block BlockType.title "A"
    ∷ block BlockType.text "b c"
    ∷ block BlockType.table " T "
    ∷ block BlockType.text "abcdefgh"
    ∷ block BlockType.text " "
    ∷ block BlockType.figure "F"
    ∷ []

contents_test :
    map (λ c. c.content) (chunk_blocks windows none blocks)
    ≡ "A\nb c" ∷ "T" ∷ "...." ∷ "...." ∷ ".." ∷ "F" ∷ []
unfolding chunk_blocks merge_blocks visit_all visit flush emit_members emit_slides is_barrier
    is_title add apply_delimiter starts slide_loop has_text strip is_space codes dots
contents_test = refl

chunk_blocks_numbered_example :
    map (λ p. p.chunk_order) (chunk_blocks windows (some ";") blocks)
    ≡ upto (length (chunk_blocks windows (some ";") blocks))
chunk_blocks_numbered_example = chunk_blocks_numbered windows (some ";") blocks

chunk_blocks_barriers_example :
    map (λ p. p.content) (filter (λ p. p.skip_summary) (chunk_blocks windows (some ";") blocks))
    ≡ map (λ b. strip (strip b.text)) (filter (λ b. has_text b.text && is_barrier b) blocks)
chunk_blocks_barriers_example = chunk_blocks_barriers windows (some ";") blocks

starts_cover_all_example : covers windows 7 (starts windows 8 8 0) ≡ true
starts_cover_all_example = starts_cover_all windows 8 7 (omega arith) (omega arith) (omega arith)
