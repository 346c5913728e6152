-- ===== src/Ingest/Diff.antt =====
-- app/ingest/diff.py: which chunks of a new version are those of the version before. A content hash
-- is only compared: it is a number.
pub mod Matched
use kb_backend.Prelude.{ℕ, String, Bool, Option, none, some, List, [], ◌∷◌, ◌++◌, lookup, insert}

-- an element of `prev`
pub record PrevChunk : Type 0 where
  pub id : ℕ
  pub content_hash : ℕ

-- an element of `new_chunks`; the position is left out
pub record NewChunk : Type 0 where
  pub chunk_id : ℕ
  pub content_hash : ℕ
  pub content : String
  pub section_path : Option String
  pub page : ℕ
  pub chunk_order : ℕ
  pub simhash : ℕ
  pub skip_summary : Bool

-- `{p["content_hash"]: p for p in prev}`, added to `d`: of equal hashes the last stays
unfoldable pub by_hash : List PrevChunk → List (ℕ × PrevChunk) → List (ℕ × PrevChunk)
by_hash [] d = d
by_hash (p ∷ ps) d = by_hash ps (insert p.content_hash p d)

-- the loop of `match`
unfoldable pub match_loop :
    List (ℕ × PrevChunk)
    → List NewChunk
    → List (ℕ × PrevChunk)
    → List NewChunk
    → List (ℕ × PrevChunk) × List NewChunk
match_loop prev_by_hash [] matched fresh = (matched, fresh)
match_loop prev_by_hash (c ∷ cs) matched fresh = elim (lookup c.content_hash prev_by_hash) [
  | some p ↦ match_loop prev_by_hash cs (insert c.content_hash p matched) fresh
  | none ↦ match_loop prev_by_hash cs matched (fresh ++ (c ∷ []))
]

-- `match`
unfoldable pub match_chunks : List NewChunk → List PrevChunk → List (ℕ × PrevChunk) × List NewChunk
unfolding by_hash match_loop
match_chunks new_chunks prev = match_loop (by_hash prev []) new_chunks [] []

-- the loop of `old_to_new_map`
unfoldable pub map_loop : List (ℕ × PrevChunk) → List NewChunk → List (ℕ × ℕ) → List (ℕ × ℕ)
map_loop matched [] m = m
map_loop matched (c ∷ cs) m = elim (lookup c.content_hash matched) [
  | some p ↦ map_loop matched cs (insert p.id c.chunk_id m)
  | none ↦ map_loop matched cs m
]

-- `old_to_new_map`
unfoldable pub old_to_new_map : List (ℕ × PrevChunk) → List NewChunk → List (ℕ × ℕ)
unfolding map_loop
old_to_new_map matched new_chunks = map_loop matched new_chunks []
