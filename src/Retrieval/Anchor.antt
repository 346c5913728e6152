-- ===== src/Retrieval/Anchor.antt =====
-- app/retrieval/anchor.py: from a summary to the chunk that its text stands for, by the chunks that it
-- was made of, or by the fingerprint of its anchor. `features` of app/retrieval/simhash.py is a
-- parameter; an error of the UPDATE, which is ignored, is left out.
pub mod Nearest
pub mod Resolved
use kb_backend.Prelude.{
  ℕ, zero, suc, ◌+◌, ◌-◌, ◌*◌, ◌/◌, ◌%◌, ◌^◌, ◌≤◌, ◌<◌, String, ◌≡◌, refl, sym, ap, ◌∙◌, ◌≢◌, ◌↔◌,
  ◌⊎◌, inl, inr, Bool, true, false, not, ◌&&◌, ◌||◌, Option, none, some, List, [], ◌∷◌, ◌++◌, map,
  arith, ltb, leb, ◌==◌, if◌then◌else◌, ==_iff, ==_refl, Bool-cases, Option-cases, is_some, or_else,
  opt_eq, opt_eq_iff, length, take, drop, get_elem?, filter, any, all, length-append, length-take,
  take-append-drop, any-append, filter-append, filter-all, any_of_all, length-filter, contains,
  contains-append, lookup, insert, erase, lookup-insert, lookup-erase, find, update_where, ◌>>=◌,
  concat, max, >>=_some, nonempty,
}
use kb_backend.Prelude.Int.{pos_part}
use kb_backend.Db.{ChunkRow, AnchorRow}
use kb_backend.Retrieval.Simhash.{hamming, to_unsigned}
use kb_backend.Ingest.Stage.{distinct}

-- ResolveResult, by its validity
pub data ResolveResult : Type 0 where
  valid relocated : ℕ → ResolveResult
  stale : ResolveResult

-- the WHERE clause of `select_center`
unfoldable pub is_source : List ℕ → ℕ → ChunkRow → Bool
is_source source_chunk_ids tenant_id c =
    contains source_chunk_ids c.id && (c.tenant_id == tenant_id) && (c.available == 1)

module _ (features : String → List ℕ) where
  -- `len(q_feats & set(features(content)))`
  unfoldable pub overlap : List ℕ → String → ℕ
  overlap q_feats content = length (filter (contains q_feats) (distinct (features content)))

  -- the loop of `select_center`, with the best row so far and its score; `none` is -1
  unfoldable pub best_center : List ℕ → List ChunkRow → Option (ℕ × ℕ) → Option (ℕ × ℕ)
  unfolding overlap
  best_center q_feats [] best = best
  best_center q_feats (c ∷ cs) best =
      let score = overlap q_feats c.content in
      let is_better : Bool = elim best [ none ↦ true | some (_, top) ↦ ltb top score ] in
      best_center q_feats cs (if is_better then some (c.id, score) else best)

  -- `select_center`
  unfoldable pub select_center : List ChunkRow → List ℕ → String → ℕ → Option ℕ
  unfolding best_center is_source
  select_center chunks source_chunk_ids query tenant_id =
      best_center (distinct (features query)) (filter (is_source source_chunk_ids tenant_id) chunks)
        none
      >>= λ (id, _). some id

-- `_load_fingerprint`
unfoldable pub load_fingerprint : List AnchorRow → ℕ → Option ℕ
load_fingerprint anchors summary_doc_id =
    find (λ a. a.summary_doc_id == summary_doc_id) anchors >>= λ a. a.fingerprint

-- `hamming_hex` of app/retrieval/simhash.py
unfoldable pub distance : ℕ → ChunkRow → ℕ
distance fingerprint c = hamming 64 fingerprint (pos_part (to_unsigned c.simhash))

-- the loop of `_relocate`, with `best` and `best_d`
unfoldable pub nearest : ℕ → ℕ → List ChunkRow → Option ℕ → ℕ → Option ℕ × ℕ
nearest threshold fingerprint [] best best_d = (best, best_d)
nearest threshold fingerprint (c ∷ cs) best best_d =
    let d = distance fingerprint c in
    let is_better = leb d threshold && ltb d best_d in
    nearest threshold fingerprint cs (if is_better then some c.id else best)
      (if is_better then d else best_d)

-- the WHERE clause of `_relocate`
unfoldable pub is_current : ℕ → ℕ → ChunkRow → Bool
is_current fid tenant_id c = (c.file_id == fid) && (c.tenant_id == tenant_id) && (c.available == 1)

-- `_relocate`
unfoldable pub relocate : List ChunkRow → ℕ → ℕ → ℕ → ℕ → Option ℕ
unfolding nearest is_current
relocate chunks threshold fid fingerprint tenant_id =
    (nearest threshold fingerprint (filter (is_current fid tenant_id) chunks) none
      (threshold + 1)).0

-- `_persist_relocate`
unfoldable pub persist_relocate : List AnchorRow → ℕ → ℕ → List AnchorRow
persist_relocate anchors summary_doc_id new_chunk_id =
    update_where (λ a. a.summary_doc_id == summary_doc_id)
      (λ a. record a { target_chunk_id = some new_chunk_id; validity = "relocated" }) anchors

-- `resolve`
unfoldable pub resolve_anchor :
    (String → List ℕ)
    → ℕ
    → List ChunkRow
    → List AnchorRow
    → ℕ
    → List ℕ
    → ℕ
    → String
    → ℕ
    → List AnchorRow × ResolveResult
resolve_anchor features threshold chunks anchors fid source_chunk_ids summary_doc_id query
      tenant_id =
    elim (select_center features chunks source_chunk_ids query tenant_id) [
      | some center ↦ (anchors, valid center)
      | none ↦ elim (load_fingerprint anchors summary_doc_id) [
        | none ↦ (anchors, stale)
        | some fp ↦ elim (relocate chunks threshold fid fp tenant_id) [
          | none ↦ (anchors, stale)
          | some id ↦ (persist_relocate anchors summary_doc_id id, relocated id)
        ]
      ]
    ]
