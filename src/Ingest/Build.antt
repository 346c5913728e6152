-- ===== src/Ingest/Build.antt =====
-- app/ingest/pipeline.py: `_build_sources`, which makes the chunks and the summaries of a new version
-- anew, or reuses the vectors and the summaries of the version before.
pub mod Vectors
use kb_backend.Prelude.{
  ℕ, ◌&&◌, Option, none, some, List, [], ◌∷◌, map, ◌==◌, if◌then◌else◌, is_some, ◌>>=◌, filter,
  lookup, not, length, ◌++◌, ◌-◌, ltb, nonempty,
}
use kb_backend.Prelude.Text.{is_text, split}
use kb_backend.Es.{Client}
use kb_backend.Db.{FileRow, Pg, World, SummaryRow}
use kb_backend.Ingest.Diff.{NewChunk, PrevChunk, old_to_new_map, match_chunks}
use kb_backend.Ingest.Sources.{Item, Tools}

-- `[… vectors[i] … for i, x in enumerate(xs)]`: `none` (IndexError) where there are too few
unfoldable pub with_vectors :
    {F : Type 0} {A : Type 0} → List A → List (List F) → Option (List (A × Option (List F)))
with_vectors [] vs = some []
with_vectors (x ∷ xs) [] = none
with_vectors (x ∷ xs) (v ∷ vs) = with_vectors xs vs >>= λ rest. some ((x, some v) ∷ rest)

-- `[old_to_new[s] for s in ids]`, if all of them are there
unfoldable pub remap : List (ℕ × ℕ) → List ℕ → Option (List ℕ)
remap old_to_new [] = some []
remap old_to_new (s ∷ ss) =
    remap old_to_new ss >>= λ rest. lookup s old_to_new >>= λ n. some (n ∷ rest)

module _ {F S : Type 0} (es : Client F S) (s : S) where
  -- `reuse_vector` of app/ingest/diff.py
  unfoldable pub reuse_vector : ℕ → Option (List F)
  reuse_vector id = elim (es.get id s) [ none ↦ none | some d ↦ d.q_vec_vec ]

  -- the loop over the new chunks; `vs` is what is left of `fresh_vecs`, `none` is StopIteration
  unfoldable pub reuse_chunks :
      List (ℕ × PrevChunk)
      → List NewChunk
      → List (List F)
      → Option (List (NewChunk × Option (List F)))
  unfolding reuse_vector
  reuse_chunks matched [] vs = some []
  reuse_chunks matched (c ∷ cs) vs = elim (lookup c.content_hash matched) [
    | some p ↦ reuse_chunks matched cs vs >>= λ rest. some ((c, reuse_vector p.id) ∷ rest)
    | none ↦ elim vs [
      | [] ↦ none
      | v ∷ vs' ↦ reuse_chunks matched cs vs' >>= λ rest. some ((c, some v) ∷ rest)
    ]
  ]

  -- the loop over the summaries of the version before
  unfoldable pub reuse_summaries :
      List (ℕ × ℕ) → List (SummaryRow F) → List (Item × Option (List F))
  unfolding reuse_vector remap
  reuse_summaries old_to_new [] = []
  reuse_summaries old_to_new (ps ∷ pss) =
      let rest = reuse_summaries old_to_new pss in
      elim ps.source_chunk_ids [
        | [] ↦ rest
        | _ ↦ elim (remap old_to_new ps.source_chunk_ids) [
          | none ↦ rest
          | some ids ↦
              let path = if is_text ps.heading_path then split ps.heading_path else [] in
              let it : Item = record {
                summary_text = ps.summary_text;
                source_chunk_ids = ids;
                heading_path = path;
              } in
              (it, reuse_vector ps.id) ∷ rest
        ]
      ]

pub data Mode : Type 0 where
  full incremental : Mode

pub record Metrics : Type 0 where
  pub mode : Mode
  pub reused_chunks : ℕ
  pub fresh_chunks : ℕ
  pub reused_summaries : ℕ
  pub fresh_summaries : ℕ

-- What `_build_sources` returns, each chunk and each summary with its vector.
pub record Sources (F : Type 0) : Type 0 where
  pub chunks : List (NewChunk × Option (List F))
  pub items : List (Item × Option (List F))
  pub metrics : Metrics

-- `[c for c in cs if not c.get("skip_summary")]`
abbrev pub eligible : List NewChunk → List NewChunk
eligible cs = filter (λ c. not c.skip_summary) cs

-- `prev_chunks` of app/ingest/diff.py
unfoldable pub prev_chunks : {F : Type 0} → Pg F → ℕ → ℕ → List PrevChunk
prev_chunks pg fid version =
    map (λ c. record { id = c.id; content_hash = c.content_hash })
      (filter (λ c. (c.file_id == fid) && (c.chunk_version == version)) pg.chunks)

-- `prev_summaries` of app/ingest/diff.py; the heading path is split in `reuse_summaries`
unfoldable pub prev_summaries : {F : Type 0} → Pg F → ℕ → ℕ → List (SummaryRow F)
prev_summaries pg fid version =
    filter (λ x. (x.file_id == fid) && (x.summary_version == version)) pg.summaries

module _ {F S Block : Type 0} (tools : Tools F Block) (es : Client F S) where
  -- `summarize_file`, and the vectors of what it gives
  unfoldable pub summarize : List NewChunk → Option (List (Item × Option (List F)))
  unfolding with_vectors
  summarize cs = do
    let raw = (← tools.summarize_file cs)
    let vecs =
        (← if nonempty raw then tools.embed_batch (map (λ it. it.summary_text) raw) else some [])
    with_vectors raw vecs

  -- the branch of `_build_sources` that builds everything
  unfoldable pub build_full : FileRow → List NewChunk → Option (Sources F)
  unfolding summarize with_vectors
  build_full f cs = tools.embed_batch (map (λ c. c.content) cs) >>= λ vectors.
      with_vectors cs vectors >>= λ chunks.
      (if f.summary_enabled then summarize (eligible cs) else some []) >>= λ items. some (record {
        chunks = chunks;
        items = items;
        metrics = record {
          mode = full;
          reused_chunks = 0;
          fresh_chunks = length cs;
          reused_summaries = 0;
          fresh_summaries = length items;
        };
      })

  -- the incremental branch
  unfoldable pub build_incremental :
      World F S
      → FileRow
      → ℕ
      → List NewChunk
      → List (ℕ × PrevChunk)
      → List NewChunk
      → Option (Sources F)
  unfolding summarize prev_summaries reuse_chunks reuse_summaries
  build_incremental w f before cs matched fresh =
      (if nonempty fresh then tools.embed_batch (map (λ c. c.content) fresh) else some [])
      >>= λ vecs. reuse_chunks es w.es matched cs vecs >>= λ chunks.
          let old_to_new = old_to_new_map matched cs in
          let reused =
            if f.summary_enabled
            then reuse_summaries es w.es old_to_new (prev_summaries w.pg f.id before)
            else [] in
          (if f.summary_enabled && nonempty fresh then summarize (eligible fresh) else some [])
          >>= λ added.
              let kept = length (filter (λ c. is_some (lookup c.content_hash matched)) cs) in
              some (record {
                chunks = chunks;
                items = reused ++ added;
                metrics = record {
                  mode = incremental;
                  reused_chunks = kept;
                  fresh_chunks = length cs - kept;
                  reused_summaries = length reused;
                  fresh_summaries = length (reused ++ added) - length reused;
                };
              })

  -- `_build_sources`
  unfoldable pub build_sources : World F S → FileRow → ℕ → List NewChunk → Option (Sources F)
  unfolding build_full build_incremental prev_chunks
  build_sources w f target cs =
      let (matched, fresh) = match_chunks cs (prev_chunks w.pg f.id (target - 1)) in
      let changed_ratio =
        if nonempty cs then tools.ratio (length fresh) (length cs) else tools.nought in
      if ltb 1 target && tools.is_small changed_ratio
      then build_incremental w f (target - 1) cs matched fresh
      else build_full f cs
