-- ===== src/Ingest/Publish/Clean.antt =====
-- The reconciliation after an ingestion.
use kb_backend.Reconcile.{ids_of, is_shown}
use kb_backend.Prelude.{
  ℕ, ◌≡◌, refl, ◌∙◌, inl, inr, Bool, true, not, ◌&&◌, ◌||◌, some, List, [], ◌∷◌, ◌++◌, map, arith,
  ltb, ◌==◌, Bool-cases, opt_eq, filter, all, contains, contains-append, lookup, all_imp,
  all-append, all-filter_of, sym, false,
}
use kb_backend.Es.{Doc, Store, fake_es}
use kb_backend.Relay.Drain.{AllKnown}
use kb_backend.Db.{FileRow, ChunkRow, SummaryRow, World, Env}
use kb_backend.Ingest.Diff.{NewChunk}
use kb_backend.Ingest.Stage.{Plan, StagedItem, chunk_row}
use kb_backend.Ingest.Build.Vectors.{firsts}
use kb_backend.Ingest.Publish.{flip_chunks, old_ids, pending_count}
use kb_backend.Ingest.Publish.Indexed.{indexed, flipped}
use kb_backend.Ingest.Publish.Succeeds.{is_of}
use kb_backend.Ingest.Publish.Agrees.{
  row_listed, flip-row_listed, earlier_rows, new_rows, chunk_ok, disjoint, chunk_versioned,
  new_visible, summary_ok, flip-active_ids, is_active_row, new_ids_active, other_unchanged,
}
use kb_backend.Reconcile.Agreement.{chunk_agrees, summary_agrees}
use kb_backend.Ingest.Publish.Listed.{
  contains-filter, all_keys, earlier_summaries, new_summaries, any_right, hidden_doc,
  summary_listed, is_active_summary,
}

abbrev pub Holds : {F : Type 0} → Store F → List (ℕ × Doc F) → Type 0
Holds s [] = Unit
Holds s ((id, d) ∷ ds) = (lookup id s ≡ some d) × Holds s ds

module _ {F : Type 0} (env : Env) (f : FileRow) (plan : Plan F) (items : List (StagedItem F))
    (w : World F (Store F)) (known : AllKnown w.pg.outbox) (docs : Store F)
    (seen : (j : ℕ)
      → lookup j docs
        ≡ flipped
            (map (λ c. c.chunk_id) plan.chunks ++ map (λ r. r.summary.id) items)
            (old_ids f plan.target w.pg)
            j
            (indexed env f plan items w known j))
    (apart : disjoint
        (map (λ c. c.chunk_id) plan.chunks ++ map (λ r. r.summary.id) items)
        (old_ids f plan.target w.pg)
      ≡ true) where
  abbrev chunk_ids : List ℕ
  chunk_ids = map (λ c. c.chunk_id) plan.chunks

  abbrev summary_ids : List ℕ
  summary_ids = map (λ r. r.summary.id) items

  abbrev rows : List ChunkRow
  rows = flip_chunks f plan.target (w.pg.chunks ++ map (chunk_row f plan.target) plan.chunks)

  rows_listed :
      all (λ c. not (c.file_id == f.id) || ltb c.chunk_version plan.target) w.pg.chunks ≡ true
      → all (row_listed f plan.target chunk_ids) rows ≡ true
  rows_listed earlier =
      let t = plan.target in
      let new = map (chunk_row f t) plan.chunks in
      flip-row_listed f t chunk_ids (w.pg.chunks ++ new) (
        all-append (row_listed f t chunk_ids) w.pg.chunks new
          (earlier_rows f t chunk_ids w.pg.chunks earlier)
          (new_rows f t chunk_ids plan.chunks
            (all_keys (λ (c : NewChunk). c.chunk_id) chunk_ids plan.chunks (λ k e. e))))

  pub chunks_agree :
      firsts plan.sources.chunks ≡ plan.chunks
      → disjoint chunk_ids summary_ids ≡ true
      → all (λ c. not (c.file_id == f.id) || ltb c.chunk_version plan.target) w.pg.chunks ≡ true
      → all (chunk_agrees fake_es docs (some plan.target)) (
          filter
            (λ c. opt_eq (some c.chunk_version) (some plan.target))
            (filter (λ c. (c.file_id == f.id) && (c.tenant_id == f.tenant_id)) rows))
        ≡ true
  chunks_agree same separate earlier =
      let t = plan.target in
      let mine : ChunkRow → Bool = λ c. (c.file_id == f.id) && (c.tenant_id == f.tenant_id) in
      let active : ChunkRow → Bool = λ c. opt_eq (some c.chunk_version) (some t) in
      let agrees = chunk_agrees fake_es docs (some t) in
      all-filter_of active agrees (filter mine rows) (
        all-filter_of mine (λ c. not (active c) || agrees c) rows
          (all_imp (row_listed f t chunk_ids) (λ c. not (mine c) || (not (active c) || agrees c))
            rows
            (λ c h. elim (Bool-cases (contains chunk_ids c.id)) [
              | inl own ↦
                  let o = indexed env f plan items w known c.id in
                  let new : contains (chunk_ids ++ summary_ids) c.id ≡ true =
                    contains-append chunk_ids summary_ids c.id ∙ rw own refl in
                  let fits =
                    chunk_ok docs t c o
                      (seen c.id
                        ∙ new_visible env f plan items w known (old_ids f t w.pg) c.id apart new)
                      (chunk_versioned env f plan items w known c.id same separate own) in
                  ground (arith, fits)
              | inr other ↦ ground (arith, h, other)
            ])
            (rows_listed earlier)))

  abbrev summaries : List (SummaryRow F)
  summaries = w.pg.summaries ++ map (λ r. r.summary) items

  new_keys :
      (xs : List (StagedItem F))
      → map (λ x. x.id) (map (λ r. r.summary) xs) ≡ map (λ r. r.summary.id) xs
  new_keys [] = refl
  new_keys (x ∷ xs) = rw (new_keys xs) refl

  pub summaries_agree :
      all (λ x. not (x.file_id == f.id) || ltb x.summary_version plan.target) w.pg.summaries ≡ true
      → all (summary_agrees fake_es docs) (
          filter
            (λ x. opt_eq (some x.summary_version) (some plan.target))
            (filter (λ x. (x.file_id == f.id) && (x.tenant_id == f.tenant_id)) summaries))
        ≡ true
  summaries_agree earlier =
      let t = plan.target in
      let mine : SummaryRow F → Bool = λ x. (x.file_id == f.id) && (x.tenant_id == f.tenant_id) in
      let active : SummaryRow F → Bool = λ x. opt_eq (some x.summary_version) (some t) in
      let agrees = summary_agrees fake_es docs in
      let new = map (λ r. r.summary) items in
      let listed : all (summary_listed f t summary_ids) summaries ≡ true =
        all-append (summary_listed f t summary_ids) w.pg.summaries new
          (earlier_summaries f t summary_ids w.pg.summaries earlier)
          (all_imp (λ x. contains summary_ids x.id) (summary_listed f t summary_ids) new
            (λ x h. ground (arith, h))
            (all_keys (λ (x : SummaryRow F). x.id) summary_ids new
              (λ k e. rw (sym (new_keys items)) e))) in
      all-filter_of active agrees (filter mine summaries) (
        all-filter_of mine (λ x. not (active x) || agrees x) summaries
          (all_imp (summary_listed f t summary_ids)
            (λ x. not (mine x) || (not (active x) || agrees x)) summaries
            (λ x h. elim (Bool-cases (contains summary_ids x.id)) [
              | inl own ↦
                  let o = indexed env f plan items w known x.id in
                  let new_id : contains (chunk_ids ++ summary_ids) x.id ≡ true =
                    contains-append chunk_ids summary_ids x.id ∙ rw own (ground arith) in
                  let fits = summary_ok docs x o (
                    seen x.id
                    ∙ new_visible env f plan items w known (old_ids f t w.pg) x.id apart new_id) in
                  ground (arith, fits)
              | inr other ↦ ground (arith, h, other)
            ])
            listed))

  -- the ids of the active rows
  abbrev active_ids : List ℕ
  active_ids =
      ids_of
        (filter (λ c. opt_eq (some c.chunk_version) (some plan.target))
          (filter (λ c. (c.file_id == f.id) && (c.tenant_id == f.tenant_id)) rows))
        (filter (λ x. opt_eq (some x.summary_version) (some plan.target))
          (filter (λ x. (x.file_id == f.id) && (x.tenant_id == f.tenant_id)) summaries))

  new_ids_listed :
      (j : ℕ)
      → all (is_of f plan.target) (map (λ r. r.summary) items) ≡ true
      → contains (chunk_ids ++ summary_ids) j ≡ true
      → contains active_ids j ≡ true
  new_ids_listed j of_version own =
      let t = plan.target in
      let active_chunk : ChunkRow → Bool = λ c. opt_eq (some c.chunk_version) (some t) in
      let my_chunk : ChunkRow → Bool = λ c. (c.file_id == f.id) && (c.tenant_id == f.tenant_id) in
      let active_summary : SummaryRow F → Bool = λ x. opt_eq (some x.summary_version) (some t) in
      let my_summary : SummaryRow F → Bool =
        λ x. (x.file_id == f.id) && (x.tenant_id == f.tenant_id) in
      let left = map (λ c. c.id) (filter active_chunk (filter my_chunk rows)) in
      let right = map (λ x. x.id) (filter active_summary (filter my_summary summaries)) in
      elim (Bool-cases (contains chunk_ids j)) [
        | inl e ↦
            let found : contains left j ≡ true =
              contains-filter (λ (c : ChunkRow). c.id) active_chunk my_chunk j rows
                (flip-active_ids f t j (w.pg.chunks ++ map (chunk_row f t) plan.chunks)
                  ∙ any_right (λ c. is_active_row f t c && (c.id == j)) w.pg.chunks
                      (map (chunk_row f t) plan.chunks) (new_ids_active f t j plan.chunks e)) in
            contains-append left right j ∙ rw found refl
        | inr e ↦
            let theirs : contains summary_ids j ≡ true =
              ground (arith, e, own, contains-append chunk_ids summary_ids j) in
            let found : contains right j ≡ true =
              contains-filter (λ (x : SummaryRow F). x.id) active_summary my_summary j summaries
                (any_right (λ x. is_active_summary f t x && (x.id == j)) w.pg.summaries
                  (map (λ r. r.summary) items)
                  (new_summaries f t j (map (λ r. r.summary) items) of_version
                    (rw (new_keys items) theirs))) in
            contains-append left right j ∙ rw found (ground arith)
      ]

  -- what the index held before of the file and showed was of its earlier versions
  abbrev ShownBefore : Type 0
  ShownBefore =
      (j : ℕ) (d : Doc F)
      → lookup j w.es ≡ some d
      → is_shown f.id f.tenant_id d ≡ true
      → contains (old_ids f plan.target w.pg) j ≡ true

  -- a document that the index holds is not shown, or is of an active row
  listed_doc :
      (j : ℕ) (d : Doc F)
      → firsts plan.sources.chunks ≡ plan.chunks
      → pending_count (some f.id) w.pg.outbox ≡ 0
      → all (is_of f plan.target) (map (λ r. r.summary) items) ≡ true
      → ShownBefore
      → lookup j docs ≡ some d
      → (not (is_shown f.id f.tenant_id d) || contains active_ids j) ≡ true
  listed_doc j d same quiet of_version before held =
      let olds = old_ids f plan.target w.pg in
      let news = chunk_ids ++ summary_ids in
      let o = indexed env f plan items w known j in
      let now : flipped news olds j o ≡ some d = sym (seen j) ∙ held in
      elim (Bool-cases (contains olds j)) [
        | inl e ↦
            let hidden : is_shown f.id f.tenant_id d ≡ false =
              hidden_doc f.id f.tenant_id o d (rw e at now) in
            rw hidden refl
        | inr e ↦ elim (Bool-cases (contains news j)) [
          | inl n ↦ rw (new_ids_listed j of_version n) (ground arith)
          | inr n ↦
              let there : lookup j w.es ≡ some d =
                sym (other_unchanged env f plan items w known j same quiet n)
                ∙ (rw (e, n) at now) in
              ground (arith, before j d there, e)
        ]
      ]

  pub listed_docs :
      (ds : List (ℕ × Doc F))
      → firsts plan.sources.chunks ≡ plan.chunks
      → pending_count (some f.id) w.pg.outbox ≡ 0
      → all (is_of f plan.target) (map (λ r. r.summary) items) ≡ true
      → ShownBefore
      → Holds docs ds
      → all (λ (j, d). not (is_shown f.id f.tenant_id d) || contains active_ids j) ds ≡ true
  listed_docs [] same quiet of_version before held = refl
  listed_docs ((j, d) ∷ ds) same quiet of_version before (h, held) =
      rw
        (
          listed_doc j d same quiet of_version before h,
          listed_docs ds same quiet of_version before held,
        )
        refl
