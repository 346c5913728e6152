-- ===== src/Reconcile/Repair.antt =====
-- app/indexing/reconcile.py: the repair of what the comparison reports, and `reconcile` itself. An id
-- is a primary key, so the dict from an id to its row is a search in the list of rows. The embedder,
-- which may raise, and the scan of the index are arguments.
use kb_backend.Prelude.Int.{pos_part}
use kb_backend.Prelude.Text.{is_text}
use kb_backend.Retrieval.Simhash.{to_unsigned}
use kb_backend.Audit.{Json, obj, field, num, flag, end}
use kb_backend.Ingest.Diff.{NewChunk}
use kb_backend.Reconcile.{
  Drift, Doc, Client, active_chunks, active_summaries, chunks_of, summaries_of, classify,
}
use kb_backend.Ingest.Sources.{chunk_source, summary_source, Item}
use kb_backend.Db.{ChunkRow, SummaryRow, FileRow, Env, Pg, World, file_of, resolve_files, audited}
use kb_backend.Relay.{Event, index, set_available, delete, emit, drain}
use kb_backend.Prelude.{
  ℕ, ◌+◌, String, Bool, false, not, ◌||◌, Option, none, some, List, [], ◌∷◌, ◌++◌, map, ltb, ◌==◌,
  if◌then◌else◌, length, filter, contains, find, ◌>>=◌, nonempty,
}

-- the events of one id list, if there is one
abbrev pub if_any : {F : Type 0} → List ℕ → Event F → List (Event F)
if_any [] e = []
if_any (i ∷ is) e = e ∷ []

module _ {A : Type 0} (key : A → ℕ) where
  -- `[active[i] for i in ids if i in active]`
  unfoldable pub rows_of : List ℕ → List A → List A
  rows_of [] active = []
  rows_of (i ∷ is) active =
      let rest = rows_of is active in
      elim (find (λ r. key r == i) active) [ none ↦ rest | some r ↦ r ∷ rest ]

  -- the rows to send again: those found among the active ones, and if some ids are missing the rows of
  -- all of them, read from the table (`str(i) not in have` holds of each id, since `have` holds the
  -- ids as UUIDs)
  unfoldable pub rows_to_send : List ℕ → List A → List A → List A
  unfolding rows_of
  rows_to_send ids active all_rows =
      let rows = rows_of ids active in
      if ltb (length rows) (length ids)
      then rows ++ filter (λ r. contains ids (key r)) all_rows
      else rows

-- `zip`
abbrev pub zip : {A B : Type 0} → List A → List B → List (A × B)
zip [] ys = []
zip (x ∷ xs) [] = []
zip (x ∷ xs) (y ∷ ys) = (x, y) ∷ zip xs ys

-- `chunk_dict`, with the columns of the row that the source does not take. A BIGINT made unsigned is
-- not negative, so its positive part is all of it.
unfoldable pub chunk_of_row : ChunkRow → NewChunk
chunk_of_row c = record {
  chunk_id = c.id;
  content_hash = c.content_hash;
  content = c.content;
  section_path = c.section_path;
  page = c.page_num;
  chunk_order = c.chunk_order;
  simhash = pos_part (to_unsigned c.simhash);
  skip_summary = false;
}

unfoldable pub item_of_row : {F : Type 0} → SummaryRow F → Item
item_of_row x = record {
  summary_text = x.summary_text;
  source_chunk_ids = x.source_chunk_ids;
  heading_path = [];
}

module _ {F : Type 0} (fid tenant_id : ℕ) where
  -- the sources of the chunks, made visible
  unfoldable pub chunks_again : List (ChunkRow × List F) → List (ℕ × Doc F)
  unfolding chunk_of_row chunk_source
  chunks_again [] = []
  chunks_again ((c, vec) ∷ cs) =
      let source = chunk_source (chunk_of_row c) (some vec) fid tenant_id c.chunk_version in
      (c.id, record source { available_int = some 1 }) ∷ chunks_again cs

  -- the sources of the summaries, made visible
  unfoldable pub summaries_again : List (SummaryRow F × List F) → List (ℕ × Doc F)
  unfolding item_of_row summary_source
  summaries_again [] = []
  summaries_again ((x, vec) ∷ xs) =
      let source = summary_source (item_of_row x) (some vec) fid tenant_id x.coverage_ratio in
      (x.id, record source { available_int = some 1 }) ∷ summaries_again xs

module _ {F : Type 0} (embed_batch : List String → Option (List (List F))) (fid tenant_id : ℕ)
    (f : FileRow) (pg : Pg F) (d : Drift) where
  -- `republish` after the chunks; `none` where the embedder raises
  unfoldable pub republish_chunks : Option (List (ℕ × Doc F))
  republish_chunks =
      let ids = d.missing_chunks ++ d.version_drift_chunks in
      let rows =
        rows_to_send (λ (c : ChunkRow). c.id) ids (active_chunks f fid tenant_id pg)
          (chunks_of fid tenant_id pg) in
      if nonempty ids
      then (embed_batch (map (λ c. c.content) rows) >>= λ vecs.
          some (chunks_again fid tenant_id (zip rows vecs)))
      else some []

  -- what the summaries add; a row without a text is left out
  unfoldable pub republish_summaries : Option (List (ℕ × Doc F))
  republish_summaries =
      let ids = d.missing_summaries in
      let rows =
        rows_to_send (λ (x : SummaryRow F). x.id) ids (active_summaries f fid tenant_id pg)
          (summaries_of fid tenant_id pg) in
      let with_text = filter (λ x. is_text x.summary_text) rows in
      if nonempty ids
      then (embed_batch (map (λ x. x.summary_text) with_text) >>= λ vecs.
          some (summaries_again fid tenant_id (zip with_text vecs)))
      else some []

  unfoldable pub republish : Option (List (ℕ × Doc F))
  republish = do cs ← republish_chunks; xs ← republish_summaries; some (cs ++ xs)

-- the events of one file, in their order
unfoldable pub repair_events : {F : Type 0} → Drift → List (ℕ × Doc F) → List (Event F)
repair_events d again =
    map (λ (id, source). index id source) again
    ++ (if_any d.avail_drift (set_available d.avail_drift 1)
        ++ (if_any d.retired_leak (set_available d.retired_leak 0)
            ++ if_any d.orphan (delete d.orphan "reconcile_orphan")))

-- `detail` of the audit row
unfoldable pub repair_detail : ℕ → ℕ → Drift → Json
repair_detail fid republished d = obj (
    field "file_id" (num fid) (
      field "republished" (num republished) (
        field "set_avail_1" (num (length d.avail_drift)) (
          field "set_avail_0" (num (length d.retired_leak))
            (field "deleted" (num (length d.orphan)) (field "dry_run" (flag false) end))))))

-- the numbers of `drift_agg`, and of one row of `details`
pub record DriftCounts : Type 0 where
  pub missing : ℕ
  pub version_drift : ℕ
  pub avail_drift : ℕ
  pub retired_leak : ℕ
  pub orphan : ℕ

unfoldable pub drift_counts : Drift → DriftCounts
drift_counts d = record {
  missing = length d.missing_chunks + length d.missing_summaries;
  version_drift = length d.version_drift_chunks;
  avail_drift = length d.avail_drift;
  retired_leak = length d.retired_leak;
  orphan = length d.orphan;
}

abbrev pub add_counts : DriftCounts → DriftCounts → DriftCounts
add_counts a b = record {
  missing = a.missing + b.missing;
  version_drift = a.version_drift + b.version_drift;
  avail_drift = a.avail_drift + b.avail_drift;
  retired_leak = a.retired_leak + b.retired_leak;
  orphan = a.orphan + b.orphan;
}

abbrev pub no_counts : DriftCounts
no_counts = record { missing = 0; version_drift = 0; avail_drift = 0; retired_leak = 0; orphan = 0 }

module _ {F S : Type 0} (env : Env) (es : Client F S) where
  -- the transaction of a repair, and the drain after its commit
  unfoldable pub send : ℕ → ℕ → Option ℕ → Drift → List (ℕ × Doc F) → World F S → World F S
  unfolding repair_events repair_detail
  send fid tenant_id user_id d again w =
      let events = map (λ e. emit fid e) (repair_events d again) in
      let pg' =
        audited env (some tenant_id) user_id "reconcile_repair" (repair_detail fid (length again) d)
          (record w.pg { outbox = w.pg.outbox ++ events }) in
      let (outbox, es', _) = drain es env.max_attempts env.now (some fid) pg'.outbox w.es in
      record { pg = record pg' { outbox = outbox }; es = es' }

module _ {F S : Type 0} (env : Env) (es : Client F S)
    (embed_batch : List String → Option (List (List F))) where
  -- the repair of one file; `none` where the embedder raises
  unfoldable pub repair_file : ℕ → ℕ → Option ℕ → FileRow → Drift → World F S → Option (World F S)
  unfolding republish send
  repair_file fid tenant_id user_id f d w = do
    again ← republish embed_batch fid tenant_id f w.pg d
    some (send env es fid tenant_id user_id d again w)

  -- the branch of one file after its comparison
  unfoldable pub apply_repair :
      ℕ → Option ℕ → Bool → Bool → ℕ → FileRow → Drift → World F S → Option (World F S)
  unfolding repair_file
  apply_repair tenant_id user_id dry_run repair fid f d w =
      if dry_run || not repair then some w else repair_file fid tenant_id user_id f d w

module _ {F S : Type 0} (env : Env) (es : Client F S) (scan_all : S → List (ℕ × Doc F))
    (embed_batch : List String → Option (List (List F))) where
  -- the loop over the files: the tables and the index that it leaves, and `drift_agg` with `details`,
  -- or `none` where the embedder raises
  unfoldable pub reconcile_loop :
      ℕ
      → Option ℕ
      → Bool
      → Bool
      → List ℕ
      → DriftCounts
      → List (ℕ × DriftCounts)
      → World F S
      → World F S × Option (DriftCounts × List (ℕ × DriftCounts))
  unfolding apply_repair
  reconcile_loop tenant_id user_id dry_run repair [] agg details w = (w, some (agg, details))
  reconcile_loop tenant_id user_id dry_run repair (fid ∷ fids) agg details w =
      elim (file_of w.pg.files fid tenant_id) [
        | none ↦ reconcile_loop tenant_id user_id dry_run repair fids agg details w
        | some f ↦
            let d = classify es w.es (scan_all w.es) fid tenant_id f w.pg in
            let counts = drift_counts d in
            elim (apply_repair env es embed_batch tenant_id user_id dry_run repair fid f d w) [
              | none ↦ (w, none)
              | some w' ↦
                  reconcile_loop tenant_id user_id dry_run repair fids (add_counts agg counts)
                    (details ++ ((fid, counts) ∷ [])) w'
            ]
      ]

-- What `reconcile` answers: an error, what the embedder raises, or the report.
pub data ReconcileResult : Type 0 where
  file_not_found : ReconcileResult
  raised : ReconcileResult
  report : ℕ → DriftCounts → List (ℕ × DriftCounts) → ReconcileResult

abbrev pub answer_of : ℕ → Option (DriftCounts × List (ℕ × DriftCounts)) → ReconcileResult
answer_of n none = raised
answer_of n (some (agg, details)) = report n agg details

-- `reconcile`
unfoldable pub reconcile :
    {F S : Type 0}
    → Env
    → Client F S
    → (S → List (ℕ × Doc F))
    → (List String → Option (List (List F)))
    → ℕ
    → Option ℕ
    → Bool
    → Bool
    → Option ℕ
    → World F S
    → World F S × ReconcileResult
unfolding reconcile_loop
reconcile env es scan_all embed_batch tenant_id file_id dry_run repair user_id w =
    elim (resolve_files w.pg.files tenant_id file_id) [
      | none ↦ (w, file_not_found)
      | some fids ↦
          let (w', result) =
            reconcile_loop env es scan_all embed_batch tenant_id user_id dry_run repair fids
              no_counts [] w in
          (w', answer_of (length fids) result)
    ]
