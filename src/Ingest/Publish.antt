-- ===== src/Ingest/Publish.antt =====
-- app/ingest/pipeline.py, `ingest_file`, which stages a version, waits for the index
-- and flips the pointers. The record of the cost, whose failure is ignored, and the rounding of the
-- coverage in the report are left out. Nothing else writes between its transactions.
pub mod Atomic
pub mod Aligned
pub mod Headings
pub mod Indexed
pub mod Succeeds
pub mod Agrees
pub mod Listed
pub mod Clean
pub mod Reconciled
use kb_backend.Ingest.Stage.{
  stage_all, max_version, Plan, stage_rows, by_id, distinct, StagedItem, stage_items,
}
use kb_backend.Prelude.{
  ℕ, ◌+◌, ◌*◌, String, ◌&&◌, Option, none, some, List, [], ◌∷◌, ◌++◌, map, ltb, ◌==◌, if◌then◌else◌,
  length, get_elem?, filter, contains, lookup, insert, find, update_where, ◌>>=◌, concat, max,
}
use kb_backend.Prelude.Text.{is_text, join}
use kb_backend.Es.{Doc, Client}
use kb_backend.Relay.{Outbox, emit, index, set_available, drain, pending_count}
use kb_backend.Db.{FileRow, ChunkRow, SummaryRow, AnchorRow, VersionRow, Pg, World, Env}
use kb_backend.Retrieval.Simhash.{to_signed}
use kb_backend.Ingest.Diff.{NewChunk}
use kb_backend.Ingest.Sources.{
  Item, Tools, chunk_source, summary_source, resolve_parse_cfg, new_chunks_of, text_or,
}
use kb_backend.Ingest.Build.{Sources, Metrics, build_sources, eligible}

-- `UPDATE kb_file SET active_…`
unfoldable pub flip_file : ℕ → ℕ → FileRow → FileRow
flip_file target blocks g = record g {
  active_doc_version = some target;
  active_chunk_version = some target;
  active_summary_version = some target;
  active_anchor_version = some target;
  status = "ready";
  page_count = some blocks;
}

module _ (f : FileRow) where
  -- the two UPDATEs of kb_chunk
  unfoldable pub flip_chunks : ℕ → List ChunkRow → List ChunkRow
  flip_chunks target cs =
      update_where (λ c. (c.file_id == f.id) && ltb c.chunk_version target)
        (λ c. record c { available = 0 })
        (update_where (λ c. (c.file_id == f.id) && (c.chunk_version == target))
          (λ c. record c { available = 1 }) cs)

module _ {F : Type 0} (f : FileRow) where
  -- `INSERT INTO kb_outbox … 'set_available'`, if there are ids
  abbrev pub set_event : List ℕ → ℕ → Outbox F
  set_event [] available = []
  set_event (x ∷ xs) available = emit f.id (set_available (x ∷ xs) available) ∷ []

  -- the ids of the rows of the versions before
  unfoldable pub old_ids : ℕ → Pg F → List ℕ
  old_ids target pg =
      map (λ c. c.id) (filter (λ c. (c.file_id == f.id) && ltb c.chunk_version target) pg.chunks)
      ++ map (λ x. x.id)
          (filter (λ x. (x.file_id == f.id) && ltb x.summary_version target) pg.summaries)

  -- the second transaction
  unfoldable pub flip : ℕ → ℕ → List ℕ → Pg F → Pg F
  unfolding flip_file old_ids flip_chunks emit
  flip target blocks new_ids pg = record pg {
    files = update_where (λ g. g.id == f.id) (flip_file target blocks) pg.files;
    chunks = flip_chunks f target pg.chunks;
    outbox = pg.outbox ++ (set_event new_ids 1 ++ set_event (old_ids target pg) 0);
  }

pub record Report (F : Type 0) : Type 0 where
  pub file_id : ℕ
  pub version : ℕ
  pub chunks : ℕ
  pub summaries : ℕ
  pub coverage : F
  pub metrics : Metrics

-- How `ingest_file` ends: FileNotFoundError, an exception of a service or of the first transaction,
-- the RuntimeError of the barrier, or its report.
pub data Ending (F : Type 0) : Type 0 where
  file_not_found raised drain_incomplete : Ending F
  done : Report F → Ending F

module _ {F S Block : Type 0} (tools : Tools F Block) (es : Client F S) where
  -- `ingest_file` up to its first transaction
  unfoldable pub plan_file : FileRow → World F S → Option (Plan F)
  unfolding max_version distinct
  plan_file f w =
      let target = max_version w.pg.versions f.id + 1 in
      let (method, pcfg) = resolve_parse_cfg w.pg f in
      tools.read_file_bytes f.storage_key >>= λ bytes.
      tools.parse_bytes bytes f.mime f.name (text_or pcfg.layout_recognize "plaintext")
      >>= λ blocks.
          let cs = new_chunks_of tools f.id target blocks method pcfg in
          build_sources tools es w f target cs >>= λ sources.
          let covered = distinct (concat (map (λ (it, _). it.source_chunk_ids) sources.items)) in
          let n = length (eligible cs) in
          let coverage_ratio = if ltb 0 n then tools.ratio (length covered) n else tools.nought in
          some (record {
            target = target;
            blocks = length blocks;
            chunks = cs;
            sources = sources;
            coverage_ratio = coverage_ratio;
          })

-- what `ingest_file` returns
unfoldable pub report : {F : Type 0} → FileRow → Plan F → Report F
report f plan = record {
  file_id = f.id;
  version = plan.target;
  chunks = length plan.chunks;
  summaries = length plan.sources.items;
  coverage = plan.coverage_ratio;
  metrics = plan.sources.metrics;
}

module _ {F S : Type 0} (env : Env) (es : Client F S) where
  -- `relay.drain(file_id)`
  abbrev pub drained : FileRow → World F S → World F S
  drained f w =
      let (outbox, s, _) = drain es env.max_attempts env.now (some f.id) w.pg.outbox w.es in
      record { pg = record w.pg { outbox = outbox }; es = s }

  -- after the first transaction and the drain that follows it
  unfoldable pub staged : FileRow → Plan F → List (StagedItem F) → World F S → World F S
  unfolding stage_rows
  staged f plan items w = drained f (record { pg = stage_rows f plan items w.pg; es = w.es })

  -- after the second transaction and its drain
  unfoldable pub publish_flip : FileRow → Plan F → List (StagedItem F) → World F S → World F S
  unfolding flip
  publish_flip f plan items w =
      let new_ids = map (λ c. c.chunk_id) plan.chunks ++ map (λ r. r.summary.id) items in
      drained f (record { pg = flip f plan.target plan.blocks new_ids w.pg; es = w.es })

  -- the first transaction, the barrier, and the second transaction
  unfoldable pub publish_plan :
      FileRow → Plan F → List (StagedItem F) → World F S → World F S × Ending F
  publish_plan f plan items w =
      let w' = staged f plan items w in
      if ltb 0 (pending_count (some f.id) w'.pg.outbox)
      then (w', drain_incomplete)
      else (publish_flip f plan items w', done (report f plan))

module _ {F S Block : Type 0} (tools : Tools F Block) (env : Env) (es : Client F S) where
  -- `ingest_file`
  unfoldable pub ingest_file : ℕ → World F S → World F S × Ending F
  unfolding by_id
  ingest_file fid w = elim (find (λ f. f.id == fid) w.pg.files) [
    | none ↦ (w, file_not_found)
    | some f ↦ elim (plan_file tools es f w) [
      | none ↦ (w, raised)
      | some plan ↦ elim (stage_all tools f plan) [
        | none ↦ (w, raised)
        | some items ↦ publish_plan env es f plan items w
      ]
    ]
  ]
