-- ===== src/Ingest/Stage.antt =====
-- app/ingest/pipeline.py: what `ingest_file` has computed before its first transaction, and the rows
-- and events that this transaction inserts. The ids (uuid5 of the file, its version and the order of
-- the chunk, and uuid4) are taken not to collide: no insertion fails on a primary key.
use Prim.Native.String.{len}
use kb_backend.Prelude.{
  Bool, true, all, leb, ◌&&◌, ℕ, ◌+◌, ◌*◌, String, Option, none, some, List, [], ◌∷◌, ◌++◌, map,
  ◌==◌, if◌then◌else◌, get_elem?, contains, lookup, insert, ◌>>=◌, max,
}
use kb_backend.Prelude.Text.{is_text, join}
use kb_backend.Es.{Doc}
use kb_backend.Relay.{Outbox, emit, index}
use kb_backend.Db.{FileRow, ChunkRow, SummaryRow, AnchorRow, VersionRow, Pg}
use kb_backend.Retrieval.Simhash.{to_signed}
use kb_backend.Ingest.Diff.{NewChunk}
use kb_backend.Ingest.Sources.{Item, Tools, chunk_source, summary_source}
use kb_backend.Ingest.Build.{Sources}

-- `SELECT coalesce(max(doc_version),0) … WHERE file_id=…`
unfoldable pub max_version : List VersionRow → ℕ → ℕ
max_version [] fid = 0
max_version (v ∷ vs) fid =
    let rest = max_version vs fid in if v.file_id == fid then max v.doc_version rest else rest

-- `set(xs)`, as a list without repetitions
unfoldable pub distinct : List ℕ → List ℕ
distinct [] = []
distinct (x ∷ xs) = let rest = distinct xs in if contains rest x then rest else x ∷ rest

-- `{c["chunk_id"]: c for c in cs}`, added to `d`: of equal ids the last stays
unfoldable pub by_id : List NewChunk → List (ℕ × NewChunk) → List (ℕ × NewChunk)
by_id [] d = d
by_id (c ∷ cs) d = by_id cs (insert c.chunk_id c d)

-- What `ingest_file` has computed before its first transaction.
pub record Plan (F : Type 0) : Type 0 where
  pub target : ℕ
  pub blocks : ℕ
  pub chunks : List NewChunk
  pub sources : Sources F
  pub coverage_ratio : F

-- What is inserted for one summary.
pub record StagedItem (F : Type 0) : Type 0 where
  pub summary : SummaryRow F
  pub anchor : AnchorRow
  pub source : Doc F

-- `d.get(k, {}).get("content", "")`
abbrev content_of : Option NewChunk → String
content_of none = ""
content_of (some c) = c.content

-- The column kb_chunk.section_path, which may be NULL, is VARCHAR(512).
unfoldable pub fits_column : NewChunk → Bool
fits_column c = elim c.section_path [ none ↦ true | some path ↦ leb (len path) 512 ]

module _ {F Block : Type 0} (tools : Tools F Block) (f : FileRow) where
  -- The rows of the i-th summary; `none` where the column kb_anchor.section_path, which is NOT NULL,
  -- gets no value, or one that is longer than VARCHAR(512).
  unfoldable pub stage_item :
      Plan F → List (ℕ × NewChunk) → ℕ → Item × Option (List F) → Option (StagedItem F)
  stage_item plan chunk_by_id i (it, vec) =
      let sid = tools.uuid4 (2 * i) in
      let path = join it.heading_path in
      let tgt = get_elem? it.source_chunk_ids 0 in
      let tgt_content = content_of (tgt >>= λ t. lookup t chunk_by_id) in
      let hashed : (String → ℕ) → Option ℕ =
        λ h. if is_text tgt_content then some (h tgt_content) else none in
      if is_text path && leb (len path) 512
      then some (record {
        summary = record {
          id = sid;
          file_id = f.id;
          tenant_id = f.tenant_id;
          heading_path = path;
          summary_text = it.summary_text;
          source_chunk_ids = it.source_chunk_ids;
          coverage_ratio = plan.coverage_ratio;
          summary_version = plan.target;
        };
        anchor = record {
          id = tools.uuid4 (2 * i + 1);
          summary_doc_id = sid;
          file_id = f.id;
          section_path = path;
          target_chunk_id = tgt;
          target_content_hash = hashed tools.sha256;
          fingerprint = hashed tools.simhash;
          validity = "valid";
          anchor_version = plan.target;
        };
        source = summary_source it vec f.id f.tenant_id plan.coverage_ratio;
      })
      else none

  -- the loop over `summary_items`
  unfoldable pub stage_items :
      Plan F
      → List (ℕ × NewChunk)
      → ℕ
      → List (Item × Option (List F))
      → Option (List (StagedItem F))
  unfolding stage_item
  stage_items plan chunk_by_id i [] = some []
  stage_items plan chunk_by_id i (x ∷ xs) = stage_item plan chunk_by_id i x >>= λ r.
      stage_items plan chunk_by_id (i + 1) xs >>= λ rs. some (r ∷ rs)

  -- What the first transaction inserts for the summaries; `none` where it fails.
  unfoldable pub stage_all : Plan F → Option (List (StagedItem F))
  unfolding stage_items by_id fits_column
  stage_all plan =
      if all fits_column plan.chunks
      then stage_items plan (by_id plan.chunks []) 0 plan.sources.items
      else none

module _ (f : FileRow) where
  -- the row of a chunk, staged
  unfoldable pub chunk_row : ℕ → NewChunk → ChunkRow
  chunk_row target c = record {
    id = c.chunk_id;
    file_id = f.id;
    tenant_id = f.tenant_id;
    doc_version = target;
    chunk_order = c.chunk_order;
    content = c.content;
    section_path = c.section_path;
    page_num = c.page;
    chunk_version = target;
    content_hash = c.content_hash;
    simhash = to_signed c.simhash;
    available = 0;
  }

-- the ids with the documents of the summaries, as `zip(summary_ids, summary_sources)`
unfoldable pub summary_docs : {F : Type 0} → List (StagedItem F) → List (ℕ × Doc F)
summary_docs items = map (λ r. (r.summary.id, r.source)) items

module _ {F : Type 0} (f : FileRow) where
  -- the ids with the documents of the chunks, as `zip(chunk_ids, chunk_sources)`
  unfoldable pub chunk_docs : Plan F → List (ℕ × Doc F)
  unfolding chunk_source
  chunk_docs plan =
      map (λ (c, vec). (c.chunk_id, chunk_source c vec f.id f.tenant_id plan.target))
        plan.sources.chunks

  -- `INSERT INTO kb_outbox … 'index'`
  abbrev pub index_events : List (ℕ × Doc F) → Outbox F
  index_events docs = map (λ (id, source). emit f.id (index id source)) docs

  -- The first transaction, given the rows of the summaries.
  unfoldable pub stage_rows : Plan F → List (StagedItem F) → Pg F → Pg F
  unfolding emit chunk_row chunk_docs summary_docs
  stage_rows plan items pg =
      let version : VersionRow = record {
        file_id = f.id;
        doc_version = plan.target;
        chunk_version = plan.target;
        summary_version = plan.target;
        anchor_version = plan.target;
      } in
      let events = index_events (chunk_docs plan) ++ index_events (summary_docs items) in
      record pg {
        chunks = pg.chunks ++ map (chunk_row f plan.target) plan.chunks;
        summaries = pg.summaries ++ map (λ r. r.summary) items;
        anchors = pg.anchors ++ map (λ r. r.anchor) items;
        versions = pg.versions ++ (version ∷ []);
        outbox = pg.outbox ++ events;
      }
