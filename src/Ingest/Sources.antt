-- ===== src/Ingest/Sources.antt =====
-- app/ingest/pipeline.py, the first half: the chunks and the summaries of a new version, and their
-- documents. The services that it calls are fields of `Tools`; one that raises returns `none`.
use kb_backend.Prelude.{
  ℕ, String, Bool, ◌&&◌, ◌||◌, Option, none, some, List, [], ◌∷◌, map, ◌==◌, if◌then◌else◌, is_some,
  find,
}
use kb_backend.Prelude.Text.{is_text}
use kb_backend.Es.{Doc}
use kb_backend.Db.{ParserConfig, FileRow, FileKb, KbRow, Pg}
use kb_backend.Retrieval.Simhash.{to_signed}
use kb_backend.Ingest.Diff.{NewChunk}

-- an element of what the chunker gives
pub record Piece : Type 0 where
  pub content : String
  pub section_path : Option String
  pub page : ℕ
  pub chunk_order : ℕ
  pub skip_summary : Bool

-- an element of what the summarizer gives, and of `summary_items` without its `_vec`
pub record Item : Type 0 where
  pub summary_text : String
  pub source_chunk_ids : List ℕ
  pub heading_path : List String

-- The store of objects, the parser, the chunker, the models, hashlib and uuid. `uuid4 i` is the
-- result of the i-th call in a run; `ratio` is the division of floats, `is_small` the test against
-- min_changed_ratio.
pub record Tools (F Block : Type 0) : Type 0 where
  pub read_file_bytes : String → Option (List ℕ)
  pub parse_bytes : List ℕ → Option String → String → String → Option (List Block)
  pub chunk : String → List Block → ParserConfig → List Piece
  pub uuid5 : ℕ → ℕ → ℕ → ℕ
  pub uuid4 : ℕ → ℕ
  pub sha256 : String → ℕ
  pub simhash : String → ℕ
  pub embed_batch : List String → Option (List (List F))
  pub summarize_file : List NewChunk → Option (List Item)
  pub ratio : ℕ → ℕ → F
  pub nought : F
  pub is_small : F → Bool

module _ {F : Type 0} where
  -- `_chunk_source`
  unfoldable pub chunk_source : NewChunk → Option (List F) → ℕ → ℕ → ℕ → Doc F
  chunk_source c vector fid tenant_id version = record {
    content_tks = some c.content;
    q_vec_vec = vector;
    file_id_kwd = some fid;
    tenant_id_kwd = some tenant_id;
    sensitivity_int = some 0;
    doc_type_kwd = some "chunk";
    is_summary_int = none;
    source_chunk_ids_kwd = none;
    coverage_ratio_f = none;
    page_num_int = some c.page;
    chunk_order_int = some c.chunk_order;
    chunk_version_int = some version;
    simhash_long = some (to_signed c.simhash);
    available_int = some 0;
  }

  -- `_summary_source`
  unfoldable pub summary_source : Item → Option (List F) → ℕ → ℕ → F → Doc F
  summary_source it vector fid tenant_id coverage_ratio = record {
    content_tks = some it.summary_text;
    q_vec_vec = vector;
    file_id_kwd = some fid;
    tenant_id_kwd = some tenant_id;
    sensitivity_int = some 0;
    doc_type_kwd = some "summary";
    is_summary_int = some 1;
    source_chunk_ids_kwd = some it.source_chunk_ids;
    coverage_ratio_f = some coverage_ratio;
    page_num_int = none;
    chunk_order_int = none;
    chunk_version_int = none;
    simhash_long = none;
    available_int = some 0;
  }

-- the query of `_resolve_parse_cfg` over kb_file_kb and kb_kb
unfoldable pub kb_config : List KbRow → List FileKb → ℕ → Option ParserConfig
kb_config kbs [] fid = none
kb_config kbs (l ∷ ls) fid =
    let rest = kb_config kbs ls fid in
    elim (find (λ k. k.id == l.kb_id) kbs) [
      | none ↦ rest
      | some k ↦ if (l.file_id == fid) && is_some k.parser_config then k.parser_config else rest
    ]

-- `bool(cfg)`: some key is there
unfoldable pub is_set : ParserConfig → Bool
is_set cfg =
    is_some cfg.method
    || is_some cfg.chunk_token_num
    || is_some cfg.overlap
    || is_some cfg.delimiter
    || is_some cfg.layout_recognize

-- `a or b`, on texts that may be absent
abbrev pub text_or : Option String → String → String
text_or none b = b
text_or (some a) b = if is_text a then a else b

abbrev pub no_config : ParserConfig
no_config = record {
  method = none;
  chunk_token_num = none;
  overlap = none;
  delimiter = none;
  layout_recognize = none;
}

-- a config that counts
abbrev pub set_config : Option ParserConfig → Option ParserConfig
set_config none = none
set_config (some cfg) = if is_set cfg then some cfg else none

-- `_resolve_parse_cfg`, for a file that is there
unfoldable pub resolve_parse_cfg : {F : Type 0} → Pg F → FileRow → String × ParserConfig
unfolding kb_config is_set
resolve_parse_cfg pg f = elim (set_config f.parser_config) [
  | some cfg ↦ (text_or cfg.method (text_or f.parser_type "naive"), cfg)
  | none ↦ elim (set_config (kb_config pg.kbs pg.file_kbs f.id)) [
    | some cfg ↦ (text_or cfg.method "naive", cfg)
    | none ↦ (text_or f.parser_type "naive", no_config)
  ]
]

module _ {F Block : Type 0} (tools : Tools F Block) where
  -- `_new_chunks`
  unfoldable pub new_chunks_of : ℕ → ℕ → List Block → String → ParserConfig → List NewChunk
  new_chunks_of fid target blocks method cfg =
      map
        (λ c. record {
          chunk_id = tools.uuid5 fid target c.chunk_order;
          content_hash = tools.sha256 c.content;
          content = c.content;
          section_path = c.section_path;
          page = c.page;
          chunk_order = c.chunk_order;
          simhash = tools.simhash c.content;
          skip_summary = c.skip_summary;
        })
        (tools.chunk method blocks cfg)
