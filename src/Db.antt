-- ===== src/Db.antt =====
-- The tables of app/schema.sql that the indexing code reads and writes. A table lists its rows in the
-- order of insertion. `F` is the type of floats.
use kb_backend.Prelude.{
  ℕ, ◌+◌, String, Bool, ◌&&◌, Option, none, some, List, [], ◌∷◌, map, ◌==◌, if◌then◌else◌, filter,
  find,
}
use kb_backend.Prelude.Int.{ℤ}
use kb_backend.Relay.{Outbox}
use kb_backend.Audit.{AuditRow, Payload, Hashing, append_audit, Json}

-- The columns parser_config, a JSON object; `none` for a key that is absent.
pub record ParserConfig : Type 0 where
  pub method : Option String
  pub chunk_token_num : Option ℕ
  pub overlap : Option ℕ
  pub delimiter : Option String
  pub layout_recognize : Option String

-- kb_file; a version pointer may be NULL, and a content hash is a number, which stands for its digits
pub record FileRow : Type 0 where
  pub id : ℕ
  pub tenant_id : ℕ
  pub storage_key : String
  pub name : String
  pub content_hash : ℕ
  pub mime : Option String
  pub parser_type : Option String
  pub parser_config : Option ParserConfig
  pub size_bytes : Option ℕ
  pub page_count : Option ℕ
  pub summary_enabled : Bool
  pub active_doc_version : Option ℕ
  pub active_chunk_version : Option ℕ
  pub active_summary_version : Option ℕ
  pub active_anchor_version : Option ℕ
  pub status : String
  pub owner_user_id : Option ℕ
  pub created_at : ℕ

-- kb_chunk; a content hash is a number, which stands for its hex digits
pub record ChunkRow : Type 0 where
  pub id : ℕ
  pub file_id : ℕ
  pub tenant_id : ℕ
  pub doc_version : ℕ
  pub chunk_order : ℕ
  pub content : String
  pub section_path : Option String
  pub page_num : ℕ
  pub chunk_version : ℕ
  pub content_hash : ℕ
  pub simhash : ℤ
  pub available : ℕ

-- kb_summary_doc
pub record SummaryRow (F : Type 0) : Type 0 where
  pub id : ℕ
  pub file_id : ℕ
  pub tenant_id : ℕ
  pub heading_path : String
  pub summary_text : String
  pub source_chunk_ids : List ℕ
  pub coverage_ratio : F
  pub summary_version : ℕ

-- kb_anchor; a hash and a fingerprint are numbers, which stand for their hex digits
pub record AnchorRow : Type 0 where
  pub id : ℕ
  pub summary_doc_id : ℕ
  pub file_id : ℕ
  pub section_path : String
  pub target_chunk_id : Option ℕ
  pub target_content_hash : Option ℕ
  pub fingerprint : Option ℕ
  pub validity : String
  pub anchor_version : ℕ

-- kb_version
pub record VersionRow : Type 0 where
  pub file_id : ℕ
  pub doc_version : ℕ
  pub chunk_version : ℕ
  pub summary_version : ℕ
  pub anchor_version : ℕ

-- kb_usage; a period is the number of a month
pub record UsageRow : Type 0 where
  pub tenant_id : ℕ
  pub period : ℕ
  pub doc_count : ℕ
  pub bytes : ℕ

-- kb_file_kb
pub record FileKb : Type 0 where
  pub file_id : ℕ
  pub kb_id : ℕ
  pub tenant_id : ℕ

-- kb_kb
pub record KbRow : Type 0 where
  pub id : ℕ
  pub tenant_id : ℕ
  pub parser_config : Option ParserConfig

pub record Pg (F : Type 0) : Type 0 where
  pub files : List FileRow
  pub chunks : List ChunkRow
  pub summaries : List (SummaryRow F)
  pub anchors : List AnchorRow
  pub versions : List VersionRow
  pub usage : List UsageRow
  pub file_kbs : List FileKb
  pub kbs : List KbRow
  pub outbox : Outbox F
  pub audit_log : List AuditRow
  pub audit_seq : ℕ

-- PostgreSQL and the index; `S` is the state of the index.
pub record World (F S : Type 0) : Type 0 where
  pub pg : Pg F
  pub es : S

-- What a run of the program depends on: the time, which advisory locks are free, and the hashes.
pub record Env : Type 0 where
  pub now : ℕ
  pub file_lock : ℕ → Bool
  pub audit_lock : Option ℕ → Bool
  pub hashing : Hashing
  pub max_attempts : ℕ

module _ {F : Type 0} where
  -- `append_audit` on the connection of a transaction
  unfoldable pub audited : Env → Option ℕ → Option ℕ → String → Json → Pg F → Pg F
  audited env tenant_id user_id action detail pg =
      let fields : Payload = record {
        tenant_id = tenant_id;
        user_id = user_id;
        action = action;
        kb_ids = none;
        query_text = none;
        hit_chunk_ids = none;
        result = "ok";
        request_id = none;
        ip = none;
        user_agent = none;
        detail = some detail;
      } in
      let log =
        append_audit env.hashing (env.audit_lock tenant_id) pg.audit_seq fields pg.audit_log in
      record pg { audit_log = log; audit_seq = pg.audit_seq + 1 }

-- `SELECT … FROM kb_file WHERE id=… AND tenant_id=…`
unfoldable pub file_of : List FileRow → ℕ → ℕ → Option FileRow
file_of [] fid tenant_id = none
file_of (f ∷ fs) fid tenant_id =
    if (f.id == fid) && (f.tenant_id == tenant_id) then some f else file_of fs fid tenant_id

-- `_resolve_files` of gc.py and of reconcile.py: `none` is the error KB_FILE_NOT_FOUND. The table
-- lists the files in the order of their creation.
unfoldable pub resolve_files : List FileRow → ℕ → Option ℕ → Option (List ℕ)
unfolding file_of
resolve_files files tenant_id (some file_id) = elim (find (λ f. f.id == file_id) files) [
  | none ↦ none
  | some f ↦ if f.tenant_id == tenant_id then some (file_id ∷ []) else none
]
resolve_files files tenant_id none =
    some (map (λ f. f.id) (filter (λ f. f.tenant_id == tenant_id) files))
