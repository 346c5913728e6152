-- ===== src/Documents.antt =====
-- app/routers/docs.py and app/routers/files.py: what the handlers of documents share. The handlers run
-- one at a time. The body of a request is given as the values that Python's json gives; the object
-- store, the ids that uuid draws and the limits of the settings are arguments. Metrics are left out.
pub mod Uploads
pub mod Library
pub mod Views
pub mod Sound
pub mod Requests
pub mod Kept
pub mod Again
pub mod Refused
pub mod Tenants
pub mod Linked
use kb_backend.Ingest.Sources.{is_set, text_or}
use kb_backend.Audit.{Json, Payload, append_audit}
use kb_backend.Db.{Env, FileKb, FileRow, ParserConfig, World, Pg, file_of}
use kb_backend.Quota.{Totals, QuotaRow, get_limits, get_usage, check_quota}
use kb_backend.Authz.{AuthDb, Principal, resolve, is_tenant_owner, can_write}
use kb_backend.Prelude.{
  ℕ, ◌+◌, String, Bool, true, false, ◌&&◌, ◌||◌, Option, none, some, List, [], ◌∷◌, ◌++◌, ◌==◌,
  if◌then◌else◌, opt_eq, filter, any, contains, find, nonempty,
}

-- The tables that decide on access, the quotas, the other tables and the index.
pub record Site (F S : Type 0) : Type 0 where
  pub auth : AuthDb
  pub quotas : List QuotaRow
  pub world : World F S

-- What the handlers call, beside the ingestion: the month, its first instant, the settings of the
-- quota, the key of an object, and whether `put_object` goes through.
pub record Services : Type 0 where
  pub period : ℕ
  pub month_start : ℕ
  pub defaults : Totals
  pub storage_key : ℕ → String
  pub put_object : String → Bool

-- An uploaded file: the hash and the length of its bytes, its name and its type.
pub record Upload : Type 0 where
  pub content_hash : ℕ
  pub size_bytes : ℕ
  pub filename : String
  pub content_type : Option String

-- `INSERT INTO kb_file_kb … ON CONFLICT DO NOTHING`
unfoldable pub add_link : ℕ → ℕ → ℕ → List FileKb → List FileKb
add_link fid kb_id tenant_id links =
    if any (λ l. (l.file_id == fid) && (l.kb_id == kb_id)) links
    then links
    else links ++ (record { file_id = fid; kb_id = kb_id; tenant_id = tenant_id } ∷ [])

-- `SELECT … FROM kb_file WHERE tenant_id=… AND content_hash=…`
unfoldable pub file_with_hash : ℕ → ℕ → List FileRow → Option FileRow
file_with_hash tenant_id content_hash files =
    find (λ f. (f.tenant_id == tenant_id) && (f.content_hash == content_hash)) files

-- `INSERT INTO kb_file`, with the defaults of its other columns
unfoldable pub new_file :
    Env → Principal → ℕ → String → Upload → String → String → ParserConfig → FileRow
new_file env p fid key up status method pcfg = record {
  id = fid;
  tenant_id = p.tenant_id;
  storage_key = key;
  name = up.filename;
  content_hash = up.content_hash;
  mime = up.content_type;
  parser_type = some method;
  parser_config = if is_set pcfg then some pcfg else none;
  size_bytes = some up.size_bytes;
  page_count = none;
  summary_enabled = true;
  active_doc_version = some 1;
  active_chunk_version = some 1;
  active_summary_version = some 1;
  active_anchor_version = some 1;
  status = status;
  owner_user_id = some p.user_id;
  created_at = env.now;
}

module _ {F : Type 0} where
  -- `audit`, whose own transaction is taken to go through
  unfoldable pub logged :
      Env
      → Principal
      → String
      → Option (List ℕ)
      → String
      → Option Json
      → Option String
      → Pg F
      → Pg F
  logged env p action kb_ids result detail user_agent pg =
      let fields : Payload = record {
        tenant_id = some p.tenant_id;
        user_id = some p.user_id;
        action = action;
        kb_ids = kb_ids;
        query_text = none;
        hit_chunk_ids = none;
        result = result;
        request_id = none;
        ip = none;
        user_agent = user_agent;
        detail = detail;
      } in
      let log =
        append_audit env.hashing (env.audit_lock (some p.tenant_id)) pg.audit_seq fields
          pg.audit_log in
      record pg { audit_log = log; audit_seq = pg.audit_seq + 1 }

  -- `check_quota` over the tables
  unfoldable pub within_quota : Services → Principal → ℕ → List QuotaRow → Pg F → Bool
  within_quota sv p size_bytes quotas pg =
      let limits = get_limits sv.defaults quotas p.tenant_id in
      let usage = get_usage sv.period sv.month_start pg.files pg.usage p.tenant_id in
      (check_quota limits usage size_bytes).0

-- `pcfg.get("method") or "naive"`
abbrev pub method_of : ParserConfig → String
method_of pcfg = text_or pcfg.method "naive"

-- the value of a key that the second dict overrides
abbrev pub first : {A : Type 0} → Option A → Option A → Option A
first none b = b
first (some a) b = some a

-- `{**base, **pcfg}`
unfoldable pub merged : ParserConfig → ParserConfig → ParserConfig
merged base pcfg = record {
  method = first pcfg.method base.method;
  chunk_token_num = first pcfg.chunk_token_num base.chunk_token_num;
  overlap = first pcfg.overlap base.overlap;
  delimiter = first pcfg.delimiter base.delimiter;
  layout_recognize = first pcfg.layout_recognize base.layout_recognize;
}

module _ {F S : Type 0} (env : Env) where
  -- `_can_read_file`
  unfoldable pub can_read_file : Site F S → Principal → ℕ → Bool
  can_read_file site p fid =
      let allowed = (resolve env.now site.auth p).allowed_kb_ids in
      nonempty allowed
      && any
          (λ l.
            ((l.file_id == fid) && contains allowed l.kb_id)
            && any (λ k. (k.id == l.kb_id) && (k.tenant_id == p.tenant_id)) site.world.pg.kbs)
          site.world.pg.file_kbs

  -- `_can_manage_file`
  unfoldable pub can_manage_file : Site F S → Principal → ℕ → Bool
  can_manage_file site p fid =
      let decision = resolve env.now site.auth p in
      let linked = filter (λ l. l.file_id == fid) site.world.pg.file_kbs in
      is_tenant_owner site.auth p || (elim (file_of site.world.pg.files fid p.tenant_id) [
        | none ↦ false
        | some f ↦
            opt_eq f.owner_user_id (some p.user_id) || any (λ l. can_write decision l.kb_id) linked
      ])

  -- the test of `_require_kb_write`, which the handlers of uploads and links make too
  unfoldable pub may_write_kb : Site F S → Principal → ℕ → Bool
  may_write_kb site p kb_id =
      let decision = resolve env.now site.auth p in
      contains decision.allowed_kb_ids kb_id && can_write decision kb_id
