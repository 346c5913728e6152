-- ===== src/Documents/Requests.antt =====
-- The requests that change documents and files, one after another: each is answered by its handler.
use package.text.Mathlib.Text.{◌==◌ as str_eq}
use kb_backend.Db.{FileRow}
use kb_backend.Prelude.{is_some, not, nonempty, find, ◌>>=◌, some, or_else, false, ◌&&◌}
use kb_backend.Documents.{may_write_kb, within_quota, file_with_hash, can_manage_file}
use kb_backend.Http.{Http, ok, http_error}
use kb_backend.Documents.{Site, Upload, Services, Principal}
use kb_backend.Db.{Env, ParserConfig}
use kb_backend.Prelude.{ℕ, String, Option, List, [], ◌∷◌, Bool, false, ◌==◌, ◌||◌}
use kb_backend.Es.{Client}
use kb_backend.Ingest.Sources.{Tools}
use kb_backend.Documents.Uploads.{upload_to_drive, upload_doc}
use kb_backend.Documents.Library.{
  remove_doc_from_kb, update_doc, rename_file, detach_file, delete_own_file, reparse_doc, bulk_docs,
  attach_file,
}

-- A request with its arguments; an upload has the id that uuid draws for it.
pub data Request : Type 0 where
  drive : (fid : ℕ) → Upload → ParserConfig → Request
  upload : (kb_id fid : ℕ) → Upload → ParserConfig → Option String → Request
  remove : (kb_id doc_id : ℕ) → Request
  update : (kb_id doc_id : ℕ) → String → Request
  rename : (fid : ℕ) → Option String → ParserConfig → Request
  detach : (fid kb_id : ℕ) → Request
  delete : (fid : ℕ) → Request
  reparse : (kb_id doc_id : ℕ) → Option ParserConfig → Request
  bulk : (kb_id : ℕ) → List ℕ → String → Request
  attach : (fid kb_id : ℕ) → ParserConfig → Request

-- A request with its time and the one who makes it
pub record Call : Type 0 where
  pub env : Env
  pub services : Services
  pub principal : Principal
  pub request : Request

module _ {F S Block : Type 0} (tools : Tools F Block) (es : Client F S) where
  -- the site that the handler of a request leaves
  unfoldable pub answer : Env → Services → Principal → Request → Site F S → Site F S
  unfolding upload_to_drive upload_doc remove_doc_from_kb update_doc rename_file detach_file
      delete_own_file reparse_doc bulk_docs attach_file
  answer env sv p (drive fid up cfg) site = (upload_to_drive env sv p fid up cfg site).0
  answer env sv p (upload kb_id fid up cfg ua) site =
      (upload_doc tools env es sv p kb_id fid up cfg ua site).0
  answer env sv p (remove kb_id doc_id) site = (remove_doc_from_kb env site p kb_id doc_id).0
  answer env sv p (update kb_id doc_id name) site = (update_doc env site p kb_id doc_id name).0
  answer env sv p (rename fid name cfg) site = (rename_file env site p fid name cfg).0
  answer env sv p (detach fid kb_id) site = (detach_file env site p fid kb_id).0
  answer env sv p (delete fid) site = (delete_own_file env es sv.period p fid site).0
  answer env sv p (reparse kb_id doc_id cfg) site =
      (reparse_doc tools env es p kb_id doc_id cfg site).0
  answer env sv p (bulk kb_id ids action) site = (bulk_docs tools env es p kb_id ids action site).0
  answer env sv p (attach fid kb_id cfg) site = (attach_file tools env es p fid kb_id cfg site).0

  unfoldable pub answer_all : List Call → Site F S → Site F S
  unfolding answer
  answer_all [] site = site
  answer_all (c ∷ cs) site = answer_all cs (answer c.env c.services c.principal c.request site)

-- The answer is 400, 403 or 404.
abbrev pub is_refusal : {A : Type 0} → Http A → Bool
is_refusal (ok a) = false
is_refusal (http_error code detail) = (code == 400) || (code == 403) || (code == 404)

module _ {F S Block : Type 0} (tools : Tools F Block) (es : Client F S) where
  -- whether the handler of a request refuses it
  unfoldable pub refuses : Env → Services → Principal → Request → Site F S → Bool
  refuses env sv p (drive fid up cfg) site = is_refusal (upload_to_drive env sv p fid up cfg site).1
  refuses env sv p (upload kb_id fid up cfg ua) site =
      is_refusal (upload_doc tools env es sv p kb_id fid up cfg ua site).1
  refuses env sv p (remove kb_id doc_id) site =
      is_refusal (remove_doc_from_kb env site p kb_id doc_id).1
  refuses env sv p (update kb_id doc_id name) site =
      is_refusal (update_doc env site p kb_id doc_id name).1
  refuses env sv p (rename fid name cfg) site = is_refusal (rename_file env site p fid name cfg).1
  refuses env sv p (detach fid kb_id) site = is_refusal (detach_file env site p fid kb_id).1
  refuses env sv p (delete fid) site = is_refusal (delete_own_file env es sv.period p fid site).1
  refuses env sv p (reparse kb_id doc_id cfg) site =
      is_refusal (reparse_doc tools env es p kb_id doc_id cfg site).1
  refuses env sv p (bulk kb_id ids action) site =
      is_refusal (bulk_docs tools env es p kb_id ids action site).1
  refuses env sv p (attach fid kb_id cfg) site =
      is_refusal (attach_file tools env es p fid kb_id cfg site).1

-- the status of a file
abbrev pub status_of : ℕ → List FileRow → Option String
status_of fid fs = find (λ f. f.id == fid) fs >>= λ f. some f.status

-- A request starts an ingestion: an upload to a writable base of a new content that fits the quota
-- and can be stored, a reparse in a writable base of one document or of a list of them, or the attaching, to
-- a writable base, of a file that the caller manages and that is not parsed yet.
abbrev pub starts_ingestion :
    {F S : Type 0} → Env → Services → Principal → Request → Site F S → Bool
starts_ingestion env sv p (drive fid up cfg) site = false
starts_ingestion env sv p (upload kb_id fid up cfg ua) site =
    let pg = site.world.pg in
    may_write_kb env site p kb_id
    && not (is_some (file_with_hash p.tenant_id up.content_hash pg.files))
    && within_quota sv p up.size_bytes site.quotas pg
    && sv.put_object (sv.storage_key fid)
starts_ingestion env sv p (remove kb_id doc_id) site = false
starts_ingestion env sv p (update kb_id doc_id name) site = false
starts_ingestion env sv p (rename fid name cfg) site = false
starts_ingestion env sv p (detach fid kb_id) site = false
starts_ingestion env sv p (delete fid) site = false
starts_ingestion env sv p (reparse kb_id doc_id cfg) site = may_write_kb env site p kb_id
starts_ingestion env sv p (bulk kb_id ids action) site =
    may_write_kb env site p kb_id && str_eq action "reparse" && nonempty ids
starts_ingestion env sv p (attach fid kb_id cfg) site =
    may_write_kb env site p kb_id
    && can_manage_file env site p fid
    && str_eq (or_else (status_of fid site.world.pg.files) "") "uploaded"
