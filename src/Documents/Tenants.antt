-- ===== src/Documents/Tenants.antt =====
-- What the requests of one tenant leave of the files of the others.
pub mod Rows
mod Edits
mod Ingests
use package.text.Mathlib.Text.{◌==◌ as str_eq}
use kb_backend.Documents.Uploads.{upload_doc}
use kb_backend.Documents.Library.{reparse_doc, reparse_each, bulk_docs, attach_file}
use kb_backend.Prelude.{is_some, nonempty, find, ◌>>=◌, some, none, [], ◌∷◌}
use kb_backend.Documents.{may_write_kb, within_quota, file_with_hash, can_manage_file}
use kb_backend.Documents.Tenants.Rows.{others, others-update_where, others-filter, others-append}
use kb_backend.FileStore.Erased.{purge_cases}
use kb_backend.Ingest.Sources.{Tools}
use kb_backend.Es.{Client}
use kb_backend.Documents.Uploads.{upload_to_drive}
use kb_backend.FileStore.{purge_rows, delete_file, purge_file}
use kb_backend.Prelude.Strip.{strip}
use kb_backend.Prelude.Text.{is_text}
use kb_backend.Documents.{
  Site, logged, may_write_kb, can_manage_file, is_set, new_file, Services, Upload, file_with_hash,
  within_quota,
}
use kb_backend.Authz.{Principal}
use kb_backend.Documents.Requests.{
  Request, drive, upload, remove, update, rename, detach, delete, reparse, bulk, attach, answer,
}
use kb_backend.Documents.Library.{
  is_link, remove_doc_from_kb, update_doc, rename_file, detach_file, delete_own_file,
}
use kb_backend.Db.{FileRow, Env, ParserConfig, World}
use kb_backend.Prelude.{
  ℕ, ◌≤◌, String, ◌≡◌, refl, ap, ◌∙◌, inl, inr, Bool, true, false, not, ◌&&◌, Option, List, [], ◌∷◌,
  ◌++◌, arith, ◌==◌, if◌then◌else◌, Bool-cases, or_else, filter, any, update_where, Option-cases,
  if-cases,
}
use kb_backend.Prelude.Counts.{count}
use kb_backend.Documents.Library.{set_parser}
use kb_backend.Documents.Requests.{starts_ingestion, status_of}
use kb_backend.Documents.Tenants.Edits.{
  AreOthersKept, set_others, set_status, remove_others, detach_others, update_others, rename_others,
  delete_others, drive_others,
}
use kb_backend.Documents.Tenants.Ingests.{upload_others, reparse_others, bulk_others, attach_others}

-- If no two files have one id, then a request that starts no ingestion, be it of any kind, served or
-- refused, leaves the rows of kb_file of the other tenants as they are.
pub answer-others :
    {F S Block : Type 0} (tools : Tools F Block) (es : Client F S) (env : Env) (sv : Services)
    (p : Principal) (r : Request) (site : Site F S)
    → ((k : ℕ) → count (λ f. f.id == k) site.world.pg.files ≤ 1)
    → starts_ingestion env sv p r site ≡ false
    → others p.tenant_id (answer tools es env sv p r site).world.pg.files
      ≡ others p.tenant_id site.world.pg.files
unfolding answer
answer-others tools es env sv p (drive fid up cfg) site one quiet =
    drive_others env sv p fid up cfg site
answer-others tools es env sv p (upload kb_id fid up cfg ua) site one quiet =
    upload_others tools env es p site sv kb_id fid up cfg ua quiet
answer-others tools es env sv p (remove kb_id doc_id) site one quiet =
    remove_others env p site kb_id doc_id
answer-others tools es env sv p (update kb_id doc_id name) site one quiet =
    update_others env p site kb_id doc_id name
answer-others tools es env sv p (rename fid name cfg) site one quiet =
    rename_others env p site fid name cfg
answer-others tools es env sv p (detach fid kb_id) site one quiet =
    detach_others env p site fid kb_id
answer-others tools es env sv p (delete fid) site one quiet =
    delete_others env es sv.period p fid site (one fid)
answer-others tools es env sv p (reparse kb_id doc_id cfg) site one quiet =
    reparse_others tools env es p site kb_id doc_id cfg quiet
answer-others tools es env sv p (bulk kb_id ids action) site one quiet =
    bulk_others tools env es p site sv kb_id ids action quiet
answer-others tools es env sv p (attach fid kb_id cfg) site one quiet =
    attach_others tools env es p site sv fid kb_id cfg quiet
