-- ===== src/Documents/Kept.antt =====
-- Each handler keeps the tables sound, and so does any sequence of requests.
mod Edits
mod Ingests
use kb_backend.Documents.Requests.{
  answer, answer_all, Request, Call, drive, upload, remove, update, rename, detach, delete, reparse,
  bulk, attach,
}
use package.text.Mathlib.Text.{◌==◌ as str_eq}
use kb_backend.Ingest.Publish.{ingest_file}
use kb_backend.Ingest.Sources.{Tools}
use mathlib.Core.List.{map-append, append-nil}
use kb_backend.FileStore.Erased.{purge_cases}
use kb_backend.Es.{Client}
use kb_backend.Documents.Uploads.{
  upload_to_drive, ingest_upload, is_done, upload_doc, upload_config,
}
use kb_backend.FileStore.{purge_file, purge_rows, delete_file}
use kb_backend.Prelude.Strip.{strip}
use kb_backend.Prelude.Text.{is_text}
use kb_backend.Db.{ParserConfig, Env, FileRow, World}
use kb_backend.Documents.{
  Site, Principal, logged, may_write_kb, can_manage_file, is_set, new_file, Services, Upload,
  file_with_hash, within_quota, method_of, add_link,
}
use kb_backend.Prelude.{
  none, some, ℕ, ◌≡◌, refl, inl, inr, Bool, true, false, not, List, map, if◌then◌else◌, Bool-cases,
  String, Option, ◌==◌, ◌&&◌, any, or_else, update_where, ◌∙◌, Option-cases, [], sym, ◌∷◌, contains,
  find, ◌>>=◌, arith,
}
use kb_backend.Documents.Library.{
  remove_doc_from_kb, set_parser, is_link, update_doc, rename_file, detach_file, delete_own_file,
  reparse_each, reparse_doc, bulk_docs, attach_file,
}
use kb_backend.Documents.Sound.{
  IsSound, fewer-IsSound, key, keys-update_where, same-IsSound, keys, removed-IsSound,
  file_with_hash-none, added-IsSound, ingest_file-keys, file_with_hash-some, linked-IsSound,
  has_id-files,
}
use kb_backend.Documents.Kept.Edits.{
  IsSiteSound, maybe_set-keys, option_set, option_set-keys, remove_doc_from_kb-IsSound,
  update_doc-IsSound, rename_file-IsSound, detach_file-IsSound, delete_own_file-IsSound,
  upload_to_drive-IsSound,
}
use kb_backend.Documents.Kept.Ingests.{
  reparse_doc-IsSound, bulk_docs-IsSound, upload_doc-IsSound, attach_file-IsSound,
}

module _ {F S Block : Type 0} (tools : Tools F Block) (env : Env) (es : Client F S) where
  answer-IsSound :
      (sv : Services) (p : Principal) (r : Request) (site : Site F S)
      → IsSiteSound site
      → IsSiteSound (answer tools es env sv p r site)
  unfolding answer
  answer-IsSound sv p (drive fid up cfg) site s = upload_to_drive-IsSound env sv p fid up cfg site s
  answer-IsSound sv p (upload kb_id fid up cfg ua) site s =
      upload_doc-IsSound tools env es sv p kb_id fid up cfg ua site s
  answer-IsSound sv p (remove kb_id doc_id) site s =
      remove_doc_from_kb-IsSound env p site s kb_id doc_id
  answer-IsSound sv p (update kb_id doc_id name) site s =
      update_doc-IsSound env p site s kb_id doc_id name
  answer-IsSound sv p (rename fid name cfg) site s = rename_file-IsSound env p site s fid name cfg
  answer-IsSound sv p (detach fid kb_id) site s = detach_file-IsSound env p site s fid kb_id
  answer-IsSound sv p (delete fid) site s = delete_own_file-IsSound env es sv.period p fid site s
  answer-IsSound sv p (reparse kb_id doc_id cfg) site s =
      reparse_doc-IsSound tools env es p kb_id doc_id cfg site s
  answer-IsSound sv p (bulk kb_id ids action) site s =
      bulk_docs-IsSound tools env es p kb_id ids action site s
  answer-IsSound sv p (attach fid kb_id cfg) site s =
      attach_file-IsSound tools env es p fid kb_id cfg site s

-- If no tenant has two files of one content and each link is of a file that is there, then this
-- holds after any sequence of requests of any principals, whether they are served or refused and
-- whether the ingestions they start succeed or fail.
pub answer_all-IsSound :
    {F S Block : Type 0} (tools : Tools F Block) (es : Client F S) (calls : List Call)
    (site : Site F S)
    → IsSound site.world.pg
    → IsSound (answer_all tools es calls site).world.pg
unfolding answer_all
answer_all-IsSound tools es [] site s = s
answer_all-IsSound tools es (c ∷ cs) site s =
    answer_all-IsSound tools es cs _
      (answer-IsSound tools c.env es c.services c.principal c.request site s)
