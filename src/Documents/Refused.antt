-- ===== src/Documents/Refused.antt =====
-- The requests that are refused.
use package.text.Mathlib.Text.{◌==◌ as str_eq}
use kb_backend.Prelude.Strip.{strip}
use kb_backend.Prelude.Text.{is_text}
use kb_backend.Ingest.Publish.{ingest_file}
use kb_backend.FileStore.Erased.{purge_cases}
use kb_backend.Documents.Library.{
  remove_doc_from_kb, detach_file, update_doc, rename_file, delete_own_file, reparse_doc, bulk_docs,
  attach_file, is_link, set_parser,
}
use kb_backend.Documents.Uploads.{upload_to_drive, upload_doc, ingest_upload, is_done}
use kb_backend.Documents.{
  Site, Services, Principal, may_write_kb, can_manage_file, Upload, is_set, file_with_hash,
  within_quota, add_link,
}
use kb_backend.Db.{Env, FileRow, ParserConfig, World}
use kb_backend.Prelude.{
  none, ℕ, ◌≡◌, refl, inl, inr, true, false, arith, ◌==◌, Bool-cases, String, Option, List, ◌&&◌,
  Option-cases, any, or_else, not, some, if◌then◌else◌, find, ◌>>=◌,
}
use kb_backend.Es.{Client}
use kb_backend.Http.{Http}
use kb_backend.Ingest.Sources.{Tools}
use kb_backend.Documents.Requests.{
  is_refusal, refuses, Request, drive, upload, remove, update, rename, detach, delete, reparse,
  bulk, attach, answer,
}

-- a refusal leaves the site
abbrev IsUntouched : {F S A : Type 0} → Site F S → Site F S × Http A → Type 0
IsUntouched site (site', r) = is_refusal r ≡ true → site' ≡ site

served : {A : Type 0} → false ≡ true → A
served h = absurd (ground (arith, h))

module _ {F S : Type 0} (env : Env) (p : Principal) (site : Site F S) where
  remove_refused :
      (kb_id doc_id : ℕ) → IsUntouched site (remove_doc_from_kb env site p kb_id doc_id)
  unfolding remove_doc_from_kb
  remove_refused kb_id doc_id = elim (Bool-cases (may_write_kb env site p kb_id)) [
    | inl e ↦ rw e served
    | inr e ↦ rw e (λ h. refl)
  ]

  detach_refused : (fid kb_id : ℕ) → IsUntouched site (detach_file env site p fid kb_id)
  unfolding detach_file
  detach_refused fid kb_id = elim (Bool-cases (may_write_kb env site p kb_id)) [
    | inr e ↦ rw e (λ h. refl)
    | inl e ↦ elim (Bool-cases (can_manage_file env site p fid)) [
      | inr k ↦ rw (e, k) (λ h. refl)
      | inl k ↦ rw (e, k) served
    ]
  ]

  update_refused :
      (kb_id doc_id : ℕ) (name : String)
      → IsUntouched site (update_doc env site p kb_id doc_id name)
  unfolding update_doc
  update_refused kb_id doc_id name =
      let target = λ (f : FileRow).
        ((f.id == doc_id) && (f.tenant_id == p.tenant_id))
        && any (is_link f.id kb_id) site.world.pg.file_kbs in
      elim (Bool-cases (may_write_kb env site p kb_id)) [
        | inr e ↦ rw e (λ h. refl)
        | inl e ↦ elim (Bool-cases (is_text (strip name))) [
          | inr k ↦ rw (e, k) (λ h. refl)
          | inl k ↦ elim (Bool-cases (any target site.world.pg.files)) [
            | inr m ↦ rw (e, k, m) (λ h. refl)
            | inl m ↦ rw (e, k, m) served
          ]
        ]
      ]

  rename_refused :
      (fid : ℕ) (name : Option String) (cfg : ParserConfig)
      → IsUntouched site (rename_file env site p fid name cfg)
  unfolding rename_file
  rename_refused fid name cfg =
      let mine = λ (f : FileRow). (f.id == fid) && (f.tenant_id == p.tenant_id) in
      let named = is_text (or_else name "") in
      elim (Bool-cases (can_manage_file env site p fid)) [
        | inr e ↦ rw e (λ h. refl)
        | inl e ↦ elim (Bool-cases (not named && not (is_set cfg))) [
          | inl k ↦ rw (e, k) (λ h. refl)
          | inr k ↦ elim (Bool-cases (any mine site.world.pg.files)) [
            | inr m ↦ rw (e, k, m) (λ h. refl)
            | inl m ↦ rw (e, k, m) served
          ]
        ]
      ]

  delete_refused :
      (es : Client F S) (period fid : ℕ)
      → IsUntouched site (delete_own_file env es period p fid site)
  unfolding delete_own_file
  delete_refused es period fid = elim (Bool-cases (can_manage_file env site p fid)) [
    | inr e ↦ rw e (λ h. refl)
    | inl e ↦ elim (purge_cases period p.tenant_id fid env es site.world) [
      | inl same ↦ rw (e, same) (λ h. refl)
      | inr (size, _, same) ↦ rw (e, same) served
    ]
  ]

  drive_refused :
      (sv : Services) (fid : ℕ) (up : Upload) (cfg : ParserConfig)
      → IsUntouched site (upload_to_drive env sv p fid up cfg site)
  unfolding upload_to_drive
  drive_refused sv fid up cfg =
      let pg = site.world.pg in
      elim (Option-cases (file_with_hash p.tenant_id up.content_hash pg.files)) [
        | inr (f, e) ↦ rw (e, upload_to_drive) served
        | inl e ↦ elim (Bool-cases (within_quota sv p up.size_bytes site.quotas pg)) [
          | inr k ↦ rw (e, k, upload_to_drive) served
          | inl k ↦ elim (Bool-cases (sv.put_object (sv.storage_key fid))) [
            | inr m ↦ rw (e, k, m, upload_to_drive) served
            | inl m ↦ rw (e, k, m, upload_to_drive) served
          ]
        ]
      ]

module _ {F S Block : Type 0} (tools : Tools F Block) (env : Env) (es : Client F S) (p : Principal)
    (site : Site F S) where
  ingest_refused :
      (sv : Services) (kb_id fid : ℕ) (ua : Option String) (site' : Site F S)
      → is_refusal (ingest_upload tools env es sv p kb_id fid ua site').1 ≡ false
  unfolding ingest_upload
  ingest_refused sv kb_id fid ua site' =
      elim (Bool-cases (is_done (ingest_file tools env es fid site'.world).1)) [
        | inl e ↦ rw e refl
        | inr e ↦ rw e refl
      ]

  upload_refused :
      (sv : Services) (kb_id fid : ℕ) (up : Upload) (cfg : ParserConfig) (ua : Option String)
      → IsUntouched site (upload_doc tools env es sv p kb_id fid up cfg ua site)
  unfolding upload_doc
  upload_refused sv kb_id fid up cfg ua =
      let pg = site.world.pg in
      elim (Bool-cases (may_write_kb env site p kb_id)) [
        | inr e ↦ rw e (λ h. refl)
        | inl e ↦ elim (Option-cases (file_with_hash p.tenant_id up.content_hash pg.files)) [
          | inr (f, k) ↦ rw (e, k, upload_doc) served
          | inl k ↦ elim (Bool-cases (within_quota sv p up.size_bytes site.quotas pg)) [
            | inr l ↦ rw (e, k, l, upload_doc) served
            | inl l ↦ elim (Bool-cases (sv.put_object (sv.storage_key fid))) [
              | inr m ↦ rw (e, k, l, m, upload_doc) served
              | inl m ↦ rw (e, k, l, m, upload_doc, ingest_refused sv kb_id fid ua _) served
            ]
          ]
        ]
      ]

  reparse_refused :
      (kb_id doc_id : ℕ) (cfg : Option ParserConfig)
      → IsUntouched site (reparse_doc tools env es p kb_id doc_id cfg site)
  unfolding reparse_doc
  reparse_refused kb_id doc_id cfg =
      let pg = site.world.pg in
      let w : World F S = record site.world {
        pg = record pg {
          files = elim cfg [
            | none ↦ pg.files
            | some c ↦ if is_set c then set_parser doc_id p.tenant_id c pg.files else pg.files
          ];
        };
      } in
      elim (Bool-cases (may_write_kb env site p kb_id)) [
        | inr e ↦ rw e (λ h. refl)
        | inl e ↦ elim (Bool-cases (is_done (ingest_file tools env es doc_id w).1)) [
          | inr k ↦ rw (e, k) served
          | inl k ↦ rw (e, k) served
        ]
      ]

  bulk_refused :
      (kb_id : ℕ) (ids : List ℕ) (action : String)
      → IsUntouched site (bulk_docs tools env es p kb_id ids action site)
  unfolding bulk_docs
  bulk_refused kb_id ids action = elim (Bool-cases (may_write_kb env site p kb_id)) [
    | inr e ↦ rw e (λ h. refl)
    | inl e ↦ elim (Bool-cases (str_eq action "delete")) [
      | inl k ↦ rw (e, k) served
      | inr k ↦ elim (Bool-cases (str_eq action "reparse")) [
        | inl m ↦ rw (e, k, m) served
        | inr m ↦ rw (e, k, m) served
      ]
    ]
  ]

  attach_refused :
      (fid kb_id : ℕ) (cfg : ParserConfig)
      → IsUntouched site (attach_file tools env es p fid kb_id cfg site)
  unfolding attach_file
  attach_refused fid kb_id cfg =
      let pg = site.world.pg in
      let linked : World F S = record site.world {
        pg = record pg {
          files = if is_set cfg then set_parser fid p.tenant_id cfg pg.files else pg.files;
          file_kbs = add_link fid kb_id p.tenant_id pg.file_kbs;
        };
      } in
      let status = find (λ (f : FileRow). f.id == fid) linked.pg.files >>= λ f. some f.status in
      elim (Bool-cases (may_write_kb env site p kb_id)) [
        | inr e ↦ rw e (λ h. refl)
        | inl e ↦ elim (Bool-cases (can_manage_file env site p fid)) [
          | inr k ↦ rw (e, k) (λ h. refl)
          | inl k ↦ elim (Bool-cases (any (λ (f : FileRow). f.id == fid) pg.files)) [
            | inr l ↦ rw (e, k, l) served
            | inl l ↦ elim (Bool-cases (str_eq (or_else status "") "uploaded")) [
              | inr m ↦ rw (e, k, l, m) served
              | inl m ↦ elim (Bool-cases (is_done (ingest_file tools env es fid linked).1)) [
                | inr n ↦ rw (e, k, l, m, n) served
                | inl n ↦ rw (e, k, l, m, n) served
              ]
            ]
          ]
        ]
      ]

-- A request that its handler refuses with 400, 403 or 404 changes nothing: no table, no audit row and
-- nothing in the index.
pub answer-refuses :
    {F S Block : Type 0} (tools : Tools F Block) (es : Client F S) (env : Env) (sv : Services)
    (p : Principal) (r : Request) (site : Site F S)
    → refuses tools es env sv p r site ≡ true
    → answer tools es env sv p r site ≡ site
unfolding answer refuses
answer-refuses tools es env sv p (drive fid up cfg) site h =
    drive_refused env p site sv fid up cfg h
answer-refuses tools es env sv p (upload kb_id fid up cfg ua) site h =
    upload_refused tools env es p site sv kb_id fid up cfg ua h
answer-refuses tools es env sv p (remove kb_id doc_id) site h =
    remove_refused env p site kb_id doc_id h
answer-refuses tools es env sv p (update kb_id doc_id name) site h =
    update_refused env p site kb_id doc_id name h
answer-refuses tools es env sv p (rename fid name cfg) site h =
    rename_refused env p site fid name cfg h
answer-refuses tools es env sv p (detach fid kb_id) site h = detach_refused env p site fid kb_id h
answer-refuses tools es env sv p (delete fid) site h = delete_refused env p site es sv.period fid h
answer-refuses tools es env sv p (reparse kb_id doc_id cfg) site h =
    reparse_refused tools env es p site kb_id doc_id cfg h
answer-refuses tools es env sv p (bulk kb_id ids action) site h =
    bulk_refused tools env es p site kb_id ids action h
answer-refuses tools es env sv p (attach fid kb_id cfg) site h =
    attach_refused tools env es p site fid kb_id cfg h
