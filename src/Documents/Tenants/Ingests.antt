-- ===== src/Documents/Tenants/Ingests.antt =====
-- The handlers that may start ingestions, where they start none.
use package.text.Mathlib.Text.{◌==◌ as str_eq}
use kb_backend.Documents.Uploads.{upload_doc}
use kb_backend.Documents.Library.{reparse_doc, reparse_each, bulk_docs, attach_file}
use kb_backend.Prelude.{[], ◌∷◌}
use kb_backend.Documents.{may_write_kb, within_quota, file_with_hash, can_manage_file}
use kb_backend.Documents.Tenants.Rows.{others}
use kb_backend.Ingest.Sources.{Tools}
use kb_backend.Es.{Client}
use kb_backend.Documents.{
  Site, logged, may_write_kb, can_manage_file, is_set, Services, Upload, file_with_hash,
  within_quota,
}
use kb_backend.Authz.{Principal}
use kb_backend.Documents.Requests.{upload, bulk, attach}
use kb_backend.Db.{FileRow, Env, ParserConfig}
use kb_backend.Prelude.{
  ℕ, String, ◌≡◌, refl, inl, inr, false, Option, List, [], ◌∷◌, arith, ◌==◌, if◌then◌else◌,
  Bool-cases, or_else, any, Option-cases, if-cases,
}
use kb_backend.Documents.Library.{set_parser}
use kb_backend.Documents.Requests.{starts_ingestion, status_of}
use kb_backend.Documents.Tenants.Edits.{AreOthersKept, set_others, set_status}

module _ {F S Block : Type 0} (tools : Tools F Block) (env : Env) (es : Client F S) (p : Principal)
    (site : Site F S) where
  pub upload_others :
      (sv : Services) (kb_id fid : ℕ) (up : Upload) (cfg : ParserConfig) (ua : Option String)
      → starts_ingestion env sv p (upload kb_id fid up cfg ua) site ≡ false
      → AreOthersKept p site (upload_doc tools env es sv p kb_id fid up cfg ua site).0
  unfolding upload_doc logged
  upload_others sv kb_id fid up cfg ua quiet =
      let pg = site.world.pg in
      elim (Bool-cases (may_write_kb env site p kb_id)) [
        | inr e ↦ rw e refl
        | inl e ↦ elim (Option-cases (file_with_hash p.tenant_id up.content_hash pg.files)) [
          | inr (f, k) ↦ rw (e, k, upload_doc) refl
          | inl k ↦ elim (Bool-cases (within_quota sv p up.size_bytes site.quotas pg)) [
            | inr l ↦ rw (e, k, l, upload_doc) refl
            | inl l ↦ elim (Bool-cases (sv.put_object (sv.storage_key fid))) [
              | inr m ↦ rw (e, k, l, m, upload_doc) refl
              | inl m ↦ absurd (ground (arith, rw (e, k, l, m) at quiet))
            ]
          ]
        ]
      ]

  pub reparse_others :
      (kb_id doc_id : ℕ) (cfg : Option ParserConfig)
      → may_write_kb env site p kb_id ≡ false
      → AreOthersKept p site (reparse_doc tools env es p kb_id doc_id cfg site).0
  unfolding reparse_doc
  reparse_others kb_id doc_id cfg e = rw e refl

  pub bulk_others :
      (sv : Services) (kb_id : ℕ) (ids : List ℕ) (action : String)
      → starts_ingestion env sv p (bulk kb_id ids action) site ≡ false
      → AreOthersKept p site (bulk_docs tools env es p kb_id ids action site).0
  unfolding bulk_docs reparse_each logged
  bulk_others sv kb_id [] action quiet = elim (Bool-cases (may_write_kb env site p kb_id)) [
    | inr e ↦ rw e refl
    | inl e ↦ elim (Bool-cases (str_eq action "delete")) [
      | inl k ↦ rw (e, k) refl
      | inr k ↦ elim (Bool-cases (str_eq action "reparse")) [
        | inl m ↦ rw (e, k, m) refl
        | inr m ↦ rw (e, k, m) refl
      ]
    ]
  ]
  bulk_others sv kb_id (d ∷ ds) action quiet = elim (Bool-cases (may_write_kb env site p kb_id)) [
    | inr e ↦ rw e refl
    | inl e ↦ elim (Bool-cases (str_eq action "delete")) [
      | inl k ↦ rw (e, k) refl
      | inr k ↦ elim (Bool-cases (str_eq action "reparse")) [
        | inl m ↦ absurd (ground (arith, rw (e, m) at quiet))
        | inr m ↦ rw (e, k, m) refl
      ]
    ]
  ]

  pub attach_others :
      (sv : Services) (fid kb_id : ℕ) (cfg : ParserConfig)
      → starts_ingestion env sv p (attach fid kb_id cfg) site ≡ false
      → AreOthersKept p site (attach_file tools env es p fid kb_id cfg site).0
  unfolding attach_file logged
  attach_others sv fid kb_id cfg quiet =
      let pg = site.world.pg in
      let t = p.tenant_id in
      let files = if is_set cfg then set_parser fid t cfg pg.files else pg.files in
      let kept : others t files ≡ others t pg.files =
        if-cases (λ fs. others t fs ≡ others t pg.files) (is_set cfg)
          (set_others t fid cfg pg.files) refl in
      let same : status_of fid files ≡ status_of fid pg.files =
        if-cases (λ fs. status_of fid fs ≡ status_of fid pg.files) (is_set cfg)
          (set_status t fid cfg pg.files) refl in
      elim (Bool-cases (may_write_kb env site p kb_id)) [
        | inr e ↦ rw e refl
        | inl e ↦ elim (Bool-cases (can_manage_file env site p fid)) [
          | inr k ↦ rw (e, k) refl
          | inl k ↦ elim (Bool-cases (any (λ (f : FileRow). f.id == fid) pg.files)) [
            | inr l ↦ rw (e, k, l) refl
            | inl l ↦ elim (Bool-cases (str_eq (or_else (status_of fid pg.files) "") "uploaded")) [
              | inl m ↦ absurd (ground (arith, rw (e, k, m) at quiet))
              | inr m ↦ rw (e, k, l, same, m) kept
            ]
          ]
        ]
      ]
