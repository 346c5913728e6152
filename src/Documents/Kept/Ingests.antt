-- ===== src/Documents/Kept/Ingests.antt =====
-- The handlers that start ingestions keep the tables sound.
use package.text.Mathlib.Text.{◌==◌ as str_eq}
use kb_backend.Ingest.Publish.{ingest_file}
use kb_backend.Ingest.Sources.{Tools}
use mathlib.Core.List.{map-append}
use kb_backend.Es.{Client}
use kb_backend.Documents.Uploads.{ingest_upload, is_done, upload_doc, upload_config}
use kb_backend.Db.{ParserConfig, Env, FileRow, World}
use kb_backend.Documents.{
  Site, Principal, logged, may_write_kb, can_manage_file, is_set, new_file, Services, Upload,
  file_with_hash, within_quota, method_of, add_link,
}
use kb_backend.Prelude.{
  some, ℕ, refl, inl, inr, not, List, if◌then◌else◌, Bool-cases, String, Option, ◌==◌, ◌&&◌, any,
  or_else, Option-cases, [], ◌∷◌, contains, find, ◌>>=◌, arith,
}
use kb_backend.Documents.Library.{set_parser, reparse_each, reparse_doc, bulk_docs, attach_file}
use kb_backend.Documents.Sound.{
  IsSound, fewer-IsSound, key, same-IsSound, file_with_hash-none, added-IsSound, ingest_file-keys,
  file_with_hash-some, linked-IsSound, has_id-files,
}
use kb_backend.Documents.Kept.Edits.{IsSiteSound, maybe_set-keys, option_set, option_set-keys}

module _ {F S Block : Type 0} (tools : Tools F Block) (env : Env) (es : Client F S) where
  -- a world whose keys and links an ingestion keeps
  ingest_file-IsSound :
      (fid : ℕ) (w : World F S) → IsSound w.pg → IsSound (ingest_file tools env es fid w).0.pg
  ingest_file-IsSound fid w s =
      let (same, links, _) = ingest_file-keys tools env es fid w in same-IsSound w.pg _ same links s

  reparse_each-IsSound :
      (ids : List ℕ) (w : World F S) → IsSound w.pg → IsSound (reparse_each tools env es ids w).0.pg
  unfolding reparse_each
  reparse_each-IsSound [] w s = s
  reparse_each-IsSound (fid ∷ ids) w s = reparse_each-IsSound ids _ (ingest_file-IsSound fid w s)

  pub reparse_doc-IsSound :
      (p : Principal) (kb_id doc_id : ℕ) (cfg : Option ParserConfig) (site : Site F S)
      → IsSiteSound site
      → IsSiteSound (reparse_doc tools env es p kb_id doc_id cfg site).0
  unfolding reparse_doc logged
  reparse_doc-IsSound p kb_id doc_id cfg site s =
      let pg = site.world.pg in
      let files = option_set doc_id p.tenant_id cfg pg.files in
      let w : World F S = record site.world { pg = record pg { files = files } } in
      let ingested =
        ingest_file-IsSound doc_id w
          (same-IsSound pg w.pg (option_set-keys doc_id p.tenant_id cfg pg.files) refl s) in
      elim (Bool-cases (may_write_kb env site p kb_id)) [
        | inr e ↦ rw e s
        | inl e ↦ elim (Bool-cases (is_done (ingest_file tools env es doc_id w).1)) [
          | inr k ↦ rw (e, k) ingested
          | inl k ↦ rw (e, k) (same-IsSound _ _ refl refl ingested)
        ]
      ]

  pub bulk_docs-IsSound :
      (p : Principal) (kb_id : ℕ) (ids : List ℕ) (action : String) (site : Site F S)
      → IsSiteSound site
      → IsSiteSound (bulk_docs tools env es p kb_id ids action site).0
  unfolding bulk_docs logged
  bulk_docs-IsSound p kb_id ids action site s =
      let pg = site.world.pg in
      elim (Bool-cases (may_write_kb env site p kb_id)) [
        | inr e ↦ rw e s
        | inl e ↦ elim (Bool-cases (str_eq action "delete")) [
          | inl k ↦
              rw (e, k)
                (fewer-IsSound pg _ (λ l. not ((l.kb_id == kb_id) && contains ids l.file_id)) refl
                  refl s)
          | inr k ↦ elim (Bool-cases (str_eq action "reparse")) [
            | inl m ↦
                rw (e, k, m) (same-IsSound _ _ refl refl (reparse_each-IsSound ids site.world s))
            | inr m ↦ rw (e, k, m) (same-IsSound pg _ refl refl s)
          ]
        ]
      ]

  ingest_upload-IsSound :
      (sv : Services) (p : Principal) (kb_id fid : ℕ) (ua : Option String) (site : Site F S)
      → IsSiteSound site
      → IsSiteSound (ingest_upload tools env es sv p kb_id fid ua site).0
  unfolding ingest_upload logged
  ingest_upload-IsSound sv p kb_id fid ua site s =
      let ingested = ingest_file-IsSound fid site.world s in
      elim (Bool-cases (is_done (ingest_file tools env es fid site.world).1)) [
        | inl e ↦ rw e (same-IsSound _ _ refl refl ingested)
        | inr e ↦ rw e (same-IsSound _ _ refl refl ingested)
      ]

  pub upload_doc-IsSound :
      (sv : Services) (p : Principal) (kb_id fid : ℕ) (up : Upload) (cfg : ParserConfig)
      (ua : Option String) (site : Site F S)
      → IsSiteSound site
      → IsSiteSound (upload_doc tools env es sv p kb_id fid up cfg ua site).0
  unfolding upload_doc logged new_file
  upload_doc-IsSound sv p kb_id fid up asked ua site s =
      let pg = site.world.pg in
      let cfg = upload_config pg.kbs kb_id asked in
      let row = new_file env p fid (sv.storage_key fid) up "parsing" (method_of cfg) cfg in
      elim (Bool-cases (may_write_kb env site p kb_id)) [
        | inr e ↦ rw e s
        | inl e ↦ elim (Option-cases (file_with_hash p.tenant_id up.content_hash pg.files)) [
          | inr (f, k) ↦
              let there = file_with_hash-some p.tenant_id up.content_hash pg.files f k in
              rw (e, k, upload_doc) (linked-IsSound pg _ f.id kb_id p.tenant_id there refl refl s)
          | inl k ↦
              let fresh = file_with_hash-none p.tenant_id up.content_hash pg.files k in
              elim (Bool-cases (within_quota sv p up.size_bytes site.quotas pg)) [
                | inr l ↦ rw (e, k, l, upload_doc) (same-IsSound pg _ refl refl s)
                | inl l ↦ elim (Bool-cases (sv.put_object (sv.storage_key fid))) [
                  | inr m ↦ rw (e, k, l, m, upload_doc) s
                  | inl m ↦
                      rw (e, k, l, m, upload_doc)
                        (ingest_upload-IsSound sv p kb_id fid ua _ (
                          added-IsSound pg _ row _ fresh (map-append key pg.files _) refl
                            (ground arith) s))
                ]
              ]
        ]
      ]

  pub attach_file-IsSound :
      (p : Principal) (fid kb_id : ℕ) (cfg : ParserConfig) (site : Site F S)
      → IsSiteSound site
      → IsSiteSound (attach_file tools env es p fid kb_id cfg site).0
  unfolding attach_file logged
  attach_file-IsSound p fid kb_id cfg site s =
      let pg = site.world.pg in
      let linked : World F S = record site.world {
        pg = record pg {
          files = if is_set cfg then set_parser fid p.tenant_id cfg pg.files else pg.files;
          file_kbs = add_link fid kb_id p.tenant_id pg.file_kbs;
        };
      } in
      let status = find (λ (f : FileRow). f.id == fid) linked.pg.files >>= λ f. some f.status in
      elim (Bool-cases (may_write_kb env site p kb_id)) [
        | inr e ↦ rw e s
        | inl e ↦ elim (Bool-cases (can_manage_file env site p fid)) [
          | inr k ↦ rw (e, k) s
          | inl k ↦ elim (Bool-cases (any (λ (f : FileRow). f.id == fid) pg.files)) [
            | inr l ↦ rw (e, k, l) s
            | inl l ↦
                let sound =
                  linked-IsSound pg linked.pg fid kb_id p.tenant_id (has_id-files fid pg.files l)
                    (maybe_set-keys fid p.tenant_id (is_set cfg) cfg pg.files) refl s in
                let ingested = ingest_file-IsSound fid linked sound in
                elim (Bool-cases (str_eq (or_else status "") "uploaded")) [
                  | inr m ↦ rw (e, k, l, m) (same-IsSound _ _ refl refl sound)
                  | inl m ↦ elim (Bool-cases (is_done (ingest_file tools env es fid linked).1)) [
                    | inr n ↦ rw (e, k, l, m, n) ingested
                    | inl n ↦ rw (e, k, l, m, n) (same-IsSound _ _ refl refl ingested)
                  ]
                ]
          ]
        ]
      ]
