-- ===== src/Documents/Again.antt =====
-- A content that is uploaded again.
use mathlib.Core.List.{map-append}
use kb_backend.Ingest.Publish.{ingest_file}
use kb_backend.Es.{Client}
use kb_backend.Ingest.Sources.{Tools}
use kb_backend.Documents.{
  file_with_hash, FileRow, Env, Services, Principal, Site, Upload, logged, ParserConfig, new_file,
  method_of, may_write_kb, within_quota,
}
use kb_backend.Prelude.{
  ℕ, ◌≡◌, refl, inl, inr, true, Option, none, some, List, [], ◌∷◌, ◌++◌, map, arith, if◌then◌else◌,
  Bool-cases, find, String, ap, Option-cases, ◌∙◌,
}
use package.text.Mathlib.Text.{◌==◌ as str_eq}
use kb_backend.Http.{Http, ok, http_error}
use kb_backend.Documents.Uploads.{
  Uploaded, upload_to_drive, ingest_upload, upload_doc, upload_config, is_done,
}
use kb_backend.Documents.Sound.{key, owns, keys, ingest_file-keys}

-- Under which id a content is kept after an upload with this answer: a file whose ingestion fails
-- is kept as well.
unfoldable pub kept_as : ℕ → Http Uploaded → Option ℕ
kept_as fid (ok u) = some u.doc_id
kept_as fid (http_error code detail) = if str_eq detail "ingest failed" then some fid else none

module _ (t h : ℕ) where
  found_key :
      (fs : List FileRow) (f : FileRow)
      → file_with_hash t h fs ≡ some f
      → find (owns t h) (map key fs) ≡ some (f.id, t, h)
  unfolding file_with_hash
  found_key [] f e = absurd (ground arith)
  found_key (g ∷ fs) f e = elim (Bool-cases (owns t h (key g))) [
    | inl k ↦ rw k (ground (arith, e, k))
    | inr k ↦ rw k (found_key fs f (ground (arith, e, k)))
  ]

  key_found :
      (fs : List FileRow) (k : ℕ × ℕ × ℕ)
      → find (owns t h) (map key fs) ≡ some k
      → (f : FileRow) × (file_with_hash t h fs ≡ some f) × (key f ≡ k)
  unfolding file_with_hash
  key_found [] k e = absurd (ground arith)
  key_found (g ∷ fs) k e = elim (Bool-cases (owns t h (key g))) [
    | inl o ↦ (g, rw o refl, ground (arith, e, o))
    | inr o ↦ let (f, found, same) = key_found fs k (ground (arith, e, o)) in (f, rw o found, same)
  ]

  find-append_none :
      (fs : List FileRow) (k : ℕ × ℕ × ℕ)
      → file_with_hash t h fs ≡ none
      → owns t h k ≡ true
      → find (owns t h) (map key fs ++ (k ∷ [])) ≡ some k
  unfolding file_with_hash
  find-append_none [] k e o = rw o refl
  find-append_none (g ∷ fs) k e o = elim (Bool-cases (owns t h (key g))) [
    | inl x ↦ absurd (ground (arith, e, x))
    | inr x ↦ rw x (find-append_none fs k (ground (arith, e, x)) o)
  ]

module _ {F S : Type 0} (env : Env) (sv : Services) (p : Principal) (site : Site F S) where
  -- a content whose key is there is not stored again
  drive_reuses :
      (fid d : ℕ) (up : Upload) (cfg : ParserConfig)
      → find (owns p.tenant_id up.content_hash) (keys site.world.pg)
        ≡ some (d, p.tenant_id, up.content_hash)
      → (status : String) × (upload_to_drive env sv p fid up cfg site
          ≡ (site, ok (record { doc_id = d; status = status; reused = true })))
  unfolding upload_to_drive
  drive_reuses fid d up cfg e =
      let (f, found, same) = key_found p.tenant_id up.content_hash site.world.pg.files _ e in
      let id : f.id ≡ d = ap (λ (k : ℕ × ℕ × ℕ). k.0) same in
      (f.status, rw (found, upload_to_drive, id) refl)

module _ {F S Block : Type 0} (tools : Tools F Block) (env : Env) (es : Client F S) (sv : Services)
    (p : Principal) (kb_id fid : ℕ) (ua : Option String) where
  ingest_upload-kept :
      (site : Site F S) (d : ℕ)
      → kept_as fid (ingest_upload tools env es sv p kb_id fid ua site).1 ≡ some d
      → (fid ≡ d)
        × (keys (ingest_upload tools env es sv p kb_id fid ua site).0.world.pg ≡ keys site.world.pg)
  unfolding ingest_upload logged kept_as
  ingest_upload-kept site d =
      let same = (ingest_file-keys tools env es fid site.world).0 in
      elim (Bool-cases (is_done (ingest_file tools env es fid site.world).1)) [
        | inl e ↦ rw e (λ h. (ground (arith, h), same))
        | inr e ↦ rw e (λ h. (ground (arith, h), same))
      ]

  pub kept_as-ingest_upload :
      (site : Site F S)
      → kept_as fid (ingest_upload tools env es sv p kb_id fid ua site).1 ≡ some fid
  unfolding ingest_upload kept_as
  kept_as-ingest_upload site =
      elim (Bool-cases (is_done (ingest_file tools env es fid site.world).1)) [
        | inl e ↦ rw e refl
        | inr e ↦ rw e refl
      ]

  upload_doc-key :
      (up : Upload) (cfg : ParserConfig) (site : Site F S) (d : ℕ)
      → kept_as fid (upload_doc tools env es sv p kb_id fid up cfg ua site).1 ≡ some d
      → find
          (owns p.tenant_id up.content_hash)
          (keys (upload_doc tools env es sv p kb_id fid up cfg ua site).0.world.pg)
        ≡ some (d, p.tenant_id, up.content_hash)
  unfolding upload_doc logged new_file kept_as
  upload_doc-key up asked site d =
      let pg = site.world.pg in
      let t = p.tenant_id in
      let h = up.content_hash in
      let cfg = upload_config pg.kbs kb_id asked in
      let row = new_file env p fid (sv.storage_key fid) up "parsing" (method_of cfg) cfg in
      elim (Bool-cases (may_write_kb env site p kb_id)) [
        | inr e ↦ rw e (λ k. absurd (ground (arith, k)))
        | inl e ↦ elim (Option-cases (file_with_hash t h pg.files)) [
          | inr (f, k) ↦
              rw (e, k, upload_doc)
                (λ l. found_key t h pg.files f k ∙ ap (λ i. some (i, t, h)) (ground (arith, l)))
          | inl k ↦ elim (Bool-cases (within_quota sv p up.size_bytes site.quotas pg)) [
            | inr l ↦ rw (e, k, l, upload_doc) (λ m. absurd (ground (arith, m)))
            | inl l ↦ elim (Bool-cases (sv.put_object (sv.storage_key fid))) [
              | inr m ↦ rw (e, k, l, m, upload_doc) (λ n. absurd (ground (arith, n)))
              | inl m ↦
                  rw (e, k, l, m, upload_doc)
                    (λ n.
                      let (same, ids) = ingest_upload-kept _ d n in
                      rw (ids, map-append key pg.files (row ∷ []))
                        (find-append_none t h pg.files (fid, t, h) k (ground arith)
                          ∙ ap (λ i. some (i, t, h)) same))
            ]
          ]
        ]
      ]

-- If `upload_doc` answers that a file holds the content, whether it is new or was there, or that the
-- ingestion of the new file failed, then an `upload_to_drive` of this content by the same tenant in
-- the state that this leaves, at any time, by any member and under any limits, answers the id of the
-- file as reused and changes nothing.
pub uploaded_again :
    {F S Block : Type 0} (tools : Tools F Block) (env env' : Env) (es : Client F S)
    (sv sv' : Services) (p p' : Principal) (kb_id fid fid' : ℕ) (up up' : Upload)
    (cfg cfg' : ParserConfig) (ua : Option String) (site : Site F S) (d : ℕ)
    → p'.tenant_id ≡ p.tenant_id
    → up'.content_hash ≡ up.content_hash
    → kept_as fid (upload_doc tools env es sv p kb_id fid up cfg ua site).1 ≡ some d
    → let site' = (upload_doc tools env es sv p kb_id fid up cfg ua site).0 in
      (status : String) × (upload_to_drive env' sv' p' fid' up' cfg' site'
        ≡ (site', ok (record { doc_id = d; status = status; reused = true })))
uploaded_again tools env env' es sv sv' p p' kb_id fid fid' up up' cfg cfg' ua site d t h kept =
    drive_reuses env' sv' p' _ fid' d up' cfg'
      (rw (t, h) (upload_doc-key tools env es sv p kb_id fid ua up cfg site d kept))
