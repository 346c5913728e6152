-- ===== src/Documents/Uploads.antt =====
-- The uploads: `upload_doc` of app/routers/docs.py and `upload_to_drive` of app/routers/files.py. The
-- insertions are taken to go through.
use kb_backend.Audit.{Json, num, obj, end, field}
use kb_backend.Quota.{meter_ingest}
use kb_backend.Prelude.Text.{is_text}
use kb_backend.Ingest.Publish.{file_not_found, raised, drain_incomplete, done, ingest_file, Ending}
use kb_backend.Es.{Client}
use kb_backend.Ingest.Sources.{Tools, no_config, set_config}
use kb_backend.Db.{KbRow, ParserConfig, Pg}
use kb_backend.Documents.{
  Site, Services, Upload, logged, add_link, file_with_hash, new_file, within_quota, method_of,
  merged, may_write_kb, Env, Principal, is_set, QuotaRow, Json, get_limits, get_usage,
}
use kb_backend.Http.{Http, ok, http_error}
use kb_backend.Prelude.{
  ℕ, String, Bool, true, false, not, ◌||◌, Option, none, some, List, [], ◌∷◌, ◌++◌, ◌==◌,
  if◌then◌else◌, or_else, find,
}

abbrev pub is_done : {F : Type 0} → Ending F → Bool
is_done (done r) = true
is_done file_not_found = false
is_done raised = false
is_done drain_incomplete = false

-- What an upload answers: the id of the file, its status, and whether it was there already.
pub record Uploaded : Type 0 where
  pub doc_id : ℕ
  pub status : String
  pub reused : Bool

-- `_kb_default_parser_config`
unfoldable pub kb_default_config : List KbRow → ℕ → ParserConfig
kb_default_config kbs kb_id = elim (find (λ k. k.id == kb_id) kbs) [
  | none ↦ no_config
  | some k ↦ or_else (set_config k.parser_config) no_config
]

-- The method and the config of a new document of a base: the config of the base fills in what the
-- request leaves open, if the request names no method.
unfoldable pub upload_config : List KbRow → ℕ → ParserConfig → ParserConfig
unfolding kb_default_config merged
upload_config kbs kb_id pcfg =
    if not (is_set pcfg) || not (is_text (or_else pcfg.method ""))
    then merged (kb_default_config kbs kb_id) pcfg
    else pcfg

-- the information of `check_quota`, which the audit row keeps; the names of the periods are left out
unfoldable pub quota_detail : {F : Type 0} → Services → Principal → ℕ → List QuotaRow → Pg F → Json
quota_detail sv p size_bytes quotas pg =
    let limits = get_limits sv.defaults quotas p.tenant_id in
    let usage = get_usage sv.period sv.month_start pg.files pg.usage p.tenant_id in
    obj (
      field "limits"
        (obj (field "max_docs" (num limits.docs) (field "max_bytes" (num limits.bytes) end)))
        (field "usage"
          (obj (field "doc_count" (num usage.docs) (field "bytes" (num usage.bytes) end)))
          (field "incoming_bytes" (num size_bytes) end)))

-- An exception that no handler catches.
abbrev pub server_error : {A : Type 0} → Http A
server_error = http_error 500 "Internal Server Error"

module _ {F S : Type 0} (env : Env) (sv : Services) where
  -- `upload_to_drive`; `fid` is what uuid4 draws
  unfoldable pub upload_to_drive :
      Principal → ℕ → Upload → ParserConfig → Site F S → Site F S × Http Uploaded
  unfolding file_with_hash new_file within_quota logged
  upload_to_drive p fid up pcfg site =
      let w = site.world in
      let pg = w.pg in
      let key = sv.storage_key fid in
      let with_pg = λ (pg' : Pg F). record site { world = record w { pg = pg' } } in
      elim (file_with_hash p.tenant_id up.content_hash pg.files) [
        | some f ↦ (site, ok (record { doc_id = f.id; status = f.status; reused = true }))
        | none ↦
            if not (within_quota sv p up.size_bytes site.quotas pg)
            then (
              with_pg (logged env p "FILE_UPLOAD" none "quota_exceeded" none none pg),
              http_error 413 "KB_QUOTA_EXCEEDED",
            )
            else if not (sv.put_object key)
            then (site, server_error)
            else (
              with_pg (
                  logged env p "FILE_UPLOAD" none "ok" none none (record pg {
                    files =
                        pg.files
                        ++ (new_file env p fid key up "uploaded" (method_of pcfg) pcfg ∷ []);
                    usage = meter_ingest p.tenant_id sv.period up.size_bytes pg.usage;
                  })),
              ok (record { doc_id = fid; status = "uploaded"; reused = false }),
            )
      ]

module _ {F S Block : Type 0} (tools : Tools F Block) (env : Env) (es : Client F S)
    (sv : Services) where
  -- the ingestion of an upload, with the record of how it ends
  unfoldable pub ingest_upload :
      Principal → ℕ → ℕ → Option String → Site F S → Site F S × Http Uploaded
  unfolding logged
  ingest_upload p kb_id fid ua site =
      let (w, ending) = ingest_file tools env es fid site.world in
      let with_log = λ (result : String) (agent : Option String). record site {
        world = record w { pg = logged env p "UPLOAD" (some (kb_id ∷ [])) result none agent w.pg };
      } in
      if is_done ending
      then (with_log "ok" ua, ok (record { doc_id = fid; status = "ready"; reused = false }))
      else (with_log "fail" none, http_error 500 "ingest failed")

  -- `upload_doc`
  unfoldable pub upload_doc :
      Principal
      → ℕ
      → ℕ
      → Upload
      → ParserConfig
      → Option String
      → Site F S
      → Site F S × Http Uploaded
  unfolding file_with_hash new_file within_quota logged upload_config add_link ingest_upload
      may_write_kb
  upload_doc p kb_id fid up asked ua site =
      let w = site.world in
      let pg = w.pg in
      let key = sv.storage_key fid in
      let pcfg = upload_config pg.kbs kb_id asked in
      let kbs = some (kb_id ∷ []) in
      let with_pg = λ (pg' : Pg F). record site { world = record w { pg = pg' } } in
      if not (may_write_kb env site p kb_id)
      then (site, http_error 403 "KB_FORBIDDEN_KB")
      else elim (file_with_hash p.tenant_id up.content_hash pg.files) [
        | some f ↦ (
          with_pg (
              logged env p "UPLOAD" kbs "reused" none ua
                (record pg { file_kbs = add_link f.id kb_id p.tenant_id pg.file_kbs })),
          ok (record { doc_id = f.id; status = f.status; reused = true }),
        )
        | none ↦
            if not (within_quota sv p up.size_bytes site.quotas pg)
            then (
              with_pg (
                  logged env p "UPLOAD" kbs "quota_exceeded"
                    (some (quota_detail sv p up.size_bytes site.quotas pg)) ua pg),
              http_error 413 "KB_QUOTA_EXCEEDED",
            )
            else if not (sv.put_object key)
            then (site, server_error)
            else ingest_upload p kb_id fid ua (
                with_pg (record pg {
                  files =
                      pg.files ++ (new_file env p fid key up "parsing" (method_of pcfg) pcfg ∷ []);
                  file_kbs =
                      pg.file_kbs
                      ++ (record { file_id = fid; kb_id = kb_id; tenant_id = p.tenant_id } ∷ []);
                  usage = meter_ingest p.tenant_id sv.period up.size_bytes pg.usage;
                }))
      ]
