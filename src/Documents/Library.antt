-- ===== src/Documents/Library.antt =====
-- The handlers of documents and of files, beside the uploads: app/routers/docs.py and
-- app/routers/files.py.
use kb_backend.Documents.Uploads.{server_error, is_done}
use kb_backend.Prelude.Strip.{strip}
use kb_backend.Prelude.Text.{is_text}
use kb_backend.FileStore.{purge_file}
use kb_backend.Es.{Client}
use kb_backend.Ingest.Sources.{Tools}
use kb_backend.Documents.{
  Site, logged, add_link, method_of, can_manage_file, may_write_kb, FileKb, ParserConfig, Env,
  FileRow, Pg, Principal, is_set, World,
}
use package.text.Mathlib.Text.{◌==◌ as str_eq}
use kb_backend.Http.{Http, ok, http_error}
use kb_backend.Audit.{Json, num, text, obj, end, field}
use kb_backend.Ingest.Publish.{ingest_file}
use kb_backend.Prelude.{
  ℕ, String, Bool, not, ◌&&◌, Option, none, some, List, [], ◌∷◌, ◌==◌, if◌then◌else◌, or_else,
  length, filter, any, contains, find, update_where, ◌>>=◌,
}

-- the answer `{"ok": True}`
abbrev pub done_ok : Http (Unit {0})
done_ok = ok tt

abbrev pub forbidden_kb : {A : Type 0} → Http A
forbidden_kb = http_error 403 "KB_FORBIDDEN_KB"

abbrev pub forbidden_file : {A : Type 0} → Http A
forbidden_file = http_error 403 "KB_FORBIDDEN_FILE"

-- `DELETE FROM kb_file_kb WHERE file_id=… AND kb_id=…`
abbrev pub is_link : ℕ → ℕ → FileKb → Bool
is_link fid kb_id l = (l.file_id == fid) && (l.kb_id == kb_id)

-- `UPDATE kb_file SET parser_config=…, parser_type=… WHERE id=… AND tenant_id=…`
unfoldable pub set_parser : ℕ → ℕ → ParserConfig → List FileRow → List FileRow
set_parser fid tenant_id pcfg =
    update_where (λ f. (f.id == fid) && (f.tenant_id == tenant_id))
      (λ f. record f { parser_config = some pcfg; parser_type = some (method_of pcfg) })

module _ {F S : Type 0} (env : Env) (site : Site F S) where
  -- the site with these tables
  abbrev pub with_pg : Pg F → Site F S
  with_pg pg = record site { world = record site.world { pg = pg } }

  abbrev pub doc_detail : ℕ → Option Json
  doc_detail doc_id = some (obj (field "doc_id" (num doc_id) end))

  abbrev pub file_detail : ℕ → Option Json
  file_detail fid = some (obj (field "file_id" (num fid) end))

  -- `remove_doc_from_kb`
  unfoldable pub remove_doc_from_kb : Principal → ℕ → ℕ → Site F S × Http ℕ
  unfolding may_write_kb logged
  remove_doc_from_kb p kb_id doc_id =
      let pg = site.world.pg in
      let removed = length (filter (is_link doc_id kb_id) pg.file_kbs) in
      let result = if removed == 0 then "noop" else "ok" in
      if not (may_write_kb env site p kb_id) then (site, forbidden_kb) else (
        with_pg (
            logged env p "DOC_REMOVE" (some (kb_id ∷ [])) result (doc_detail doc_id) none
              (record pg { file_kbs = filter (λ l. not (is_link doc_id kb_id l)) pg.file_kbs })),
        ok removed,
      )

  -- `update_doc`; the name is stripped
  unfoldable pub update_doc : Principal → ℕ → ℕ → String → Site F S × Http (Unit {0})
  unfolding may_write_kb
  update_doc p kb_id doc_id name =
      let pg = site.world.pg in
      let target = λ (f : FileRow).
        ((f.id == doc_id) && (f.tenant_id == p.tenant_id))
        && any (is_link f.id kb_id) pg.file_kbs in
      if not (may_write_kb env site p kb_id)
      then (site, forbidden_kb)
      else if not (is_text (strip name))
      then (site, http_error 400 "KB_VALIDATION")
      else if not (any target pg.files)
      then (site, http_error 404 "KB_DOC_NOT_FOUND")
      else (
        with_pg (record pg {
          files = update_where target (λ f. record f { name = strip name }) pg.files;
        }),
        done_ok,
      )

  -- `rename_file`: what the body sets
  unfoldable pub rename_file :
      Principal → ℕ → Option String → ParserConfig → Site F S × Http (Unit {0})
  unfolding can_manage_file set_parser
  rename_file p fid name pcfg =
      let pg = site.world.pg in
      let mine = λ (f : FileRow). (f.id == fid) && (f.tenant_id == p.tenant_id) in
      let named = is_text (or_else name "") in
      let files =
        if named
        then update_where mine (λ f. record f { name = or_else name "" }) pg.files
        else pg.files in
      if not (can_manage_file env site p fid)
      then (site, forbidden_file)
      else if not named && not (is_set pcfg)
      then (site, http_error 400 "KB_VALIDATION")
      else if not (any mine pg.files)
      then (site, http_error 404 "KB_FILE_NOT_FOUND")
      else (
        with_pg (record pg {
          files = if is_set pcfg then set_parser fid p.tenant_id pcfg files else files;
        }),
        done_ok,
      )

  -- `detach_file`
  unfoldable pub detach_file : Principal → ℕ → ℕ → Site F S × Http (Unit {0})
  unfolding may_write_kb can_manage_file logged
  detach_file p fid kb_id =
      let pg = site.world.pg in
      if not (may_write_kb env site p kb_id)
      then (site, forbidden_kb)
      else if not (can_manage_file env site p fid)
      then (site, forbidden_file)
      else (
        with_pg (
            logged env p "FILE_DETACH" (some (kb_id ∷ [])) "ok" (file_detail fid) none (record pg {
              file_kbs =
                  filter (λ l. not (is_link fid kb_id l && (l.tenant_id == p.tenant_id)))
                    pg.file_kbs;
            })),
        done_ok,
      )

module _ {F S : Type 0} (env : Env) (es : Client F S) (period : ℕ) where
  -- `delete_file`
  unfoldable pub delete_own_file : Principal → ℕ → Site F S → Site F S × Http (Unit {0})
  unfolding can_manage_file logged
  delete_own_file p fid site =
      let (w, deleted) = purge_file env es period p.tenant_id fid site.world in
      if not (can_manage_file env site p fid)
      then (site, forbidden_file)
      else if not deleted
      then (record site { world = w }, http_error 404 "KB_FILE_NOT_FOUND")
      else (
        record site {
          world = record w {
            pg = logged env p "FILE_DELETE" none "ok" (file_detail env site fid) none w.pg;
          };
        },
        done_ok,
      )

module _ {F S Block : Type 0} (tools : Tools F Block) (env : Env) (es : Client F S) where
  -- `reparse_doc`
  unfoldable pub reparse_doc :
      Principal → ℕ → ℕ → Option ParserConfig → Site F S → Site F S × Http (Unit {0})
  unfolding may_write_kb set_parser logged
  reparse_doc p kb_id doc_id pcfg site =
      let pg = site.world.pg in
      let files : List FileRow = elim pcfg [
        | none ↦ pg.files
        | some cfg ↦ if is_set cfg then set_parser doc_id p.tenant_id cfg pg.files else pg.files
      ] in
      let (w, ending) =
        ingest_file tools env es doc_id (record site.world { pg = record pg { files = files } }) in
      if not (may_write_kb env site p kb_id)
      then (site, forbidden_kb)
      else if not (is_done ending)
      then (record site { world = w }, http_error 500 "reparse failed")
      else (
        record site {
          world = record w {
            pg =
                logged env p "DOC_REPARSE" (some (kb_id ∷ [])) "ok" (doc_detail env site doc_id)
                  none w.pg;
          };
        },
        done_ok,
      )

  -- the loop of `bulk_docs` where the action is to reparse: which ids came to an end
  unfoldable pub reparse_each : List ℕ → World F S → World F S × List ℕ
  reparse_each [] w = (w, [])
  reparse_each (doc_id ∷ ids) w =
      let (w', ending) = ingest_file tools env es doc_id w in
      let (w'', finished) = reparse_each ids w' in
      (w'', if is_done ending then doc_id ∷ finished else finished)

  -- `bulk_docs`
  unfoldable pub bulk_docs : Principal → ℕ → List ℕ → String → Site F S → Site F S × Http (List ℕ)
  unfolding may_write_kb reparse_each logged
  bulk_docs p kb_id ids action site =
      let pg = site.world.pg in
      let logs = λ (w : World F S) (finished : List ℕ). record site {
        world = record w {
          pg =
              logged env p "DOC_BULK" (some (kb_id ∷ [])) "ok"
                (some
                  (obj (field "action" (text action) (field "count" (num (length finished)) end))))
                none w.pg;
        };
      } in
      let (w, finished) = reparse_each ids site.world in
      if not (may_write_kb env site p kb_id)
      then (site, forbidden_kb)
      else if str_eq action "delete"
      then (
        logs
            (record site.world {
              pg = record pg {
                file_kbs =
                    filter (λ l. not ((l.kb_id == kb_id) && contains ids l.file_id)) pg.file_kbs;
              };
            })
            ids,
        ok ids,
      )
      else if str_eq action "reparse"
      then (logs w finished, ok finished)
      else (logs site.world [], ok [])

  -- `attach_file`: the status that it answers. A link to a file that is not there violates a foreign
  -- key, and an ingestion that fails raises.
  unfoldable pub attach_file :
      Principal → ℕ → ℕ → ParserConfig → Site F S → Site F S × Http (Option String)
  unfolding may_write_kb can_manage_file set_parser add_link logged
  attach_file p fid kb_id pcfg site =
      let pg = site.world.pg in
      let linked = record site.world {
        pg = record pg {
          files = if is_set pcfg then set_parser fid p.tenant_id pcfg pg.files else pg.files;
          file_kbs = add_link fid kb_id p.tenant_id pg.file_kbs;
        };
      } in
      let status = find (λ f. f.id == fid) linked.pg.files >>= λ f. some f.status in
      let (w, ending) = ingest_file tools env es fid linked in
      let logs = λ (w' : World F S). record site {
        world = record w' {
          pg =
              logged env p "FILE_ATTACH" (some (kb_id ∷ [])) "ok" (file_detail env site fid) none
                w'.pg;
        };
      } in
      if not (may_write_kb env site p kb_id)
      then (site, forbidden_kb)
      else if not (can_manage_file env site p fid)
      then (site, forbidden_file)
      else if not (any (λ f. f.id == fid) pg.files)
      then (site, server_error)
      else if not (str_eq (or_else status "") "uploaded")
      then (logs linked, ok status)
      else if not (is_done ending)
      then (record site { world = w }, server_error)
      else (logs w, ok (some "ready"))
