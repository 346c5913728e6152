-- ===== src/Documents/Views.antt =====
-- The handlers that only read: app/routers/docs.py (get_doc, list_kb_docs, read_anchor, me) and
-- app/routers/files.py (list_files).
use kb_backend.Authz.{is_kb_admin}
use kb_backend.Documents.{Site, can_read_file, FileRow, Env, Principal, resolve, is_tenant_owner}
use kb_backend.Http.{Http, ok, http_error}
use kb_backend.Prelude.{
  ℕ, Bool, not, ◌&&◌, ◌||◌, Option, none, some, List, [], ◌∷◌, map, leb, ◌==◌, if◌then◌else◌,
  opt_eq, length, filter, any, contains, find,
}

-- `ORDER BY created_at DESC`
unfoldable pub newest_insert : FileRow → List FileRow → List FileRow
newest_insert f [] = f ∷ []
newest_insert f (g ∷ gs) =
    if leb g.created_at f.created_at then f ∷ g ∷ gs else g ∷ newest_insert f gs

unfoldable pub newest_first : List FileRow → List FileRow
unfolding newest_insert
newest_first [] = []
newest_first (f ∷ fs) = newest_insert f (newest_first fs)

-- What `/me` tells.
pub record Identity : Type 0 where
  pub tenant_id : ℕ
  pub user_id : ℕ
  pub is_owner : Bool
  pub is_admin : Bool

module _ {F S : Type 0} (env : Env) (site : Site F S) where
  -- The rows that `get_doc` may show: of the tenant, and linked to a base that is allowed; no base has
  -- the id of zeros that stands for an empty list.
  unfoldable pub is_visible_doc : Principal → ℕ → FileRow → Bool
  is_visible_doc p doc_id f =
      let allowed = (resolve env.now site.auth p).allowed_kb_ids in
      ((f.id == doc_id) && (f.tenant_id == p.tenant_id))
      && any (λ l. (l.file_id == f.id) && contains allowed l.kb_id) site.world.pg.file_kbs

  -- `get_doc`
  unfoldable pub get_doc : Principal → ℕ → Http FileRow
  unfolding is_visible_doc
  get_doc p doc_id = elim (find (is_visible_doc p doc_id) site.world.pg.files) [
    | none ↦ http_error 404 "KB_DOC_NOT_FOUND"
    | some f ↦ ok f
  ]

  -- `read_anchor`, with what the orchestrator reads, if there is something
  unfoldable pub read_anchor : {A : Type 0} → (ℕ → Option A) → Principal → ℕ → Http A
  unfolding can_read_file
  read_anchor read p doc_id =
      if not (can_read_file env site p doc_id)
      then http_error 403 "KB_FORBIDDEN_KB"
      else (elim (read doc_id) [ none ↦ http_error 404 "KB_ANCHOR_STALE" | some r ↦ ok r ])

  -- `list_kb_docs`
  unfoldable pub list_kb_docs : Principal → ℕ → Http (List FileRow)
  unfolding newest_first
  list_kb_docs p kb_id =
      let pg = site.world.pg in
      let linked =
        filter
          (λ f.
            (f.tenant_id == p.tenant_id)
            && any (λ l. (l.file_id == f.id) && (l.kb_id == kb_id)) pg.file_kbs)
          pg.files in
      if not (contains (resolve env.now site.auth p).allowed_kb_ids kb_id)
      then http_error 403 "KB_FORBIDDEN_KB"
      else ok (newest_first linked)

  -- `list_files`, with the number of the bases of each file
  unfoldable pub list_files : Principal → List (FileRow × ℕ)
  unfolding newest_first
  list_files p =
      let pg = site.world.pg in
      map (λ f. (f, length (filter (λ l. l.file_id == f.id) pg.file_kbs)))
        (newest_first (
          filter (λ f. (f.tenant_id == p.tenant_id) && opt_eq f.owner_user_id (some p.user_id))
            pg.files))

  -- `me`
  unfoldable pub me : Principal → Identity
  me p =
      let decision = resolve env.now site.auth p in
      let owner = is_tenant_owner site.auth p in
      record {
        tenant_id = p.tenant_id;
        user_id = p.user_id;
        is_owner = owner;
        is_admin = owner || any (is_kb_admin decision) decision.allowed_kb_ids;
      }
