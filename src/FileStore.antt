-- ===== src/FileStore.antt =====
-- app/indexing/file_store.py: the removal of a whole file. The object in MinIO, whose removal may
-- fail without effect, and the tables that only name the file's bases and costs are left out.
pub mod Erased
use kb_backend.Prelude.{
  ℕ, ◌+◌, Bool, true, false, not, Option, none, some, List, ◌++◌, map, ◌==◌, if◌then◌else◌, filter,
  find, contains,
}
use kb_backend.Relay.{drain}
use kb_backend.Es.{Client}
use kb_backend.Db.{Pg, World, Env}
use kb_backend.Gc.{delete_events}
use kb_backend.Quota.{meter_delete}

-- the ids in the index: of the chunks, then of the summaries, of all versions
unfoldable pub es_ids : {F : Type 0} → Pg F → ℕ → List ℕ
es_ids pg fid =
    map (λ c. c.id) (filter (λ c. c.file_id == fid) pg.chunks)
    ++ map (λ s. s.id) (filter (λ s. s.file_id == fid) pg.summaries)

-- `DELETE FROM kb_file` with its cascade; an anchor goes with its summary
unfoldable pub delete_file : {F : Type 0} → Pg F → ℕ → Pg F
delete_file pg fid =
    let gone = map (λ s. s.id) (filter (λ s. s.file_id == fid) pg.summaries) in
    record pg {
      files = filter (λ f. not (f.id == fid)) pg.files;
      chunks = filter (λ c. not (c.file_id == fid)) pg.chunks;
      summaries = filter (λ s. not (s.file_id == fid)) pg.summaries;
      anchors = filter (λ a. not (contains gone a.summary_doc_id)) pg.anchors;
      versions = filter (λ v. not (v.file_id == fid)) pg.versions;
      file_kbs = filter (λ l. not (l.file_id == fid)) pg.file_kbs;
    }

-- the transaction of `purge_file` for a file that was found
unfoldable pub purge_rows : {F : Type 0} → ℕ → ℕ → ℕ → Option ℕ → Pg F → Pg F
unfolding es_ids delete_file
purge_rows period tenant_id fid size_bytes pg =
    let events = delete_events fid "file_delete" (es_ids pg fid) in
    delete_file
      (record pg {
        outbox = pg.outbox ++ events;
        usage = meter_delete tenant_id period size_bytes pg.usage;
      })
      fid

-- `purge_file`; the answer is `false` with KB_FILE_NOT_FOUND
unfoldable pub purge_file :
    {F S : Type 0} → Env → Client F S → ℕ → ℕ → ℕ → World F S → World F S × Bool
unfolding purge_rows
purge_file env es period tenant_id fid w = elim (find (λ f. f.id == fid) w.pg.files) [
  | none ↦ (w, false)
  | some f ↦
      let pg = purge_rows period tenant_id fid f.size_bytes w.pg in
      let (outbox, es', _) = drain es env.max_attempts env.now (some fid) pg.outbox w.es in
      if not (f.tenant_id == tenant_id)
      then (w, false)
      else (record { pg = record pg { outbox = outbox }; es = es' }, true)
]
