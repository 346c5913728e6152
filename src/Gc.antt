-- ===== src/Gc.antt =====
-- app/indexing/gc.py: the removal of superseded versions, and the pruning of the outbox.
pub mod Batches
pub mod Keeps
pub mod Index
use kb_backend.Prelude.{
  ℕ, zero, suc, ◌+◌, ◌-◌, String, Bool, false, not, ◌&&◌, Option, none, some, List, [], ◌∷◌, ◌++◌,
  map, ltb, leb, ◌==◌, if◌then◌else◌, opt_eq, length, take, drop, filter, contains,
}
use kb_backend.Relay.{Outbox, OutboxRow, emit, delete, drain, pending_count}
use kb_backend.Es.{Client}
use kb_backend.Audit.{Json, num, flag, obj, end, field}
use kb_backend.Db.{
  FileRow, ChunkRow, SummaryRow, AnchorRow, VersionRow, Pg, World, Env, audited, file_of,
  resolve_files,
}

abbrev pub delete_batch : ℕ
delete_batch = 500

-- `_lockstep_ok`: the version that all four pointers have
unfoldable pub lockstep : FileRow → Option ℕ
lockstep f = elim f.active_doc_version [
  | none ↦ none
  | some a ↦
      if opt_eq f.active_chunk_version (some a)
        && opt_eq f.active_summary_version (some a)
        && opt_eq f.active_anchor_version (some a)
      then some a
      else none
]

-- `for i in range(0, len(xs), n): xs[i : i + n]`, with the length of the list as fuel
unfoldable pub batches_from : ℕ → ℕ → List ℕ → List (List ℕ)
batches_from zero n xs = []
batches_from (suc fuel) n [] = []
batches_from (suc fuel) n (x ∷ xs) = take n (x ∷ xs) ∷ batches_from fuel n (drop n (x ∷ xs))

unfoldable pub batches : ℕ → List ℕ → List (List ℕ)
unfolding batches_from
batches n xs = batches_from (length xs) n xs

-- The WHERE clauses of the four deletions; kb_anchor and kb_version have no tenant.
abbrev pub old_anchor : ℕ → ℕ → AnchorRow → Bool
old_anchor fid threshold a = (a.file_id == fid) && ltb a.anchor_version threshold

abbrev pub old_summary : {F : Type 0} → ℕ → ℕ → ℕ → SummaryRow F → Bool
old_summary fid tenant_id threshold s =
    (s.file_id == fid) && (s.tenant_id == tenant_id) && ltb s.summary_version threshold

abbrev pub old_chunk : ℕ → ℕ → ℕ → ChunkRow → Bool
old_chunk fid tenant_id threshold c =
    (c.file_id == fid) && (c.tenant_id == tenant_id) && ltb c.chunk_version threshold

abbrev pub old_version : ℕ → ℕ → VersionRow → Bool
old_version fid threshold v = (v.file_id == fid) && ltb v.doc_version threshold

pub record Counts : Type 0 where
  pub chunks : ℕ
  pub summaries : ℕ
  pub anchors : ℕ
  pub versions : ℕ

pub record Deleted : Type 0 where
  pub counts : Counts
  pub chunk_ids : List ℕ
  pub summary_ids : List ℕ

module _ {F : Type 0} where
  -- `_count_purgeable`
  unfoldable pub count_purgeable : Pg F → ℕ → ℕ → ℕ → Counts
  count_purgeable pg fid tenant_id threshold = record {
    chunks = length (filter (old_chunk fid tenant_id threshold) pg.chunks);
    summaries = length (filter (old_summary fid tenant_id threshold) pg.summaries);
    anchors = length (filter (old_anchor fid threshold) pg.anchors);
    versions = length (filter (old_version fid threshold) pg.versions);
  }

  -- `_delete_purgeable`, with the row counts and returned ids of its statements: anchors, then
  -- summaries (whose deletion cascades to the anchors that name them), then chunks, then versions
  unfoldable pub delete_purgeable : ℕ → ℕ → ℕ → Pg F → Pg F × Deleted
  delete_purgeable fid tenant_id threshold pg =
      let summary_ids =
        map (λ s. s.id) (filter (old_summary fid tenant_id threshold) pg.summaries) in
      let chunk_ids = map (λ c. c.id) (filter (old_chunk fid tenant_id threshold) pg.chunks) in
      let kept = filter (λ a. not (old_anchor fid threshold a)) pg.anchors in
      let versions = filter (λ v. not (old_version fid threshold v)) pg.versions in
      (
        record pg {
          anchors = filter (λ a. not (contains summary_ids a.summary_doc_id)) kept;
          summaries = filter (λ s. not (old_summary fid tenant_id threshold s)) pg.summaries;
          chunks = filter (λ c. not (old_chunk fid tenant_id threshold c)) pg.chunks;
          versions = versions;
        },
        record {
          counts = record {
            chunks = length chunk_ids;
            summaries = length summary_ids;
            anchors = length pg.anchors - length kept;
            versions = length pg.versions - length versions;
          };
          chunk_ids = chunk_ids;
          summary_ids = summary_ids;
        },
      )

  -- The delete events of one file, at most `delete_batch` ids in each.
  unfoldable pub delete_events : ℕ → String → List ℕ → Outbox F
  unfolding batches emit
  delete_events fid reason ids = map (λ b. emit fid (delete b reason)) (batches delete_batch ids)

-- Why a file was passed over, or what was removed.
pub data Outcome : Type 0 where
  lock_busy outbox_pending desync_or_missing up_to_date : Outcome
  purged : Counts → ℕ → Outcome

-- The version to purge below, if there is one: `threshold <= 1` means that there is nothing to do.
unfoldable pub threshold_of : ℕ → ℕ → Option ℕ
threshold_of retain active =
    let threshold = active + 1 - retain in if leb threshold 1 then none else some threshold

unfoldable pub purge_detail : ℕ → ℕ → ℕ → Counts → Json
purge_detail fid retain threshold c = obj (
    field "file_id" (num fid) (
      field "retain" (num retain) (
        field "threshold" (num threshold) (
          field "chunks" (num c.chunks) (
            field "summaries" (num c.summaries) (
              field "anchors" (num c.anchors)
                (field "versions" (num c.versions) (field "dry_run" (flag false) end))))))))

module _ {F S : Type 0} (env : Env) (es : Client F S) where
  -- The transaction that purges one file, and the drain after its commit.
  unfoldable pub purge_below : ℕ → Option ℕ → ℕ → ℕ → ℕ → World F S → World F S × Outcome
  unfolding delete_purgeable delete_events
  purge_below tenant_id user_id retain fid threshold w =
      let (pg', deleted) = delete_purgeable fid tenant_id threshold w.pg in
      let events = delete_events fid "gc_purge" (deleted.chunk_ids ++ deleted.summary_ids) in
      let pg'' =
        audited env (some tenant_id) user_id "gc_purge"
          (purge_detail fid retain threshold deleted.counts)
          (record pg' { outbox = pg'.outbox ++ events }) in
      let (outbox, es', _) = drain es env.max_attempts env.now (some fid) pg''.outbox w.es in
      (
        record { pg = record pg'' { outbox = outbox }; es = es' },
        purged deleted.counts (length events),
      )

  -- The body of the loop of `purge_versions` with `dry_run=False`.
  unfoldable pub purge_file_versions : ℕ → Option ℕ → ℕ → ℕ → World F S → World F S × Outcome
  purge_file_versions tenant_id user_id retain fid w =
      if not (env.file_lock fid)
      then (w, lock_busy)
      else if ltb 0 (pending_count (some fid) w.pg.outbox)
      then (w, outbox_pending)
      else (elim (file_of w.pg.files fid tenant_id) [
        | none ↦ (w, desync_or_missing)
        | some f ↦ elim (lockstep f) [
          | none ↦ (w, desync_or_missing)
          | some active ↦ elim (threshold_of retain active) [
            | none ↦ (w, up_to_date)
            | some threshold ↦ purge_below tenant_id user_id retain fid threshold w
          ]
        ]
      ])

  unfoldable pub purge_loop : ℕ → Option ℕ → ℕ → List ℕ → World F S → World F S × List (ℕ × Outcome)
  unfolding purge_file_versions
  purge_loop tenant_id user_id retain [] w = (w, [])
  purge_loop tenant_id user_id retain (fid ∷ fids) w =
      let (w', outcome) = purge_file_versions tenant_id user_id retain fid w in
      let (w'', outcomes) = purge_loop tenant_id user_id retain fids w' in
      (w'', (fid, outcome) ∷ outcomes)

-- The body of the loop with `dry_run=True`, which only reads.
unfoldable pub project_file : {F : Type 0} → Pg F → ℕ → ℕ → ℕ → Outcome
project_file pg tenant_id retain fid = elim (file_of pg.files fid tenant_id) [
  | none ↦ desync_or_missing
  | some f ↦ elim (lockstep f) [
    | none ↦ desync_or_missing
    | some active ↦ elim (threshold_of retain active) [
      | none ↦ up_to_date
      | some threshold ↦ purged (count_purgeable pg fid tenant_id threshold) 0
    ]
  ]
]

-- `purge_versions`: `none` is the error of `_resolve_files`. The report lists the outcome of each
-- file; its totals are sums over this list.
unfoldable pub purge_versions :
    {F S : Type 0}
    → Env
    → Client F S
    → ℕ
    → Option ℕ
    → Bool
    → ℕ
    → Option ℕ
    → World F S
    → World F S × Option (List (ℕ × Outcome))
unfolding purge_loop project_file
purge_versions env es tenant_id file_id dry_run retain user_id w =
    elim (resolve_files w.pg.files tenant_id file_id) [
      | none ↦ (w, none)
      | some fids ↦
          if dry_run
          then (w, some (map (λ fid. (fid, project_file w.pg tenant_id retain fid)) fids))
          else (let (w', outcomes) = purge_loop env es tenant_id user_id retain fids w in
              (w', some outcomes))
    ]

-- `published_at IS NOT NULL AND published_at < cutoff`
unfoldable pub is_prunable : {F : Type 0} → ℕ → OutboxRow F → Bool
is_prunable cutoff r = elim r.published_at [ none ↦ false | some t ↦ ltb t cutoff ]

-- `prune_outbox`; `cutoff` is the time `retain_days` before now
unfoldable pub prune_outbox : {F : Type 0} → Env → ℕ → ℕ → Option ℕ → Pg F → Pg F × ℕ
unfolding is_prunable
prune_outbox env cutoff retain_days user_id pg =
    let deleted = length (filter (is_prunable cutoff) pg.outbox) in
    let detail = obj (field "deleted" (num deleted) (field "retain_days" (num retain_days) end)) in
    (
      audited env none user_id "gc_prune_outbox" detail
          (record pg { outbox = filter (λ r. not (is_prunable cutoff r)) pg.outbox }),
      deleted,
    )
