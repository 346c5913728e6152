-- ===== src/Gc/Keeps.antt =====
-- What a purge leaves alone, and what a dry run says of it.
use kb_backend.Prelude.{
  ℕ, ◌+◌, ◌-◌, ◌≡◌, refl, ◌⊎◌, inl, inr, Bool, true, false, not, ◌||◌, Option, none, some, List, [],
  ◌∷◌, arith, ltb, ◌==◌, Bool-cases, Option-cases, filter, length, map,
}
use kb_backend.Relay.{pending_count}
use kb_backend.Es.{Client}
use kb_backend.Db.{FileRow, ChunkRow, SummaryRow, VersionRow, Pg, World, Env, audited, file_of}
use kb_backend.Gc.{
  lockstep, threshold_of, old_chunk, old_summary, old_version, Counts, purge_below,
  purge_file_versions, project_file, Outcome, purged, delete_purgeable, count_purgeable, old_anchor,
}

filter_kept {ℓ} :
    {A : Type ℓ} (keep old : A → Bool) (xs : List A)
    → ((x : A) → keep x ≡ true → old x ≡ false)
    → filter keep (filter (λ x. not (old x)) xs) ≡ filter keep xs
filter_kept keep old [] h = refl
filter_kept keep old (x ∷ xs) h = ground (arith, h x, filter_kept keep old xs h)

-- The row is of another file, or among the last `retain` versions up to the active one.
abbrev pub in_window : ℕ → ℕ → ℕ → ℕ → ℕ → Bool
in_window fid retain active file_id version = not (file_id == fid) || ltb active (version + retain)

abbrev pub keep_chunk : ℕ → ℕ → ℕ → ChunkRow → Bool
keep_chunk fid retain active c = in_window fid retain active c.file_id c.chunk_version

abbrev pub keep_summary : {F : Type 0} → ℕ → ℕ → ℕ → SummaryRow F → Bool
keep_summary fid retain active s = in_window fid retain active s.file_id s.summary_version

abbrev pub keep_version : ℕ → ℕ → ℕ → VersionRow → Bool
keep_version fid retain active v = in_window fid retain active v.file_id v.doc_version

-- What is asked of the tables after a call that may purge.
pub record Keeps {F : Type 0} (retain fid active : ℕ) (before after : Pg F) : Type 0 where
  pub files : after.files ≡ before.files
  pub chunks :
      filter (keep_chunk fid retain active) after.chunks
      ≡ filter (keep_chunk fid retain active) before.chunks
  pub summaries :
      filter (keep_summary fid retain active) after.summaries
      ≡ filter (keep_summary fid retain active) before.summaries
  pub versions :
      filter (keep_version fid retain active) after.versions
      ≡ filter (keep_version fid retain active) before.versions

module _ {F S : Type 0} (env : Env) (es : Client F S) (tenant_id : ℕ) (user_id : Option ℕ)
    (retain fid active : ℕ) where
  Keeps-refl : (pg : Pg F) → Keeps retain fid active pg pg
  Keeps-refl pg = record { files = refl; chunks = refl; summaries = refl; versions = refl }

  threshold_eq :
      (threshold : ℕ)
      → threshold_of retain active ≡ some threshold
      → threshold ≡ active + 1 - retain
  unfolding threshold_of
  threshold_eq threshold h = ground arith

  below-Keeps :
      (threshold : ℕ) (w : World F S)
      → threshold ≡ active + 1 - retain
      → Keeps retain fid active w.pg
          (purge_below env es tenant_id user_id retain fid threshold w).0.pg
  unfolding purge_below audited
  below-Keeps threshold w e = record {
    files = refl;
    chunks =
        filter_kept (keep_chunk fid retain active) (old_chunk fid tenant_id threshold) w.pg.chunks
          (λ c h. ground arith);
    summaries =
        filter_kept (keep_summary fid retain active) (old_summary fid tenant_id threshold)
          w.pg.summaries (λ s h. ground arith);
    versions =
        filter_kept (keep_version fid retain active) (old_version fid threshold) w.pg.versions
          (λ v h. ground arith);
  }

  -- A call either changes nothing or purges below the threshold.
  purge_cases :
      (f : FileRow) (w : World F S)
      → file_of w.pg.files fid tenant_id ≡ some f
      → lockstep f ≡ some active
      → ((purge_file_versions env es tenant_id user_id retain fid w).0 ≡ w)
        ⊎ ((threshold : ℕ) × (threshold_of retain active ≡ some threshold)
            × (purge_file_versions env es tenant_id user_id retain fid w
                ≡ purge_below env es tenant_id user_id retain fid threshold w))
  unfolding purge_file_versions
  purge_cases f w found step = elim (Bool-cases (env.file_lock fid)) [
    | inr e ↦ inl (rw e)
    | inl e ↦ elim (Bool-cases (ltb 0 (pending_count (some fid) w.pg.outbox))) [
      | inl busy ↦ inl (rw (e, busy))
      | inr idle ↦ elim (Option-cases (threshold_of retain active)) [
        | inl t ↦ inl (rw (e, idle, found, step, t))
        | inr (threshold, t) ↦ inr (threshold, t, rw (e, idle, found, step, t))
      ]
    ]
  ]

  -- Whatever the locks and the outbox say, a purge of a file whose pointers are all at `active` leaves
  -- the files as they are, and loses no chunk, summary or version row of another file or of the last
  -- `retain` versions up to the active one.
  pub purge-Keeps :
      (f : FileRow) (w : World F S)
      → file_of w.pg.files fid tenant_id ≡ some f
      → lockstep f ≡ some active
      → Keeps retain fid active w.pg
          (purge_file_versions env es tenant_id user_id retain fid w).0.pg
  purge-Keeps f w found step = elim (purge_cases f w found step) [
    | inl same ↦ rw same (Keeps-refl w.pg)
    | inr (threshold, t, same) ↦ rw same (below-Keeps threshold w (threshold_eq threshold t))
  ]

length-split :
    {A : Type 0} (p : A → Bool) (xs : List A)
    → length (filter p xs) + length (filter (λ x. not (p x)) xs) ≡ length xs
length-split p [] = refl
length-split p (x ∷ xs) = ground (arith, length-split p xs)

length-map : {A B : Type 0} (g : A → B) (xs : List A) → length (map g xs) ≡ length xs
length-map g [] = refl
length-map g (x ∷ xs) = ground (arith, length-map g xs)

length-removed :
    {A : Type 0} (p : A → Bool) (xs : List A)
    → length xs - length (filter (λ x. not (p x)) xs) ≡ length (filter p xs)
length-removed p xs = omega (arith, length-split p xs)

-- What a purge counts while it deletes is what a dry run counts.
delete_purgeable-counts :
    {F : Type 0} (fid tenant_id threshold : ℕ) (pg : Pg F)
    → (delete_purgeable fid tenant_id threshold pg).1.counts
      ≡ count_purgeable pg fid tenant_id threshold
unfolding delete_purgeable count_purgeable
delete_purgeable-counts {F = F} fid tenant_id threshold pg =
    rw
      (
        length-map (λ (c : ChunkRow). c.id) (filter (old_chunk fid tenant_id threshold) pg.chunks),
        length-map (λ (s : SummaryRow F). s.id)
            (filter (old_summary fid tenant_id threshold) pg.summaries),
        length-removed (old_anchor fid threshold) pg.anchors,
        length-removed (old_version fid threshold) pg.versions,
      )
      refl

-- The numbers of rows that an outcome reports as purged.
abbrev pub removed : Outcome → Option Counts
removed (purged c n) = some c
removed _ = none

module _ {F S : Type 0} (env : Env) (es : Client F S) (tenant_id : ℕ) (user_id : Option ℕ)
    (retain fid : ℕ) where
  -- Where the lock is free and nothing is pending, the purge of a file reports the counts that a dry
  -- run reports, and purges nothing where the dry run projects nothing.
  pub dry_run_predicts :
      (w : World F S)
      → env.file_lock fid ≡ true
      → pending_count (some fid) w.pg.outbox ≡ 0
      → removed (purge_file_versions env es tenant_id user_id retain fid w).1
        ≡ removed (project_file w.pg tenant_id retain fid)
  unfolding purge_file_versions project_file purge_below
  dry_run_predicts w free idle =
      let quiet : ltb 0 (pending_count (some fid) w.pg.outbox) ≡ false = rw idle refl in
      elim (Option-cases (file_of w.pg.files fid tenant_id)) [
        | inl e ↦ ground (arith, free, quiet, e)
        | inr (f, e) ↦ elim (Option-cases (lockstep f)) [
          | inl l ↦ ground (arith, free, quiet, e, l)
          | inr (a, l) ↦ elim (Option-cases (threshold_of retain a)) [
            | inl t ↦ ground (arith, free, quiet, e, l, t)
            | inr (threshold, t) ↦
                ground (
                  arith,
                  free,
                  quiet,
                  e,
                  l,
                  t,
                  delete_purgeable-counts fid tenant_id threshold w.pg,
                )
          ]
        ]
      ]
