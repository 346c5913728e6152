-- ===== src/FileStore/Erased.antt =====
-- What is left of a file that was removed, and of the others.
use kb_backend.Prelude.{
  contains_ids, ℕ, ◌≡◌, ◌||◌, refl, ◌⊎◌, inl, inr, Bool, true, false, not, Option, none, some, List,
  [], ◌∷◌, arith, ◌==◌, if◌then◌else◌, Bool-cases, Option-cases, filter, find, any, contains,
  lookup, ◌||◌, ◌&&◌, map, any-append, ◌∙◌,
}
use kb_backend.Relay.{drain}
use kb_backend.Relay.Effects.{effects}
use kb_backend.Relay.Drain.{AllKnown, pending_events}
use kb_backend.Es.{Client, Store, fake_es, Client}
use kb_backend.Db.{FileRow, ChunkRow, SummaryRow, VersionRow, Pg, World, Env}
use kb_backend.Gc.Index.{drain-delete_events}
use kb_backend.FileStore.{es_ids, delete_file, purge_rows, purge_file}

module _ {ℓ} {A : Type ℓ} where
  pub any-filter-not : (p : A → Bool) (xs : List A) → any p (filter (λ x. not (p x)) xs) ≡ false
  any-filter-not p [] = refl
  any-filter-not p (x ∷ xs) = ground (arith, any-filter-not p xs)

found_any :
    (fid t : ℕ) (fs : List FileRow) (f : FileRow)
    → find (λ g. g.id == fid) fs ≡ some f
    → (f.tenant_id == t) ≡ true
    → any (λ g. (g.id == fid) && (g.tenant_id == t)) fs ≡ true
found_any fid t [] f e own = absurd (ground arith)
found_any fid t (g ∷ fs) f e own = elim (Bool-cases (g.id == fid)) [
  | inl k ↦ ground (arith, e, k, own)
  | inr k ↦ rw k (found_any fid t fs f (ground (arith, e, k)) own)
]

-- A chunk or a summary of the file, of whichever version, has the id.
abbrev pub has_document : {F : Type 0} → Pg F → ℕ → ℕ → Bool
has_document pg fid j =
    any (λ c. (c.file_id == fid) && (c.id == j)) pg.chunks
    || any (λ s. (s.file_id == fid) && (s.id == j)) pg.summaries

-- A row of the file is in one of these tables.
abbrev pub mentions : {F : Type 0} → Pg F → ℕ → Bool
mentions pg fid =
    any (λ f. f.id == fid) pg.files
    || any (λ c. c.file_id == fid) pg.chunks
    || any (λ s. s.file_id == fid) pg.summaries
    || any (λ v. v.file_id == fid) pg.versions

module _ {F : Type 0} (period tenant_id fid : ℕ) where
  purged_tables :
      (size : Option ℕ) (pg : Pg F) → mentions (purge_rows period tenant_id fid size pg) fid ≡ false
  unfolding purge_rows delete_file
  purged_tables size pg = ground (
    arith,
    any-filter-not (λ (f : FileRow). f.id == fid) pg.files,
    any-filter-not (λ (c : ChunkRow). c.file_id == fid) pg.chunks,
    any-filter-not (λ (s : SummaryRow F). s.file_id == fid) pg.summaries,
    any-filter-not (λ (v : VersionRow). v.file_id == fid) pg.versions,
  )

  -- Either the file is of the tenant and is removed, or it is not there or of another tenant, the
  -- answer is `false`, and nothing has changed.
  pub purge_cases :
      {S : Type 0} (env : Env) (es : Client F S) (w : World F S)
      → (purge_file env es period tenant_id fid w ≡ (w, false))
        ⊎ ((size : Option ℕ) × (any (λ f. (f.id == fid) && (f.tenant_id == tenant_id)) w.pg.files
              ≡ true)
            × (let pg = purge_rows period tenant_id fid size w.pg in
                let (outbox, es', _) =
                  drain es env.max_attempts env.now (some fid) pg.outbox w.es in
                purge_file env es period tenant_id fid w
                ≡ (record { pg = record pg { outbox = outbox }; es = es' }, true)))
  unfolding purge_file
  purge_cases env es w = elim (Option-cases (find (λ (f : FileRow). f.id == fid) w.pg.files)) [
    | inl e ↦ inl (rw (e, purge_file))
    | inr (f, e) ↦ elim (Bool-cases (f.tenant_id == tenant_id)) [
      | inl t ↦ inr (f.size_bytes, found_any fid tenant_id w.pg.files f e t, rw (e, t, purge_file))
      | inr t ↦ inl (rw (e, t, purge_file))
    ]
  ]

  has_document-es_ids : (pg : Pg F) (j : ℕ) → contains (es_ids pg fid) j ≡ has_document pg fid j
  unfolding es_ids
  has_document-es_ids pg j =
      any-append (λ i. i == j) (map (λ c. c.id) (filter (λ c. c.file_id == fid) pg.chunks)) _
      ∙ ground (
        arith,
        contains_ids (λ (c : ChunkRow). c.id) (λ c. c.file_id == fid) j pg.chunks,
        contains_ids (λ (s : SummaryRow F). s.id) (λ s. s.file_id == fid) j pg.summaries,
      )

  -- Over the in-memory index, if all rows of the outbox are of the three known event types: if
  -- `purge_file` refuses, nothing has changed; if it succeeds, the file has no row left among the
  -- files, chunks, summaries and versions, the documents of all its chunks and summaries, of every
  -- version, are gone from the index, and each other document is what the events of the file that
  -- were still pending make of it.
  pub purge_file_erases :
      (env : Env) (w : World F (Store F)) (j : ℕ)
      → AllKnown w.pg.outbox
      → let (w', done) = purge_file env fake_es period tenant_id fid w in
        if done
        then (mentions w'.pg fid ≡ false)
          × (lookup j w'.es ≡ (
              if has_document w.pg fid j
              then none
              else effects (pending_events (some fid) w.pg.outbox) j (lookup j w.es)))
        else (w' ≡ w)
  purge_file_erases env w j known = elim (purge_cases env fake_es w) [
    | inl same ↦ rw same refl
    | inr (size, _, same) ↦ rw same (
      purged_tables size w.pg,
      unfold purge_rows delete_file in
          (drain-delete_events fid env.max_attempts env.now "file_delete" (es_ids w.pg fid)
              w.pg.outbox w.es j known
            ∙ rw (has_document-es_ids w.pg j) refl),
    )
  ]
