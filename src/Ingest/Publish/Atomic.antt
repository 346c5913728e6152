-- ===== src/Ingest/Publish/Atomic.antt =====
-- A version is published at once or not at all, whatever the calls of the index do.
use mathlib.Core.List.{append-nil}
use kb_backend.Prelude.{
  ℕ, ◌+◌, ◌≡◌, refl, Bool, true, not, ◌||◌, some, List, [], ◌∷◌, map, arith, ltb, ◌==◌,
  if◌then◌else◌, opt_eq, filter, all, update_where, false, ◌&&◌, ◌∙◌, ◌⊎◌, find, Option-cases, inl,
  inr, Bool-cases, filter-append, ◌++◌,
}
use kb_backend.Db.{FileRow, ChunkRow, Pg, Env, World}
use kb_backend.Gc.{lockstep}
use kb_backend.Ingest.Diff.{NewChunk}
use kb_backend.Ingest.Publish.{
  flip_file, flip_chunks, Ending, done, Tools, Client, ingest_file, plan_file, publish_plan,
  file_not_found, raised, flip, staged, publish_flip, drain_incomplete, report, pending_count,
}
use kb_backend.Ingest.Stage.{stage_all, max_version, chunk_row, Plan, StagedItem, stage_rows}

-- the chunks that the tables show
abbrev pub visible : List ChunkRow → List ChunkRow
visible cs = filter (λ c. c.available == 1) cs

-- An UPDATE of rows that are not looked at changes nothing that is.
filter-update_where {ℓ} :
    {A : Type ℓ} (keep p : A → Bool) (f : A → A) (xs : List A)
    → ((x : A) → p x ≡ true → (keep x ≡ false) × (keep (f x) ≡ false))
    → filter keep (update_where p f xs) ≡ filter keep xs
filter-update_where keep p f [] h = refl
filter-update_where keep p f (x ∷ xs) h = ground (arith, h x, filter-update_where keep p f xs h)

hidden_rows :
    (f : FileRow) (target : ℕ) (cs : List NewChunk) → visible (map (chunk_row f target) cs) ≡ []
unfolding chunk_row
hidden_rows f target [] = refl
hidden_rows f target (c ∷ cs) = hidden_rows f target cs

-- the pointers and the visible chunks of one version
abbrev pub is_shown_version : ℕ → ℕ → ChunkRow → Bool
is_shown_version fid target c =
    not (c.file_id == fid)
    || ltb target c.chunk_version
    || (if c.available == 1 then c.chunk_version == target else ltb c.chunk_version target)

-- Every chunk of the file up to the version is of this version if it is visible, and of an earlier
-- one if it is not.
flip_chunks-shown :
    (f : FileRow) (target : ℕ) (cs : List ChunkRow)
    → all (is_shown_version f.id target) (flip_chunks f target cs) ≡ true
unfolding flip_chunks
flip_chunks-shown f target [] = refl
flip_chunks-shown f target (c ∷ cs) = ground (arith, flip_chunks-shown f target cs)

-- What is asked of the tables after a call, given its ending.
abbrev pub IsAtomic : {F : Type 0} → ℕ → Pg F → Pg F → Ending F → Type 0
IsAtomic fid before after (done r) =
    (r.version ≡ max_version before.versions fid + 1)
    × (all (λ g. not (g.id == fid) || opt_eq (lockstep g) (some r.version)) after.files ≡ true)
    × (filter (λ g. not (g.id == fid)) after.files ≡ filter (λ g. not (g.id == fid)) before.files)
    × (all (is_shown_version fid r.version) after.chunks ≡ true)
    × (filter (λ c. not (c.file_id == fid)) after.chunks
        ≡ filter (λ c. not (c.file_id == fid)) before.chunks)
IsAtomic fid before after _ =
    (after.files ≡ before.files) × (visible after.chunks ≡ visible before.chunks)

flip_file-lockstep :
    (fid target blocks : ℕ) (fs : List FileRow)
    → all
        (λ g. not (g.id == fid) || opt_eq (lockstep g) (some target))
        (update_where (λ g. g.id == fid) (flip_file target blocks) fs)
      ≡ true
unfolding flip_file lockstep
flip_file-lockstep fid target blocks [] = refl
flip_file-lockstep fid target blocks (g ∷ gs) =
    ground (arith, flip_file-lockstep fid target blocks gs)

flip_chunks-others :
    (f : FileRow) (target : ℕ) (cs : List ChunkRow)
    → filter (λ c. not (c.file_id == f.id)) (flip_chunks f target cs)
      ≡ filter (λ c. not (c.file_id == f.id)) cs
unfolding flip_chunks
flip_chunks-others f target cs =
    filter-update_where (λ c. not (c.file_id == f.id))
      (λ c. (c.file_id == f.id) && ltb c.chunk_version target) (λ c. record c { available = 0 })
      (update_where (λ c. (c.file_id == f.id) && (c.chunk_version == target))
        (λ c. record c { available = 1 }) cs)
      (λ c h. ground arith)
    ∙ filter-update_where (λ c. not (c.file_id == f.id))
        (λ c. (c.file_id == f.id) && (c.chunk_version == target)) (λ c. record c { available = 1 })
        cs (λ c h. ground arith)

staged_others :
    (f : FileRow) (target : ℕ) (cs : List NewChunk)
    → filter (λ c. not (c.file_id == f.id)) (map (chunk_row f target) cs) ≡ []
unfolding chunk_row
staged_others f target [] = refl
staged_others f target (c ∷ cs) = ground (arith, staged_others f target cs)

pub find-id :
    (fid : ℕ) (fs : List FileRow) (f : FileRow) → find (λ g. g.id == fid) fs ≡ some f → f.id ≡ fid
find-id fid [] f h = ground arith
find-id fid (g ∷ gs) f h = ground (arith, find-id fid gs f)

flip_file-hidden :
    (fid target blocks : ℕ) (g : FileRow)
    → (g.id == fid) ≡ true
    → (not (g.id == fid) ≡ false) × (not ((flip_file target blocks g).id == fid) ≡ false)
unfolding flip_file
flip_file-hidden fid target blocks g h = ground arith

module _ {F S Block : Type 0} (tools : Tools F Block) (env : Env) (es : Client F S) where
  -- A call that does not reach its first commit changes nothing.
  pub ingest_cases :
      (fid : ℕ) (w : World F S)
      → ((e : Ending F) × (IsAtomic fid w.pg w.pg e) × (ingest_file tools env es fid w ≡ (w, e)))
        ⊎ ((f : FileRow) × (plan : Plan F) × (items : List (StagedItem F)) × (find
                (λ f. f.id == fid)
                w.pg.files
              ≡ some f)
            × (plan_file tools es f w ≡ some plan)
            × (ingest_file tools env es fid w ≡ publish_plan env es f plan items w))
  unfolding ingest_file
  ingest_cases fid w = elim (Option-cases (find (λ (f : FileRow). f.id == fid) w.pg.files)) [
    | inl e ↦ inl (file_not_found, (refl, refl), rw (ingest_file, e) refl)
    | inr (f, e) ↦ elim (Option-cases (plan_file tools es f w)) [
      | inl p ↦ inl (raised, (refl, refl), rw (ingest_file, e, p) refl)
      | inr (plan, p) ↦ elim (Option-cases (stage_all tools f plan)) [
        | inl s ↦ inl (raised, (refl, refl), rw (ingest_file, e, p, s) refl)
        | inr (items, s) ↦ inr (f, plan, items, e, p, rw (ingest_file, e, p, s) refl)
      ]
    ]
  ]

  pub plan_file-target :
      (f : FileRow) (w : World F S) (plan : Plan F)
      → plan_file tools es f w ≡ some plan
      → plan.target ≡ max_version w.pg.versions f.id + 1
  unfolding plan_file
  plan_file-target f w plan h = ground arith

module _ {F S : Type 0} (env : Env) (es : Client F S) (f : FileRow) (plan : Plan F)
    (items : List (StagedItem F)) (w : World F S) where
  -- The barrier holds the version back, or it is published.
  pub publish_cases :
      (publish_plan env es f plan items w ≡ (staged env es f plan items w, drain_incomplete))
      ⊎ (publish_plan env es f plan items w
          ≡ (publish_flip env es f plan items (staged env es f plan items w), done (report f plan)))
  unfolding publish_plan
  publish_cases =
      elim (Bool-cases
        (ltb 0 (pending_count (some f.id) (staged env es f plan items w).pg.outbox))) [
          | inl e ↦ inl (rw e refl)
          | inr e ↦ inr (rw e refl)
        ]

  staged-IsAtomic : IsAtomic f.id w.pg (staged env es f plan items w).pg drain_incomplete
  unfolding staged stage_rows
  staged-IsAtomic = (
    refl,
    filter-append (λ c. c.available == 1) w.pg.chunks (map (chunk_row f plan.target) plan.chunks)
        ∙ rw (hidden_rows f plan.target plan.chunks, append-nil) refl,
  )

  publish_flip-IsAtomic :
      plan.target ≡ max_version w.pg.versions f.id + 1
      → IsAtomic f.id w.pg
          (publish_flip env es f plan items (staged env es f plan items w)).pg
          (done (report f plan))
  unfolding publish_flip staged stage_rows flip report
  publish_flip-IsAtomic h =
      let cs = w.pg.chunks ++ map (chunk_row f plan.target) plan.chunks in
      (
        h,
        flip_file-lockstep f.id plan.target plan.blocks w.pg.files,
        filter-update_where (λ g. not (g.id == f.id)) (λ g. g.id == f.id)
            (flip_file plan.target plan.blocks) w.pg.files
            (λ g e. flip_file-hidden f.id plan.target plan.blocks g e),
        flip_chunks-shown f plan.target cs,
        flip_chunks-others f plan.target cs
            ∙ filter-append (λ c. not (c.file_id == f.id)) w.pg.chunks
                (map (chunk_row f plan.target) plan.chunks)
            ∙ rw (staged_others f plan.target plan.chunks, append-nil) refl,
      )

-- Whatever the calls of the index and of the services answer: if `ingest_file` does not end with its
-- report, the files and the visible chunks are what they were. If it does, the version is one more
-- than the highest of the file, all four pointers of the file are at it, and of the chunks of the
-- file up to this version exactly those of this version are visible; the other files and their
-- chunks are what they were.
pub ingest_file-IsAtomic :
    {F S Block : Type 0} (tools : Tools F Block) (env : Env) (es : Client F S) (fid : ℕ)
    (w : World F S)
    → let (w', e) = ingest_file tools env es fid w in IsAtomic fid w.pg w'.pg e
ingest_file-IsAtomic tools env es fid w = elim (ingest_cases tools env es fid w) [
  | inl (e, held, same) ↦ rw same held
  | inr (f, plan, items, found, planned, same) ↦
      let named : f.id ≡ fid = find-id fid w.pg.files f found in
      let next = plan_file-target tools env es f w plan planned in
      rw (same, ← named)
        (elim (publish_cases env es f plan items w) [
          | inl stop ↦ rw stop (staged-IsAtomic env es f plan items w)
          | inr go ↦ rw go (publish_flip-IsAtomic env es f plan items w next)
        ])
]
