-- ===== src/Ingest/Publish/Aligned.antt =====
-- The invariant of the tables that ingestions keep: what is visible is of the active version.
use kb_backend.Ingest.Publish.Atomic.{ingest_cases, find-id, plan_file-target, publish_cases}
use kb_backend.Prelude.{
  ℕ, ◌≡◌, refl, Bool, true, false, not, ◌&&◌, ◌||◌, Option, some, List, [], ◌∷◌, ◌++◌, map, arith,
  leb, ◌==◌, if◌then◌else◌, opt_eq, all, find, update_where, ◌>>=◌, max, ◌+◌, inl, inr, ◌∙◌, ap,
  all-append,
}
use kb_backend.Db.{FileRow, ChunkRow, VersionRow, Pg, Env, World}
use kb_backend.Ingest.Diff.{NewChunk}
use kb_backend.Ingest.Publish.{
  flip_file, flip_chunks, Tools, Client, ingest_file, staged, publish_flip, flip,
}
use kb_backend.Ingest.Stage.{max_version, chunk_row, Plan, StagedItem, stage_rows}

-- the active version of a file, by its number
abbrev pub active_of : List FileRow → ℕ → Option ℕ
active_of fs fid = find (λ g. g.id == fid) fs >>= λ g. g.active_chunk_version

-- The chunk is of a version that kb_version has reached, and if it is visible, of the active one.
abbrev pub is_aligned : List VersionRow → List FileRow → ChunkRow → Bool
is_aligned vs fs c =
    leb c.chunk_version (max_version vs c.file_id)
    && (not (c.available == 1) || opt_eq (some c.chunk_version) (active_of fs c.file_id))

abbrev pub IsAligned : {F : Type 0} → Pg F → Type 0
IsAligned pg = all (is_aligned pg.versions pg.files) pg.chunks ≡ true

max_version-append :
    (vs : List VersionRow) (v : VersionRow) (fid : ℕ)
    → max_version (vs ++ (v ∷ [])) fid
      ≡ (if v.file_id == fid then max (max_version vs fid) v.doc_version else max_version vs fid)
unfolding max_version
max_version-append [] v fid = ground arith
max_version-append (u ∷ us) v fid = ground (arith, max_version-append us v fid)

abbrev flip_files : ℕ → ℕ → ℕ → List FileRow → List FileRow
flip_files fid target blocks fs = update_where (λ g. g.id == fid) (flip_file target blocks) fs

active_of-others :
    (fid target blocks k : ℕ) (fs : List FileRow)
    → (k == fid) ≡ false
    → active_of (flip_files fid target blocks fs) k ≡ active_of fs k
unfolding flip_file
active_of-others fid target blocks k [] h = refl
active_of-others fid target blocks k (g ∷ gs) h =
    ground (arith, active_of-others fid target blocks k gs h)

active_of_self :
    (fid target blocks : ℕ) (fs : List FileRow) (f : FileRow)
    → find (λ g. g.id == fid) fs ≡ some f
    → active_of (flip_files fid target blocks fs) fid ≡ some target
unfolding flip_file
active_of_self fid target blocks [] f h = ground arith
active_of_self fid target blocks (g ∷ gs) f h =
    ground (arith, active_of_self fid target blocks gs f)

-- A row of a version keeps its place when the version of a file is added.
module _ (vs : List VersionRow) (fs : List FileRow) (f : FileRow) (v : VersionRow) where
  grown-aligned :
      (c : ChunkRow) → is_aligned vs fs c ≡ true → is_aligned (vs ++ (v ∷ [])) fs c ≡ true
  grown-aligned c h = ground (arith, max_version-append vs v c.file_id, h)

  grown-all :
      (cs : List ChunkRow)
      → all (is_aligned vs fs) cs ≡ true
      → all (is_aligned (vs ++ (v ∷ [])) fs) cs ≡ true
  grown-all [] h = refl
  grown-all (c ∷ cs) h = ground (arith, grown-aligned c, grown-all cs)

module _ (vs : List VersionRow) (fs : List FileRow) (f : FileRow) (target : ℕ) where
  new_rows-aligned :
      max_version vs f.id ≡ target
      → (cs : List NewChunk) → all (is_aligned vs fs) (map (chunk_row f target) cs) ≡ true
  unfolding chunk_row
  new_rows-aligned h [] = refl
  new_rows-aligned h (c ∷ cs) = ground (arith, h, new_rows-aligned h cs)

  flip-all :
      (blocks : ℕ) (g : FileRow)
      → find (λ g. g.id == f.id) fs ≡ some g
      → max_version vs f.id ≡ target
      → (cs : List ChunkRow) → all (is_aligned vs fs) cs ≡ true
      → all (is_aligned vs (flip_files f.id target blocks fs)) (flip_chunks f target cs) ≡ true
  unfolding flip_chunks
  flip-all blocks g found top [] h = refl
  flip-all blocks g found top (c ∷ cs) h = ground (
    arith,
    top,
    active_of_self f.id target blocks fs g found,
    active_of-others f.id target blocks c.file_id fs,
    flip-all blocks g found top cs,
  )

module _ {F S : Type 0} (env : Env) (es : Client F S) (f : FileRow) (plan : Plan F)
    (items : List (StagedItem F)) (w : World F S)
    (next : plan.target ≡ max_version w.pg.versions f.id + 1) (aligned : IsAligned w.pg) where
  staged-top : max_version (staged env es f plan items w).pg.versions f.id ≡ plan.target
  unfolding staged stage_rows
  staged-top = max_version-append w.pg.versions _ f.id ∙ ground (arith, next)

  staged-IsAligned : IsAligned (staged env es f plan items w).pg
  unfolding staged stage_rows
  staged-IsAligned =
      all-append (is_aligned (staged env es f plan items w).pg.versions w.pg.files) w.pg.chunks
        (map (chunk_row f plan.target) plan.chunks)
        (grown-all w.pg.versions w.pg.files f _ w.pg.chunks aligned)
        (new_rows-aligned _ w.pg.files f plan.target staged-top plan.chunks)

  publish_flip-IsAligned :
      (g : FileRow)
      → find (λ g. g.id == f.id) w.pg.files ≡ some g
      → IsAligned (publish_flip env es f plan items (staged env es f plan items w)).pg
  unfolding publish_flip flip
  publish_flip-IsAligned g found =
      let w' = staged env es f plan items w in
      flip-all w'.pg.versions w'.pg.files f plan.target plan.blocks g
        (unfold staged stage_rows in found) staged-top w'.pg.chunks staged-IsAligned

-- If every chunk is of a version that its file has reached, and visible only if it is of the file's
-- active version, then this is so again after any call of `ingest_file`, however it ends and
-- whatever the calls of the index and of the services answer.
pub ingest_file-IsAligned :
    {F S Block : Type 0} (tools : Tools F Block) (env : Env) (es : Client F S) (fid : ℕ)
    (w : World F S)
    → IsAligned w.pg
    → IsAligned (ingest_file tools env es fid w).0.pg
ingest_file-IsAligned tools env es fid w aligned = elim (ingest_cases tools env es fid w) [
  | inl (e, held, same) ↦ rw same aligned
  | inr (f, plan, items, found, planned, same) ↦
      let named : f.id ≡ fid = find-id fid w.pg.files f found in
      let next = plan_file-target tools env es f w plan planned in
      rw same (elim (publish_cases env es f plan items w) [
        | inl stop ↦ rw stop (staged-IsAligned env es f plan items w next aligned)
        | inr go ↦ rw go (
            publish_flip-IsAligned env es f plan items w next aligned f
              (ap (λ k. find (λ (g : FileRow). g.id == k) w.pg.files) named ∙ found))
      ])
]
