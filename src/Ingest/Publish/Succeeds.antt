-- ===== src/Ingest/Publish/Succeeds.antt =====
-- An ingestion over the in-memory index reaches its end, and what the index then shows.
use mathlib.Core.List.{append-nil}
use kb_backend.Relay.Effects.{marked}
use kb_backend.Ingest.Publish.Atomic.{find-id}
use kb_backend.Ingest.Publish.Indexed.{indexed, staged_index, publish_flip_index}
use kb_backend.Relay.Drain.{AllKnown}
use kb_backend.Es.{Store, fake_es, Client}
use kb_backend.Prelude.{
  any-append, contains_ids, contains, any, ◌||◌, if◌then◌else◌, Bool-cases, inl, inr, ℕ, ◌+◌, ◌≡◌,
  refl, Bool, true, ◌&&◌, Option, some, List, [], ◌∷◌, map, arith, ltb, ◌==◌, filter, all, ◌>>=◌,
  >>=_some, find, filter-append, ◌++◌, lookup, ◌∙◌,
}
use kb_backend.Db.{Pg, FileRow, SummaryRow, Env, World, ChunkRow}
use kb_backend.Ingest.Diff.{NewChunk}
use kb_backend.Ingest.Sources.{Item, Tools}
use kb_backend.Ingest.Publish.{
  old_ids, ingest_file, staged, publish_plan, plan_file, done, report, pending_count, publish_flip,
}
use kb_backend.Ingest.Stage.{
  fits_column, stage_all, Plan, StagedItem, stage_item, stage_items, chunk_row, stage_rows, by_id,
}

-- The rows of the summary are of the file and of the version.
abbrev pub is_of : {F : Type 0} → FileRow → ℕ → SummaryRow F → Bool
is_of f target x =
    (x.file_id == f.id) && (x.tenant_id == f.tenant_id) && (x.summary_version == target)

module _ {F Block : Type 0} (tools : Tools F Block) (f : FileRow) (plan : Plan F)
    (d : List (ℕ × NewChunk)) where
  stage_item_lem :
      (i : ℕ) (x : Item × Option (List F)) (r : StagedItem F)
      → stage_item tools f plan d i x ≡ some r
      → is_of f plan.target r.summary ≡ true
  unfolding stage_item
  stage_item_lem i (it, vec) r h = ground arith

  stage_items_lem :
      (i : ℕ) (xs : List (Item × Option (List F))) (items : List (StagedItem F))
      → stage_items tools f plan d i xs ≡ some items
      → all (is_of f plan.target) (map (λ r. r.summary) items) ≡ true
  unfolding stage_items
  stage_items_lem i [] items h = ground arith
  stage_items_lem i (x ∷ xs) items h =
      let rest = stage_items tools f plan d (i + 1) xs in
      let (r, one, more) =
        >>=_some (stage_item tools f plan d i x) (λ r. rest >>= λ rs. some (r ∷ rs)) items h in
      let (rs, all_rest, last) = >>=_some rest (λ rs. some (r ∷ rs)) items more in
      ground (arith, last, stage_item_lem i x r one, stage_items_lem (i + 1) xs rs all_rest)

module _ {F Block : Type 0} (tools : Tools F Block) (f : FileRow) (plan : Plan F) where
  pub stage_all_lem :
      (items : List (StagedItem F))
      → stage_all tools f plan ≡ some items
      → all (is_of f plan.target) (map (λ r. r.summary) items) ≡ true
  unfolding stage_all
  stage_all_lem items h = elim (Bool-cases (all fits_column plan.chunks)) [
    | inl e ↦
        stage_items_lem tools f plan (by_id plan.chunks []) 0 plan.sources.items items (rw e at h)
    | inr e ↦ absurd (ground (arith, rw e at h))
  ]

module _ (f : FileRow) (target : ℕ) where
  old_chunks :
      (cs : List NewChunk)
      → filter
          (λ c. (c.file_id == f.id) && ltb c.chunk_version target)
          (map (chunk_row f target) cs)
        ≡ []
  unfolding chunk_row
  old_chunks [] = refl
  old_chunks (c ∷ cs) = ground (arith, old_chunks cs)

  old_summaries :
      {F : Type 0} (xs : List (SummaryRow F))
      → all (is_of f target) xs ≡ true
      → filter (λ x. (x.file_id == f.id) && ltb x.summary_version target) xs ≡ []
  old_summaries [] h = refl
  old_summaries (x ∷ xs) h = ground (arith, old_summaries xs)

module _ {F : Type 0} (f : FileRow) (plan : Plan F) (items : List (StagedItem F)) where
  pub staged-old_ids :
      (env : Env) (w : World F (Store F))
      → all (is_of f plan.target) (map (λ r. r.summary) items) ≡ true
      → old_ids f plan.target (staged env fake_es f plan items w).pg ≡ old_ids f plan.target w.pg
  unfolding old_ids staged stage_rows
  staged-old_ids env w h =
      let before : ChunkRow → Bool = λ c. (c.file_id == f.id) && ltb c.chunk_version plan.target in
      let earlier : SummaryRow F → Bool =
        λ x. (x.file_id == f.id) && ltb x.summary_version plan.target in
      rw
        (
          filter-append before w.pg.chunks (map (chunk_row f plan.target) plan.chunks),
          old_chunks f plan.target plan.chunks,
          filter-append earlier w.pg.summaries (map (λ r. r.summary) items),
          old_summaries f plan.target (map (λ r. r.summary) items) h,
          append-nil (filter before w.pg.chunks),
          append-nil (filter earlier w.pg.summaries),
        )
        refl

-- A chunk or a summary of the file of a version before this one has the id.
abbrev pub has_earlier : {F : Type 0} → ℕ → ℕ → Pg F → ℕ → Bool
has_earlier fid target pg j =
    any (λ c. ((c.file_id == fid) && ltb c.chunk_version target) && (c.id == j)) pg.chunks
    || any (λ s. ((s.file_id == fid) && ltb s.summary_version target) && (s.id == j)) pg.summaries

old_ids-has_earlier :
    {F : Type 0} (f : FileRow) (target : ℕ) (pg : Pg F) (j : ℕ)
    → contains (old_ids f target pg) j ≡ has_earlier f.id target pg j
unfolding old_ids
old_ids-has_earlier {F = F} f target pg j =
    any-append (λ i. i == j)
      (map (λ c. c.id) (filter (λ c. (c.file_id == f.id) && ltb c.chunk_version target) pg.chunks))
      _
    ∙ ground (
      arith,
      contains_ids (λ (c : ChunkRow). c.id) (λ c. (c.file_id == f.id) && ltb c.chunk_version target)
          j pg.chunks,
      contains_ids (λ (s : SummaryRow F). s.id)
          (λ s. (s.file_id == f.id) && ltb s.summary_version target) j pg.summaries,
    )

pub reaches_publish :
    {F S Block : Type 0} (tools : Tools F Block) (env : Env) (es : Client F S) (fid : ℕ)
    (f : FileRow) (plan : Plan F) (items : List (StagedItem F)) (w : World F S)
    → find (λ g. g.id == fid) w.pg.files ≡ some f
    → plan_file tools es f w ≡ some plan
    → stage_all tools f plan ≡ some items
    → ingest_file tools env es fid w ≡ publish_plan env es f plan items w
unfolding ingest_file
reaches_publish tools env es fid f plan items w found planned made =
    rw (ingest_file, found, planned, made) refl

pub reaches_flip :
    {F S : Type 0} (env : Env) (es : Client F S) (f : FileRow) (plan : Plan F)
    (items : List (StagedItem F)) (w : World F S)
    → pending_count (some f.id) (staged env es f plan items w).pg.outbox ≡ 0
    → publish_plan env es f plan items w
      ≡ (publish_flip env es f plan items (staged env es f plan items w), done (report f plan))
unfolding publish_plan
reaches_flip env es f plan items w idle = rw (publish_plan, idle) refl

-- Over the in-memory index, if all rows of the outbox are of the three known event types: where the
-- file is there, the services answer and the rows of the chunks and summaries can be inserted (no
-- path of headings is longer than its column), `ingest_file` ends with its report and leaves nothing
-- pending for the file, and each document is what the events pending before and the new index events
-- make of it, then hidden if a chunk or a summary of an earlier version has its id, and otherwise
-- visible if one of the new version has it.
pub ingest_file_succeeds :
    {F Block : Type 0} (tools : Tools F Block) (env : Env) (fid : ℕ) (f : FileRow) (plan : Plan F)
    (items : List (StagedItem F)) (w : World F (Store F)) (known : AllKnown w.pg.outbox)
    → find (λ g. g.id == fid) w.pg.files ≡ some f
    → plan_file tools fake_es f w ≡ some plan
    → stage_all tools f plan ≡ some items
    → let (w', e) = ingest_file tools env fake_es fid w in
      let new_ids = map (λ c. c.chunk_id) plan.chunks ++ map (λ r. r.summary.id) items in
      (e ≡ done (report f plan))
      × (pending_count (some fid) w'.pg.outbox ≡ 0)
      × ((j : ℕ)
          → lookup j w'.es ≡ (
              let o = indexed env f plan items w known j in
              if has_earlier f.id plan.target w.pg j
              then some (marked 0 o)
              else if contains new_ids j
              then some (marked 1 o)
              else o))
ingest_file_succeeds tools env fid f plan items w known found planned made =
    let named : f.id ≡ fid = find-id fid w.pg.files f found in
    let (idle, _, _) = staged_index env f plan items w known in
    let (left, _, seen) = publish_flip_index env f plan items w known in
    let olds = staged-old_ids f plan items env w (stage_all_lem tools f plan items made) in
    rw
      (
        reaches_publish tools env fake_es fid f plan items w found planned made,
        reaches_flip env fake_es f plan items w idle,
        ← named,
      )
      (refl, left, λ j. seen j ∙ rw (olds, old_ids-has_earlier f plan.target w.pg j) refl)
