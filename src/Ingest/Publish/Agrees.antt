-- ===== src/Ingest/Publish/Agrees.antt =====
-- A file that was just ingested, seen by the reconciliation.
use kb_backend.Relay.Emitted.{none_pending}
use kb_backend.Relay.Drain.{AllKnown, pending_events}
use kb_backend.Reconcile.Agreement.{chunk_agrees, summary_agrees}
use kb_backend.Reconcile.{es_get}
use kb_backend.Prelude.{
  ℕ, ◌≡◌, refl, inl, inr, Bool, true, false, not, ◌&&◌, ◌||◌, Option, none, some, List, [], ◌∷◌,
  map, arith, ltb, ◌==◌, if◌then◌else◌, Bool-cases, opt_eq, any, all, contains, lookup, ==_iff, ◌∙◌,
  ◌++◌, all-append, any-append, sym, contains-append,
}
use kb_backend.Es.{Doc, Store, fake_get, fake_es, truthy}
use kb_backend.Relay.Effects.{effects, marked}
use kb_backend.Db.{FileRow, ChunkRow, SummaryRow, Env, World}
use kb_backend.Ingest.Diff.{NewChunk}
use kb_backend.Ingest.Sources.{chunk_source}
use kb_backend.Ingest.Build.Vectors.{firsts}
use kb_backend.Ingest.Stage.{StagedItem, summary_docs, chunk_row, chunk_docs}
use kb_backend.Ingest.Publish.{flip_chunks, Plan, pending_count}
use kb_backend.Ingest.Publish.Indexed.{indexes, indexed, flipped}

module _ {F : Type 0} (q : Doc F → Bool) (j : ℕ) where
  -- the document is there, and passes the test
  abbrev pub holds : Option (Doc F) → Bool
  holds none = false
  holds (some d) = q d

  -- the document is not to be indexed at `j`, or passes the test
  abbrev pub fits_test : ℕ × Doc F → Bool
  fits_test (k, d) = not (k == j) || q d

module _ {F : Type 0} (j : ℕ) where
  abbrev pub is_at : ℕ × Doc F → Bool
  is_at (k, d) = k == j

  pub holds-indexes :
      (q : Doc F → Bool) (ds : List (ℕ × Doc F)) (o : Option (Doc F))
      → all (fits_test q j) ds ≡ true
      → (holds q j o || any is_at ds) ≡ true
      → holds q j (effects (indexes ds) j o) ≡ true
  holds-indexes q [] o h k = ground (arith, k)
  holds-indexes q ((i, d) ∷ ds) o h k =
      holds-indexes q ds (if i == j then some d else o) (ground (arith, h))
        (elim (Bool-cases (i == j)) [
          | inl e ↦ rw e (ground (arith, e, h))
          | inr e ↦ rw e (ground (arith, e, k))
        ])

  pub indexes_others :
      (ds : List (ℕ × Doc F)) (o : Option (Doc F))
      → any is_at ds ≡ false
      → effects (indexes ds) j o ≡ o
  indexes_others [] o h = refl
  indexes_others ((i, d) ∷ ds) o h = ground (arith, h, indexes_others ds o)

  pub absent-fits :
      (q : Doc F → Bool) (ds : List (ℕ × Doc F))
      → any is_at ds ≡ false
      → all (fits_test q j) ds ≡ true
  absent-fits q [] h = refl
  absent-fits q ((i, d) ∷ ds) h = ground (arith, h, absent-fits q ds)

module _ {F : Type 0} (t j : ℕ) where
  -- the document is there, of this chunk version
  abbrev is_version : Doc F → Bool
  is_version d = opt_eq d.chunk_version_int (some t)

  abbrev pub versioned : Option (Doc F) → Bool
  versioned o = holds is_version j o

  -- the document is not to be indexed at `j`, or is of this version
  abbrev fits : ℕ × Doc F → Bool
  fits d = fits_test is_version j d

  chunk_docs-fits :
      (f : FileRow) (xs : List (NewChunk × Option (List F)))
      → all fits (map (λ (c, vec). (c.chunk_id, chunk_source c vec f.id f.tenant_id t)) xs) ≡ true
  unfolding chunk_source
  chunk_docs-fits f [] = refl
  chunk_docs-fits f ((c, vec) ∷ xs) = ground (arith, chunk_docs-fits f xs)

  chunk_docs-keys :
      (f : FileRow) (xs : List (NewChunk × Option (List F)))
      → any (is_at j) (map (λ (c, vec). (c.chunk_id, chunk_source c vec f.id f.tenant_id t)) xs)
        ≡ contains (map (λ c. c.chunk_id) (firsts xs)) j
  chunk_docs-keys f [] = refl
  chunk_docs-keys f ((c, vec) ∷ xs) = ground (arith, chunk_docs-keys f xs)

  summary_docs-keys :
      (items : List (StagedItem F))
      → any (is_at j) (summary_docs items) ≡ contains (map (λ r. r.summary.id) items) j
  unfolding summary_docs
  summary_docs-keys [] = refl
  summary_docs-keys (r ∷ rs) = ground (arith, summary_docs-keys rs)

-- The rows of the chunks of a file after its flip.
module _ (f : FileRow) (target : ℕ) where
  -- a row of the active version has one of the ids
  abbrev pub row_listed : List ℕ → ChunkRow → Bool
  row_listed ids c = not ((c.file_id == f.id) && (c.chunk_version == target)) || contains ids c.id

  pub flip-row_listed :
      (ids : List ℕ) (cs : List ChunkRow)
      → all (row_listed ids) cs ≡ true
      → all (row_listed ids) (flip_chunks f target cs) ≡ true
  unfolding flip_chunks
  flip-row_listed ids [] h = refl
  flip-row_listed ids (c ∷ cs) h = ground (arith, h, flip-row_listed ids cs)

  pub earlier_rows :
      (ids : List ℕ) (cs : List ChunkRow)
      → all (λ c. not (c.file_id == f.id) || ltb c.chunk_version target) cs ≡ true
      → all (row_listed ids) cs ≡ true
  earlier_rows ids [] h = refl
  earlier_rows ids (c ∷ cs) h = ground (arith, h, earlier_rows ids cs)

  pub new_rows :
      (ids : List ℕ) (cs : List NewChunk)
      → all (λ c. contains ids c.chunk_id) cs ≡ true
      → all (row_listed ids) (map (chunk_row f target) cs) ≡ true
  unfolding chunk_row
  new_rows ids [] h = refl
  new_rows ids (c ∷ cs) h = ground (arith, h, new_rows ids cs)

  -- the new rows are among the active ones
  abbrev pub is_active_row : ChunkRow → Bool
  is_active_row c =
      ((c.file_id == f.id) && (c.tenant_id == f.tenant_id))
      && opt_eq (some c.chunk_version) (some target)

  pub flip-active_ids :
      (j : ℕ) (cs : List ChunkRow)
      → any (λ c. is_active_row c && (c.id == j)) (flip_chunks f target cs)
        ≡ any (λ c. is_active_row c && (c.id == j)) cs
  unfolding flip_chunks
  flip-active_ids j [] = refl
  flip-active_ids j (c ∷ cs) = ground (arith, flip-active_ids j cs)

  pub new_ids_active :
      (j : ℕ) (cs : List NewChunk)
      → contains (map (λ c. c.chunk_id) cs) j ≡ true
      → any (λ c. is_active_row c && (c.id == j)) (map (chunk_row f target) cs) ≡ true
  unfolding chunk_row
  new_ids_active j [] h = absurd (ground (arith, h))
  new_ids_active j (c ∷ cs) h = ground (arith, h, new_ids_active j cs)

module _ {F : Type 0} (docs : Store F) where
  visible_doc :
      (id : ℕ) (o : Option (Doc F))
      → lookup id docs ≡ some (marked 1 o)
      → es_get fake_es docs id ≡ some (marked 1 o)
  unfolding es_get fake_get
  visible_doc id o h = rw (es_get, fake_get, h) (unfold truthy marked in refl)

  pub chunk_ok :
      (t : ℕ) (c : ChunkRow) (o : Option (Doc F))
      → lookup c.id docs ≡ some (marked 1 o)
      → versioned t c.id o ≡ true
      → chunk_agrees fake_es docs (some t) c ≡ true
  unfolding marked
  chunk_ok t c none h v = absurd (ground (arith, v))
  chunk_ok t c (some d) h v = rw (chunk_agrees, visible_doc c.id (some d) h) (ground (arith, v))

  pub summary_ok :
      (x : SummaryRow F) (o : Option (Doc F))
      → lookup x.id docs ≡ some (marked 1 o)
      → summary_agrees fake_es docs x ≡ true
  unfolding marked
  summary_ok x o h = rw (summary_agrees, visible_doc x.id o h) refl

-- no id of one list is in the other
abbrev pub disjoint : List ℕ → List ℕ → Bool
disjoint xs ys = not (any (contains ys) xs)

pub disjoint_lem :
    (xs ys : List ℕ) (j : ℕ) → disjoint xs ys ≡ true → contains xs j ≡ true → contains ys j ≡ false
disjoint_lem [] ys j h k = absurd (ground (arith, k))
disjoint_lem (x ∷ xs) ys j h k = elim (Bool-cases (x == j)) [
  | inl e ↦ let same : x ≡ j = (==_iff x j).0 e in rw (← same) (ground (arith, h))
  | inr e ↦ disjoint_lem xs ys j (ground (arith, h)) (ground (arith, e, k))
]

module _ {F : Type 0} (env : Env) (f : FileRow) (plan : Plan F) (items : List (StagedItem F))
    (w : World F (Store F)) (known : AllKnown w.pg.outbox) where
  abbrev chunk_ids : List ℕ
  chunk_ids = map (λ c. c.chunk_id) plan.chunks

  abbrev summary_ids : List ℕ
  summary_ids = map (λ r. r.summary.id) items

  -- a chunk's document has the version
  pub chunk_versioned :
      (j : ℕ)
      → firsts plan.sources.chunks ≡ plan.chunks
      → disjoint chunk_ids summary_ids ≡ true
      → contains chunk_ids j ≡ true
      → versioned plan.target j (indexed env f plan items w known j) ≡ true
  unfolding chunk_docs
  chunk_versioned j same apart own =
      let t = plan.target in
      let other = disjoint_lem chunk_ids summary_ids j apart own in
      let absent = summary_docs-keys t j items ∙ other in
      let o = effects (pending_events (some f.id) w.pg.outbox) j (lookup j w.es) in
      let present : any (is_at j) (chunk_docs f plan) ≡ true =
        chunk_docs-keys t j f plan.sources.chunks ∙ rw same own in
      holds-indexes j (is_version t j) (chunk_docs f plan ++ summary_docs items) o
        (all-append (fits t j) (chunk_docs f plan) (summary_docs items)
          (chunk_docs-fits t j f plan.sources.chunks)
          (absent-fits j (is_version t j) (summary_docs items) absent))
        (rw (any-append (is_at j) (chunk_docs f plan) (summary_docs items), present) (ground arith))

  -- nothing is indexed under an id that is not new
  pub other_unchanged :
      (j : ℕ)
      → firsts plan.sources.chunks ≡ plan.chunks
      → pending_count (some f.id) w.pg.outbox ≡ 0
      → contains (chunk_ids ++ summary_ids) j ≡ false
      → indexed env f plan items w known j ≡ lookup j w.es
  unfolding chunk_docs
  other_unchanged j same quiet other =
      let t = plan.target in
      let o = effects (pending_events (some f.id) w.pg.outbox) j (lookup j w.es) in
      let of_chunks : any (is_at j) (chunk_docs f plan) ≡ contains chunk_ids j =
        chunk_docs-keys t j f plan.sources.chunks ∙ rw same refl in
      let absent : any (is_at j) (chunk_docs f plan ++ summary_docs items) ≡ false =
        any-append (is_at j) (chunk_docs f plan) (summary_docs items)
        ∙ rw (of_chunks, summary_docs-keys t j items)
            (sym (contains-append chunk_ids summary_ids j) ∙ other) in
      indexes_others j (chunk_docs f plan ++ summary_docs items) o absent
      ∙ rw (none_pending (some f.id) w.pg.outbox quiet) refl

  -- the document of a new id is visible
  pub new_visible :
      (olds : List ℕ) (j : ℕ)
      → disjoint (chunk_ids ++ summary_ids) olds ≡ true
      → contains (chunk_ids ++ summary_ids) j ≡ true
      → flipped (chunk_ids ++ summary_ids) olds j (indexed env f plan items w known j)
        ≡ some (marked 1 (indexed env f plan items w known j))
  new_visible olds j apart own =
      let kept = disjoint_lem (chunk_ids ++ summary_ids) olds j apart own in rw (kept, own) refl
