-- ===== src/Reconcile/Reported.antt =====
-- Which ids the comparison reports.
use kb_backend.Reconcile.{
  compare_docs, es_get, compare_chunks, compare_summaries, is_shown, Drift, ChunkRow, SummaryRow,
  classify, FileRow, Pg, active_chunks, active_summaries, ids_of, chunks_of, summaries_of, no_drift,
}
use kb_backend.Es.{Client, Doc}
use kb_backend.Prelude.{
  ℕ, ◌≡◌, refl, inl, inr, Bool, false, not, ◌&&◌, ◌||◌, Option, none, some, List, [], ◌∷◌, arith,
  ◌==◌, Bool-cases, Option-cases, is_some, opt_eq, any, contains, ap, ◌∙◌,
}

module _ {F S : Type 0} (es : Client F S) (s : S) where
  -- the tests of one row
  abbrev pub is_missing : ℕ → Bool
  is_missing id = not (is_some (es_get es s id))

  abbrev pub has_drifted : Option ℕ → ℕ → Bool
  has_drifted active id = elim (es_get es s id) [
    | none ↦ false
    | some src ↦ not (opt_eq src.chunk_version_int active)
  ]

  abbrev pub is_hidden : ℕ → Bool
  is_hidden id = elim (es_get es s id) [
    | none ↦ false
    | some src ↦ not (opt_eq src.available_int (some 1))
  ]

  abbrev pub is_stale : Option ℕ → ℕ → Bool
  is_stale active id = not (has_drifted active id) && is_hidden id

module _ {F S : Type 0} (es : Client F S) (s : S) (j : ℕ) where
  -- what `compare_chunks` adds to each list
  compare_chunks_lem :
      (active : Option ℕ) (cs : List ChunkRow) (d : Drift)
      → let r = compare_chunks es s active cs d in
        (contains r.missing_chunks j
          ≡ (any (λ c. is_missing es s c.id && (c.id == j)) cs || contains d.missing_chunks j))
        × (contains r.version_drift_chunks j ≡ (
            any (λ c. has_drifted es s active c.id && (c.id == j)) cs
            || contains d.version_drift_chunks j))
        × (contains r.avail_drift j
            ≡ (any (λ c. is_stale es s active c.id && (c.id == j)) cs || contains d.avail_drift j))
        × (r.missing_summaries ≡ d.missing_summaries)
        × (r.retired_leak ≡ d.retired_leak)
        × (r.orphan ≡ d.orphan)
  unfolding compare_chunks
  compare_chunks_lem active [] d = (refl, refl, refl, refl, refl, refl)
  compare_chunks_lem active (c ∷ cs) d = elim (Option-cases (es_get es s c.id)) [
    | inl e ↦ rw (compare_chunks, e) (ground (arith, compare_chunks_lem active cs d))
    | inr (src, e) ↦ rw (compare_chunks, e) (ground (arith, compare_chunks_lem active cs d))
  ]

  compare_summaries_lem :
      (xs : List (SummaryRow F)) (d : Drift)
      → let r = compare_summaries es s xs d in
        (contains r.missing_summaries j
          ≡ (any (λ x. is_missing es s x.id && (x.id == j)) xs || contains d.missing_summaries j))
        × (contains r.avail_drift j
            ≡ (any (λ x. is_hidden es s x.id && (x.id == j)) xs || contains d.avail_drift j))
        × (r.missing_chunks ≡ d.missing_chunks)
        × (r.version_drift_chunks ≡ d.version_drift_chunks)
        × (r.retired_leak ≡ d.retired_leak)
        × (r.orphan ≡ d.orphan)
  unfolding compare_summaries
  compare_summaries_lem [] d = (refl, refl, refl, refl, refl, refl)
  compare_summaries_lem (x ∷ xs) d = elim (Option-cases (es_get es s x.id)) [
    | inl e ↦ rw (compare_summaries, e) (ground (arith, compare_summaries_lem xs d))
    | inr (src, e) ↦ rw (compare_summaries, e) (ground (arith, compare_summaries_lem xs d))
  ]

module _ {F : Type 0} (fid tenant_id : ℕ) (active_ids all_ids : List ℕ) (j : ℕ) where
  -- a shown document of the file that is not of an active row
  abbrev pub leaks : List (ℕ × Doc F) → Bool
  leaks docs =
      any
        (λ (did, src). (is_shown fid tenant_id src && not (contains active_ids did)) && (did == j))
        docs

  compare_docs_lem :
      (docs : List (ℕ × Doc F)) (d : Drift)
      → let r = compare_docs fid tenant_id active_ids all_ids docs d in
        (contains r.retired_leak j
          ≡ ((leaks docs && contains all_ids j) || contains d.retired_leak j))
        × (contains r.orphan j ≡ ((leaks docs && not (contains all_ids j)) || contains d.orphan j))
        × (r.missing_chunks ≡ d.missing_chunks)
        × (r.version_drift_chunks ≡ d.version_drift_chunks)
        × (r.missing_summaries ≡ d.missing_summaries)
        × (r.avail_drift ≡ d.avail_drift)
  unfolding compare_docs
  compare_docs_lem [] d = (refl, refl, refl, refl, refl, refl)
  compare_docs_lem ((did, src) ∷ docs) d =
      elim (Bool-cases (not (is_shown fid tenant_id src) || contains active_ids did)) [
        | inl e ↦ rw (compare_docs, e) (ground (arith, compare_docs_lem docs d, e))
        | inr e ↦ elim (Bool-cases (contains all_ids did)) [
          | inl a ↦ rw (compare_docs, e, a) (ground (arith, compare_docs_lem docs d, e, a))
          | inr a ↦ rw (compare_docs, e, a) (ground (arith, compare_docs_lem docs d, e, a))
        ]
      ]

or_none : {a b c : Bool} → a ≡ (b || c) → c ≡ false → a ≡ b
or_none e none_more = ground (arith, e, none_more)

seen : (j : ℕ) {xs ys : List ℕ} → xs ≡ ys → contains xs j ≡ contains ys j
seen j e = ap (λ l. contains l j) e

-- The comparison reports an id exactly where it should: as missing, if it is of an active row and the
-- index has no document for it; as a version drift, if it is of an active chunk and the document has
-- another version; as hidden, if the document is there, of the active version if it is of a chunk,
-- and not visible; as a leak, if a document of the file is visible under it and no active row has it,
-- to hide if some row has it and to delete otherwise.
pub classify_lem :
    {F S : Type 0} (es : Client F S) (s : S) (docs : List (ℕ × Doc F)) (fid tenant_id : ℕ)
    (f : FileRow) (pg : Pg F) (j : ℕ)
    → let cs = active_chunks f fid tenant_id pg in
      let xs = active_summaries f fid tenant_id pg in
      let all_ids = ids_of (chunks_of fid tenant_id pg) (summaries_of fid tenant_id pg) in
      let active = f.active_chunk_version in
      let leak = leaks fid tenant_id (ids_of cs xs) all_ids j docs in
      let d = classify es s docs fid tenant_id f pg in
      (contains d.missing_chunks j ≡ any (λ c. is_missing es s c.id && (c.id == j)) cs)
      × (contains d.version_drift_chunks j
          ≡ any (λ c. has_drifted es s active c.id && (c.id == j)) cs)
      × (contains d.missing_summaries j ≡ any (λ x. is_missing es s x.id && (x.id == j)) xs)
      × (contains d.avail_drift j ≡ (
          any (λ c. is_stale es s active c.id && (c.id == j)) cs
          || any (λ x. is_hidden es s x.id && (x.id == j)) xs))
      × (contains d.retired_leak j ≡ (leak && contains all_ids j))
      × (contains d.orphan j ≡ (leak && not (contains all_ids j)))
unfolding classify
classify_lem es s docs fid t f pg j =
    let cs = active_chunks f fid t pg in
    let xs = active_summaries f fid t pg in
    let all_ids = ids_of (chunks_of fid t pg) (summaries_of fid t pg) in
    let shown = compare_docs fid t (ids_of cs xs) all_ids docs no_drift in
    let (m, v, a, ms, r, o) =
      compare_chunks_lem es s j f.active_chunk_version cs (compare_summaries es s xs shown) in
    let (m', a', mc', v', r', o') = compare_summaries_lem es s j xs shown in
    let (r'', o'', mc'', v'', ms'', a'') =
      compare_docs_lem fid t (ids_of cs xs) all_ids j docs no_drift in
    (
      or_none m (seen j (mc' ∙ mc'')),
      or_none v (seen j (v' ∙ v'')),
      seen j ms ∙ or_none m' (seen j ms''),
      a
          ∙ ap (λ b. any (λ c. is_stale es s f.active_chunk_version c.id && (c.id == j)) cs || b)
              (or_none a' (seen j a'')),
      seen j (r ∙ r') ∙ or_none r'' refl,
      seen j (o ∙ o') ∙ or_none o'' refl,
    )
