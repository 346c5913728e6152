-- ===== src/Reconcile/Agreement.antt =====
-- When the comparison finds nothing.
use kb_backend.Prelude.{
  ℕ, ◌≡◌, refl, ◌∙◌, inl, inr, Bool, true, false, not, ◌&&◌, ◌||◌, Option, none, some, List, [],
  ◌∷◌, arith, Option-cases, opt_eq, all, contains, Bool-cases,
}
use kb_backend.Es.{Doc, Client}
use kb_backend.Db.{ChunkRow, SummaryRow, FileRow, Pg}
use kb_backend.Reconcile.{
  Drift, no_drift, es_get, compare_chunks, compare_summaries, compare_docs, is_shown, active_chunks,
  active_summaries, chunks_of, summaries_of, ids_of, classify,
}

abbrev empty : List ℕ → Bool
empty [] = true
empty (x ∷ xs) = false

-- Nothing is reported.
abbrev pub is_clean : Drift → Bool
is_clean d =
    empty d.missing_chunks
    && empty d.version_drift_chunks
    && empty d.missing_summaries
    && empty d.avail_drift
    && empty d.retired_leak
    && empty d.orphan

module _ {F S : Type 0} (es : Client F S) (s : S) where
  -- The index has the row's document, visible and of the active version.
  abbrev pub chunk_agrees : Option ℕ → ChunkRow → Bool
  chunk_agrees active c = elim (es_get es s c.id) [
    | none ↦ false
    | some src ↦ opt_eq src.chunk_version_int active && opt_eq src.available_int (some 1)
  ]

  abbrev pub summary_agrees : SummaryRow F → Bool
  summary_agrees x = elim (es_get es s x.id) [
    | none ↦ false
    | some src ↦ opt_eq src.available_int (some 1)
  ]

  is_clean-compare_chunks :
      (active : Option ℕ) (cs : List ChunkRow) (d : Drift)
      → is_clean (compare_chunks es s active cs d) ≡ (all (chunk_agrees active) cs && is_clean d)
  unfolding compare_chunks
  is_clean-compare_chunks active [] d = refl
  is_clean-compare_chunks active (c ∷ cs) d = elim (Option-cases (es_get es s c.id)) [
    | inl e ↦ rw (compare_chunks, e) (ground arith)
    | inr (src, e) ↦ rw (compare_chunks, e) (ground (arith, is_clean-compare_chunks active cs d))
  ]

  is_clean-compare_summaries :
      (xs : List (SummaryRow F)) (d : Drift)
      → is_clean (compare_summaries es s xs d) ≡ (all summary_agrees xs && is_clean d)
  unfolding compare_summaries
  is_clean-compare_summaries [] d = refl
  is_clean-compare_summaries (x ∷ xs) d = elim (Option-cases (es_get es s x.id)) [
    | inl e ↦ rw (compare_summaries, e) (ground arith)
    | inr (src, e) ↦ rw (compare_summaries, e) (ground (arith, is_clean-compare_summaries xs d))
  ]

retired_reported :
    (id : ℕ) (d : Drift) → is_clean (record d { retired_leak = id ∷ d.retired_leak }) ≡ false
retired_reported id d = ground arith

orphan_reported : (id : ℕ) (d : Drift) → is_clean (record d { orphan = id ∷ d.orphan }) ≡ false
orphan_reported id d = ground arith

module _ {F : Type 0} where
  is_clean-compare_docs :
      (fid tenant_id : ℕ) (active_ids all_ids : List ℕ) (docs : List (ℕ × Doc F)) (d : Drift)
      → is_clean (compare_docs fid tenant_id active_ids all_ids docs d) ≡ (
          all (λ (did, src). not (is_shown fid tenant_id src) || contains active_ids did) docs
          && is_clean d)
  unfolding compare_docs
  is_clean-compare_docs fid t active_ids all_ids [] d = refl
  is_clean-compare_docs fid t active_ids all_ids ((did, src) ∷ docs) d =
      let rest = compare_docs fid t active_ids all_ids docs d in
      let later = is_clean-compare_docs fid t active_ids all_ids docs d in
      elim (Bool-cases (not (is_shown fid t src) || contains active_ids did)) [
        | inl e ↦ rw (compare_docs, e) later
        | inr e ↦ elim (Bool-cases (contains all_ids did)) [
          | inl a ↦ rw (compare_docs, e, a) (retired_reported did rest)
          | inr a ↦ rw (compare_docs, e, a) (orphan_reported did rest)
        ]
      ]

-- The comparison reports nothing exactly if the index agrees with the tables: it has the document of
-- each active chunk, visible and of the active version, and of each active summary, visible, and it
-- shows no other document of the file.
pub is_clean-classify :
    {F S : Type 0} (es : Client F S) (s : S) (docs : List (ℕ × Doc F)) (fid tenant_id : ℕ)
    (f : FileRow) (pg : Pg F)
    → let cs = active_chunks f fid tenant_id pg in
      let xs = active_summaries f fid tenant_id pg in
      is_clean (classify es s docs fid tenant_id f pg) ≡ (
        all (chunk_agrees es s f.active_chunk_version) cs
        && all (summary_agrees es s) xs
        && all (λ (did, src). not (is_shown fid tenant_id src) || contains (ids_of cs xs) did) docs)
unfolding classify
is_clean-classify es s docs fid t f pg =
    let cs = active_chunks f fid t pg in
    let xs = active_summaries f fid t pg in
    let all_ids = ids_of (chunks_of fid t pg) (summaries_of fid t pg) in
    let leaks = compare_docs fid t (ids_of cs xs) all_ids docs no_drift in
    is_clean-compare_chunks es s f.active_chunk_version cs (compare_summaries es s xs leaks)
    ∙ rw
        (
          is_clean-compare_summaries es s xs leaks,
          is_clean-compare_docs fid t (ids_of cs xs) all_ids docs no_drift,
        )
        (ground arith)
