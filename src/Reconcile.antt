-- ===== src/Reconcile.antt =====
-- app/indexing/reconcile.py: the comparison of the tables of a file with the index.
pub mod Agreement
pub mod Repair
pub mod Reported
pub mod Sent
pub mod Repaired
pub mod Converges
pub mod Converged
pub mod Fixed
use kb_backend.Prelude.{
  ℕ, Bool, true, false, not, ◌&&◌, ◌||◌, Option, none, some, List, [], ◌∷◌, map, ◌==◌,
  if◌then◌else◌, opt_eq, filter, contains, ◌++◌,
}
use kb_backend.Es.{Doc, Client, truthy}
use kb_backend.Db.{ChunkRow, SummaryRow, FileRow, Pg}

-- The lists that `_classify` returns.
pub record Drift : Type 0 where
  pub missing_chunks : List ℕ
  pub version_drift_chunks : List ℕ
  pub missing_summaries : List ℕ
  pub avail_drift : List ℕ
  pub retired_leak : List ℕ
  pub orphan : List ℕ

abbrev pub no_drift : Drift
no_drift = record {
  missing_chunks = [];
  version_drift_chunks = [];
  missing_summaries = [];
  avail_drift = [];
  retired_leak = [];
  orphan = [];
}

module _ {F S : Type 0} (es : Client F S) (s : S) where
  -- `_es_get`: an empty source counts as missing, as does a call that raises
  unfoldable pub es_get : ℕ → Option (Doc F)
  es_get id = elim (es.get id s) [ none ↦ none | some d ↦ if truthy d then some d else none ]

  -- the loop over the active chunks
  unfoldable pub compare_chunks : Option ℕ → List ChunkRow → Drift → Drift
  unfolding es_get
  compare_chunks active [] d = d
  compare_chunks active (c ∷ cs) d =
      let rest = compare_chunks active cs d in
      elim (es_get c.id) [
        | none ↦ record rest { missing_chunks = c.id ∷ rest.missing_chunks }
        | some src ↦
            if not (opt_eq src.chunk_version_int active)
            then record rest { version_drift_chunks = c.id ∷ rest.version_drift_chunks }
            else if not (opt_eq src.available_int (some 1))
            then record rest { avail_drift = c.id ∷ rest.avail_drift }
            else rest
      ]

  -- the loop over the active summaries
  unfoldable pub compare_summaries : List (SummaryRow F) → Drift → Drift
  unfolding es_get
  compare_summaries [] d = d
  compare_summaries (x ∷ xs) d =
      let rest = compare_summaries xs d in
      elim (es_get x.id) [
        | none ↦ record rest { missing_summaries = x.id ∷ rest.missing_summaries }
        | some src ↦
            if not (opt_eq src.available_int (some 1))
            then record rest { avail_drift = x.id ∷ rest.avail_drift }
            else rest
      ]

module _ {F : Type 0} where
  -- the tests that a scanned document passes to be looked at: it is of the file, and visible
  unfoldable pub is_shown : ℕ → ℕ → Doc F → Bool
  is_shown fid tenant_id src =
      opt_eq src.tenant_id_kwd (some tenant_id)
      && opt_eq src.file_id_kwd (some fid)
      && opt_eq src.available_int (some 1)

  -- the loop over the documents that the scan gives
  unfoldable pub compare_docs : ℕ → ℕ → List ℕ → List ℕ → List (ℕ × Doc F) → Drift → Drift
  unfolding is_shown
  compare_docs fid tenant_id active_ids all_ids [] d = d
  compare_docs fid tenant_id active_ids all_ids ((did, src) ∷ docs) d =
      let rest = compare_docs fid tenant_id active_ids all_ids docs d in
      if not (is_shown fid tenant_id src) || contains active_ids did
      then rest
      else if contains all_ids did
      then record rest { retired_leak = did ∷ rest.retired_leak }
      else record rest { orphan = did ∷ rest.orphan }

  -- the rows of the file in `_load_pg`
  abbrev pub chunks_of : ℕ → ℕ → Pg F → List ChunkRow
  chunks_of fid tenant_id pg =
      filter (λ c. (c.file_id == fid) && (c.tenant_id == tenant_id)) pg.chunks

  abbrev pub summaries_of : ℕ → ℕ → Pg F → List (SummaryRow F)
  summaries_of fid tenant_id pg =
      filter (λ x. (x.file_id == fid) && (x.tenant_id == tenant_id)) pg.summaries

  abbrev pub active_chunks : FileRow → ℕ → ℕ → Pg F → List ChunkRow
  active_chunks f fid tenant_id pg =
      filter (λ c. opt_eq (some c.chunk_version) f.active_chunk_version)
        (chunks_of fid tenant_id pg)

  abbrev pub active_summaries : FileRow → ℕ → ℕ → Pg F → List (SummaryRow F)
  active_summaries f fid tenant_id pg =
      filter (λ x. opt_eq (some x.summary_version) f.active_summary_version)
        (summaries_of fid tenant_id pg)

  abbrev pub ids_of : List ChunkRow → List (SummaryRow F) → List ℕ
  ids_of cs xs = map (λ c. c.id) cs ++ map (λ x. x.id) xs

-- `_classify`; `docs` is what `scan_all` gives
unfoldable pub classify :
    {F S : Type 0} → Client F S → S → List (ℕ × Doc F) → ℕ → ℕ → FileRow → Pg F → Drift
unfolding compare_chunks compare_summaries compare_docs
classify es s docs fid tenant_id f pg =
    let cs = active_chunks f fid tenant_id pg in
    let xs = active_summaries f fid tenant_id pg in
    let all_ids = ids_of (chunks_of fid tenant_id pg) (summaries_of fid tenant_id pg) in
    let leaks = compare_docs fid tenant_id (ids_of cs xs) all_ids docs no_drift in
    compare_chunks es s f.active_chunk_version cs (compare_summaries es s xs leaks)
