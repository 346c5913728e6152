-- ===== src/Tests/Repairs.antt =====
-- A repair at a concrete input: one chunk is missing from the index and another hidden, a row of an
-- old version is visible, and so is a document without a row.
use kb_backend.Reconcile.Agreement.{is_clean}
use kb_backend.Reconcile.{
  active_chunks, active_summaries, classify, ids_of, es_get, chunks_of, summaries_of, is_shown,
}
use kb_backend.Relay.{pending_count, is_pending}
use kb_backend.Db.{SummaryRow, World, resolve_files, file_of}
use kb_backend.Es.{Doc, fake_es, empty_doc, Store, scan, fake_get, truthy}
use kb_backend.Reconcile.Repair.{reconcile, report, drift_counts, reconcile_loop, apply_repair}
use kb_backend.Reconcile.Fixed.{IsRepairable, reconcile-is_clean}
use kb_backend.Reconcile.Reported.{
  classify_lem, leaks, is_missing, has_drifted, is_hidden, is_stale,
}
use kb_backend.Ingest.Publish.Clean.{Holds}
use kb_backend.Tests.Purge.{file, chunk, world, env}
use kb_backend.Prelude.{
  ℕ, String, ◌≡◌, refl, true, false, not, ◌&&◌, ◌||◌, Option, none, some, List, [], ◌∷◌, map, arith,
  ◌==◌, length, any, contains,
}

abbrev shown : ℕ → Doc ℕ
shown version = record empty_doc {
  file_id_kwd = some 7;
  tenant_id_kwd = some 1;
  chunk_version_int = some version;
  available_int = some 1;
}

abbrev summary : SummaryRow ℕ
summary = record {
  id = 5;
  file_id = 7;
  tenant_id = 1;
  heading_path = "a";
  summary_text = "sum";
  source_chunk_ids = 2 ∷ [];
  coverage_ratio = 1;
  summary_version = 2;
}

abbrev drifted : World ℕ (Store ℕ)
drifted = record world {
  pg = record world.pg {
    chunks = chunk 1 1 ∷ chunk 2 2 ∷ chunk 3 2 ∷ chunk 4 2 ∷ [];
    summaries = summary ∷ [];
  };
  es =
      (1, shown 1)
      ∷ (3, record (shown 2) { available_int = some 0 })
      ∷ (4, shown 1)
      ∷ (9, shown 2)
      ∷ [];
}

abbrev embed : List String → Option (List (List ℕ))
embed texts = some (map (λ t. 1 ∷ []) texts)

same_length :
    (ts : List String) → let vecs : List (List ℕ) = map (λ t. 1 ∷ []) ts in length vecs ≡ length ts
same_length [] = refl
same_length (t ∷ ts) = ground (arith, same_length ts)

answers :
    (ts : List String) → (vecs : List (List ℕ)) × (embed ts ≡ some vecs) × (length vecs ≡ length ts)
answers ts = (map (λ t. 1 ∷ []) ts, refl, same_length ts)

drifted-IsRepairable : IsRepairable 7 1 file drifted
unfolding pending_count is_pending
drifted-IsRepairable = record { known = tt; idle = refl; texts = refl; apart = refl }

reported :
    (reconcile env fake_es scan embed 1 none true true none drifted).1
    ≡ report 1
        (record { missing = 2; version_drift = 1; avail_drift = 1; retired_leak = 1; orphan = 1 })
        ((
          7,
          record { missing = 2; version_drift = 1; avail_drift = 1; retired_leak = 1; orphan = 1 },
        )
          ∷ [])
unfolding reconcile resolve_files reconcile_loop apply_repair classify drift_counts es_get fake_get
    truthy scan is_shown file_of
reported = refl

reconcile-is_clean_example :
    let (w', answer) = reconcile env fake_es scan embed 1 (some 7) false true none drifted in
    let counts = drift_counts (classify fake_es drifted.es drifted.es 7 1 file drifted.pg) in
    (answer ≡ report 1 counts ((7, counts) ∷ []))
    × ((ds : List (ℕ × Doc ℕ))
        → Holds w'.es ds
        → is_clean (classify fake_es w'.es ds 7 1 file w'.pg) ≡ true)
reconcile-is_clean_example =
    reconcile-is_clean env embed 1 7 none file drifted answers drifted-IsRepairable refl refl

classify_lem_example :
    let cs = active_chunks file 7 1 drifted.pg in
    let xs = active_summaries file 7 1 drifted.pg in
    let all_ids = ids_of (chunks_of 7 1 drifted.pg) (summaries_of 7 1 drifted.pg) in
    let leak = leaks 7 1 (ids_of cs xs) all_ids 2 drifted.es in
    let d = classify fake_es drifted.es drifted.es 7 1 file drifted.pg in
    (contains d.missing_chunks 2 ≡ any (λ c. is_missing fake_es drifted.es c.id && (c.id == 2)) cs)
    × (contains d.version_drift_chunks 2
        ≡ any (λ c. has_drifted fake_es drifted.es (some 2) c.id && (c.id == 2)) cs)
    × (contains d.missing_summaries 2
        ≡ any (λ x. is_missing fake_es drifted.es x.id && (x.id == 2)) xs)
    × (contains d.avail_drift 2 ≡ (
        any (λ c. is_stale fake_es drifted.es (some 2) c.id && (c.id == 2)) cs
        || any (λ x. is_hidden fake_es drifted.es x.id && (x.id == 2)) xs))
    × (contains d.retired_leak 2 ≡ (leak && contains all_ids 2))
    × (contains d.orphan 2 ≡ (leak && not (contains all_ids 2)))
classify_lem_example = classify_lem fake_es drifted.es drifted.es 7 1 file drifted.pg 2
