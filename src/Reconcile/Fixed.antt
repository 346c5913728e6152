-- ===== src/Reconcile/Fixed.antt =====
-- `reconcile` of one file in the mode that repairs.
use kb_backend.Reconcile.Repair.{
  raised, file_not_found, report, answer_of, ReconcileResult, DriftCounts, apply_repair, reconcile,
  reconcile_loop, add_counts, repair_file, drift_counts, no_counts, send,
}
use kb_backend.Reconcile.Repaired.{send_index, send-rows}
use kb_backend.Reconcile.Converged.{settled-is_clean}
use kb_backend.Reconcile.Sent.{republish_lem}
use kb_backend.Reconcile.Converges.{chunk_ids, summary_ids, reports}
use kb_backend.Reconcile.Agreement.{is_clean}
use kb_backend.Ingest.Publish.Clean.{Holds}
use kb_backend.Ingest.Publish.Agrees.{disjoint}
use kb_backend.Prelude.Text.{is_text}
use kb_backend.Relay.{pending_count}
use kb_backend.Reconcile.{Drift, classify, active_summaries, active_chunks}
use kb_backend.Relay.Drain.{AllKnown}
use kb_backend.Es.{Store, fake_es, Doc, scan, Client}
use kb_backend.Db.{FileRow, file_of, Env, World, resolve_files}
use kb_backend.Prelude.{
  none, ℕ, String, ◌≡◌, refl, sym, ◌∙◌, Bool, true, false, Option, some, List, [], ◌∷◌, ◌++◌, map,
  arith, ◌==◌, ==_refl, length, all, contains, find, ◌||◌, not, is_some, Option-cases, inl, inr,
}

-- A file whose documents can be restored: its outbox events are published, all events are known, its
-- active summaries have texts, and no active chunk has the id of an active summary.
pub record IsRepairable {F : Type 0} (fid t : ℕ) (f : FileRow) (w : World F (Store F))
    : Type 0 where
  pub known : AllKnown w.pg.outbox
  pub idle : pending_count (some fid) w.pg.outbox ≡ 0
  pub texts : all (λ x. is_text x.summary_text) (active_summaries f fid t w.pg) ≡ true
  pub apart :
      disjoint
        (map (λ c. c.id) (active_chunks f fid t w.pg))
        (map (λ x. x.id) (active_summaries f fid t w.pg))
      ≡ true

all_own :
    (p : ℕ → Bool) (ids : List ℕ)
    → ((j : ℕ) → contains ids j ≡ true → p j ≡ true)
    → all p ids ≡ true
all_own p [] h = refl
all_own p (i ∷ is) h =
    let here : p i ≡ true = h i (ground (arith, ==_refl i)) in
    rw (here, all_own p is (λ j k. h j (ground (arith, k)))) refl

add_none : (c : DriftCounts) → add_counts no_counts c ≡ c
add_none c = ground arith

file_found :
    (fid t : ℕ) (fs : List FileRow) (f : FileRow)
    → find (λ g. g.id == fid) fs ≡ some f
    → (f.tenant_id == t) ≡ true
    → file_of fs fid t ≡ some f
unfolding file_of
file_found fid t [] f h k = absurd (ground (arith, h))
file_found fid t (g ∷ gs) f h k = ground (arith, h, k, file_found fid t gs f)

module _ {F : Type 0} (env : Env) (embed_batch : List String → Option (List (List F)))
    (answers : (ts : List String)
      → (vecs : List (List F)) × (embed_batch ts ≡ some vecs) × (length vecs ≡ length ts))
    (t fid : ℕ) (user_id : Option ℕ) (f : FileRow) (w : World F (Store F))
    (ready : IsRepairable fid t f w) where
  abbrev before : Drift
  before = classify fake_es w.es w.es fid t f w.pg

  repairs :
      (w' : World F (Store F)) × (apply_repair env fake_es embed_batch t user_id false true fid f
          before w
        ≡ some w')
      × ((ds : List (ℕ × Doc F))
          → Holds w'.es ds
          → is_clean (classify fake_es w'.es ds fid t f w'.pg) ≡ true)
  unfolding apply_repair repair_file
  repairs =
      let lost : all (contains (chunk_ids fid t f w.pg w.es))
            (before.missing_chunks ++ before.version_drift_chunks)
          ≡ true =
        all_own (contains (chunk_ids fid t f w.pg w.es))
          (before.missing_chunks ++ before.version_drift_chunks)
          (λ j h. ground (arith, sym h ∙ (reports fid t f w.pg w.es j).lost)) in
      let lost' : all (contains (summary_ids fid t f w.pg w.es)) before.missing_summaries ≡ true =
        all_own (contains (summary_ids fid t f w.pg w.es)) before.missing_summaries
          (λ j h. ground (arith, sym h ∙ (reports fid t f w.pg w.es j).lost_summary)) in
      let (same, same') =
        send-rows env fid t user_id before
          (republish_lem embed_batch answers fid t f w.pg before lost lost' ready.texts).0 w in
      let (again, e, resent) =
        republish_lem embed_batch answers fid t f w.pg before lost lost' ready.texts in
      let w' = send env fake_es fid t user_id before again w in
      (
        w',
        rw e refl,
        λ ds held.
            settled-is_clean fid t f w.pg w.es w'.es again resent ready.apart
              (send_index env fid t user_id before again w ready.known ready.idle) w'.pg ds same
              same' held,
      )

  module _ (w' : World F (Store F))
      (repaired : apply_repair env fake_es embed_batch t user_id false true fid f before w
        ≡ some w')
      (there : find (λ g. g.id == fid) w.pg.files ≡ some f) (own : (f.tenant_id == t) ≡ true) where
    abbrev counts : DriftCounts
    counts = drift_counts before

    resolve_one : resolve_files w.pg.files t (some fid) ≡ some (fid ∷ [])
    unfolding resolve_files
    resolve_one = ground (arith, there, own)

    loop_one :
        reconcile_loop env fake_es scan embed_batch t user_id false true (fid ∷ []) no_counts [] w
        ≡ (w', some (counts, (fid, counts) ∷ []))
    unfolding reconcile_loop scan
    loop_one =
        rw (reconcile_loop, file_found fid t w.pg.files f there own, repaired)
          (rw (add_none counts) refl)

    reconcile_one :
        reconcile env fake_es scan embed_batch t (some fid) false true user_id w
        ≡ (w', report 1 counts ((fid, counts) ∷ []))
    unfolding reconcile
    reconcile_one = rw (reconcile, resolve_one, loop_one) refl

-- Over the in-memory index: if a file of the tenant is repairable (its outbox events are published and
-- known, its active summaries have texts, and no active chunk has the id of an active summary) and the
-- embedder gives one vector for each text, then `reconcile` of the file in the mode that repairs
-- reports what the comparison found, and the next comparison, with any list of documents that the
-- index then holds, reports nothing.
pub reconcile-is_clean :
    {F : Type 0} (env : Env) (embed_batch : List String → Option (List (List F))) (t fid : ℕ)
    (user_id : Option ℕ) (f : FileRow) (w : World F (Store F))
    → ((ts : List String)
        → (vecs : List (List F)) × (embed_batch ts ≡ some vecs) × (length vecs ≡ length ts))
    → IsRepairable fid t f w
    → find (λ g. g.id == fid) w.pg.files ≡ some f
    → (f.tenant_id == t) ≡ true
    → let (w', answer) = reconcile env fake_es scan embed_batch t (some fid) false true user_id w in
      let counts = drift_counts (classify fake_es w.es w.es fid t f w.pg) in
      (answer ≡ report 1 counts ((fid, counts) ∷ []))
      × ((ds : List (ℕ × Doc F))
          → Holds w'.es ds
          → is_clean (classify fake_es w'.es ds fid t f w'.pg) ≡ true)
reconcile-is_clean env embed_batch t fid user_id f w answers ready there own =
    let (w', e, clean) = repairs env embed_batch answers t fid user_id f w ready in
    rw (reconcile_one env embed_batch answers t fid user_id f w ready w' e there own) (refl, clean)

abbrev pub is_raised : ReconcileResult → Bool
is_raised raised = true
is_raised file_not_found = false
is_raised (report n agg details) = false

not_raised :
    (n : ℕ) (result : Option (DriftCounts × List (ℕ × DriftCounts)))
    → is_some result ≡ true
    → is_raised (answer_of n result) ≡ false
not_raised n none h = ground (arith, h)
not_raised n (some (agg, details)) h = refl

module _ {F S : Type 0} (env : Env) (es : Client F S) (scan_all : S → List (ℕ × Doc F))
    (embed_batch : List String → Option (List (List F))) (t : ℕ) (user_id : Option ℕ)
    (dry_run repair : Bool) (reads : (dry_run || not repair) ≡ true) (w : World F S) where
  loop_reads :
      (fids : List ℕ) (agg : DriftCounts) (details : List (ℕ × DriftCounts))
      → let (w', result) =
          reconcile_loop env es scan_all embed_batch t user_id dry_run repair fids agg details w in
        (w' ≡ w) × (is_some result ≡ true)
  unfolding reconcile_loop apply_repair
  loop_reads [] agg details = (refl, refl)
  loop_reads (fid ∷ fids) agg details = elim (Option-cases (file_of w.pg.files fid t)) [
    | inl e ↦ rw (reconcile_loop, e) (loop_reads fids agg details)
    | inr (f, e) ↦ rw (reconcile_loop, e, reads) (loop_reads fids _ _)
  ]

  -- A dry run, and a run that is not to repair, changes neither the tables nor the index and no
  -- error of the embedder ends it, whatever the index answers.
  pub reconcile_reads :
      (file_id : Option ℕ)
      → let (w', answer) =
          reconcile env es scan_all embed_batch t file_id dry_run repair user_id w in
        (w' ≡ w) × (is_raised answer ≡ false)
  unfolding reconcile
  reconcile_reads file_id = elim (Option-cases (resolve_files w.pg.files t file_id)) [
    | inl e ↦ rw (reconcile, e) (refl, refl)
    | inr (fids, e) ↦
        let (same, answered) = loop_reads fids no_counts [] in
        rw (reconcile, e) (same, not_raised (length fids) _ answered)
  ]
