-- ===== src/Reconcile/Converges.antt =====
-- A repair converges: after it the comparison of the file reports nothing.
use kb_backend.Ingest.Publish.Indexed.{indexes}
use kb_backend.Reconcile.Sent.{IsResent, has_version, shows}
use kb_backend.Relay.Effects.{marked, effects}
use kb_backend.Reconcile.Repaired.{any_key, settled, found_by_get}
use kb_backend.Reconcile.{
  active_chunks, active_summaries, Drift, ids_of, classify, chunks_of, summaries_of, es_get,
}
use kb_backend.Es.{Store, fake_es, Doc}
use kb_backend.Db.{FileRow, Pg, ChunkRow, SummaryRow}
use kb_backend.Reconcile.Reported.{
  classify_lem, leaks, is_missing, has_drifted, is_hidden, is_stale,
}
use kb_backend.Ingest.Publish.Agrees.{
  holds, is_at, holds-indexes, disjoint, disjoint_lem, indexes_others,
}
use kb_backend.Prelude.{
  ℕ, ◌≡◌, refl, ◌∙◌, inl, inr, Bool, true, false, not, ◌&&◌, ◌||◌, Option, List, ◌++◌, map, arith,
  Bool-cases, Option-cases, any, contains, contains-append, lookup, some, if◌then◌else◌, none,
}

and_or : (a b c : Bool) → ((a && c) || (b && c)) ≡ ((a || b) && c)
and_or a b c = ground arith

module _ {F : Type 0} (fid t : ℕ) (f : FileRow) (pg : Pg F) (s : Store F) where
  abbrev pub chunk_ids : List ℕ
  chunk_ids = map (λ c. c.id) (active_chunks f fid t pg)

  abbrev pub summary_ids : List ℕ
  summary_ids = map (λ x. x.id) (active_summaries f fid t pg)

  abbrev pub found : Drift
  found = classify fake_es s s fid t f pg

  abbrev pub all_ids : List ℕ
  all_ids = ids_of (chunks_of fid t pg) (summaries_of fid t pg)

  abbrev pub leak : ℕ → Bool
  leak j = leaks fid t (chunk_ids ++ summary_ids) all_ids j s

  -- what is reported under an id
  pub record Reports (j : ℕ) : Type 0 where
    pub lost : contains (found.missing_chunks ++ found.version_drift_chunks) j ≡ (
        (is_missing fake_es s j || has_drifted fake_es s f.active_chunk_version j)
        && contains chunk_ids j)
    pub lost_summary :
        contains found.missing_summaries j ≡ (is_missing fake_es s j && contains summary_ids j)
    pub hidden : contains found.avail_drift j ≡ (
        (is_stale fake_es s f.active_chunk_version j && contains chunk_ids j)
        || (is_hidden fake_es s j && contains summary_ids j))
    pub retired : contains found.retired_leak j ≡ (leak j && contains all_ids j)
    pub orphan : contains found.orphan j ≡ (leak j && not (contains all_ids j))

  pub reports : (j : ℕ) → Reports j
  reports j =
      let cs = active_chunks f fid t pg in
      let xs = active_summaries f fid t pg in
      let active = f.active_chunk_version in
      let (m, v, ms, a, r, o) = classify_lem fake_es s s fid t f pg j in
      let chunk_key : ChunkRow → ℕ = λ c. c.id in
      let key : SummaryRow F → ℕ = λ x. x.id in
      let m' = m ∙ any_key chunk_key (is_missing fake_es s) j cs in
      let v' = v ∙ any_key chunk_key (has_drifted fake_es s active) j cs in
      record {
        lost =
            contains-append found.missing_chunks found.version_drift_chunks j
            ∙ rw (m', v')
                (and_or (is_missing fake_es s j) (has_drifted fake_es s active j)
                  (contains (map chunk_key cs) j));
        lost_summary = ms ∙ any_key key (is_missing fake_es s) j xs;
        hidden =
            a
            ∙ rw
                (
                  any_key chunk_key (is_stale fake_es s active) j cs,
                  any_key key (is_hidden fake_es s) j xs,
                )
                refl;
        retired = r;
        orphan = o;
      }

hidden_there :
    {F : Type 0} (s : Store F) (j : ℕ) (d : Doc F)
    → es_get fake_es s j ≡ some d
    → is_hidden fake_es s j ≡ not (shows d)
hidden_there s j d e = rw (is_hidden, e) refl

stale_there :
    {F : Type 0} (s : Store F) (j : ℕ) (active : Option ℕ) (d : Doc F)
    → es_get fake_es s j ≡ some d
    → is_stale fake_es s active j ≡ (has_version active d && not (shows d))
stale_there s j active d e = rw (e, ◌&&◌) (ground arith)

-- the last events, at a document that is of an active row
module _ {F : Type 0} (d : Drift) (active : Option ℕ) (j : ℕ) (o : Option (Doc F)) where
  pub settled-version :
      contains d.retired_leak j ≡ false
      → contains d.orphan j ≡ false
      → holds (has_version active) j o ≡ true
      → holds (has_version active) j (settled d j o) ≡ true
  unfolding marked
  settled-version r p h = ground (arith, r, p, h)

  pub settled-shows :
      contains d.retired_leak j ≡ false
      → contains d.orphan j ≡ false
      → (contains d.avail_drift j || holds shows j o) ≡ true
      → holds shows j (settled d j o) ≡ true
  unfolding marked
  settled-shows r p h = ground (arith, r, p, h)

module _ {F : Type 0} (fid t : ℕ) (f : FileRow) (pg : Pg F) (s : Store F) (again : List (ℕ × Doc F))
    (resent : (j : ℕ)
      → IsResent f.active_chunk_version
          ((found fid t f pg s).missing_chunks ++ (found fid t f pg s).version_drift_chunks)
          (found fid t f pg s).missing_summaries
          j
          again)
    (apart : disjoint (chunk_ids fid t f pg s) (summary_ids fid t f pg s) ≡ true) where
  abbrev sent_at : ℕ → Bool
  sent_at j = any (is_at j) again

  sent_lem :
      (j : ℕ)
      → sent_at j ≡ (
          ((is_missing fake_es s j || has_drifted fake_es s f.active_chunk_version j)
            && contains (chunk_ids fid t f pg s) j)
          || (is_missing fake_es s j && contains (summary_ids fid t f pg s) j))
  sent_lem j = let r = reports fid t f pg s j in (resent j).keys ∙ rw (r.lost, r.lost_summary) refl

  -- before the last events, at the id of an active chunk
  pub chunk_sent :
      (j : ℕ)
      → contains (chunk_ids fid t f pg s) j ≡ true
      → (holds (has_version f.active_chunk_version) j (effects (indexes again) j (lookup j s))
          ≡ true)
        × ((contains (found fid t f pg s).avail_drift j
              || holds shows j (effects (indexes again) j (lookup j s)))
            ≡ true)
  chunk_sent j h =
      let other = disjoint_lem (chunk_ids fid t f pg s) (summary_ids fid t f pg s) j apart h in
      let ver : Doc F → Bool = has_version f.active_chunk_version in
      let current =
        (resent j).current ((reports fid t f pg s j).lost_summary ∙ rw other (ground arith)) in
      elim (Option-cases (es_get fake_es s j)) [
        | inl e ↦
            let sent : sent_at j ≡ true = sent_lem j ∙ rw (h, e) refl in
            (
              holds-indexes j ver again (lookup j s) current (rw sent (ground arith)),
              rw
                  (holds-indexes j shows again (lookup j s) (resent j).visible
                    (rw sent (ground arith)))
                  (ground arith),
            )
        | inr (d, e) ↦
            let same = found_by_get s j d e in
            let sent : sent_at j ≡ not (ver d) = sent_lem j ∙ rw (h, e) (ground arith) in
            let avail : contains (found fid t f pg s).avail_drift j ≡ (ver d && not (shows d)) =
              (reports fid t f pg s j).hidden
              ∙ rw (stale_there s j f.active_chunk_version d e, h, other) (ground arith) in
            (
              holds-indexes j ver again (lookup j s) current (rw (same, sent) (ground arith)),
              elim (Bool-cases (ver d && not (shows d))) [
                | inl hidden ↦ rw (avail, hidden) (ground arith)
                | inr fine ↦
                    rw
                      (holds-indexes j shows again (lookup j s) (resent j).visible
                        (rw (same, sent) (ground (arith, fine))))
                      (ground arith)
              ],
            )
      ]

  -- before the last events, at the id of an active summary
  pub summary_sent :
      (j : ℕ)
      → contains (chunk_ids fid t f pg s) j ≡ false
      → contains (summary_ids fid t f pg s) j ≡ true
      → (contains (found fid t f pg s).avail_drift j
          || holds shows j (effects (indexes again) j (lookup j s)))
        ≡ true
  summary_sent j other h = elim (Option-cases (es_get fake_es s j)) [
    | inl e ↦
        let sent : sent_at j ≡ true = sent_lem j ∙ rw (h, other, e) (ground arith) in
        rw (holds-indexes j shows again (lookup j s) (resent j).visible (rw sent (ground arith)))
          (ground arith)
    | inr (d, e) ↦
        let avail : contains (found fid t f pg s).avail_drift j ≡ not (shows d) =
          (reports fid t f pg s j).hidden ∙ rw (hidden_there s j d e, other, h) (ground arith) in
        elim (Bool-cases (shows d)) [
          | inr hidden ↦ rw (avail, hidden) (ground arith)
          | inl fine ↦
              rw
                (holds-indexes j shows again (lookup j s) (resent j).visible
                  (rw (found_by_get s j d e) (ground (arith, fine))))
                (ground arith)
        ]
  ]

  -- what was not of an active row is as the last events make it
  pub other_left :
      (j : ℕ)
      → contains (chunk_ids fid t f pg s) j ≡ false
      → contains (summary_ids fid t f pg s) j ≡ false
      → let d = found fid t f pg s in
        settled d j (effects (indexes again) j (lookup j s)) ≡ (
          if contains d.orphan j
          then none
          else if contains d.retired_leak j
          then some (marked 0 (lookup j s))
          else lookup j s)
  other_left j no_chunk no_summary =
      let unsent : sent_at j ≡ false = sent_lem j ∙ rw (no_chunk, no_summary) (ground arith) in
      let avail : contains (found fid t f pg s).avail_drift j ≡ false =
        (reports fid t f pg s j).hidden ∙ rw (no_chunk, no_summary) (ground arith) in
      rw (indexes_others j again (lookup j s) unsent, avail) refl
