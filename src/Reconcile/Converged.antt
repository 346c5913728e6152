-- ===== src/Reconcile/Converged.antt =====
-- The comparison of a file after its repair.
use kb_backend.Reconcile.{is_shown, classify, active_chunks, active_summaries}
use kb_backend.Reconcile.Agreement.{summary_agrees, chunk_agrees, is_clean, is_clean-classify}
use kb_backend.Ingest.Publish.Indexed.{indexes}
use kb_backend.Relay.Effects.{effects}
use kb_backend.Reconcile.Repaired.{settled, active_no_leak, visible_get, shown_leaks}
use kb_backend.Ingest.Publish.Agrees.{disjoint, disjoint_lem, holds}
use kb_backend.Reconcile.Converges.{
  found, chunk_ids, summary_ids, reports, all_ids, chunk_sent, settled-version, settled-shows,
  other_left, summary_sent, leak,
}
use kb_backend.Reconcile.Sent.{IsResent, has_version, shows}
use kb_backend.Es.{Store, Doc, fake_es}
use kb_backend.Db.{FileRow, Pg, ChunkRow, SummaryRow}
use kb_backend.Ingest.Publish.Listed.{all_keys, hidden_doc}
use kb_backend.Ingest.Publish.Clean.{Holds}
use kb_backend.Prelude.{
  ℕ, ◌≡◌, refl, sym, ◌∙◌, inl, inr, Bool, true, false, not, ◌||◌, some, List, [], ◌∷◌, ◌++◌, arith,
  Bool-cases, all, contains, contains-append, lookup, all_imp,
}

module _ {F : Type 0} (fid t : ℕ) (f : FileRow) (pg : Pg F) (s s' : Store F)
    (again : List (ℕ × Doc F))
    (resent : (j : ℕ)
      → IsResent f.active_chunk_version
          ((found fid t f pg s).missing_chunks ++ (found fid t f pg s).version_drift_chunks)
          (found fid t f pg s).missing_summaries
          j
          again)
    (apart : disjoint (chunk_ids fid t f pg s) (summary_ids fid t f pg s) ≡ true)
    (seen : (j : ℕ)
      → lookup j s' ≡ settled (found fid t f pg s) j (effects (indexes again) j (lookup j s))) where
  abbrev is_active : ℕ → Bool
  is_active j = contains (chunk_ids fid t f pg s ++ summary_ids fid t f pg s) j

  -- nothing hides or deletes a document of an active row
  kept :
      (j : ℕ)
      → is_active j ≡ true
      → (contains (found fid t f pg s).retired_leak j ≡ false)
        × (contains (found fid t f pg s).orphan j ≡ false)
  kept j h =
      let r = reports fid t f pg s j in
      let unseen =
        active_no_leak fid t (chunk_ids fid t f pg s ++ summary_ids fid t f pg s)
          (all_ids fid t f pg s) j s h in
      (r.retired ∙ rw unseen refl, r.orphan ∙ rw unseen refl)

  chunk_settles :
      (c : ChunkRow)
      → contains (chunk_ids fid t f pg s) c.id ≡ true
      → chunk_agrees fake_es s' f.active_chunk_version c ≡ true
  chunk_settles c h =
      let j = c.id in
      let active = f.active_chunk_version in
      let d = found fid t f pg s in
      let o = effects (indexes again) j (lookup j s) in
      let (unhidden, undeleted) =
        kept j
          (contains-append (chunk_ids fid t f pg s) (summary_ids fid t f pg s) j ∙ rw h refl) in
      let (ver, shown) = chunk_sent fid t f pg s again resent apart j h in
      let (x, e, v, k) =
        visible_get s' j (has_version active)
          (rw (seen j) (settled-version d active j o unhidden undeleted ver))
          (rw (seen j) (settled-shows d active j o unhidden undeleted shown)) in
      rw (chunk_agrees, e) (rw (v, k) refl)

  summary_settles :
      (x : SummaryRow F)
      → contains (summary_ids fid t f pg s) x.id ≡ true
      → summary_agrees fake_es s' x ≡ true
  summary_settles x h =
      let j = x.id in
      let d = found fid t f pg s in
      let o = effects (indexes again) j (lookup j s) in
      let here : is_active j ≡ true =
        contains-append (chunk_ids fid t f pg s) (summary_ids fid t f pg s) j
        ∙ rw h (ground arith) in
      let (unhidden, undeleted) = kept j here in
      let no_chunk : contains (chunk_ids fid t f pg s) j ≡ false =
        ground
          (arith, h, disjoint_lem (chunk_ids fid t f pg s) (summary_ids fid t f pg s) j apart) in
      let shown = summary_sent fid t f pg s again resent apart j no_chunk h in
      let shows_it : holds shows j (lookup j s') ≡ true =
        rw (seen j) (settled-shows d f.active_chunk_version j o unhidden undeleted shown) in
      let (y, e, k, _) = visible_get s' j shows shows_it shows_it in rw (summary_agrees, e) k

  doc_settles :
      (j : ℕ) (x : Doc F) → lookup j s' ≡ some x → (not (is_shown fid t x) || is_active j) ≡ true
  doc_settles j x h = elim (Bool-cases (is_active j)) [
    | inl e ↦ rw e (ground arith)
    | inr e ↦
        let parts =
          sym (contains-append (chunk_ids fid t f pg s) (summary_ids fid t f pg s) j) ∙ e in
        let no_chunk : contains (chunk_ids fid t f pg s) j ≡ false = ground (arith, parts) in
        let no_summary : contains (summary_ids fid t f pg s) j ≡ false = ground (arith, parts) in
        let r = reports fid t f pg s j in
        let now =
          sym (seen j ∙ other_left fid t f pg s again resent apart j no_chunk no_summary) ∙ h in
        let dr = found fid t f pg s in
        let hidden : is_shown fid t x ≡ false = elim (Bool-cases (leak fid t f pg s j)) [
          | inl l ↦ elim (Bool-cases (contains (all_ids fid t f pg s) j)) [
            | inl a ↦
                let kept_on : contains dr.orphan j ≡ false = r.orphan ∙ rw (l, a) refl in
                let retires : contains dr.retired_leak j ≡ true = r.retired ∙ rw (l, a) refl in
                hidden_doc fid t (lookup j s) x (rw (kept_on, retires) at now)
            | inr a ↦
                let deleted : contains dr.orphan j ≡ true = r.orphan ∙ rw (l, a) refl in
                absurd (ground (arith, rw deleted at now))
          ]
          | inr l ↦
              let kept_on : contains dr.orphan j ≡ false = r.orphan ∙ rw l refl in
              let unhidden : contains dr.retired_leak j ≡ false = r.retired ∙ rw l refl in
              let there : lookup j s ≡ some x = rw (kept_on, unhidden) at now in
              ground (
                arith,
                l,
                shown_leaks fid t (chunk_ids fid t f pg s ++ summary_ids fid t f pg s)
                    (all_ids fid t f pg s) j x s there,
                e,
              )
        ] in
        rw hidden refl
  ]

  docs_settle :
      (ds : List (ℕ × Doc F))
      → Holds s' ds
      → all (λ (j, x). not (is_shown fid t x) || is_active j) ds ≡ true
  docs_settle [] h = refl
  docs_settle ((j, x) ∷ ds) (h, k) = rw (doc_settles j x h, docs_settle ds k) refl

  -- the comparison after the events
  pub settled-is_clean :
      (pg' : Pg F) (ds : List (ℕ × Doc F))
      → pg'.chunks ≡ pg.chunks
      → pg'.summaries ≡ pg.summaries
      → Holds s' ds
      → is_clean (classify fake_es s' ds fid t f pg') ≡ true
  settled-is_clean pg' ds same same' h =
      let cs = active_chunks f fid t pg in
      let xs = active_summaries f fid t pg in
      let chunk_key : ChunkRow → ℕ = λ c. c.id in
      let key : SummaryRow F → ℕ = λ x. x.id in
      let chunks : all (chunk_agrees fake_es s' f.active_chunk_version) cs ≡ true =
        all_imp (λ c. contains (chunk_ids fid t f pg s) (chunk_key c)) _ cs chunk_settles
          (all_keys chunk_key (chunk_ids fid t f pg s) cs (λ k e. e)) in
      let summaries : all (summary_agrees fake_es s') xs ≡ true =
        all_imp (λ x. contains (summary_ids fid t f pg s) (key x)) _ xs summary_settles
          (all_keys key (summary_ids fid t f pg s) xs (λ k e. e)) in
      is_clean-classify fake_es s' ds fid t f pg'
      ∙ rw (same, same') (rw (chunks, summaries, docs_settle ds h) refl)
