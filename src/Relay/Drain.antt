-- ===== src/Relay/Drain.antt =====
-- `drain` over the in-memory index: what is published, and that nothing is left to do.
use kb_backend.Prelude.{
  ℕ, ◌≡◌, refl, ap, ◌∙◌, inl, inr, true, Option, some, List, [], ◌∷◌, map, arith, Bool-cases,
  filter, lookup,
}
use kb_backend.Es.{Client, Store, fake_es}
use kb_backend.Relay.{
  Event, Outbox, OutboxRow, Status, is_pending, pending_count, publish, drain_row, drain_rows,
  drain,
}
use kb_backend.Relay.Accounts.{drain_accounts, drain_rows-skip, drain_rows-take}
use kb_backend.Relay.Effects.{IsKnown, publish_succeeds, effects, lookup-publish}

module _ {F : Type 0} where
  abbrev pub AllKnown : Outbox F → Type 0
  AllKnown [] = Unit
  AllKnown (r ∷ rows) = IsKnown r.event × AllKnown rows

  -- The events that a drain selects, in the order of the table.
  abbrev pub pending_events : Option ℕ → Outbox F → List (Event F)
  pending_events file_id rows = map (λ r. r.event) (filter (is_pending file_id) rows)

module _ {F : Type 0} (max_attempts now : ℕ) where
  row_published :
      (r : OutboxRow F) (docs : Store F)
      → IsKnown r.event
      → drain_row fake_es max_attempts now r docs ≡ (
        record r { status = Status.published; published_at = some now },
        (publish fake_es r.event docs).1,
        true,
      )
  unfolding drain_row
  row_published r docs h = ground (arith, publish_succeeds r.event docs h)

  rows_published :
      (file_id : Option ℕ) (rows : Outbox F) (docs : Store F)
      → AllKnown rows
      → let (rows', docs', done, bad) = drain_rows fake_es max_attempts now file_id rows docs in
        (bad ≡ 0)
        × ((j : ℕ) → lookup j docs' ≡ effects (pending_events file_id rows) j (lookup j docs))
  rows_published file_id [] docs h = unfold drain_rows in (refl, λ j. refl)
  rows_published file_id (r ∷ rows) docs (k, h) = elim (Bool-cases (is_pending file_id r)) [
    | inl e ↦
        let docs' = (publish fake_es r.event docs).1 in
        let (none_bad, seen) = rows_published file_id rows docs' h in
        rw (drain_rows-take fake_es max_attempts now file_id r rows docs e, row_published r docs k)
          (
            none_bad,
            λ j. rw e (
                seen j
                ∙ ap (effects (pending_events file_id rows) j) (lookup-publish r.event j docs)),
          )
    | inr e ↦
        let (none_bad, seen) = rows_published file_id rows docs h in
        rw (drain_rows-skip fake_es max_attempts now file_id r rows docs e)
          (none_bad, λ j. rw e (seen j))
  ]

  -- Over the in-memory index, if all rows are of the three known event types: a drain publishes every
  -- pending event of the file, leaves none, and each document then is what the pending events,
  -- applied in the order of the table, make of it.
  pub drain_publishes :
      (file_id : Option ℕ) (rows : Outbox F) (docs : Store F)
      → AllKnown rows
      → let (rows', docs', d) = drain fake_es max_attempts now file_id rows docs in
        (d.published ≡ pending_count file_id rows)
        × (d.remaining ≡ 0)
        × (pending_count file_id rows' ≡ 0)
        × ((j : ℕ) → lookup j docs' ≡ effects (pending_events file_id rows) j (lookup j docs))
  unfolding drain
  drain_publishes file_id rows docs h =
      let (none_bad, seen) = rows_published file_id rows docs h in
      let (total, left, still) = drain_accounts fake_es max_attempts now file_id rows docs in
      (omega (arith, total, none_bad), left ∙ none_bad, left ∙ none_bad, seen)

module _ {F S : Type 0} (es : Client F S) (max_attempts now : ℕ) where
  rows_idle :
      (file_id : Option ℕ) (rows : Outbox F) (s : S)
      → pending_count file_id rows ≡ 0
      → drain_rows es max_attempts now file_id rows s ≡ (rows, s, 0, 0)
  unfolding pending_count
  rows_idle file_id [] s h = unfold drain_rows in refl
  rows_idle file_id (r ∷ rows) s h = elim (Bool-cases (is_pending file_id r)) [
    | inl e ↦ absurd (ground arith)
    | inr e ↦ rw (
      drain_rows-skip es max_attempts now file_id r rows s e,
      rows_idle file_id rows s (ground arith),
    )
  ]

  -- With nothing pending for the file, a drain changes neither the table nor the index.
  pub drain_idle :
      (file_id : Option ℕ) (rows : Outbox F) (s : S)
      → pending_count file_id rows ≡ 0
      → let (rows', s', d) = drain es max_attempts now file_id rows s in
        (rows' ≡ rows) × (s' ≡ s) × (d.published ≡ 0) × (d.remaining ≡ 0)
  unfolding drain
  drain_idle file_id rows s h = rw (rows_idle file_id rows s h) (refl, refl, refl, h)

module _ {F : Type 0} (max_attempts now later : ℕ) where
  -- Over the in-memory index, if all rows are of the three known event types: a second drain of the
  -- same file, at any time, changes neither the table nor the index, and publishes nothing.
  pub drain_again :
      (file_id : Option ℕ) (rows : Outbox F) (docs : Store F)
      → AllKnown rows
      → let (rows', docs', _) = drain fake_es max_attempts now file_id rows docs in
        let (rows'', docs'', d) = drain fake_es max_attempts later file_id rows' docs' in
        (rows'' ≡ rows') × (docs'' ≡ docs') × (d.published ≡ 0) × (d.remaining ≡ 0)
  drain_again file_id rows docs h =
      let (rows', docs', _) = drain fake_es max_attempts now file_id rows docs in
      drain_idle fake_es max_attempts later file_id rows' docs'
        (drain_publishes max_attempts now file_id rows docs h).2
