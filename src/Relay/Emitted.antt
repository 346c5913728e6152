-- ===== src/Relay/Emitted.antt =====
-- What a drain makes of the events that a transaction has just added for a file.
use mathlib.Core.List.{map-append}
use kb_backend.Prelude.{
  ℕ, ◌≡◌, refl, ◌∙◌, inl, inr, Option, some, List, [], ◌∷◌, ◌++◌, map, arith, ==_refl, Bool-cases,
  filter, filter-append, lookup,
}
use kb_backend.Es.{Doc, Store, fake_es}
use kb_backend.Relay.{
  Event, Outbox, emit, is_pending, pending_count, drain, drain_row, drain_rows, OutboxRow,
}
use kb_backend.Relay.Accounts.{drain_rows-skip, drain_rows-take}
use kb_backend.Relay.Effects.{IsKnown, effect, effects}
use kb_backend.Relay.Drain.{AllKnown, pending_events, drain_publishes}

module _ {F : Type 0} where
  -- the rows that a transaction adds
  abbrev pub emitted : ℕ → List (Event F) → Outbox F
  emitted fid events = map (λ e. emit fid e) events

  abbrev pub EventsKnown : List (Event F) → Type 0
  EventsKnown [] = Unit
  EventsKnown (e ∷ es) = IsKnown e × EventsKnown es

  pub AllKnown-append : (xs ys : Outbox F) → AllKnown xs → AllKnown ys → AllKnown (xs ++ ys)
  AllKnown-append [] ys h k = k
  AllKnown-append (x ∷ xs) ys (e, h) k = (e, AllKnown-append xs ys h k)

  pub EventsKnown-append :
      (xs ys : List (Event F)) → EventsKnown xs → EventsKnown ys → EventsKnown (xs ++ ys)
  EventsKnown-append [] ys h k = k
  EventsKnown-append (x ∷ xs) ys (e, h) k = (e, EventsKnown-append xs ys h k)

  pub emitted-AllKnown :
      (fid : ℕ) (events : List (Event F)) → EventsKnown events → AllKnown (emitted fid events)
  unfolding emit
  emitted-AllKnown fid [] h = tt
  emitted-AllKnown fid (e ∷ es) (k, h) = (k, emitted-AllKnown fid es h)

  emitted_pending :
      (fid : ℕ) (events : List (Event F))
      → map (λ r. r.event) (filter (is_pending (some fid)) (emitted fid events)) ≡ events
  unfolding is_pending emit
  emitted_pending fid [] = refl
  emitted_pending fid (e ∷ es) = rw (==_refl fid, emitted_pending fid es) refl

  pub pending_events-emitted :
      (fid : ℕ) (rows : Outbox F) (events : List (Event F))
      → pending_events (some fid) (rows ++ emitted fid events)
        ≡ pending_events (some fid) rows ++ events
  pending_events-emitted fid rows events =
      rw
        (
          filter-append (is_pending (some fid)) rows (emitted fid events),
          map-append,
          emitted_pending fid events,
        )
        refl

  pub none_pending :
      (file_id : Option ℕ) (rows : Outbox F)
      → pending_count file_id rows ≡ 0
      → pending_events file_id rows ≡ []
  unfolding pending_count
  none_pending file_id [] h = refl
  none_pending file_id (r ∷ rows) h = ground (arith, none_pending file_id rows)

  pub effects-append :
      (xs ys : List (Event F)) (j : ℕ) (o : Option (Doc F))
      → effects (xs ++ ys) j o ≡ effects ys j (effects xs j o)
  effects-append [] ys j o = refl
  effects-append (x ∷ xs) ys j o = effects-append xs ys j (effect x j o)

module _ {F : Type 0} (max_attempts now : ℕ) where
  drain_row-event :
      (r : OutboxRow F) (docs : Store F)
      → (drain_row fake_es max_attempts now r docs).0.event ≡ r.event
  unfolding drain_row
  drain_row-event r docs = ground arith

  drain_rows-AllKnown :
      (file_id : Option ℕ) (rows : Outbox F) (docs : Store F)
      → AllKnown rows
      → AllKnown (drain_rows fake_es max_attempts now file_id rows docs).0
  drain_rows-AllKnown file_id [] docs h = unfold drain_rows in tt
  drain_rows-AllKnown file_id (r ∷ rows) docs (k, h) = elim (Bool-cases (is_pending file_id r)) [
    | inl e ↦ rw (drain_rows-take fake_es max_attempts now file_id r rows docs e) (
      rw (drain_row-event r docs) k,
      drain_rows-AllKnown file_id rows (drain_row fake_es max_attempts now r docs).1 h,
    )
    | inr e ↦
        rw (drain_rows-skip fake_es max_attempts now file_id r rows docs e)
          (k, drain_rows-AllKnown file_id rows docs h)
  ]

  -- Over the in-memory index, after known events are added for a file to rows of known events and the
  -- file is drained: nothing is pending for it, the rows still are of known events, and each document
  -- is what the events that were pending, and then those added, make of it.
  pub drain-emitted :
      (fid : ℕ) (rows : Outbox F) (events : List (Event F)) (docs : Store F)
      → AllKnown rows
      → EventsKnown events
      → let (rows', docs', _) =
          drain fake_es max_attempts now (some fid) (rows ++ emitted fid events) docs in
        (pending_count (some fid) rows' ≡ 0)
        × AllKnown rows'
        × ((j : ℕ)
            → lookup j docs'
              ≡ effects events j (effects (pending_events (some fid) rows) j (lookup j docs)))
  unfolding drain
  drain-emitted fid rows events docs h k =
      let added = rows ++ emitted fid events in
      let known = AllKnown-append rows (emitted fid events) h (emitted-AllKnown fid events k) in
      let (_, _, still, seen) = drain_publishes max_attempts now (some fid) added docs known in
      (
        still,
        drain_rows-AllKnown (some fid) added docs known,
        λ j.
            seen j
            ∙ rw (pending_events-emitted fid rows events)
                (effects-append (pending_events (some fid) rows) events j (lookup j docs)),
      )
