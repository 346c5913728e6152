-- ===== src/Gc/Index.antt =====
-- What a purge does to the in-memory index.
use kb_backend.Prelude.{
  ℕ, String, ◌≡◌, refl, ◌∙◌, Option, none, some, List, [], ◌∷◌, ◌++◌, map, arith, if◌then◌else◌,
  contains, contains-append, lookup,
}
use kb_backend.Relay.{Event, Outbox, emit, delete, drain}
use kb_backend.Relay.Effects.{effects}
use kb_backend.Relay.Drain.{pending_events, AllKnown}
use kb_backend.Relay.Emitted.{EventsKnown, emitted, drain-emitted}
use kb_backend.Es.{Doc, Store, fake_es}
use kb_backend.Gc.{delete_events, batches, delete_batch}
use kb_backend.Gc.Batches.{flatten, flatten-batches}

module _ (F : Type 0) (fid : ℕ) (reason : String) where
  -- one event for each batch of ids
  abbrev deletes : List (List ℕ) → List (Event F)
  deletes bs = map (λ b. delete b reason) bs

  deletes-EventsKnown : (bs : List (List ℕ)) → EventsKnown (deletes bs)
  deletes-EventsKnown [] = tt
  deletes-EventsKnown (b ∷ bs) = (tt, deletes-EventsKnown bs)

  emitted-deletes :
      (bs : List (List ℕ)) → map (λ b. emit fid (delete b reason)) bs ≡ emitted fid (deletes bs)
  emitted-deletes [] = refl
  emitted-deletes (b ∷ bs) = rw (emitted-deletes bs) refl

  effects-deletes :
      (bs : List (List ℕ)) (j : ℕ) (o : Option (Doc F))
      → effects (deletes bs) j o ≡ (if contains (flatten bs) j then none else o)
  effects-deletes [] j o = refl
  effects-deletes (b ∷ bs) j o = ground (
    arith,
    effects-deletes bs j (if contains b j then none else o),
    contains-append b (flatten bs) j,
  )

module _ {F : Type 0} (fid : ℕ) where
  -- Over the in-memory index, if all rows before are of the three known event types: when the delete
  -- events of ids are added and the file is drained, the ids are gone from the index, and every other
  -- document is what the events pending before make of it.
  pub drain-delete_events :
      (max_attempts now : ℕ) (reason : String) (ids : List ℕ) (rows : Outbox F) (docs : Store F)
      (j : ℕ)
      → AllKnown rows
      → lookup j
          (drain fake_es max_attempts now (some fid) (rows ++ delete_events fid reason ids) docs).1
        ≡ (if contains ids j
            then none
            else effects (pending_events (some fid) rows) j (lookup j docs))
  unfolding delete_events
  drain-delete_events max_attempts now reason ids rows docs j known =
      let bs = batches delete_batch ids in
      let o = effects (pending_events (some fid) rows) j (lookup j docs) in
      let (_, _, seen) =
        drain-emitted max_attempts now fid rows (deletes F fid reason bs) docs known
          (deletes-EventsKnown F fid reason bs) in
      rw (emitted-deletes F fid reason bs) (
        seen j
        ∙ effects-deletes F fid reason bs j o
        ∙ rw (flatten-batches delete_batch ids (omega arith)).0 refl)
