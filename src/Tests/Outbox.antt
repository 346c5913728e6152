-- ===== src/Tests/Outbox.antt =====
-- The outbox of app/indexing/relay.py at concrete inputs.
use kb_backend.Prelude.{ℕ, ◌+◌, ◌≡◌, refl, some, [], ◌∷◌, lookup, inl}
use kb_backend.Es.{Doc, Store, empty_doc, fake_es, fake_index, fake_get, fake_delete}
use kb_backend.Relay.{
  Outbox, index, set_available, delete, other, emit, pending_count, publish, drain, drain_rows,
  drain_row, publish_available, publish_delete, is_pending,
}
use kb_backend.Relay.Accounts.{drain_accounts, AllConsistent}
use kb_backend.Relay.Effects.{effects}
use kb_backend.Relay.Drain.{AllKnown, pending_events, drain_publishes}

abbrev old_doc : Doc ℕ
old_doc = record empty_doc {
  content_tks = some "old";
  chunk_version_int = some 1;
  available_int = some 1;
}

abbrev new_doc : Doc ℕ
new_doc = record empty_doc {
  content_tks = some "new";
  chunk_version_int = some 2;
  available_int = some 0;
}

abbrev docs : Store ℕ
docs = (1, old_doc) ∷ []

-- the events of an update of file 7, and one of file 8
abbrev pub update_rows : Outbox ℕ
update_rows =
    emit 7 (index 2 new_doc)
    ∷ emit 8 (delete (1 ∷ []) "other file")
    ∷ emit 7 (set_available (2 ∷ []) 1)
    ∷ emit 7 (set_available (1 ∷ []) 0)
    ∷ []

abbrev bad_rows : Outbox ℕ
bad_rows = emit 7 (other "reindex") ∷ update_rows

pub update_rows-AllKnown : AllKnown update_rows
unfolding emit
update_rows-AllKnown = (tt, (tt, (tt, (tt, tt))))

bad_rows-AllConsistent : AllConsistent 1 bad_rows
unfolding emit
bad_rows-AllConsistent = (
  (refl, inl refl),
  ((refl, inl refl), ((refl, inl refl), ((refl, inl refl), ((refl, inl refl), tt)))),
)

drain_publishes_example :
    let (rows', docs', d) = drain fake_es 3 10 (some 7) update_rows docs in
    (d.published ≡ pending_count (some 7) update_rows)
    × (d.remaining ≡ 0)
    × (pending_count (some 7) rows' ≡ 0)
    × ((j : ℕ) → lookup j docs' ≡ effects (pending_events (some 7) update_rows) j (lookup j docs))
drain_publishes_example = drain_publishes 3 10 (some 7) update_rows docs update_rows-AllKnown

drain_accounts_example :
    let (rows', _, d) = drain fake_es 1 10 (some 7) bad_rows docs in
    (d.published + d.failed ≡ pending_count (some 7) bad_rows)
    × (d.remaining ≡ d.failed)
    × (pending_count (some 7) rows' ≡ d.remaining)
drain_accounts_example = drain_accounts fake_es 1 10 (some 7) bad_rows docs

-- A row of an unknown type fails, the others are published, and one is left pending.
drain-bad_rows :
    let d = (drain fake_es 1 10 (some 7) bad_rows docs).2 in
    (d.published ≡ 3) × (d.failed ≡ 1) × (d.remaining ≡ 1)
unfolding drain drain_rows drain_row publish publish_available publish_delete is_pending
    pending_count emit fake_index fake_get fake_delete
drain-bad_rows = (refl, refl, refl)
