-- ===== src/Relay/Effects.antt =====
-- What publishing does to the documents of the in-memory index, against a description of each
-- event as a function on one document.
use kb_backend.Prelude.{
  ℕ, String, ◌≡◌, refl, inl, inr, true, Option, none, some, List, [], ◌∷◌, arith, ◌==◌,
  if◌then◌else◌, Option-cases, or_else, contains, lookup, insert, erase, lookup-insert,
  lookup-erase,
}
use kb_backend.Es.{Doc, Store, empty_doc, fake_es, fake_index, fake_get, fake_delete}
use kb_backend.Es.Laws.{lookup-fake_index}
use kb_backend.Relay.{
  Event, index, set_available, delete, other, publish, publish_available, publish_delete,
}

module _ {F : Type 0} where
  -- The document that `set_available` writes, from the one that was there, if any.
  unfoldable pub marked : ℕ → Option (Doc F) → Doc F
  marked v o = record (or_else o empty_doc) { available_int = some v }

  pub marked-marked : (v : ℕ) (o : Option (Doc F)) → marked v (some (marked v o)) ≡ marked v o
  unfolding marked
  marked-marked v o = refl

  -- The document at `j` after an event, from the document that was there.
  abbrev pub effect : Event F → ℕ → Option (Doc F) → Option (Doc F)
  effect (index id d) j o = if id == j then some d else o
  effect (set_available ids v) j o = if contains ids j then some (marked v o) else o
  effect (delete ids reason) j o = if contains ids j then none else o
  effect (other t) j o = o

  -- The events of a sequence, first to last.
  abbrev pub effects : List (Event F) → ℕ → Option (Doc F) → Option (Doc F)
  effects [] j o = o
  effects (e ∷ es) j o = effects es j (effect e j o)

  abbrev pub IsKnown : Event F → Type 0
  IsKnown (other t) = ⊥
  IsKnown _ = Unit

  publish_available-cons :
      (i : ℕ) (ids : List ℕ) (v : ℕ) (docs : Store F)
      → publish_available fake_es (i ∷ ids) v docs
        ≡ publish_available fake_es ids v (insert i (marked v (lookup i docs)) docs)
  unfolding publish_available fake_index fake_get marked
  publish_available-cons i ids v docs = elim (Option-cases (lookup i docs)) [
    | inl e ↦ rw (e, publish_available, fake_get)
    | inr (d, e) ↦ rw (e, publish_available, fake_get)
  ]

  publish_available_succeeds :
      (ids : List ℕ) (v : ℕ) (docs : Store F) → (publish_available fake_es ids v docs).0 ≡ true
  publish_available_succeeds [] v docs = unfold publish_available in refl
  publish_available_succeeds (i ∷ ids) v docs =
      rw publish_available-cons
        (publish_available_succeeds ids v (insert i (marked v (lookup i docs)) docs))

  publish_delete_succeeds :
      (ids : List ℕ) (docs : Store F) → (publish_delete fake_es ids docs).0 ≡ true
  unfolding publish_delete fake_delete
  publish_delete_succeeds [] docs = refl
  publish_delete_succeeds (i ∷ ids) docs = publish_delete_succeeds ids (erase i docs)

  pub publish_succeeds :
      (e : Event F) (docs : Store F) → IsKnown e → (publish fake_es e docs).0 ≡ true
  unfolding publish fake_index
  publish_succeeds (index id d) docs h = refl
  publish_succeeds (set_available ids v) docs h = publish_available_succeeds ids v docs
  publish_succeeds (delete ids r) docs h = publish_delete_succeeds ids docs
  publish_succeeds (other t) docs h = absurd h

  lookup-publish_available :
      (ids : List ℕ) (v j : ℕ) (docs : Store F)
      → lookup j (publish_available fake_es ids v docs).1
        ≡ effect (set_available ids v) j (lookup j docs)
  lookup-publish_available [] v j docs = unfold publish_available in refl
  lookup-publish_available (i ∷ ids) v j docs =
      let d = marked v (lookup i docs) in
      rw publish_available-cons (
        ground (
          arith,
          lookup-publish_available ids v j (insert i d docs),
          lookup-insert i j d docs,
          marked-marked v (lookup i docs),
        ))

  lookup-publish_delete :
      (ids : List ℕ) (r : String) (j : ℕ) (docs : Store F)
      → lookup j (publish_delete fake_es ids docs).1 ≡ effect (delete ids r) j (lookup j docs)
  unfolding publish_delete fake_delete
  lookup-publish_delete [] r j docs = refl
  lookup-publish_delete (i ∷ ids) r j docs =
      ground (arith, lookup-publish_delete ids r j (erase i docs), lookup-erase i j docs)

  -- One published event acts on every document as `effect` says.
  pub lookup-publish :
      (e : Event F) (j : ℕ) (docs : Store F)
      → lookup j (publish fake_es e docs).1 ≡ effect e j (lookup j docs)
  unfolding publish
  lookup-publish (index id d) j docs = lookup-fake_index id j d docs
  lookup-publish (set_available ids v) j docs = lookup-publish_available ids v j docs
  lookup-publish (delete ids r) j docs = lookup-publish_delete ids r j docs
  lookup-publish (other t) j docs = refl
