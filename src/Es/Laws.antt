-- ===== src/Es/Laws.antt =====
-- The in-memory store as a map from ids to documents.
use kb_backend.Prelude.{ℕ, ◌≡◌, some, ◌==◌, if◌then◌else◌, lookup, lookup-insert}
use kb_backend.Es.{Doc, Store, fake_index}

module _ {F : Type 0} where
  pub lookup-fake_index :
      (id j : ℕ) (d : Doc F) (docs : Store F)
      → lookup j (fake_index id d docs).1 ≡ (if id == j then some d else lookup j docs)
  unfolding fake_index
  lookup-fake_index id j d docs = lookup-insert id j d docs
