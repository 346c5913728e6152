-- ===== src/Ingest/Publish/Indexed.antt =====
-- What a publication makes of the in-memory index.
use kb_backend.Prelude.{
  ℕ, ◌≡◌, refl, ◌∙◌, Option, some, List, [], ◌∷◌, ◌++◌, map, arith, if◌then◌else◌, contains, lookup,
}
use kb_backend.Es.{Doc, Store, fake_es}
use kb_backend.Relay.{Event, Outbox, index, set_available, pending_count}
use kb_backend.Relay.Effects.{effects, marked}
use kb_backend.Relay.Drain.{AllKnown, pending_events}
use kb_backend.Relay.Emitted.{EventsKnown, emitted, drain-emitted, none_pending}
use kb_backend.Db.{FileRow, World, Env}
use kb_backend.Ingest.Publish.{set_event, old_ids, flip, staged, publish_flip}
use kb_backend.Ingest.Stage.{Plan, StagedItem, chunk_docs, summary_docs, index_events, stage_rows}

module _ {F : Type 0} where
  abbrev pub indexes : List (ℕ × Doc F) → List (Event F)
  indexes docs = map (λ (id, d). index id d) docs

  pub indexes-EventsKnown : (docs : List (ℕ × Doc F)) → EventsKnown (indexes docs)
  indexes-EventsKnown [] = tt
  indexes-EventsKnown (d ∷ ds) = (tt, indexes-EventsKnown ds)

  staged_events :
      (f : FileRow) (xs ys : List (ℕ × Doc F))
      → index_events f xs ++ index_events f ys ≡ emitted f.id (indexes (xs ++ ys))
  staged_events f [] [] = refl
  staged_events f [] (y ∷ ys) = rw (staged_events f [] ys) refl
  staged_events f (x ∷ xs) ys = rw (staged_events f xs ys) refl

  abbrev sets : List ℕ → ℕ → List (Event F)
  sets [] v = []
  sets (i ∷ is) v = set_available (i ∷ is) v ∷ []

  marked_again : (v u : ℕ) (o : Option (Doc F)) → marked u (some (marked v o)) ≡ marked u o
  unfolding marked
  marked_again v u o = refl

  -- the document at `j` after the ids `news` are made visible and then `olds` hidden
  abbrev pub flipped : List ℕ → List ℕ → ℕ → Option (Doc F) → Option (Doc F)
  flipped news olds j o =
      if contains olds j
      then some (marked 0 o)
      else if contains news j
      then some (marked 1 o)
      else o

  effects-sets :
      (is js : List ℕ) (j : ℕ) (o : Option (Doc F))
      → effects (sets is 1 ++ sets js 0) j o ≡ flipped is js j o
  effects-sets [] [] j o = refl
  effects-sets [] (y ∷ ys) j o = ground arith
  effects-sets (x ∷ xs) [] j o = ground arith
  effects-sets (x ∷ xs) (y ∷ ys) j o = ground (arith, marked_again 1 0 o)

module _ (F : Type 0) where
  sets-EventsKnown :
      (is js : List ℕ) (v u : ℕ)
      → let events : List (Event F) = sets is v ++ sets js u in EventsKnown events
  sets-EventsKnown [] [] v u = tt
  sets-EventsKnown [] (j ∷ js) v u = (tt, tt)
  sets-EventsKnown (i ∷ is) [] v u = (tt, tt)
  sets-EventsKnown (i ∷ is) (j ∷ js) v u = (tt, (tt, tt))

  flip_events :
      (f : FileRow) (is js : List ℕ) (v u : ℕ)
      → let rows : Outbox F = set_event f is v ++ set_event f js u in
        rows ≡ emitted f.id (sets is v ++ sets js u)
  flip_events f [] [] v u = refl
  flip_events f [] (j ∷ js) v u = refl
  flip_events f (i ∷ is) [] v u = refl
  flip_events f (i ∷ is) (j ∷ js) v u = refl

module _ {F : Type 0} (env : Env) (f : FileRow) (plan : Plan F) (items : List (StagedItem F))
    (w : World F (Store F)) (known : AllKnown w.pg.outbox) where
  -- the document at `j` after the staged documents were indexed
  abbrev pub indexed : ℕ → Option (Doc F)
  indexed j =
      effects (indexes (chunk_docs f plan ++ summary_docs items)) j
        (effects (pending_events (some f.id) w.pg.outbox) j (lookup j w.es))

  pub staged_index :
      let w' = staged env fake_es f plan items w in
      (pending_count (some f.id) w'.pg.outbox ≡ 0)
      × AllKnown w'.pg.outbox
      × ((j : ℕ) → lookup j w'.es ≡ indexed j)
  unfolding staged stage_rows
  staged_index =
      let docs = chunk_docs f plan ++ summary_docs items in
      rw (staged_events f (chunk_docs f plan) (summary_docs items)) (
        drain-emitted env.max_attempts env.now f.id w.pg.outbox (indexes docs) w.es known
          (indexes-EventsKnown docs))

  abbrev new_ids : List ℕ
  new_ids = map (λ c. c.chunk_id) plan.chunks ++ map (λ r. r.summary.id) items

  pub publish_flip_index :
      let w' = staged env fake_es f plan items w in
      let w'' = publish_flip env fake_es f plan items w' in
      (pending_count (some f.id) w''.pg.outbox ≡ 0)
      × AllKnown w''.pg.outbox
      × ((j : ℕ) → lookup j w''.es ≡ flipped new_ids (old_ids f plan.target w'.pg) j (indexed j))
  unfolding publish_flip flip
  publish_flip_index =
      let w' = staged env fake_es f plan items w in
      let olds = old_ids f plan.target w'.pg in
      let events : List (Event F) = sets new_ids 1 ++ sets olds 0 in
      let (idle, still, seen) = staged_index in
      let (left, all_known, flips) =
        drain-emitted env.max_attempts env.now f.id w'.pg.outbox events w'.es still
          (sets-EventsKnown F new_ids olds 1 0) in
      rw (flip_events F f new_ids olds 1 0) (
        left,
        all_known,
        λ j.
            flips j
            ∙ rw (none_pending (some f.id) w'.pg.outbox idle, seen j)
                (effects-sets new_ids olds j (indexed j)),
      )
