-- ===== src/Reconcile/Repaired.antt =====
-- After a repair the comparison has nothing left to report.
use kb_backend.Reconcile.Sent.{shows}
use kb_backend.Ingest.Publish.Agrees.{holds}
use kb_backend.Reconcile.Reported.{leaks}
use kb_backend.Relay.Drain.{AllKnown}
use kb_backend.Ingest.Publish.Indexed.{indexes, indexes-EventsKnown}
use kb_backend.Relay.Emitted.{
  EventsKnown, effects-append, drain-emitted, none_pending, EventsKnown-append,
}
use kb_backend.Relay.Effects.{marked, effects, IsKnown}
use kb_backend.Db.{Env, World, audited}
use kb_backend.Reconcile.Repair.{repair_events, if_any, send}
use kb_backend.Es.{Doc, Store, fake_es, fake_get, truthy}
use kb_backend.Relay.{Event, set_available, delete, pending_count}
use kb_backend.Reconcile.{Drift, es_get, is_shown}
use kb_backend.Prelude.{
  ℕ, String, ◌≡◌, refl, ◌∙◌, Option, none, some, List, [], ◌∷◌, ◌++◌, if◌then◌else◌, contains,
  lookup, Bool, true, any, false, ◌&&◌, arith, ◌==◌, Option-cases, map, inl, inr,
}

module _ (F : Type 0) where
  if_any-delete-EventsKnown :
      (ids : List ℕ)
      → let events : List (Event F) = if_any ids (delete ids "reconcile_orphan") in
        EventsKnown events
  if_any-delete-EventsKnown [] = tt
  if_any-delete-EventsKnown (i ∷ is) = (tt, tt)

module _ {F : Type 0} where
  -- the document at `j` after the last three events of a repair
  abbrev pub settled : Drift → ℕ → Option (Doc F) → Option (Doc F)
  settled d j o =
      let o1 = if contains d.avail_drift j then some (marked 1 o) else o in
      let o2 = if contains d.retired_leak j then some (marked 0 o1) else o1 in
      if contains d.orphan j then none else o2

  if_any-set :
      (ids : List ℕ) (v j : ℕ) (rest : List (Event F)) (o : Option (Doc F))
      → effects (if_any ids (set_available ids v) ++ rest) j o
        ≡ effects rest j (if contains ids j then some (marked v o) else o)
  if_any-set [] v j rest o = refl
  if_any-set (i ∷ is) v j rest o = refl

  if_any-delete :
      (ids : List ℕ) (r : String) (j : ℕ) (o : Option (Doc F))
      → effects (if_any ids (delete ids r)) j o ≡ (if contains ids j then none else o)
  if_any-delete [] r j o = refl
  if_any-delete (i ∷ is) r j o = refl

  effects-repair_events :
      (d : Drift) (again : List (ℕ × Doc F)) (j : ℕ) (o : Option (Doc F))
      → effects (repair_events d again) j o ≡ settled d j (effects (indexes again) j o)
  unfolding repair_events
  effects-repair_events d again j o =
      effects-append (indexes again) _ j o
      ∙ if_any-set d.avail_drift 1 j _ _
      ∙ if_any-set d.retired_leak 0 j _ _
      ∙ if_any-delete d.orphan "reconcile_orphan" j _

  if_any-EventsKnown :
      (ids : List ℕ) (e : Event F) (rest : List (Event F))
      → IsKnown e
      → EventsKnown rest
      → EventsKnown (if_any ids e ++ rest)
  if_any-EventsKnown [] e rest h k = k
  if_any-EventsKnown (i ∷ is) e rest h k = (h, k)

  repair_events-EventsKnown :
      (d : Drift) (again : List (ℕ × Doc F)) → EventsKnown (repair_events d again)
  unfolding repair_events
  repair_events-EventsKnown d again =
      EventsKnown-append (indexes again) _ (indexes-EventsKnown again) (
        if_any-EventsKnown d.avail_drift _ _ tt
          (if_any-EventsKnown d.retired_leak _ _ tt (if_any-delete-EventsKnown F d.orphan)))

module _ {F : Type 0} (env : Env) (fid tenant_id : ℕ) (user_id : Option ℕ) (d : Drift)
    (again : List (ℕ × Doc F)) (w : World F (Store F)) where
  pub send_index :
      AllKnown w.pg.outbox
      → pending_count (some fid) w.pg.outbox ≡ 0
      → let w' = send env fake_es fid tenant_id user_id d again w in
        (j : ℕ) → lookup j w'.es ≡ settled d j (effects (indexes again) j (lookup j w.es))
  unfolding send audited
  send_index known idle j =
      let events = repair_events d again in
      let (_, _, seen) =
        drain-emitted env.max_attempts env.now fid w.pg.outbox events w.es known
          (repair_events-EventsKnown d again) in
      seen j
      ∙ rw (none_pending (some fid) w.pg.outbox idle)
          (effects-repair_events d again j (lookup j w.es))

  -- a repair writes no row of a chunk or a summary
  pub send-rows :
      let w' = send env fake_es fid tenant_id user_id d again w in
      (w'.pg.chunks ≡ w.pg.chunks) × (w'.pg.summaries ≡ w.pg.summaries)
  unfolding send audited
  send-rows = (refl, refl)

-- a test of the id alone
pub any_key :
    {A : Type 0} (key : A → ℕ) (p : ℕ → Bool) (j : ℕ) (xs : List A)
    → any (λ x. p (key x) && (key x == j)) xs ≡ (p j && contains (map key xs) j)
any_key key p j [] = ground arith
any_key key p j (x ∷ xs) = ground (arith, any_key key p j xs)

module _ {F : Type 0} (s : Store F) (j : ℕ) where
  pub get_none : lookup j s ≡ none → es_get fake_es s j ≡ none
  unfolding es_get fake_get
  get_none e = rw (es_get, fake_get, e) (unfold truthy in refl)

  pub get_some :
      (x : Doc F) → lookup j s ≡ some x → es_get fake_es s j ≡ (if truthy x then some x else none)
  unfolding es_get fake_get
  get_some x e = rw (es_get, fake_get, e) refl

  pub found_by_get : (d : Doc F) → es_get fake_es s j ≡ some d → lookup j s ≡ some d
  found_by_get d h = elim (Option-cases (lookup j s)) [
    | inl e ↦ absurd (ground (arith, get_none e, h))
    | inr (x, e) ↦ e ∙ ground (arith, get_some x e, h)
  ]

  shows-truthy : (d : Doc F) → shows d ≡ true → truthy d ≡ true
  unfolding truthy
  shows-truthy d h = ground (arith, h)

  pub visible_get :
      (q : Doc F → Bool)
      → holds q j (lookup j s) ≡ true
      → holds shows j (lookup j s) ≡ true
      → (d : Doc F) × (es_get fake_es s j ≡ some d) × (q d ≡ true) × (shows d ≡ true)
  visible_get q h k = elim (Option-cases (lookup j s)) [
    | inl e ↦ absurd (ground (arith, rw e at h))
    | inr (d, e) ↦
        let k' : shows d ≡ true = rw e at k in
        (d, get_some d e ∙ rw (shows-truthy d k') refl, rw e at h, k')
  ]

pub shown_leaks :
    {F : Type 0} (fid tenant_id : ℕ) (active_ids all_ids : List ℕ) (j : ℕ) (d : Doc F) (s : Store F)
    → lookup j s ≡ some d
    → is_shown fid tenant_id d ≡ true
    → contains active_ids j ≡ false
    → leaks fid tenant_id active_ids all_ids j s ≡ true
shown_leaks fid t active_ids all_ids j d [] h k other = absurd (ground (arith, h))
shown_leaks fid t active_ids all_ids j d ((i, x) ∷ s) h k other =
    ground (arith, h, k, other, shown_leaks fid t active_ids all_ids j d s)

pub active_no_leak :
    {F : Type 0} (fid tenant_id : ℕ) (active_ids all_ids : List ℕ) (j : ℕ) (docs : List (ℕ × Doc F))
    → contains active_ids j ≡ true
    → leaks fid tenant_id active_ids all_ids j docs ≡ false
active_no_leak fid t active_ids all_ids j [] h = refl
active_no_leak fid t active_ids all_ids j ((k, d) ∷ docs) h =
    ground (arith, h, active_no_leak fid t active_ids all_ids j docs h)
