-- ===== src/Models/Effective.antt =====
-- Which model is in effect after the edits.
use kb_backend.Prelude.{
  Bool-cases, if◌then◌else◌, ℕ, ◌≡◌, refl, ◌∙◌, inl, inr, Bool, true, false, ◌&&◌, Option, none,
  some, List, [], ◌∷◌, arith, ◌==◌, ==_refl, Option-cases, opt_eq, opt_eq_iff, any, find,
  update_where, ◌>>=◌,
}
use kb_backend.Authz.{AuthDb, Principal, is_tenant_owner}
use kb_backend.Http.{ok, http_error}
use kb_backend.Models.{
  Kind, same_kind, rank, ModelRow, Fernet, ModelSettings, is_default_of, get_default, config_of,
  resolve_model, clear_default,
}
use kb_backend.Models.Edits.{is_storable, Patch, patched, sets_any, is_own, update_model, update_ep}

same_kind_refl : (k : Kind) → same_kind k k ≡ true
same_kind_refl k = ==_refl (rank k)

-- After a clearing no row of the tenant and kind is a default.
cleared_find :
    (t : Option ℕ) (k : Kind) (rows : List ModelRow)
    → any (is_default_of t k) (clear_default t k rows) ≡ false
unfolding clear_default is_default_of
cleared_find t k [] = refl
cleared_find t k (r ∷ rows) = ground (arith, cleared_find t k rows)

module _ (fernet : Fernet) (m : ℕ) (t : ℕ) (p : Patch) (sets : p.is_default ≡ some true) where
  patched-is_default_of :
      (k : Kind) (r : ModelRow)
      → is_default_of (some t) k (patched fernet p r)
        ≡ (opt_eq r.tenant_id (some t) && same_kind r.kind k)
  unfolding patched is_default_of
  patched-is_default_of k r = rw sets (ground arith)

  patched-id : (r : ModelRow) → (config_of fernet (patched fernet p r)).id ≡ some r.id
  unfolding patched config_of
  patched-id r = refl

  abbrev own_of : Kind → ModelRow → Bool
  own_of k x = is_own m (some t) x && same_kind x.kind k

  chosen :
      (k : Kind) (rows : List ModelRow)
      → any (is_default_of (some t) k) rows ≡ false
      → any (own_of k) rows ≡ true
      → (find (is_default_of (some t) k) (update_where (λ x. x.id == m) (patched fernet p) rows)
          >>= λ x. (config_of fernet x).id)
        ≡ some m
  unfolding is_own
  chosen k [] h own = absurd (ground arith)
  chosen k (x ∷ xs) h own =
      ground (arith, patched-is_default_of k x, patched-id x, chosen k xs, h, own)

  own_cleared :
      (k k' : Kind) (t' : Option ℕ) (rows : List ModelRow)
      → any (own_of k) (clear_default t' k' rows) ≡ any (own_of k) rows
  unfolding clear_default is_own
  own_cleared k k' t' [] = refl
  own_cleared k k' t' (x ∷ xs) = ground (arith, own_cleared k k' t' xs)

  found_own :
      (rows : List ModelRow) (r : ModelRow)
      → find (is_own m (some t)) rows ≡ some r
      → (any (own_of r.kind) rows ≡ true) × (r.tenant_id ≡ some t)
  unfolding is_own
  found_own [] r h = absurd (ground arith)
  found_own (x ∷ xs) r h =
      ground (arith, found_own xs r, same_kind_refl x.kind, opt_eq_iff x.tenant_id (some t))

  update_makes :
      (rows : List ModelRow) (r : ModelRow)
      → find (is_own m (some t)) rows ≡ some r
      → update_model fernet m (some t) p rows ≡ (
          let cleared = clear_default r.tenant_id r.kind rows in
          if is_storable p
          then (update_where (λ x. x.id == m) (patched fernet p) cleared, some true)
          else (cleared, none))
  unfolding update_model sets_any
  update_makes rows r found =
      let any_set : sets_any p ≡ true = rw sets (ground arith) in
      elim (Bool-cases (is_storable p)) [
        | inl e ↦ rw (update_model, found, any_set, sets, e) refl
        | inr e ↦ rw (update_model, found, any_set, sets, e) refl
      ]

resolve_own :
    (fernet : Fernet) (s : ModelSettings) (rows : List ModelRow) (k : Kind) (t m : ℕ)
    → (find (is_default_of (some t) k) rows >>= λ x. (config_of fernet x).id) ≡ some m
    → (resolve_model fernet s (some rows) none k (some t) >>= λ c. c.id) ≡ some m
unfolding resolve_model get_default
resolve_own fernet s rows k t m h = elim (Option-cases (find (is_default_of (some t) k) rows)) [
  | inl e ↦ absurd (ground (arith, e, h))
  | inr (x, e) ↦ rw e (rw e at h)
]

-- If an owner makes a model of the own tenant the default, with whatever other changes: where no
-- column gets a null that it does not take or a value that it does not hold, the handler answers ok,
-- and from then on `resolve_model` gives this model to the tenant for its kind; where one does, the
-- handler fails and the tenant is left without any default of the kind.
pub update_ep-resolve_model :
    (fernet : Fernet) (db : AuthDb) (p : Principal) (s : ModelSettings) (m : ℕ) (body : Patch)
    (rows : List ModelRow) (r : ModelRow)
    → is_tenant_owner db p ≡ true
    → find (is_own m (some p.tenant_id)) rows ≡ some r
    → body.is_default ≡ some true
    → let (answer, rows') = update_ep fernet db p m body rows in
      if is_storable body
      then (answer ≡ ok tt)
        × ((resolve_model fernet s (some rows') none r.kind (some p.tenant_id) >>= λ c. c.id)
            ≡ some m)
      else (answer ≡ http_error 500 "Internal Server Error")
        × (any (is_default_of (some p.tenant_id) r.kind) rows' ≡ false)
unfolding update_ep
update_ep-resolve_model fernet db p s m body rows r owner found sets =
    let t = p.tenant_id in
    let (own, of_tenant) = found_own fernet m t body sets rows r found in
    let made = update_makes fernet m t body sets rows r found in
    let cleared = clear_default r.tenant_id r.kind rows in
    let none_left : any (is_default_of (some t) r.kind) cleared ≡ false =
      rw of_tenant (cleared_find (some t) r.kind rows) in
    let still = own_cleared fernet m t body sets r.kind r.kind r.tenant_id rows ∙ own in
    elim (Bool-cases (is_storable body)) [
      | inl e ↦
          rw (rw e at made, owner, e)
            (
              refl,
              resolve_own fernet s (update_where (λ x. x.id == m) (patched fernet body) cleared)
                  r.kind t m (chosen fernet m t body sets r.kind cleared none_left still),
            )
      | inr e ↦ rw (rw e at made, owner, e) (refl, none_left)
    ]
