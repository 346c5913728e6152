-- ===== src/Models/Unique/Updated.antt =====
-- An update keeps the table of models unique, and so does any sequence of edits.
use kb_backend.Prelude.{
  ℕ, ◌≤◌, ◌≡◌, refl, Bool, true, false, ◌&&◌, Option, List, [], ◌∷◌, arith, ◌==◌, opt_eq,
  update_where, Bool-cases, inl, inr, Option-cases, find, some, or_else,
}
use kb_backend.Models.{Kind, same_kind, ModelRow, Fernet, is_default_of, clear_default}
use kb_backend.Models.Edits.{is_storable, Patch, is_own, update_model, patched, sets_any}
use kb_backend.Prelude.Counts.{count, count_le, count-update_where, count-updated, count_none}
use kb_backend.Models.Unique.{
  cleared_if, Edit, create, update, remove, Edits, here, next, IsUnique, cleared_id,
  cleared_defaults, cleared_any, create-IsUnique, delete-IsUnique,
}

module _ (m : ℕ) (t : Option ℕ) (r : ModelRow) where
  found_count :
      (rows : List ModelRow) → find (is_own m t) rows ≡ some r → 1 ≤ count (λ x. x.id == m) rows
  unfolding is_own
  found_count [] h = absurd (ground arith)
  found_count (x ∷ xs) h = ground (arith, found_count xs)

  -- Of rows with unique ids, those with the id of a row that was found are this row.
  found_only :
      (q : ModelRow → Bool) (rows : List ModelRow)
      → find (is_own m t) rows ≡ some r
      → q r ≡ false
      → count (λ x. x.id == m) rows ≤ 1
      → count (λ x. (x.id == m) && q x) rows ≡ 0
  unfolding is_own
  found_only q [] h e one = refl
  found_only q (x ∷ xs) h e one = ground (
    arith,
    found_count xs,
    found_only q xs,
    count_le (λ (y : ModelRow). (y.id == m) && q y) (λ y. y.id == m) xs (λ y k. ground (arith, k)),
  )

module _ (fernet : Fernet) (m : ℕ) (p : Patch) where
  abbrev patch_rows : List ModelRow → List ModelRow
  patch_rows rows = update_where (λ x. x.id == m) (patched fernet p) rows

  patched_ids :
      (k : ℕ) (rows : List ModelRow)
      → count (λ r. r.id == k) (patch_rows rows) ≤ count (λ r. r.id == k) rows
  unfolding patched
  patched_ids k rows =
      count-update_where (λ (r : ModelRow). r.id == k) (λ x. x.id == m) (patched fernet p) rows
        (λ r h. h)

  -- A patch that makes no default.
  plain-IsUnique :
      (rows : List ModelRow)
      → or_else p.is_default false ≡ false
      → IsUnique rows
      → IsUnique (patch_rows rows)
  unfolding patched is_default_of
  plain-IsUnique rows e h = record {
    ids = λ k. omega (arith, patched_ids k rows, h.ids k);
    defaults = λ t k.
        let fewer =
          count-update_where (is_default_of t k) (λ x. x.id == m) (patched fernet p) rows
            (λ r d. ground (arith, e, d)) in
        omega (arith, fewer, h.defaults t k);
  }

  abbrev would_be : Option ℕ → Kind → ModelRow → Bool
  would_be t k x = opt_eq x.tenant_id t && same_kind x.kind k

  -- The rows that the patch makes defaults are the row that was found.
  made_defaults :
      (t t' : Option ℕ) (k' : Kind) (rows : List ModelRow) (r : ModelRow)
      → p.is_default ≡ some true
      → IsUnique rows
      → find (is_own m t) rows ≡ some r
      → would_be t' k' r ≡ false
      → count
          (λ x. (x.id == m) && is_default_of t' k' (patched fernet p x))
          (clear_default r.tenant_id r.kind rows)
        ≡ 0
  unfolding patched is_default_of clear_default
  made_defaults t t' k' rows r e h found other =
      let passes : ModelRow → Bool = λ x. (x.id == m) && would_be t' k' x in
      let fewer =
        count-update_where (λ x. (x.id == m) && is_default_of t' k' (patched fernet p x))
          (λ x. would_be r.tenant_id r.kind x) (λ x. record x { is_default = false }) rows
          (λ x d. ground (arith, e, d)) in
      let same =
        count_le (λ x. (x.id == m) && is_default_of t' k' (patched fernet p x)) passes rows
          (λ x d. ground (arith, d)) in
      omega (arith, fewer, same, found_only m t r (would_be t' k') rows found other (h.ids m))

  default-IsUnique :
      (t : Option ℕ) (rows : List ModelRow) (r : ModelRow)
      → p.is_default ≡ some true
      → IsUnique rows
      → find (is_own m t) rows ≡ some r
      → IsUnique (patch_rows (clear_default r.tenant_id r.kind rows))
  default-IsUnique t rows r e h found =
      let cleared = clear_default r.tenant_id r.kind rows in
      record {
        ids = λ k.
            omega (arith, patched_ids k cleared, cleared_id r.tenant_id r.kind k rows, h.ids k);
        defaults = λ t' k'.
            let bound =
              count-updated (is_default_of t' k') (λ x. x.id == m) (patched fernet p) cleared in
            elim (Bool-cases (would_be t' k' r)) [
              | inl own ↦
                  let none_left = count_none (is_default_of t' k') cleared (
                    cleared_any r.tenant_id t' r.kind k' rows (ground (arith, own))
                      (ground (arith, own))) in
                  let few =
                    count_le (λ x. (x.id == m) && is_default_of t' k' (patched fernet p x))
                      (λ x. x.id == m) cleared (λ x d. ground (arith, d)) in
                  omega
                    (arith, bound, none_left, few, cleared_id r.tenant_id r.kind m rows, h.ids m)
              | inr other ↦ omega (
                arith,
                bound,
                made_defaults t t' k' rows r e h found other,
                cleared_defaults r.tenant_id t' r.kind k' rows,
                h.defaults t' k',
              )
            ];
      }

  update-IsUnique :
      (t : Option ℕ) (rows : List ModelRow)
      → IsUnique rows
      → IsUnique (update_model fernet m t p rows).0
  unfolding update_model
  update-IsUnique t rows h = elim (Option-cases (find (is_own m t) rows)) [
    | inl e ↦ rw (update_model, e) h
    | inr (r, e) ↦ elim (Bool-cases (sets_any p)) [
      | inr s ↦ rw (update_model, e, s) h
      | inl s ↦ elim (Bool-cases (is_storable p)) [
        | inr b ↦
            rw (update_model, e, s, b)
              (cleared_if (or_else p.is_default false) r.tenant_id r.kind rows h)
        | inl b ↦ elim (Bool-cases (or_else p.is_default false)) [
          | inr d ↦ rw (update_model, e, s, b, d) (plain-IsUnique rows d h)
          | inl d ↦
              rw (update_model, e, s, b, d) (default-IsUnique t rows r (ground (arith, d)) h e)
        ]
      ]
    ]
  ]

Edit-IsUnique :
    (fernet : Fernet) {rows rows' : List ModelRow}
    → Edit fernet rows rows'
    → IsUnique rows
    → IsUnique rows'
Edit-IsUnique fernet (create mid now tenant_id body rows) h =
    create-IsUnique fernet mid now tenant_id body rows h
Edit-IsUnique fernet (update model_id tenant_id p rows) h =
    update-IsUnique fernet model_id p tenant_id rows h
Edit-IsUnique fernet (remove model_id tenant_id rows) h = delete-IsUnique model_id tenant_id rows h

-- Whatever creations, updates and deletions the tenants and the system make, in any order: if at the
-- start no two rows have the same id, and no tenant (or the system) has two defaults of a kind, this
-- is so afterwards.
pub Edits-IsUnique :
    (fernet : Fernet) {start rows : List ModelRow}
    → Edits fernet start rows
    → IsUnique start
    → IsUnique rows
Edits-IsUnique fernet here h = h
Edits-IsUnique fernet (next before edit) h =
    Edit-IsUnique fernet edit (Edits-IsUnique fernet before h)
