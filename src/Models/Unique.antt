-- ===== src/Models/Unique.antt =====
-- The table of models through any sequence of edits.
pub mod Updated
use kb_backend.Prelude.{
  is_some, ℕ, ◌+◌, ◌≤◌, ◌≡◌, refl, Bool, true, false, not, ◌&&◌, Option, List, [], ◌∷◌, ◌++◌, arith,
  ◌==◌, opt_eq, length, filter, any, length-append, filter-append, update_where, opt_eq_iff,
  Bool-cases, inl, ==_iff, inr, if◌then◌else◌, Option-cases, find, some, or_else,
}
use kb_backend.Models.{Kind, same_kind, ModelRow, Fernet, is_default_of, clear_default}
use kb_backend.Models.Edits.{
  provider_of, new_row, fits_columns, NewModel, create_model, Patch, is_own, update_model,
  delete_model, patched, sets_any,
}
use kb_backend.Prelude.Counts.{
  count, count-append, count_le, count-filter, count-update_where, count-updated, count_none,
}

-- An edit of the table by one of the three functions, for any tenant or for the system.
pub data Edit (fernet : Fernet) : List ModelRow → List ModelRow → Type 0 where
  create :
      (mid now : ℕ) (tenant_id : Option ℕ) (body : NewModel) (rows : List ModelRow)
      → Edit fernet rows (create_model fernet mid now tenant_id body rows).0
  update :
      (model_id : ℕ) (tenant_id : Option ℕ) (p : Patch) (rows : List ModelRow)
      → Edit fernet rows (update_model fernet model_id tenant_id p rows).0
  remove :
      (model_id : ℕ) (tenant_id : Option ℕ) (rows : List ModelRow)
      → Edit fernet rows (delete_model model_id tenant_id rows).0

pub data Edits (fernet : Fernet) (start : List ModelRow) : List ModelRow → Type 0 where
  here : Edits fernet start start
  next :
      {rows rows' : List ModelRow}
      → Edits fernet start rows
      → Edit fernet rows rows'
      → Edits fernet start rows'

-- No two rows have the same id, and no tenant, and the system neither, has two defaults of a kind.
pub record IsUnique (rows : List ModelRow) : Type 0 where
  pub ids : (m : ℕ) → count (λ r. r.id == m) rows ≤ 1
  pub defaults : (t : Option ℕ) (k : Kind) → count (is_default_of t k) rows ≤ 1

pub cleared_id :
    (t : Option ℕ) (k : Kind) (m : ℕ) (rows : List ModelRow)
    → count (λ r. r.id == m) (clear_default t k rows) ≤ count (λ r. r.id == m) rows
unfolding clear_default
cleared_id t k m rows =
    count-update_where (λ r. r.id == m) (λ r. opt_eq r.tenant_id t && same_kind r.kind k)
      (λ r. record r { is_default = false }) rows (λ r h. h)

pub cleared_defaults :
    (t t' : Option ℕ) (k k' : Kind) (rows : List ModelRow)
    → count (is_default_of t' k') (clear_default t k rows) ≤ count (is_default_of t' k') rows
unfolding clear_default is_default_of
cleared_defaults t t' k k' rows =
    count-update_where (is_default_of t' k') (λ r. opt_eq r.tenant_id t && same_kind r.kind k)
      (λ r. record r { is_default = false }) rows (λ r h. ground (arith, h))

cleared-IsUnique :
    (t : Option ℕ) (k : Kind) (rows : List ModelRow)
    → IsUnique rows
    → IsUnique (clear_default t k rows)
cleared-IsUnique t k rows h = record {
  ids = λ m. omega (arith, cleared_id t k m rows, h.ids m);
  defaults = λ t' k'. omega (arith, cleared_defaults t t' k k' rows, h.defaults t' k');
}

pub delete-IsUnique :
    (model_id : ℕ) (tenant_id : Option ℕ) (rows : List ModelRow)
    → IsUnique rows
    → IsUnique (delete_model model_id tenant_id rows).0
unfolding delete_model
delete-IsUnique model_id tenant_id rows h =
    let kept : ModelRow → Bool = λ r. not (is_own model_id tenant_id r) in
    record {
      ids = λ m. omega (arith, count-filter (λ (r : ModelRow). r.id == m) kept rows, h.ids m);
      defaults = λ t k. omega (arith, count-filter (is_default_of t k) kept rows, h.defaults t k);
    }

pub cleared_any :
    (t t' : Option ℕ) (k k' : Kind) (rows : List ModelRow)
    → opt_eq t t' ≡ true
    → same_kind k k' ≡ true
    → any (is_default_of t' k') (clear_default t k rows) ≡ false
unfolding clear_default is_default_of
cleared_any t t' k k' [] e f = refl
cleared_any t t' k k' (r ∷ rows) e f =
    let same : t ≡ t' = (opt_eq_iff t t').0 e in
    ground (arith, cleared_any t t' k k' rows, same, e, f)

-- An INSERT of a row with a new id, which is no default where there is one.
insert-IsUnique :
    (rows : List ModelRow) (row : ModelRow)
    → IsUnique rows
    → any (λ r. r.id == row.id) rows ≡ false
    → ((t : Option ℕ) (k : Kind)
        → is_default_of t k row ≡ true
        → count (is_default_of t k) rows ≡ 0)
    → IsUnique (rows ++ (row ∷ []))
insert-IsUnique rows row h fresh none_yet = record {
  ids = λ m. elim (Bool-cases (row.id == m)) [
    | inl e ↦
        let same : row.id ≡ m = (==_iff row.id m).0 e in
        let absent = count_none (λ (r : ModelRow). r.id == m) rows (rw (← same) fresh) in
        ground (arith, count-append (λ (r : ModelRow). r.id == m) rows (row ∷ []), absent)
    | inr e ↦ ground (arith, count-append (λ (r : ModelRow). r.id == m) rows (row ∷ []), h.ids m, e)
  ];
  defaults = λ t k.
      ground
        (arith, count-append (is_default_of t k) rows (row ∷ []), none_yet t k, h.defaults t k);
}

pub cleared_if :
    (b : Bool) (t : Option ℕ) (k : Kind) (rows : List ModelRow)
    → IsUnique rows
    → IsUnique (if b then clear_default t k rows else rows)
cleared_if true t k rows h = cleared-IsUnique t k rows h
cleared_if false t k rows h = h

new_default :
    (b : Bool) (t t' : Option ℕ) (k k' : Kind) (rows : List ModelRow)
    → (opt_eq t t' && same_kind k k' && b) ≡ true
    → count (is_default_of t' k') (if b then clear_default t k rows else rows) ≡ 0
new_default false t t' k k' rows h = absurd (ground (arith, h))
new_default true t t' k k' rows h =
    count_none (is_default_of t' k') (clear_default t k rows)
      (cleared_any t t' k k' rows (ground (arith, h)) (ground (arith, h)))

pub create-IsUnique :
    (fernet : Fernet) (mid now : ℕ) (tenant_id : Option ℕ) (body : NewModel) (rows : List ModelRow)
    → IsUnique rows
    → IsUnique (create_model fernet mid now tenant_id body rows).0
unfolding create_model is_default_of
create-IsUnique fernet mid now tenant_id body rows h = elim (Option-cases body.kind) [
  | inl e ↦ rw (create_model, e) h
  | inr (kind, e) ↦
      let cleared = if body.is_default then clear_default tenant_id kind rows else rows in
      let valid : IsUnique cleared = cleared_if body.is_default tenant_id kind rows h in
      elim (Option-cases body.model_name) [
        | inl f ↦ rw (create_model, e, f) valid
        | inr (model, f) ↦ elim (Bool-cases (any (λ (r : ModelRow). r.id == mid) cleared)) [
          | inl g ↦ rw (create_model, e, f, g) valid
          | inr g ↦
              elim (Bool-cases (
                is_some (provider_of body)
                && fits_columns (new_row fernet mid now tenant_id body kind model))) [
                  | inr l ↦ rw (create_model, e, f, g, l) valid
                  | inl l ↦
                      rw (create_model, e, f, g, l)
                        (insert-IsUnique cleared _ valid g
                          (λ t k. new_default body.is_default tenant_id t kind k rows))
                ]
        ]
      ]
]
