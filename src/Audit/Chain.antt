-- ===== src/Audit/Chain.antt =====
-- Logs that `append_audit` writes pass `verify_audit_chain`.
use mathlib.Core.List.{append-nil}
use kb_backend.Prelude.{
  ℕ, ◌≡◌, refl, ◌⊎◌, inl, inr, Bool, true, false, Option, none, some, List, [], ◌∷◌, ◌++◌, arith,
  if◌then◌else◌, Bool-cases, is_some, opt_eq, opt_eq_iff, filter, filter-append, list_eq_iff,
}
use kb_backend.Audit.{
  Bytes, Payload, AuditRow, Hashing, Scan, scan_start, canon_payload, row_hash_of, chain_tail,
  nonempty, append_audit, scan_link, scan_count, scan_row, scan, verify_audit_chain, verified,
  insert_row, read_tail,
}

-- The hash that the next row of a bucket may refer to: that of the last row of these, or the one
-- that was there before them.
abbrev pub last_hash : Option Bytes → List AuditRow → Option Bytes
last_hash before [] = before
last_hash before (r ∷ rows) = last_hash r.row_hash rows

module _ (hashing : Hashing) where
  -- Each row has the hash of its columns, and refers to the row before it or to none.
  pub record IsLinked (before : Option Bytes) (r : AuditRow) : Type 0 where
    pub hashed :
        r.row_hash ≡ some (row_hash_of hashing r.prev_hash (canon_payload hashing r.fields))
    pub linked : (r.prev_hash ≡ none) ⊎ (r.prev_hash ≡ before)

  abbrev pub IsChain : Option Bytes → List AuditRow → Type 0
  IsChain before [] = Unit
  IsChain before (r ∷ rows) = IsLinked before r × IsChain r.row_hash rows

  abbrev Clean : Scan → Type 0
  Clean s = (s.mismatches ≡ 0) × (s.breaks ≡ 0)

  scan_link-Clean :
      (prev : Option Bytes) (id : ℕ) (s : Scan)
      → (prev ≡ none) ⊎ (prev ≡ s.prev_row_hash)
      → Clean s
      → Clean (scan_link prev id s)
  unfolding scan_link
  scan_link-Clean none id s l h = ground arith
  scan_link-Clean (some p) id s l h = ground (arith, (list_eq_iff p p).1 refl)

  scan_row-Clean :
      (r : AuditRow) (s : Scan)
      → IsLinked s.prev_row_hash r
      → Clean s
      → Clean (scan_row hashing r s) × ((scan_row hashing r s).prev_row_hash ≡ r.row_hash)
  unfolding scan_row
  scan_row-Clean r s link h =
      let hash = row_hash_of hashing r.prev_hash (canon_payload hashing r.fields) in
      let same = (list_eq_iff hash hash).1 refl in
      rw (link.hashed, same)
        (scan_link-Clean r.prev_hash r.id (scan_count r.id s) link.linked h, refl)

  scan-Clean :
      (rows : List AuditRow) (s : Scan)
      → IsChain s.prev_row_hash rows
      → Clean s
      → Clean (scan hashing rows s)
  unfolding scan
  scan-Clean [] s c h = h
  scan-Clean (r ∷ rows) s (link, c) h =
      let (h', e) = scan_row-Clean r s link h in scan-Clean rows (scan_row hashing r s) (rw e c) h'

  IsChain-append :
      (before : Option Bytes) (rows : List AuditRow) (r : AuditRow)
      → IsChain before rows
      → IsLinked (last_hash before rows) r
      → IsChain before (rows ++ (r ∷ []))
  IsChain-append before [] r c l = (l, tt)
  IsChain-append before (x ∷ rows) r (k, c) l = (k, IsChain-append x.row_hash rows r c l)

  -- Of each bucket, the rows are a chain.
  abbrev pub IsIntact : List AuditRow → Type 0
  IsIntact log = (t : Option ℕ) → IsChain none (filter (λ r. opt_eq r.fields.tenant_id t) log)

  -- the tail that `append_audit` reads is the hash of the last row of the bucket
  tail_is_last :
      (t : Option ℕ) (before : Option Bytes) (log : List AuditRow)
      → IsChain before (filter (λ r. opt_eq r.fields.tenant_id t) log)
      → (if is_some (chain_tail t log) then chain_tail t log else before)
        ≡ last_hash before (filter (λ r. opt_eq r.fields.tenant_id t) log)
  unfolding chain_tail
  tail_is_last t before [] c = refl
  tail_is_last t before (r ∷ log) c = elim (Bool-cases (opt_eq r.fields.tenant_id t)) [
    | inl e ↦
        let (link, rest) = rw e at c in
        rw e (ground (arith, link.hashed, tail_is_last t r.row_hash log rest))
    | inr e ↦ rw e (ground (arith, tail_is_last t before log (rw e at c)))
  ]

  nonempty_or : (h : Option Bytes) → (nonempty h ≡ none) ⊎ (nonempty h ≡ h)
  unfolding nonempty
  nonempty_or none = inl refl
  nonempty_or (some []) = inl refl
  nonempty_or (some (b ∷ bs)) = inr refl

  appended : Bool → ℕ → Payload → List AuditRow → AuditRow
  appended got id fields log =
      let prev = if got then nonempty (chain_tail fields.tenant_id log) else none in
      record {
        id = id;
        fields = fields;
        prev_hash = prev;
        row_hash = some (row_hash_of hashing prev (canon_payload hashing fields));
      }

  appended-IsLinked :
      (got : Bool) (id : ℕ) (fields : Payload) (log : List AuditRow)
      → IsLinked (chain_tail fields.tenant_id log) (appended got id fields log)
  unfolding appended
  appended-IsLinked false id fields log = record { hashed = refl; linked = inl refl }
  appended-IsLinked true id fields log = record {
    hashed = refl;
    linked = nonempty_or (chain_tail fields.tenant_id log);
  }

  tail_or_none :
      (t : Option ℕ) (log : List AuditRow)
      → IsIntact log
      → chain_tail t log ≡ last_hash none (filter (λ r. opt_eq r.fields.tenant_id t) log)
  tail_or_none t log h = ground (arith, tail_is_last t none log (h t))

  -- Whether or not the lock was taken, an append keeps every bucket a chain: the new row has the
  -- hash of its columns and refers to the last row of its own bucket, or starts afresh.
  pub append_audit-IsIntact :
      (got : Bool) (id : ℕ) (fields : Payload) (log : List AuditRow)
      → IsIntact log
      → IsIntact (append_audit hashing got id fields log)
  unfolding append_audit insert_row read_tail appended
  append_audit-IsIntact got id fields log h t =
      let row = appended got id fields log in
      let bucket = filter (λ r. opt_eq r.fields.tenant_id t) log in
      elim (Bool-cases (opt_eq fields.tenant_id t)) [
        | inl e ↦
            let same = (opt_eq_iff fields.tenant_id t).0 e in
            rw (filter-append (λ r. opt_eq r.fields.tenant_id t) log (row ∷ []), e)
              (IsChain-append none bucket row (h t)
                (rw (← tail_or_none t log h, ← same) (appended-IsLinked got id fields log)))
        | inr e ↦
            rw (filter-append (λ r. opt_eq r.fields.tenant_id t) log (row ∷ []), e, append-nil)
              (h t)
      ]

  -- Appends of which each gets the lock and has come to its end before the next: the id and the
  -- columns.
  abbrev pub append_all : List (ℕ × Payload) → List AuditRow → List AuditRow
  append_all [] log = log
  append_all ((id, fields) ∷ calls) log = append_all calls (append_audit hashing true id fields log)

  append_all-IsIntact :
      (calls : List (ℕ × Payload)) (log : List AuditRow)
      → IsIntact log
      → IsIntact (append_all calls log)
  append_all-IsIntact [] log h = h
  append_all-IsIntact ((id, fields) ∷ calls) log h =
      append_all-IsIntact calls (append_audit hashing true id fields log)
        (append_audit-IsIntact true id fields log h)

  -- Whatever rows the program appends, to whatever buckets, if each append gets its lock and no two
  -- overlap: the verification of each bucket finds no changed column and no broken link.
  pub appended-verified :
      (calls : List (ℕ × Payload)) (t : Option ℕ)
      → verified (verify_audit_chain hashing t (append_all calls [])) ≡ true
  unfolding verify_audit_chain verified
  appended-verified calls t =
      let intact = append_all-IsIntact calls [] (λ q. tt) in
      ground (
        arith,
        scan-Clean (filter (λ r. opt_eq r.fields.tenant_id t) (append_all calls [])) scan_start
            (intact t) (refl, refl),
      )
