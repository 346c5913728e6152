-- ===== src/Audit/Tampering.antt =====
-- `verify_audit_chain` finds columns that were changed behind its back.
use kb_backend.Prelude.{
  ℕ, ◌≤◌, ◌<◌, ◌≡◌, refl, ◌≢◌, inl, inr, false, Option, none, some, List, [], ◌∷◌, ◌++◌, arith,
  Bool-cases, Option-cases, opt_eq, opt_eq_iff, filter, filter-append, list_eq, list_eq_iff,
}
use kb_backend.Audit.{
  Bytes, Payload, AuditRow, Hashing, Scan, scan_start, canon_payload, row_hash_of, prev_hex,
  scan_hash, scan_link, scan_count, scan_row, scan, verify_audit_chain, verified,
}

module _ (hashing : Hashing) where
  scan_link-mismatches :
      (prev : Option Bytes) (id : ℕ) (s : Scan) → (scan_link prev id s).mismatches ≡ s.mismatches
  unfolding scan_link
  scan_link-mismatches none id s = ground arith
  scan_link-mismatches (some p) id s = ground arith

  scan_row-grows : (r : AuditRow) (s : Scan) → s.mismatches ≤ (scan_row hashing r s).mismatches
  unfolding scan_row scan_hash scan_count
  scan_row-grows r s =
      let same = list_eq (row_hash_of hashing r.prev_hash (canon_payload hashing r.fields)) in
      elim (Option-cases r.row_hash) [
        | inl e ↦ rw e (omega arith)
        | inr (h, e) ↦
            rw
              (
                e,
                scan_link-mismatches r.prev_hash r.id (scan_hash (same h) r.id (scan_count r.id s)),
              )
              (ground arith)
      ]

  scan-grows : (rows : List AuditRow) (s : Scan) → s.mismatches ≤ (scan hashing rows s).mismatches
  unfolding scan
  scan-grows [] s = omega arith
  scan-grows (r ∷ rows) s =
      omega (arith, scan_row-grows r s, scan-grows rows (scan_row hashing r s))

  -- The hash that the row stores is not that of its columns.
  pub record IsForged (r : AuditRow) : Type 0 where
    pub stored : Bytes
    pub at_row : r.row_hash ≡ some stored
    pub differs : row_hash_of hashing r.prev_hash (canon_payload hashing r.fields) ≢ stored

  scan_row-forged : (r : AuditRow) (s : Scan) → IsForged r → 0 < (scan_row hashing r s).mismatches
  unfolding scan_row scan_hash scan_count
  scan_row-forged r s f =
      let hash = row_hash_of hashing r.prev_hash (canon_payload hashing r.fields) in
      let other : list_eq hash f.stored ≡ false = elim (Bool-cases (list_eq hash f.stored)) [
        | inl e ↦ absurd (f.differs ((list_eq_iff hash f.stored).0 e))
        | inr e ↦ e
      ] in
      rw
        (
          f.at_row,
          other,
          scan_link-mismatches r.prev_hash r.id (scan_hash false r.id (scan_count r.id s)),
        )
        (omega arith)

  scan-forged :
      (pre post : List AuditRow) (r : AuditRow) (s : Scan)
      → IsForged r
      → 0 < (scan hashing (pre ++ (r ∷ post)) s).mismatches
  unfolding scan
  scan-forged [] post r s f =
      omega (arith, scan_row-forged r s f, scan-grows post (scan_row hashing r s))
  scan-forged (x ∷ pre) post r s f = scan-forged pre post r (scan_row hashing x s) f

  forged-verified :
      (t : Option ℕ) (pre post : List AuditRow) (r : AuditRow)
      → r.fields.tenant_id ≡ t
      → IsForged r
      → verified (verify_audit_chain hashing t (pre ++ (r ∷ post))) ≡ false
  unfolding verify_audit_chain verified
  forged-verified t pre post r e f =
      let in_bucket = λ (r : AuditRow). opt_eq r.fields.tenant_id t in
      let found = scan-forged (filter in_bucket pre) (filter in_bucket post) r scan_start f in
      rw (filter-append in_bucket pre (r ∷ post), (opt_eq_iff r.fields.tenant_id t).1 e)
        (ground (arith, found))

  append_cancel : (xs ys zs : List ℕ) → xs ++ ys ≡ xs ++ zs → ys ≡ zs
  append_cancel [] ys zs h = h
  append_cancel (x ∷ xs) ys zs h = append_cancel xs ys zs (cc)

  -- Where no two texts have one digest: if the columns of a row of a log are replaced by ones whose
  -- canonical JSON text differs, the row's two hash columns being left as `append_audit` wrote them,
  -- the verification of its bucket fails, whatever the other rows are.
  pub changed_columns_detected :
      (pre post : List AuditRow) (r : AuditRow) (fields : Payload)
      → ((x y : List ℕ) → hashing.sha256 x ≡ hashing.sha256 y → x ≡ y)
      → r.row_hash ≡ some (row_hash_of hashing r.prev_hash (canon_payload hashing r.fields))
      → hashing.dumps (canon_payload hashing fields)
        ≢ hashing.dumps (canon_payload hashing r.fields)
      → verified (
          verify_audit_chain hashing fields.tenant_id
            (pre ++ (record r { fields = fields } ∷ post)))
        ≡ false
  unfolding row_hash_of
  changed_columns_detected pre post r fields injective h ne =
      forged-verified fields.tenant_id pre post (record r { fields = fields }) refl
        (record {
          stored = row_hash_of hashing r.prev_hash (canon_payload hashing r.fields);
          at_row = h;
          differs =
              λ e. ne (cc (append_cancel (prev_hex hashing r.prev_hash) _ _ (injective _ _ e)));
        })
