-- ===== src/Audit/Overtaken.antt =====
-- An append that misses the lock of its bucket.
use kb_backend.Prelude.{
  sym, ℕ, ◌≡◌, refl, ◌≢◌, inl, inr, false, true, Option, none, some, List, [], ◌∷◌, ◌++◌, arith,
  Bool-cases, opt_eq, opt_eq_iff, filter, filter-append, list_eq, list_eq_iff,
}
use kb_backend.Audit.{
  Bytes, Payload, AuditRow, Hashing, Scan, scan_start, canon_payload, row_hash_of, scan_hash,
  scan_link, scan_count, scan_row, scan, verify_audit_chain, verified, read_tail, insert_row,
  append_audit,
}

module _ (hashing : Hashing) where
  scan-append :
      (xs ys : List AuditRow) (s : Scan)
      → scan hashing (xs ++ ys) s ≡ scan hashing ys (scan hashing xs s)
  unfolding scan
  scan-append [] ys s = refl
  scan-append (x ∷ xs) ys s = scan-append xs ys (scan_row hashing x s)

  -- A row that refers to another hash than that of the row before it is a break.
  breaks_at :
      (r : AuditRow) (s : Scan) (prev before hash : Bytes)
      → r.prev_hash ≡ some prev
      → r.row_hash ≡ some hash
      → s.prev_row_hash ≡ some before
      → list_eq prev before ≡ false
      → verified (scan_row hashing r s) ≡ false
  unfolding scan_row scan_hash scan_count scan_link verified
  breaks_at r s prev before hash p h b ne =
      elim (Bool-cases
        (list_eq (row_hash_of hashing (some prev) (canon_payload hashing r.fields)) hash)) [
          | inl e ↦ rw (h, p, e, b, ne) (ground arith)
          | inr e ↦ rw (h, p, e, b, ne) (ground arith)
        ]

  scanned-hash :
      (r : AuditRow) (s : Scan) (hash : Bytes)
      → r.row_hash ≡ some hash
      → (scan_row hashing r s).prev_row_hash ≡ some hash
  unfolding scan_row
  scanned-hash r s hash h = rw h refl

  differ : (x y : Bytes) → x ≢ y → list_eq x y ≡ false
  differ x y ne = elim (Bool-cases (list_eq x y)) [
    | inl e ↦ absurd (ne ((list_eq_iff x y).0 e))
    | inr e ↦ e
  ]

  two_rows :
      (t : Option ℕ) (log : List AuditRow) (r r' : AuditRow) (tail hash hash' : Bytes)
      → r.fields.tenant_id ≡ t
      → r'.fields.tenant_id ≡ t
      → r.row_hash ≡ some hash
      → r'.row_hash ≡ some hash'
      → r'.prev_hash ≡ some tail
      → hash ≢ tail
      → verified (verify_audit_chain hashing t ((log ++ (r ∷ [])) ++ (r' ∷ []))) ≡ false
  unfolding verify_audit_chain scan
  two_rows t log r r' tail hash hash' e e' h h' p ne =
      let own = λ (x : AuditRow). opt_eq x.fields.tenant_id t in
      let s = scan hashing (filter own log) scan_start in
      rw
        (
          filter-append own (log ++ (r ∷ [])) (r' ∷ []),
          filter-append own log (r ∷ []),
          (opt_eq_iff r.fields.tenant_id t).1 e,
          (opt_eq_iff r'.fields.tenant_id t).1 e',
          scan-append (filter own log ++ (r ∷ [])) (r' ∷ []) scan_start,
          scan-append (filter own log) (r ∷ []) scan_start,
        )
        (breaks_at r' (scan_row hashing r s) tail hash hash' p h' (scanned-hash r s hash h)
          (differ tail hash (λ same. ne (sym same))))

  missed :
      (log : List AuditRow) (id : ℕ) (late : Payload)
      → append_audit hashing false id late log ≡ insert_row hashing id none late log
  unfolding append_audit read_tail
  missed log id late = refl

  -- An append got the lock and has read the tail of its bucket. Before it inserts its row, another
  -- append to the bucket, which missed the lock, inserts one. Then, if the other row does not have the
  -- hash of the tail, the verification of the bucket fails, whatever rows there were.
  pub overtaken-verified :
      (log : List AuditRow) (id id' : ℕ) (fields late : Payload) (tail : Bytes)
      → late.tenant_id ≡ fields.tenant_id
      → read_tail true fields.tenant_id log ≡ some tail
      → row_hash_of hashing none (canon_payload hashing late) ≢ tail
      → verified (
          verify_audit_chain hashing fields.tenant_id (
            insert_row hashing id'
              (read_tail true fields.tenant_id log)
              fields
              (append_audit hashing false id late log)))
        ≡ false
  unfolding insert_row
  overtaken-verified log id id' fields late tail bucket read ne =
      rw (read, missed log id late)
        (two_rows fields.tenant_id log _ _ tail _ _ bucket refl refl refl refl ne)
