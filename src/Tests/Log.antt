-- ===== src/Tests/Log.antt =====
-- The audit log at concrete inputs, with stand-ins for Python's library.
use kb_backend.Prelude.{
  ℕ, ◌≡◌, refl, ◌≢◌, true, false, some, none, List, [], ◌∷◌, ◌++◌, or_else, arith,
}
use kb_backend.Audit.Overtaken.{overtaken-verified}
use kb_backend.Audit.{
  read_tail, insert_row, append_audit, chain_tail, nonempty, Payload, AuditRow, Hashing,
  verify_audit_chain, verified, canon_payload, row_hash_of, prev_hex,
}
use kb_backend.Audit.Chain.{append_all, appended-verified}
use kb_backend.Audit.Tampering.{changed_columns_detected}

abbrev pub toy : Hashing
toy = record {
  dumps = λ p. or_else p.user_id 0 ∷ [];
  canon_ip = λ s. s;
  hex = λ b. b;
  sha256 = λ t. t;
}

abbrev entry : ℕ → ℕ → Payload
entry tenant_id user_id = record {
  tenant_id = some tenant_id;
  user_id = some user_id;
  action = "search";
  kb_ids = some (3 ∷ 2 ∷ []);
  query_text = none;
  hit_chunk_ids = none;
  result = "ok";
  request_id = none;
  ip = none;
  user_agent = none;
  detail = none;
}

abbrev calls : List (ℕ × Payload)
calls = (1, entry 1 10) ∷ (2, entry 2 20) ∷ (3, entry 1 11) ∷ (4, entry 1 12) ∷ []

appended-verified_example :
    verified (verify_audit_chain toy (some 1) (append_all toy calls [])) ≡ true
appended-verified_example = appended-verified toy calls (some 1)

abbrev written : AuditRow
written = record { id = 1; fields = entry 1 10; prev_hash = none; row_hash = some (b'|' ∷ 10 ∷ []) }

written_hash :
    written.row_hash ≡ some (row_hash_of toy written.prev_hash (canon_payload toy written.fields))
unfolding row_hash_of prev_hex canon_payload
written_hash = refl

other_text :
    toy.dumps (canon_payload toy (entry 1 99)) ≢ toy.dumps (canon_payload toy written.fields)
unfolding canon_payload
other_text e = ground arith

changed_columns_detected_example :
    verified (verify_audit_chain toy (some 1) ([] ++ (record written { fields = entry 1 99 } ∷ [])))
    ≡ false
changed_columns_detected_example =
    changed_columns_detected toy [] [] written (entry 1 99) (λ x y e. e) written_hash other_text

-- the row 1 is there, an append reads it, and another one inserts the row 2
at_tail : read_tail true (some 1) (written ∷ []) ≡ some (b'|' ∷ 10 ∷ [])
unfolding read_tail chain_tail nonempty
at_tail = refl

other_hash : row_hash_of toy none (canon_payload toy (entry 1 11)) ≢ (b'|' ∷ 10 ∷ [])
unfolding row_hash_of prev_hex canon_payload
other_hash e = ground arith

overtaken-verified_example :
    verified (
      verify_audit_chain toy (some 1) (
        insert_row toy 3
          (read_tail true (some 1) (written ∷ []))
          (entry 1 12)
          (append_audit toy false 2 (entry 1 11) (written ∷ []))))
    ≡ false
overtaken-verified_example =
    overtaken-verified toy (written ∷ []) 2 3 (entry 1 12) (entry 1 11) (b'|' ∷ 10 ∷ []) refl
      at_tail other_hash
