-- ===== src/Relay/Accounts.antt =====
-- The bookkeeping of `drain`, for every client of the index.
use kb_backend.Prelude.{
  ℕ, ◌+◌, ◌≤◌, ◌<◌, ◌≡◌, refl, sym, ◌⊎◌, inl, inr, true, false, Option, none, some, [], ◌∷◌, arith,
  if◌then◌else◌, Bool-cases, is_some, leb,
}
use kb_backend.Es.{Client}
use kb_backend.Relay.{
  Outbox, OutboxRow, pending, published, failed, is_pending, pending_count, publish, drain_row,
  drain_rows, drain, Status,
}

-- What the status of a row says of its other columns.
abbrev pub ColumnsOf : ℕ → Status → Option ℕ → ℕ → Type 0
ColumnsOf max_attempts published published_at attempts = is_some published_at ≡ true
ColumnsOf max_attempts failed published_at attempts =
    (published_at ≡ none) × (max_attempts ≤ attempts)
ColumnsOf max_attempts pending published_at attempts =
    (published_at ≡ none) × ((attempts ≡ 0) ⊎ (attempts < max_attempts))

abbrev pub IsConsistent : {F : Type 0} → ℕ → OutboxRow F → Type 0
IsConsistent max_attempts r = ColumnsOf max_attempts r.status r.published_at r.attempts

abbrev pub AllConsistent : {F : Type 0} → ℕ → Outbox F → Type 0
AllConsistent max_attempts [] = Unit
AllConsistent max_attempts (r ∷ rows) =
    IsConsistent max_attempts r × AllConsistent max_attempts rows

module _ {F S : Type 0} (es : Client F S) (max_attempts now : ℕ) where
  -- One row: published rows leave the selection, failed ones stay in it.
  row-is_pending :
      (file_id : Option ℕ) (r : OutboxRow F) (s : S)
      → is_pending file_id r ≡ true
      → let (r', _, ok) = drain_row es max_attempts now r s in
        is_pending file_id r' ≡ (if ok then false else true)
  unfolding drain_row is_pending
  row-is_pending none r s h = ground arith
  row-is_pending (some f) r s h = ground arith

  -- The two cases of one round of the loop.
  pub drain_rows-skip :
      (file_id : Option ℕ) (r : OutboxRow F) (rows : Outbox F) (s : S)
      → is_pending file_id r ≡ false
      → drain_rows es max_attempts now file_id (r ∷ rows) s ≡ (
          let (rows', s', done, bad) = drain_rows es max_attempts now file_id rows s in
          (r ∷ rows', s', done, bad))
  unfolding drain_rows
  drain_rows-skip file_id r rows s e = rw (e, drain_rows)

  pub drain_rows-take :
      (file_id : Option ℕ) (r : OutboxRow F) (rows : Outbox F) (s : S)
      → is_pending file_id r ≡ true
      → drain_rows es max_attempts now file_id (r ∷ rows) s ≡ (
          let (r', s', ok) = drain_row es max_attempts now r s in
          let (rows', s'', done, bad) = drain_rows es max_attempts now file_id rows s' in
          (r' ∷ rows', s'', if ok then done + 1 else done, if ok then bad else bad + 1))
  unfolding drain_rows
  drain_rows-take file_id r rows s e = rw (e, drain_rows)

  count_rows :
      (file_id : Option ℕ) (rows : Outbox F) (s : S)
      → let (rows', _, done, bad) = drain_rows es max_attempts now file_id rows s in
        (bad ≡ pending_count file_id rows') × (done + bad ≡ pending_count file_id rows)
  unfolding drain_rows pending_count
  count_rows file_id [] s = (refl, omega arith)
  count_rows file_id (r ∷ rows) s = elim (Bool-cases (is_pending file_id r)) [
    | inl e ↦
        let (r', s', ok) = drain_row es max_attempts now r s in
        ground (arith, row-is_pending file_id r s e, count_rows file_id rows s')
    | inr e ↦ ground (arith, count_rows file_id rows s)
  ]

  -- Whatever calls raise: every selected row is counted once, as published or as failed, and the
  -- rows that remain pending afterwards, the number that the barrier of an ingest tests, are exactly
  -- those whose publication failed.
  pub drain_accounts :
      (file_id : Option ℕ) (rows : Outbox F) (s : S)
      → let (rows', _, d) = drain es max_attempts now file_id rows s in
        (d.published + d.failed ≡ pending_count file_id rows)
        × (d.remaining ≡ d.failed)
        × (pending_count file_id rows' ≡ d.remaining)
  unfolding drain
  drain_accounts file_id rows s =
      let (bad, total) = count_rows file_id rows s in (total, sym bad, refl)

  row-IsConsistent :
      (r : OutboxRow F) (s : S)
      → r.published_at ≡ none
      → IsConsistent max_attempts (drain_row es max_attempts now r s).0
  unfolding drain_row
  row-IsConsistent r s h = elim (Bool-cases (publish es r.event s).0) [
    | inl e ↦ rw e refl
    | inr e ↦ elim (Bool-cases (leb max_attempts (r.attempts + 1))) [
      | inl l ↦ rw (e, l) (h, ground arith)
      | inr l ↦ rw (e, l) (h, inr (ground arith))
    ]
  ]

  pending_unstamped :
      (file_id : Option ℕ) (r : OutboxRow F) → is_pending file_id r ≡ true → r.published_at ≡ none
  unfolding is_pending
  pending_unstamped none r h = ground arith
  pending_unstamped (some f) r h = ground arith

  rows-AllConsistent :
      (file_id : Option ℕ) (rows : Outbox F) (s : S)
      → AllConsistent max_attempts rows
      → AllConsistent max_attempts (drain_rows es max_attempts now file_id rows s).0
  rows-AllConsistent file_id [] s h = unfold drain_rows in tt
  rows-AllConsistent file_id (r ∷ rows) s h = elim (Bool-cases (is_pending file_id r)) [
    | inl e ↦
        let (r', s', ok) = drain_row es max_attempts now r s in
        rw (drain_rows-take file_id r rows s e) (
          row-IsConsistent r s (pending_unstamped file_id r e),
          rows-AllConsistent file_id rows s' h.1,
        )
    | inr e ↦ rw (drain_rows-skip file_id r rows s e) (h.0, rows-AllConsistent file_id rows s h.1)
  ]

  -- A drain, whatever calls raise, keeps the columns of every row consistent: a published row has its
  -- time, a failed row has none and has used up its attempts, a pending row has none and is new or
  -- has attempts left.
  pub drain-AllConsistent :
      (file_id : Option ℕ) (rows : Outbox F) (s : S)
      → AllConsistent max_attempts rows
      → AllConsistent max_attempts (drain es max_attempts now file_id rows s).0
  unfolding drain
  drain-AllConsistent file_id rows s h = rows-AllConsistent file_id rows s h
