-- ===== src/Relay.antt =====
-- app/indexing/relay.py: the outbox, and the relay that publishes its events to the index.
-- A row's payload is modelled as the value that `json.loads` gives; `last_error` is left out.
pub mod Accounts
pub mod Drain
pub mod Effects
pub mod Emitted
use kb_backend.Prelude.{
  ℕ, ◌+◌, String, Bool, true, false, not, ◌&&◌, Option, none, some, List, [], ◌∷◌, leb, ◌==◌,
  if◌then◌else◌, is_some, length, filter,
}
use kb_backend.Es.{Doc, Client}

-- `event_type` with its payload; `other` is a type that `_publish` does not know
pub data Event (F : Type 0) : Type 0 where
  index : ℕ → Doc F → Event F
  set_available : List ℕ → ℕ → Event F
  delete : List ℕ → String → Event F
  other : String → Event F

pub data Status : Type 0 where
  pending published failed : Status

-- A row of kb_outbox. The table lists its rows in the order of `created_at`.
pub record OutboxRow (F : Type 0) : Type 0 where
  pub aggregate_id : ℕ
  pub event : Event F
  pub status : Status
  pub attempts : ℕ
  pub published_at : Option ℕ

abbrev pub Outbox : Type 0 → Type 0
Outbox F = List (OutboxRow F)

module _ {F : Type 0} where
  -- `INSERT INTO kb_outbox(aggregate_id,event_type,payload)`
  unfoldable pub emit : ℕ → Event F → OutboxRow F
  emit aggregate event = record {
    aggregate_id = aggregate;
    event = event;
    status = pending;
    attempts = 0;
    published_at = none;
  }

  -- the WHERE clause of `drain` and `pending_count`
  unfoldable pub is_pending : Option ℕ → OutboxRow F → Bool
  is_pending none r = not (is_some r.published_at)
  is_pending (some file_id) r = not (is_some r.published_at) && (r.aggregate_id == file_id)

  unfoldable pub pending_count : Option ℕ → Outbox F → ℕ
  pending_count file_id rows = length (filter (is_pending file_id) rows)

module _ {F S : Type 0} (es : Client F S) where
  -- the loop of the `set_available` branch: read, modify, write, up to the first call that raises
  unfoldable pub publish_available : List ℕ → ℕ → S → Bool × S
  publish_available [] avail s = (true, s)
  publish_available (eid ∷ eids) avail s = elim (es.get eid s) [
    | none ↦ (false, s)
    | some src ↦
        let (done, s') = es.index eid (record src { available_int = some avail }) s in
        let rest = publish_available eids avail s' in if done then rest else (false, s')
  ]

  -- the loop of the `delete` branch
  unfoldable pub publish_delete : List ℕ → S → Bool × S
  publish_delete [] s = (true, s)
  publish_delete (eid ∷ eids) s =
      let (done, s') = es.delete eid s in
      let rest = publish_delete eids s' in if done then rest else (false, s')

  -- `_publish`; `false` where it raises
  unfoldable pub publish : Event F → S → Bool × S
  unfolding publish_available publish_delete
  publish (index id source) s = es.index id source s
  publish (set_available ids avail) s = publish_available ids avail s
  publish (delete ids reason) s = publish_delete ids s
  publish (other t) s = (false, s)

-- What `drain` returns.
pub record DrainResult : Type 0 where
  pub published : ℕ
  pub failed : ℕ
  pub remaining : ℕ

module _ {F S : Type 0} (es : Client F S) (max_attempts now : ℕ) where
  -- the body of the loop of `drain`: publish one row, and update it by its primary key
  unfoldable pub drain_row : OutboxRow F → S → OutboxRow F × S × Bool
  drain_row r s =
      let (done, s') = publish es r.event s in
      let attempts = r.attempts + 1 in
      let status = if leb max_attempts attempts then failed else pending in
      if done
      then (record r { status = published; published_at = some now }, s', true)
      else (record r { attempts = attempts; status = status }, s', false)

  -- the loop over the rows that the query selects, the others passed over; the numbers published
  -- and failed come last
  unfoldable pub drain_rows : Option ℕ → Outbox F → S → Outbox F × S × ℕ × ℕ
  drain_rows file_id [] s = ([], s, 0, 0)
  drain_rows file_id (r ∷ rows) s = elim (is_pending file_id r) [
    | false ↦ let (rows', s', done, bad) = drain_rows file_id rows s in (r ∷ rows', s', done, bad)
    | true ↦
        let (r', s', ok) = drain_row r s in
        let (rows', s'', done, bad) = drain_rows file_id rows s' in
        (r' ∷ rows', s'', if ok then done + 1 else done, if ok then bad else bad + 1)
  ]

  -- `drain`; the refresh of the index changes nothing that the program reads
  unfoldable pub drain : Option ℕ → Outbox F → S → Outbox F × S × DrainResult
  drain file_id rows s =
      let (rows', s', done, bad) = drain_rows file_id rows s in
      let remaining = pending_count file_id rows' in
      (rows', s', record { published = done; failed = bad; remaining = remaining })
