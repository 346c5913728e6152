-- ===== src/Audit.antt =====
-- app/audit.py: the audit log as a chain of hashes. `json.dumps`, `sha256`, `bytes.hex` and the
-- canonical form of an address come from Python's library and are parameters.
pub mod Chain
pub mod Tampering
pub mod Overtaken
use kb_backend.Prelude.{
  ℕ, ◌+◌, String, Bool, true, false, ◌&&◌, Option, none, some, List, [], ◌∷◌, ◌++◌, leb, ◌==◌,
  if◌then◌else◌, is_some, or_else, opt_eq, length, filter, list_eq,
}

-- A JSON value, for `detail`.
mutual
  pub data Json : Type 0 where
    num : ℕ → Json
    flag : Bool → Json
    text : String → Json
    obj : Fields → Json

  pub data Fields : Type 0 where
    end : Fields
    field : String → Json → Fields → Fields

abbrev pub Bytes : Type 0
Bytes = List ℕ

-- The columns that the hash covers.
pub record Payload : Type 0 where
  pub tenant_id : Option ℕ
  pub user_id : Option ℕ
  pub action : String
  pub kb_ids : Option (List ℕ)
  pub query_text : Option String
  pub hit_chunk_ids : Option (List ℕ)
  pub result : String
  pub request_id : Option String
  pub ip : Option String
  pub user_agent : Option String
  pub detail : Option Json

-- A row of kb_audit_log; the log lists its rows in the order of their ids.
pub record AuditRow : Type 0 where
  pub id : ℕ
  pub fields : Payload
  pub prev_hash : Option Bytes
  pub row_hash : Option Bytes

pub record Hashing : Type 0 where
  -- `json.dumps(payload, sort_keys=True, …)`
  pub dumps : Payload → List ℕ
  -- `str(ipaddress.ip_address(s))`, or `s` where that raises
  pub canon_ip : String → String
  -- `bytes.hex`
  pub hex : Bytes → List ℕ
  -- `hashlib.sha256(text.encode("utf-8")).digest()`
  pub sha256 : List ℕ → Bytes

-- `sorted`
unfoldable pub sort_insert : ℕ → List ℕ → List ℕ
sort_insert a [] = a ∷ []
sort_insert a (x ∷ xs) = if leb a x then a ∷ x ∷ xs else x ∷ sort_insert a xs

unfoldable pub sorted : List ℕ → List ℕ
unfolding sort_insert
sorted [] = []
sorted (x ∷ xs) = sort_insert x (sorted xs)

-- `_arr`
unfoldable pub canon_arr : Option (List ℕ) → Option (List ℕ)
unfolding sorted
canon_arr none = none
canon_arr (some ids) = some (sorted ids)

-- the newest row of the bucket that has a hash
unfoldable pub chain_tail : Option ℕ → List AuditRow → Option Bytes
chain_tail tenant_id [] = none
chain_tail tenant_id (r ∷ rows) =
    let later = chain_tail tenant_id rows in
    if is_some later
    then later
    else if opt_eq r.fields.tenant_id tenant_id
    then r.row_hash
    else none

-- `if row and row[0]`
unfoldable pub nonempty : Option Bytes → Option Bytes
nonempty (some []) = none
nonempty h = h

-- The hash that an append refers to: that of the tail if it got the lock, and none if not.
unfoldable pub read_tail : Bool → Option ℕ → List AuditRow → Option Bytes
unfolding chain_tail nonempty
read_tail got tenant_id log = if got then nonempty (chain_tail tenant_id log) else none

module _ (hashing : Hashing) where
  open hashing use {dumps, canon_ip, hex, sha256}

  -- `_canon_payload`
  unfoldable pub canon_payload : Payload → Payload
  unfolding canon_arr
  canon_payload p = record p {
    kb_ids = canon_arr p.kb_ids;
    hit_chunk_ids = canon_arr p.hit_chunk_ids;
    ip = (elim p.ip [ none ↦ none | some s ↦ some (canon_ip s) ]);
  }

  -- `prev_hash_bytes.hex() if prev_hash_bytes else ""`
  unfoldable pub prev_hex : Option Bytes → List ℕ
  prev_hex none = []
  prev_hex (some []) = []
  prev_hex (some (b ∷ bs)) = hex (b ∷ bs)

  -- `_row_hash`
  unfoldable pub row_hash_of : Option Bytes → Payload → Bytes
  unfolding prev_hex
  row_hash_of prev payload = sha256 (prev_hex prev ++ (b'|' ∷ dumps payload))

  -- The insertion of a row that refers to the hash `prev`.
  unfoldable pub insert_row : ℕ → Option Bytes → Payload → List AuditRow → List AuditRow
  insert_row id prev fields log =
      let hash = row_hash_of prev (canon_payload fields) in
      log ++ (record { id = id; fields = fields; prev_hash = prev; row_hash = some hash } ∷ [])

  -- `append_audit`; `got` is the answer of `pg_try_advisory_xact_lock`, `id` the next of the sequence.
  -- No row is inserted between its two steps here. Where the lock is got, none of the bucket can be,
  -- except by an append that missed the lock in the meantime.
  unfoldable pub append_audit : Bool → ℕ → Payload → List AuditRow → List AuditRow
  unfolding read_tail insert_row
  append_audit got id fields log = insert_row id (read_tail got fields.tenant_id log) fields log

-- The variables of the loop of `verify_audit_chain`.
pub record Scan : Type 0 where
  pub rows : ℕ
  pub mismatches : ℕ
  pub breaks : ℕ
  pub gaps : ℕ
  pub head_id : Option ℕ
  pub tail_id : Option ℕ
  pub first_mismatch : Option ℕ
  pub first_break : Option ℕ
  pub prev_row_hash : Option Bytes
  pub chain_started : Bool

abbrev pub scan_start : Scan
scan_start = record {
  rows = 0;
  mismatches = 0;
  breaks = 0;
  gaps = 0;
  head_id = none;
  tail_id = none;
  first_mismatch = none;
  first_break = none;
  prev_row_hash = none;
  chain_started = false;
}

-- `if first is None: first = id`
abbrev pub first_of_ids : Option ℕ → ℕ → Option ℕ
first_of_ids none id = some id
first_of_ids (some j) id = some j

-- The part of the loop that compares the row's hash with the hash of its columns.
unfoldable pub scan_hash : Bool → ℕ → Scan → Scan
scan_hash same id s = if same then s else record s {
  mismatches = s.mismatches + 1;
  first_mismatch = first_of_ids s.first_mismatch id;
}

-- The part that compares `prev_hash` with the hash of the row before.
unfoldable pub scan_link : Option Bytes → ℕ → Scan → Scan
scan_link none id s = if s.chain_started then record s { gaps = s.gaps + 1 } else s
scan_link (some prev) id s = elim s.prev_row_hash [
  | none ↦ s
  | some before ↦
      if list_eq prev before
      then s
      else record s { breaks = s.breaks + 1; first_break = first_of_ids s.first_break id }
]

-- The part that every row passes.
unfoldable pub scan_count : ℕ → Scan → Scan
scan_count id s = record s {
  rows = s.rows + 1;
  head_id = first_of_ids s.head_id id;
  tail_id = some id;
}

module _ (hashing : Hashing) where
  unfoldable pub scan_row : AuditRow → Scan → Scan
  unfolding scan_hash scan_link scan_count
  scan_row r s = elim r.row_hash [
    | none ↦ let s' = scan_count r.id s in record s' { gaps = s'.gaps + 1; prev_row_hash = none }
    | some h ↦
        let same = list_eq (row_hash_of hashing r.prev_hash (canon_payload hashing r.fields)) h in
        let s' = scan_link r.prev_hash r.id (scan_hash same r.id (scan_count r.id s)) in
        record s' { prev_row_hash = some h; chain_started = true }
  ]

  unfoldable pub scan : List AuditRow → Scan → Scan
  unfolding scan_row
  scan [] s = s
  scan (r ∷ rows) s = scan rows (scan_row r s)

  -- `verify_audit_chain`; the answer's `verified` is the test below
  unfoldable pub verify_audit_chain : Option ℕ → List AuditRow → Scan
  unfolding scan
  verify_audit_chain tenant_id log =
      scan (filter (λ r. opt_eq r.fields.tenant_id tenant_id) log) scan_start

unfoldable pub verified : Scan → Bool
verified s = (s.mismatches == 0) && (s.breaks == 0)

-- A row of kb_audit_anchor.
pub record AuditAnchor : Type 0 where
  pub tenant_id : Option ℕ
  pub head_id : ℕ
  pub tail_id : ℕ
  pub row_count : ℕ
  pub root_hash : Bytes

-- `count(*)`, `min(id)`, `max(id)` over the hashed rows of the bucket, and the hash of the last: the
-- ids ascend along the log
unfoldable pub hashed_rows : Option ℕ → List AuditRow → List AuditRow
hashed_rows tenant_id log =
    filter (λ r. opt_eq r.fields.tenant_id tenant_id && is_some r.row_hash) log

unfoldable pub last_row : AuditRow → List AuditRow → AuditRow
last_row r [] = r
last_row r (r' ∷ rows) = last_row r' rows

-- `anchor_audit`: nothing is written for an empty bucket
unfoldable pub anchor_audit : Option ℕ → List AuditRow → List AuditAnchor → List AuditAnchor
unfolding hashed_rows last_row
anchor_audit tenant_id log anchors = elim (hashed_rows tenant_id log) [
  | [] ↦ anchors
  | r ∷ rows ↦
      anchors
      ++ (record {
        tenant_id = tenant_id;
        head_id = r.id;
        tail_id = (last_row r rows).id;
        row_count = length (r ∷ rows);
        root_hash = or_else (last_row r rows).row_hash [];
      }
          ∷ [])
]
