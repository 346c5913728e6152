-- ===== src/Quota.antt =====
-- app/quota.py: the limits of a tenant, its use in the month, and the metering. `period` is the
-- current month and `month_start` its first instant.
pub mod Limits
use kb_backend.Prelude.{
  ℕ, ◌+◌, ◌-◌, Bool, not, ◌&&◌, ◌||◌, Option, none, some, List, [], ◌∷◌, ltb, leb, ◌==◌,
  if◌then◌else◌, or_else, filter, find, length,
}
use kb_backend.Db.{FileRow, UsageRow}

-- kb_quota; a limit of 0 is none
pub record QuotaRow : Type 0 where
  pub tenant_id : ℕ
  pub max_docs : ℕ
  pub max_bytes : ℕ

-- The numbers that `get_limits` and `get_usage` return.
pub record Totals : Type 0 where
  pub docs : ℕ
  pub bytes : ℕ

-- `get_limits`; `defaults` are the settings
unfoldable pub get_limits : Totals → List QuotaRow → ℕ → Totals
get_limits defaults quotas tenant_id = elim (find (λ q. q.tenant_id == tenant_id) quotas) [
  | none ↦ defaults
  | some q ↦ record { docs = q.max_docs; bytes = q.max_bytes }
]

abbrev pub is_usage_of : ℕ → ℕ → UsageRow → Bool
is_usage_of tenant_id period u = (u.tenant_id == tenant_id) && (u.period == period)

-- `coalesce(sum(size_bytes),0)`, which passes over NULL
unfoldable pub sum_sizes : List FileRow → ℕ
sum_sizes [] = 0
sum_sizes (f ∷ fs) = or_else f.size_bytes 0 + sum_sizes fs

-- `get_usage`
unfoldable pub get_usage : ℕ → ℕ → List FileRow → List UsageRow → ℕ → Totals
unfolding sum_sizes
get_usage period month_start files usage tenant_id =
    elim (find (is_usage_of tenant_id period) usage) [
      | some u ↦ record { docs = u.doc_count; bytes = u.bytes }
      | none ↦
          let recent =
            filter (λ f. (f.tenant_id == tenant_id) && leb month_start f.created_at) files in
          record { docs = length recent; bytes = sum_sizes recent }
    ]

pub data Reason : Type 0 where
  docs bytes : Reason

-- `limit and used > limit`
abbrev pub exceeds : ℕ → ℕ → Bool
exceeds limit used = not (limit == 0) && ltb limit used

-- `check_quota`: whether the upload may go on, and the reason if not
unfoldable pub check_quota : Totals → Totals → ℕ → Bool × Option Reason
check_quota limits usage size_bytes =
    let over_docs = exceeds limits.docs (usage.docs + 1) in
    let over_bytes = exceeds limits.bytes (usage.bytes + size_bytes) in
    (
      not (over_docs || over_bytes),
      if over_docs then some Reason.docs else if over_bytes then some Reason.bytes else none,
    )

-- `meter_ingest`: `INSERT … ON CONFLICT DO UPDATE`
unfoldable pub meter_ingest : ℕ → ℕ → ℕ → List UsageRow → List UsageRow
meter_ingest tenant_id period size_bytes [] =
    record { tenant_id = tenant_id; period = period; doc_count = 1; bytes = size_bytes } ∷ []
meter_ingest tenant_id period size_bytes (u ∷ us) =
    if is_usage_of tenant_id period u
    then record u { doc_count = u.doc_count + 1; bytes = u.bytes + size_bytes } ∷ us
    else u ∷ meter_ingest tenant_id period size_bytes us

-- `meter_delete`: `INSERT … ON CONFLICT DO NOTHING`, then the update, which stops at 0 as
-- subtraction does
unfoldable pub meter_delete : ℕ → ℕ → Option ℕ → List UsageRow → List UsageRow
meter_delete tenant_id period size_bytes [] =
    record { tenant_id = tenant_id; period = period; doc_count = 0; bytes = 0 } ∷ []
meter_delete tenant_id period size_bytes (u ∷ us) =
    if is_usage_of tenant_id period u
    then record u { doc_count = u.doc_count - 1; bytes = u.bytes - or_else size_bytes 0 } ∷ us
    else u ∷ meter_delete tenant_id period size_bytes us
