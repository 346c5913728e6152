-- ===== src/Quota/Limits.antt =====
-- The check before an upload, and the metering after it.
use kb_backend.Prelude.Counts.{count}
use kb_backend.Quota.{sum_sizes}
use kb_backend.Prelude.{
  ℕ, ◌+◌, ◌≤◌, ◌≡◌, refl, ◌⊎◌, inl, inr, true, none, some, List, [], ◌∷◌, arith, Bool-cases,
  is_some, find, Option-cases, Bool, if◌then◌else◌, length, filter, ◌↔◌, ◌==◌, any, or_else, ◌&&◌,
  false, leb,
}
use kb_backend.Db.{FileRow, UsageRow}
use kb_backend.Quota.{Totals, get_usage, check_quota, meter_ingest, meter_delete, is_usage_of}

-- The number is within the limit, or there is none.
abbrev pub Within : ℕ → ℕ → Type 0
Within limit used = (limit ≡ 0) ⊎ (used ≤ limit)

abbrev pub total : {A : Type 0} → (A → ℕ) → List A → ℕ
total g [] = 0
total g (x ∷ xs) = g x + total g xs

-- the files of the tenant since the month began
abbrev pub is_recent : ℕ → ℕ → FileRow → Bool
is_recent t month_start f = (f.tenant_id == t) && leb month_start f.created_at

-- The use of the month: what the rows of the tenant for it add up to or, if there is none, what its
-- files since the month began do. A size that is NULL counts as 0.
abbrev pub month_docs : ℕ → ℕ → ℕ → List FileRow → List UsageRow → ℕ
month_docs period month_start t files us =
    if any (is_usage_of t period) us
    then total (λ u. if is_usage_of t period u then u.doc_count else 0) us
    else total (λ f. if is_recent t month_start f then 1 else 0) files

abbrev pub month_bytes : ℕ → ℕ → ℕ → List FileRow → List UsageRow → ℕ
month_bytes period month_start t files us =
    if any (is_usage_of t period) us
    then total (λ u. if is_usage_of t period u then u.bytes else 0) us
    else total (λ f. if is_recent t month_start f then or_else f.size_bytes 0 else 0) files

recent_docs :
    (t month_start : ℕ) (files : List FileRow)
    → length (filter (is_recent t month_start) files)
      ≡ total (λ f. if is_recent t month_start f then 1 else 0) files
recent_docs t month_start [] = refl
recent_docs t month_start (f ∷ fs) = elim (Bool-cases (is_recent t month_start f)) [
  | inl e ↦ rw e (ground (arith, recent_docs t month_start fs))
  | inr e ↦ rw e (ground (arith, recent_docs t month_start fs))
]

recent_bytes :
    (t month_start : ℕ) (files : List FileRow)
    → sum_sizes (filter (is_recent t month_start) files)
      ≡ total (λ f. if is_recent t month_start f then or_else f.size_bytes 0 else 0) files
unfolding sum_sizes
recent_bytes t month_start [] = refl
recent_bytes t month_start (f ∷ fs) = elim (Bool-cases (is_recent t month_start f)) [
  | inl e ↦ rw e (ground (arith, recent_bytes t month_start fs))
  | inr e ↦ rw e (ground (arith, recent_bytes t month_start fs))
]

module _ {A : Type 0} (p : A → Bool) (g : A → ℕ) where
  no_total : (xs : List A) → count p xs ≡ 0 → total (λ x. if p x then g x else 0) xs ≡ 0
  no_total [] h = refl
  no_total (x ∷ xs) h = elim (Bool-cases (p x)) [
    | inl e ↦ absurd (ground (arith, e, h))
    | inr e ↦ rw e (ground (arith, no_total xs (ground (arith, e, h))))
  ]

  one_total :
      (xs : List A) (x : A)
      → find p xs ≡ some x
      → count p xs ≤ 1
      → (any p xs ≡ true) × (total (λ y. if p y then g y else 0) xs ≡ g x)
  one_total [] x e one = absurd (ground arith)
  one_total (y ∷ ys) x e one = elim (Bool-cases (p y)) [
    | inl k ↦
        let same : y ≡ x = ground (arith, e, k) in
        let rest = no_total ys (ground (arith, k, one)) in rw (k, rest, same) (ground arith)
    | inr k ↦ rw k (ground (arith, one_total ys x (ground (arith, e, k)) (ground (arith, k, one))))
  ]

  empty_if_none : (xs : List A) → find p xs ≡ none → any p xs ≡ false
  empty_if_none [] e = refl
  empty_if_none (y ∷ ys) e = ground (arith, e, empty_if_none ys)

get_usage_lem :
    (t period month_start : ℕ) (files : List FileRow) (us : List UsageRow)
    → count (is_usage_of t period) us ≤ 1
    → let used = get_usage period month_start files us t in
      (used.docs ≡ month_docs period month_start t files us)
      × (used.bytes ≡ month_bytes period month_start t files us)
unfolding get_usage
get_usage_lem t period month_start files us one =
    let own = is_usage_of t period in
    elim (Option-cases (find own us)) [
      | inl e ↦
          rw (e, empty_if_none own (λ u. 0) us e, get_usage)
            (recent_docs t month_start files, recent_bytes t month_start files)
      | inr (u, e) ↦
          let (there, docs) = one_total own (λ v. v.doc_count) us u e one in
          let (_, bytes) = one_total own (λ v. v.bytes) us u e one in
          rw (e, there, docs, bytes, get_usage) (refl, refl)
    ]

limits_agree :
    (limits used : Totals) (size : ℕ)
    → ((check_quota limits used size).0 ≡ true)
      ↔ (Within limits.docs (used.docs + 1) × Within limits.bytes (used.bytes + size))
unfolding check_quota
limits_agree limits used size = (λ h. ground (arith, h), λ h. ground (arith, h.0, h.1))

-- If the tenant has at most one row for the month, an upload passes the check exactly if it leaves
-- the use of the month within both limits: the use that the row tells or, for want of one, that of
-- the tenant's files since the month began.
pub check_quota-Within :
    (limits : Totals) (t period month_start size : ℕ) (files : List FileRow) (us : List UsageRow)
    → count (is_usage_of t period) us ≤ 1
    → ((check_quota limits (get_usage period month_start files us t) size).0 ≡ true) ↔ (
        Within limits.docs (month_docs period month_start t files us + 1)
        × Within limits.bytes (month_bytes period month_start t files us + size))
unfolding check_quota
check_quota-Within limits t period month_start size files us one =
    let (d, b) = get_usage_lem t period month_start files us one in
    rw (← d, ← b) (limits_agree limits (get_usage period month_start files us t) size)

-- The removal of the file in the month of its upload takes back what was metered, if the tenant had
-- a row for the month; and the other rows are as they were.
pub meter_delete-meter_ingest :
    (t period size : ℕ) (us : List UsageRow)
    → is_some (find (is_usage_of t period) us) ≡ true
    → meter_delete t period (some size) (meter_ingest t period size us) ≡ us
unfolding meter_ingest meter_delete
meter_delete-meter_ingest t period size [] h = ground arith
meter_delete-meter_ingest t period size (u ∷ us) h = elim (Bool-cases (is_usage_of t period u)) [
  | inl e ↦ ground arith
  | inr e ↦ ground (arith, meter_delete-meter_ingest t period size us)
]
