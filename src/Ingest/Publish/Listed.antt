-- ===== src/Ingest/Publish/Listed.antt =====
-- Rows and ids that a list of ids or of rows holds.
use kb_backend.Relay.Effects.{marked}
use kb_backend.Reconcile.{is_shown}
use kb_backend.Prelude.{
  ℕ, ◌≡◌, refl, Bool, true, not, ◌&&◌, ◌||◌, some, List, [], ◌∷◌, ◌++◌, map, arith, ltb, ◌==◌,
  ==_refl, opt_eq, filter, any, all, contains, sym, false, Option, ap, ◌>>=◌,
}
use kb_backend.Es.{Doc}
use kb_backend.Db.{FileRow, SummaryRow}
use kb_backend.Ingest.Publish.Succeeds.{is_of}

module _ {A : Type 0} (key : A → ℕ) where
  pub contains-filter :
      (p q : A → Bool) (j : ℕ) (xs : List A)
      → any (λ x. (q x && p x) && (key x == j)) xs ≡ true
      → contains (map key (filter p (filter q xs))) j ≡ true
  contains-filter p q j [] h = absurd (ground (arith, h))
  contains-filter p q j (x ∷ xs) h = ground (arith, h, contains-filter p q j xs)

  pub all_keys :
      (ids : List ℕ) (xs : List A)
      → ((k : ℕ) → contains (map key xs) k ≡ true → contains ids k ≡ true)
      → all (λ x. contains ids (key x)) xs ≡ true
  all_keys ids [] h = refl
  all_keys ids (x ∷ xs) h =
      let here : contains ids (key x) ≡ true = h (key x) (ground (arith, ==_refl (key x))) in
      let rest = all_keys ids xs (λ k e. h k (ground (arith, e))) in rw (here, rest) refl

module _ {F : Type 0} (f : FileRow) (t : ℕ) where
  -- a summary of the active version has one of the ids
  abbrev pub summary_listed : List ℕ → SummaryRow F → Bool
  summary_listed ids x = not ((x.file_id == f.id) && (x.summary_version == t)) || contains ids x.id

  pub earlier_summaries :
      (ids : List ℕ) (xs : List (SummaryRow F))
      → all (λ x. not (x.file_id == f.id) || ltb x.summary_version t) xs ≡ true
      → all (summary_listed ids) xs ≡ true
  earlier_summaries ids [] h = refl
  earlier_summaries ids (x ∷ xs) h = ground (arith, h, earlier_summaries ids xs)

  abbrev pub is_active_summary : SummaryRow F → Bool
  is_active_summary x =
      ((x.file_id == f.id) && (x.tenant_id == f.tenant_id))
      && opt_eq (some x.summary_version) (some t)

  pub new_summaries :
      (j : ℕ) (xs : List (SummaryRow F))
      → all (is_of f t) xs ≡ true
      → contains (map (λ x. x.id) xs) j ≡ true
      → any (λ x. is_active_summary x && (x.id == j)) xs ≡ true
  new_summaries j [] o h = absurd (ground (arith, h))
  new_summaries j (x ∷ xs) o h = ground (arith, o, h, new_summaries j xs)

pub any_right :
    {A : Type 0} (p : A → Bool) (xs ys : List A) → any p ys ≡ true → any p (xs ++ ys) ≡ true
any_right p [] ys h = h
any_right p (x ∷ xs) ys h = ground (arith, any_right p xs ys h)

pub hidden_doc :
    {F : Type 0} (fid tenant_id : ℕ) (o : Option (Doc F)) (d : Doc F)
    → some (marked 0 o) ≡ some d
    → is_shown fid tenant_id d ≡ false
unfolding is_shown marked
hidden_doc fid tenant_id o d h =
    let a = ap (λ r. r >>= λ x. x.available_int) h in ground (arith, sym a)

-- the index holds each of the documents
