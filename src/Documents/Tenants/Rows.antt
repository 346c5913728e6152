-- ===== src/Documents/Tenants/Rows.antt =====
-- The rows of the files of the other tenants, and what keeps them.
use kb_backend.Db.{FileRow}
use kb_backend.Prelude.{
  ℕ, ◌≤◌, ◌≡◌, refl, ap, inl, inr, Bool, true, false, not, ◌&&◌, List, [], ◌∷◌, ◌++◌, arith, ◌==◌,
  Bool-cases, filter, any, update_where,
}
use kb_backend.Prelude.Counts.{count}

-- the rows of the other tenants
abbrev pub others : ℕ → List FileRow → List FileRow
others t fs = filter (λ f. not (f.tenant_id == t)) fs

module _ (t : ℕ) where
  pub others-update_where :
      (q : FileRow → Bool) (g : FileRow → FileRow) (fs : List FileRow)
      → ((f : FileRow) → q f ≡ true → f.tenant_id ≡ t)
      → ((f : FileRow) → (g f).tenant_id ≡ f.tenant_id)
      → others t (update_where q g fs) ≡ others t fs
  others-update_where q g [] own same = refl
  others-update_where q g (f ∷ fs) own same =
      let rest = others-update_where q g fs own same in
      elim (Bool-cases (q f)) [
        | inl e ↦ rw (e, same f, own f e) (ground (arith, rest))
        | inr e ↦ rw e (ground (arith, rest))
      ]

  absent_id :
      (fid : ℕ) (fs : List FileRow)
      → count (λ f. f.id == fid) fs ≡ 0
      → filter (λ f. not (f.id == fid)) fs ≡ fs
  absent_id fid [] h = refl
  absent_id fid (f ∷ fs) h = ground (arith, h, absent_id fid fs)

  absent_own :
      (fid : ℕ) (fs : List FileRow)
      → count (λ f. f.id == fid) fs ≡ 0
      → any (λ f. (f.id == fid) && (f.tenant_id == t)) fs ≡ false
  absent_own fid [] h = refl
  absent_own fid (f ∷ fs) h = ground (arith, h, absent_own fid fs)

  pub others-filter :
      (fid : ℕ) (fs : List FileRow)
      → count (λ f. f.id == fid) fs ≤ 1
      → any (λ f. (f.id == fid) && (f.tenant_id == t)) fs ≡ true
      → others t (filter (λ f. not (f.id == fid)) fs) ≡ others t fs
  others-filter fid [] one h = refl
  others-filter fid (f ∷ fs) one h = elim (Bool-cases (f.id == fid)) [
    | inl e ↦
        let rest : count (λ g. g.id == fid) fs ≡ 0 = ground (arith, e, one) in
        let own : (f.tenant_id == t) ≡ true = ground (arith, e, h, absent_own fid fs rest) in
        rw (e, own) (ap (others t) (absent_id fid fs rest))
    | inr e ↦
        let rest = others-filter fid fs (ground (arith, e, one)) (ground (arith, e, h)) in
        elim (Bool-cases (f.tenant_id == t)) [
          | inl k ↦ rw (e, k) rest
          | inr k ↦ rw (e, k) (ap (λ gs. f ∷ gs) rest)
        ]
  ]

  pub others-append :
      (fs : List FileRow) (f : FileRow) → f.tenant_id ≡ t → others t (fs ++ (f ∷ [])) ≡ others t fs
  others-append [] f own = ground (arith, own)
  others-append (g ∷ fs) f own = ground (arith, others-append fs f own)
