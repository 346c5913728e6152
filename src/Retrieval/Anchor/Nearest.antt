-- ===== src/Retrieval/Anchor/Nearest.antt =====
-- The nearest chunk of a file to a fingerprint.
use kb_backend.Prelude.{
  ℕ, ◌+◌, ◌≤◌, ◌≡◌, refl, ◌⊎◌, inl, inr, Bool, true, false, ◌&&◌, ◌||◌, Option, none, some, List,
  [], ◌∷◌, arith, ltb, leb, ◌==◌, ==_iff, Bool-cases, any, all, any_of_all, sym, filter,
}
use mathlib.Core.Path.{subst}
use kb_backend.Db.{ChunkRow}
use kb_backend.Retrieval.Anchor.{distance, nearest, relocate, is_current}

-- The chunk has this id, is within the threshold, and no other of the list is nearer.
abbrev pub is_nearest : ℕ → ℕ → ℕ → List ChunkRow → Bool
is_nearest threshold fp id rows =
    any
      (λ c.
        (c.id == id)
        && leb (distance fp c) threshold
        && all (λ x. leb (distance fp c) (distance fp x)) rows)
      rows

module _ (threshold fp : ℕ) where
  -- no chunk within the threshold is nearer than `d`
  abbrev bounded : ℕ → List ChunkRow → Bool
  bounded d rows = all (λ x. leb d (distance fp x) || ltb threshold (distance fp x)) rows

  -- `id` is the id of a chunk at distance `d`
  abbrev reached : Option ℕ → ℕ → List ChunkRow → Bool
  reached none d rows = false
  reached (some id) d rows = any (λ c. (c.id == id) && (distance fp c == d)) rows

  taken :
      (c : ChunkRow) (cs : List ChunkRow) (b best : Option ℕ) (d best_d : ℕ)
      → (leb (distance fp c) threshold && ltb (distance fp c) best_d) ≡ true
      → ((b ≡ some c.id) × (d ≡ distance fp c)) ⊎ ((reached b d cs ≡ true) × (d ≤ threshold))
      → ((b ≡ best) × (d ≡ best_d)) ⊎ ((reached b d (c ∷ cs) ≡ true) × (d ≤ threshold))
  taken c cs none best d best_d e how = ground (arith, e, how)
  taken c cs (some id) best d best_d e how = inr (ground (arith, e, how))

  passed :
      (c : ChunkRow) (cs : List ChunkRow) (b best : Option ℕ) (d best_d : ℕ)
      → ((b ≡ best) × (d ≡ best_d)) ⊎ ((reached b d cs ≡ true) × (d ≤ threshold))
      → ((b ≡ best) × (d ≡ best_d)) ⊎ ((reached b d (c ∷ cs) ≡ true) × (d ≤ threshold))
  passed c cs b best d best_d (inl h) = inl h
  passed c cs none best d best_d (inr (h, k)) = absurd (ground (arith, h))
  passed c cs (some id) best d best_d (inr (h, k)) = inr (ground (arith, h), k)

  nearest-take :
      (c : ChunkRow) (cs : List ChunkRow) (best : Option ℕ) (best_d : ℕ)
      → (leb (distance fp c) threshold && ltb (distance fp c) best_d) ≡ true
      → nearest threshold fp (c ∷ cs) best best_d
        ≡ nearest threshold fp cs (some c.id) (distance fp c)
  unfolding nearest
  nearest-take c cs best best_d e = rw (nearest, e) refl

  nearest-skip :
      (c : ChunkRow) (cs : List ChunkRow) (best : Option ℕ) (best_d : ℕ)
      → (leb (distance fp c) threshold && ltb (distance fp c) best_d) ≡ false
      → nearest threshold fp (c ∷ cs) best best_d ≡ nearest threshold fp cs best best_d
  unfolding nearest
  nearest-skip c cs best best_d e = rw (nearest, e) refl

  bounded-cons :
      (d : ℕ) (c : ChunkRow) (cs : List ChunkRow)
      → (leb d (distance fp c) || ltb threshold (distance fp c)) ≡ true
      → bounded d cs ≡ true
      → bounded d (c ∷ cs) ≡ true
  bounded-cons d c cs h k = rw (h, k) refl

  skipped_far :
      (d best_d e : ℕ)
      → (leb e threshold && ltb e best_d) ≡ false
      → d ≤ best_d
      → (leb d e || ltb threshold e) ≡ true
  skipped_far d best_d e h less = ground arith

  taken_near :
      (d best_d e : ℕ)
      → (leb e threshold && ltb e best_d) ≡ true
      → d ≤ e
      → (d ≤ best_d) × ((leb d e || ltb threshold e) ≡ true)
  taken_near d best_d e h less = ground arith

  abbrev IsLeast : List ChunkRow → Option ℕ → ℕ → Option ℕ × ℕ → Type 0
  IsLeast rows best best_d (b, d) =
      (d ≤ best_d)
      × (bounded d rows ≡ true)
      × (((b ≡ best) × (d ≡ best_d)) ⊎ ((reached b d rows ≡ true) × (d ≤ threshold)))

  nearest_lem :
      (rows : List ChunkRow) (best : Option ℕ) (best_d : ℕ)
      → IsLeast rows best best_d (nearest threshold fp rows best best_d)
  nearest_lem [] best best_d = unfold nearest in (omega arith, refl, inl (refl, refl))
  nearest_lem (c ∷ cs) best best_d =
      elim (Bool-cases (leb (distance fp c) threshold && ltb (distance fp c) best_d)) [
        | inl e ↦
            let (less, far, how) = nearest_lem cs (some c.id) (distance fp c) in
            let (b, d) = nearest threshold fp cs (some c.id) (distance fp c) in
            let (low, near) = taken_near d best_d (distance fp c) e less in
            subst (IsLeast (c ∷ cs) best best_d) (sym (nearest-take c cs best best_d e))
              (low, bounded-cons d c cs near far, taken c cs b best d best_d e how)
        | inr e ↦
            let (less, far, how) = nearest_lem cs best best_d in
            let (b, d) = nearest threshold fp cs best best_d in
            subst (IsLeast (c ∷ cs) best best_d) (sym (nearest-skip c cs best best_d e)) (
              less,
              bounded-cons d c cs (skipped_far d best_d (distance fp c) e less) far,
              passed c cs b best d best_d how,
            )
      ]

  none_near :
      (rows : List ChunkRow)
      → bounded (threshold + 1) rows ≡ true
      → all (λ c. ltb threshold (distance fp c)) rows ≡ true
  none_near [] h = refl
  none_near (x ∷ xs) h = ground (arith, none_near xs)

  far_enough :
      (d : ℕ) (rows : List ChunkRow)
      → d ≤ threshold
      → bounded d rows ≡ true
      → all (λ x. leb d (distance fp x)) rows ≡ true
  far_enough d [] le h = refl
  far_enough d (x ∷ xs) le h = ground (arith, far_enough d xs)

  reached_nearest :
      (id d : ℕ) (all_rows rows : List ChunkRow)
      → all (λ x. leb d (distance fp x)) all_rows ≡ true
      → d ≤ threshold
      → reached (some id) d rows ≡ true
      → any
          (λ c.
            (c.id == id)
            && leb (distance fp c) threshold
            && all (λ x. leb (distance fp c) (distance fp x)) all_rows)
          rows
        ≡ true
  reached_nearest id d all_rows rows far le h =
      any_of_all (λ c. (c.id == id) && (distance fp c == d))
        (λ c.
          (c.id == id)
          && leb (distance fp c) threshold
          && all (λ x. leb (distance fp c) (distance fp x)) all_rows)
        rows
        (λ c e.
          let same : distance fp c ≡ d = (==_iff (distance fp c) d).0 (ground (arith, e)) in
          let near : leb (distance fp c) threshold ≡ true = rw same (ground (arith, le)) in
          let least : all (λ x. leb (distance fp c) (distance fp x)) all_rows ≡ true =
            rw same far in
          rw (near, least) (ground (arith, e)))
        h

  -- What a relocation says of the chunks that it looked at.
  abbrev pub WithinReach : List ChunkRow → Option ℕ → Type 0
  WithinReach rows none = all (λ c. ltb threshold (distance fp c)) rows ≡ true
  WithinReach rows (some id) = is_nearest threshold fp id rows ≡ true

  of_least :
      (rows : List ChunkRow) (b : Option ℕ) (d : ℕ)
      → bounded d rows ≡ true
      → ((b ≡ none) × (d ≡ threshold + 1)) ⊎ ((reached b d rows ≡ true) × (d ≤ threshold))
      → WithinReach rows b
  of_least rows none d far (inl (e, same)) = none_near rows (rw (← same) far)
  of_least rows none d far (inr (h, le)) = absurd (ground (arith, h))
  of_least rows (some id) d far (inl (e, same)) = absurd (ground (arith, e))
  of_least rows (some id) d far (inr (h, le)) =
      reached_nearest id d rows rows (far_enough d rows le far) le h

  pub relocate_lem :
      (chunks : List ChunkRow) (fid tenant_id : ℕ)
      → let rows = filter (is_current fid tenant_id) chunks in
        WithinReach rows (relocate chunks threshold fid fp tenant_id)
  unfolding relocate
  relocate_lem chunks fid tenant_id =
      let rows = filter (is_current fid tenant_id) chunks in
      let (less, far, how) = nearest_lem rows none (threshold + 1) in
      of_least rows (nearest threshold fp rows none (threshold + 1)).0
        (nearest threshold fp rows none (threshold + 1)).1 far how
