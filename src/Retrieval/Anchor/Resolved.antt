-- ===== src/Retrieval/Anchor/Resolved.antt =====
-- What an anchor leads to.
use kb_backend.Prelude.{
  ℕ, String, ◌≡◌, refl, ◌⊎◌, inl, inr, Bool, true, false, ◌&&◌, Option, none, some, List, [], ◌∷◌,
  arith, ltb, ◌==◌, if◌then◌else◌, Option-cases, filter, any, all, ◌>>=◌,
}
use kb_backend.Db.{ChunkRow, AnchorRow}
use kb_backend.Ingest.Stage.{distinct}
use kb_backend.Retrieval.Anchor.{
  ResolveResult, valid, relocated, stale, overlap, is_source, best_center, select_center,
  load_fingerprint, distance, is_current, relocate, resolve_anchor,
}
use kb_backend.Retrieval.Anchor.Nearest.{is_nearest, relocate_lem}

module _ (features : String → List ℕ) where
  -- where the best row so far comes from
  abbrev CenterOf : List ChunkRow → Option (ℕ × ℕ) → Option (ℕ × ℕ) → Type 0
  CenterOf rows best none = (best ≡ none) × (rows ≡ [])
  CenterOf rows best (some (id, s)) = (any (λ c. c.id == id) rows ≡ true) ⊎ (best ≡ some (id, s))

  center_step :
      (c : ChunkRow) (cs : List ChunkRow) (best best' r : Option (ℕ × ℕ)) (s : ℕ)
      → (best' ≡ best) ⊎ (best' ≡ some (c.id, s))
      → ((best ≡ none) → best' ≡ some (c.id, s))
      → CenterOf cs best' r
      → CenterOf (c ∷ cs) best r
  center_step c cs best best' none s from first h = absurd (ground (arith, from, first, h))
  center_step c cs best best' (some (id, t)) s from first h = ground (arith, from, h)

  either :
      (b : Bool) (x y : Option (ℕ × ℕ)) → ((if b then x else y) ≡ y) ⊎ ((if b then x else y) ≡ x)
  either true x y = inr refl
  either false x y = inl refl

  best_center_lem :
      (q : List ℕ) (rows : List ChunkRow) (best : Option (ℕ × ℕ))
      → CenterOf rows best (best_center features q rows best)
  unfolding best_center
  best_center_lem q [] none = (refl, refl)
  best_center_lem q [] (some (id, s)) = inr refl
  best_center_lem q (c ∷ cs) none =
      center_step c cs none (some (c.id, overlap features q c.content)) _ _ (inr refl) (λ e. refl)
        (best_center_lem q cs (some (c.id, overlap features q c.content)))
  best_center_lem q (c ∷ cs) (some (id, s)) =
      let score = overlap features q c.content in
      let best' : Option (ℕ × ℕ) = if ltb s score then some (c.id, score) else some (id, s) in
      center_step c cs (some (id, s)) best' _ score
        (either (ltb s score) (some (c.id, score)) (some (id, s))) (λ e. absurd (ground (arith, e)))
        (best_center_lem q cs best')

  -- What the selection of a center says of the chunks of a summary.
  abbrev pub IsCenter : List ChunkRow → List ℕ → ℕ → Option ℕ → Type 0
  IsCenter chunks sources tenant_id none = any (is_source sources tenant_id) chunks ≡ false
  IsCenter chunks sources tenant_id (some id) =
      any (λ c. (c.id == id) && is_source sources tenant_id c) chunks ≡ true

  any-filter :
      (p q : ChunkRow → Bool) (xs : List ChunkRow) → any p (filter q xs) ≡ any (λ x. p x && q x) xs
  any-filter p q [] = refl
  any-filter p q (x ∷ xs) = ground (arith, any-filter p q xs)

  filter_empty : (q : ChunkRow → Bool) (xs : List ChunkRow) → filter q xs ≡ [] → any q xs ≡ false
  filter_empty q [] h = refl
  filter_empty q (x ∷ xs) h = ground (arith, filter_empty q xs)

  of_best :
      (chunks : List ChunkRow) (sources : List ℕ) (tenant_id : ℕ) (r : Option (ℕ × ℕ))
      → CenterOf (filter (is_source sources tenant_id) chunks) none r
      → IsCenter chunks sources tenant_id (r >>= λ (id, _). some id)
  of_best chunks sources tenant_id none h = filter_empty (is_source sources tenant_id) chunks h.1
  of_best chunks sources tenant_id (some (id, s)) (inl h) =
      rw (← any-filter (λ (c : ChunkRow). c.id == id) (is_source sources tenant_id) chunks) h
  of_best chunks sources tenant_id (some (id, s)) (inr e) = absurd (ground (arith, e))

  select_center_lem :
      (chunks : List ChunkRow) (sources : List ℕ) (query : String) (tenant_id : ℕ)
      → IsCenter chunks sources tenant_id (select_center features chunks sources query tenant_id)
  unfolding select_center
  select_center_lem chunks sources query tenant_id =
      let rows = filter (is_source sources tenant_id) chunks in
      let q = distinct (features query) in
      of_best chunks sources tenant_id (best_center features q rows none)
        (best_center_lem q rows none)

-- What is asked of the answer of `resolve_anchor`.
abbrev pub IsResolved :
    ℕ → List ChunkRow → List AnchorRow → ℕ → List ℕ → ℕ → ℕ → ResolveResult → Type 0
IsResolved threshold chunks anchors fid sources sid tenant_id (valid id) =
    any (λ c. (c.id == id) && is_source sources tenant_id c) chunks ≡ true
IsResolved threshold chunks anchors fid sources sid tenant_id (relocated id) =
    (any (is_source sources tenant_id) chunks ≡ false)
    × ((fp : ℕ) × (load_fingerprint anchors sid ≡ some fp)
        × (is_nearest threshold fp id (filter (is_current fid tenant_id) chunks) ≡ true))
IsResolved threshold chunks anchors fid sources sid tenant_id stale =
    (any (is_source sources tenant_id) chunks ≡ false)
    × ((load_fingerprint anchors sid ≡ none)
        ⊎ ((fp : ℕ) × (load_fingerprint anchors sid ≡ some fp)
            × (all (λ c. ltb threshold (distance fp c)) (filter (is_current fid tenant_id) chunks)
                ≡ true)))

-- An anchor that is valid leads to a visible chunk of the tenant among the sources of the summary. If
-- there is none, it is relocated to a visible chunk of the file within the threshold of its
-- fingerprint, to which no other is nearer; and it is stale only if it has no fingerprint or no
-- visible chunk of the file is within the threshold.
pub resolve_anchor_lem :
    (features : String → List ℕ) (threshold : ℕ) (chunks : List ChunkRow) (anchors : List AnchorRow)
    (fid : ℕ) (sources : List ℕ) (sid : ℕ) (query : String) (tenant_id : ℕ)
    → IsResolved threshold chunks anchors fid sources sid tenant_id
        (resolve_anchor features threshold chunks anchors fid sources sid query tenant_id).1
unfolding resolve_anchor
resolve_anchor_lem features threshold chunks anchors fid sources sid query t =
    let center = select_center_lem features chunks sources query t in
    elim (Option-cases (select_center features chunks sources query t)) [
      | inr (id, e) ↦ rw (resolve_anchor, e) (rw e at center)
      | inl e ↦
          let gone : any (is_source sources t) chunks ≡ false = rw e at center in
          elim (Option-cases (load_fingerprint anchors sid)) [
            | inl f ↦ rw (resolve_anchor, e, f) (gone, inl f)
            | inr (fp, f) ↦
                let near = relocate_lem threshold fp chunks fid t in
                elim (Option-cases (relocate chunks threshold fid fp t)) [
                  | inl g ↦ rw (resolve_anchor, e, f, g) (gone, inr (fp, f, rw g at near))
                  | inr (id, g) ↦ rw (resolve_anchor, e, f, g) (gone, (fp, f, rw g at near))
                ]
          ]
    ]
