-- ===== src/Retrieval/Core/Permitted.antt =====
-- What a search returns to a caller.
use kb_backend.Retrieval.Guard.Checked.{visible_hit, visible, postverify_lem}
use kb_backend.Prelude.{
  ℕ, zero, suc, ◌≡◌, refl, Bool, true, ◌&&◌, Option, none, some, List, [], ◌∷◌, arith, opt_eq, take,
  filter, any, all, contains, Option-cases, find, inl, inr, length, ◌==◌, ◌≤◌, if◌then◌else◌,
  length-filter, length-take, ◌⊎◌, Bool-cases, nonempty, all_imp,
}
use kb_backend.Authz.{AuthDb, Principal, resolve}
use kb_backend.Db.{FileKb, Pg, ChunkRow}
use kb_backend.Retrieval.Guard.{Hit}
use kb_backend.Retrieval.Core.{
  wanted_kbs, is_tenant_kb, allowed_file_ids, Services, Request, guarded, top_k_or, postverify,
  retrieve_core, rerank_order, reorder, searched,
}

module _ {ℓ} {A : Type ℓ} where
  all-filter : (q : A → Bool) (xs : List A) → all q (filter q xs) ≡ true
  all-filter q [] = refl
  all-filter q (x ∷ xs) = ground (arith, all-filter q xs)

  all-take : (q : A → Bool) (n : ℕ) (xs : List A) → all q xs ≡ true → all q (take n xs) ≡ true
  all-take q zero xs h = refl
  all-take q (suc n) [] h = refl
  all-take q (suc n) (x ∷ xs) h = ground (arith, all-take q n xs)

-- The base is among those that were asked for; to ask for none is to ask for all.
abbrev pub is_asked : Option (List ℕ) → ℕ → Bool
is_asked none kb_id = true
is_asked (some []) kb_id = true
is_asked (some (k ∷ ks)) kb_id = contains (k ∷ ks) kb_id

-- The file of the hit is in a base of the tenant that the caller may see and has asked for.
abbrev pub is_linked : ℕ → AuthDb → List FileKb → Option (List ℕ) → Principal → Hit → Bool
is_linked now db links kb_ids p h =
    any
      (λ l.
        opt_eq h.file_id (some l.file_id)
        && is_tenant_kb db p.tenant_id l.kb_id
        && contains (resolve now db p).allowed_kb_ids l.kb_id
        && is_asked kb_ids l.kb_id)
      links

contains-filter :
    (q : ℕ → Bool) (xs : List ℕ) (k : ℕ)
    → contains (filter q xs) k ≡ true
    → (q k ≡ true) × (contains xs k ≡ true)
contains-filter q [] k h = absurd (ground arith)
contains-filter q (x ∷ xs) k h = ground (arith, contains-filter q xs k)

wanted_allowed :
    (kb_ids : Option (List ℕ)) (allowed : List ℕ) (k : ℕ)
    → contains (wanted_kbs kb_ids allowed) k ≡ true
    → (contains allowed k ≡ true) × (is_asked kb_ids k ≡ true)
unfolding wanted_kbs
wanted_allowed none allowed k h = (h, refl)
wanted_allowed (some []) allowed k h = (h, refl)
wanted_allowed (some (x ∷ xs)) allowed k h = contains-filter (contains allowed) (x ∷ xs) k h

module _ (now : ℕ) (db : AuthDb) (kb_ids : Option (List ℕ)) (p : Principal) where
  file_linked :
      (links : List FileKb) (fid : ℕ) (h : Hit)
      → h.file_id ≡ some fid
      → contains (allowed_file_ids now db links kb_ids p).0 fid ≡ true
      → is_linked now db links kb_ids p h ≡ true
  unfolding allowed_file_ids
  file_linked [] fid h e c = absurd (ground arith)
  file_linked (l ∷ ls) fid h e c = ground (
    arith,
    e,
    c,
    file_linked ls fid h,
    wanted_allowed kb_ids (resolve now db p).allowed_kb_ids l.kb_id,
  )

module _ {F : Type 0} (pg : Pg F) (tenant_id : ℕ) (fids : List ℕ) where
  allowed_file :
      (fid cid : ℕ)
      → visible pg.chunks pg.files tenant_id fids (some fid) cid ≡ true
      → contains fids fid ≡ true
  allowed_file fid cid v = elim (Option-cases (find (λ (c : ChunkRow). c.id == cid) pg.chunks)) [
    | inl e ↦ absurd (ground (arith, e, v))
    | inr (c, e) ↦ ground (arith, e, v)
  ]

  -- A visible hit names a file, which is one of those that may be searched.
  visible-file :
      (h : Hit)
      → visible_hit pg.chunks pg.files tenant_id fids h ≡ true
      → (fid : ℕ) × (h.file_id ≡ some fid) × (contains fids fid ≡ true)
  visible-file h v = elim (Option-cases h.file_id) [
    | inl e ↦ absurd (ground (arith, e, v))
    | inr (fid, e) ↦ (fid, e, allowed_file fid h.chunk_id (rw e at v))
  ]

module _ {F : Type 0} (now default_top_k : ℕ) (db : AuthDb) (pg : Pg F) (p : Principal)
    (services : Services) (r : Request) where
  checked :
      (fids : List ℕ) (hs : List Hit)
      → let hits = (postverify pg.chunks pg.files p.tenant_id fids hs).0 in
        (all (visible_hit pg.chunks pg.files p.tenant_id fids) hits ≡ true)
        × (length hits ≤ length hs)
  checked fids hs =
      let ok = visible_hit pg.chunks pg.files p.tenant_id fids in
      rw (postverify_lem pg.chunks pg.files p.tenant_id fids hs)
        (all-filter ok hs, length-filter ok hs)

  guarded_lem :
      (fids : List ℕ) (merged : List Hit)
      → let hits = (guarded now default_top_k db pg p services r fids merged).0 in
        (all (visible_hit pg.chunks pg.files p.tenant_id fids) hits ≡ true)
        × (length hits ≤ top_k_or r.top_k default_top_k)
  unfolding guarded
  guarded_lem fids merged =
      let ok = visible_hit pg.chunks pg.files p.tenant_id fids in
      let k = top_k_or r.top_k default_top_k in
      let above : List Hit → List Hit =
        λ hs. if r.has_threshold then filter services.reaches_threshold hs else hs in
      elim (Option-cases (rerank_order services r merged)) [
        | inl e ↦
            let (seen, fewer) = checked fids (take k (above merged)) in
            rw (guarded, e) (seen, omega (arith, fewer, length-take k (above merged)))
        | inr (places, e) ↦
            let found =
              (postverify pg.chunks pg.files p.tenant_id fids (above (reorder places merged))).0 in
            rw (guarded, e)
              (
                all-take ok k found (checked fids (above (reorder places merged))).0,
                length-take k found,
              )
      ]

  abbrev fids : List ℕ
  fids = (allowed_file_ids now db pg.file_kbs r.kb_ids p).0

  retrieve_cases :
      ((retrieve_core now default_top_k db pg p services r).0 ≡ [])
      ⊎ ((merged : List Hit) × ((retrieve_core now default_top_k db pg p services r).0
            ≡ (guarded now default_top_k db pg p services r fids merged).0))
  unfolding retrieve_core
  retrieve_cases =
      let (file_ids, clearance) = allowed_file_ids now db pg.file_kbs r.kb_ids p in
      let (a, b) = searched now default_top_k db pg p services r file_ids clearance in
      let merged = services.rrf_merge a.hits b in
      elim (Bool-cases (nonempty fids)) [
        | inl e ↦ inr (merged, rw (retrieve_core, e) refl)
        | inr e ↦ inl (rw (retrieve_core, e) refl)
      ]

  -- Whatever the searches, the fusion and the reranker answer: every hit that `retrieve_core` returns
  -- is of a chunk of the caller's tenant in the version that is active in the hit's file; this file is
  -- in a base of the tenant that the decision of `resolve` opens to the caller, and that the caller
  -- asked for, if bases were named; and there are at most as many hits as were asked for.
  pub retrieve_core_permitted :
      let (hits, _) = retrieve_core now default_top_k db pg p services r in
      let files = (allowed_file_ids now db pg.file_kbs r.kb_ids p).0 in
      (all (visible_hit pg.chunks pg.files p.tenant_id files) hits ≡ true)
      × (all (is_linked now db pg.file_kbs r.kb_ids p) hits ≡ true)
      × (length hits ≤ top_k_or r.top_k default_top_k)
  retrieve_core_permitted = elim retrieve_cases [
    | inl e ↦ rw e (refl, refl, omega arith)
    | inr (merged, e) ↦
        let (seen, few) = guarded_lem fids merged in
        let hits = (guarded now default_top_k db pg p services r fids merged).0 in
        rw e (
          seen,
          all_imp (visible_hit pg.chunks pg.files p.tenant_id fids)
              (is_linked now db pg.file_kbs r.kb_ids p) hits
              (λ h v.
                let (fid, e, c) = visible-file pg p.tenant_id fids h v in
                file_linked now db r.kb_ids p pg.file_kbs fid h e c)
              seen,
          few,
        )
  ]
