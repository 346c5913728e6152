-- ===== src/Retrieval/Guard/Checked.antt =====
-- The guard against a description that reads the tables themselves.
use mathlib.Core.List.{append-nil, append_assoc}
use kb_backend.Prelude.{
  ℕ, ◌≡◌, refl, inl, inr, Bool, true, false, not, ◌&&◌, none, some, List, [], ◌∷◌, ◌++◌, map, ◌==◌,
  Bool-cases, opt_eq, filter, find, contains, lookup, ==_iff, Option-cases, ◌∙◌, arith, Option,
  ==_refl,
}
use kb_backend.Db.{FileRow, ChunkRow}
use kb_backend.Retrieval.Guard.{
  Hit, Mark, named, chunk_rows, active_versions, sift, passes, hit_files, postverify, get_active,
}

-- The chunk of the hit is there, of the tenant, and of the version that is active in the hit's file,
-- which is one of those allowed.
abbrev pub visible : List ChunkRow → List FileRow → ℕ → List ℕ → Option ℕ → ℕ → Bool
visible chunks files tenant_id allowed none cid = false
visible chunks files tenant_id allowed (some fid) cid =
    elim (find (λ (c : ChunkRow). c.id == cid) chunks) [
      | none ↦ false
      | some c ↦
          (c.tenant_id == tenant_id)
          && contains allowed fid
          && (elim (find (λ (f : FileRow). f.id == fid) files) [
            | none ↦ false
            | some f ↦ opt_eq (some c.chunk_version) f.active_chunk_version
          ])
    ]

abbrev pub visible_hit : List ChunkRow → List FileRow → ℕ → List ℕ → Hit → Bool
visible_hit chunks files tenant_id allowed h =
    visible chunks files tenant_id allowed h.file_id h.chunk_id

abbrev mark : ChunkRow → Mark
mark c = record { tenant_id = c.tenant_id; version = c.chunk_version }

lookup-chunk_rows :
    (ids : List ℕ) (cs : List ChunkRow) (k : ℕ)
    → contains ids k ≡ true
    → lookup k (chunk_rows ids cs)
      ≡ (elim (find (λ (c : ChunkRow). c.id == k) cs) [ none ↦ none | some c ↦ some (mark c) ])
unfolding chunk_rows
lookup-chunk_rows ids [] k h = refl
lookup-chunk_rows ids (c ∷ cs) k h = elim (Bool-cases (c.id == k)) [
  | inl e ↦ let here : contains ids c.id ≡ true = rw ((==_iff c.id k).0 e) h in rw (here, e) refl
  | inr e ↦ elim (Bool-cases (contains ids c.id)) [
    | inl m ↦ rw (m, e) (lookup-chunk_rows ids cs k h)
    | inr m ↦ rw (m, e) (lookup-chunk_rows ids cs k h)
  ]
]

lookup-active_versions :
    (ids : List ℕ) (fs : List FileRow) (k : ℕ)
    → contains ids k ≡ true
    → lookup k (active_versions ids fs) ≡ (elim (find (λ (f : FileRow). f.id == k) fs) [
      | none ↦ none
      | some f ↦ some f.active_chunk_version
    ])
unfolding active_versions
lookup-active_versions ids [] k h = refl
lookup-active_versions ids (f ∷ fs) k h = elim (Bool-cases (f.id == k)) [
  | inl e ↦ let here : contains ids f.id ≡ true = rw ((==_iff f.id k).0 e) h in rw (here, e) refl
  | inr e ↦ elim (Bool-cases (contains ids f.id)) [
    | inl m ↦ rw (m, e) (lookup-active_versions ids fs k h)
    | inr m ↦ rw (m, e) (lookup-active_versions ids fs k h)
  ]
]

sift_lem :
    (ok : Hit → Bool) (hs kept : List Hit) (dropped : List ℕ)
    → sift ok hs kept dropped
      ≡ (kept ++ filter ok hs, dropped ++ map (λ h. h.chunk_id) (filter (λ h. not (ok h)) hs))
unfolding sift
sift_lem ok [] kept dropped = rw (append-nil kept, append-nil dropped) refl
sift_lem ok (h ∷ hs) kept dropped = elim (Bool-cases (ok h)) [
  | inl e ↦ rw (e, sift_lem ok hs (kept ++ (h ∷ [])) dropped, append_assoc) refl
  | inr e ↦ rw (e, sift_lem ok hs kept (dropped ++ (h.chunk_id ∷ [])), append_assoc) refl
]

abbrev Covers : List ℕ → Option ℕ → Type 0
Covers fids none = Unit
Covers fids (some f) = contains fids f ≡ true

Covers-named :
    (o : Option ℕ) (rest fids : List ℕ)
    → ((k : ℕ) → contains (named o rest) k ≡ true → contains fids k ≡ true)
    → Covers fids o × ((k : ℕ) → contains rest k ≡ true → contains fids k ≡ true)
Covers-named none rest fids h = (tt, h)
Covers-named (some f) rest fids h = (h f (ground (arith, ==_refl f)), λ k e. h k (ground arith))

-- On a hit that the two queries cover, the test of the code is that of the description.
passes-visible :
    (chunks : List ChunkRow) (files : List FileRow) (t : ℕ) (allowed ids fids : List ℕ)
    (o : Option ℕ) (cid : ℕ)
    → contains ids cid ≡ true
    → Covers fids o
    → passes t allowed (chunk_rows ids chunks) (active_versions fids files) o cid
      ≡ visible chunks files t allowed o cid
passes-visible chunks files t allowed ids fids none cid c f = refl
passes-visible chunks files t allowed ids fids (some fid) cid c f =
    let row = lookup-chunk_rows ids chunks cid c in
    let active = lookup-active_versions fids files fid f in
    elim (Option-cases (find (λ (c : ChunkRow). c.id == cid) chunks)) [
      | inl n ↦ rw (passes, visible, row, n) refl
      | inr (ch, n) ↦ elim (Option-cases (find (λ (f : FileRow). f.id == fid) files)) [
        | inl m ↦ rw (passes, visible, row, n, get_active, active, m) refl
        | inr (file, m) ↦ rw (passes, visible, row, n, get_active, active, m) refl
      ]
    ]

-- The loop over hits whose ids are all among those of the queries.
filter-visible :
    (chunks : List ChunkRow) (files : List FileRow) (t : ℕ) (allowed ids fids : List ℕ)
    (hs : List Hit)
    → ((k : ℕ) → contains (map (λ h. h.chunk_id) hs) k ≡ true → contains ids k ≡ true)
    → ((k : ℕ) → contains (hit_files hs) k ≡ true → contains fids k ≡ true)
    → let ok = λ (h : Hit).
      passes t allowed (chunk_rows ids chunks) (active_versions fids files) h.file_id h.chunk_id in
      (filter ok hs ≡ filter (visible_hit chunks files t allowed) hs)
      × (filter (λ h. not (ok h)) hs ≡ filter (λ h. not (visible_hit chunks files t allowed h)) hs)
unfolding hit_files
filter-visible chunks files t allowed ids fids [] c f = (refl, refl)
filter-visible chunks files t allowed ids fids (h ∷ hs) c f =
    let (covers, f') = Covers-named h.file_id (hit_files hs) fids f in
    let first : contains ids h.chunk_id ≡ true =
      c h.chunk_id (ground (arith, ==_refl h.chunk_id)) in
    let here = passes-visible chunks files t allowed ids fids h.file_id h.chunk_id first covers in
    let (kept, gone) =
      filter-visible chunks files t allowed ids fids hs (λ k e. c k (ground arith)) f' in
    (rw (here, kept) refl, rw (here, gone) refl)

-- The guard keeps, in their order, exactly the hits whose chunk is there, belongs to the tenant, and
-- has the version that is active in the hit's file, where that file is one of those allowed; and it
-- reports the ids of all the others.
pub postverify_lem :
    (chunks : List ChunkRow) (files : List FileRow) (tenant_id : ℕ) (allowed : List ℕ)
    (hits : List Hit)
    → let ok = visible_hit chunks files tenant_id allowed in
      postverify chunks files tenant_id allowed hits
      ≡ (filter ok hits, map (λ h. h.chunk_id) (filter (λ h. not (ok h)) hits))
unfolding postverify
postverify_lem chunks files tenant_id allowed hits =
    let ids = map (λ (h : Hit). h.chunk_id) hits in
    let (kept, gone) =
      filter-visible chunks files tenant_id allowed ids (hit_files hits) hits (λ k e. e)
        (λ k e. e) in
    sift_lem _ hits [] [] ∙ rw (kept, gone) refl
