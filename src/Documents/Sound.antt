-- ===== src/Documents/Sound.antt =====
-- The keys of the files and their links, whatever the handlers do.
use kb_backend.Es.{Client}
use kb_backend.Prelude.Counts.{count, count-append}
use kb_backend.Ingest.Sources.{Tools}
use kb_backend.Documents.{add_link, FileRow, Pg, FileKb, Env, World, file_with_hash}
use kb_backend.Ingest.Publish.{ingest_file, staged, publish_flip, flip, flip_file}
use kb_backend.Ingest.Stage.{stage_rows, Plan, StagedItem}
use kb_backend.Ingest.Publish.Atomic.{ingest_cases, publish_cases}
use kb_backend.Prelude.{
  ℕ, ◌≤◌, ◌≡◌, refl, ap, ◌∙◌, inl, inr, Bool, true, ◌&&◌, List, [], ◌∷◌, map, ◌==◌, Bool-cases,
  filter, any, all, update_where, all-append, arith, false, not, ◌++◌, none, all_imp, any-append,
  some,
}

-- the id of a file, its tenant, and the hash of its content
abbrev pub key : FileRow → ℕ × ℕ × ℕ
key f = (f.id, f.tenant_id, f.content_hash)

abbrev pub keys : {F : Type 0} → Pg F → List (ℕ × ℕ × ℕ)
keys pg = map key pg.files

abbrev pub owns : ℕ → ℕ → ℕ × ℕ × ℕ → Bool
owns t h (i, a, b) = (a == t) && (b == h)

abbrev pub has_id : ℕ → ℕ × ℕ × ℕ → Bool
has_id fid (i, a, b) = i == fid

-- No tenant has two files of one content, and each link is of a file that is there.
pub record IsSound {F : Type 0} (pg : Pg F) : Type 0 where
  pub unique : (t h : ℕ) → count (owns t h) (keys pg) ≤ 1
  pub linked : all (λ l. any (has_id l.file_id) (keys pg)) pg.file_kbs ≡ true

all-filter :
    {A : Type 0} (p q : A → Bool) (xs : List A) → all p xs ≡ true → all p (filter q xs) ≡ true
all-filter p q [] h = refl
all-filter p q (x ∷ xs) h = ground (arith, h, all-filter p q xs)

-- a tenant that has no file of the content
pub file_with_hash-none :
    (t h : ℕ) (fs : List FileRow) → file_with_hash t h fs ≡ none → count (owns t h) (map key fs) ≡ 0
unfolding file_with_hash
file_with_hash-none t h [] e = refl
file_with_hash-none t h (f ∷ fs) e = ground (arith, e, file_with_hash-none t h fs)

-- a file that is there has its key among the keys
pub has_id-files :
    (fid : ℕ) (fs : List FileRow)
    → any (λ f. f.id == fid) fs ≡ true
    → any (has_id fid) (map key fs) ≡ true
has_id-files fid [] h = h
has_id-files fid (f ∷ fs) h = ground (arith, h, has_id-files fid fs)

pub file_with_hash-some :
    (t h : ℕ) (fs : List FileRow) (f : FileRow)
    → file_with_hash t h fs ≡ some f
    → any (has_id f.id) (map key fs) ≡ true
unfolding file_with_hash
file_with_hash-some t h [] f e = absurd (ground arith)
file_with_hash-some t h (g ∷ fs) f e = ground (arith, e, file_with_hash-some t h fs f)

other_id :
    (fid k : ℕ) (fs : List FileRow)
    → (k == fid) ≡ false
    → any (has_id k) (map key (filter (λ f. not (f.id == fid)) fs)) ≡ any (has_id k) (map key fs)
other_id fid k [] h = refl
other_id fid k (f ∷ fs) h = ground (arith, h, other_id fid k fs)

kept_links :
    (fid : ℕ) (fs : List FileRow) (ls : List FileKb)
    → all (λ l. any (has_id l.file_id) (map key fs)) ls ≡ true
    → all
        (λ l. any (has_id l.file_id) (map key (filter (λ f. not (f.id == fid)) fs)))
        (filter (λ l. not (l.file_id == fid)) ls)
      ≡ true
kept_links fid fs [] h = refl
kept_links fid fs (l ∷ ls) h = elim (Bool-cases (l.file_id == fid)) [
  | inl e ↦ rw e (kept_links fid fs ls (ground (arith, h)))
  | inr e ↦
      rw (e, other_id fid l.file_id fs e, kept_links fid fs ls (ground (arith, h)))
        (ground (arith, h))
]

fewer_files :
    (t h fid : ℕ) (fs : List FileRow)
    → count (owns t h) (map key (filter (λ f. not (f.id == fid)) fs))
      ≤ count (owns t h) (map key fs)
fewer_files t h fid [] = omega arith
fewer_files t h fid (f ∷ fs) = ground (arith, fewer_files t h fid fs)

one_more :
    (t h : ℕ) (f : FileRow) (ks : List (ℕ × ℕ × ℕ))
    → count (owns t h) ks ≤ 1
    → count (owns f.tenant_id f.content_hash) ks ≡ 0
    → count (owns t h) (ks ++ (key f ∷ [])) ≤ 1
one_more t h f ks few fresh = elim (Bool-cases (owns t h (key f))) [
  | inl e ↦
      let same : f.tenant_id ≡ t = ground (arith, e) in
      let same' : f.content_hash ≡ h = ground (arith, e) in
      let absent : count (owns t h) ks ≡ 0 = rw (same, same') at fresh in
      rw (count-append (owns t h) ks (key f ∷ [])) (ground (arith, absent))
  | inr e ↦ rw (count-append (owns t h) ks (key f ∷ [])) (ground (arith, e, few))
]

add_link-all :
    (p : FileKb → Bool) (fid kb_id t : ℕ) (ls : List FileKb)
    → all p ls ≡ true
    → p (record { file_id = fid; kb_id = kb_id; tenant_id = t }) ≡ true
    → all p (add_link fid kb_id t ls) ≡ true
unfolding add_link
add_link-all p fid kb_id t ls h k =
    elim (Bool-cases (any (λ l. (l.file_id == fid) && (l.kb_id == kb_id)) ls)) [
      | inl e ↦ rw e h
      | inr e ↦ rw e (all-append p ls _ h (rw k refl))
    ]

module _ {F : Type 0} (pg pg' : Pg F) where
  pub same-IsSound : keys pg' ≡ keys pg → pg'.file_kbs ≡ pg.file_kbs → IsSound pg → IsSound pg'
  same-IsSound same links s = record {
    unique = λ t h. rw same (s.unique t h);
    linked = rw (same, links) s.linked;
  }

  pub fewer-IsSound :
      (q : FileKb → Bool)
      → keys pg' ≡ keys pg
      → pg'.file_kbs ≡ filter q pg.file_kbs
      → IsSound pg
      → IsSound pg'
  fewer-IsSound q same links s = record {
    unique = λ t h. rw same (s.unique t h);
    linked =
        rw (same, links)
          (all-filter (λ l. any (has_id l.file_id) (keys pg)) q pg.file_kbs s.linked);
  }

  pub linked-IsSound :
      (fid kb_id t : ℕ)
      → any (has_id fid) (keys pg) ≡ true
      → keys pg' ≡ keys pg
      → pg'.file_kbs ≡ add_link fid kb_id t pg.file_kbs
      → IsSound pg
      → IsSound pg'
  linked-IsSound fid kb_id t there same links s = record {
    unique = λ u h. rw same (s.unique u h);
    linked =
        rw (same, links)
          (add_link-all (λ l. any (has_id l.file_id) (keys pg)) fid kb_id t pg.file_kbs s.linked
            there);
  }

  -- a file that a tenant did not have, with links of its own
  pub added-IsSound :
      (f : FileRow) (ls : List FileKb)
      → count (owns f.tenant_id f.content_hash) (keys pg) ≡ 0
      → keys pg' ≡ keys pg ++ (key f ∷ [])
      → pg'.file_kbs ≡ pg.file_kbs ++ ls
      → all (λ l. l.file_id == f.id) ls ≡ true
      → IsSound pg
      → IsSound pg'
  added-IsSound f ls fresh same links own s =
      let ks = keys pg in
      record {
        unique = λ t h. rw same (one_more t h f ks (s.unique t h) fresh);
        linked =
            rw (same, links)
              (all-append _ pg.file_kbs ls
                (all_imp (λ l. any (has_id l.file_id) ks) _ pg.file_kbs
                  (λ l e. any-append (has_id l.file_id) ks (key f ∷ []) ∙ rw e refl) s.linked)
                (all_imp (λ l. l.file_id == f.id) _ ls
                  (λ l e. any-append (has_id l.file_id) ks (key f ∷ []) ∙ ground (arith, e)) own));
      }

  -- a file goes with its links
  pub removed-IsSound :
      (fid : ℕ)
      → pg'.files ≡ filter (λ f. not (f.id == fid)) pg.files
      → pg'.file_kbs ≡ filter (λ l. not (l.file_id == fid)) pg.file_kbs
      → IsSound pg
      → IsSound pg'
  removed-IsSound fid same links s = record {
    unique = λ t h. rw same (omega (arith, s.unique t h, fewer_files t h fid pg.files));
    linked = rw (same, links) (kept_links fid pg.files pg.file_kbs s.linked);
  }

pub keys-update_where :
    (q : FileRow → Bool) (g : FileRow → FileRow) (fs : List FileRow)
    → ((f : FileRow) → key (g f) ≡ key f)
    → map key (update_where q g fs) ≡ map key fs
keys-update_where q g [] h = refl
keys-update_where q g (f ∷ fs) h =
    let rest = keys-update_where q g fs h in
    elim (Bool-cases (q f)) [
      | inl e ↦
          rw e (ap (λ k. k ∷ map key (update_where q g fs)) (h f) ∙ ap (λ ks. key f ∷ ks) rest)
      | inr e ↦ rw e (ap (λ ks. key f ∷ ks) rest)
    ]

module _ {F S : Type 0} (env : Env) (es : Client F S) (f : FileRow) (plan : Plan F)
    (items : List (StagedItem F)) (w : World F S) where
  staged-keys :
      let w' = staged env es f plan items w in
      (keys w'.pg ≡ keys w.pg) × (w'.pg.file_kbs ≡ w.pg.file_kbs) × (w'.pg.kbs ≡ w.pg.kbs)
  unfolding staged stage_rows
  staged-keys = (refl, refl, refl)

  flip-keys :
      let w' = publish_flip env es f plan items w in
      (keys w'.pg ≡ keys w.pg) × (w'.pg.file_kbs ≡ w.pg.file_kbs) × (w'.pg.kbs ≡ w.pg.kbs)
  unfolding publish_flip flip flip_file
  flip-keys = (
    keys-update_where (λ g. g.id == f.id) (flip_file plan.target plan.blocks) w.pg.files
        (λ g. refl),
    refl,
    refl,
  )

module _ {F S Block : Type 0} (tools : Tools F Block) (env : Env) (es : Client F S) where
  -- an ingestion changes no key, no link and no base
  pub ingest_file-keys :
      (fid : ℕ) (w : World F S)
      → let (w', e) = ingest_file tools env es fid w in
        (keys w'.pg ≡ keys w.pg) × (w'.pg.file_kbs ≡ w.pg.file_kbs) × (w'.pg.kbs ≡ w.pg.kbs)
  ingest_file-keys fid w = elim (ingest_cases tools env es fid w) [
    | inl (e, _, same) ↦ rw same (refl, refl, refl)
    | inr (f, plan, items, _, _, reached) ↦ rw reached (elim (publish_cases env es f plan items w) [
      | inl e ↦ rw e (staged-keys env es f plan items w)
      | inr e ↦ rw e (
          let (same, links, kbs) = staged-keys env es f plan items w in
          let (same', links', kbs') =
            flip-keys env es f plan items (staged env es f plan items w) in
          (same' ∙ same, links' ∙ links, kbs' ∙ kbs))
    ])
  ]
