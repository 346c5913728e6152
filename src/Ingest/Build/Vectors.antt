-- ===== src/Ingest/Build/Vectors.antt =====
-- Each chunk of a new version gets a vector.
use kb_backend.Prelude.{
  ℕ, ◌-◌, ◌≡◌, refl, ◌⊎◌, inl, inr, Bool, true, false, ◌&&◌, Option, none, some, List, [], ◌∷◌, map,
  arith, if◌then◌else◌, Option-cases, lookup, ◌>>=◌, >>=_some, nonempty,
}
use kb_backend.Db.{FileRow, World}
use kb_backend.Es.{Client}
use kb_backend.Ingest.Diff.{PrevChunk, NewChunk, match_chunks}
use kb_backend.Ingest.Sources.{Tools}
use kb_backend.Ingest.Build.{
  with_vectors, reuse_vector, reuse_chunks, Sources, build_full, build_incremental, build_sources,
  eligible, summarize, prev_chunks,
}

abbrev pub firsts : {A V : Type 0} → List (A × V) → List A
firsts xs = map (λ (x, v). x) xs

cons_some :
    {A : Type 0} (m : Option (List A)) (x : A) (r : List A)
    → (m >>= λ rest. some (x ∷ rest)) ≡ some r
    → (rest : List A) × (m ≡ some rest) × (r ≡ x ∷ rest)
cons_some none x r h = absurd (ground (arith, h))
cons_some (some rest) x r h = (rest, refl, ground (arith, h))

with_vectors-firsts :
    {F A : Type 0} (xs : List A) (vs : List (List F)) (r : List (A × Option (List F)))
    → with_vectors xs vs ≡ some r
    → firsts r ≡ xs
unfolding with_vectors
with_vectors-firsts [] vs r h = ground (arith, h)
with_vectors-firsts (x ∷ xs) [] r h = absurd (ground (arith, h))
with_vectors-firsts {F} (x ∷ xs) (v ∷ vs) r h =
    let (rest, e, last) = cons_some (with_vectors {F = F} xs vs) (x, some v) r h in
    rw (last, with_vectors-firsts xs vs rest e) refl

module _ {F S : Type 0} (es : Client F S) (s : S) where
  reuse_chunks-firsts :
      (matched : List (ℕ × PrevChunk)) (cs : List NewChunk) (vs : List (List F))
      (r : List (NewChunk × Option (List F)))
      → reuse_chunks es s matched cs vs ≡ some r
      → firsts r ≡ cs
  unfolding reuse_chunks
  reuse_chunks-firsts matched [] vs r h = ground (arith, h)
  reuse_chunks-firsts matched (c ∷ cs) [] r h =
      elim (Option-cases (lookup c.content_hash matched)) [
        | inr (p, e) ↦
            let (rest, m, last) =
              cons_some (reuse_chunks es s matched cs []) (c, reuse_vector es s p.id) r
                (rw (reuse_chunks, e) at h) in
            rw (last, reuse_chunks-firsts matched cs [] rest m) refl
        | inl e ↦ absurd (ground (arith, rw (reuse_chunks, e) at h))
      ]
  reuse_chunks-firsts matched (c ∷ cs) (v ∷ vs) r h =
      elim (Option-cases (lookup c.content_hash matched)) [
        | inr (p, e) ↦
            let (rest, m, last) =
              cons_some (reuse_chunks es s matched cs (v ∷ vs)) (c, reuse_vector es s p.id) r
                (rw (reuse_chunks, e) at h) in
            rw (last, reuse_chunks-firsts matched cs (v ∷ vs) rest m) refl
        | inl e ↦
            let (rest, m, last) =
              cons_some (reuse_chunks es s matched cs vs) (c, some v) r
                (rw (reuse_chunks, e) at h) in
            rw (last, reuse_chunks-firsts matched cs vs rest m) refl
      ]

if_some :
    {A : Type 0} (b : Bool) (x y : Option A) (r : A)
    → (if b then x else y) ≡ some r
    → (x ≡ some r) ⊎ (y ≡ some r)
if_some true x y r h = inl h
if_some false x y r h = inr h

module _ {F S Block : Type 0} (tools : Tools F Block) (es : Client F S) where
  build_full-firsts :
      (f : FileRow) (cs : List NewChunk) (r : Sources F)
      → build_full tools es f cs ≡ some r
      → firsts r.chunks ≡ cs
  unfolding build_full
  build_full-firsts f cs r h =
      let (vs, e, h1) = >>=_some (tools.embed_batch (map (λ c. c.content) cs)) _ r h in
      let (chunks, e1, h2) = >>=_some (with_vectors cs vs) _ r h1 in
      let (items, e2, h3) =
        >>=_some (if f.summary_enabled then summarize tools es (eligible cs) else some []) _ r h2 in
      ground (arith, h3, with_vectors-firsts cs vs chunks e1)

  build_incremental-firsts :
      (w : World F S) (f : FileRow) (before : ℕ) (cs : List NewChunk)
      (matched : List (ℕ × PrevChunk)) (fresh : List NewChunk) (r : Sources F)
      → build_incremental tools es w f before cs matched fresh ≡ some r
      → firsts r.chunks ≡ cs
  unfolding build_incremental
  build_incremental-firsts w f before cs matched fresh r h =
      let (vs, e, h1) =
        >>=_some
          (if nonempty fresh then tools.embed_batch (map (λ c. c.content) fresh) else some []) _ r
          h in
      let (chunks, e1, h2) = >>=_some (reuse_chunks es w.es matched cs vs) _ r h1 in
      let (items, e2, h3) =
        >>=_some
          (if f.summary_enabled && nonempty fresh
            then summarize tools es (eligible fresh)
            else some [])
          _ r h2 in
      ground (arith, h3, reuse_chunks-firsts es w.es matched cs vs chunks e1)

  -- The chunks of the documents are the new chunks, in their order.
  pub build_sources-firsts :
      (w : World F S) (f : FileRow) (target : ℕ) (cs : List NewChunk) (r : Sources F)
      → build_sources tools es w f target cs ≡ some r
      → firsts r.chunks ≡ cs
  unfolding build_sources
  build_sources-firsts w f target cs r h =
      let (matched, fresh) = match_chunks cs (prev_chunks w.pg f.id (target - 1)) in
      elim (if_some _ (build_incremental tools es w f (target - 1) cs matched fresh)
        (build_full tools es f cs) r h) [
          | inl e ↦ build_incremental-firsts w f (target - 1) cs matched fresh r e
          | inr e ↦ build_full-firsts f cs r e
        ]
