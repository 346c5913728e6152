-- ===== src/Ingest/Diff/Matched.antt =====
-- What the matching of two versions finds.
use mathlib.Core.List.{append-nil, append_assoc}
use kb_backend.Prelude.{
  ℕ, ◌≡◌, refl, ap, ◌∙◌, ◌⊎◌, inl, inr, Bool, true, false, not, ◌&&◌, Option, none, some, List, [],
  ◌∷◌, ◌++◌, arith, ◌==◌, Option-cases, is_some, if◌then◌else◌, any, any_of_all, filter, lookup,
  insert, lookup-insert,
}
use kb_backend.Ingest.Diff.{
  PrevChunk, NewChunk, by_hash, match_loop, match_chunks, map_loop, old_to_new_map,
}

-- The last chunk of the list with the hash.
abbrev pub last_with : ℕ → List PrevChunk → Option PrevChunk
last_with h [] = none
last_with h (p ∷ ps) =
    let later = last_with h ps in
    if is_some later then later else if p.content_hash == h then some p else none

lookup-by_hash :
    (h : ℕ) (ps : List PrevChunk) (d : List (ℕ × PrevChunk))
    → lookup h (by_hash ps d) ≡ (if is_some (last_with h ps) then last_with h ps else lookup h d)
unfolding by_hash
lookup-by_hash h [] d = refl
lookup-by_hash h (p ∷ ps) d =
    lookup-by_hash h ps (insert p.content_hash p d)
    ∙ ground (arith, lookup-insert p.content_hash h p d)

lookup_last : (h : ℕ) (ps : List PrevChunk) → lookup h (by_hash ps []) ≡ last_with h ps
lookup_last h ps = lookup-by_hash h ps [] ∙ ground arith

filter_cong :
    (p q : NewChunk → Bool) (xs : List NewChunk)
    → ((x : NewChunk) → p x ≡ q x)
    → filter p xs ≡ filter q xs
filter_cong p q [] h = refl
filter_cong p q (x ∷ xs) h = ground (arith, h x, filter_cong p q xs h)

abbrev fresh_in : List (ℕ × PrevChunk) → NewChunk → Bool
fresh_in d c = not (is_some (lookup c.content_hash d))

match_loop-fresh :
    (d : List (ℕ × PrevChunk)) (cs : List NewChunk) (m : List (ℕ × PrevChunk))
    (fresh : List NewChunk)
    → (match_loop d cs m fresh).1 ≡ fresh ++ filter (fresh_in d) cs
unfolding match_loop
match_loop-fresh d [] m fresh = rw append-nil refl
match_loop-fresh d (c ∷ cs) m fresh = elim (Option-cases (lookup c.content_hash d)) [
  | inl e ↦ rw (match_loop, e, match_loop-fresh d cs m (fresh ++ (c ∷ [])), append_assoc) refl
  | inr (p, e) ↦ rw (match_loop, e) (match_loop-fresh d cs (insert c.content_hash p m) fresh)
]

match_loop-matched :
    (d : List (ℕ × PrevChunk)) (cs : List NewChunk) (m : List (ℕ × PrevChunk))
    (fresh : List NewChunk) (h : ℕ)
    → lookup h (match_loop d cs m fresh).0 ≡ (
        if any (λ c. c.content_hash == h) cs && is_some (lookup h d)
        then lookup h d
        else lookup h m)
unfolding match_loop
match_loop-matched d [] m fresh h = refl
match_loop-matched d (c ∷ cs) m fresh h = elim (Option-cases (lookup c.content_hash d)) [
  | inl e ↦ rw (match_loop, e) (match_loop-matched d cs m (fresh ++ (c ∷ [])) h ∙ ground (arith, e))
  | inr (p, e) ↦
      rw (match_loop, e)
        (match_loop-matched d cs (insert c.content_hash p m) fresh h
          ∙ ground (arith, e, lookup-insert c.content_hash h p m))
]

-- The new chunks whose hash no chunk of the version before has are fresh, in their order; and under
-- the hash of each of the others `matched` has the last chunk of the version before with that hash,
-- and nothing under a hash that no new chunk has.
pub match_chunks_lem :
    (new_chunks : List NewChunk) (prev : List PrevChunk)
    → let (matched, fresh) = match_chunks new_chunks prev in
      (fresh ≡ filter (λ c. not (is_some (last_with c.content_hash prev))) new_chunks)
      × ((h : ℕ)
          → lookup h matched
            ≡ (if any (λ c. c.content_hash == h) new_chunks then last_with h prev else none))
unfolding match_chunks
match_chunks_lem new_chunks prev =
    let d = by_hash prev [] in
    (
      match_loop-fresh d new_chunks [] []
          ∙ filter_cong (fresh_in d) (λ c. not (is_some (last_with c.content_hash prev))) new_chunks
              (λ c. ap (λ o. not (is_some o)) (lookup_last c.content_hash prev)),
      λ h. match_loop-matched d new_chunks [] [] h ∙ ground (arith, lookup_last h prev),
    )

-- The chunk of the version before that a new chunk continues, if any, has this id.
abbrev pub continues : ℕ → Option PrevChunk → Bool
continues pid none = false
continues pid (some p) = p.id == pid

map_loop-continues :
    (d : List (ℕ × PrevChunk)) (cs : List NewChunk) (m : List (ℕ × ℕ)) (pid nid : ℕ)
    → lookup pid (map_loop d cs m) ≡ some nid
    → (lookup pid m ≡ some nid)
      ⊎ (any (λ c. (c.chunk_id == nid) && continues pid (lookup c.content_hash d)) cs ≡ true)
unfolding map_loop
map_loop-continues d [] m pid nid h = inl h
map_loop-continues d (c ∷ cs) m pid nid h = elim (Option-cases (lookup c.content_hash d)) [
  | inl e ↦
      let rest = map_loop-continues d cs m pid nid (rw (map_loop, e) at h) in
      elim rest [ inl old ↦ inl old | inr new ↦ inr (ground (arith, new)) ]
  | inr (p, e) ↦
      let rest =
        map_loop-continues d cs (insert p.id c.chunk_id m) pid nid (rw (map_loop, e) at h) in
      ground (arith, rest, e, lookup-insert p.id pid c.chunk_id m)
]

if_continues :
    (pid : ℕ) (b : Bool) (o : Option PrevChunk)
    → continues pid (if b then o else none) ≡ true
    → continues pid o ≡ true
if_continues pid true o h = h
if_continues pid false o h = ground arith

-- Where the map from old chunks to new ones leads from `pid` to `nid`, some new chunk has the id
-- `nid`, and the last chunk of the version before with the same hash has the id `pid`.
pub old_to_new_map-continues :
    (new_chunks : List NewChunk) (prev : List PrevChunk) (pid nid : ℕ)
    → lookup pid (old_to_new_map (match_chunks new_chunks prev).0 new_chunks) ≡ some nid
    → any (λ c. (c.chunk_id == nid) && continues pid (last_with c.content_hash prev)) new_chunks
      ≡ true
unfolding old_to_new_map
old_to_new_map-continues new_chunks prev pid nid h =
    let matched = (match_chunks new_chunks prev).0 in
    elim (map_loop-continues matched new_chunks [] pid nid h) [
      | inl old ↦ absurd (ground (arith, old))
      | inr found ↦
          any_of_all (λ c. (c.chunk_id == nid) && continues pid (lookup c.content_hash matched))
            (λ c. (c.chunk_id == nid) && continues pid (last_with c.content_hash prev)) new_chunks
            (λ c e.
              let named = any (λ x. x.content_hash == c.content_hash) new_chunks in
              ground (
                arith,
                (match_chunks_lem new_chunks prev).1 c.content_hash,
                if_continues pid named (last_with c.content_hash prev),
              ))
            found
    ]
