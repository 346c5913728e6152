-- ===== src/Retrieval/Core.antt =====
-- app/retrieval/orchestrator.py: which files a caller may search, and what a search returns. The two
-- searches, the fusion of their results and the reranking are parameters; the query log, the rate and
-- the latency are left out.
pub mod Permitted
use kb_backend.Prelude.{
  ℕ, zero, suc, ◌+◌, ◌-◌, ◌*◌, ◌/◌, ◌%◌, ◌^◌, ◌≤◌, ◌<◌, String, ◌≡◌, refl, sym, ap, ◌∙◌, ◌≢◌, ◌↔◌,
  ◌⊎◌, inl, inr, Bool, true, false, not, ◌&&◌, ◌||◌, Option, none, some, List, [], ◌∷◌, ◌++◌, map,
  arith, ltb, leb, ◌==◌, if◌then◌else◌, ==_iff, ==_refl, Bool-cases, Option-cases, is_some, or_else,
  opt_eq, opt_eq_iff, length, take, drop, get_elem?, filter, any, all, length-append, length-take,
  take-append-drop, any-append, filter-append, filter-all, any_of_all, length-filter, contains,
  contains-append, lookup, insert, erase, lookup-insert, lookup-erase, find, update_where, ◌>>=◌,
  concat, max, >>=_some, nonempty,
}
use kb_backend.Authz.{AuthDb, Principal, Kb, resolve}
use kb_backend.Db.{FileKb, FileRow, ChunkRow, Pg}
use kb_backend.Retrieval.Guard.{Hit, postverify}

-- `kb_ids` that is absent or empty asks for all
unfoldable pub wanted_kbs : Option (List ℕ) → List ℕ → List ℕ
wanted_kbs none allowed = allowed
wanted_kbs (some []) allowed = allowed
wanted_kbs (some (k ∷ ks)) allowed = filter (contains allowed) (k ∷ ks)

-- the join of kb_file_kb with kb_kb, for the bases of a tenant
abbrev pub is_tenant_kb : AuthDb → ℕ → ℕ → Bool
is_tenant_kb db tenant_id kb_id = any (λ k. (k.id == kb_id) && (k.tenant_id == tenant_id)) db.kbs

-- `_allowed_file_ids`: the files and the clearance
unfoldable pub allowed_file_ids :
    ℕ → AuthDb → List FileKb → Option (List ℕ) → Principal → List ℕ × ℕ
unfolding wanted_kbs
allowed_file_ids now db links kb_ids p =
    let decision = resolve now db p in
    let wanted = wanted_kbs kb_ids decision.allowed_kb_ids in
    (
      map (λ l. l.file_id)
          (filter (λ l. is_tenant_kb db p.tenant_id l.kb_id && contains wanted l.kb_id) links),
      decision.clearance,
    )

-- What `path_a.search` returns.
pub record SummaryHits : Type 0 where
  pub hits : List Hit
  pub degraded : String
  pub completed : ℕ
  pub total : ℕ

-- What the services answer to the query at hand: the two searches, given the files, the tenant and
-- the clearance; `rrf_merge`; the reranker, which may not be there, as the places of the hits in its
-- order; and the test of a hit's score against the threshold.
pub record Services : Type 0 where
  pub path_a : List ℕ → ℕ → ℕ → SummaryHits
  pub path_b : List ℕ → ℕ → ℕ → List Hit
  pub rrf_merge : List Hit → List Hit → List Hit
  pub rerank : List String → Option (List ℕ)
  pub reaches_threshold : Hit → Bool

pub data SearchMode : Type 0 where
  hybrid summary embedding unknown : SearchMode

abbrev pub by_summary : SearchMode → Bool
by_summary hybrid = true
by_summary summary = true
by_summary _ = false

abbrev pub by_embedding : SearchMode → Bool
by_embedding hybrid = true
by_embedding embedding = true
by_embedding _ = false

pub data Degraded : Type 0 where
  complete a_only b_only both_empty : Degraded

-- `_meta`
pub record Meta : Type 0 where
  pub path_a : ℕ
  pub path_b : ℕ
  pub degraded : Degraded
  pub rerank_used : Bool
  pub path_a_degraded_reason : String
  pub is_empty : Bool

abbrev pub degraded_of : List Hit → List Hit → Degraded
degraded_of [] [] = both_empty
degraded_of [] (y ∷ ys) = b_only
degraded_of (x ∷ xs) [] = a_only
degraded_of (x ∷ xs) (y ∷ ys) = complete

-- `[merged[idx] for idx, _ in rr if idx < len(merged)]`
unfoldable pub reorder : List ℕ → List Hit → List Hit
reorder [] merged = []
reorder (i ∷ is) merged =
    let rest = reorder is merged in elim (get_elem? merged i) [ none ↦ rest | some h ↦ h ∷ rest ]

-- What a caller asks for; `rerank` is the test `rerank is not False`.
pub record Request : Type 0 where
  pub kb_ids : Option (List ℕ)
  pub top_k : Option ℕ
  pub mode : SearchMode
  pub has_threshold : Bool
  pub rerank : Bool

-- `top_k or settings.default_top_k`
abbrev pub top_k_or : Option ℕ → ℕ → ℕ
top_k_or none d = d
top_k_or (some zero) d = d
top_k_or (some (suc n)) d = suc n

-- the order of the reranker, where it is used
unfoldable pub rerank_order : Services → Request → List Hit → Option (List ℕ)
rerank_order services r merged =
    if r.rerank && nonempty merged then services.rerank (map (λ h. h.content) merged) else none

abbrev no_path : SummaryHits
no_path = record { hits = []; degraded = "no_path"; completed = 0; total = 0 }

module _ {F : Type 0} (now default_top_k : ℕ) (db : AuthDb) (pg : Pg F) (p : Principal)
    (services : Services) where
  -- the hits after the guard, for the files that may be searched
  unfoldable pub guarded : Request → List ℕ → List Hit → List Hit × Bool
  unfolding reorder
  guarded r file_ids merged =
      let top_k = top_k_or r.top_k default_top_k in
      let check : List Hit → List Hit =
        λ hs. (postverify pg.chunks pg.files p.tenant_id file_ids hs).0 in
      let above : List Hit → List Hit =
        λ hs. if r.has_threshold then filter services.reaches_threshold hs else hs in
      elim (rerank_order services r merged) [
        | some places ↦ (take top_k (check (above (reorder places merged))), true)
        | none ↦ (check (take top_k (above merged)), false)
      ]

  -- the two searches, as the mode asks for them
  unfoldable pub searched : Request → List ℕ → ℕ → SummaryHits × List Hit
  searched r file_ids clearance = (
    if by_summary r.mode then services.path_a file_ids p.tenant_id clearance else no_path,
    if by_embedding r.mode then services.path_b file_ids p.tenant_id clearance else [],
  )

  -- `_retrieve_core`
  unfoldable pub retrieve_core : Request → List Hit × Meta
  unfolding allowed_file_ids guarded
  retrieve_core r =
      let (file_ids, clearance) = allowed_file_ids now db pg.file_kbs r.kb_ids p in
      let (a, b) = searched r file_ids clearance in
      let (hits, used) = guarded r file_ids (services.rrf_merge a.hits b) in
      if nonempty file_ids
      then (
        hits,
        record {
          path_a = length a.hits;
          path_b = length b;
          degraded = degraded_of a.hits b;
          rerank_used = used;
          path_a_degraded_reason = a.degraded;
          is_empty = false;
        },
      )
      else (
        [],
        record {
          path_a = 0;
          path_b = 0;
          degraded = both_empty;
          rerank_used = false;
          path_a_degraded_reason = "no_files";
          is_empty = true;
        },
      )
