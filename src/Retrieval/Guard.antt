-- ===== src/Retrieval/Guard.antt =====
-- app/retrieval/guard.py: the hits that a caller may see. A hit is modelled without its score
-- and its path.
pub mod Checked
use kb_backend.Prelude.{
  ℕ, String, Bool, false, ◌&&◌, Option, none, some, List, [], ◌∷◌, ◌++◌, map, ◌==◌, if◌then◌else◌,
  opt_eq, contains, lookup,
}
use kb_backend.Db.{FileRow, ChunkRow}

pub record Hit : Type 0 where
  pub chunk_id : ℕ
  pub file_id : Option ℕ
  pub page : ℕ
  pub content : String

pub record Mark : Type 0 where
  pub tenant_id : ℕ
  pub version : ℕ

-- `rows`: the tenant and the version of the chunks whose ids the query names; ids are primary keys,
-- so the first row of an id is the only one
unfoldable pub chunk_rows : List ℕ → List ChunkRow → List (ℕ × Mark)
chunk_rows ids [] = []
chunk_rows ids (c ∷ cs) =
    let rest = chunk_rows ids cs in
    if contains ids c.id
    then (c.id, record { tenant_id = c.tenant_id; version = c.chunk_version }) ∷ rest
    else rest

-- `list({h["file_id"] for h in hits if h.get("file_id")})`
abbrev pub named : Option ℕ → List ℕ → List ℕ
named none fids = fids
named (some f) fids = f ∷ fids

unfoldable pub hit_files : List Hit → List ℕ
hit_files [] = []
hit_files (h ∷ hs) = named h.file_id (hit_files hs)

-- `active`: the active version, perhaps NULL, of the files that the query names
unfoldable pub active_versions : List ℕ → List FileRow → List (ℕ × Option ℕ)
active_versions ids [] = []
active_versions ids (f ∷ fs) =
    let rest = active_versions ids fs in
    if contains ids f.id then (f.id, f.active_chunk_version) ∷ rest else rest

-- `active.get(fid)`
abbrev pub get_active : List (ℕ × Option ℕ) → ℕ → Option ℕ
get_active active fid = elim (lookup fid active) [ none ↦ none | some v ↦ v ]

-- The test of one hit, from its file and its chunk; a chunk that is missing has no tenant.
abbrev pub passes : ℕ → List ℕ → List (ℕ × Mark) → List (ℕ × Option ℕ) → Option ℕ → ℕ → Bool
passes tenant_id allowed rows active none cid = false
passes tenant_id allowed rows active (some fid) cid = elim (lookup cid rows) [
  | none ↦ false
  | some m ↦
      (m.tenant_id == tenant_id)
      && contains allowed fid
      && opt_eq (some m.version) (get_active active fid)
]

-- The loop over the hits, with `kept` and `dropped` as they grow.
unfoldable pub sift : (Hit → Bool) → List Hit → List Hit → List ℕ → List Hit × List ℕ
sift ok [] kept dropped = (kept, dropped)
sift ok (h ∷ hs) kept dropped =
    if ok h
    then sift ok hs (kept ++ (h ∷ [])) dropped
    else sift ok hs kept (dropped ++ (h.chunk_id ∷ []))

-- `postverify`: the hits kept, and the ids that the audit record names if there are any
unfoldable pub postverify : List ChunkRow → List FileRow → ℕ → List ℕ → List Hit → List Hit × List ℕ
unfolding chunk_rows hit_files active_versions sift
postverify chunks files tenant_id allowed hits =
    let rows = chunk_rows (map (λ h. h.chunk_id) hits) chunks in
    let active = active_versions (hit_files hits) files in
    sift (λ h. passes tenant_id allowed rows active h.file_id h.chunk_id) hits [] []
