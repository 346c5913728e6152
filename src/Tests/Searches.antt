-- ===== src/Tests/Searches.antt =====
-- Searches and anchors at concrete inputs.
use kb_backend.Prelude.{ℕ, ◌≤◌, ◌≡◌, true, false, none, some, [], ◌∷◌, ◌++◌, length, all}
use kb_backend.Authz.{AuthDb, Principal, Role, Visibility}
use kb_backend.Db.{AnchorRow, Pg}
use kb_backend.Retrieval.Guard.{Hit}
use kb_backend.Retrieval.Guard.Checked.{visible_hit}
use kb_backend.Retrieval.Core.{Services, Request, hybrid, allowed_file_ids, top_k_or, retrieve_core}
use kb_backend.Retrieval.Core.Permitted.{is_linked, retrieve_core_permitted}
use kb_backend.Retrieval.Anchor.{resolve_anchor}
use kb_backend.Retrieval.Anchor.Resolved.{IsResolved, resolve_anchor_lem}
use kb_backend.Tests.Purge.{chunk, world}

-- an owner of tenant 1, with one knowledge base
abbrev db : AuthDb
db = record {
  members =
      record { user_id = 5; tenant_id = 1; role = Role.owner; department = none; group_name = none }
      ∷ [];
  grants = [];
  kbs = record { id = 3; tenant_id = 1; name = "kb"; visibility = Visibility.team } ∷ [];
  api_keys = [];
}

abbrev owner : Principal
owner = record { tenant_id = 1; user_id = 5 }

-- file 7, whose version 2 is active, is in the base
abbrev pg : Pg ℕ
pg = record world.pg { file_kbs = record { file_id = 7; kb_id = 3; tenant_id = 1 } ∷ [] }

abbrev hit : ℕ → ℕ → Hit
hit chunk_id file_id = record {
  chunk_id = chunk_id;
  file_id = some file_id;
  page = 1;
  content = "text";
}

-- the search finds a chunk of the old version, one of the active version and one of another file
abbrev services : Services
services = record {
  path_a = λ fids tenant clearance. record {
    hits = [];
    degraded = "no_summary";
    completed = 0;
    total = 0;
  };
  path_b = λ fids tenant clearance. hit 1 7 ∷ hit 2 7 ∷ hit 2 8 ∷ [];
  rrf_merge = λ xs ys. xs ++ ys;
  rerank = λ texts. some (1 ∷ 0 ∷ 2 ∷ []);
  reaches_threshold = λ h. true;
}

abbrev request : Request
request = record {
  kb_ids = some (3 ∷ []);
  top_k = some 2;
  mode = hybrid;
  has_threshold = false;
  rerank = true;
}

retrieve_core_permitted_example :
    let (hits, _) = retrieve_core 60 8 db pg owner services request in
    let files = (allowed_file_ids 60 db pg.file_kbs request.kb_ids owner).0 in
    (all (visible_hit pg.chunks pg.files owner.tenant_id files) hits ≡ true)
    × (all (is_linked 60 db pg.file_kbs request.kb_ids owner) hits ≡ true)
    × (length hits ≤ top_k_or request.top_k 8)
retrieve_core_permitted_example = retrieve_core_permitted 60 8 db pg owner services request

abbrev anchor : AnchorRow
anchor = record {
  id = 1;
  summary_doc_id = 20;
  file_id = 7;
  section_path = "a";
  target_chunk_id = none;
  target_content_hash = none;
  fingerprint = some 1;
  validity = "valid";
  anchor_version = 1;
}

-- the source is gone, and chunk 2 is near to the fingerprint
resolve_anchor_lem_example :
    IsResolved 3
      (chunk 2 2 ∷ [])
      (anchor ∷ [])
      7
      (9 ∷ [])
      20
      1
      (resolve_anchor (λ text. []) 3 (chunk 2 2 ∷ []) (anchor ∷ []) 7 (9 ∷ []) 20 "q" 1).1
resolve_anchor_lem_example =
    resolve_anchor_lem (λ text. []) 3 (chunk 2 2 ∷ []) (anchor ∷ []) 7 (9 ∷ []) 20 "q" 1
