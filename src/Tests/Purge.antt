-- ===== src/Tests/Purge.antt =====
-- The purge of superseded versions at concrete inputs.
use kb_backend.Prelude.{ℕ, ◌≡◌, refl, true, false, some, none, [], ◌∷◌}
use kb_backend.Prelude.Int.{pos}
use kb_backend.Es.{Store, empty_doc, fake_es}
use kb_backend.Relay.{pending_count}
use kb_backend.Db.{FileRow, ChunkRow, World, Env, file_of}
use kb_backend.Gc.{lockstep, purge_file_versions, project_file}
use kb_backend.Gc.Keeps.{Keeps, purge-Keeps, removed, dry_run_predicts}
use kb_backend.Tests.Log.{toy}

abbrev pub file : FileRow
file = record {
  id = 7;
  tenant_id = 1;
  storage_key = "a.pdf";
  name = "a.pdf";
  content_hash = 77;
  mime = none;
  parser_type = some "naive";
  parser_config = none;
  size_bytes = some 100;
  page_count = none;
  summary_enabled = false;
  active_doc_version = some 2;
  active_chunk_version = some 2;
  active_summary_version = some 2;
  active_anchor_version = some 2;
  status = "active";
  owner_user_id = none;
  created_at = 5;
}

abbrev pub chunk : ℕ → ℕ → ChunkRow
chunk id version = record {
  id = id;
  file_id = 7;
  tenant_id = 1;
  doc_version = version;
  chunk_order = 0;
  content = "text";
  section_path = none;
  page_num = 1;
  chunk_version = version;
  content_hash = 100;
  simhash = pos 0;
  available = 1;
}

abbrev pub world : World ℕ (Store ℕ)
world = record {
  pg = record {
    files = file ∷ [];
    chunks = chunk 1 1 ∷ chunk 2 2 ∷ [];
    summaries = [];
    anchors = [];
    versions = [];
    usage = [];
    file_kbs = [];
    kbs = [];
    outbox = [];
    audit_log = [];
    audit_seq = 1;
  };
  es = (1, empty_doc) ∷ (2, empty_doc) ∷ [];
}

abbrev pub env : Env
env = record {
  now = 10;
  file_lock = λ fid. true;
  audit_lock = λ t. true;
  hashing = toy;
  max_attempts = 3;
}

found : file_of world.pg.files 7 1 ≡ some file
unfolding file_of
found = refl

in_step : lockstep file ≡ some 2
unfolding lockstep
in_step = refl

quiet : pending_count (some 7) world.pg.outbox ≡ 0
unfolding pending_count
quiet = refl

purge-Keeps_example : Keeps 1 7 2 world.pg (purge_file_versions env fake_es 1 none 1 7 world).0.pg
purge-Keeps_example = purge-Keeps env fake_es 1 none 1 7 2 file world found in_step

dry_run_predicts_example :
    removed (purge_file_versions env fake_es 1 none 1 7 world).1
    ≡ removed (project_file world.pg 1 1 7)
dry_run_predicts_example = dry_run_predicts env fake_es 1 none 1 7 world refl quiet
