-- ===== src/Tests/Documents.antt =====
-- Requests of two members, at concrete inputs.
use kb_backend.Prelude.{
  ℕ, String, ◌≡◌, refl, true, none, some, List, [], ◌∷◌, arith, contains, ◌||◌, any, ◌==◌, ◌&&◌,
}
use kb_backend.Authz.{AuthDb, Principal, Role, Visibility}
use kb_backend.Es.{Store, fake_es}
use kb_backend.Ingest.Sources.{no_config}
use kb_backend.Documents.{Site, Services, Upload, may_write_kb}
use kb_backend.Bases.{create_kb, delete_kb, is_storable}
use kb_backend.Bases.Access.{create_kb-allowed, delete_kb_closes}
use kb_backend.Authz.{me, is_tenant_admin}
use kb_backend.Authz.Spec.{role_opens, tenant_role, by_grant}
use kb_backend.Prelude.Strip.{strip, is_space}
use kb_backend.Prelude.{false}
use kb_backend.Documents.Requests.{answer, update}
use kb_backend.Documents.Tenants.{answer-others}
use kb_backend.Documents.Tenants.Rows.{others}
use kb_backend.Documents.Requests.{refuses}
use kb_backend.Documents.Library.{update_doc}
use kb_backend.Documents.Refused.{answer-refuses}
use kb_backend.Documents.Sound.{IsSound}
use kb_backend.Documents.Requests.{
  Call, Request, drive, upload, rename, detach, delete, reparse, bulk, attach, answer_all,
}
use kb_backend.Documents.Kept.{answer_all-IsSound}
use kb_backend.Documents.Again.{uploaded_again, kept_as}
use kb_backend.Documents.Uploads.{upload_doc, upload_to_drive}
use kb_backend.Http.{ok}
use kb_backend.Authz.{is_tenant_owner, is_owner_role}
use kb_backend.Documents.{can_manage_file, can_read_file}
use kb_backend.Documents.Linked.{attach_file-can_read_file}
use kb_backend.Documents.Library.{attach_file}
use kb_backend.Authz.{
  resolve, add_grants, live_grants, add_by_role, is_admin_role, member_role, add_admin_kbs,
  add_admin_kb, can_write, clearance_of, role_clearance, higher,
}
use kb_backend.Authz.Sets.{set_add}
use kb_backend.Quota.{check_quota, get_limits, get_usage, sum_sizes}
use kb_backend.Documents.Again.{kept_as-ingest_upload}
use kb_backend.Documents.{file_with_hash, within_quota}
use kb_backend.Tests.Purge.{world, env}
use kb_backend.Tests.Ingestion.{good}

-- the owners of two tenants, each with a base
abbrev db : AuthDb
db = record {
  members =
      record {
        user_id = 10;
        tenant_id = 1;
        role = Role.owner;
        department = none;
        group_name = none;
      }
      ∷ record {
        user_id = 20;
        tenant_id = 2;
        role = Role.owner;
        department = none;
        group_name = none;
      }
      ∷ [];
  grants = [];
  kbs =
      record { id = 5; tenant_id = 1; name = "plans"; visibility = Visibility.team }
      ∷ record { id = 6; tenant_id = 2; name = "notes"; visibility = Visibility.team }
      ∷ [];
  api_keys = [];
}

abbrev boss : Principal
boss = record { tenant_id = 1; user_id = 10 }

abbrev other : Principal
other = record { tenant_id = 2; user_id = 20 }

-- the file 7 is in base 5
abbrev site : Site ℕ (Store ℕ)
site = record {
  auth = db;
  quotas = [];
  world = record world {
    pg = record world.pg { file_kbs = record { file_id = 7; kb_id = 5; tenant_id = 1 } ∷ [] };
  };
}

abbrev sv : Services
sv = record {
  period = 1;
  month_start = 0;
  defaults = record { docs = 0; bytes = 0 };
  storage_key = λ fid. "key";
  put_object = λ key. true;
}

abbrev note : Upload
note = record { content_hash = 88; size_bytes = 20; filename = "n.md"; content_type = none }

abbrev call : Principal → Request → Call
call p r = record { env = env; services = sv; principal = p; request = r }

abbrev calls : List Call
calls =
    call boss (upload 5 8 note no_config none)
    ∷ call other (drive 9 note no_config)
    ∷ call boss (rename 7 (some "b.pdf") no_config)
    ∷ call boss (detach 8 5)
    ∷ call boss (attach 8 5 no_config)
    ∷ call boss (delete 7)
    ∷ call other (reparse 6 8 none)
    ∷ call boss (bulk 5 (8 ∷ []) "delete")
    ∷ []

site-IsSound : IsSound site.world.pg
site-IsSound = record { unique = λ t h. ground arith; linked = refl }

answer_all-IsSound_example : IsSound (answer_all good fake_es calls site).world.pg
answer_all-IsSound_example = answer_all-IsSound good fake_es calls site site-IsSound

uploaded : kept_as 8 (upload_doc good env fake_es sv boss 5 8 note no_config none site).1 ≡ some 8
unfolding upload_doc check_quota get_limits get_usage sum_sizes file_with_hash within_quota resolve
    add_grants live_grants add_by_role is_admin_role member_role add_admin_kbs add_admin_kb
    can_write clearance_of role_clearance higher set_add
uploaded = kept_as-ingest_upload good env fake_es sv boss 5 8 none _

uploaded_again_example :
    let site' = (upload_doc good env fake_es sv boss 5 8 note no_config none site).0 in
    (status : String) × (upload_to_drive env sv boss 9 note no_config site'
      ≡ (site', ok (record { doc_id = 8; status = status; reused = true })))
uploaded_again_example =
    uploaded_again good env env fake_es sv sv boss boss 5 8 9 note note no_config no_config none
      site 8 refl refl uploaded

answer-others_example :
    others 1 (answer good fake_es env sv boss (delete 7) site).world.pg.files
    ≡ others 1 site.world.pg.files
answer-others_example =
    answer-others good fake_es env sv boss (delete 7) site (λ k. ground arith) refl

-- the base is of another tenant
foreign : refuses good fake_es env sv other (update 5 7 "b.pdf") site ≡ true
unfolding refuses update_doc may_write_kb resolve add_grants live_grants add_by_role is_admin_role
    member_role add_admin_kbs add_admin_kb can_write clearance_of role_clearance higher set_add
foreign = refl

answer-refuses_example : answer good fake_es env sv other (update 5 7 "b.pdf") site ≡ site
answer-refuses_example = answer-refuses good fake_es env sv other (update 5 7 "b.pdf") site foreign

boss_writes : may_write_kb env site boss 5 ≡ true
unfolding may_write_kb resolve add_grants live_grants add_by_role is_admin_role member_role
    add_admin_kbs add_admin_kb can_write clearance_of role_clearance higher set_add
boss_writes = refl

other_writes : may_write_kb env site other 6 ≡ true
unfolding may_write_kb resolve add_grants live_grants add_by_role is_admin_role member_role
    add_admin_kbs add_admin_kb can_write clearance_of role_clearance higher set_add
other_writes = refl

-- the site with the row of base 6
abbrev linkable : Site ℕ (Store ℕ)
linkable = record site {
  world = record site.world {
    pg = record site.world.pg { kbs = record { id = 6; tenant_id = 2; parser_config = none } ∷ [] };
  };
}

linkable_writes : may_write_kb env linkable other 6 ≡ true
unfolding may_write_kb resolve add_grants live_grants add_by_role is_admin_role member_role
    add_admin_kbs add_admin_kb can_write clearance_of role_clearance higher set_add
linkable_writes = refl

-- the file is of tenant 1
linkable_manages : can_manage_file env linkable other 7 ≡ true
unfolding can_manage_file is_tenant_owner is_owner_role member_role
linkable_manages = refl

attach_file-can_read_file_example :
    can_read_file env (attach_file good env fake_es other 7 6 no_config linkable).0 other 7 ≡ true
attach_file-can_read_file_example =
    attach_file-can_read_file good env fake_es other 7 6 linkable no_config linkable_writes
      linkable_manages refl refl

new_base : (create_kb no_config site boss 9 (some " plans 2 ") (some me) none).1 ≡ ok (9, "plans 2")
unfolding create_kb is_storable strip is_space
new_base = refl

create_kb-allowed_example :
    let site' = (create_kb no_config site boss 9 (some " plans 2 ") (some me) none).0 in
    contains (resolve 60 site'.auth other).allowed_kb_ids 9 ≡ (
      contains (resolve 60 site.auth other).allowed_kb_ids 9
      || ((other.tenant_id == boss.tenant_id) && (9 == 9))
        && role_opens (tenant_role site.auth other) me)
create_kb-allowed_example =
    create_kb-allowed no_config site boss other 9 (some " plans 2 ") me none (9, "plans 2") 60 9
      new_base

deletes : (delete_kb site boss 5).1 ≡ ok tt
unfolding delete_kb is_tenant_admin member_role is_admin_role
deletes = refl

delete_kb_closes_example :
    let site' = (delete_kb site boss 5).0 in
    (contains (resolve 60 site'.auth boss).allowed_kb_ids 5 ≡ false)
    × ((who : Principal) → by_grant 60 site'.auth who 5 ≡ false)
    × (any (λ l. l.kb_id == 5) site'.world.pg.file_kbs ≡ false)
    × (site'.world.pg.files ≡ site.world.pg.files)
delete_kb_closes_example = delete_kb_closes site boss boss 5 60 deletes refl
