-- ===== src/Tests/Models.antt =====
-- The registry of models at concrete inputs.
use kb_backend.Prelude.{
  any, if◌then◌else◌, ℕ, ◌≡◌, refl, true, false, Option, none, some, List, [], ◌∷◌, arith, find,
  ◌>>=◌,
}
use kb_backend.Authz.{AuthDb, Principal, Role, is_tenant_owner, member_role, is_owner_role}
use kb_backend.Http.{http_error, ok}
use kb_backend.Models.{is_default_of, llm, ModelRow, Fernet, ModelSettings, resolve_model}
use kb_backend.Models.Edits.{
  is_storable, NewModel, create_model, Patch, is_own, update_model, update_ep,
}
use kb_backend.Models.Effective.{update_ep-resolve_model}
use kb_backend.Models.Unique.{Edits, here, next, create, update, IsUnique}
use kb_backend.Models.Unique.Updated.{Edits-IsUnique}

abbrev fernet : Fernet
fernet = record { encrypt = λ key. 1; decrypt = λ token. some (1 ∷ []) }

abbrev body : NewModel
body = record {
  kind = some llm;
  is_default = true;
  name = none;
  model_name = some "m";
  provider_type = none;
  base_url = none;
  api_key = 1 ∷ [];
  dim = none;
  max_tokens = none;
}

abbrev make_default : Patch
make_default = record {
  name = none;
  provider_type = none;
  base_url = none;
  model_name = none;
  dim = none;
  max_tokens = none;
  api_key = none;
  is_default = some true;
}

abbrev model : ℕ → Option ℕ → ModelRow
model id tenant_id = record {
  id = id;
  tenant_id = tenant_id;
  name = "m";
  kind = llm;
  provider_type = "openai";
  base_url = none;
  api_key_enc = none;
  model_name = "m";
  dim = none;
  max_tokens = none;
  is_default = false;
  created_at = id;
}

-- a tenant creates two defaults, and makes the first the default again
abbrev table : List ModelRow
table =
    (update_model fernet 1 (some 1) make_default
      (create_model fernet 2 20 (some 1) body (create_model fernet 1 10 (some 1) body []).0).0).0

edited : Edits fernet [] table
edited =
    next (next (next here (create 1 10 (some 1) body [])) (create 2 20 (some 1) body _))
      (update 1 (some 1) make_default _)

none_yet : IsUnique []
none_yet = record { ids = λ m. omega arith; defaults = λ t k. omega arith }

Edits-IsUnique_example : IsUnique table
Edits-IsUnique_example = Edits-IsUnique fernet edited none_yet

abbrev db : AuthDb
db = record {
  members =
      record { user_id = 5; tenant_id = 1; role = Role.owner; department = none; group_name = none }
      ∷ [];
  grants = [];
  kbs = [];
  api_keys = [];
}

abbrev owner : Principal
owner = record { tenant_id = 1; user_id = 5 }

abbrev settings : ModelSettings
settings = record {
  model_api_key = [];
  llm_base_url = "";
  llm_model = "";
  default_llm_max_tokens = 100;
  embed_base_url = "";
  embed_model = "";
  embed_dim = 8;
}

abbrev rows : List ModelRow
rows = model 1 none ∷ model 2 (some 1) ∷ model 3 (some 2) ∷ []

is_owner : is_tenant_owner db owner ≡ true
unfolding is_tenant_owner member_role is_owner_role
is_owner = refl

found : find (is_own 2 (some 1)) rows ≡ some (model 2 (some 1))
unfolding is_own
found = refl

update_ep-resolve_model_example :
    let (answer, rows') = update_ep fernet db owner 2 make_default rows in
    if is_storable make_default
    then (answer ≡ ok tt)
      × ((resolve_model fernet settings (some rows') none llm (some 1) >>= λ c. c.id) ≡ some 2)
    else (answer ≡ http_error 500 "Internal Server Error")
      × (any (is_default_of (some 1) llm) rows' ≡ false)
update_ep-resolve_model_example =
    update_ep-resolve_model fernet db owner settings 2 make_default rows (model 2 (some 1)) is_owner
      found refl
