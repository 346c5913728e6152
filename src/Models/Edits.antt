-- ===== src/Models/Edits.antt =====
-- app/models_registry.py (create_model, update_model, delete_model, defaults_view) and the handlers of
-- app/routers/models.py, of which each transaction is modelled; their audit records, and the handler
-- that calls a model to test it, are left out.
use Prim.Native.String.{len}
use kb_backend.Prelude.{
  leb, ℕ, String, Bool, true, false, not, ◌&&◌, ◌||◌, Option, none, some, List, [], ◌∷◌, ◌++◌, map,
  ◌==◌, if◌then◌else◌, is_some, or_else, opt_eq, filter, any, find, update_where, nonempty,
}
use kb_backend.Prelude.Text.{is_text}
use kb_backend.Http.{Http, ok, http_error}
use kb_backend.Authz.{AuthDb, Principal, is_tenant_owner}
use kb_backend.Models.{
  Kind, embedding, llm, rerank, same_kind, ModelRow, ModelConfig, Fernet, ModelSettings, Table,
  encrypt_key, clear_default, resolve_model, list_models, ModelView,
}

-- VARCHAR(n), and INT
abbrev pub fits_text : ℕ → String → Bool
fits_text n s = leb (len s) n

abbrev pub fits_url : Option String → Bool
fits_url none = true
fits_url (some s) = fits_text 512 s

abbrev pub fits_int : Option ℕ → Bool
fits_int none = true
fits_int (some n) = leb n 2147483647

-- The row fits the columns of kb_model_config.
unfoldable pub fits_columns : ModelRow → Bool
fits_columns r =
    fits_text 128 r.name
    && fits_text 24 r.provider_type
    && fits_text 128 r.model_name
    && fits_url r.base_url
    && fits_int r.dim
    && fits_int r.max_tokens

-- The body of a creation; a kind that is not among KINDS is `none`, and a provider that is null is
-- `some none`.
pub record NewModel : Type 0 where
  pub kind : Option Kind
  pub is_default : Bool
  pub name : Option String
  pub model_name : Option String
  pub provider_type : Option (Option String)
  pub base_url : Option String
  pub api_key : List ℕ
  pub dim : Option ℕ
  pub max_tokens : Option ℕ

pub data Created : Type 0 where
  created : ℕ → Created
  -- the ValueError
  bad_kind : Created
  -- the KeyError of a missing model name, or the error of an insertion
  failed : Created

abbrev pub name_of : Option String → String → String
name_of none model = model
name_of (some name) model = if is_text name then name else model

-- `body.get("providerType", "openai")`
abbrev pub provider_of : NewModel → Option String
provider_of body = or_else body.provider_type (some "openai")

-- the row that `create_model` inserts
abbrev pub new_row : Fernet → ℕ → ℕ → Option ℕ → NewModel → Kind → String → ModelRow
new_row fernet mid now tenant_id body kind model_name = record {
  id = mid;
  tenant_id = tenant_id;
  name = name_of body.name model_name;
  kind = kind;
  provider_type = or_else (provider_of body) "";
  base_url = body.base_url;
  api_key_enc = encrypt_key fernet body.api_key;
  model_name = model_name;
  dim = body.dim;
  max_tokens = body.max_tokens;
  is_default = body.is_default;
  created_at = now;
}

-- `create_model`; `mid` is the uuid that it draws
unfoldable pub create_model :
    Fernet → ℕ → ℕ → Option ℕ → NewModel → List ModelRow → List ModelRow × Created
unfolding fits_columns
create_model fernet mid now tenant_id body rows = elim body.kind [
  | none ↦ (rows, bad_kind)
  | some kind ↦
      let cleared = if body.is_default then clear_default tenant_id kind rows else rows in
      elim body.model_name [
        | none ↦ (cleared, failed)
        | some model_name ↦
            let row = new_row fernet mid now tenant_id body kind model_name in
            if any (λ r. r.id == mid) cleared
            then (cleared, failed)
            else if not (is_some (provider_of body) && fits_columns row)
            then (cleared, failed)
            else (cleared ++ (row ∷ []), created mid)
      ]
]

-- The body of an update: `none` for a key that is absent, `some none` for one that is null.
pub record Patch : Type 0 where
  pub name : Option (Option String)
  pub provider_type : Option (Option String)
  pub base_url : Option (Option String)
  pub model_name : Option (Option String)
  pub dim : Option (Option ℕ)
  pub max_tokens : Option (Option ℕ)
  pub api_key : Option (List ℕ)
  pub is_default : Option Bool

-- `"apiKey" in body and body["apiKey"]`
abbrev pub new_key : Patch → List ℕ
new_key p = or_else p.api_key []

-- `bool(sets)`
unfoldable pub sets_any : Patch → Bool
sets_any p =
    is_some p.name
    || is_some p.provider_type
    || is_some p.base_url
    || is_some p.model_name
    || is_some p.dim
    || is_some p.max_tokens
    || nonempty (new_key p)
    || is_some p.is_default

-- the value of a column that is NOT NULL
abbrev pub assigned : Option (Option String) → String → String
assigned none s = s
assigned (some none) s = s
assigned (some (some t)) s = t

-- A key that is given is not null, and fits VARCHAR(n).
abbrev pub is_assignable : ℕ → Option (Option String) → Bool
is_assignable n none = true
is_assignable n (some none) = false
is_assignable n (some (some s)) = fits_text n s

-- The UPDATE breaks no rule of a column.
unfoldable pub is_storable : Patch → Bool
is_storable p =
    is_assignable 128 p.name
    && is_assignable 24 p.provider_type
    && is_assignable 128 p.model_name
    && fits_url (or_else p.base_url none)
    && fits_int (or_else p.dim none)
    && fits_int (or_else p.max_tokens none)

-- the assignments of the UPDATE
unfoldable pub patched : Fernet → Patch → ModelRow → ModelRow
patched fernet p r = record r {
  name = assigned p.name r.name;
  provider_type = assigned p.provider_type r.provider_type;
  base_url = or_else p.base_url r.base_url;
  model_name = assigned p.model_name r.model_name;
  dim = or_else p.dim r.dim;
  max_tokens = or_else p.max_tokens r.max_tokens;
  api_key_enc = if nonempty (new_key p) then encrypt_key fernet (new_key p) else r.api_key_enc;
  is_default = or_else p.is_default r.is_default;
}

-- the WHERE clause of update_model's SELECT and of delete_model
unfoldable pub is_own : ℕ → Option ℕ → ModelRow → Bool
is_own model_id tenant_id r =
    (r.id == model_id) && (not (is_some tenant_id) || opt_eq r.tenant_id tenant_id)

-- `update_model`; `none` is the exception of an UPDATE that breaks a rule of a column. The clearing of
-- the other defaults has been committed on a connection of its own by then.
unfoldable pub update_model :
    Fernet → ℕ → Option ℕ → Patch → List ModelRow → List ModelRow × Option Bool
unfolding sets_any is_storable
update_model fernet model_id tenant_id p rows = elim (find (is_own model_id tenant_id) rows) [
  | none ↦ (rows, some false)
  | some r ↦
      let cleared =
        if or_else p.is_default false then clear_default r.tenant_id r.kind rows else rows in
      if not (sets_any p)
      then (rows, some false)
      else if not (is_storable p)
      then (cleared, none)
      else (update_where (λ x. x.id == model_id) (patched fernet p) cleared, some true)
]

-- `delete_model`
unfoldable pub delete_model : ℕ → Option ℕ → List ModelRow → List ModelRow × Bool
delete_model model_id tenant_id rows =
    (filter (λ r. not (is_own model_id tenant_id r)) rows, any (is_own model_id tenant_id) rows)

-- `defaults_view`, by kind
unfoldable pub defaults_view :
    Fernet → ModelSettings → Table → Option ℕ → Option ℕ → List (Kind × Option ModelConfig)
defaults_view fernet s table current tenant_id =
    map (λ kind. (kind, resolve_model fernet s table current kind tenant_id))
      (llm ∷ embedding ∷ rerank ∷ [])

abbrev forbidden_owner : {A : Type 0} → Http A
forbidden_owner = http_error 403 "KB_FORBIDDEN_OWNER"

-- what `update_ep` answers to the result of `update_model`
abbrev pub answer_update : List ModelRow × Option Bool → Http (Unit {0}) × List ModelRow
answer_update (rows, none) = (http_error 500 "Internal Server Error", rows)
answer_update (rows, some false) = (http_error 404 "KB_MODEL_NOT_FOUND", rows)
answer_update (rows, some true) = (ok tt, rows)

module _ (fernet : Fernet) (db : AuthDb) (p : Principal) where
  -- `list_ep`
  unfoldable pub list_ep : Table → Option Kind → Http (List ModelView)
  list_ep table kind =
      let rows = list_models fernet table (some p.tenant_id) true in
      let asked : ModelView → Bool =
        λ v. elim kind [ none ↦ true | some k ↦ same_kind v.config.kind k ] in
      if not (is_tenant_owner db p) then forbidden_owner else ok (filter asked rows)

  -- `defaults_ep`
  unfoldable pub defaults_ep :
      ModelSettings → Table → Option ℕ → Http (List (Kind × Option ModelConfig))
  unfolding defaults_view
  defaults_ep s table current =
      if not (is_tenant_owner db p)
      then forbidden_owner
      else ok (defaults_view fernet s table current (some p.tenant_id))

  -- `create_ep`
  unfoldable pub create_ep : ℕ → ℕ → NewModel → List ModelRow → Http ℕ × List ModelRow
  create_ep mid now body rows =
      let (rows', result) = create_model fernet mid now (some p.tenant_id) body rows in
      if not (is_tenant_owner db p)
      then (forbidden_owner, rows)
      else if not (is_text (or_else body.model_name ""))
      then (http_error 400 "modelName required", rows)
      else (elim result [
        | created id ↦ (ok id, rows')
        | bad_kind ↦ (http_error 400 "kind must be one of llm,embedding,rerank", rows')
        | failed ↦ (http_error 500 "Internal Server Error", rows')
      ])

  -- `update_ep`
  unfoldable pub update_ep : ℕ → Patch → List ModelRow → Http (Unit {0}) × List ModelRow
  update_ep model_id body rows =
      if not (is_tenant_owner db p)
      then (forbidden_owner, rows)
      else answer_update (update_model fernet model_id (some p.tenant_id) body rows)

  -- `delete_ep`
  unfoldable pub delete_ep : ℕ → List ModelRow → Http (Unit {0}) × List ModelRow
  delete_ep model_id rows =
      let (rows', found) = delete_model model_id (some p.tenant_id) rows in
      if not (is_tenant_owner db p)
      then (forbidden_owner, rows)
      else if found
      then (ok tt, rows')
      else (http_error 404 "KB_MODEL_NOT_FOUND", rows')
