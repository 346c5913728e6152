-- ===== src/Models.antt =====
-- app/models_registry.py: the configured models of the tenants and of the system, and which of them is
-- in effect; app/crypto.py: the encryption of their keys. A key is the list of its characters.
pub mod Edits
pub mod Effective
pub mod Unique
use kb_backend.Prelude.{
  ℕ, zero, suc, ◌-◌, String, Bool, true, false, not, ◌&&◌, ◌||◌, Option, none, some, List, [], ◌∷◌,
  ◌++◌, map, ltb, leb, ◌==◌, if◌then◌else◌, is_some, or_else, opt_eq, length, drop, filter, find,
  update_where, ◌>>=◌, nonempty,
}
use kb_backend.Prelude.Text.{is_text}

pub data Kind : Type 0 where
  embedding llm rerank : Kind

-- the place of a kind in the order of their names
abbrev pub rank : Kind → ℕ
rank embedding = 0
rank llm = 1
rank rerank = 2

abbrev pub same_kind : Kind → Kind → Bool
same_kind a b = rank a == rank b

-- A row of kb_model_config. The system's own rows have no tenant; a token is a number, and `none`
-- stands for NULL and for the empty text.
pub record ModelRow : Type 0 where
  pub id : ℕ
  pub tenant_id : Option ℕ
  pub name : String
  pub kind : Kind
  pub provider_type : String
  pub base_url : Option String
  pub api_key_enc : Option ℕ
  pub model_name : String
  pub dim : Option ℕ
  pub max_tokens : Option ℕ
  pub is_default : Bool
  pub created_at : ℕ

pub record ModelConfig : Type 0 where
  pub id : Option ℕ
  pub kind : Kind
  pub provider_type : String
  pub base_url : String
  pub api_key : List ℕ
  pub model_name : String
  pub dim : Option ℕ
  pub name : String
  pub is_default : Bool
  pub max_tokens : Option ℕ

-- The two calls of the library cryptography; `decrypt` may raise.
pub record Fernet : Type 0 where
  pub encrypt : List ℕ → ℕ
  pub decrypt : ℕ → Option (List ℕ)

-- `encrypt`
unfoldable pub encrypt_key : Fernet → List ℕ → Option ℕ
encrypt_key fernet [] = none
encrypt_key fernet (x ∷ xs) = some (fernet.encrypt (x ∷ xs))

-- `decrypt`
unfoldable pub decrypt_key : Fernet → Option ℕ → List ℕ
decrypt_key fernet none = []
decrypt_key fernet (some token) = or_else (fernet.decrypt token) []

-- `_row_to_cfg`
unfoldable pub config_of : Fernet → ModelRow → ModelConfig
unfolding decrypt_key
config_of fernet r = record {
  id = some r.id;
  kind = r.kind;
  provider_type = r.provider_type;
  base_url = or_else r.base_url "";
  api_key = decrypt_key fernet r.api_key_enc;
  model_name = r.model_name;
  dim = r.dim;
  name = r.name;
  is_default = r.is_default;
  max_tokens = r.max_tokens;
}

-- the WHERE clause of `_get_default`
unfoldable pub is_default_of : Option ℕ → Kind → ModelRow → Bool
is_default_of tenant_id kind r =
    opt_eq r.tenant_id tenant_id && same_kind r.kind kind && r.is_default

-- The table as a query finds it: `none` where the query raises.
abbrev pub Table : Type 0
Table = Option (List ModelRow)

-- `_get_default`
unfoldable pub get_default : Fernet → Table → Kind → Option ℕ → Option ModelConfig
unfolding is_default_of config_of
get_default fernet table kind tenant_id =
    table >>= λ rows. find (is_default_of tenant_id kind) rows >>= λ r. some (config_of fernet r)

-- The settings that the fallback reads.
pub record ModelSettings : Type 0 where
  pub model_api_key : List ℕ
  pub llm_base_url : String
  pub llm_model : String
  pub default_llm_max_tokens : ℕ
  pub embed_base_url : String
  pub embed_model : String
  pub embed_dim : ℕ

-- `_env_fallback`
unfoldable pub env_fallback : ModelSettings → Kind → Option ModelConfig
env_fallback s rerank = none
env_fallback s llm =
    if nonempty s.model_api_key && is_text s.llm_base_url && is_text s.llm_model
    then some (record {
      id = none;
      kind = llm;
      provider_type = "anthropic";
      base_url = s.llm_base_url;
      api_key = s.model_api_key;
      model_name = s.llm_model;
      dim = none;
      name = "llm(env)";
      is_default = true;
      max_tokens = some s.default_llm_max_tokens;
    })
    else none
env_fallback s embedding =
    if nonempty s.model_api_key && is_text s.embed_base_url && is_text s.embed_model
    then some (record {
      id = none;
      kind = embedding;
      provider_type = "openai";
      base_url = s.embed_base_url;
      api_key = s.model_api_key;
      model_name = s.embed_model;
      dim = some s.embed_dim;
      name = "embed(env)";
      is_default = true;
      max_tokens = none;
    })
    else none

-- the first of two that is there
abbrev pub else_try {ℓ} : {A : Type ℓ} → Option A → Option A → Option A
else_try none b = b
else_try (some a) b = some a

-- `resolve_model`; `current` is CURRENT_TENANT
unfoldable pub resolve_model :
    Fernet → ModelSettings → Table → Option ℕ → Kind → Option ℕ → Option ModelConfig
resolve_model fernet s table current kind tenant_id =
    let fallback = else_try (get_default fernet table kind none) (env_fallback s kind) in
    elim (else_try tenant_id current) [
      | none ↦ fallback
      | some t ↦ else_try (get_default fernet table kind (some t)) fallback
    ]

-- `get_model_config`
unfoldable pub get_model_config : Fernet → Table → ℕ → Option ℕ → Option ModelConfig
unfolding config_of
get_model_config fernet table model_id tenant_id =
    let open_to : ModelRow → Bool =
      λ r. not (is_some tenant_id) || opt_eq r.tenant_id tenant_id || not (is_some r.tenant_id) in
    table >>= λ rows.
    find (λ r. (r.id == model_id) && open_to r) rows >>= λ r. some (config_of fernet r)

-- `"*" * n`
abbrev pub stars : ℕ → List ℕ
stars zero = []
stars (suc n) = 42 ∷ stars n

-- `_mask`
unfoldable pub mask : List ℕ → List ℕ
mask [] = []
mask (x ∷ xs) =
    let hidden = length (x ∷ xs) - 4 in
    if ltb 4 (length (x ∷ xs)) then stars hidden ++ drop hidden (x ∷ xs) else stars 4

-- `ORDER BY kind, created_at`
unfoldable pub sorts_before : ModelRow → ModelRow → Bool
sorts_before a b =
    ltb (rank a.kind) (rank b.kind) || (same_kind a.kind b.kind && leb a.created_at b.created_at)

unfoldable pub insert_sorted : ModelRow → List ModelRow → List ModelRow
unfolding sorts_before
insert_sorted r [] = r ∷ []
insert_sorted r (x ∷ xs) =
    let rest = insert_sorted r xs in if sorts_before r x then r ∷ x ∷ xs else x ∷ rest

unfoldable pub sort_rows : List ModelRow → List ModelRow
unfolding insert_sorted
sort_rows [] = []
sort_rows (r ∷ rs) = insert_sorted r (sort_rows rs)

-- What `list_models` shows of a row.
pub record ModelView : Type 0 where
  pub config : ModelConfig
  pub api_key : List ℕ
  pub is_keyed : Bool
  pub is_system : Bool

-- the WHERE clause of `list_models`; a comparison with NULL holds of no row
unfoldable pub is_listed : Option ℕ → Bool → ModelRow → Bool
is_listed tenant_id include_system r =
    (is_some r.tenant_id && opt_eq r.tenant_id tenant_id)
    || (include_system && not (is_some r.tenant_id))

-- `list_models`
unfoldable pub list_models : Fernet → Table → Option ℕ → Bool → List ModelView
unfolding config_of mask sort_rows is_listed
list_models fernet none tenant_id include_system = []
list_models fernet (some rows) tenant_id include_system =
    map
      (λ r.
        let key = decrypt_key fernet r.api_key_enc in
        record {
          config = record (config_of fernet r) { api_key = [] };
          api_key = mask key;
          is_keyed = nonempty key;
          is_system = not (is_some r.tenant_id);
        })
      (sort_rows (filter (is_listed tenant_id include_system) rows))

-- `_clear_default`
unfoldable pub clear_default : Option ℕ → Kind → List ModelRow → List ModelRow
clear_default tenant_id kind rows =
    update_where (λ r. opt_eq r.tenant_id tenant_id && same_kind r.kind kind)
      (λ r. record r { is_default = false }) rows
