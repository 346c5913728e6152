-- ===== src/Authz/Grants.antt =====
-- app/routers/admin.py and the handlers of app/routers/members.py that change the tables of
-- access: grants, bulk grants, and the creation, change and removal of members. `now` is the time of
-- the transaction. Audit records are left to the component of the audit chain.
pub mod Effect
pub mod Access
pub mod Bulk
pub mod Members
use kb_backend.Prelude.{
  ℕ, String, Bool, true, false, not, ◌&&◌, ◌||◌, Option, none, some, List, [], ◌∷◌, ◌==◌,
  if◌then◌else◌, is_some, or_else, opt_eq, length, filter, any, lookup, update_where,
}
use text.Mathlib.Text.{◌==◌ as str_eq}
use kb_backend.Http.{Http, ok, http_error}
use kb_backend.Authz.{
  Role, admin, editor, viewer, other, Principal, Member, Grant, Kb, ApiKey, AuthDb, is_kb_admin,
  is_tenant_admin, resolve, member_role, is_shared, is_admin_role, is_editor_role, live_grants,
}

-- `role in ("viewer", "editor", "admin")`
unfoldable pub is_grantable : Role → Bool
is_grantable viewer = true
is_grantable editor = true
is_grantable admin = true
is_grantable _ = false

-- `role in _ROLES`
unfoldable pub is_known_role : Role → Bool
is_known_role (other r) = false
is_known_role _ = true

abbrev pub is_grant_of : ℕ → ℕ → Grant → Bool
is_grant_of kb_id user_id g = (g.kb_id == kb_id) && (g.user_id == user_id)

-- `INSERT … ON CONFLICT (kb_id,user_id) DO UPDATE SET …`
unfoldable pub upsert_grant : Grant → (Grant → Grant) → List Grant → List Grant
upsert_grant new change [] = new ∷ []
upsert_grant new change (g ∷ gs) =
    if is_grant_of new.kb_id new.user_id g then change g ∷ gs else g ∷ upsert_grant new change gs

-- `_kb_tenant`
unfoldable pub kb_tenant : List Kb → ℕ → Option ℕ
kb_tenant [] kb_id = none
kb_tenant (kb ∷ kbs) kb_id = if kb.id == kb_id then some kb.tenant_id else kb_tenant kbs kb_id

-- PUT /v1/acl: a conflicting row gets the role and the expiry of this request.
unfoldable pub grant :
    ℕ → AuthDb → Principal → ℕ → ℕ → Option Role → Option ℕ → Http (Unit {0}) × AuthDb
unfolding is_grantable upsert_grant kb_tenant
grant now db p kb_id user_id body_role expires_at =
    let role = or_else body_role viewer in
    if not (is_grantable role)
    then (http_error 400 "KB_VALIDATION", db)
    else if not (opt_eq (kb_tenant db.kbs kb_id) (some p.tenant_id))
    then (http_error 404 "KB_KB_NOT_FOUND", db)
    else if not (is_kb_admin (resolve now db p) kb_id)
    then (http_error 403 "KB_FORBIDDEN_KB", db)
    else (let new : Grant = record {
      kb_id = kb_id;
      user_id = user_id;
      role = role;
      granted_by = p.user_id;
      expires_at = expires_at;
      revoked_at = none;
    } in
        let change = λ (g : Grant). record g {
          role = role;
          granted_by = p.user_id;
          expires_at = expires_at;
          revoked_at = none;
        } in
        (ok tt, record db { grants = upsert_grant new change db.grants }))

-- DELETE /v1/acl
unfoldable pub revoke : ℕ → AuthDb → Principal → ℕ → ℕ → Http (Unit {0}) × AuthDb
unfolding kb_tenant
revoke now db p kb_id user_id =
    if not (opt_eq (kb_tenant db.kbs kb_id) (some p.tenant_id))
    then (http_error 404 "KB_KB_NOT_FOUND", db)
    else if not (is_kb_admin (resolve now db p) kb_id)
    then (http_error 403 "KB_FORBIDDEN_KB", db)
    else (let gone = λ (g : Grant). record g { revoked_at = some now } in
        let open_grant = λ (g : Grant). is_grant_of kb_id user_id g && not (is_some g.revoked_at) in
        (ok tt, record db { grants = update_where open_grant gone db.grants }))

-- The loop of POST /v1/admin/users/{user_id}/kbs: a conflicting row keeps its expiry.
unfoldable pub grant_all : ℕ → Role → ℕ → List ℕ → List Grant → List Grant
unfolding upsert_grant
grant_all granter role user_id [] gs = gs
grant_all granter role user_id (kb_id ∷ kb_ids) gs =
    let new : Grant = record {
      kb_id = kb_id;
      user_id = user_id;
      role = role;
      granted_by = granter;
      expires_at = none;
      revoked_at = none;
    } in
    let change = λ (g : Grant). record g { role = role; granted_by = granter; revoked_at = none } in
    grant_all granter role user_id kb_ids (upsert_grant new change gs)

-- `bulk_grant`
unfoldable pub bulk_grant : AuthDb → Principal → ℕ → Option Role → List ℕ → Http ℕ × AuthDb
unfolding is_grantable grant_all
bulk_grant db p user_id body_role kb_ids =
    let role = or_else body_role viewer in
    if not (is_tenant_admin db p)
    then (http_error 403 "KB_FORBIDDEN_ADMIN", db)
    else if not (is_grantable role)
    then (http_error 400 "KB_VALIDATION", db)
    else (
      ok (length kb_ids),
      record db { grants = grant_all p.user_id role user_id kb_ids db.grants },
    )

-- `delete_user`
unfoldable pub delete_user : ℕ → AuthDb → Principal → ℕ → Http (Unit {0}) × AuthDb
delete_user now db p user_id =
    let is_member = λ (m : Member). (m.user_id == user_id) && (m.tenant_id == p.tenant_id) in
    if not (is_tenant_admin db p)
    then (http_error 403 "KB_FORBIDDEN_ADMIN", db)
    else if user_id == p.user_id
    then (http_error 400 "KB_CANNOT_REMOVE_SELF", db)
    else if not (any is_member db.members)
    then (http_error 404 "KB_USER_NOT_FOUND", db)
    else (let open_grant = λ (g : Grant). (g.user_id == user_id) && not (is_some g.revoked_at) in
        let open_key = λ (k : ApiKey). (k.user_id == user_id) && not (is_some k.revoked_at) in
        (
          ok tt,
          record db {
            members = filter (λ (m : Member). not (is_member m)) db.members;
            grants =
                update_where open_grant (λ (g : Grant). record g { revoked_at = some now })
                  db.grants;
            api_keys =
                update_where open_key (λ (k : ApiKey). record k { revoked_at = some now })
                  db.api_keys;
          },
        ))

-- `verify_api_key`, past the hashing of the token: the principal of an unrevoked key
unfoldable pub principal_of_key : List ApiKey → String → Option Principal
principal_of_key [] key_hash = none
principal_of_key (k ∷ ks) key_hash =
    if str_eq k.key_hash key_hash && not (is_some k.revoked_at)
    then some (record { tenant_id = k.tenant_id; user_id = k.user_id })
    else principal_of_key ks key_hash

-- One entry of the list that `_user_effective_kbs` gives.
pub data Source : Type 0 where
  raised_grant explicit_grant derived : Source

pub record EffectiveKb : Type 0 where
  pub kb_id : ℕ
  pub role : Role
  pub source : Source
  pub can_revoke : Bool

unfoldable pub effective_kb : Role → List (ℕ × Role) → Kb → Option EffectiveKb
effective_kb tenant_role grants kb =
    let role_derived =
      is_admin_role tenant_role || (is_editor_role tenant_role && is_shared kb.visibility) in
    let has_grant = is_some (lookup kb.id grants) in
    if not (role_derived || has_grant)
    then none
    else some (record {
      kb_id = kb.id;
      role = or_else (lookup kb.id grants) (if is_admin_role tenant_role then admin else viewer);
      source =
          if has_grant && role_derived
          then Source.raised_grant
          else if has_grant
          then Source.explicit_grant
          else Source.derived;
      can_revoke = has_grant;
    })

unfoldable pub effective_loop : ℕ → Role → List (ℕ × Role) → List Kb → List EffectiveKb
unfolding effective_kb
effective_loop tenant_id tenant_role grants [] = []
effective_loop tenant_id tenant_role grants (kb ∷ kbs) =
    let rest = effective_loop tenant_id tenant_role grants kbs in
    if kb.tenant_id == tenant_id
    then (elim (effective_kb tenant_role grants kb) [ none ↦ rest | some e ↦ e ∷ rest ])
    else rest

-- `_user_effective_kbs`; the table lists the bases in the order of their names
unfoldable pub user_effective_kbs : ℕ → AuthDb → ℕ → ℕ → List EffectiveKb
unfolding effective_loop
user_effective_kbs now db tenant_id user_id = elim (member_role db.members user_id tenant_id) [
  | none ↦ []
  | some role ↦ effective_loop tenant_id role (live_grants now user_id db.grants []) db.kbs
]
