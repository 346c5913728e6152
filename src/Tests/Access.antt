-- ===== src/Tests/Access.antt =====
-- app/authz.py and the handlers of grants at concrete inputs.
use kb_backend.Prelude.{◌≡◌, refl, true, false, ◌||◌, some, none, [], ◌∷◌, contains, ◌&&◌}
use kb_backend.Http.{ok}
use kb_backend.Authz.{
  Role, owner, editor, viewer, team, me, Principal, AuthDb, resolve, can_write, is_kb_admin,
  is_tenant_admin, member_role, is_admin_role,
}
use kb_backend.Authz.Spec.{by_role, by_grant}
use kb_backend.Authz.Allowed.{resolve_allowed}
use kb_backend.Authz.Roles.{resolve-can_write, in_admin_tenant, granted_at_least}
use kb_backend.Authz.Grants.{principal_of_key, delete_user, is_grantable}
use kb_backend.Authz.Grants.Bulk.{grant_bulk}
use kb_backend.Authz.Grants.Bulk.Targets.{grant_bulk-has_grant, has_grant, is_target}
use kb_backend.Authz.Grants.Members.{Change, update_user, update_user_escalates}
use kb_backend.Authz.{is_tenant_owner}
use kb_backend.Authz.Grants.Access.{revoke_allows}
use kb_backend.Authz.Grants.{revoke, kb_tenant}
use kb_backend.Authz.Sets.{set_add}
use kb_backend.Authz.{
  role_clearance, add_by_role, add_admin_kbs, add_admin_kb, add_grants, live_grants, higher,
  clearance_of, is_live,
}
use kb_backend.Authz.Grants.Effect.{member_of, is_user, delete_user_removes}

-- Tenant 1 has an owner, 10, and an editor, 11, whose grant of base 5 expired at time 50.
abbrev db : AuthDb
db = record {
  members =
      record { user_id = 10; tenant_id = 1; role = owner; department = none; group_name = none }
      ∷ record { user_id = 11; tenant_id = 1; role = editor; department = none; group_name = none }
      ∷ [];
  grants =
      record {
        kb_id = 5;
        user_id = 11;
        role = viewer;
        granted_by = 10;
        expires_at = some 50;
        revoked_at = none;
      }
      ∷ record {
        kb_id = 6;
        user_id = 11;
        role = Role.admin;
        granted_by = 10;
        expires_at = none;
        revoked_at = none;
      }
      ∷ [];
  kbs =
      record { id = 5; tenant_id = 1; name = "plans"; visibility = me }
      ∷ record { id = 6; tenant_id = 1; name = "notes"; visibility = team }
      ∷ [];
  api_keys = record { key_hash = "k11"; tenant_id = 2; user_id = 11; revoked_at = none } ∷ [];
}

abbrev boss : Principal
boss = member_of 1 10

abbrev staff : Principal
staff = member_of 1 11

resolve_allowed_example :
    contains (resolve 60 db staff).allowed_kb_ids 6 ≡ (by_role db staff 6 || by_grant 60 db staff 6)
resolve_allowed_example = resolve_allowed 60 db staff 6

resolve-can_write_example :
    (can_write (resolve 60 db staff) 6
      ≡ (in_admin_tenant db staff 6 || granted_at_least editor 60 db staff 6))
    × (is_kb_admin (resolve 60 db staff) 6
        ≡ (in_admin_tenant db staff 6 || granted_at_least Role.admin 60 db staff 6))
resolve-can_write_example = resolve-can_write 60 db staff 6

deleted : (delete_user 60 db boss 11).0 ≡ ok tt
unfolding delete_user is_tenant_admin member_role is_admin_role
deleted = refl

delete_user_removes_example :
    let db' = (delete_user 60 db boss 11).1 in
    (contains (resolve 70 db' (member_of 1 11)).allowed_kb_ids 6 ≡ false)
    × (is_user 11 (principal_of_key db'.api_keys "k11") ≡ false)
delete_user_removes_example = delete_user_removes 60 70 db boss 11 6 "k11" deleted

boss_admin : is_tenant_admin db boss ≡ true
unfolding is_tenant_admin member_role is_admin_role
boss_admin = refl

boss-is_kb_admin : is_kb_admin (resolve 60 db boss) 5 ≡ true
unfolding is_kb_admin role_clearance resolve add_by_role add_admin_kbs add_admin_kb add_grants
    live_grants member_role is_admin_role higher clearance_of set_add is_live
boss-is_kb_admin = refl

revoked : (revoke 60 db boss 5 11).0 ≡ ok tt
unfolding revoke kb_tenant
revoked = rw (revoke, boss-is_kb_admin) refl

revoke_allows_example :
    let db' = (revoke 60 db boss 5 11).1 in
    contains (resolve 70 db' (member_of 1 11)).allowed_kb_ids 5 ≡ by_role db (member_of 1 11) 5
revoke_allows_example = revoke_allows 60 70 db boss 5 11 1 revoked

bulk_granted :
    (grant_bulk db boss (some editor) (5 ∷ []) none none (11 ∷ 12 ∷ []) false).0
    ≡ ok (some 1, 11 ∷ [])
unfolding grant_bulk is_tenant_admin member_role is_admin_role is_grantable
bulk_granted = refl

grant_bulk-has_grant_example :
    has_grant 5 11
      (grant_bulk db boss (some editor) (5 ∷ []) none none (11 ∷ 12 ∷ []) false).1.grants
    ≡ (has_grant 5 11 db.grants
        || (contains (5 ∷ []) 5 && is_target db.members 1 none none (11 ∷ 12 ∷ []) 11))
grant_bulk-has_grant_example =
    grant_bulk-has_grant db boss (some editor) (5 ∷ []) none none (11 ∷ 12 ∷ []) 1 (11 ∷ []) 5 11
      bulk_granted

abbrev promotion : Change
promotion = record { department = none; group = none; role = some owner }

update_user_escalates_example :
    let (answer, db') = update_user db boss 11 promotion in
    (answer ≡ ok tt) × (is_tenant_owner db' (member_of 1 11) ≡ true)
update_user_escalates_example = update_user_escalates db boss 11 promotion boss_admin refl refl
