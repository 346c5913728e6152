-- ===== src/Authz/Grants/Members.antt =====
-- app/routers/members.py: the change of a member. The name, which decides on nothing, is left out.
use kb_backend.Prelude.{
  ℕ, String, ◌≡◌, refl, inl, inr, Bool, true, false, not, ◌&&◌, Option, none, some, List, [], ◌∷◌,
  arith, ◌==◌, if◌then◌else◌, or_else, Bool-cases, any, update_where,
}
use kb_backend.Http.{Http, ok, http_error}
use kb_backend.Authz.{
  Role, owner, Principal, Member, AuthDb, is_tenant_admin, is_tenant_owner, is_owner_role,
  member_role,
}
use kb_backend.Authz.Grants.{is_known_role}
use kb_backend.Authz.Grants.Effect.{member_of}

-- The keys of the body that are there; a department or a group may be null.
pub record Change : Type 0 where
  pub department : Option (Option String)
  pub group : Option (Option String)
  pub role : Option Role

-- `body["role"] not in _ROLES`
abbrev pub bad_role : Option Role → Bool
bad_role none = false
bad_role (some r) = not (is_known_role r)

abbrev pub is_row_of : ℕ → ℕ → Member → Bool
is_row_of user_id tenant_id m = (m.user_id == user_id) && (m.tenant_id == tenant_id)

-- `UPDATE kb_user_tenant SET …` with the columns that the body names
abbrev pub changed : Change → Member → Member
changed c m = record m {
  department = or_else c.department m.department;
  group_name = or_else c.group m.group_name;
  role = or_else c.role m.role;
}

-- `update_user`; with no column to set the row is only looked for, and the update changes nothing
unfoldable pub update_user : AuthDb → Principal → ℕ → Change → Http (Unit {0}) × AuthDb
unfolding is_known_role
update_user db p user_id c =
    if not (is_tenant_admin db p)
    then (http_error 403 "KB_FORBIDDEN_ADMIN", db)
    else if bad_role c.role
    then (http_error 400 "KB_VALIDATION", db)
    else if not (any (is_row_of user_id p.tenant_id) db.members)
    then (http_error 404 "KB_USER_NOT_FOUND", db)
    else (
      ok tt,
      record db { members = update_where (is_row_of user_id p.tenant_id) (changed c) db.members },
    )

role_after :
    (u t : ℕ) (c : Change) (r : Role) (ms : List Member)
    → c.role ≡ some r
    → any (is_row_of u t) ms ≡ true
    → member_role (update_where (is_row_of u t) (changed c) ms) u t ≡ some r
unfolding member_role
role_after u t c r [] e h = ground arith
role_after u t c r (m ∷ ms) e h = elim (Bool-cases (is_row_of u t m)) [
  | inl x ↦ rw (x, e, x) refl
  | inr x ↦ rw (x, x) (role_after u t c r ms e (ground (arith, h, x)))
]

-- Whoever administers a tenant, as an admin too, can make any of its members, also itself, an owner.
pub update_user_escalates :
    (db : AuthDb) (p : Principal) (user_id : ℕ) (c : Change)
    → is_tenant_admin db p ≡ true
    → any (is_row_of user_id p.tenant_id) db.members ≡ true
    → c.role ≡ some owner
    → let (answer, db') = update_user db p user_id c in
      (answer ≡ ok tt) × (is_tenant_owner db' (member_of p.tenant_id user_id) ≡ true)
unfolding update_user is_tenant_owner is_owner_role is_known_role
update_user_escalates db p u c adm there e =
    rw (adm, e, there)
      (
        refl,
        rw
            (
              is_tenant_owner,
              role_after u p.tenant_id (record c { role = some owner }) owner db.members refl there,
            )
            refl,
      )
