-- ===== src/Authz.antt =====
-- app/authz.py: who may see and write which knowledge base. Ids are uuid texts, which the program
-- only compares: they are numbers here. Times are numbers too.
pub mod Sets
pub mod Spec
pub mod Allowed
pub mod Roles
pub mod Grants
use kb_backend.Prelude.{
  ℕ, String, Bool, true, false, not, ◌&&◌, Option, none, some, List, [], ◌∷◌, ltb, leb, ◌==◌,
  if◌then◌else◌, is_some, or_else, lookup, insert, max,
}
use kb_backend.Authz.Sets.{set_add}

-- A value of a `role` column or field; `other` is any text that CLEARANCE does not know.
pub data Role : Type 0 where
  owner admin editor viewer : Role
  other : String → Role

pub data Visibility : Type 0 where
  me team tenant : Visibility
  unknown : String → Visibility

-- `Principal` of app/middleware/auth.py
pub record Principal : Type 0 where
  pub tenant_id : ℕ
  pub user_id : ℕ

-- A row of kb_user_tenant.
pub record Member : Type 0 where
  pub user_id : ℕ
  pub tenant_id : ℕ
  pub role : Role
  pub department : Option String
  pub group_name : Option String

-- A row of kb_grant.
pub record Grant : Type 0 where
  pub kb_id : ℕ
  pub user_id : ℕ
  pub role : Role
  pub granted_by : ℕ
  pub expires_at : Option ℕ
  pub revoked_at : Option ℕ

-- A row of kb_kb.
pub record Kb : Type 0 where
  pub id : ℕ
  pub tenant_id : ℕ
  pub name : String
  pub visibility : Visibility

-- A row of kb_api_key.
pub record ApiKey : Type 0 where
  pub key_hash : String
  pub tenant_id : ℕ
  pub user_id : ℕ
  pub revoked_at : Option ℕ

-- The tables that decide on access.
pub record AuthDb : Type 0 where
  pub members : List Member
  pub grants : List Grant
  pub kbs : List Kb
  pub api_keys : List ApiKey

-- `AuthzDecision`
pub record Decision : Type 0 where
  pub allowed_kb_ids : List ℕ
  pub clearance : ℕ
  pub kb_roles : List (ℕ × Role)

-- `CLEARANCE.get(role, 0)`
unfoldable pub clearance_of : Role → ℕ
clearance_of viewer = 1
clearance_of editor = 2
clearance_of admin = 3
clearance_of owner = 4
clearance_of (other r) = 0

-- `_higher`
unfoldable pub higher : Role → Role → Role
unfolding clearance_of
higher r1 r2 = if leb (clearance_of r2) (clearance_of r1) then r1 else r2

-- `role in ("owner", "admin")`
unfoldable pub is_admin_role : Role → Bool
is_admin_role owner = true
is_admin_role admin = true
is_admin_role _ = false

-- `role == "owner"`
unfoldable pub is_owner_role : Role → Bool
is_owner_role owner = true
is_owner_role _ = false

unfoldable pub is_editor_role : Role → Bool
is_editor_role editor = true
is_editor_role _ = false

-- `visibility IN ('team','tenant')`
unfoldable pub is_shared : Visibility → Bool
is_shared team = true
is_shared tenant = true
is_shared _ = false

-- `SELECT role FROM kb_user_tenant WHERE user_id=… AND tenant_id=…`
unfoldable pub member_role : List Member → ℕ → ℕ → Option Role
member_role [] user_id tenant_id = none
member_role (m ∷ ms) user_id tenant_id =
    if (m.user_id == user_id) && (m.tenant_id == tenant_id)
    then some m.role
    else member_role ms user_id tenant_id

-- not revoked, and `expires_at IS NULL OR expires_at > now()`
unfoldable pub is_live : ℕ → Grant → Bool
is_live now g =
    not (is_some g.revoked_at) && (elim g.expires_at [ none ↦ true | some t ↦ ltb now t ])

-- `{str(r[0]): r[1] for r in cur.fetchall()}` over the user's live grants
unfoldable pub live_grants : ℕ → ℕ → List Grant → List (ℕ × Role) → List (ℕ × Role)
live_grants now user_id [] acc = acc
live_grants now user_id (g ∷ gs) acc =
    live_grants now user_id gs
      (if (g.user_id == user_id) && is_live now g then insert g.kb_id g.role acc else acc)

-- The loop of the owner and admin branch of `resolve`, and its body for a row that the query gives.
unfoldable pub add_admin_kb : ℕ → Role → Kb → Decision → Decision
add_admin_kb tenant_id role kb d =
    if kb.tenant_id == tenant_id
    then record d {
      allowed_kb_ids = set_add kb.id d.allowed_kb_ids;
      kb_roles = insert kb.id (higher (or_else (lookup kb.id d.kb_roles) viewer) role) d.kb_roles;
    }
    else d

unfoldable pub add_admin_kbs : ℕ → Role → List Kb → Decision → Decision
add_admin_kbs tenant_id role [] d = d
add_admin_kbs tenant_id role (kb ∷ kbs) d =
    add_admin_kbs tenant_id role kbs (add_admin_kb tenant_id role kb d)

-- The loop of the editor branch, and its body; `setdefault` leaves a role that is there.
unfoldable pub add_shared_kb : ℕ → Kb → Decision → Decision
add_shared_kb tenant_id kb d =
    if (kb.tenant_id == tenant_id) && is_shared kb.visibility
    then record d {
      allowed_kb_ids = set_add kb.id d.allowed_kb_ids;
      kb_roles = insert kb.id (or_else (lookup kb.id d.kb_roles) viewer) d.kb_roles;
    }
    else d

unfoldable pub add_shared_kbs : ℕ → List Kb → Decision → Decision
add_shared_kbs tenant_id [] d = d
add_shared_kbs tenant_id (kb ∷ kbs) d = add_shared_kbs tenant_id kbs (add_shared_kb tenant_id kb d)

-- The loop over the explicit grants.
unfoldable pub add_grants : List (ℕ × Role) → Decision → Decision
add_grants [] d = d
add_grants ((kid, role) ∷ gs) d = add_grants gs (record {
  allowed_kb_ids = set_add kid d.allowed_kb_ids;
  clearance = max d.clearance (clearance_of role);
  kb_roles = insert kid (higher (or_else (lookup kid d.kb_roles) viewer) role) d.kb_roles;
})

abbrev pub no_access : Decision
no_access = record { allowed_kb_ids = []; clearance = 0; kb_roles = [] }

-- The branches on the tenant role.
unfoldable pub add_by_role : ℕ → Role → List Kb → Decision → Decision
add_by_role tenant_id role kbs d =
    if is_admin_role role
    then (let d' = add_admin_kbs tenant_id role kbs d in
        record d' { clearance = max d'.clearance (clearance_of role) })
    else if is_editor_role role
    then (let d' = add_shared_kbs tenant_id kbs d in
        record d' { clearance = max d'.clearance (clearance_of editor) })
    else d

-- `resolve`; a user who is no member of the tenant counts as a viewer
unfoldable pub resolve : ℕ → AuthDb → Principal → Decision
resolve now db p =
    let tenant_role = or_else (member_role db.members p.user_id p.tenant_id) viewer in
    let grants = live_grants now p.user_id db.grants [] in
    add_grants grants (add_by_role p.tenant_id tenant_role db.kbs no_access)

-- `CLEARANCE.get(decision.kb_roles.get(kb_id, ""), 0)`
unfoldable pub role_clearance : Decision → ℕ → ℕ
role_clearance d kb_id = elim (lookup kb_id d.kb_roles) [ none ↦ 0 | some r ↦ clearance_of r ]

unfoldable pub can_write : Decision → ℕ → Bool
can_write d kb_id = leb (clearance_of editor) (role_clearance d kb_id)

unfoldable pub is_kb_admin : Decision → ℕ → Bool
is_kb_admin d kb_id = leb (clearance_of admin) (role_clearance d kb_id)

unfoldable pub is_tenant_owner : AuthDb → Principal → Bool
is_tenant_owner db p = elim (member_role db.members p.user_id p.tenant_id) [
  | none ↦ false
  | some r ↦ is_owner_role r
]

unfoldable pub is_tenant_admin : AuthDb → Principal → Bool
is_tenant_admin db p = elim (member_role db.members p.user_id p.tenant_id) [
  | none ↦ false
  | some r ↦ is_admin_role r
]
