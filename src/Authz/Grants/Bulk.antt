-- ===== src/Authz/Grants/Bulk.antt =====
-- app/routers/members.py: the grant to the members of a department or group, and to named ones. A
-- member is shown by its id; names come from a table that decides on nothing.
pub mod Targets
use text.Mathlib.Text.{◌==◌ as str_eq}
use kb_backend.Prelude.{
  ℕ, String, Bool, true, false, not, ◌&&◌, ◌||◌, Option, none, some, List, [], ◌∷◌, ◌++◌, map, ◌==◌,
  if◌then◌else◌, or_else, length, filter, any, contains,
}
use kb_backend.Http.{Http, ok, http_error}
use kb_backend.Authz.{Role, viewer, Principal, Member, Grant, AuthDb, is_tenant_admin}
use kb_backend.Authz.Grants.{is_grantable, grant_all}

-- `if department`: a text that is there and not empty
abbrev pub given : Option String → Bool
given none = false
given (some s) = not (str_eq s "")

-- `ut.department = %s`, where a filter is given; NULL is not equal to a text
unfoldable pub agrees : Option String → Option String → Bool
agrees none column = true
agrees (some s) none = str_eq s ""
agrees (some s) (some c) = str_eq s "" || str_eq c s

-- the WHERE clause of the first query
unfoldable pub is_selected : ℕ → Option String → Option String → Member → Bool
unfolding agrees
is_selected tenant_id department group m =
    (m.tenant_id == tenant_id) && agrees department m.department && agrees group m.group_name

-- the loop over the rows of the second query
unfoldable pub add_members : ℕ → List ℕ → List Member → List Member → List Member
add_members tenant_id user_ids [] matched = matched
add_members tenant_id user_ids (m ∷ ms) matched =
    let fresh = not (any (λ x. x.user_id == m.user_id) matched) in
    let wanted = (m.tenant_id == tenant_id) && contains user_ids m.user_id in
    add_members tenant_id user_ids ms (if wanted && fresh then matched ++ (m ∷ []) else matched)

-- `_resolve_targets`; with no ids the second query selects nothing
unfoldable pub resolve_targets :
    List Member → ℕ → Option String → Option String → List ℕ → List Member
unfolding is_selected add_members
resolve_targets members tenant_id department group user_ids =
    let matched =
      if given department || given group
      then filter (is_selected tenant_id department group) members
      else [] in
    add_members tenant_id user_ids members matched

-- the two loops that insert
unfoldable pub grant_each : ℕ → Role → List Member → List ℕ → List Grant → List Grant
grant_each granter role [] kb_ids gs = gs
grant_each granter role (m ∷ ms) kb_ids gs =
    grant_each granter role ms kb_ids (grant_all granter role m.user_id kb_ids gs)

-- `grant_bulk`: the number of members granted, none on a dry run, and the members
unfoldable pub grant_bulk :
    AuthDb
    → Principal
    → Option Role
    → List ℕ
    → Option String
    → Option String
    → List ℕ
    → Bool
    → Http (Option ℕ × List ℕ) × AuthDb
unfolding resolve_targets grant_each
grant_bulk db p body_role kb_ids department group user_ids dry_run =
    let role = or_else body_role viewer in
    let targets = resolve_targets db.members p.tenant_id department group user_ids in
    let users = map (λ m. m.user_id) targets in
    if not (is_tenant_admin db p)
    then (http_error 403 "KB_FORBIDDEN_ADMIN", db)
    else if not (is_grantable role)
    then (http_error 400 "KB_VALIDATION", db)
    else if length kb_ids == 0
    then (http_error 400 "KB_VALIDATION", db)
    else if dry_run
    then (ok (none, users), db)
    else if length targets == 0
    then (ok (some 0, []), db)
    else (
      ok (some (length targets), users),
      record db { grants = grant_each p.user_id role targets kb_ids db.grants },
    )
