-- ===== src/Authz/Grants/Access.antt =====
-- What the handlers of app/routers/admin.py, grant and revoke, change in the decisions of `resolve`.
use kb_backend.Prelude.{
  ℕ, ◌≡◌, refl, ◌∙◌, inl, inr, true, false, not, ◌&&◌, Option, none, some, List, [], ◌∷◌, arith,
  ==_refl, Bool-cases, is_some, or_else, any, contains, update_where,
}
use kb_backend.Http.{ok}
use kb_backend.Authz.{Principal, Grant, Role, viewer, AuthDb, resolve}
use kb_backend.Authz.Spec.{counts, grants_kb, by_role}
use kb_backend.Authz.Allowed.{resolve_allowed}
use kb_backend.Authz.Grants.{is_grant_of, upsert_grant, grant, revoke}
use kb_backend.Authz.Grants.Effect.{member_of}

-- The row that a grant writes over a conflicting one.
abbrev renewed : ℕ → Role → Option ℕ → Grant → Grant
renewed granter role expires_at g = record g {
  role = role;
  granted_by = granter;
  expires_at = expires_at;
  revoked_at = none;
}

abbrev fresh_grant : ℕ → ℕ → ℕ → Role → Option ℕ → Grant
fresh_grant k u granter role expires_at = record {
  kb_id = k;
  user_id = u;
  role = role;
  granted_by = granter;
  expires_at = expires_at;
  revoked_at = none;
}

granted_some :
    (later k u granter : ℕ) (role : Role) (expires_at : Option ℕ) (gs : List Grant)
    → counts later none expires_at ≡ true
    → any (grants_kb later u k) (
        upsert_grant (fresh_grant k u granter role expires_at) (renewed granter role expires_at) gs)
      ≡ true
unfolding upsert_grant
granted_some later k u granter role expires_at [] h = ground (arith, ==_refl k, ==_refl u)
granted_some later k u granter role expires_at (g ∷ gs) h = elim (Bool-cases (is_grant_of k u g)) [
  | inl e ↦ rw e (ground arith)
  | inr e ↦ rw e (ground (arith, granted_some later k u granter role expires_at gs))
]

abbrev with_grant : AuthDb → Principal → ℕ → ℕ → Option Role → Option ℕ → AuthDb
with_grant db p k u role expires_at = record db {
  grants =
      upsert_grant (fresh_grant k u p.user_id (or_else role viewer) expires_at)
        (renewed p.user_id (or_else role viewer) expires_at) db.grants;
}

granted_db :
    (now : ℕ) (db : AuthDb) (p : Principal) (k u : ℕ) (role : Option Role) (expires_at : Option ℕ)
    → (grant now db p k u role expires_at).0 ≡ ok tt
    → (grant now db p k u role expires_at).1 ≡ with_grant db p k u role expires_at
unfolding grant
granted_db now db p k u role expires_at h = ground arith

-- When PUT /v1/acl succeeds, the user is allowed the base at every time that the expiry of the
-- request, if it has one, lies after.
pub grant_allows :
    (now later : ℕ) (db : AuthDb) (p : Principal) (kb_id user_id t : ℕ) (role : Option Role)
    (expires_at : Option ℕ)
    → (grant now db p kb_id user_id role expires_at).0 ≡ ok tt
    → counts later none expires_at ≡ true
    → let db' = (grant now db p kb_id user_id role expires_at).1 in
      contains (resolve later db' (member_of t user_id)).allowed_kb_ids kb_id ≡ true
grant_allows now later db p k u t role expires_at h live =
    let who = member_of t u in
    let db' = with_grant db p k u role expires_at in
    rw (granted_db now db p k u role expires_at h) (
      resolve_allowed later db' who k
      ∙ ground
          (arith, granted_some later k u p.user_id (or_else role viewer) expires_at db.grants live))

revoked_rows :
    (now later k u : ℕ) (gs : List Grant)
    → any (grants_kb later u k) (
        update_where
          (λ g. is_grant_of k u g && not (is_some g.revoked_at))
          (λ g. record g { revoked_at = some now })
          gs)
      ≡ false
revoked_rows now later k u [] = refl
revoked_rows now later k u (g ∷ gs) = ground (arith, revoked_rows now later k u gs)

abbrev without_grant : ℕ → AuthDb → ℕ → ℕ → AuthDb
without_grant now db k u = record db {
  grants =
      update_where (λ g. is_grant_of k u g && not (is_some g.revoked_at))
        (λ g. record g { revoked_at = some now }) db.grants;
}

revoked_db :
    (now : ℕ) (db : AuthDb) (p : Principal) (k u : ℕ)
    → (revoke now db p k u).0 ≡ ok tt
    → (revoke now db p k u).1 ≡ without_grant now db k u
unfolding revoke
revoked_db now db p k u h = ground arith

-- When DELETE /v1/acl succeeds, from then on the user is allowed the base only where the role in the
-- tenant opens it.
pub revoke_allows :
    (now later : ℕ) (db : AuthDb) (p : Principal) (kb_id user_id t : ℕ)
    → (revoke now db p kb_id user_id).0 ≡ ok tt
    → let db' = (revoke now db p kb_id user_id).1 in
      contains (resolve later db' (member_of t user_id)).allowed_kb_ids kb_id
      ≡ by_role db (member_of t user_id) kb_id
revoke_allows now later db p k u t h =
    let who = member_of t u in
    rw (revoked_db now db p k u h) (
      resolve_allowed later (without_grant now db k u) who k
      ∙ ground (arith, revoked_rows now later k u db.grants))
