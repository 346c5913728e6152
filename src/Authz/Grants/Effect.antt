-- ===== src/Authz/Grants/Effect.antt =====
-- What the handlers of Authz/Grants.antt change in the decisions of `resolve`.
use kb_backend.Authz.Allowed.{opens_none, resolve_allowed}
use kb_backend.Prelude.{
  ℕ, String, ◌≡◌, refl, inl, inr, false, not, ◌&&◌, none, some, List, [], ◌∷◌, arith, ◌==◌,
  Bool-cases, is_some, filter, any, update_where, contains, true, ◌∙◌, Option, Bool, leb, all, ◌||◌,
}
use kb_backend.Http.{ok}
use kb_backend.Authz.{
  Principal, Member, Grant, ApiKey, member_role, is_live, AuthDb, resolve, Role, viewer,
  is_admin_role, is_editor_role, is_tenant_admin,
}
use kb_backend.Authz.Spec.{by_role, grants_kb, by_grant}
use kb_backend.Authz.Grants.{
  principal_of_key, delete_user, is_grant_of, grant_all, upsert_grant, bulk_grant, is_grantable,
}

-- After the rows are revoked, no live grant is left.
revoked_none :
    (now later u k : ℕ) (gs : List Grant)
    → any (grants_kb later u k) (
        update_where
          (λ g. (g.user_id == u) && not (is_some g.revoked_at))
          (λ g. record g { revoked_at = some now })
          gs)
      ≡ false
unfolding is_live
revoked_none now later u k [] = refl
revoked_none now later u k (g ∷ gs) = ground (arith, revoked_none now later u k gs)

removed_role :
    (u t : ℕ) (ms : List Member)
    → member_role (filter (λ m. not ((m.user_id == u) && (m.tenant_id == t))) ms) u t ≡ none
unfolding member_role
removed_role u t [] = refl
removed_role u t (m ∷ ms) = elim (Bool-cases ((m.user_id == u) && (m.tenant_id == t))) [
  | inl e ↦ rw e (removed_role u t ms)
  | inr e ↦ rw (e, e) (removed_role u t ms)
]

-- The key authenticated, and as this user.
abbrev pub is_user : ℕ → Option Principal → Bool
is_user u none = false
is_user u (some q) = q.user_id == u

removed_key :
    (now u : ℕ) (key : String) (ks : List ApiKey)
    → is_user u (
        principal_of_key
          (update_where
            (λ k. (k.user_id == u) && not (is_some k.revoked_at))
            (λ k. record k { revoked_at = some now })
            ks)
          key)
      ≡ false
unfolding principal_of_key
removed_key now u key [] = refl
removed_key now u key (k ∷ ks) = ground (arith, removed_key now u key ks)

abbrev pub member_of : ℕ → ℕ → Principal
member_of tenant_id user_id = record { tenant_id = tenant_id; user_id = user_id }

-- The tables after a member has been removed.
abbrev without_member : ℕ → AuthDb → Principal → ℕ → AuthDb
without_member now db p u = record db {
  members = filter (λ m. not ((m.user_id == u) && (m.tenant_id == p.tenant_id))) db.members;
  grants =
      update_where (λ g. (g.user_id == u) && not (is_some g.revoked_at))
        (λ g. record g { revoked_at = some now }) db.grants;
  api_keys =
      update_where (λ k. (k.user_id == u) && not (is_some k.revoked_at))
        (λ k. record k { revoked_at = some now }) db.api_keys;
}

deleted_db :
    (now : ℕ) (db : AuthDb) (p : Principal) (u : ℕ)
    → (delete_user now db p u).0 ≡ ok tt
    → (delete_user now db p u).1 ≡ without_member now db p u
unfolding delete_user
deleted_db now db p u h = ground arith

stranger_by_role :
    (db : AuthDb) (p : Principal) (k : ℕ)
    → member_role db.members p.user_id p.tenant_id ≡ none
    → by_role db p k ≡ false
stranger_by_role db p k h = rw h (
    opens_none viewer p.tenant_id k db.kbs (unfold is_admin_role in refl)
      (unfold is_editor_role in refl))

-- When `delete_user` succeeds, the removed member is allowed no knowledge base in the tenant from
-- then on, and no API key, of this or of any other tenant, authenticates as that user any more.
pub delete_user_removes :
    (now later : ℕ) (db : AuthDb) (p : Principal) (user_id k : ℕ) (key : String)
    → (delete_user now db p user_id).0 ≡ ok tt
    → let db' = (delete_user now db p user_id).1 in
      (contains (resolve later db' (member_of p.tenant_id user_id)).allowed_kb_ids k ≡ false)
      × (is_user user_id (principal_of_key db'.api_keys key) ≡ false)
delete_user_removes now later db p u k key h =
    let db' = without_member now db p u in
    let who = member_of p.tenant_id u in
    rw (deleted_db now db p u h) (
      resolve_allowed later db' who k
          ∙ ground (
            arith,
            stranger_by_role db' who k (removed_role u p.tenant_id db.members),
            revoked_none now later u k db.grants,
          ),
      removed_key now u key db.api_keys,
    )

-- The row has an expiry, which has passed.
abbrev pub is_expired : ℕ → Grant → Bool
is_expired later g = elim g.expires_at [ none ↦ false | some t ↦ leb t later ]

-- The rows of the pair are all expired.
abbrev pub all_expired : ℕ → ℕ → ℕ → List Grant → Bool
all_expired later k u gs = all (λ g. not (is_grant_of k u g) || is_expired later g) gs

expired_dead :
    (later k u : ℕ) (gs : List Grant)
    → all_expired later k u gs ≡ true
    → any (grants_kb later u k) gs ≡ false
unfolding is_live
expired_dead later k u [] h = refl
expired_dead later k u (g ∷ gs) h = ground (arith, expired_dead later k u gs)

granted_none :
    (later k u granter : ℕ) (role : Role) (gs : List Grant)
    → any (is_grant_of k u) gs ≡ true
    → all_expired later k u gs ≡ true
    → any (grants_kb later u k) (grant_all granter role u (k ∷ []) gs) ≡ false
unfolding grant_all upsert_grant is_live
granted_none later k u granter role [] m h = cc
granted_none later k u granter role (g ∷ gs) m h = elim (Bool-cases (is_grant_of k u g)) [
  | inl e ↦ rw e (ground (arith, expired_dead later k u gs))
  | inr e ↦ rw e (ground (arith, granted_none later k u granter role gs))
]

-- A bulk grant of a base on which the user has a row that has expired opens nothing: the conflicting
-- row gets its role and is no longer revoked, but keeps its expiry, and the answer is a success.
pub bulk_grant_expired :
    (later : ℕ) (db : AuthDb) (p : Principal) (user_id k : ℕ) (role : Role)
    → is_tenant_admin db p ≡ true
    → is_grantable role ≡ true
    → any (is_grant_of k user_id) db.grants ≡ true
    → all_expired later k user_id db.grants ≡ true
    → let (answer, db') = bulk_grant db p user_id (some role) (k ∷ []) in
      (answer ≡ ok 1) × (by_grant later db' (member_of p.tenant_id user_id) k ≡ false)
unfolding bulk_grant
bulk_grant_expired later db p u k role adm fine m h =
    rw (adm, fine) (refl, granted_none later k u p.user_id role db.grants m h)
