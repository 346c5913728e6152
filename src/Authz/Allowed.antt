-- ===== src/Authz/Allowed.antt =====
-- Which knowledge bases `resolve` allows.
use kb_backend.Prelude.{
  ℕ, ◌≡◌, refl, sym, ◌∙◌, inl, inr, true, false, ◌&&◌, ◌||◌, List, [], ◌∷◌, arith, ◌==◌, Bool-cases,
  is_some, any, contains, lookup, insert, lookup-insert,
}
use kb_backend.Authz.{
  Role, owner, admin, editor, viewer, other, Principal, Grant, Kb, AuthDb, Decision, is_admin_role,
  is_editor_role, is_live, live_grants, add_admin_kb, add_shared_kb, add_admin_kbs, add_shared_kbs,
  add_grants, add_by_role, no_access, resolve, is_shared, Visibility,
}
use kb_backend.Authz.Sets.{contains-set_add}
use kb_backend.Authz.Spec.{tenant_role, opens, by_role, grants_kb, by_grant, counts, role_opens}

-- The tests of the code are the rules of the description.
pub is_live-counts : (now : ℕ) (g : Grant) → is_live now g ≡ counts now g.revoked_at g.expires_at
unfolding is_live
is_live-counts now g = ground arith

pub role_opens_lem :
    (role : Role) (v : Visibility)
    → role_opens role v ≡ (is_admin_role role || (is_editor_role role && is_shared v))
unfolding is_admin_role is_editor_role is_shared
role_opens_lem role v = ground arith

-- `k` is among the keys of the dict of live grants exactly if a live grant names it.
pub is_some-live_grants :
    (now u k : ℕ) (gs : List Grant) (acc : List (ℕ × Role))
    → is_some (lookup k (live_grants now u gs acc))
      ≡ (is_some (lookup k acc) || any (grants_kb now u k) gs)
unfolding live_grants
is_some-live_grants now u k [] acc = ground arith
is_some-live_grants now u k (g ∷ gs) acc = elim (Bool-cases ((g.user_id == u) && is_live now g)) [
  | inl e ↦
      let acc' = insert g.kb_id g.role acc in
      rw e (
        ground (
          arith,
          is_some-live_grants now u k gs acc',
          is_live-counts now g,
          lookup-insert g.kb_id k g.role acc,
        ))
  | inr e ↦ rw e (ground (arith, is_live-counts now g, is_some-live_grants now u k gs acc))
]

allowed-add_admin_kb :
    (t k : ℕ) (role : Role) (kb : Kb) (d : Decision)
    → is_admin_role role ≡ true
    → contains (add_admin_kb t role kb d).allowed_kb_ids k
      ≡ (contains d.allowed_kb_ids k || opens role t k kb)
unfolding add_admin_kb
allowed-add_admin_kb t k role kb d h =
    ground (arith, role_opens_lem role kb.visibility, contains-set_add kb.id k d.allowed_kb_ids)

allowed-add_admin_kbs :
    (t k : ℕ) (role : Role) (kbs : List Kb) (d : Decision)
    → is_admin_role role ≡ true
    → contains (add_admin_kbs t role kbs d).allowed_kb_ids k
      ≡ (contains d.allowed_kb_ids k || any (opens role t k) kbs)
unfolding add_admin_kbs
allowed-add_admin_kbs t k role [] d h = ground arith
allowed-add_admin_kbs t k role (kb ∷ kbs) d h =
    allowed-add_admin_kbs t k role kbs (add_admin_kb t role kb d) h
    ∙ ground (arith, allowed-add_admin_kb t k role kb d h)

allowed-add_shared_kb :
    (t k : ℕ) (kb : Kb) (d : Decision)
    → contains (add_shared_kb t kb d).allowed_kb_ids k
      ≡ (contains d.allowed_kb_ids k || opens editor t k kb)
unfolding add_shared_kb is_admin_role is_editor_role
allowed-add_shared_kb t k kb d =
    ground (arith, role_opens_lem editor kb.visibility, contains-set_add kb.id k d.allowed_kb_ids)

allowed-add_shared_kbs :
    (t k : ℕ) (kbs : List Kb) (d : Decision)
    → contains (add_shared_kbs t kbs d).allowed_kb_ids k
      ≡ (contains d.allowed_kb_ids k || any (opens editor t k) kbs)
unfolding add_shared_kbs
allowed-add_shared_kbs t k [] d = ground arith
allowed-add_shared_kbs t k (kb ∷ kbs) d =
    allowed-add_shared_kbs t k kbs (add_shared_kb t kb d)
    ∙ ground (arith, allowed-add_shared_kb t k kb d)

pub opens_none :
    (role : Role) (t k : ℕ) (kbs : List Kb)
    → is_admin_role role ≡ false
    → is_editor_role role ≡ false
    → any (opens role t k) kbs ≡ false
opens_none role t k [] h e = refl
opens_none role t k (kb ∷ kbs) h e =
    ground (arith, role_opens_lem role kb.visibility, opens_none role t k kbs h e)

allowed-add_grants :
    (k : ℕ) (gs : List (ℕ × Role)) (d : Decision)
    → contains (add_grants gs d).allowed_kb_ids k
      ≡ (contains d.allowed_kb_ids k || is_some (lookup k gs))
unfolding add_grants
allowed-add_grants k [] d = ground arith
allowed-add_grants k ((kid, role) ∷ gs) d =
    rw (allowed-add_grants k gs _) (ground (arith, contains-set_add kid k d.allowed_kb_ids))

allowed-add_by_role :
    (t k : ℕ) (role : Role) (kbs : List Kb)
    → contains (add_by_role t role kbs no_access).allowed_kb_ids k ≡ any (opens role t k) kbs
unfolding add_by_role is_admin_role is_editor_role
allowed-add_by_role t k owner kbs = allowed-add_admin_kbs t k owner kbs no_access refl
allowed-add_by_role t k admin kbs = allowed-add_admin_kbs t k admin kbs no_access refl
allowed-add_by_role t k editor kbs = allowed-add_shared_kbs t k kbs no_access
allowed-add_by_role t k viewer kbs = sym (opens_none viewer t k kbs refl refl)
allowed-add_by_role t k (other r) kbs = sym (opens_none (other r) t k kbs refl refl)

-- `resolve` allows a knowledge base exactly if the tenant role opens it (every one of the tenant to
-- an owner or admin, the shared ones to an editor) or an unrevoked, unexpired grant names it.
pub resolve_allowed :
    (now : ℕ) (db : AuthDb) (p : Principal) (k : ℕ)
    → contains (resolve now db p).allowed_kb_ids k ≡ (by_role db p k || by_grant now db p k)
unfolding resolve
resolve_allowed now db p k =
    allowed-add_grants k (live_grants now p.user_id db.grants []) _
    ∙ ground (
      arith,
      allowed-add_by_role p.tenant_id k (tenant_role db p) db.kbs,
      is_some-live_grants now p.user_id k db.grants [],
    )
