-- ===== src/Authz/Roles.antt =====
-- The role that `resolve` gives on each knowledge base.
use kb_backend.Prelude.{
  ℕ, ◌≤◌, ◌<◌, ◌≡◌, refl, ap, ◌∙◌, inl, inr, Bool, true, false, ◌&&◌, ◌||◌, Option, none, some,
  List, [], ◌∷◌, arith, leb, ◌==◌, if◌then◌else◌, Bool-cases, or_else, any, lookup, insert,
  lookup-insert,
}
use kb_backend.Authz.{
  Role, owner, admin, editor, viewer, other, Principal, Grant, Kb, AuthDb, Decision, clearance_of,
  higher, is_admin_role, is_editor_role, is_live, live_grants, add_admin_kb, add_shared_kb,
  add_admin_kbs, add_shared_kbs, add_grants, add_by_role, no_access, resolve, can_write,
  is_kb_admin, role_clearance,
}
use kb_backend.Authz.Spec.{tenant_role, opens, by_role}
use kb_backend.Authz.Allowed.{role_opens_lem, opens_none}

-- No key stands twice.
abbrev pub NodupKeys : List (ℕ × Role) → Type 0
NodupKeys [] = Unit
NodupKeys ((k, r) ∷ d) = (lookup k d ≡ none) × NodupKeys d

insert-NodupKeys : (k : ℕ) (r : Role) (d : List (ℕ × Role)) → NodupKeys d → NodupKeys (insert k r d)
insert-NodupKeys k r [] h = (refl, tt)
insert-NodupKeys k r ((j, q) ∷ d) h =
    ground (arith, insert-NodupKeys k r d h.1, lookup-insert k j r d)

live_grants-NodupKeys :
    (now u : ℕ) (gs : List Grant) (acc : List (ℕ × Role))
    → NodupKeys acc
    → NodupKeys (live_grants now u gs acc)
unfolding live_grants
live_grants-NodupKeys now u [] acc h = h
live_grants-NodupKeys now u (g ∷ gs) acc h = elim (Bool-cases ((g.user_id == u) && is_live now g)) [
  | inl e ↦ rw e (live_grants-NodupKeys now u gs _ (insert-NodupKeys g.kb_id g.role acc h))
  | inr e ↦ rw e (live_grants-NodupKeys now u gs acc h)
]

role-add_admin_kb :
    (t k : ℕ) (role : Role) (kb : Kb) (d : Decision)
    → is_admin_role role ≡ true
    → higher (or_else (lookup k d.kb_roles) viewer) role ≡ role
    → lookup k (add_admin_kb t role kb d).kb_roles
      ≡ (if opens role t k kb then some role else lookup k d.kb_roles)
unfolding add_admin_kb
role-add_admin_kb t k role kb d h top = ground (
  arith,
  role_opens_lem role kb.visibility,
  lookup-insert kb.id k (higher (or_else (lookup kb.id d.kb_roles) viewer) role) d.kb_roles,
)

higher_self : (r : Role) → higher r r ≡ r
unfolding higher
higher_self r = ground arith

role-add_admin_kbs :
    (t k : ℕ) (role : Role) (kbs : List Kb) (d : Decision)
    → is_admin_role role ≡ true
    → higher (or_else (lookup k d.kb_roles) viewer) role ≡ role
    → lookup k (add_admin_kbs t role kbs d).kb_roles
      ≡ (if any (opens role t k) kbs then some role else lookup k d.kb_roles)
unfolding add_admin_kbs
role-add_admin_kbs t k role [] d h top = refl
role-add_admin_kbs t k role (kb ∷ kbs) d h top =
    let d' = add_admin_kb t role kb d in
    let step = role-add_admin_kb t k role kb d h top in
    ground (arith, step, role-add_admin_kbs t k role kbs d' h, higher_self role)

role-add_shared_kb :
    (t k : ℕ) (kb : Kb) (d : Decision)
    → lookup k (add_shared_kb t kb d).kb_roles ≡ (
        if opens editor t k kb
        then some (or_else (lookup k d.kb_roles) viewer)
        else lookup k d.kb_roles)
unfolding add_shared_kb is_admin_role is_editor_role
role-add_shared_kb t k kb d = ground (
  arith,
  role_opens_lem editor kb.visibility,
  lookup-insert kb.id k (or_else (lookup kb.id d.kb_roles) viewer) d.kb_roles,
)

role-add_shared_kbs :
    (t k : ℕ) (kbs : List Kb) (d : Decision)
    → lookup k (add_shared_kbs t kbs d).kb_roles ≡ (
        if any (opens editor t k) kbs
        then some (or_else (lookup k d.kb_roles) viewer)
        else lookup k d.kb_roles)
unfolding add_shared_kbs
role-add_shared_kbs t k [] d = refl
role-add_shared_kbs t k (kb ∷ kbs) d =
    ground (arith, role-add_shared_kb t k kb d, role-add_shared_kbs t k kbs (add_shared_kb t kb d))

-- What a live grant makes of the role that the tenant role gave.
abbrev pub raised : Option Role → Option Role → Option Role
raised base none = base
raised base (some g) = some (higher (or_else base viewer) g)

role-add_grants :
    (k : ℕ) (gs : List (ℕ × Role)) (d : Decision)
    → NodupKeys gs
    → lookup k (add_grants gs d).kb_roles ≡ raised (lookup k d.kb_roles) (lookup k gs)
unfolding add_grants
role-add_grants k [] d h = refl
role-add_grants k ((kid, role) ∷ gs) d h =
    let r = higher (or_else (lookup kid d.kb_roles) viewer) role in
    role-add_grants k gs _ h.1 ∙ ground (arith, h.0, lookup-insert kid k r d.kb_roles)

-- The role that the tenant role alone gives on a knowledge base.
abbrev pub base_role : AuthDb → Principal → ℕ → Option Role
base_role db p k =
    if by_role db p k
    then some (if is_admin_role (tenant_role db p) then tenant_role db p else viewer)
    else none

role-add_by_role :
    (t k : ℕ) (role : Role) (kbs : List Kb)
    → lookup k (add_by_role t role kbs no_access).kb_roles ≡ (
        if any (opens role t k) kbs
        then some (if is_admin_role role then role else viewer)
        else none)
unfolding add_by_role is_admin_role is_editor_role
role-add_by_role t k owner kbs =
    role-add_admin_kbs t k owner kbs no_access refl (unfold higher clearance_of in refl)
role-add_by_role t k admin kbs =
    role-add_admin_kbs t k admin kbs no_access refl (unfold higher clearance_of in refl)
role-add_by_role t k editor kbs = role-add_shared_kbs t k kbs no_access
role-add_by_role t k viewer kbs = rw (opens_none viewer t k kbs refl refl)
role-add_by_role t k (other r) kbs = rw (opens_none (other r) t k kbs refl refl)

-- The role of the user's live grant of `k`.
abbrev pub grant_role : ℕ → AuthDb → Principal → ℕ → Option Role
grant_role now db p k = lookup k (live_grants now p.user_id db.grants [])

-- On each knowledge base the decision has the higher of the role that the tenant role gives (its own
-- to an owner or admin, viewer to an editor, at a base that it opens) and that of the live grant,
-- which counts as viewer at least; and no role where there is neither.
pub resolve_roles :
    (now : ℕ) (db : AuthDb) (p : Principal) (k : ℕ)
    → lookup k (resolve now db p).kb_roles ≡ raised (base_role db p k) (grant_role now db p k)
unfolding resolve
resolve_roles now db p k =
    role-add_grants k (live_grants now p.user_id db.grants []) _
      (live_grants-NodupKeys now p.user_id db.grants [] tt)
    ∙ ap (λ r. raised r (grant_role now db p k))
        (role-add_by_role p.tenant_id k (tenant_role db p) db.kbs)

-- The live grant of `k` has at least the level of `least`.
abbrev pub granted_at_least : Role → ℕ → AuthDb → Principal → ℕ → Bool
granted_at_least least now db p k = elim (grant_role now db p k) [
  | none ↦ false
  | some g ↦ leb (clearance_of least) (clearance_of g)
]

level_of_raised :
    (least role : Role) (opened : Bool) (g : Option Role)
    → 1 < clearance_of least
    → clearance_of least ≤ 3
    → leb
        (clearance_of least)
        (elim (raised
          (if opened then some (if is_admin_role role then role else viewer) else none)
          g) [ none ↦ 0 | some r ↦ clearance_of r ])
      ≡ ((opened && is_admin_role role)
          || (elim g [ none ↦ false | some r ↦ leb (clearance_of least) (clearance_of r) ]))
unfolding higher clearance_of is_admin_role
level_of_raised least owner opened none lo hi = ground arith
level_of_raised least role opened none lo hi = ground arith
level_of_raised least owner opened (some g) lo hi = ground arith
level_of_raised least role opened (some g) lo hi = ground arith

abbrev pub in_admin_tenant : AuthDb → Principal → ℕ → Bool
in_admin_tenant db p k = by_role db p k && is_admin_role (tenant_role db p)

-- Writing to a knowledge base needs an owner or admin of its tenant, or a live grant of level editor
-- or above; granting on it needs an owner or admin of its tenant, or a live grant of level admin or
-- above. The editor role in the tenant gives neither.
pub resolve-can_write :
    (now : ℕ) (db : AuthDb) (p : Principal) (k : ℕ)
    → (can_write (resolve now db p) k
        ≡ (in_admin_tenant db p k || granted_at_least editor now db p k))
      × (is_kb_admin (resolve now db p) k
          ≡ (in_admin_tenant db p k || granted_at_least admin now db p k))
unfolding can_write is_kb_admin role_clearance
resolve-can_write now db p k = (
  rw (resolve_roles now db p k, role_clearance)
      (level_of_raised editor (tenant_role db p) (by_role db p k) (grant_role now db p k)
        (unfold clearance_of in omega arith) (unfold clearance_of in omega arith)),
  rw (resolve_roles now db p k, role_clearance)
      (level_of_raised admin (tenant_role db p) (by_role db p k) (grant_role now db p k)
        (unfold clearance_of in omega arith) (unfold clearance_of in omega arith)),
)
