-- ===== src/Authz/Spec.antt =====
-- An independent description of the rules that the header of app/authz.py lists.
use kb_backend.Prelude.{ℕ, Bool, true, false, ◌&&◌, ◌==◌, Option, none, some, ltb, or_else, any}
use kb_backend.Authz.{
  Role, owner, admin, editor, viewer, Visibility, team, tenant, Principal, Grant, Kb, AuthDb,
  member_role,
}

-- The role in the tenant; a stranger counts as a viewer.
abbrev pub tenant_role : AuthDb → Principal → Role
tenant_role db p = or_else (member_role db.members p.user_id p.tenant_id) viewer

-- The knowledge bases of the tenant that a role sees without a grant.
abbrev pub role_opens : Role → Visibility → Bool
role_opens owner v = true
role_opens admin v = true
role_opens editor team = true
role_opens editor tenant = true
role_opens _ _ = false

-- `k` is a knowledge base of the principal's tenant that the role alone opens.
abbrev pub opens : Role → ℕ → ℕ → Kb → Bool
opens role tenant_id k kb =
    (kb.tenant_id == tenant_id) && (kb.id == k) && role_opens role kb.visibility

abbrev pub by_role : AuthDb → Principal → ℕ → Bool
by_role db p k = any (opens (tenant_role db p) p.tenant_id k) db.kbs

-- A grant counts unless it has been revoked or its time is over.
abbrev pub counts : ℕ → Option ℕ → Option ℕ → Bool
counts now (some revoked) expires_at = false
counts now none none = true
counts now none (some t) = ltb now t

abbrev pub grants_kb : ℕ → ℕ → ℕ → Grant → Bool
grants_kb now user_id k g =
    (g.user_id == user_id) && counts now g.revoked_at g.expires_at && (g.kb_id == k)

abbrev pub by_grant : ℕ → AuthDb → Principal → ℕ → Bool
by_grant now db p k = any (grants_kb now p.user_id k) db.grants
