-- ===== src/Authz/Grants/Bulk/Targets.antt =====
-- Whom a bulk grant reaches.
use kb_backend.Prelude.{
  ℕ, String, ◌≡◌, refl, ◌∙◌, inl, inr, Bool, true, ◌&&◌, ◌||◌, Option, List, [], ◌∷◌, ◌++◌, arith,
  ◌==◌, ==_iff, Bool-cases, if◌then◌else◌, any, any-append, filter, contains,
}
use text.Mathlib.Text.{◌==◌ as str_eq}
use kb_backend.Http.{ok}
use kb_backend.Authz.{viewer, Grant, Role, AuthDb, Principal, is_tenant_admin}
use kb_backend.Authz.Grants.{is_grant_of, upsert_grant, grant_all, is_grantable}
use kb_backend.Authz.Grants.Bulk.{agrees, grant_each, grant_bulk}
use kb_backend.Prelude.{String, none, some, false, true, not, is_some, or_else, length}
use kb_backend.Authz.{Member}
use kb_backend.Authz.Grants.Bulk.{given, is_selected, add_members, resolve_targets}

abbrev has : ℕ → List Member → Bool
has u ms = any (λ m. m.user_id == u) ms

-- The member `u` is named, in the tenant.
abbrev named_in : ℕ → List ℕ → ℕ → Member → Bool
named_in t user_ids u m = (m.user_id == u) && (m.tenant_id == t) && contains user_ids m.user_id

has-add_members :
    (t u : ℕ) (user_ids : List ℕ) (ms matched : List Member)
    → has u (add_members t user_ids ms matched) ≡ (has u matched || any (named_in t user_ids u) ms)
unfolding add_members
has-add_members t u user_ids [] matched = ground arith
has-add_members t u user_ids (m ∷ ms) matched =
    elim (Bool-cases ((m.tenant_id == t) && contains user_ids m.user_id)) [
      | inr e ↦ rw e (has-add_members t u user_ids ms matched ∙ ground (arith, e))
      | inl e ↦ elim (Bool-cases (has m.user_id matched)) [
        | inl old ↦ elim (Bool-cases (m.user_id == u)) [
          | inl same ↦
              let here : has u matched ≡ true = rw (← (==_iff m.user_id u).0 same) old in
              rw (e, old) (has-add_members t u user_ids ms matched ∙ ground (arith, here))
          | inr other ↦
              rw (e, old) (has-add_members t u user_ids ms matched ∙ ground (arith, other))
        ]
        | inr new ↦
            rw (e, new)
              (has-add_members t u user_ids ms (matched ++ (m ∷ []))
                ∙ ground (arith, e, any-append (λ (x : Member). x.user_id == u) matched (m ∷ [])))
      ]
    ]

has-filter :
    (u : ℕ) (p : Member → Bool) (ms : List Member)
    → has u (filter p ms) ≡ any (λ m. (m.user_id == u) && p m) ms
has-filter u p [] = refl
has-filter u p (m ∷ ms) = ground (arith, has-filter u p ms)

-- A filter that is given and not empty is the text of the column.
abbrev pub meets : Option String → Option String → Bool
meets asked none = not (given asked)
meets none (some c) = true
meets (some s) (some c) = str_eq s "" || str_eq c s

-- Whom a bulk grant is for: the members of the tenant that meet both filters, if one is given, and
-- those that are named.
abbrev pub is_target : List Member → ℕ → Option String → Option String → List ℕ → ℕ → Bool
is_target members tenant_id department group user_ids u =
    ((given department || given group)
      && any
          (λ m.
            (m.user_id == u)
            && (m.tenant_id == tenant_id)
            && meets department m.department
            && meets group m.group_name)
          members)
    || any (λ m. (m.user_id == u) && (m.tenant_id == tenant_id) && contains user_ids m.user_id)
        members

agrees-meets : (asked column : Option String) → agrees asked column ≡ meets asked column
unfolding agrees
agrees-meets none none = refl
agrees-meets none (some c) = refl
agrees-meets (some s) none = ground arith
agrees-meets (some s) (some c) = refl

selected_meets :
    (t u : ℕ) (department group : Option String) (ms : List Member)
    → any (λ m. (m.user_id == u) && is_selected t department group m) ms
      ≡ any
          (λ m.
            (m.user_id == u)
            && (m.tenant_id == t)
            && meets department m.department
            && meets group m.group_name)
          ms
unfolding is_selected
selected_meets t u department group [] = refl
selected_meets t u department group (m ∷ ms) =
    rw
      (
        agrees-meets department m.department,
        agrees-meets group m.group_name,
        selected_meets t u department group ms,
      )
      (ground arith)

resolve_targets_lem :
    (members : List Member) (t u : ℕ) (department group : Option String) (user_ids : List ℕ)
    → has u (resolve_targets members t department group user_ids)
      ≡ is_target members t department group user_ids u
unfolding resolve_targets
resolve_targets_lem members t u department group user_ids =
    let matched =
      if given department || given group
      then filter (is_selected t department group) members
      else [] in
    has-add_members t u user_ids members matched
    ∙ ground (
      arith,
      has-filter u (is_selected t department group) members,
      selected_meets t u department group members,
    )

-- The user has a grant of the base that is not revoked.
abbrev pub has_grant : ℕ → ℕ → List Grant → Bool
has_grant k u gs = any (λ g. is_grant_of k u g && not (is_some g.revoked_at)) gs

has_grant-upsert :
    (k u : ℕ) (new : Grant) (change : Grant → Grant) (gs : List Grant)
    → is_some new.revoked_at ≡ false
    → ((g : Grant) → (change g).kb_id ≡ g.kb_id)
    → ((g : Grant) → (change g).user_id ≡ g.user_id)
    → ((g : Grant) → is_some (change g).revoked_at ≡ false)
    → has_grant k u (upsert_grant new change gs) ≡ (has_grant k u gs || is_grant_of k u new)
unfolding upsert_grant
has_grant-upsert k u new change [] unrevoked kb user live = rw unrevoked (ground arith)
has_grant-upsert k u new change (g ∷ gs) unrevoked kb user live =
    elim (Bool-cases (is_grant_of new.kb_id new.user_id g)) [
      | inl e ↦
          let same : is_grant_of k u new ≡ is_grant_of k u g = ground (arith, e) in
          rw (e, kb g, user g, live g, same) (ground arith)
      | inr e ↦ rw (e, has_grant-upsert k u new change gs unrevoked kb user live) (ground arith)
    ]

has_grant-grant_all :
    (k u granter user_id : ℕ) (role : Role) (kb_ids : List ℕ) (gs : List Grant)
    → has_grant k u (grant_all granter role user_id kb_ids gs)
      ≡ (has_grant k u gs || (contains kb_ids k && (user_id == u)))
unfolding grant_all
has_grant-grant_all k u granter user_id role [] gs = ground arith
has_grant-grant_all k u granter user_id role (b ∷ bs) gs =
    let new : Grant = record {
      kb_id = b;
      user_id = user_id;
      role = role;
      granted_by = granter;
      expires_at = none;
      revoked_at = none;
    } in
    let change = λ (g : Grant). record g { role = role; granted_by = granter; revoked_at = none } in
    has_grant-grant_all k u granter user_id role bs (upsert_grant new change gs)
    ∙ rw (has_grant-upsert k u new change gs refl (λ g. refl) (λ g. refl) (λ g. refl))
        (ground arith)

has_grant-grant_each :
    (k u granter : ℕ) (role : Role) (ms : List Member) (kb_ids : List ℕ) (gs : List Grant)
    → has_grant k u (grant_each granter role ms kb_ids gs)
      ≡ (has_grant k u gs || (contains kb_ids k && has u ms))
unfolding grant_each
has_grant-grant_each k u granter role [] kb_ids gs = ground arith
has_grant-grant_each k u granter role (m ∷ ms) kb_ids gs =
    has_grant-grant_each k u granter role ms kb_ids _
    ∙ rw (has_grant-grant_all k u granter m.user_id role kb_ids gs) (ground arith)

no_members : (u : ℕ) (ms : List Member) → (length ms == 0) ≡ true → has u ms ≡ false
no_members u [] h = refl
no_members u (m ∷ ms) h = absurd (ground (arith, h))

-- When `grant_bulk` succeeds and is not a dry run, a user has a grant of a base that is not revoked
-- exactly if this was so before, or the base is among those of the request and the user is a member
-- of the tenant that meets every filter given, where one is given, or that the request names.
pub grant_bulk-has_grant :
    (db : AuthDb) (p : Principal) (role : Option Role) (kb_ids : List ℕ)
    (department group : Option String) (user_ids : List ℕ) (granted : ℕ) (users : List ℕ) (k u : ℕ)
    → (grant_bulk db p role kb_ids department group user_ids false).0 ≡ ok (some granted, users)
    → has_grant k u (grant_bulk db p role kb_ids department group user_ids false).1.grants ≡ (
        has_grant k u db.grants
        || (contains kb_ids k && is_target db.members p.tenant_id department group user_ids u))
unfolding grant_bulk
grant_bulk-has_grant db p role kb_ids department group user_ids granted users k u h =
    let targets = resolve_targets db.members p.tenant_id department group user_ids in
    let reached = resolve_targets_lem db.members p.tenant_id u department group user_ids in
    elim (Bool-cases (is_tenant_admin db p)) [
      | inr a ↦ absurd (ground (arith, a, h))
      | inl a ↦ elim (Bool-cases (is_grantable (or_else role viewer))) [
        | inr b ↦ absurd (ground (arith, a, b, h))
        | inl b ↦ elim (Bool-cases (length kb_ids == 0)) [
          | inl c ↦ absurd (ground (arith, a, b, c, h))
          | inr c ↦ elim (Bool-cases (length targets == 0)) [
            | inl d ↦ rw (a, b, c, d) (ground (arith, no_members u targets d, reached))
            | inr d ↦
                rw (a, b, c, d)
                  (has_grant-grant_each k u p.user_id (or_else role viewer) targets kb_ids db.grants
                    ∙ rw reached refl)
          ]
        ]
      ]
    ]
