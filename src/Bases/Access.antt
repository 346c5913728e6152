-- ===== src/Bases/Access.antt =====
-- Who may use a base after it was made or deleted.
use kb_backend.Db.{FileKb}
use kb_backend.FileStore.Erased.{any-filter-not}
use kb_backend.Authz.Allowed.{resolve_allowed}
use kb_backend.Authz.Spec.{opens, grants_kb, by_grant, role_opens, tenant_role}
use kb_backend.Prelude.{
  refl, ℕ, String, ◌≡◌, Option, some, arith, or_else, contains, List, ◌||◌, any, false, ◌==◌, ◌&&◌,
  filter, not, ◌∙◌, ◌∷◌, ◌++◌, [], any-append,
}
use kb_backend.Http.{ok}
use kb_backend.Authz.{Visibility, Principal, Role, resolve, Kb, Grant}
use kb_backend.Documents.{Site}
use kb_backend.Bases.{create_kb, insert_kb, delete_kb, delete_base, ParserConfig, strip, is_base}

created :
    {F S : Type 0} (default_config : ParserConfig) (site : Site F S) (p : Principal) (kb_id : ℕ)
    (name : Option String) (v : Visibility) (pcfg : Option ParserConfig) (made : ℕ × String)
    → (create_kb default_config site p kb_id name (some v) pcfg).1 ≡ ok made
    → (create_kb default_config site p kb_id name (some v) pcfg).0
      ≡ insert_kb site kb_id p.tenant_id (strip (or_else name "")) v (or_else pcfg default_config)
unfolding create_kb
created default_config site p kb_id name v pcfg made h = ground (arith, h)

deleted :
    {F S : Type 0} (site : Site F S) (p : Principal) (kb_id : ℕ)
    → (delete_kb site p kb_id).1 ≡ ok tt
    → (delete_kb site p kb_id).0 ≡ delete_base site kb_id p.tenant_id
unfolding delete_kb
deleted site p kb_id h = ground (arith, h)

-- If `create_kb` makes a base, then from then on a principal is allowed a base exactly if it was
-- allowed before, or it is the new one and the principal is of its tenant and has a role there that
-- opens its visibility: the one who made it is no exception.
pub create_kb-allowed :
    {F S : Type 0} (default_config : ParserConfig) (site : Site F S) (p who : Principal) (kb_id : ℕ)
    (name : Option String) (v : Visibility) (pcfg : Option ParserConfig) (made : ℕ × String)
    (now k : ℕ)
    → (create_kb default_config site p kb_id name (some v) pcfg).1 ≡ ok made
    → let site' = (create_kb default_config site p kb_id name (some v) pcfg).0 in
      contains (resolve now site'.auth who).allowed_kb_ids k ≡ (
        contains (resolve now site.auth who).allowed_kb_ids k
        || ((who.tenant_id == p.tenant_id) && (k == kb_id))
          && role_opens (tenant_role site.auth who) v)
unfolding insert_kb
create_kb-allowed default_config site p who kb_id name v pcfg made now k h =
    let row : Kb = record {
      id = kb_id;
      tenant_id = p.tenant_id;
      name = strip (or_else name "");
      visibility = v;
    } in
    rw
      (
        created default_config site p kb_id name v pcfg made h,
        resolve_allowed now site.auth who k,
        resolve_allowed now (record site.auth { kbs = site.auth.kbs ++ (row ∷ []) }) who k,
        any-append (opens (tenant_role site.auth who) who.tenant_id k) site.auth.kbs (row ∷ []),
      )
      (ground arith)

no_base :
    (t u : ℕ) (r : Role) (kb_id : ℕ) (kbs : List Kb)
    → u ≡ t
    → any (opens r u kb_id) (filter (λ k. not (is_base kb_id t k)) kbs) ≡ false
no_base t u r kb_id [] same = refl
no_base t u r kb_id (k ∷ kbs) same = ground (arith, same, no_base t u r kb_id kbs same)

no_grant :
    (now u kb_id : ℕ) (gs : List Grant)
    → any (grants_kb now u kb_id) (filter (λ g. not (g.kb_id == kb_id)) gs) ≡ false
no_grant now u kb_id [] = refl
no_grant now u kb_id (g ∷ gs) = ground (arith, no_grant now u kb_id gs)

-- When `delete_kb` succeeds, nobody of the tenant is allowed the base from then on, and nobody of any
-- tenant has a grant of it that counts; no file is linked to it; and the files are as they were.
pub delete_kb_closes :
    {F S : Type 0} (site : Site F S) (p who : Principal) (kb_id now : ℕ)
    → (delete_kb site p kb_id).1 ≡ ok tt
    → who.tenant_id ≡ p.tenant_id
    → let site' = (delete_kb site p kb_id).0 in
      (contains (resolve now site'.auth who).allowed_kb_ids kb_id ≡ false)
      × ((other : Principal) → by_grant now site'.auth other kb_id ≡ false)
      × (any (λ l. l.kb_id == kb_id) site'.world.pg.file_kbs ≡ false)
      × (site'.world.pg.files ≡ site.world.pg.files)
unfolding delete_base
delete_kb_closes site p who kb_id now h same = rw (deleted site p kb_id h) (
  resolve_allowed now (delete_base site kb_id p.tenant_id).auth who kb_id
      ∙ ground (
        arith,
        no_base p.tenant_id who.tenant_id (tenant_role site.auth who) kb_id site.auth.kbs same,
        no_grant now who.user_id kb_id site.auth.grants,
      ),
  λ other. no_grant now other.user_id kb_id site.auth.grants,
  any-filter-not (λ (l : FileKb). l.kb_id == kb_id) site.world.pg.file_kbs,
  refl,
)
