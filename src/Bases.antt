-- ===== src/Bases.antt =====
-- app/routers/kbs.py: the handlers of knowledge bases. The body of a request is given as the values
-- that Python's json gives. A base is a row of two tables here: what the access rules read, and its
-- config. Its description, owner and time of creation are left out.
pub mod Access
use Prim.Native.String.{len}
use kb_backend.Prelude.Text.{is_text}
use kb_backend.Prelude.Strip.{strip, has_text}
use kb_backend.Db.{ParserConfig, Env}
use kb_backend.Prelude.{
  ℕ, zero, suc, ◌+◌, ◌-◌, ◌*◌, ◌/◌, ◌%◌, ◌^◌, ◌≤◌, ◌<◌, String, ◌≡◌, refl, sym, ap, ◌∙◌, ◌≢◌, ◌↔◌,
  ◌⊎◌, inl, inr, Bool, true, false, not, ◌&&◌, ◌||◌, Option, none, some, List, [], ◌∷◌, ◌++◌, map,
  arith, ltb, leb, ◌==◌, if◌then◌else◌, ==_iff, ==_refl, Bool-cases, Option-cases, is_some, or_else,
  opt_eq, opt_eq_iff, length, take, drop, get_elem?, filter, any, all, length-append, length-take,
  take-append-drop, any-append, filter-append, filter-all, any_of_all, length-filter, contains,
  contains-append, lookup, insert, erase, lookup-insert, lookup-erase, find, update_where, ◌>>=◌,
  concat, max, >>=_some, nonempty, all_imp, all-append, all-filter_of,
}
use package.text.Mathlib.Text.{◌==◌ as str_eq}
use kb_backend.Authz.{
  AuthDb, Kb, Role, viewer, Visibility, me, team, tenant, unknown, is_tenant_admin, Principal,
  resolve,
}
use kb_backend.Documents.{Site, may_write_kb}
use kb_backend.Documents.Library.{forbidden_kb, done_ok}
use kb_backend.Documents.Uploads.{server_error}
use kb_backend.Http.{Http, ok, http_error}

-- What `list_kbs` tells of a base.
pub record KbView : Type 0 where
  pub id : ℕ
  pub name : String
  pub doc_count : ℕ
  pub role : Role
  pub visibility : Visibility
  pub parser_config : Option ParserConfig

-- the text of the column
unfoldable pub visibility_text : Visibility → String
visibility_text me = "me"
visibility_text team = "team"
visibility_text tenant = "tenant"
visibility_text (unknown s) = s

-- The row keeps to VARCHAR(128), VARCHAR(16) and UNIQUE (tenant_id, name): no other base of the
-- tenant has the name.
unfoldable pub is_storable : ℕ → ℕ → String → Visibility → List Kb → Bool
unfolding visibility_text
is_storable kb_id tenant_id name visibility kbs =
    (leb (len name) 128 && leb (len (visibility_text visibility)) 16)
    && not
        (any (λ k. ((k.tenant_id == tenant_id) && not (k.id == kb_id)) && str_eq k.name name) kbs)

-- `WHERE id=… AND tenant_id=…`
abbrev pub is_base : ℕ → ℕ → Kb → Bool
is_base kb_id tenant_id k = (k.id == kb_id) && (k.tenant_id == tenant_id)

module _ {F S : Type 0} where
  -- `list_kbs`; the rows stand in the order of their creation
  unfoldable pub list_kbs : Env → Site F S → Principal → List KbView
  list_kbs env site p =
      let decision = resolve env.now site.auth p in
      let pg = site.world.pg in
      map
        (λ k. record {
          id = k.id;
          name = k.name;
          doc_count = length (filter (λ l. l.kb_id == k.id) pg.file_kbs);
          role = or_else (lookup k.id decision.kb_roles) viewer;
          visibility = k.visibility;
          parser_config = find (λ r. r.id == k.id) pg.kbs >>= λ r. r.parser_config;
        })
        (filter (λ k. (k.tenant_id == p.tenant_id) && contains decision.allowed_kb_ids k.id)
          site.auth.kbs)

  -- `INSERT INTO kb_kb`
  unfoldable pub insert_kb : Site F S → ℕ → ℕ → String → Visibility → ParserConfig → Site F S
  insert_kb site kb_id tenant_id name visibility pcfg = record site {
    auth = record site.auth {
      kbs =
          site.auth.kbs
          ++ (record { id = kb_id; tenant_id = tenant_id; name = name; visibility = visibility }
              ∷ []);
    };
    world = record site.world {
      pg = record site.world.pg {
        kbs =
            site.world.pg.kbs
            ++ (record { id = kb_id; tenant_id = tenant_id; parser_config = some pcfg } ∷ []);
      };
    };
  }

  -- `create_kb`: `visibility` is `none` where the body gives null, and `kb_id` is what uuid4 draws;
  -- `default_config` is the default of the column. An insertion that fails is a conflict.
  unfoldable pub create_kb :
      ParserConfig
      → Site F S
      → Principal
      → ℕ
      → Option String
      → Option Visibility
      → Option ParserConfig
      → Site F S × Http (ℕ × String)
  unfolding insert_kb is_storable
  create_kb default_config site p kb_id name visibility pcfg =
      let stripped = strip (or_else name "") in
      if not (is_text stripped) then (site, http_error 400 "KB_VALIDATION") else elim visibility [
        | none ↦ (site, http_error 409 "KB_VALIDATION")
        | some v ↦
            if not (is_storable kb_id p.tenant_id stripped v site.auth.kbs)
            then (site, http_error 409 "KB_VALIDATION")
            else (
              insert_kb site kb_id p.tenant_id stripped v (or_else pcfg default_config),
              ok (kb_id, stripped),
            )
      ]

  -- `update_kb`: what the body sets; an update that breaks a rule of the table raises
  unfoldable pub update_kb :
      Env
      → Site F S
      → Principal
      → ℕ
      → Option String
      → Option String
      → Option Visibility
      → Option ParserConfig
      → Site F S × Http (Unit {0})
  unfolding may_write_kb is_storable
  update_kb env site p kb_id name description visibility pcfg =
      let pg = site.world.pg in
      let patch = λ (k : Kb). record k {
        name = or_else name k.name;
        visibility = or_else visibility k.visibility;
      } in
      let fits = λ (k : Kb).
        is_storable kb_id p.tenant_id (patch k).name (patch k).visibility site.auth.kbs in
      let mine = is_base kb_id p.tenant_id in
      if not (may_write_kb env site p kb_id)
      then (site, forbidden_kb)
      else if not ((is_some name || is_some description) || (is_some visibility || is_some pcfg))
      then (site, http_error 400 "KB_VALIDATION")
      else if not (any mine site.auth.kbs)
      then (site, http_error 404 "KB_NOT_FOUND")
      else if not (all (λ k. not (mine k) || fits k) site.auth.kbs)
      then (site, server_error)
      else (
        record site {
          auth = record site.auth { kbs = update_where mine patch site.auth.kbs };
          world = record site.world {
            pg = record pg {
              kbs =
                  update_where (λ r. (r.id == kb_id) && (r.tenant_id == p.tenant_id))
                    (λ r. record r {
                      parser_config = elim pcfg [ none ↦ r.parser_config | some c ↦ some c ];
                    })
                    pg.kbs;
            };
          };
        },
        done_ok,
      )

  -- `DELETE FROM kb_kb`, with the grants and the links that the foreign keys delete
  unfoldable pub delete_base : Site F S → ℕ → ℕ → Site F S
  delete_base site kb_id tenant_id = record site {
    auth = record site.auth {
      kbs = filter (λ k. not (is_base kb_id tenant_id k)) site.auth.kbs;
      grants = filter (λ g. not (g.kb_id == kb_id)) site.auth.grants;
    };
    world = record site.world {
      pg = record site.world.pg {
        kbs = filter (λ k. not ((k.id == kb_id) && (k.tenant_id == tenant_id))) site.world.pg.kbs;
        file_kbs = filter (λ l. not (l.kb_id == kb_id)) site.world.pg.file_kbs;
      };
    };
  }

  -- `delete_kb`
  unfoldable pub delete_kb : Site F S → Principal → ℕ → Site F S × Http (Unit {0})
  unfolding delete_base
  delete_kb site p kb_id =
      if not (is_tenant_admin site.auth p)
      then (site, http_error 403 "KB_FORBIDDEN_ADMIN")
      else if not (any (is_base kb_id p.tenant_id) site.auth.kbs)
      then (site, http_error 404 "KB_NOT_FOUND")
      else (delete_base site kb_id p.tenant_id, done_ok)
