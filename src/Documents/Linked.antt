-- ===== src/Documents/Linked.antt =====
-- What a link to a base opens.
use kb_backend.Ingest.Publish.{ingest_file}
use kb_backend.Documents.Uploads.{is_done}
use package.text.Mathlib.Text.{◌==◌ as str_eq}
use kb_backend.Documents.Sound.{ingest_file-keys}
use kb_backend.Documents.Library.{attach_file, set_parser}
use kb_backend.Documents.{
  add_link, Principal, can_read_file, Site, resolve, may_write_kb, logged, can_manage_file, is_set,
}
use kb_backend.Prelude.{
  ℕ, ◌≡◌, refl, inl, inr, Bool, true, ◌&&◌, List, [], ◌∷◌, arith, ◌==◌, Bool-cases, any, any-append,
  contains, nonempty, if◌then◌else◌, find, ◌>>=◌, some, or_else,
}
use kb_backend.Es.{Client}
use kb_backend.Db.{KbRow, FileKb, Env, ParserConfig, FileRow, World}
use kb_backend.Ingest.Sources.{Tools}

any_imp :
    {A : Type 0} (p q : A → Bool) (xs : List A)
    → ((x : A) → p x ≡ true → q x ≡ true)
    → any p xs ≡ true
    → any q xs ≡ true
any_imp p q [] h e = e
any_imp p q (x ∷ xs) h e = elim (Bool-cases (p x)) [
  | inl k ↦ rw (h x k) refl
  | inr k ↦ ground (arith, e, k, any_imp p q xs h)
]

contains-nonempty : (xs : List ℕ) (x : ℕ) → contains xs x ≡ true → nonempty xs ≡ true
contains-nonempty [] x e = e
contains-nonempty (y ∷ ys) x e = refl

add_link-there :
    (q : FileKb → Bool) (fid kb_id t : ℕ) (ls : List FileKb)
    → ((l : FileKb) → (l.file_id == fid) && (l.kb_id == kb_id) ≡ true → q l ≡ true)
    → any q (add_link fid kb_id t ls) ≡ true
unfolding add_link
add_link-there q fid kb_id t ls h =
    elim (Bool-cases (any (λ l. (l.file_id == fid) && (l.kb_id == kb_id)) ls)) [
      | inl e ↦ rw e (any_imp (λ l. (l.file_id == fid) && (l.kb_id == kb_id)) q ls h e)
      | inr e ↦
          rw
            (
              e,
              any-append q ls _,
              h (record { file_id = fid; kb_id = kb_id; tenant_id = t }) (ground arith),
            )
            (ground arith)
    ]

module _ {F S Block : Type 0} (tools : Tools F Block) (env : Env) (es : Client F S) (p : Principal)
    (fid kb_id : ℕ) where
  -- who may write a base of the tenant can read the files that are linked to it
  linked-can_read_file :
      (site site' : Site F S)
      → site'.auth ≡ site.auth
      → site'.world.pg.kbs ≡ site.world.pg.kbs
      → site'.world.pg.file_kbs ≡ add_link fid kb_id p.tenant_id site.world.pg.file_kbs
      → contains (resolve env.now site.auth p).allowed_kb_ids kb_id ≡ true
      → any (λ (k : KbRow). (k.id == kb_id) && (k.tenant_id == p.tenant_id)) site.world.pg.kbs
        ≡ true
      → can_read_file env site' p fid ≡ true
  unfolding can_read_file
  linked-can_read_file site site' auth kbs links allowed own =
      let found =
        add_link-there
          (λ l.
            ((l.file_id == fid) && contains (resolve env.now site.auth p).allowed_kb_ids l.kb_id)
            && any (λ (k : KbRow). (k.id == l.kb_id) && (k.tenant_id == p.tenant_id))
                site.world.pg.kbs)
          fid kb_id p.tenant_id site.world.pg.file_kbs
          (λ l e.
            let same : l.kb_id ≡ kb_id = ground (arith, e) in
            rw same (ground (arith, e, allowed, own))) in
      rw (auth, kbs, links, found)
        (ground
          (arith, contains-nonempty (resolve env.now site.auth p).allowed_kb_ids kb_id allowed))

  attached :
      (site : Site F S) (cfg : ParserConfig)
      → may_write_kb env site p kb_id ≡ true
      → can_manage_file env site p fid ≡ true
      → any (λ (f : FileRow). f.id == fid) site.world.pg.files ≡ true
      → let site' = (attach_file tools env es p fid kb_id cfg site).0 in
        (site'.auth ≡ site.auth)
        × (site'.world.pg.file_kbs ≡ add_link fid kb_id p.tenant_id site.world.pg.file_kbs)
        × (site'.world.pg.kbs ≡ site.world.pg.kbs)
  unfolding attach_file logged
  attached site cfg e k l =
      let pg = site.world.pg in
      let linked : World F S = record site.world {
        pg = record pg {
          files = if is_set cfg then set_parser fid p.tenant_id cfg pg.files else pg.files;
          file_kbs = add_link fid kb_id p.tenant_id pg.file_kbs;
        };
      } in
      let status = find (λ (f : FileRow). f.id == fid) linked.pg.files >>= λ f. some f.status in
      let (_, links, kbs) = ingest_file-keys tools env es fid linked in
      elim (Bool-cases (str_eq (or_else status "") "uploaded")) [
        | inr m ↦ rw (e, k, l, m) (refl, refl, refl)
        | inl m ↦ elim (Bool-cases (is_done (ingest_file tools env es fid linked).1)) [
          | inr n ↦ rw (e, k, l, m, n) (refl, links, kbs)
          | inl n ↦ rw (e, k, l, m, n) (refl, links, kbs)
        ]
      ]

-- If a principal may write a base of the tenant and manage a file that is there, then after
-- `attach_file` the principal can read the file, even if its ingestion fails.
pub attach_file-can_read_file :
    {F S Block : Type 0} (tools : Tools F Block) (env : Env) (es : Client F S) (p : Principal)
    (fid kb_id : ℕ) (site : Site F S) (cfg : ParserConfig)
    → may_write_kb env site p kb_id ≡ true
    → can_manage_file env site p fid ≡ true
    → any (λ (k : KbRow). (k.id == kb_id) && (k.tenant_id == p.tenant_id)) site.world.pg.kbs ≡ true
    → any (λ (f : FileRow). f.id == fid) site.world.pg.files ≡ true
    → can_read_file env (attach_file tools env es p fid kb_id cfg site).0 p fid ≡ true
unfolding may_write_kb
attach_file-can_read_file tools env es p fid kb_id site cfg writes manages own there =
    let (auth, links, kbs) = attached tools env es p fid kb_id site cfg writes manages there in
    linked-can_read_file tools env es p fid kb_id site _ auth kbs links (ground (arith, writes)) own
