-- ===== src/Documents/Tenants/Edits.antt =====
-- The handlers that start no ingestion leave the files of the other tenants.
use kb_backend.Prelude.{[], ◌∷◌}
use kb_backend.Documents.{may_write_kb, within_quota, file_with_hash, can_manage_file}
use kb_backend.Documents.Tenants.Rows.{others, others-update_where, others-filter, others-append}
use kb_backend.FileStore.Erased.{purge_cases}
use kb_backend.Es.{Client}
use kb_backend.Documents.Uploads.{upload_to_drive}
use kb_backend.FileStore.{purge_rows, delete_file, purge_file}
use kb_backend.Prelude.Strip.{strip}
use kb_backend.Prelude.Text.{is_text}
use kb_backend.Documents.{
  Site, logged, may_write_kb, can_manage_file, is_set, new_file, Services, Upload, file_with_hash,
  within_quota,
}
use kb_backend.Authz.{Principal}
use kb_backend.Documents.Library.{
  is_link, remove_doc_from_kb, update_doc, rename_file, detach_file, delete_own_file,
}
use kb_backend.Db.{FileRow, Env, ParserConfig, World}
use kb_backend.Prelude.{
  ℕ, ◌≤◌, String, ◌≡◌, refl, ◌∙◌, inl, inr, Bool, true, not, ◌&&◌, Option, List, [], ◌∷◌, arith,
  ◌==◌, if◌then◌else◌, Bool-cases, or_else, any, update_where, Option-cases, if-cases,
}
use kb_backend.Prelude.Counts.{count}
use kb_backend.Documents.Library.{set_parser}
use kb_backend.Documents.Requests.{status_of}

pub set_others :
    (t fid : ℕ) (cfg : ParserConfig) (fs : List FileRow)
    → others t (set_parser fid t cfg fs) ≡ others t fs
unfolding set_parser
set_others t fid cfg fs =
    others-update_where t (λ f. (f.id == fid) && (f.tenant_id == t)) _ fs (λ f q. ground (arith, q))
      (λ f. refl)

pub set_status :
    (t fid : ℕ) (cfg : ParserConfig) (fs : List FileRow)
    → status_of fid (set_parser fid t cfg fs) ≡ status_of fid fs
unfolding set_parser
set_status t fid cfg [] = refl
set_status t fid cfg (f ∷ fs) = elim (Bool-cases ((f.id == fid) && (f.tenant_id == t))) [
  | inl e ↦ let own : (f.id == fid) ≡ true = ground (arith, e) in rw (e, own) refl
  | inr e ↦ elim (Bool-cases (f.id == fid)) [
    | inl k ↦ rw (e, k) refl
    | inr k ↦ rw (e, k) (set_status t fid cfg fs)
  ]
]

abbrev pub AreOthersKept : {F S : Type 0} → Principal → Site F S → Site F S → Type 0
AreOthersKept p site site' =
    others p.tenant_id site'.world.pg.files ≡ others p.tenant_id site.world.pg.files

module _ {F S : Type 0} (env : Env) (p : Principal) (site : Site F S) where
  pub remove_others :
      (kb_id doc_id : ℕ) → AreOthersKept p site (remove_doc_from_kb env site p kb_id doc_id).0
  unfolding remove_doc_from_kb logged
  remove_others kb_id doc_id = elim (Bool-cases (may_write_kb env site p kb_id)) [
    | inl e ↦ rw e refl
    | inr e ↦ rw e refl
  ]

  pub detach_others : (fid kb_id : ℕ) → AreOthersKept p site (detach_file env site p fid kb_id).0
  unfolding detach_file logged
  detach_others fid kb_id = elim (Bool-cases (may_write_kb env site p kb_id)) [
    | inr e ↦ rw e refl
    | inl e ↦ elim (Bool-cases (can_manage_file env site p fid)) [
      | inr k ↦ rw (e, k) refl
      | inl k ↦ rw (e, k) refl
    ]
  ]

  pub update_others :
      (kb_id doc_id : ℕ) (name : String)
      → AreOthersKept p site (update_doc env site p kb_id doc_id name).0
  unfolding update_doc
  update_others kb_id doc_id name =
      let pg = site.world.pg in
      let target = λ (f : FileRow).
        ((f.id == doc_id) && (f.tenant_id == p.tenant_id))
        && any (is_link f.id kb_id) pg.file_kbs in
      elim (Bool-cases (may_write_kb env site p kb_id)) [
        | inr e ↦ rw e refl
        | inl e ↦ elim (Bool-cases (is_text (strip name))) [
          | inr k ↦ rw (e, k) refl
          | inl k ↦ elim (Bool-cases (any target pg.files)) [
            | inr m ↦ rw (e, k, m) refl
            | inl m ↦
                rw (e, k, m)
                  (others-update_where p.tenant_id target _ pg.files (λ f q. ground (arith, q))
                    (λ f. refl))
          ]
        ]
      ]

  pub rename_others :
      (fid : ℕ) (name : Option String) (cfg : ParserConfig)
      → AreOthersKept p site (rename_file env site p fid name cfg).0
  unfolding rename_file set_parser
  rename_others fid name cfg =
      let pg = site.world.pg in
      let t = p.tenant_id in
      let mine = λ (f : FileRow). (f.id == fid) && (f.tenant_id == t) in
      let named = is_text (or_else name "") in
      let is_own : (f : FileRow) → mine f ≡ true → f.tenant_id ≡ t = λ f q. ground (arith, q) in
      let files : Bool → List FileRow = λ b.
        if b
        then update_where mine (λ f. record f { name = or_else name "" }) pg.files
        else pg.files in
      let kept : (b : Bool) → others t (files b) ≡ others t pg.files = λ b.
        if-cases (λ fs. others t fs ≡ others t pg.files) b
          (others-update_where t mine _ pg.files is_own (λ f. refl)) refl in
      elim (Bool-cases (can_manage_file env site p fid)) [
        | inr e ↦ rw e refl
        | inl e ↦ elim (Bool-cases (not named && not (is_set cfg))) [
          | inl k ↦ rw (e, k) refl
          | inr k ↦ elim (Bool-cases (any mine pg.files)) [
            | inr m ↦ rw (e, k, m) refl
            | inl m ↦
                rw (e, k, m)
                  (if-cases (λ fs. others t fs ≡ others t pg.files) (is_set cfg)
                    (others-update_where t mine _ (files named) is_own (λ f. refl) ∙ kept named)
                    (kept named))
          ]
        ]
      ]

purge_others :
    {F S : Type 0} (env : Env) (es : Client F S) (period t fid : ℕ) (w : World F S)
    → count (λ f. f.id == fid) w.pg.files ≤ 1
    → others t (purge_file env es period t fid w).0.pg.files ≡ others t w.pg.files
unfolding purge_rows delete_file
purge_others env es period t fid w one = elim (purge_cases period t fid env es w) [
  | inl same ↦ rw same refl
  | inr (size, own, same) ↦ rw same (others-filter t fid w.pg.files one own)
]

pub delete_others :
    {F S : Type 0} (env : Env) (es : Client F S) (period : ℕ) (p : Principal) (fid : ℕ)
    (site : Site F S)
    → count (λ f. f.id == fid) site.world.pg.files ≤ 1
    → AreOthersKept p site (delete_own_file env es period p fid site).0
unfolding delete_own_file logged
delete_others env es period p fid site one =
    let purged = purge_others env es period p.tenant_id fid site.world one in
    elim (Bool-cases (can_manage_file env site p fid)) [
      | inr e ↦ rw e refl
      | inl e ↦ elim (Bool-cases (purge_file env es period p.tenant_id fid site.world).1) [
        | inr k ↦ rw (e, k) purged
        | inl k ↦ rw (e, k) purged
      ]
    ]

pub drive_others :
    {F S : Type 0} (env : Env) (sv : Services) (p : Principal) (fid : ℕ) (up : Upload)
    (cfg : ParserConfig) (site : Site F S)
    → AreOthersKept p site (upload_to_drive env sv p fid up cfg site).0
unfolding upload_to_drive logged new_file
drive_others env sv p fid up cfg site =
    let pg = site.world.pg in
    elim (Option-cases (file_with_hash p.tenant_id up.content_hash pg.files)) [
      | inr (f, e) ↦ rw (e, upload_to_drive) refl
      | inl e ↦ elim (Bool-cases (within_quota sv p up.size_bytes site.quotas pg)) [
        | inr k ↦ rw (e, k, upload_to_drive) refl
        | inl k ↦ elim (Bool-cases (sv.put_object (sv.storage_key fid))) [
          | inr m ↦ rw (e, k, m, upload_to_drive) refl
          | inl m ↦ rw (e, k, m, upload_to_drive) (others-append p.tenant_id pg.files _ refl)
        ]
      ]
    ]
