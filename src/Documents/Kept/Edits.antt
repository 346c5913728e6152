-- ===== src/Documents/Kept/Edits.antt =====
-- The handlers that start no ingestion keep the tables sound.
use mathlib.Core.List.{map-append, append-nil}
use kb_backend.FileStore.Erased.{purge_cases}
use kb_backend.Es.{Client}
use kb_backend.Documents.Uploads.{upload_to_drive}
use kb_backend.FileStore.{purge_file, purge_rows, delete_file}
use kb_backend.Prelude.Strip.{strip}
use kb_backend.Prelude.Text.{is_text}
use kb_backend.Db.{ParserConfig, Env, FileRow, World}
use kb_backend.Documents.{
  Site, Principal, logged, may_write_kb, can_manage_file, is_set, new_file, Services, Upload,
  file_with_hash, within_quota, method_of,
}
use kb_backend.Prelude.{
  none, some, ℕ, ◌≡◌, refl, inl, inr, Bool, true, false, not, List, map, if◌then◌else◌, Bool-cases,
  String, Option, ◌==◌, ◌&&◌, any, or_else, update_where, ◌∙◌, Option-cases, [], sym, if-cases,
}
use kb_backend.Documents.Library.{
  remove_doc_from_kb, set_parser, is_link, update_doc, rename_file, detach_file, delete_own_file,
}
use kb_backend.Documents.Sound.{
  IsSound, fewer-IsSound, key, keys-update_where, same-IsSound, keys, removed-IsSound,
  file_with_hash-none, added-IsSound,
}

abbrev pub IsSiteSound : {F S : Type 0} → Site F S → Type 0
IsSiteSound site = IsSound site.world.pg

set_parser-keys :
    (fid t : ℕ) (cfg : ParserConfig) (fs : List FileRow)
    → map key (set_parser fid t cfg fs) ≡ map key fs
unfolding set_parser
set_parser-keys fid t cfg fs = keys-update_where _ _ fs (λ f. refl)

pub maybe_set-keys :
    (fid t : ℕ) (b : Bool) (cfg : ParserConfig) (fs : List FileRow)
    → map key (if b then set_parser fid t cfg fs else fs) ≡ map key fs
maybe_set-keys fid t true cfg fs = set_parser-keys fid t cfg fs
maybe_set-keys fid t false cfg fs = refl

abbrev pub option_set : ℕ → ℕ → Option ParserConfig → List FileRow → List FileRow
option_set fid t cfg fs = elim cfg [
  | none ↦ fs
  | some c ↦ if is_set c then set_parser fid t c fs else fs
]

pub option_set-keys :
    (fid t : ℕ) (cfg : Option ParserConfig) (fs : List FileRow)
    → map key (option_set fid t cfg fs) ≡ map key fs
option_set-keys fid t none fs = refl
option_set-keys fid t (some c) fs = maybe_set-keys fid t (is_set c) c fs

module _ {F S : Type 0} (env : Env) (p : Principal) (site : Site F S) (s : IsSiteSound site) where
  pub remove_doc_from_kb-IsSound :
      (kb_id doc_id : ℕ) → IsSiteSound (remove_doc_from_kb env site p kb_id doc_id).0
  unfolding remove_doc_from_kb logged
  remove_doc_from_kb-IsSound kb_id doc_id = elim (Bool-cases (may_write_kb env site p kb_id)) [
    | inl e ↦ rw e (fewer-IsSound site.world.pg _ (λ l. not (is_link doc_id kb_id l)) refl refl s)
    | inr e ↦ rw e s
  ]

  pub update_doc-IsSound :
      (kb_id doc_id : ℕ) (name : String) → IsSiteSound (update_doc env site p kb_id doc_id name).0
  unfolding update_doc
  update_doc-IsSound kb_id doc_id name =
      let pg = site.world.pg in
      let target = λ (f : FileRow).
        ((f.id == doc_id) && (f.tenant_id == p.tenant_id))
        && any (is_link f.id kb_id) pg.file_kbs in
      elim (Bool-cases (may_write_kb env site p kb_id)) [
        | inr e ↦ rw e s
        | inl e ↦ elim (Bool-cases (is_text (strip name))) [
          | inr k ↦ rw (e, k) s
          | inl k ↦ elim (Bool-cases (any target pg.files)) [
            | inr m ↦ rw (e, k, m) s
            | inl m ↦
                rw (e, k, m)
                  (same-IsSound pg _ (keys-update_where target _ pg.files (λ f. refl)) refl s)
          ]
        ]
      ]

  pub rename_file-IsSound :
      (fid : ℕ) (name : Option String) (cfg : ParserConfig)
      → IsSiteSound (rename_file env site p fid name cfg).0
  unfolding rename_file
  rename_file-IsSound fid name cfg =
      let pg = site.world.pg in
      let mine = λ (f : FileRow). (f.id == fid) && (f.tenant_id == p.tenant_id) in
      let named = is_text (or_else name "") in
      let renamed = update_where mine (λ f. record f { name = or_else name "" }) pg.files in
      let kept : (b : Bool) → map key (if b then renamed else pg.files) ≡ keys pg = λ b.
        if-cases (λ fs. map key fs ≡ keys pg) b (keys-update_where mine _ pg.files (λ f. refl))
          refl in
      elim (Bool-cases (can_manage_file env site p fid)) [
        | inr e ↦ rw e s
        | inl e ↦ elim (Bool-cases (not named && not (is_set cfg))) [
          | inl k ↦ rw (e, k) s
          | inr k ↦ elim (Bool-cases (any mine pg.files)) [
            | inr m ↦ rw (e, k, m) s
            | inl m ↦
                rw (e, k, m)
                  (same-IsSound pg _
                    (maybe_set-keys fid p.tenant_id (is_set cfg) cfg _ ∙ kept named) refl s)
          ]
        ]
      ]

  pub detach_file-IsSound : (fid kb_id : ℕ) → IsSiteSound (detach_file env site p fid kb_id).0
  unfolding detach_file logged
  detach_file-IsSound fid kb_id = elim (Bool-cases (may_write_kb env site p kb_id)) [
    | inr e ↦ rw e s
    | inl e ↦ elim (Bool-cases (can_manage_file env site p fid)) [
      | inr k ↦ rw (e, k) s
      | inl k ↦
          rw (e, k)
            (fewer-IsSound site.world.pg _
              (λ l. not (is_link fid kb_id l && (l.tenant_id == p.tenant_id))) refl refl s)
    ]
  ]

purge_file-IsSound :
    {F S : Type 0} (env : Env) (es : Client F S) (period t fid : ℕ) (w : World F S)
    → IsSound w.pg
    → IsSound (purge_file env es period t fid w).0.pg
unfolding purge_rows delete_file
purge_file-IsSound env es period t fid w s = elim (purge_cases period t fid env es w) [
  | inl same ↦ rw same s
  | inr (size, _, same) ↦ rw same (removed-IsSound w.pg _ fid refl refl s)
]

pub delete_own_file-IsSound :
    {F S : Type 0} (env : Env) (es : Client F S) (period : ℕ) (p : Principal) (fid : ℕ)
    (site : Site F S)
    → IsSiteSound site
    → IsSiteSound (delete_own_file env es period p fid site).0
unfolding delete_own_file logged
delete_own_file-IsSound env es period p fid site s =
    let purged = purge_file-IsSound env es period p.tenant_id fid site.world s in
    elim (Bool-cases (can_manage_file env site p fid)) [
      | inr e ↦ rw e s
      | inl e ↦ elim (Bool-cases (purge_file env es period p.tenant_id fid site.world).1) [
        | inr k ↦ rw (e, k) purged
        | inl k ↦ rw (e, k) (same-IsSound _ _ refl refl purged)
      ]
    ]

pub upload_to_drive-IsSound :
    {F S : Type 0} (env : Env) (sv : Services) (p : Principal) (fid : ℕ) (up : Upload)
    (cfg : ParserConfig) (site : Site F S)
    → IsSiteSound site
    → IsSiteSound (upload_to_drive env sv p fid up cfg site).0
unfolding upload_to_drive logged new_file
upload_to_drive-IsSound env sv p fid up cfg site s =
    let pg = site.world.pg in
    elim (Option-cases (file_with_hash p.tenant_id up.content_hash pg.files)) [
      | inr (f, e) ↦ rw (e, upload_to_drive) s
      | inl e ↦
          let fresh = file_with_hash-none p.tenant_id up.content_hash pg.files e in
          elim (Bool-cases (within_quota sv p up.size_bytes site.quotas pg)) [
            | inr k ↦ rw (e, k, upload_to_drive) (same-IsSound pg _ refl refl s)
            | inl k ↦ elim (Bool-cases (sv.put_object (sv.storage_key fid))) [
              | inr m ↦ rw (e, k, m, upload_to_drive) s
              | inl m ↦
                  rw (e, k, m, upload_to_drive)
                    (added-IsSound pg _
                      (new_file env p fid (sv.storage_key fid) up "uploaded" (method_of cfg) cfg) []
                      fresh (map-append key pg.files _) (sym (append-nil pg.file_kbs)) refl s)
            ]
          ]
    ]
