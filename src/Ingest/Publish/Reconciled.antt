-- ===== src/Ingest/Publish/Reconciled.antt =====
-- After an ingestion the reconciliation has nothing to report.
use kb_backend.Ingest.Publish.Atomic.{find-id}
use mathlib.Core.Path.{subst}
use kb_backend.Prelude.{
  [], ℕ, ◌≡◌, refl, ◌∙◌, true, not, ◌||◌, some, List, ◌++◌, map, ltb, ◌==◌, all, contains, lookup,
  find, update_where, arith, ◌∷◌, Bool-cases, inl, inr, ◌+◌, >>=_some, ap, sym,
}
use kb_backend.Es.{Doc, Store, fake_es, Client}
use kb_backend.Relay.{pending_count}
use kb_backend.Relay.Drain.{AllKnown}
use kb_backend.Db.{FileRow, World, Env}
use kb_backend.Ingest.Build.Vectors.{firsts, build_sources-firsts}
use kb_backend.Ingest.Stage.{stage_all, Plan, StagedItem, stage_rows}
use kb_backend.Ingest.Publish.{
  flip_file, flip, old_ids, staged, publish_flip, plan_file, Tools, max_version, resolve_parse_cfg,
  ingest_file, text_or, new_chunks_of, build_sources,
}
use kb_backend.Ingest.Publish.Indexed.{publish_flip_index, indexed, flipped, staged_index}
use kb_backend.Ingest.Publish.Succeeds.{
  is_of, staged-old_ids, stage_all_lem, reaches_publish, reaches_flip,
}
use kb_backend.Ingest.Publish.Agrees.{disjoint}
use kb_backend.Ingest.Publish.Clean.{Holds, chunks_agree, summaries_agree, listed_docs}
use kb_backend.Reconcile.{is_shown, classify}
use kb_backend.Reconcile.Agreement.{is_clean, is_clean-classify}

-- The tables and the index of a file before its ingestion: nothing is pending, the rows of the file
-- are of earlier versions, and what the index shows of the file is among them.
pub record IsSettled {F : Type 0} (f : FileRow) (target : ℕ) (w : World F (Store F)) : Type 0 where
  pub known : AllKnown w.pg.outbox
  pub idle : pending_count (some f.id) w.pg.outbox ≡ 0
  pub chunks : all (λ c. not (c.file_id == f.id) || ltb c.chunk_version target) w.pg.chunks ≡ true
  pub summaries :
      all (λ x. not (x.file_id == f.id) || ltb x.summary_version target) w.pg.summaries ≡ true
  pub shown :
      (j : ℕ) (d : Doc F)
      → lookup j w.es ≡ some d
      → is_shown f.id f.tenant_id d ≡ true
      → contains (old_ids f target w.pg) j ≡ true

module _ {F : Type 0} (env : Env) (f : FileRow) (plan : Plan F) (items : List (StagedItem F))
    (w : World F (Store F)) (settled : IsSettled f plan.target w) where
  flip-is_clean :
      (ds : List (ℕ × Doc F))
      → firsts plan.sources.chunks ≡ plan.chunks
      → all (is_of f plan.target) (map (λ r. r.summary) items) ≡ true
      → disjoint (map (λ c. c.chunk_id) plan.chunks) (map (λ r. r.summary.id) items) ≡ true
      → disjoint
          (map (λ c. c.chunk_id) plan.chunks ++ map (λ r. r.summary.id) items)
          (old_ids f plan.target w.pg)
        ≡ true
      → let w' = publish_flip env fake_es f plan items (staged env fake_es f plan items w) in
        Holds w'.es ds
        → is_clean
            (classify fake_es w'.es ds f.id f.tenant_id (flip_file plan.target plan.blocks f) w'.pg)
          ≡ true
  unfolding publish_flip staged stage_rows flip flip_file
  flip-is_clean ds same of_version separate apart held =
      let w' = publish_flip env fake_es f plan items (staged env fake_es f plan items w) in
      let known = settled.known in
      let (_, _, flips) = publish_flip_index env f plan items w known in
      let seen : (j : ℕ)
          → lookup j w'.es
            ≡ flipped (map (λ c. c.chunk_id) plan.chunks ++ map (λ r. r.summary.id) items)
                (old_ids f plan.target w.pg) j (indexed env f plan items w known j) =
        λ j. flips j ∙ rw (staged-old_ids f plan items env w of_version) refl in
      is_clean-classify fake_es w'.es ds f.id f.tenant_id (flip_file plan.target plan.blocks f)
        w'.pg
      ∙ rw
          (
            chunks_agree env f plan items w known w'.es seen apart same separate settled.chunks,
            summaries_agree env f plan items w known w'.es seen apart settled.summaries,
            listed_docs env f plan items w known w'.es seen apart ds same settled.idle of_version
                settled.shown held,
          )
          refl

flipped_found :
    (fid target blocks : ℕ) (fs : List FileRow) (f : FileRow)
    → find (λ g. g.id == fid) fs ≡ some f
    → find (λ g. g.id == fid) (update_where (λ g. g.id == fid) (flip_file target blocks) fs)
      ≡ some (flip_file target blocks f)
unfolding flip_file
flipped_found fid target blocks [] f h = absurd (ground (arith, h))
flipped_found fid target blocks (g ∷ gs) f h = elim (Bool-cases (g.id == fid)) [
  | inl e ↦
      let same : g ≡ f = ground (arith, h, e) in
      let own : (f.id == fid) ≡ true = ap (λ x. x.id == fid) (sym same) ∙ e in
      rw (e, same, own) refl
  | inr e ↦ rw (e, e) (flipped_found fid target blocks gs f (ground (arith, h, e)))
]

plan-firsts :
    {F S Block : Type 0} (tools : Tools F Block) (es : Client F S) (f : FileRow) (w : World F S)
    (plan : Plan F)
    → plan_file tools es f w ≡ some plan
    → firsts plan.sources.chunks ≡ plan.chunks
unfolding plan_file
plan-firsts tools es f w plan h =
    let target = max_version w.pg.versions f.id + 1 in
    let (method, pcfg) = resolve_parse_cfg w.pg f in
    let layout = text_or pcfg.layout_recognize "plaintext" in
    let (bytes, e, h1) = >>=_some (tools.read_file_bytes f.storage_key) _ plan h in
    let (blocks, e1, h2) = >>=_some (tools.parse_bytes bytes f.mime f.name layout) _ plan h1 in
    let cs = new_chunks_of tools f.id target blocks method pcfg in
    let (sources, e2, h3) = >>=_some (build_sources tools es w f target cs) _ plan h2 in
    ground (arith, h3, build_sources-firsts tools es w f target cs sources e2)

-- The conclusion, as a statement about the tables and the index that are left.
abbrev CleanAt :
    {F : Type 0} → ℕ → FileRow → FileRow → List (ℕ × Doc F) → World F (Store F) → Type 0
CleanAt fid f g ds w =
    find (λ g. g.id == fid) w.pg.files ≡ some g
    → Holds w.es ds
    → is_clean (classify fake_es w.es ds fid f.tenant_id g w.pg) ≡ true

module _ {F Block : Type 0} (tools : Tools F Block) (env : Env) (f g : FileRow) (plan : Plan F)
    (items : List (StagedItem F)) (w : World F (Store F)) (ds : List (ℕ × Doc F))
    (settled : IsSettled f plan.target w) (planned : plan_file tools fake_es f w ≡ some plan)
    (made : stage_all tools f plan ≡ some items)
    (separate : disjoint (map (λ c. c.chunk_id) plan.chunks) (map (λ r. r.summary.id) items) ≡ true)
    (apart : disjoint
        (map (λ c. c.chunk_id) plan.chunks ++ map (λ r. r.summary.id) items)
        (old_ids f plan.target w.pg)
      ≡ true) where
  flip-CleanAt :
      find (λ g. g.id == f.id) w.pg.files ≡ some f
      → CleanAt f.id f g ds
          (publish_flip env fake_es f plan items (staged env fake_es f plan items w))
  flip-CleanAt found found' held =
      let there : find (λ g. g.id == f.id)
            (publish_flip env fake_es f plan items (staged env fake_es f plan items w)).pg.files
          ≡ some (flip_file plan.target plan.blocks f) =
        unfold publish_flip staged stage_rows flip in
        flipped_found f.id plan.target plan.blocks w.pg.files f found in
      let same : flip_file plan.target plan.blocks f ≡ g = ground (arith, there, found') in
      rw (← same) (
        flip-is_clean env f plan items w settled ds (plan-firsts tools fake_es f w plan planned)
          (stage_all_lem tools f plan items made) separate apart held)

  own-CleanAt :
      find (λ g. g.id == f.id) w.pg.files ≡ some f
      → CleanAt f.id f g ds (ingest_file tools env fake_es f.id w).0
  own-CleanAt found =
      let (idle, _, _) = staged_index env f plan items w settled.known in
      subst (CleanAt f.id f g ds)
        (sym (
          ap (λ r. r.0)
            (reaches_publish tools env fake_es f.id f plan items w found planned made
              ∙ reaches_flip env fake_es f plan items w idle)))
        (flip-CleanAt found)

-- Over the in-memory index: if a file is settled before its ingestion (its outbox events are
-- published and known, its rows are of versions before the new one, and what the index shows of it
-- is among their documents), the services answer, the rows can be inserted, and the ids
-- of the new chunks, of the new summaries and of the earlier rows are different, then after
-- `ingest_file` the comparison of the file with any list of documents that the index holds reports
-- nothing.
pub ingest_file-is_clean :
    {F Block : Type 0} (tools : Tools F Block) (env : Env) (fid : ℕ) (f g : FileRow) (plan : Plan F)
    (items : List (StagedItem F)) (w : World F (Store F)) (ds : List (ℕ × Doc F))
    → IsSettled f plan.target w
    → find (λ g. g.id == fid) w.pg.files ≡ some f
    → plan_file tools fake_es f w ≡ some plan
    → stage_all tools f plan ≡ some items
    → disjoint (map (λ c. c.chunk_id) plan.chunks) (map (λ r. r.summary.id) items) ≡ true
    → disjoint
        (map (λ c. c.chunk_id) plan.chunks ++ map (λ r. r.summary.id) items)
        (old_ids f plan.target w.pg)
      ≡ true
    → find (λ g. g.id == fid) (ingest_file tools env fake_es fid w).0.pg.files ≡ some g
    → Holds (ingest_file tools env fake_es fid w).0.es ds
    → let (w', _) = ingest_file tools env fake_es fid w in
      is_clean (classify fake_es w'.es ds fid f.tenant_id g w'.pg) ≡ true
ingest_file-is_clean tools env fid f g plan items w ds settled found planned made separate apart
      found' held =
    let named : f.id ≡ fid = find-id fid w.pg.files f found in
    subst
      (λ k.
        find (λ g. g.id == k) w.pg.files ≡ some f
        → CleanAt k f g ds (ingest_file tools env fake_es k w).0)
      named (own-CleanAt tools env f g plan items w ds settled planned made separate apart) found
      found' held
