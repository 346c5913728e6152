-- ===== src/Tests/Ingestion.antt =====
-- Ingestions at concrete inputs.
use kb_backend.Reconcile.Agreement.{is_clean}
use kb_backend.Ingest.Publish.Clean.{Holds}
use kb_backend.Ingest.Publish.Reconciled.{IsSettled, ingest_file-is_clean}
use kb_backend.Reconcile.{is_shown, classify}
use kb_backend.Prelude.Text.{join}
use kb_backend.Ingest.Publish.Succeeds.{has_earlier, ingest_file_succeeds}
use kb_backend.Ingest.Publish.Indexed.{indexed}
use kb_backend.Relay.{
  pending_count, drain, drain_rows, is_pending, drain_row, publish, publish_available,
}
use kb_backend.Ingest.Publish.Headings.{ingest_file-no_heading, has_no_heading}
use kb_backend.Ingest.Publish.Atomic.{IsAtomic, ingest_file-IsAtomic}
use kb_backend.Ingest.Diff.{match_chunks}
use kb_backend.Ingest.Publish.Aligned.{IsAligned, ingest_file-IsAligned}
use kb_backend.Prelude.{
  contains, if◌then◌else◌, ℕ, ◌+◌, ◌*◌, String, ◌≡◌, refl, true, false, none, some, List, [], ◌∷◌,
  map, ◌==◌, ◌++◌, lookup, any, find, arith,
}
use kb_backend.Es.{Store, fake_es, empty_doc, Doc, fake_index, fake_get}
use kb_backend.Db.{FileRow, World}
use kb_backend.Ingest.Sources.{Piece, Tools, new_chunks_of}
use kb_backend.Ingest.Build.{build_sources}
use kb_backend.Ingest.Publish.{
  plan_file, ingest_file, raised, done, report, old_ids, publish_plan, staged, publish_flip,
}
use kb_backend.Relay.Effects.{marked}
use kb_backend.Ingest.Stage.{
  stage_all, fits_column, Plan, stage_items, max_version, by_id, StagedItem,
}
use kb_backend.Tests.Outbox.{update_rows, update_rows-AllKnown}
use kb_backend.Tests.Purge.{file, chunk, world, env}

-- two chunks, and one summary of the first under the given heading
abbrev tools : List String → Tools ℕ ℕ
tools heading =
    let piece : String → ℕ → Piece = λ text order. record {
      content = text;
      section_path = none;
      page = 1;
      chunk_order = order;
      skip_summary = false;
    } in
    record {
      read_file_bytes = λ key. some (1 ∷ []);
      parse_bytes = λ bytes mime name layout. some (1 ∷ []);
      chunk = λ method blocks cfg. piece "alpha" 0 ∷ piece "beta" 1 ∷ [];
      uuid5 = λ fid version order. 1000 * version + order;
      uuid4 = λ i. 500 + i;
      sha256 = λ s. 200;
      simhash = λ s. 5;
      embed_batch = λ texts. some (map (λ t. 1 ∷ []) texts);
      summarize_file = λ cs. some (
          record { summary_text = "sum"; source_chunk_ids = 3000 ∷ []; heading_path = heading }
          ∷ []);
      ratio = λ a b. a;
      nought = 0;
      is_small = λ r. r == 0;
    }

-- the file has a published version 2, and events of an update are still pending
abbrev before : World ℕ (Store ℕ)
before = record world {
  pg = record world.pg {
    files = record file { summary_enabled = true } ∷ [];
    chunks = chunk 2 2 ∷ [];
    versions =
        record {
          file_id = 7;
          doc_version = 2;
          chunk_version = 2;
          summary_version = 2;
          anchor_version = 2;
        }
        ∷ [];
    outbox = update_rows;
  };
}

abbrev pub good : Tools ℕ ℕ
good = tools ("a" ∷ [])

abbrev the_file : FileRow
the_file = record file { summary_enabled = true }

planned : (plan : Plan ℕ) × (plan_file good fake_es the_file before ≡ some plan)
unfolding plan_file build_sources new_chunks_of match_chunks
planned = (_, refl)

made : (items : List (StagedItem ℕ)) × (stage_all good the_file planned.0 ≡ some items)
unfolding planned stage_all stage_items by_id join fits_column
made = (_, refl)

ingest_file-IsAtomic_example :
    let (w', e) = ingest_file good env fake_es 7 before in IsAtomic 7 before.pg w'.pg e
ingest_file-IsAtomic_example = ingest_file-IsAtomic good env fake_es 7 before

before-IsAligned : IsAligned before.pg
unfolding max_version
before-IsAligned = refl

ingest_file-IsAligned_example : IsAligned (ingest_file good env fake_es 7 before).0.pg
ingest_file-IsAligned_example = ingest_file-IsAligned good env fake_es 7 before before-IsAligned

ingest_file_succeeds_example :
    let (w', e) = ingest_file good env fake_es 7 before in
    let new_ids = map (λ c. c.chunk_id) planned.0.chunks ++ map (λ r. r.summary.id) made.0 in
    (e ≡ done (report the_file planned.0))
    × (pending_count (some 7) w'.pg.outbox ≡ 0)
    × ((j : ℕ)
        → lookup j w'.es ≡ (
            let o = indexed env the_file planned.0 made.0 before update_rows-AllKnown j in
            if has_earlier 7 planned.0.target before.pg j
            then some (marked 0 o)
            else if contains new_ids j
            then some (marked 1 o)
            else o))
ingest_file_succeeds_example =
    ingest_file_succeeds good env 7 the_file planned.0 made.0 before update_rows-AllKnown refl
      planned.1 made.1

-- the summary has no heading
abbrev bad : Tools ℕ ℕ
bad = tools []

bad_planned : (plan : Plan ℕ) × (plan_file bad fake_es the_file before ≡ some plan)
unfolding plan_file build_sources new_chunks_of match_chunks
bad_planned = (_, refl)

headless : any has_no_heading bad_planned.0.sources.items ≡ true
unfolding bad_planned join
headless = refl

ingest_file-no_heading_example : ingest_file bad env fake_es 7 before ≡ (before, raised)
ingest_file-no_heading_example =
    ingest_file-no_heading bad env fake_es 7 the_file bad_planned.0 before refl bad_planned.1
      headless

-- the file with nothing pending, its published chunk visible in the index
abbrev calm : World ℕ (Store ℕ)
calm = record before {
  pg = record before.pg { outbox = [] };
  es =
      (
        2,
        record empty_doc {
          file_id_kwd = some 7;
          tenant_id_kwd = some 1;
          chunk_version_int = some 2;
          available_int = some 1;
        },
      )
      ∷ [];
}

calm_planned : (plan : Plan ℕ) × (plan_file good fake_es the_file calm ≡ some plan)
unfolding plan_file build_sources new_chunks_of match_chunks
calm_planned = (_, refl)

calm_made : (items : List (StagedItem ℕ)) × (stage_all good the_file calm_planned.0 ≡ some items)
unfolding calm_planned stage_all stage_items by_id join fits_column
calm_made = (_, refl)

calm-IsSettled : IsSettled the_file calm_planned.0.target calm
unfolding calm_planned pending_count old_ids is_shown
calm-IsSettled = record {
  known = tt;
  idle = refl;
  chunks = refl;
  summaries = refl;
  shown = λ j d h s. ground (arith, h);
}

afterwards :
    (g : FileRow) × (ds : List (ℕ × Doc ℕ)) × (find
        (λ g. g.id == 7)
        (ingest_file good env fake_es 7 calm).0.pg.files
      ≡ some g)
    × Holds (ingest_file good env fake_es 7 calm).0.es ds
unfolding ingest_file plan_file build_sources new_chunks_of match_chunks stage_all fits_column
    stage_items join publish_plan pending_count staged drain drain_rows is_pending drain_row publish
    fake_index publish_flip publish_available fake_get
afterwards =
    (_, (2, _) ∷ (3000, _) ∷ (3001, _) ∷ (500, _) ∷ [], refl, (refl, (refl, (refl, (refl, tt)))))

ingest_file-is_clean_example :
    is_clean (
      classify fake_es
        (ingest_file good env fake_es 7 calm).0.es
        afterwards.1
        7
        1
        afterwards.0
        (ingest_file good env fake_es 7 calm).0.pg)
    ≡ true
ingest_file-is_clean_example =
    ingest_file-is_clean good env 7 the_file afterwards.0 calm_planned.0 calm_made.0 calm
      afterwards.1 calm-IsSettled refl calm_planned.1 calm_made.1
      (unfold calm_planned calm_made in refl) (unfold calm_planned calm_made old_ids in refl)
      afterwards.2 afterwards.3
