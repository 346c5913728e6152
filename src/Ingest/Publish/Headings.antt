-- ===== src/Ingest/Publish/Headings.antt =====
-- A summary without a heading.
use kb_backend.Prelude.{
  all, ℕ, ◌+◌, ◌≡◌, refl, inl, inr, Bool, true, not, Option, none, some, List, [], ◌∷◌, arith, ◌==◌,
  Bool-cases, Option-cases, any, find,
}
use kb_backend.Prelude.Text.{is_text, join}
use kb_backend.Es.{Client}
use kb_backend.Db.{FileRow, World, Env}
use kb_backend.Ingest.Diff.{NewChunk}
use kb_backend.Ingest.Sources.{Item, Tools}
use kb_backend.Ingest.Publish.{raised, plan_file, ingest_file}
use kb_backend.Ingest.Stage.{stage_all, fits_column, Plan, stage_item, stage_items, by_id}

-- the heading path of a summary is empty, or joins to the empty text
abbrev pub has_no_heading : {V : Type 0} → Item × V → Bool
has_no_heading (it, vec) = not (is_text (join it.heading_path))

module _ {F Block : Type 0} (tools : Tools F Block) (f : FileRow) (plan : Plan F)
    (d : List (ℕ × NewChunk)) where
  stage_item-none :
      (i : ℕ) (x : Item × Option (List F))
      → has_no_heading x ≡ true
      → stage_item tools f plan d i x ≡ none
  unfolding stage_item
  stage_item-none i (it, vec) h = ground (arith, h)

  stage_items-none :
      (i : ℕ) (xs : List (Item × Option (List F)))
      → any has_no_heading xs ≡ true
      → stage_items tools f plan d i xs ≡ none
  unfolding stage_items
  stage_items-none i [] h = absurd (ground arith)
  stage_items-none i (x ∷ xs) h = elim (Bool-cases (has_no_heading x)) [
    | inl e ↦ rw (stage_items, stage_item-none i x e) refl
    | inr e ↦ elim (Option-cases (stage_item tools f plan d i x)) [
      | inl n ↦ rw (stage_items, n) refl
      | inr (r, s) ↦ rw (stage_items, s, stage_items-none (i + 1) xs (ground (arith, e, h))) refl
    ]
  ]

stage_all-none :
    {F Block : Type 0} (tools : Tools F Block) (f : FileRow) (plan : Plan F)
    → any has_no_heading plan.sources.items ≡ true
    → stage_all tools f plan ≡ none
unfolding stage_all
stage_all-none tools f plan h = elim (Bool-cases (all fits_column plan.chunks)) [
  | inl e ↦ rw e (stage_items-none tools f plan (by_id plan.chunks []) 0 plan.sources.items h)
  | inr e ↦ rw e refl
]

-- If a summary of the new version has no heading, `ingest_file` raises and changes nothing: no part
-- of the version is published, whatever the index answers.
pub ingest_file-no_heading :
    {F S Block : Type 0} (tools : Tools F Block) (env : Env) (es : Client F S) (fid : ℕ)
    (f : FileRow) (plan : Plan F) (w : World F S)
    → find (λ g. g.id == fid) w.pg.files ≡ some f
    → plan_file tools es f w ≡ some plan
    → any has_no_heading plan.sources.items ≡ true
    → ingest_file tools env es fid w ≡ (w, raised)
unfolding ingest_file
ingest_file-no_heading tools env es fid f plan w found planned h =
    rw (ingest_file, found, planned, stage_all-none tools f plan h) refl
