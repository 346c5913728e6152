-- ===== src/Reconcile/Sent.antt =====
-- The documents that a repair sends again.
use kb_backend.Prelude.Text.{is_text}
use kb_backend.Reconcile.{Drift, active_chunks, chunks_of, active_summaries, summaries_of}
use kb_backend.Ingest.Publish.Agrees.{is_at, fits_test, absent-fits}
use kb_backend.Db.{ChunkRow, SummaryRow, FileRow, Pg}
use kb_backend.Es.{Doc}
use kb_backend.Ingest.Build.Vectors.{firsts}
use kb_backend.Reconcile.Repair.{
  rows_of, rows_to_send, zip, chunks_again, summaries_again, republish_chunks, republish_summaries,
  republish,
}
use kb_backend.Prelude.{
  ℕ, String, ◌≡◌, refl, sym, ap, ◌∙◌, inl, inr, Bool, true, false, ◌||◌, Option, some, List, [],
  ◌∷◌, ◌++◌, map, arith, ◌==◌, ==_iff, Bool-cases, Option-cases, opt_eq, length, filter, any, all,
  contains, find, nonempty, any-append, filter-all, all-append,
}

length-map : {A B : Type 0} (g : A → B) (xs : List A) → length (map g xs) ≡ length xs
length-map g [] = refl
length-map g (x ∷ xs) = ground (arith, length-map g xs)

empty_none : (ids : List ℕ) (j : ℕ) → nonempty ids ≡ false → contains ids j ≡ false
empty_none [] j h = refl
empty_none (i ∷ is) j h = absurd (ground (arith, h))

module _ {A : Type 0} (key : A → ℕ) where
  found_row :
      (i : ℕ) (rows : List A)
      → contains (map key rows) i ≡ true
      → (r : A) × (find (λ r. key r == i) rows ≡ some r) × (key r ≡ i)
  found_row i [] h = absurd (ground (arith, h))
  found_row i (r ∷ rs) h = elim (Bool-cases (key r == i)) [
    | inl e ↦ (r, rw e refl, (==_iff (key r) i).0 e)
    | inr e ↦ rw e (found_row i rs (ground (arith, h, e)))
  ]

  find-all :
      (p q : A → Bool) (rows : List A) (r : A)
      → all p rows ≡ true
      → find q rows ≡ some r
      → p r ≡ true
  find-all p q [] r h e = absurd (ground (arith, e))
  find-all p q (x ∷ xs) r h e = elim (Bool-cases (q x)) [
    | inl t ↦ let same : x ≡ r = ground (arith, e, t) in rw (← same) (ground (arith, h))
    | inr t ↦ find-all p q xs r (ground (arith, h)) (ground (arith, e, t))
  ]

  -- every id asked for is found
  rows_of-ids :
      (ids : List ℕ) (rows : List A)
      → all (contains (map key rows)) ids ≡ true
      → map key (rows_of key ids rows) ≡ ids
  unfolding rows_of
  rows_of-ids [] rows h = refl
  rows_of-ids (i ∷ is) rows h =
      let (r, found, same) = found_row i rows (ground (arith, h)) in
      rw (rows_of, found, rows_of-ids is rows (ground (arith, h)), same) refl

  rows_of-all :
      (p : A → Bool) (ids : List ℕ) (rows : List A)
      → all p rows ≡ true
      → all p (rows_of key ids rows) ≡ true
  unfolding rows_of
  rows_of-all p [] rows h = refl
  rows_of-all p (i ∷ is) rows h = elim (Option-cases (find (λ r. key r == i) rows)) [
    | inl e ↦ rw (rows_of, e) (rows_of-all p is rows h)
    | inr (r, e) ↦
        rw (rows_of, e) rw (find-all p (λ r. key r == i) rows r h e, rows_of-all p is rows h) refl
  ]

  -- so the table is not read again
  rows_to_send_lem :
      (ids : List ℕ) (rows all_rows : List A)
      → all (contains (map key rows)) ids ≡ true
      → rows_to_send key ids rows all_rows ≡ rows_of key ids rows
  unfolding rows_to_send
  rows_to_send_lem ids rows all_rows h =
      let sent = rows_of key ids rows in
      let enough : length sent ≡ length ids =
        sym (length-map key sent) ∙ ap length (rows_of-ids ids rows h) in
      ground (arith, enough)

filter_holds : {A : Type 0} (p : A → Bool) (xs : List A) → all p (filter p xs) ≡ true
filter_holds p [] = refl
filter_holds p (x ∷ xs) = ground (arith, filter_holds p xs)

zip-firsts :
    {A B : Type 0} (xs : List A) (ys : List B) → length ys ≡ length xs → firsts (zip xs ys) ≡ xs
zip-firsts [] ys h = refl
zip-firsts (x ∷ xs) [] h = absurd (omega (arith, h))
zip-firsts (x ∷ xs) (y ∷ ys) h = rw (zip-firsts xs ys (omega (arith, h))) refl

abbrev pub shows : {F : Type 0} → Doc F → Bool
shows d = opt_eq d.available_int (some 1)

abbrev pub has_version : {F : Type 0} → Option ℕ → Doc F → Bool
has_version active d = opt_eq d.chunk_version_int active

module _ {F : Type 0} (fid tenant_id j : ℕ) where
  chunks_again-keys :
      (cs : List (ChunkRow × List F))
      → any (is_at j) (chunks_again fid tenant_id cs) ≡ contains (map (λ c. c.id) (firsts cs)) j
  unfolding chunks_again
  chunks_again-keys [] = refl
  chunks_again-keys ((c, v) ∷ cs) = ground (arith, chunks_again-keys cs)

  chunks_again-shows :
      (cs : List (ChunkRow × List F))
      → all (fits_test shows j) (chunks_again fid tenant_id cs) ≡ true
  unfolding chunks_again
  chunks_again-shows [] = refl
  chunks_again-shows ((c, v) ∷ cs) = ground (arith, chunks_again-shows cs)

  chunks_again-versions :
      (active : Option ℕ) (cs : List (ChunkRow × List F))
      → all (λ (c : ChunkRow). opt_eq (some c.chunk_version) active) (firsts cs) ≡ true
      → all (fits_test (has_version active) j) (chunks_again fid tenant_id cs) ≡ true
  unfolding chunks_again
  chunks_again-versions active [] h = refl
  chunks_again-versions active ((c, v) ∷ cs) h = ground (arith, h, chunks_again-versions active cs)

  summaries_again-keys :
      (xs : List (SummaryRow F × List F))
      → any (is_at j) (summaries_again fid tenant_id xs) ≡ contains (map (λ x. x.id) (firsts xs)) j
  unfolding summaries_again
  summaries_again-keys [] = refl
  summaries_again-keys ((x, v) ∷ xs) = ground (arith, summaries_again-keys xs)

  summaries_again-shows :
      (xs : List (SummaryRow F × List F))
      → all (fits_test shows j) (summaries_again fid tenant_id xs) ≡ true
  unfolding summaries_again
  summaries_again-shows [] = refl
  summaries_again-shows ((x, v) ∷ xs) = ground (arith, summaries_again-shows xs)

-- What a repair sends: under which ids, and what the documents say.
pub record IsResent {F : Type 0} (active : Option ℕ) (chunk_ids summary_ids : List ℕ) (j : ℕ)
    (again : List (ℕ × Doc F)) : Type 0 where
  pub keys : any (is_at j) again ≡ (contains chunk_ids j || contains summary_ids j)
  pub visible : all (fits_test shows j) again ≡ true
  pub current : contains summary_ids j ≡ false → all (fits_test (has_version active) j) again ≡ true

module _ {F : Type 0} (embed_batch : List String → Option (List (List F)))
    (answers : (ts : List String)
      → (vecs : List (List F)) × (embed_batch ts ≡ some vecs) × (length vecs ≡ length ts))
    (fid tenant_id : ℕ) (f : FileRow) (pg : Pg F) (d : Drift) where
  abbrev rebuilt_ids : List ℕ
  rebuilt_ids = d.missing_chunks ++ d.version_drift_chunks

  abbrev is_active : ChunkRow → Bool
  is_active c = opt_eq (some c.chunk_version) f.active_chunk_version

  republish_chunks_lem :
      all (contains (map (λ c. c.id) (active_chunks f fid tenant_id pg))) rebuilt_ids ≡ true
      → (again : List (ℕ × Doc F)) × (republish_chunks embed_batch fid tenant_id f pg d
          ≡ some again)
        × ((j : ℕ) → IsResent f.active_chunk_version rebuilt_ids [] j again)
  unfolding republish_chunks
  republish_chunks_lem h =
      let cs = active_chunks f fid tenant_id pg in
      let key : ChunkRow → ℕ = λ c. c.id in
      let rows = rows_to_send key rebuilt_ids cs (chunks_of fid tenant_id pg) in
      let (vecs, e, n) = answers (map (λ c. c.content) rows) in
      let found : rows ≡ rows_of key rebuilt_ids cs =
        rows_to_send_lem key rebuilt_ids cs (chunks_of fid tenant_id pg) h in
      let all_rows : firsts (zip rows vecs) ≡ rows =
        zip-firsts rows vecs (n ∙ length-map (λ c. c.content) rows) in
      let same = all_rows ∙ found in
      elim (Bool-cases (nonempty rebuilt_ids)) [
        | inl more ↦ (
          chunks_again fid tenant_id (zip rows vecs),
          rw (more, e) refl,
          λ j. record {
            keys =
                chunks_again-keys fid tenant_id j (zip rows vecs)
                ∙ ap (λ xs. contains (map key xs) j) same
                ∙ rw (rows_of-ids key rebuilt_ids cs h) (ground arith);
            visible = chunks_again-shows fid tenant_id j (zip rows vecs);
            current = λ _.
                chunks_again-versions fid tenant_id j f.active_chunk_version (zip rows vecs) (
                  ap (all is_active) same
                  ∙ rows_of-all key is_active rebuilt_ids cs
                      (filter_holds is_active (chunks_of fid tenant_id pg)));
          },
        )
        | inr none_lost ↦ (
          [],
          rw none_lost refl,
          λ j. record {
            keys = sym (rw (empty_none rebuilt_ids j none_lost) refl);
            visible = refl;
            current = λ _. refl;
          },
        )
      ]

  republish_summaries_lem :
      all (contains (map (λ x. x.id) (active_summaries f fid tenant_id pg))) d.missing_summaries
        ≡ true
      → all (λ x. is_text x.summary_text) (active_summaries f fid tenant_id pg) ≡ true
      → (again : List (ℕ × Doc F)) × (republish_summaries embed_batch fid tenant_id f pg d
          ≡ some again)
        × ((j : ℕ) → IsResent f.active_chunk_version [] d.missing_summaries j again)
  unfolding republish_summaries
  republish_summaries_lem h texts =
      let xs = active_summaries f fid tenant_id pg in
      let ids = d.missing_summaries in
      let key : SummaryRow F → ℕ = λ x. x.id in
      let has : SummaryRow F → Bool = λ x. is_text x.summary_text in
      let rows = rows_to_send key ids xs (summaries_of fid tenant_id pg) in
      let with_text = filter has rows in
      let (vecs, e, n) = answers (map (λ x. x.summary_text) with_text) in
      let found : rows ≡ rows_of key ids xs =
        rows_to_send_lem key ids xs (summaries_of fid tenant_id pg) h in
      let kept : with_text ≡ rows =
        filter-all has rows (ap (all has) found ∙ rows_of-all key has ids xs texts) in
      let same : firsts (zip with_text vecs) ≡ rows_of key ids xs =
        zip-firsts with_text vecs (n ∙ length-map (λ x. x.summary_text) with_text) ∙ kept ∙ found in
      let again = summaries_again fid tenant_id (zip with_text vecs) in
      let keys : (j : ℕ) → any (is_at j) again ≡ contains ids j = λ j.
        summaries_again-keys fid tenant_id j (zip with_text vecs)
        ∙ ap (λ ys. contains (map key ys) j) same
        ∙ ap (λ is. contains is j) (rows_of-ids key ids xs h) in
      elim (Bool-cases (nonempty ids)) [
        | inl more ↦ (
          again,
          rw (more, e) refl,
          λ j. record {
            keys = keys j;
            visible = summaries_again-shows fid tenant_id j (zip with_text vecs);
            current =
                λ other. absent-fits j (has_version f.active_chunk_version) again (keys j ∙ other);
          },
        )
        | inr none_lost ↦ (
          [],
          rw none_lost refl,
          λ j. record {
            keys = sym (rw (empty_none ids j none_lost) refl);
            visible = refl;
            current = λ _. refl;
          },
        )
      ]

  -- A repair sends a visible document for each row whose document is missing or has drifted, and
  -- nothing else.
  pub republish_lem :
      all (contains (map (λ c. c.id) (active_chunks f fid tenant_id pg))) rebuilt_ids ≡ true
      → all (contains (map (λ x. x.id) (active_summaries f fid tenant_id pg))) d.missing_summaries
        ≡ true
      → all (λ x. is_text x.summary_text) (active_summaries f fid tenant_id pg) ≡ true
      → (again : List (ℕ × Doc F)) × (republish embed_batch fid tenant_id f pg d ≡ some again)
        × ((j : ℕ) → IsResent f.active_chunk_version rebuilt_ids d.missing_summaries j again)
  unfolding republish
  republish_lem h k texts =
      let (cs, e, c) = republish_chunks_lem h in
      let (xs, e', x) = republish_summaries_lem k texts in
      (
        cs ++ xs,
        rw (e, e') refl,
        λ j. record {
          keys = any-append (is_at j) cs xs ∙ rw ((c j).keys, (x j).keys) (ground arith);
          visible = all-append (fits_test shows j) cs xs (c j).visible (x j).visible;
          current = λ other.
              all-append (fits_test (has_version f.active_chunk_version) j) cs xs
                ((c j).current refl) ((x j).current other);
        },
      )
