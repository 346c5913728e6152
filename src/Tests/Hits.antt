-- ===== src/Tests/Hits.antt =====
-- Fingerprints, the guard and the matching of versions at concrete inputs.
use kb_backend.Prelude.{
  ℕ, ◌%◌, ◌≡◌, refl, true, false, not, ◌&&◌, some, none, List, [], ◌∷◌, map, filter, any, lookup,
  ◌==◌, Option,
}
use kb_backend.Prelude.Int.{pos}
use kb_backend.Retrieval.Simhash.{modulus, to_signed, to_unsigned}
use kb_backend.Retrieval.Simhash.Distance.{FitsSigned, to_unsigned-to_signed}
use kb_backend.Retrieval.Guard.{Hit, postverify}
use kb_backend.Retrieval.Guard.Checked.{visible_hit, postverify_lem}
use kb_backend.Ingest.Diff.{
  PrevChunk, NewChunk, match_chunks, old_to_new_map, match_loop, by_hash, map_loop,
}
use kb_backend.Ingest.Diff.Matched.{last_with, continues, old_to_new_map-continues}
use kb_backend.Tests.Purge.{world}

to_unsigned-to_signed_example :
    FitsSigned (to_signed 18446744073709551615)
    × (to_unsigned (to_signed 18446744073709551615) ≡ pos (18446744073709551615 % modulus))
to_unsigned-to_signed_example = to_unsigned-to_signed 18446744073709551615

abbrev hit : ℕ → Option ℕ → Hit
hit chunk_id file_id = record { chunk_id = chunk_id; file_id = file_id; page = 1; content = "t" }

-- of the old and of the new version of a file, and of no file
abbrev hits : List Hit
hits = hit 1 (some 7) ∷ hit 2 (some 7) ∷ hit 2 none ∷ []

postverify_lem_example : postverify world.pg.chunks world.pg.files 1 (7 ∷ []) hits ≡ (
  filter (visible_hit world.pg.chunks world.pg.files 1 (7 ∷ [])) hits,
  map
      (λ h. h.chunk_id)
      (filter (λ h. not (visible_hit world.pg.chunks world.pg.files 1 (7 ∷ []) h)) hits),
)
postverify_lem_example = postverify_lem world.pg.chunks world.pg.files 1 (7 ∷ []) hits

abbrev prev : List PrevChunk
prev = record { id = 1; content_hash = 100 } ∷ record { id = 2; content_hash = 200 } ∷ []

abbrev piece : ℕ → ℕ → NewChunk
piece id hash = record {
  chunk_id = id;
  content_hash = hash;
  content = "text";
  section_path = none;
  page = 1;
  chunk_order = 0;
  simhash = 0;
  skip_summary = false;
}

abbrev new_chunks : List NewChunk
new_chunks = piece 11 200 ∷ piece 12 300 ∷ []

mapped : lookup 2 (old_to_new_map (match_chunks new_chunks prev).0 new_chunks) ≡ some 11
unfolding old_to_new_map match_chunks match_loop by_hash map_loop
mapped = refl

old_to_new_map-continues_example :
    any (λ c. (c.chunk_id == 11) && continues 2 (last_with c.content_hash prev)) new_chunks ≡ true
old_to_new_map-continues_example = old_to_new_map-continues new_chunks prev 2 11 mapped
