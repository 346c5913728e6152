-- ===== src/Ingest/Chunker/Slides.antt =====
-- The windows over a block that is longer than a chunk.
use kb_backend.Ingest.Chunker.{Setting, starts, step}
use kb_backend.Prelude.{
  ℕ, zero, suc, ◌+◌, ◌≤◌, ◌<◌, ◌≡◌, inl, inr, Bool, true, ◌&&◌, List, arith, ltb, leb, Bool-cases,
  any,
}

module _ (set : Setting) where
  -- Some window holds the token `i`.
  abbrev pub covers : ℕ → List ℕ → Bool
  covers i ss = any (λ s. leb s i && ltb i (s + set.size)) ss

  step_positive : 1 ≤ step set
  unfolding step
  step_positive = ground arith

  starts_cover :
      (fuel n start i : ℕ)
      → step set ≤ set.size
      → n ≤ start + fuel
      → start ≤ i
      → i < n
      → covers i (starts set fuel n start) ≡ true
  unfolding starts
  starts_cover zero n start i small enough from below = absurd (omega (arith, enough, from, below))
  starts_cover (suc fuel) n start i small enough from below =
      elim (Bool-cases (leb (start + step set) i)) [
        | inl e ↦
            let later : covers i (starts set fuel n (start + step set)) ≡ true =
              starts_cover fuel n (start + step set) i small (omega (arith, enough, step_positive))
                (ground (arith, e)) below in
            ground (arith, later, enough, from, below)
        | inr e ↦ ground (arith, e, small, from, below)
      ]

  -- If the window holds a token, and the part of it that is kept is not longer than it, then each of
  -- the `n` tokens of a long block is in one of the windows that the loop finds in `n` turns.
  pub starts_cover_all :
      (n i : ℕ) → 1 ≤ set.size → set.kept ≤ set.size → i < n → covers i (starts set n n 0) ≡ true
  unfolding step
  starts_cover_all n i holds small below =
      starts_cover n n 0 i (ground (arith, holds, small)) (omega arith) (omega arith) below
