-- ===== src/Gc/Batches.antt =====
-- The batches of a deletion cover the ids, in order, and are not too long.
use kb_backend.Prelude.{
  ℕ, zero, suc, ◌-◌, ◌≤◌, ◌<◌, ◌≡◌, refl, ap, ◌∙◌, List, [], ◌∷◌, ◌++◌, arith, length, take, drop,
  length-take, take-append-drop,
}
use kb_backend.Gc.{batches_from, batches}

abbrev pub flatten {ℓ} : {A : Type ℓ} → List (List A) → List A
flatten [] = []
flatten (b ∷ bs) = b ++ flatten bs

abbrev pub AllShort : ℕ → List (List ℕ) → Type 0
AllShort n [] = Unit
AllShort n (b ∷ bs) = (length b ≤ n) × AllShort n bs

length-drop : (n : ℕ) (xs : List ℕ) → length (drop n xs) ≡ length xs - n
length-drop zero xs = omega arith
length-drop (suc n) [] = omega arith
length-drop (suc n) (x ∷ xs) = omega (arith, length-drop n xs)

from-flatten :
    (fuel n : ℕ) (xs : List ℕ)
    → 0 < n
    → length xs ≤ fuel
    → (flatten (batches_from fuel n xs) ≡ xs) × AllShort n (batches_from fuel n xs)
unfolding batches_from
from-flatten zero n [] p h = (refl, tt)
from-flatten zero n (x ∷ xs) p h = absurd (omega arith)
from-flatten (suc fuel) n [] p h = (refl, tt)
from-flatten (suc fuel) n (x ∷ xs) p h =
    let rest = from-flatten fuel n (drop n (x ∷ xs)) p (omega (arith, length-drop n (x ∷ xs))) in
    (
      ap (λ r. take n (x ∷ xs) ++ r) rest.0 ∙ take-append-drop n (x ∷ xs),
      (length-take n (x ∷ xs), rest.1),
    )

-- Cut into batches of a positive length, the ids are all there, in their order, and no batch is
-- longer than asked.
pub flatten-batches :
    (n : ℕ) (xs : List ℕ) → 0 < n → (flatten (batches n xs) ≡ xs) × AllShort n (batches n xs)
unfolding batches
flatten-batches n xs p = from-flatten (length xs) n xs p (omega arith)
