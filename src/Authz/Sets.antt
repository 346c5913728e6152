-- ===== src/Authz/Sets.antt =====
-- A Python set of ids, kept in order: `sorted(s)` is the list itself.
use kb_backend.Prelude.{
  ℕ, ◌<◌, ◌≡◌, refl, ◌||◌, Option, none, some, List, [], ◌∷◌, arith, ltb, ◌==◌, if◌then◌else◌,
  contains,
}

unfoldable pub set_add : ℕ → List ℕ → List ℕ
set_add a [] = a ∷ []
set_add a (x ∷ xs) = if a == x then x ∷ xs else if ltb a x then a ∷ x ∷ xs else x ∷ set_add a xs

pub contains-set_add :
    (a b : ℕ) (xs : List ℕ) → contains (set_add a xs) b ≡ ((a == b) || contains xs b)
unfolding set_add
contains-set_add a b [] = refl
contains-set_add a b (x ∷ xs) = ground (arith, contains-set_add a b xs)

-- Strictly ascending.
abbrev pub IsSortedFrom : Option ℕ → List ℕ → Type 0
IsSortedFrom low [] = Unit
IsSortedFrom none (x ∷ xs) = IsSortedFrom (some x) xs
IsSortedFrom (some low) (x ∷ xs) = (low < x) × IsSortedFrom (some x) xs

set_add-from :
    (low a : ℕ) (xs : List ℕ)
    → low < a
    → IsSortedFrom (some low) xs
    → IsSortedFrom (some low) (set_add a xs)
unfolding set_add
set_add-from low a [] l h = (l, tt)
set_add-from low a (x ∷ xs) l h = ground (arith, set_add-from x a xs)

pub set_add-IsSorted :
    (a : ℕ) (xs : List ℕ) → IsSortedFrom none xs → IsSortedFrom none (set_add a xs)
unfolding set_add
set_add-IsSorted a [] h = tt
set_add-IsSorted a (x ∷ xs) h = ground (arith, set_add-from x a xs)
