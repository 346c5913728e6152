-- ===== src/Retrieval/Simhash/Distance.antt =====
-- The signed column loses nothing, and `hamming` is a distance.
use kb_backend.Prelude.{
  ℕ, zero, suc, ◌+◌, ◌-◌, ◌/◌, ◌%◌, ◌^◌, ◌≤◌, ◌<◌, ◌≡◌, refl, ap, inl, inr, true, false, arith, leb,
  Bool-cases, if◌then◌else◌, ◌↔◌,
}
use kb_backend.Prelude.Int.{ℤ, pos, negsuc, sub_ℕ}
use kb_backend.Retrieval.Simhash.{modulus, sign, to_signed, to_unsigned, hamming}

-- The value fits a signed column of 64 bits.
abbrev pub FitsSigned : ℤ → Type 0
FitsSigned (pos n) = n < sign
FitsSigned (negsuc n) = n < sign

signed_low :
    (low : ℕ)
    → low < modulus
    → let column = if leb sign low then sub_ℕ low modulus else pos low in
      FitsSigned column × (to_unsigned column ≡ pos low)
unfolding to_unsigned
signed_low low h = elim (Bool-cases (leb sign low)) [
  | inl e ↦
      let below : leb modulus low ≡ false = ground arith in
      let back : leb (suc (modulus - low - 1)) modulus ≡ true = ground arith in
      rw (e, below, back) (ground arith, ap pos (ground arith))
  | inr e ↦ rw e (ground arith, refl)
]

-- The low 64 bits of a fingerprint fit the signed column, and come back from it unchanged.
pub to_unsigned-to_signed :
    (v : ℕ) → FitsSigned (to_signed v) × (to_unsigned (to_signed v) ≡ pos (v % modulus))
unfolding to_signed
to_unsigned-to_signed v = signed_low (v % modulus) (omega arith)

hamming_comm : (width a b : ℕ) → hamming width a b ≡ hamming width b a
unfolding hamming
hamming_comm zero a b = refl
hamming_comm (suc width) a b = ground (arith, hamming_comm width (a / 2) (b / 2))

hamming_triangle : (width a b c : ℕ) → hamming width a c ≤ hamming width a b + hamming width b c
unfolding hamming
hamming_triangle zero a b c = omega arith
hamming_triangle (suc width) a b c = ground (arith, hamming_triangle width (a / 2) (b / 2) (c / 2))

hamming_bound : (width a b : ℕ) → hamming width a b ≤ width
unfolding hamming
hamming_bound zero a b = omega arith
hamming_bound (suc width) a b = ground (arith, hamming_bound width (a / 2) (b / 2))

hamming_self : (width a : ℕ) → hamming width a a ≡ 0
unfolding hamming
hamming_self zero a = refl
hamming_self (suc width) a = ground (arith, hamming_self width (a / 2))

hamming_zero : (width a b : ℕ) → a < 2 ^ width → b < 2 ^ width → hamming width a b ≡ 0 → a ≡ b
unfolding hamming
hamming_zero zero a b l m h = ground arith
hamming_zero (suc width) a b l m h = ground (arith, hamming_zero width (a / 2) (b / 2))

-- On fingerprints of `width` bits, `hamming` is a distance: it is symmetric, obeys the triangle
-- inequality, is at most the width, and is 0 exactly between equal fingerprints.
pub hamming_lem :
    (width a b c : ℕ)
    → a < 2 ^ width
    → b < 2 ^ width
    → (hamming width a b ≡ hamming width b a)
      × (hamming width a c ≤ hamming width a b + hamming width b c)
      × (hamming width a b ≤ width)
      × ((hamming width a b ≡ 0) ↔ (a ≡ b))
hamming_lem width a b c l m = (
  hamming_comm width a b,
  hamming_triangle width a b c,
  hamming_bound width a b,
  (hamming_zero width a b l m, λ e. rw e (hamming_self width b)),
)
