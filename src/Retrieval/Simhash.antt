-- ===== src/Retrieval/Simhash.antt =====
-- app/retrieval/simhash.py: the 64 bits of a fingerprint as a signed column, and the distance of two.
pub mod Distance
use kb_backend.Prelude.{ℕ, zero, suc, ◌+◌, ◌/◌, ◌%◌, Bool, leb, ◌==◌, if◌then◌else◌}
use kb_backend.Prelude.Int.{ℤ, pos, negsuc, sub_ℕ}

-- `1 << 64`
abbrev pub modulus : ℕ
modulus = 18446744073709551616

-- `1 << 63`
abbrev pub sign : ℕ
sign = 9223372036854775808

abbrev pub same_seg : ℕ
same_seg = 3

-- `to_signed`; the sign bit of a number below `modulus` is set from `sign` on
unfoldable pub to_signed : ℕ → ℤ
to_signed v = let low = v % modulus in if leb sign low then sub_ℕ low modulus else pos low

-- `to_unsigned`
unfoldable pub to_unsigned : ℤ → ℤ
to_unsigned (pos n) = pos n
to_unsigned (negsuc n) = sub_ℕ modulus (suc n)

-- `hamming`: the ones of `a ^ b`, in the lowest `width` bits
unfoldable pub hamming : ℕ → ℕ → ℕ → ℕ
hamming zero a b = 0
hamming (suc width) a b =
    let rest = hamming width (a / 2) (b / 2) in if a % 2 == b % 2 then rest else rest + 1

-- `same_segment`
unfoldable pub same_segment : ℕ → ℕ → ℕ → Bool
unfolding hamming
same_segment threshold a b = leb (hamming 64 a b) threshold
