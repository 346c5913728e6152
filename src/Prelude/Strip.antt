-- ===== src/Prelude/Strip.antt =====
-- `str.strip` of Python, and the texts that it leaves empty.
use Prim.Native.Char.{code}
use Prim.Native.String.{String}
use mathlib.Core.Path.{◌≡◌, refl, ◌∙◌, sym}
use mathlib.Core.Bool.{Bool, true, false, not, ◌&&◌, ◌||◌}
use mathlib.Core.List.{[], ◌∷◌}
use native.Mathlib.Omega.{arith}
use mathlib.Core.Logic.{inl, inr}
use kb_backend.Prelude.Tests.{Bool-cases, if◌then◌else◌}
use kb_backend.Prelude.Lists.{contains}
use Prim.Native.Nat.{ℕ}

-- `c.isspace()`: the code points that Python strips
unfoldable pub is_space : ℕ → Bool
is_space n =
    contains
      (9 ∷ 10 ∷ 11 ∷ 12 ∷ 13 ∷ 28 ∷ 29 ∷ 30 ∷ 31 ∷ 32 ∷ 133 ∷ 160 ∷ 5760 ∷ 8192 ∷ 8193 ∷ 8194 ∷ 8195
        ∷ 8196 ∷ 8197 ∷ 8198 ∷ 8199 ∷ 8200 ∷ 8201 ∷ 8202 ∷ 8232 ∷ 8233 ∷ 8239 ∷ 8287 ∷ 12288 ∷ [])
      n

nonblank : String → Bool
nonblank String.[] = false
nonblank (String.◌∷◌ c s) = true

unfoldable pub lstrip : String → String
lstrip String.[] = ""
lstrip (String.◌∷◌ c s) = let rest = lstrip s in if is_space (code c) then rest else String.◌∷◌ c s

unfoldable pub rstrip : String → String
unfolding nonblank
rstrip String.[] = ""
rstrip (String.◌∷◌ c s) =
    let rest = rstrip s in
    if is_space (code c) && not (nonblank rest) then "" else String.◌∷◌ c rest

-- `s.strip()`
unfoldable pub strip : String → String
unfolding lstrip rstrip
strip s = rstrip (lstrip s)

-- `bool(s.strip())`
unfoldable pub has_text : String → Bool
unfolding strip nonblank
has_text s = nonblank (strip s)

visible : String → Bool
visible String.[] = false
visible (String.◌∷◌ c s) = not (is_space (code c)) || visible s

visible-lstrip : (s : String) → visible (lstrip s) ≡ visible s
unfolding lstrip visible
visible-lstrip String.[] = refl
visible-lstrip (String.◌∷◌ c s) = elim (Bool-cases (is_space (code c))) [
  | inl e ↦ rw e (visible-lstrip s)
  | inr e ↦ rw (e, e) refl
]

nonblank-rstrip : (s : String) → nonblank (rstrip s) ≡ visible s
unfolding rstrip visible nonblank
nonblank-rstrip String.[] = refl
nonblank-rstrip (String.◌∷◌ c s) = ground (arith, nonblank-rstrip s)

visible-rstrip : (s : String) → visible (rstrip s) ≡ visible s
unfolding rstrip visible nonblank
visible-rstrip String.[] = refl
visible-rstrip (String.◌∷◌ c s) = ground (arith, visible-rstrip s, nonblank-rstrip s)

-- What is stripped has a text if and only if it had one before.
pub has_text-strip : (s : String) → has_text (strip s) ≡ has_text s
unfolding has_text strip
has_text-strip s =
    nonblank-rstrip (lstrip (rstrip (lstrip s)))
    ∙ visible-lstrip (rstrip (lstrip s))
    ∙ visible-rstrip (lstrip s)
    ∙ sym (nonblank-rstrip (lstrip s))
