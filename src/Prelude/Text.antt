-- ===== src/Prelude/Text.antt =====
-- Python texts: the calls of `str` that the program makes.
use Prim.Native.Char.{code}
use Prim.Native.String.{String, len, ◌++◌}
use mathlib.Core.Path.{◌≡◌, refl}
use mathlib.Core.Bool.{Bool, false, ◌||◌}
use Prim.Native.Nat.{ℕ}
use mathlib.Core.List.{List, [], ◌∷◌}
use kb_backend.Prelude.Tests.{◌==◌, ltb, if◌then◌else◌}

-- `bool(s)`
abbrev pub is_text : String → Bool
is_text s = ltb 0 (len s)

-- `"/".join(words)`
unfoldable pub join : List String → String
join [] = ""
join (w ∷ []) = w
join (w ∷ v ∷ ws) = w ++ ("/" ++ join (v ∷ ws))

-- `"\n".join(texts)`
unfoldable pub join_lines : List String → String
join_lines [] = ""
join_lines (t ∷ []) = t
join_lines (t ∷ u ∷ ts) = t ++ ("\n" ++ join_lines (u ∷ ts))

prefix : String → List String → List String
prefix c [] = c ∷ []
prefix c (w ∷ ws) = (c ++ w) ∷ ws

-- `s.split("/")`
unfoldable pub split : String → List String
unfolding prefix
split String.[] = "" ∷ []
split (String.◌∷◌ c s) =
    let rest = split s in if code c == 47 then "" ∷ rest else prefix (String.◌∷◌ c "") rest

-- `c in s`, for the code of a character
unfoldable pub has_char : String → ℕ → Bool
has_char String.[] n = false
has_char (String.◌∷◌ c s) n = (code c == n) || has_char s n

-- `re.split` at each character of `d`
unfoldable pub split_any : String → String → List String
unfolding prefix has_char
split_any d String.[] = "" ∷ []
split_any d (String.◌∷◌ c s) =
    let rest = split_any d s in
    if has_char d (code c) then "" ∷ rest else prefix (String.◌∷◌ c "") rest

split_test : split "a/bc//" ≡ "a" ∷ "bc" ∷ "" ∷ "" ∷ []
unfolding split
split_test = refl
