-- ===== src/Text/Split.antt =====
-- `str.split`, `str.partition`, `str.replace` of one character, and `str.splitlines`.
use Prim.Native.Char.{Char, code}
use Prim.Native.String.{String, ◌++◌}
use mathlib.Core.List.{List, [], ◌∷◌}
use secure_gpu_inference_gat.Prelude.{ℕ, Bool, true, false, ◌&&◌, ◌||◌, leb, nat_beq, if◌then◌else◌}
use secure_gpu_inference_gat.Text.Affix.{starts_with}
use secure_gpu_inference_gat.Text.{is_empty, is_space}

abbrev one : Char → String
one c = String.◌∷◌ c String.[]

-- A character in front of the first part.
grow : Char → List String → List String
grow c [] = one c ∷ []
grow c (part ∷ parts) = String.◌∷◌ c part ∷ parts

-- `s.split(separator)` for a separator of one character.
unfoldable pub split : ℕ → String → List String
unfolding grow
split sep String.[] = "" ∷ []
split sep (String.◌∷◌ c s) =
    let parts = split sep s in if nat_beq (code c) sep then "" ∷ parts else grow c parts

-- What stands before the first separator, and what stands behind it.
unfoldable pub partition : ℕ → String → String × String
partition sep String.[] = ("", "")
partition sep (String.◌∷◌ c s) =
    let (before, after) = partition sep s in
    if nat_beq (code c) sep then ("", s) else (String.◌∷◌ c before, after)

-- `s.replace(a, b)` for single characters.
unfoldable pub replace : ℕ → Char → String → String
replace a b String.[] = ""
replace a b (String.◌∷◌ c s) =
    let rest = replace a b s in if nat_beq (code c) a then String.◌∷◌ b rest else String.◌∷◌ c rest

-- A finished word in front of the others.
flush : String → List String → List String
flush word words = if is_empty word then words else word ∷ words

words_from : String → String → List String
words_from word String.[] = flush word []
words_from word (String.◌∷◌ c s) = elim (is_space (code c)) [
  | true ↦ flush word (words_from "" s)
  | false ↦ words_from (word ++ one c) s
]

-- `s.split()`
unfoldable pub words : String → List String
unfolding words_from flush
words s = words_from "" s

-- The characters that end a line for `str.splitlines`.
unfoldable pub ends_line : ℕ → Bool
ends_line n =
    (leb 10 n && leb n 13)
    || (leb 28 n && leb n 30)
    || nat_beq n 133
    || nat_beq n 8232
    || nat_beq n 8233

-- `s.splitlines()`: a line feed belongs to the carriage return before it.
unfoldable pub splitlines : String → List String
unfolding grow ends_line
splitlines String.[] = []
splitlines (String.◌∷◌ c s) =
    let rest = splitlines s in
    if nat_beq (code c) 13 && starts_with s "\n"
    then rest
    else if ends_line (code c)
    then "" ∷ rest
    else grow c rest
