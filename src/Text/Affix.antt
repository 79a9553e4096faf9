-- ===== src/Text/Affix.antt =====
-- `str.startswith`, `str.endswith` and `str.join`.
use Prim.Native.Char.{code}
use Prim.Native.String.{◌++◌}
use text.Mathlib.TextLemmas.{nil-append, cons-append}
use secure_gpu_inference_gat.Text.{is_empty}
use secure_gpu_inference_gat.Prelude.{
  ◌≡◌, ap, ◌∙◌, String, Bool, true, false, ◌&&◌, ◌||◌, ◌==◌, string_eq, if◌then◌else◌, List, [],
  ◌∷◌, nat_beq,
}

-- `name.startswith(prefix)`
unfoldable pub starts_with : String → String → Bool
starts_with s String.[] = true
starts_with String.[] (String.◌∷◌ p prefix) = false
starts_with (String.◌∷◌ c s) (String.◌∷◌ p prefix) =
    let rest = starts_with s prefix in nat_beq (code c) (code p) && rest

-- `sep.join(texts)`
unfoldable pub join : String → List String → String
join sep [] = ""
join sep (text ∷ []) = text
join sep (text ∷ next ∷ texts) = text ++ sep ++ join sep (next ∷ texts)

-- `b + s`, one character after the other.
abbrev pub prepend : String → String → String
prepend String.[] s = s
prepend (String.◌∷◌ c b) s = String.◌∷◌ c (prepend b s)

-- `name.endswith(suffix)`
unfoldable pub ends_with : String → String → Bool
ends_with String.[] suffix = is_empty suffix
ends_with (String.◌∷◌ c s) suffix =
    let rest = ends_with s suffix in String.◌∷◌ c s == suffix || rest

-- `name.rstrip("/")`
unfoldable pub rstrip_slash : String → String
rstrip_slash String.[] = ""
rstrip_slash (String.◌∷◌ c s) =
    let rest = rstrip_slash s in
    if nat_beq (code c) 47 && is_empty rest then "" else String.◌∷◌ c rest

pub append_eq : (s t : String) → s ++ t ≡ prepend s t
append_eq String.[] t = nil-append t
append_eq (String.◌∷◌ c s) t = cons-append c s t ∙ ap (String.◌∷◌ c) (append_eq s t)
