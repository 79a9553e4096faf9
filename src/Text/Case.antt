-- ===== src/Text/Case.antt =====
-- `str.lower`, exact wherever the result is ASCII: of the other characters only U+212A has an
-- ASCII letter, k, for its lower case, and those stay as they are here.
use Prim.Native.Nat.{compare, Ordering}
use Prim.Native.Char.{Char, char, code, IsScalar}
use Prim.Native.String.{[], ◌∷◌}
use mathlib.Core.Logic.{dite}
use native.Mathlib.Decide.{dec_lt}
use secure_gpu_inference_gat.Prelude.{
  ℕ, ◌+◌, ◌<◌, String, ◌≡◌, Bool, false, ◌&&◌, ◌||◌, leb, nat_beq, arith, if◌then◌else◌,
}

compare-lt : (n m : ℕ) → n < m → compare n m ≡ Ordering.lt
compare-lt n m h = ground arith

scalar : (n : ℕ) → n < 55296 → IsScalar n
scalar n h = rw (compare-lt n 55296 h) tt

-- The character with a number below U+D800, and U+0000 for any other number.
unfoldable pub chr : ℕ → Char
unfolding scalar compare-lt dec_lt
chr n = dite (dec_lt n 55296) (λ h. char n (scalar n h)) (λ h. char 0 tt)

unfoldable pub lower_code : ℕ → ℕ
lower_code n = if leb b'A' n && leb n b'Z' then n + 32 else if nat_beq n 8490 then b'k' else n

unfoldable pub is_cased : ℕ → Bool
is_cased n = (leb b'A' n && leb n b'Z') || nat_beq n 8490

unfoldable pub lower_char : Char → Char
lower_char c = if is_cased (code c) then chr (lower_code (code c)) else c

pub lower_char-eq : (c : Char) → is_cased (code c) ≡ false → lower_char c ≡ c
unfolding lower_char
lower_char-eq c h = rw h

-- `s.lower()`
unfoldable pub lower : String → String
lower [] = []
lower (c ∷ s) = lower_char c ∷ lower s
