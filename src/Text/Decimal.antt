-- ===== src/Text/Decimal.antt =====
-- `str(n)`: what it writes are digits.
use Prim.Native.Char.{Char, code}
use Prim.Native.String.{◌++◌}
use mathlib.Core.Path.{subst}
use secure_gpu_inference_gat.Prelude.{
  ◌≡◌, refl, sym, ℕ, zero, suc, ◌/◌, ◌%◌, String, Bool, true, false, ◌&&◌, ◌==◌, nat_eq, leb,
  if◌then◌else◌,
}
use secure_gpu_inference_gat.Text.{digit, decimal_from, decimal, is_empty}
use secure_gpu_inference_gat.Text.Affix.{prepend, append_eq}

abbrev pub all_chars : (Char → Bool) → String → Bool
all_chars p String.[] = true
all_chars p (String.◌∷◌ c s) = p c && all_chars p s

abbrev pub ascii_digit : Char → Bool
ascii_digit c = leb b'0' (code c) && leb (code c) b'9'

-- There is a digit, and nothing else.
abbrev pub IsNumeral : String → Type 0
IsNumeral s = (all_chars ascii_digit s ≡ true) × (is_empty s ≡ false)

either : (P : String → Type 0) (b : Bool) {s t : String} → P s → P t → P (if b then s else t)
either P true p q = p
either P false p q = q

digit-prepend :
    (n : ℕ) (after : String)
    → all_chars ascii_digit after ≡ true
    → IsNumeral (prepend (digit n) after)
unfolding digit
digit-prepend n after h =
    let P : String → Type 0 = λ s. IsNumeral (prepend s after) in
    let d : (all_chars ascii_digit after ≡ true) × (false ≡ false) = (h, refl) in
    either P (n == 0) d (
      either P (n == 1) d (
        either P (n == 2) d (
          either P (n == 3) d (
            either P (n == 4) d (
              either P (n == 5) d
                (either P (n == 6) d (either P (n == 7) d (either P (n == 8) d d))))))))

digit-append :
    (n : ℕ) (after : String) → all_chars ascii_digit after ≡ true → IsNumeral (digit n ++ after)
digit-append n after h = subst IsNumeral (sym (append_eq (digit n) after)) (digit-prepend n after h)

decimal_from-IsNumeral :
    (fuel n : ℕ) (after : String)
    → all_chars ascii_digit after ≡ true
    → IsNumeral (decimal_from (suc fuel) n after)
unfolding decimal_from
decimal_from-IsNumeral zero n after h =
    either IsNumeral (n / 10 == 0) (digit-append (n % 10) after h) (digit-append (n % 10) after h)
decimal_from-IsNumeral (suc fuel) n after h =
    let last = digit-append (n % 10) after h in
    either IsNumeral (n / 10 == 0) last (decimal_from-IsNumeral fuel (n / 10) _ last.0)

pub decimal-IsNumeral : (n : ℕ) → IsNumeral (decimal n)
unfolding decimal
decimal-IsNumeral n = decimal_from-IsNumeral n n "" refl
