-- ===== src/TokenBudget/Bounds.antt =====
-- The bounds of the estimate of gateway/token_budget.py.
use Prim.Native.String.{[], ◌∷◌}
use secure_gpu_inference_gat.Prelude.{
  ℕ, true, false, ◌+◌, ◌*◌, ◌≤◌, ◌<◌, String, ◌≡◌, refl, arith, ◌⊎◌,
}
use secure_gpu_inference_gat.Text.{len, is_empty, strip}
use secure_gpu_inference_gat.Text.Strip.{strip_idem, len-strip-le}
use secure_gpu_inference_gat.TokenBudget.{estimate_input_tokens}

len-ne-zero : (s : String) → is_empty s ≡ false → 1 ≤ len s
len-ne-zero [] h = cc
len-ne-zero (c ∷ s) h = omega arith

len-zero : (s : String) → is_empty s ≡ true → len s ≡ 0
len-zero [] h = refl
len-zero (c ∷ s) h = cc

-- The estimate is at least 1, its fourfold covers the stripped text, and it is the least such
-- number: no estimate of 2 or more has four characters to spare.
pub estimate_bounds :
    (text : String)
    → (1 ≤ estimate_input_tokens text)
      × (len (strip text) ≤ 4 * estimate_input_tokens text)
      × ((estimate_input_tokens text ≡ 1) ⊎ (4 * estimate_input_tokens text < len (strip text) + 4))
unfolding estimate_input_tokens
estimate_bounds text = ground (arith, len-zero (strip text), len-ne-zero (strip text))

-- Blanks around the prompt cost nothing.
estimate-strip : (text : String) → estimate_input_tokens (strip text) ≡ estimate_input_tokens text
unfolding estimate_input_tokens
estimate-strip text = rw strip_idem

-- A prompt of at most 4 * n characters costs at most n tokens, for positive n.
estimate-le : (text : String) (n : ℕ) → 1 ≤ n → len text ≤ 4 * n → estimate_input_tokens text ≤ n
unfolding estimate_input_tokens
estimate-le text n h k = ground (arith, len-strip-le text)
