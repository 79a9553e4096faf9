-- ===== src/TokenBudget.antt =====
-- gateway/token_budget.py: the estimate of a prompt's tokens.
pub mod Bounds
use Prim.Native.Nat.{max}
use secure_gpu_inference_gat.Prelude.{ℕ, ◌+◌, ◌/◌, String, if◌then◌else◌}
use secure_gpu_inference_gat.Text.{len, is_empty, strip}

-- `math.ceil(n / 4)`
abbrev ceil_quarter : ℕ → ℕ
ceil_quarter n = (n + 3) / 4

unfoldable pub estimate_input_tokens : String → ℕ
estimate_input_tokens text =
    let stripped = strip text in
    if is_empty stripped then 1 else max 1 (ceil_quarter (len stripped))
