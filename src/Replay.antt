-- ===== src/Replay.antt =====
-- gateway/workload_replay.py: a workload of requests against the policy and the limiters, and the
-- report on it. Latencies are thousandths of a millisecond, which is what the report rounds to.
pub mod Loop
pub mod Report
pub mod Rank
pub mod Totals
use Prim.Native.Nat.{min}
use Prim.Native.String
use secure_gpu_inference_gat.Prelude.{
  ℕ, zero, suc, ◌+◌, ◌-◌, ◌*◌, ◌/◌, ◌%◌, String, Bool, true, false, not, ◌&&◌, Option, none, some,
  List, [], ◌∷◌, ◌++◌, map, filter, length, leb, ltb, nat_beq, string_eq, ◌==◌, Result, ok, err,
  ◌>>=◌, ◌>>◌, raise_if, if◌then◌else◌,
}
use secure_gpu_inference_gat.Prelude.Int.{ℤ, pos, ltb_ℤ}
use secure_gpu_inference_gat.Errors.{Exception, value_error}
use secure_gpu_inference_gat.Sorting.{sorted, get_elem?}
use secure_gpu_inference_gat.Dict
use secure_gpu_inference_gat.Dict.{Dict}
use secure_gpu_inference_gat.Models.{Principal, ModelPolicy, PolicyDecision}
use secure_gpu_inference_gat.Policy.{evaluate_policy}
use secure_gpu_inference_gat.RateLimit.{FixedWindowLimiter, init, allow_request, allow_tokens}
use secure_gpu_inference_gat.TokenBudget.{estimate_input_tokens}
use secure_gpu_inference_gat.Metrics.{count, bump}

pub record ReplayRequest : Type 0 where
  pub principal_id : String
  pub model_id : String
  pub input_character_count : ℕ
  pub reason_present : Bool

-- `DEFAULT_REPLAY_REQUESTS`
abbrev pub replay : String → String → ℕ → Bool → ReplayRequest
replay principal_id model_id characters reason = record {
  principal_id = principal_id;
  model_id = model_id;
  input_character_count = characters;
  reason_present = reason;
}

abbrev repeated : ℕ → ReplayRequest → List ReplayRequest
repeated zero request = []
repeated (suc n) request = request ∷ repeated n request

abbrev pub default_replay_requests : List ReplayRequest
default_replay_requests =
    replay "analyst-1" "mission-summarizer" 72 true
      ∷ replay "security-1" "threat-triage" 72 true
      ∷ replay "analyst-1" "benchmark-echo" 32 false
      ∷ replay "analyst-1" "threat-triage" 64 true
      ∷ replay "admin-1" "mission-summarizer" 64 false
      ∷ replay "unknown-reviewer" "benchmark-echo" 32 false
      ∷ repeated 9 (replay "admin-1" "mission-summarizer" 4000 true)
    ++ repeated 21 (replay "admin-1" "threat-triage" 16 true)

-- `"x" * n`
abbrev pub xs : ℕ → String
xs zero = ""
xs (suc n) = String.◌∷◌ "x" (xs n)

-- `ReplayRequest.estimated_input_tokens`
unfoldable pub token_cost : ReplayRequest → ℕ
unfolding estimate_input_tokens
token_cost request = estimate_input_tokens (xs request.input_character_count)

pub record ReplayThresholds : Type 0 where
  pub max_allowed_p95_latency : ℤ
  pub required_outcomes : List String

-- `ReplayThresholds.validate`
unfoldable pub validate : ReplayThresholds → Result Exception Unit
validate thresholds = do
  raise_if (not (ltb_ℤ (pos 0) thresholds.max_allowed_p95_latency))
      (value_error "max_allowed_p95_latency_ms must be positive")
  raise_if (nat_beq (length thresholds.required_outcomes) 0)
      (value_error "required_outcomes must not be empty")

abbrev base_latency : String → ℕ
base_latency model_id =
    if model_id == "benchmark-echo"
    then 18000
    else if model_id == "mission-summarizer"
    then 42000
    else if model_id == "threat-triage"
    then 55000
    else 50000

-- `estimate_latency_ms`
unfoldable pub estimate_latency : String → ℕ → ℕ → ℕ
estimate_latency model_id cost sequence =
    base_latency model_id + min (18 * cost) 34000 + 700 * (sequence % 5)

-- The percentiles that the program asks for.
pub data Percent : Type 0 where
  fiftieth ninety_fifth : Percent

abbrev pub percent : Percent → ℕ
percent fiftieth = 50
percent ninety_fifth = 95

-- `math.ceil(p / 100 * n) - 1`, and 0 in place of a negative index. For 50 the product of doubles is
-- exact, and for 95 it has the ceiling of the exact one: 0.95 is off by less than half a unit in the
-- last place of a product that is whole, and other products are a twentieth away from it.
abbrev pub rank : Percent → ℕ → ℕ
rank p n = (percent p * n + 99) / 100 - 1

-- `percentile`
unfoldable pub percentile : List ℕ → Percent → Result Exception (Option ℕ)
unfolding sorted
percentile [] p = ok none
percentile (s ∷ samples) p =
    if ltb 0 (percent p) && leb (percent p) 100
    then ok (get_elem? (sorted leb (s ∷ samples)) (rank p (length (s ∷ samples))))
    else err (value_error "percentile_value must be in (0, 100]")

abbrev pub greatest : List ℕ → Option ℕ
greatest [] = none
greatest (s ∷ samples) = elim (greatest samples) [
  | none ↦ some s
  | some m ↦ if leb m s then some s else some m
]

pub record LatencySummary : Type 0 where
  pub samples : ℕ
  pub p50 : Option ℕ
  pub p95 : Option ℕ
  pub slowest : Option ℕ

-- `latency_summary`
unfoldable pub latency_summary : List ℕ → Result Exception LatencySummary
unfolding percentile
latency_summary samples = do
  p50 ← percentile samples fiftieth
  p95 ← percentile samples ninety_fifth
  ok (record { samples = length samples; p50 = p50; p95 = p95; slowest = greatest samples })
