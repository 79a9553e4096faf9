-- ===== src/Distributed.antt =====
-- gateway/distributed_limiter.py: the rules that a shared limiter is to enforce, the decisions that
-- the report shows for them, and its gates. SHA-256 in hexadecimal is a parameter.
pub mod Samples
use Prim.Native.Nat.{min}
use Prim.Native.String.{◌++◌}
use secure_gpu_inference_gat.Prelude.{
  ℕ, zero, suc, ◌+◌, ◌*◌, String, Bool, true, false, ◌&&◌, Option, none, some, List, [], ◌∷◌,
  ◌++◌ as append, map, all, contains, length, nat_beq, ◌==◌, string_eq, if◌then◌else◌,
}
use secure_gpu_inference_gat.Sorting.{text_le, sorted}
use secure_gpu_inference_gat.Text.{take}
use secure_gpu_inference_gat.Dict
use secure_gpu_inference_gat.Dict.{Dict}
use secure_gpu_inference_gat.Models.{ModelPolicy}
use secure_gpu_inference_gat.Telemetry.{has_part}

-- `WINDOW_SECONDS`
abbrev pub window_seconds : ℕ
window_seconds = 60

pub record LimitRule : Type 0 where
  pub model_id : String
  pub budget_type : String
  pub limit : ℕ
  pub metric_name : String
  pub denial_outcome : String

-- The two rules of a model.
abbrev pub request_rule : ModelPolicy → LimitRule
request_rule policy = record {
  model_id = policy.model_id;
  budget_type = "request_count";
  limit = policy.requests_per_minute;
  metric_name = "security_gateway_requests_total";
  denial_outcome = "rate_limited";
}

abbrev pub token_rule : ModelPolicy → LimitRule
token_rule policy = record {
  model_id = policy.model_id;
  budget_type = "estimated_input_tokens";
  limit = policy.input_tokens_per_minute;
  metric_name = "security_gateway_input_tokens_total";
  denial_outcome = "token_budget_limited";
}

abbrev rules_of : List ModelPolicy → List LimitRule
rules_of [] = []
rules_of (policy ∷ policies) = request_rule policy ∷ token_rule policy ∷ rules_of policies

-- `build_limit_rules`
unfoldable pub build_limit_rules : Dict String ModelPolicy → List LimitRule
unfolding sorted
build_limit_rules policies =
    rules_of (sorted (λ p q. text_le p.model_id q.model_id) (Dict.values policies))

-- A decision that the report shows.
pub record Sample : Type 0 where
  pub model_id : String
  pub budget_type : String
  pub caller_hash : String
  pub window_cost : ℕ
  pub limit : ℕ
  pub allowed : Bool
  pub denial_outcome : Option String

-- `rules[:n]`
abbrev pub first_rules : ℕ → List LimitRule → List LimitRule
first_rules zero rules = []
first_rules (suc n) [] = []
first_rules (suc n) (rule ∷ rules) = rule ∷ first_rules n rules

module _ (sha256 : String → String) where
  abbrev pub within_limit : LimitRule → Sample
  within_limit rule = record {
    model_id = rule.model_id;
    budget_type = rule.budget_type;
    caller_hash =
        take 16 (sha256 ("synthetic-reviewer:" ++ rule.model_id ++ ":" ++ rule.budget_type));
    window_cost = if rule.budget_type == "request_count" then 1 else min 64 rule.limit;
    limit = rule.limit;
    allowed = true;
    denial_outcome = none;
  }

  abbrev pub over_limit : LimitRule → Sample
  over_limit rule = record {
    model_id = rule.model_id;
    budget_type = rule.budget_type;
    caller_hash =
        take 16 (sha256 ("synthetic-over-limit:" ++ rule.model_id ++ ":" ++ rule.budget_type));
    window_cost = rule.limit + 1;
    limit = rule.limit;
    allowed = false;
    denial_outcome = some rule.denial_outcome;
  }

  unfoldable pub samples_of : List LimitRule → List Sample
  samples_of [] = []
  samples_of (rule ∷ rules) = within_limit rule ∷ over_limit rule ∷ samples_of rules

  -- `sample_decisions`
  unfoldable pub sample_decisions : List LimitRule → List Sample
  unfolding samples_of
  sample_decisions rules = samples_of (first_rules 4 rules)

-- The gates that can hold a report up.
pub record ReleaseGates : Type 0 where
  pub has_every_rule : Bool
  pub has_both_budgets : Bool
  pub is_atomic : Bool

-- `build_release_gates`, with the text of the script
unfoldable pub build_release_gates : String → List LimitRule → ℕ → ReleaseGates
unfolding has_part
build_release_gates script rules expected =
    let types = map (λ rule. rule.budget_type) rules in
    let names = "request_count" ∷ "estimated_input_tokens" ∷ [] in
    record {
      has_every_rule = nat_beq (length rules) expected;
      has_both_budgets = all (contains names) types && all (contains types) names;
      is_atomic = all (has_part script) ("INCRBY" ∷ "PEXPIRE" ∷ "tonumber(ARGV[3])" ∷ []);
    }

pub record Report : Type 0 where
  pub rules : List LimitRule
  pub samples : List Sample
  pub gates : ReleaseGates
  pub is_ready : Bool

-- `build_distributed_limiter_report`, without its fixed texts
unfoldable pub build_distributed_limiter_report :
    (String → String) → String → Dict String ModelPolicy → Report
unfolding build_limit_rules sample_decisions build_release_gates
build_distributed_limiter_report sha256 script policies =
    let rules = build_limit_rules policies in
    let gates = build_release_gates script rules (length policies.items * 2) in
    record {
      rules = rules;
      samples = sample_decisions sha256 rules;
      gates = gates;
      is_ready = gates.has_every_rule && gates.has_both_budgets && gates.is_atomic;
    }
