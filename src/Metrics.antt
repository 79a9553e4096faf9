-- ===== src/Metrics.antt =====
-- gateway/metrics.py: the counters. A latency is a whole number of ticks, whatever unit the source
-- gives it in.
pub mod Render
pub mod Escape
pub mod Histogram
use secure_gpu_inference_gat.Prelude.{
  ℕ, ◌+◌, String, not, none, some, List, [], ◌∷◌, Eq, string_eq, nat_eq, pair_eq, ◌==◌, leb,
  if◌then◌else◌,
}
use secure_gpu_inference_gat.Dict
use secure_gpu_inference_gat.Dict.{Dict}

abbrev pub Labels : Type 0
Labels = String × String

instance abbrev pub labels_eq : Eq Labels
labels_eq = pair_eq string_eq string_eq

abbrev pub Bucket : Type 0
Bucket = String × ℕ

instance abbrev pub bucket_eq : Eq Bucket
bucket_eq = pair_eq string_eq nat_eq

abbrev pub LimiterBucket : Type 0
LimiterBucket = Labels × ℕ

instance abbrev pub limiter_bucket_eq : Eq LimiterBucket
limiter_bucket_eq = pair_eq labels_eq nat_eq

module _ {K : Type 0} ⦃e : Eq K⦄ where
  -- `counter[key]`
  unfoldable pub count : Dict K ℕ → K → ℕ
  count d k = elim (Dict.get d k) [ none ↦ 0 | some n ↦ n ]

  -- `counter[key] += n`
  unfoldable pub bump : Dict K ℕ → K → ℕ → Dict K ℕ
  unfolding count
  bump d k n = Dict.put d k (count d k + n)

pub record GatewayMetrics : Type 0 where
  pub latency_buckets : List ℕ
  pub limiter_latency_buckets : List ℕ
  pub requests : Dict Labels ℕ
  pub denials : Dict Labels ℕ
  pub audit_suppressed : ℕ
  pub auth_events : Dict Labels ℕ
  pub input_tokens : Dict Labels ℕ
  pub bucket_counts : Dict Bucket ℕ
  pub latency_count : Dict String ℕ
  pub latency_sum : Dict String ℕ
  pub limiter_bucket_counts : Dict LimiterBucket ℕ
  pub limiter_latency_count : Dict Labels ℕ
  pub limiter_latency_sum : Dict Labels ℕ

count_reasons : String → List String → Dict Labels ℕ → Dict Labels ℕ
count_reasons model_id [] denials = denials
count_reasons model_id (reason ∷ reasons) denials =
    count_reasons model_id reasons (bump denials (model_id, reason) 1)

-- `denial_reasons or ("unspecified",)`
or_unspecified : List String → List String
or_unspecified [] = "unspecified" ∷ []
or_unspecified (r ∷ rs) = r ∷ rs

unfoldable pub record_request : GatewayMetrics → String → String → List String → GatewayMetrics
unfolding count_reasons or_unspecified
record_request m model_id outcome denial_reasons = record m {
  requests = bump m.requests (model_id, outcome) 1;
  denials =
      (if not (outcome == "allowed")
        then count_reasons model_id (or_unspecified denial_reasons) m.denials
        else m.denials);
}

unfoldable pub record_audit_suppressed : GatewayMetrics → GatewayMetrics
record_audit_suppressed m = record m { audit_suppressed = m.audit_suppressed + 1 }

unfoldable pub record_auth_event : GatewayMetrics → String → String → GatewayMetrics
record_auth_event m auth_method outcome = record m {
  auth_events = bump m.auth_events (auth_method, outcome) 1;
}

unfoldable pub record_input_tokens : GatewayMetrics → String → String → ℕ → GatewayMetrics
record_input_tokens m model_id outcome token_count = record m {
  input_tokens = bump m.input_tokens (model_id, outcome) token_count;
}

module _ {K : Type 0} ⦃e : Eq K⦄ where
  -- The loop over the buckets: each that the latency does not pass is counted.
  unfoldable pub fill_buckets : (ℕ → K) → ℕ → List ℕ → Dict K ℕ → Dict K ℕ
  fill_buckets key latency [] d = d
  fill_buckets key latency (bucket ∷ buckets) d =
      fill_buckets key latency buckets (if leb latency bucket then bump d (key bucket) 1 else d)

unfoldable pub observe_latency : GatewayMetrics → String → ℕ → GatewayMetrics
observe_latency m model_id latency = record m {
  latency_count = bump m.latency_count model_id 1;
  latency_sum = bump m.latency_sum model_id latency;
  bucket_counts =
      fill_buckets (λ bucket. (model_id, bucket)) latency m.latency_buckets m.bucket_counts;
}

unfoldable pub observe_limiter_latency : GatewayMetrics → String → String → ℕ → GatewayMetrics
observe_limiter_latency m limiter backend latency =
    let key : Labels = (limiter, backend) in
    record m {
      limiter_latency_count = bump m.limiter_latency_count key 1;
      limiter_latency_sum = bump m.limiter_latency_sum key latency;
      limiter_bucket_counts =
          fill_buckets (λ bucket. (key, bucket)) latency m.limiter_latency_buckets
            m.limiter_bucket_counts;
    }
