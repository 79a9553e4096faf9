-- ===== src/Tests/Service.antt =====
-- A request of an analyst with a token to a service with one model.
use secure_gpu_inference_gat.Prelude.{
  ℕ, ◌+◌, String, ◌≡◌, refl, ◌⊎◌, inl, true, false, none, some, List, [], ◌∷◌, map, string_eq, ok,
}
use secure_gpu_inference_gat.Prelude.Int.{pos}
use secure_gpu_inference_gat.Dict
use secure_gpu_inference_gat.Models.{Principal, ModelPolicy}
use secure_gpu_inference_gat.Identity.{ResolvedPrincipal, truthy}
use secure_gpu_inference_gat.Identity.Resolve.{resolve_principal}
use secure_gpu_inference_gat.Policy.Laws.{Permits}
use secure_gpu_inference_gat.TraceContext.{RequestTrace, resolve_trace_context}
use secure_gpu_inference_gat.RateLimit
use secure_gpu_inference_gat.RateLimit.{FixedWindowLimiter, allow_request, allow_tokens}
use secure_gpu_inference_gat.TokenBudget.{estimate_input_tokens}
use secure_gpu_inference_gat.Text.{strip, is_space}
use secure_gpu_inference_gat.Metrics.{GatewayMetrics}
use secure_gpu_inference_gat.App.{Limiter, Backend, BackendResult, Config, Gateway, Moment}
use secure_gpu_inference_gat.App.Routes.{
  ModelEntry, listed, entry, list_for, list_models, list_models-Authentic,
}
use secure_gpu_inference_gat.Identity.Resolve.Sound.{Authentic}
use secure_gpu_inference_gat.App.Recorded.{recorded, slot}
use secure_gpu_inference_gat.App.Infer.{InferenceCall, infer}
use secure_gpu_inference_gat.App.Infer.Guard.{Admitted, Kept, infer-guarded}
use secure_gpu_inference_gat.App.Infer.Recording.{log_with, infer-recorded}
use secure_gpu_inference_gat.App.Infer.Answers.{Answered, infer-Answered}
use secure_gpu_inference_gat.App.Completion.{admit_completion}
use secure_gpu_inference_gat.App.Alike.{as_completion, DecidesAlike, infer-admit_completion}
use secure_gpu_inference_gat.Tests.{tracing, resolving, plain_codec, settings}

abbrev pub request_limiter : Limiter
request_limiter = record {
  State = FixedWindowLimiter;
  backend_name = "memory";
  allow = λ s now principal_id model_id cost limit.
      let (allowed, s') = allow_request 1 s now principal_id model_id limit in (ok allowed, s');
}

abbrev pub token_limiter : Limiter
token_limiter = record {
  State = FixedWindowLimiter;
  backend_name = "memory";
  allow = allow_tokens 1;
}

abbrev pub echoed : String → String → BackendResult
echoed model_id input = record {
  model_id = model_id;
  output = input;
  latency = 3;
  backend = "echo";
}

-- A backend that echoes, and counts its runs.
abbrev pub echo : Backend
echo = record {
  State = ℕ;
  run = λ runs model_id input. (ok (some (echoed model_id input)), runs + 1);
}

abbrev pub model : ModelPolicy
model = record {
  model_id = "m";
  description = "";
  allowed_roles = "analyst" ∷ [];
  requests_per_minute = 2;
  input_tokens_per_minute = 100;
  requires_reason = false;
  sensitivity = "standard";
}

abbrev pub config : Config
config = record {
  codec = plain_codec;
  ticks = 1;
  auth_settings = settings;
  policies = record { items = ("m", model) ∷ [] };
  exporting = true;
  rate_limiter = request_limiter;
  token_budget_limiter = token_limiter;
  backend = echo;
}

abbrev pub metrics : GatewayMetrics
metrics = record {
  latency_buckets = 1 ∷ 5 ∷ [];
  limiter_latency_buckets = 1 ∷ [];
  requests = Dict.empty;
  denials = Dict.empty;
  audit_suppressed = 0;
  auth_events = Dict.empty;
  input_tokens = Dict.empty;
  bucket_counts = Dict.empty;
  latency_count = Dict.empty;
  latency_sum = Dict.empty;
  limiter_bucket_counts = Dict.empty;
  limiter_latency_count = Dict.empty;
  limiter_latency_sum = Dict.empty;
}

abbrev pub started : Gateway config
started = record {
  rates = RateLimit.init 60;
  budgets = RateLimit.init 60;
  backend_state = 0;
  metrics = metrics;
  audit_log = [];
  spans = [];
  denial_budget = record { limit_per_minute = 600; window_started = 0; count = 0 };
}

abbrev pub moment : Moment
moment = record {
  auth_now = pos 90;
  rate_now = 90;
  budget_now = 90;
  denial_now = 90;
  started_at = 90;
  ended_at = 91;
  request_limiter_time = 0;
  token_limiter_time = 0;
  new_trace_id = "0123456789abcdef0123456789abcdef";
  new_span_id = "0123456789abcdef";
}

abbrev request : InferenceCall
request = record {
  model_id = "m";
  input = "hello";
  reason = none;
  authorization = some "Bearer h.c.s";
  x_principal_id = none;
  traceparent = none;
}

infer-guarded_example :
    Kept started (infer config moment request started) ⊎ Admitted config moment request started
infer-guarded_example = infer-guarded config moment request started

infer-admit_completion_example :
    DecidesAlike config moment request
      (infer config moment request started)
      (admit_completion config moment (as_completion true "{}" request) started)
infer-admit_completion_example = infer-admit_completion config moment true "{}" request started

abbrev pub trace : RequestTrace
trace = record {
  trace_id = moment.new_trace_id;
  span_id = moment.new_span_id;
  parent_span_id = none;
  sampled = false;
  source = "generated";
}

abbrev pub ada : Principal
ada = record { principal_id = "ada"; display_name = "ada"; roles = "analyst" ∷ [] }

abbrev pub caller : ResolvedPrincipal
caller = record {
  principal = some ada;
  auth_method = "jwt";
  issuer = some "unknown";
  subject = some "ada";
  failure_reason = none;
}

pub is_traced : resolve_trace_context none moment.new_trace_id moment.new_span_id ≡ ok trace
unfolding tracing
is_traced = refl

pub is_resolved :
    resolve_principal plain_codec 1 settings moment.auth_now request.authorization none ≡ ok caller
unfolding resolving
is_resolved = refl

infer-recorded_example :
    recorded (infer config moment request started).1
    ≡ log_with config request trace caller
        (slot 1 moment caller.principal started.denial_budget)
        (infer config moment request started).0
        (recorded started)
infer-recorded_example =
    infer-recorded config moment request started trace caller is_traced is_resolved

is_known : Dict.get config.policies "m" ≡ some model
unfolding Dict.get
is_known = refl

is_permitted : Permits ada model none
is_permitted = record { role = ("analyst", inl refl, inl refl); stated = λ h. cc h }

in_rate : (request_limiter.allow started.rates 90 "ada" "m" 1 2).0 ≡ ok true
unfolding allow_request RateLimit.rate_window Dict.get
in_rate = refl

in_budget :
    (token_limiter.allow started.budgets 90 "ada" "m" (estimate_input_tokens "hello") 100).0
    ≡ ok true
unfolding allow_tokens RateLimit.budget_window Dict.get estimate_input_tokens strip is_space
in_budget = refl

infer-Answered_example :
    Answered trace ada (echoed "m" "hello") (infer config moment request started).0
infer-Answered_example =
    infer-Answered config moment request started trace caller ada model (echoed "m" "hello")
      is_traced is_resolved refl is_known is_permitted in_rate in_budget refl

abbrev entries : List ModelEntry
entries = entry model ∷ []

is_listed : (list_models config moment request.authorization none started).0 ≡ ok (listed entries)
unfolding list_models list_for resolving
is_listed = refl

list_models-Authentic_example :
    (p : Principal) × Authentic plain_codec 1 settings moment.auth_now
      (truthy request.authorization)
      (truthy none)
      p
    × (entries ≡ map entry (Dict.values config.policies))
list_models-Authentic_example =
    list_models-Authentic config moment request.authorization none started entries is_listed
