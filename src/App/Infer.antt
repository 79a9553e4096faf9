-- ===== src/App/Infer.antt =====
-- gateway/app.py: the handler of POST /v1/infer/{model_id}. A request has passed the checks of its
-- shape, and the audit and trace files can be written.
pub mod Guard
pub mod Recording
pub mod Answers
use secure_gpu_inference_gat.Prelude.{
  ℕ, String, Bool, true, false, Option, none, some, List, [], ◌∷◌, string_eq, Result, ok, err,
  if◌then◌else◌,
}
use secure_gpu_inference_gat.Errors.{Exception, assertion_error}
use secure_gpu_inference_gat.Dict
use mathlib.Core.Option
use secure_gpu_inference_gat.Models.{Principal, ModelPolicy, PolicyDecision}
use secure_gpu_inference_gat.Identity.{ResolvedPrincipal}
use secure_gpu_inference_gat.Identity.Resolve.{resolve_principal}
use secure_gpu_inference_gat.Policy.{evaluate_policy}
use secure_gpu_inference_gat.TokenBudget.{estimate_input_tokens}
use secure_gpu_inference_gat.TraceContext.{RequestTrace, resolve_trace_context, format_traceparent}
use secure_gpu_inference_gat.Metrics.{observe_latency, record_request}
use secure_gpu_inference_gat.App.{
  Config, Gateway, Moment, Event, HttpException, BackendResult, metric_model_label,
  with_auth_failure, denial_is_recorded, count_outcome, write_and_export, count_auth_event,
  ask_rate_limiter, ask_token_limiter,
}

-- `InferenceRequest` with the path and the headers.
pub record InferenceCall : Type 0 where
  pub model_id : String
  pub input : String
  pub reason : Option String
  pub authorization : Option String
  pub x_principal_id : Option String
  pub traceparent : Option String

pub record InferenceResponse : Type 0 where
  pub model_id : String
  pub output : String
  pub latency : ℕ
  pub backend : String
  pub traceparent : String
  pub principal_id : String
  pub auth_method : String
  pub decision_reasons : List String
  pub trace_id : String
  pub span_id : String
  pub estimated_input_tokens : ℕ
  pub token_budget_limit : Option ℕ

pub data Reply : Type 0 where
  refused : HttpException → Reply
  answered : InferenceResponse → Reply

module _ (c : Config) (at : Moment) (call : InferenceCall) (trace : RequestTrace)
    (resolved : ResolvedPrincipal) where
  abbrev pub policy_of : Option ModelPolicy
  policy_of = Dict.get c.policies call.model_id

  abbrev pub estimated : ℕ
  estimated = estimate_input_tokens call.input

  abbrev pub decision_of : PolicyDecision
  decision_of = evaluate_policy resolved.principal policy_of call.reason

  -- What is recorded of this request.
  unfoldable pub event : String → Bool → List String → Option ℕ → Event
  event outcome allowed reasons latency = record {
    resolved = resolved;
    trace = trace;
    model_id = call.model_id;
    outcome = outcome;
    allowed = allowed;
    reason = call.reason;
    decision_reasons = reasons;
    latency = latency;
    estimated_input_tokens = estimated;
    token_budget_limit = Option.map (λ policy. policy.input_tokens_per_minute) policy_of;
    route = "/v1/infer/{model_id}";
  }

  unfoldable pub http_exception : ℕ → List String → Option (ℕ × ℕ) → Result Exception Reply
  http_exception status reasons budget = ok (
      refused (record {
        status_code = status;
        reasons = reasons;
        trace_id = trace.trace_id;
        traceparent = format_traceparent trace;
        budget = budget;
      }))

  -- Metrics, audit and trace of an outcome behind the policy.
  unfoldable pub record_outcome : Event → Gateway c → Gateway c
  record_outcome e g = write_and_export at e (count_outcome call.model_id e g)

  -- `if not decision.allowed`
  unfoldable pub deny : Gateway c → Result Exception Reply × Gateway c
  unfolding event http_exception
  deny g =
      let reasons = with_auth_failure decision_of.reasons resolved.failure_reason in
      let e = event "policy_denied" false reasons none in
      let (recorded, g') =
        denial_is_recorded at resolved
          (count_outcome (metric_model_label c.policies call.model_id) e g) in
      (http_exception 403 reasons none, if recorded then write_and_export at e g' else g')

  unfoldable pub answer :
      Principal
      → Result Exception (Option BackendResult)
      → Gateway c
      → Result Exception Reply × Gateway c
  unfolding event http_exception record_outcome
  answer principal (err e) g = (err e, g)
  answer principal (ok none) g = (
    http_exception 502 ("inference backend unavailable" ∷ []) none,
    record_outcome (event "backend_error" true ("inference backend unavailable" ∷ []) none) g,
  )
  answer principal (ok (some result)) g =
      let e = event "allowed" true decision_of.reasons (some result.latency) in
      let counted = count_outcome call.model_id (record e { decision_reasons = [] }) g in
      let observed : Gateway c = record counted {
        metrics = observe_latency counted.metrics call.model_id result.latency;
      } in
      (
        ok (
            answered (record {
              model_id = result.model_id;
              output = result.output;
              latency = result.latency;
              backend = result.backend;
              traceparent = format_traceparent trace;
              principal_id = principal.principal_id;
              auth_method = resolved.auth_method;
              decision_reasons = decision_of.reasons;
              trace_id = trace.trace_id;
              span_id = trace.span_id;
              estimated_input_tokens = estimated;
              token_budget_limit = Option.map (λ policy. policy.input_tokens_per_minute) policy_of;
            })),
        write_and_export at e observed,
      )

  -- `run_configured_inference`
  unfoldable pub run_backend : Principal → Gateway c → Result Exception Reply × Gateway c
  run_backend principal g =
      let (result, state) = c.backend.run g.backend_state call.model_id call.input in
      answer principal result (record g { backend_state = state })

  -- From the reply of the token limiter on.
  unfoldable pub after_token_limiter :
      Principal
      → ModelPolicy
      → Result Exception Bool
      → Gateway c
      → Result Exception Reply × Gateway c
  unfolding event http_exception record_outcome
  after_token_limiter principal policy (err e) g = (err e, g)
  after_token_limiter principal policy (ok true) g = run_backend principal g
  after_token_limiter principal policy (ok false) g = (
    http_exception 429 ("token budget exceeded" ∷ [])
        (some (estimated, policy.input_tokens_per_minute)),
    record_outcome (event "token_budget_limited" false ("token budget exceeded" ∷ []) none) g,
  )

  -- From the reply of the request limiter on.
  unfoldable pub after_rate_limiter :
      Principal
      → ModelPolicy
      → Result Exception Bool
      → Gateway c
      → Result Exception Reply × Gateway c
  unfolding event http_exception record_outcome
  after_rate_limiter principal policy (err e) g = (err e, g)
  after_rate_limiter principal policy (ok true) g =
      let (reply, g') = ask_token_limiter at principal call.model_id policy estimated g in
      after_token_limiter principal policy reply g'
  after_rate_limiter principal policy (ok false) g = (
    http_exception 429 ("rate limit exceeded" ∷ []) none,
    record_outcome (event "rate_limited" false ("rate limit exceeded" ∷ []) none) g,
  )

  -- Behind the two assertions.
  unfoldable pub admit :
      Option Principal → Option ModelPolicy → Gateway c → Result Exception Reply × Gateway c
  admit none policy g = (err assertion_error, g)
  admit (some principal) none g = (err assertion_error, g)
  admit (some principal) (some policy) g =
      let (reply, g') = ask_rate_limiter at principal call.model_id policy g in
      after_rate_limiter principal policy reply g'

  unfoldable pub decide_call : Gateway c → Result Exception Reply × Gateway c
  decide_call g =
      let counted = count_auth_event resolved g in
      if decision_of.allowed then admit resolved.principal policy_of counted else deny counted

-- `infer`
unfoldable pub infer :
    (c : Config) → Moment → InferenceCall → Gateway c → Result Exception Reply × Gateway c
infer c at call g = elim (resolve_trace_context call.traceparent at.new_trace_id at.new_span_id) [
  | err e ↦ (err e, g)
  | ok trace ↦
      elim (resolve_principal c.codec c.ticks c.auth_settings at.auth_now call.authorization
        call.x_principal_id) [
          | err e ↦ (err e, g)
          | ok resolved ↦ decide_call c at call trace resolved g
        ]
]
