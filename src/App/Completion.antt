-- ===== src/App/Completion.antt =====
-- gateway/app.py: the proxy of POST /v1/completions. What the upstream sends is a list of chunks,
-- which may break off; the texts of the server-timing header are left out.
pub mod Proxy
pub mod Stream
pub mod Records
pub mod Recording
pub mod Guard
use secure_gpu_inference_gat.Prelude.{
  ℕ, zero, suc, String, Bool, true, false, not, Option, none, some, List, [], ◌∷◌, ◌++◌, ◌==◌,
  string_eq, Result, ok, err, if◌then◌else◌,
}
use secure_gpu_inference_gat.Errors.{Exception, assertion_error}
use secure_gpu_inference_gat.Dict
use mathlib.Core.Option
use secure_gpu_inference_gat.Models.{Principal, ModelPolicy, PolicyDecision}
use secure_gpu_inference_gat.Identity.{ResolvedPrincipal}
use secure_gpu_inference_gat.Identity.Resolve.{resolve_principal}
use secure_gpu_inference_gat.Policy.{evaluate_policy}
use secure_gpu_inference_gat.TokenBudget.{estimate_input_tokens}
use secure_gpu_inference_gat.TraceContext.{RequestTrace, resolve_trace_context, format_traceparent}
use secure_gpu_inference_gat.Metrics.{observe_latency}
use secure_gpu_inference_gat.App.{
  Config, Gateway, Moment, Event, HttpException, metric_model_label, with_auth_failure,
  denial_is_recorded, count_outcome, write_and_export, count_auth_event, ask_rate_limiter,
  ask_token_limiter,
}

-- `CompletionRequest` with the headers; the fields that are only passed on are one text.
pub record CompletionCall : Type 0 where
  pub model : String
  pub prompt : String
  pub stream : Bool
  pub payload : String
  pub x_inference_reason : Option String
  pub authorization : Option String
  pub x_principal_id : Option String
  pub traceparent : Option String

abbrev pub Chunk : Type 0
Chunk = List ℕ

-- A response that `open_completion_response` has opened: what `iter_raw` yields, and whether it
-- raises an httpx.HTTPError behind that.
pub record UpstreamResponse : Type 0 where
  pub status_code : ℕ
  pub chunks : List Chunk
  pub breaks_off : Bool

-- The upstream: a response, or a `BackendAdapterError`.
pub record Upstream : Type 1 where
  pub State : Type 0
  pub open_response : State → CompletionCall → Option UpstreamResponse × State

pub record CompletionAdmission : Type 0 where
  pub resolved : ResolvedPrincipal
  pub trace : RequestTrace
  pub model_id : String
  pub reason : Option String
  pub decision_reasons : List String
  pub estimated_input_tokens : ℕ
  pub token_budget_limit : ℕ

-- What `admit_completion` gives: an admission, or the HTTPException that it raises.
pub data Admission : Type 0 where
  denied : HttpException → Admission
  admitted : CompletionAdmission → Admission

abbrev backend_unavailable : List String
backend_unavailable = "inference backend unavailable" ∷ []

module _ {c : Config} where
  -- `if outcome == "allowed" and latency_ms is not None`
  unfoldable pub observe_allowed : Event → Gateway c → Gateway c
  observe_allowed e g = elim e.latency [
    | none ↦ g
    | some latency ↦
        if e.outcome == "allowed"
        then record g {
          metrics = observe_latency g.metrics (metric_model_label c.policies e.model_id) latency;
        }
        else g
  ]

  -- `record_completion_event_fields`
  unfoldable pub record_completion_event_fields : Moment → Event → Gateway c → Gateway c
  record_completion_event_fields at e g =
      let counted =
        observe_allowed e (count_outcome (metric_model_label c.policies e.model_id) e g) in
      if e.allowed
      then write_and_export at e counted
      else let (written, g') = denial_is_recorded at e.resolved counted in
        if written then write_and_export at e g' else g'

  -- `record_completion_event`
  unfoldable pub record_completion_event :
      Moment → CompletionAdmission → String → List String → ℕ → Gateway c → Gateway c
  record_completion_event at admission outcome decision_reasons latency g =
      record_completion_event_fields at
        (record {
          resolved = admission.resolved;
          trace = admission.trace;
          model_id = admission.model_id;
          outcome = outcome;
          allowed = true;
          reason = admission.reason;
          decision_reasons = decision_reasons;
          latency = some latency;
          estimated_input_tokens = admission.estimated_input_tokens;
          token_budget_limit = some admission.token_budget_limit;
          route = "/v1/completions";
        })
        g

-- The HTTPException of a trace.
abbrev pub http_error : RequestTrace → ℕ → List String → Option (ℕ × ℕ) → HttpException
http_error trace status reasons budget = record {
  status_code = status;
  reasons = reasons;
  trace_id = trace.trace_id;
  traceparent = format_traceparent trace;
  budget = budget;
}

module _ (c : Config) (at : Moment) (call : CompletionCall) (trace : RequestTrace)
    (resolved : ResolvedPrincipal) where
  abbrev pub policy_of : Option ModelPolicy
  policy_of = Dict.get c.policies call.model

  abbrev pub estimated : ℕ
  estimated = estimate_input_tokens call.prompt

  abbrev pub decision_of : PolicyDecision
  decision_of = evaluate_policy resolved.principal policy_of call.x_inference_reason

  abbrev pub reasons_of : List String
  reasons_of = with_auth_failure decision_of.reasons resolved.failure_reason

  abbrev pub denial : String → List String → Event
  denial outcome reasons = record {
    resolved = resolved;
    trace = trace;
    model_id = call.model;
    outcome = outcome;
    allowed = false;
    reason = call.x_inference_reason;
    decision_reasons = reasons;
    latency = none;
    estimated_input_tokens = estimated;
    token_budget_limit = Option.map (λ policy. policy.input_tokens_per_minute) policy_of;
    route = "/v1/completions";
  }

  -- A denial on record, and the HTTPException for it.
  unfoldable pub refuse :
      String → List String → ℕ → Option (ℕ × ℕ) → Gateway c → Result Exception Admission × Gateway c
  refuse outcome reasons status budget g = (
    ok (denied (http_error trace status reasons budget)),
    record_completion_event_fields at (denial outcome reasons) g,
  )

  -- From the reply of the token limiter on.
  unfoldable pub admit_tokens :
      ModelPolicy → Result Exception Bool → Gateway c → Result Exception Admission × Gateway c
  admit_tokens policy (err e) g = (err e, g)
  admit_tokens policy (ok false) g =
      refuse "token_budget_limited" ("token budget exceeded" ∷ []) 429
        (some (estimated, policy.input_tokens_per_minute)) g
  admit_tokens policy (ok true) g = (
    ok (
        admitted (record {
          resolved = resolved;
          trace = trace;
          model_id = call.model;
          reason = call.x_inference_reason;
          decision_reasons = reasons_of;
          estimated_input_tokens = estimated;
          token_budget_limit = policy.input_tokens_per_minute;
        })),
    g,
  )

  -- From the reply of the request limiter on.
  unfoldable pub admit_rate :
      Principal
      → ModelPolicy
      → Result Exception Bool
      → Gateway c
      → Result Exception Admission × Gateway c
  admit_rate principal policy (err e) g = (err e, g)
  admit_rate principal policy (ok false) g =
      refuse "rate_limited" ("rate limit exceeded" ∷ []) 429 none g
  admit_rate principal policy (ok true) g =
      let (reply, g') = ask_token_limiter at principal call.model policy estimated g in
      admit_tokens policy reply g'

  -- Behind the three assertions.
  unfoldable pub admit_known :
      Option Principal → Option ModelPolicy → Gateway c → Result Exception Admission × Gateway c
  admit_known none policy g = (err assertion_error, g)
  admit_known (some principal) none g = (err assertion_error, g)
  admit_known (some principal) (some policy) g =
      let (reply, g') = ask_rate_limiter at principal call.model policy g in
      admit_rate principal policy reply g'

  unfoldable pub admit_resolved : Gateway c → Result Exception Admission × Gateway c
  admit_resolved g =
      let counted = count_auth_event resolved g in
      if decision_of.allowed
      then admit_known resolved.principal policy_of counted
      else refuse "policy_denied" reasons_of 403 none counted

-- `admit_completion`
unfoldable pub admit_completion :
    (c : Config) → Moment → CompletionCall → Gateway c → Result Exception Admission × Gateway c
admit_completion c at call g =
    elim (resolve_trace_context call.traceparent at.new_trace_id at.new_span_id) [
      | err e ↦ (err e, g)
      | ok trace ↦
          elim (resolve_principal c.codec c.ticks c.auth_settings at.auth_now call.authorization
            call.x_principal_id) [
              | err e ↦ (err e, g)
              | ok resolved ↦ admit_resolved c at call trace resolved g
            ]
    ]
