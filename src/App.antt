-- ===== src/App.antt =====
-- gateway/app.py: the state of the service and what every handler does with it.
pub mod Recorded
pub mod Infer
pub mod Routes
pub mod Completion
pub mod Alike
pub mod Unrouted
mod Exported
use secure_gpu_inference_gat.Prelude.{
  ℕ, ◌+◌, String, Bool, true, false, not, ◌&&◌, ◌||◌, Option, none, some, List, [], ◌∷◌, ◌++◌, ◌==◌,
  string_eq, Result, ok, err, if◌then◌else◌,
}
use Prim.Native.String
use secure_gpu_inference_gat.Prelude.Int.{ℤ}
use secure_gpu_inference_gat.Errors.{Exception}
use secure_gpu_inference_gat.Text.{is_empty}
use secure_gpu_inference_gat.Dict
use secure_gpu_inference_gat.Dict.{Dict}
use secure_gpu_inference_gat.Models.{Principal, ModelPolicy, AuditEvent}
use secure_gpu_inference_gat.Identity.{AuthSettings, ResolvedPrincipal, Codec, truthy}
use secure_gpu_inference_gat.TraceContext.{RequestTrace}
use secure_gpu_inference_gat.Audit
use secure_gpu_inference_gat.Audit.{DenialAuditBudget}
use secure_gpu_inference_gat.Metrics.{
  GatewayMetrics, record_request, record_input_tokens, record_audit_suppressed, record_auth_event,
  observe_limiter_latency,
}

-- What the handlers ask of a limiter, in memory or in Redis.
pub record Limiter : Type 1 where
  pub State : Type 0
  pub backend_name : String
  -- `allow(principal_id, model_id, cost, limit)` at a time of the clock.
  pub allow : State → ℕ → String → String → ℕ → ℕ → Result Exception Bool × State

-- A result of the inference backend.
pub record BackendResult : Type 0 where
  pub model_id : String
  pub output : String
  pub latency : ℕ
  pub backend : String

pub record Backend : Type 1 where
  pub State : Type 0
  -- `run_configured_inference`: a result, none for a `BackendAdapterError`, or another exception.
  pub run : State → String → String → Result Exception (Option BackendResult) × State

-- The arguments of a call of `trace_exporter.write_span`.
pub record Span : Type 0 where
  pub trace : RequestTrace
  pub model_id : String
  pub outcome : String
  pub auth_method : String
  pub decision_reasons : List String
  pub latency : Option ℕ
  pub estimated_input_tokens : ℕ
  pub token_budget_limit : Option ℕ
  pub started_at : ℕ
  pub ended_at : ℕ
  pub route : String

-- What is fixed when the service starts.
pub record Config : Type 1 where
  pub codec : Codec
  pub ticks : ℕ
  pub auth_settings : AuthSettings
  pub policies : Dict String ModelPolicy
  pub exporting : Bool
  pub rate_limiter : Limiter
  pub token_budget_limiter : Limiter
  pub backend : Backend

-- The state that the handlers change.
pub record Gateway (c : Config) : Type 0 where
  pub rates : c.rate_limiter.State
  pub budgets : c.token_budget_limiter.State
  pub backend_state : c.backend.State
  pub metrics : GatewayMetrics
  pub audit_log : List AuditEvent
  pub spans : List Span
  pub denial_budget : DenialAuditBudget

-- What the clocks and the random source give during one request.
pub record Moment : Type 0 where
  pub auth_now : ℤ
  pub rate_now : ℕ
  pub budget_now : ℕ
  pub denial_now : ℕ
  pub started_at : ℕ
  pub ended_at : ℕ
  pub request_limiter_time : ℕ
  pub token_limiter_time : ℕ
  pub new_trace_id : String
  pub new_span_id : String

-- What an HTTPException says.
pub record HttpException : Type 0 where
  pub status_code : ℕ
  pub reasons : List String
  pub trace_id : String
  pub traceparent : String
  -- `estimated_input_tokens` and `input_tokens_per_minute`, of a request past its budget.
  pub budget : Option (ℕ × ℕ)

abbrev pub unknown_model_label : String
unknown_model_label = "unknown"

unfoldable pub metric_model_label : Dict String ModelPolicy → String → String
metric_model_label policies model_id = elim (Dict.get policies model_id) [
  | none ↦ unknown_model_label
  | some policy ↦ model_id
]

unfoldable pub with_auth_failure : List String → Option String → List String
with_auth_failure decision_reasons failure_reason = elim (truthy failure_reason) [
  | none ↦ decision_reasons
  | some reason ↦ String.◌++◌ "authentication failed: " reason ∷ decision_reasons
]

-- `resolved.subject or "unknown"` where there is no principal.
unfoldable pub audited_principal : ResolvedPrincipal → String
audited_principal resolved = elim resolved.principal [
  | some principal ↦ principal.principal_id
  | none ↦ elim (truthy resolved.subject) [ none ↦ "unknown" | some subject ↦ subject ]
]

unfoldable pub audit_event :
    ResolvedPrincipal
    → RequestTrace
    → String
    → Bool
    → Option String
    → List String
    → Option ℕ
    → ℕ
    → Option ℕ
    → AuditEvent
audit_event resolved trace model_id allowed reason decision_reasons latency estimated limit =
    record {
      principal_id = audited_principal resolved;
      model_id = model_id;
      allowed = allowed;
      reason = reason;
      decision_reasons = decision_reasons;
      latency_ms = latency;
      auth_method = some resolved.auth_method;
      auth_subject = resolved.subject;
      auth_issuer = resolved.issuer;
      trace_id = some trace.trace_id;
      span_id = some trace.span_id;
      parent_span_id = trace.parent_span_id;
      estimated_input_tokens = some estimated;
      token_budget_limit = limit;
    }

-- The arguments that the recording of an outcome has in common.
pub record Event : Type 0 where
  pub resolved : ResolvedPrincipal
  pub trace : RequestTrace
  pub model_id : String
  pub outcome : String
  pub allowed : Bool
  pub reason : Option String
  pub decision_reasons : List String
  pub latency : Option ℕ
  pub estimated_input_tokens : ℕ
  pub token_budget_limit : Option ℕ
  pub route : String

module _ {c : Config} where
  -- `audit_sink.write(audit_event(...))`
  unfoldable pub write_audit : Event → Gateway c → Gateway c
  write_audit e g = record g {
    audit_log =
        g.audit_log
        ++ audit_event e.resolved e.trace e.model_id e.allowed e.reason e.decision_reasons e.latency
            e.estimated_input_tokens e.token_budget_limit
          ∷ [];
  }

  unfoldable pub export_trace_span : Moment → Event → Gateway c → Gateway c
  export_trace_span at e g =
      if c.exporting
      then record g {
        spans =
            g.spans
            ++ record {
              trace = e.trace;
              model_id = e.model_id;
              outcome = e.outcome;
              auth_method = e.resolved.auth_method;
              decision_reasons = e.decision_reasons;
              latency = e.latency;
              estimated_input_tokens = e.estimated_input_tokens;
              token_budget_limit = e.token_budget_limit;
              started_at = at.started_at;
              ended_at = at.ended_at;
              route = e.route;
            }
              ∷ [];
      }
      else g

  -- An authenticated denial is always written; others as far as the budget goes.
  unfoldable pub denial_is_recorded : Moment → ResolvedPrincipal → Gateway c → Bool × Gateway c
  denial_is_recorded at resolved g = elim resolved.principal [
    | some principal ↦ (true, g)
    | none ↦
        let (allowed, budget) = Audit.allow c.ticks g.denial_budget at.denial_now in
        let g' : Gateway c = record g { denial_budget = budget } in
        if allowed
        then (true, g')
        else (false, record g' { metrics = record_audit_suppressed g'.metrics })
  ]

  -- `metrics.record_request` and `metrics.record_input_tokens`, under a label.
  unfoldable pub count_outcome : String → Event → Gateway c → Gateway c
  count_outcome label e g = record g {
    metrics =
        record_input_tokens (record_request g.metrics label e.outcome e.decision_reasons) label
          e.outcome e.estimated_input_tokens;
  }

  unfoldable pub write_and_export : Moment → Event → Gateway c → Gateway c
  write_and_export at e g = export_trace_span at e (write_audit e g)

  unfoldable pub count_auth_event : ResolvedPrincipal → Gateway c → Gateway c
  count_auth_event resolved g = record g {
    metrics =
        record_auth_event g.metrics resolved.auth_method
          (elim resolved.principal [ none ↦ "failed" | some p ↦ "accepted" ]);
  }

  -- One call of the request limiter, with the observation of its latency if it returns.
  unfoldable pub ask_rate_limiter :
      Moment → Principal → String → ModelPolicy → Gateway c → Result Exception Bool × Gateway c
  ask_rate_limiter at principal model_id policy g =
      let (reply, rates) =
        c.rate_limiter.allow g.rates at.rate_now principal.principal_id model_id 1
          policy.requests_per_minute in
      (
        reply,
        record g {
          rates = rates;
          metrics = elim reply [
            | err e ↦ g.metrics
            | ok b ↦
                observe_limiter_latency g.metrics "requests" c.rate_limiter.backend_name
                  at.request_limiter_time
          ];
        },
      )

  unfoldable pub ask_token_limiter :
      Moment → Principal → String → ModelPolicy → ℕ → Gateway c → Result Exception Bool × Gateway c
  ask_token_limiter at principal model_id policy cost g =
      let (reply, budgets) =
        c.token_budget_limiter.allow g.budgets at.budget_now principal.principal_id model_id cost
          policy.input_tokens_per_minute in
      (
        reply,
        record g {
          budgets = budgets;
          metrics = elim reply [
            | err e ↦ g.metrics
            | ok b ↦
                observe_limiter_latency g.metrics "input_tokens" c.token_budget_limiter.backend_name
                  at.token_limiter_time
          ];
        },
      )
