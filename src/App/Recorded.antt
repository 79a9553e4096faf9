-- ===== src/App/Recorded.antt =====
-- The audit events and the count of suppressed denials, and what each helper adds to them.
use secure_gpu_inference_gat.Prelude.{
  ℕ, ◌+◌, String, ◌≡◌, refl, Bool, true, false, Bool-cases, Option-cases, inl, inr, ◌∙◌, arith,
  Option, none, some, List, [], ◌∷◌, ◌++◌, if◌then◌else◌,
}
use secure_gpu_inference_gat.Audit
use secure_gpu_inference_gat.Audit.{DenialAuditBudget}
use secure_gpu_inference_gat.Models.{Principal, ModelPolicy, AuditEvent}
use secure_gpu_inference_gat.Identity.{ResolvedPrincipal}
use secure_gpu_inference_gat.Metrics.{
  record_request, record_input_tokens, record_audit_suppressed, record_auth_event, observe_latency,
  observe_limiter_latency,
}
use secure_gpu_inference_gat.App.{
  Config, Gateway, Moment, Event, audit_event, write_audit, export_trace_span, denial_is_recorded,
  count_outcome, write_and_export, count_auth_event, ask_rate_limiter, ask_token_limiter,
}

abbrev pub event_of : Event → AuditEvent
event_of e =
    audit_event e.resolved e.trace e.model_id e.allowed e.reason e.decision_reasons e.latency
      e.estimated_input_tokens e.token_budget_limit

-- The audit events, and the number of denials that were suppressed.
abbrev pub Log : Type 0
Log = List AuditEvent × ℕ

unfoldable pub recorded : {c : Config} → Gateway c → Log
recorded g = (g.audit_log, g.metrics.audit_suppressed)

-- One more event, or one more denial that is only counted.
abbrev pub entry : Bool → AuditEvent → Log → Log
entry true e log = (log.0 ++ e ∷ [], log.1)
entry false e log = (log.0, log.1 + 1)

-- A caller that is known is always put into the log, another one while its budget lasts.
abbrev pub slot : ℕ → Moment → Option Principal → DenialAuditBudget → Bool
slot ticks at (some p) budget = true
slot ticks at none budget = (Audit.allow ticks budget at.denial_now).0

module _ {c : Config} (g : Gateway c) where
  pub recorded-count_outcome :
      (label : String) (e : Event) → recorded (count_outcome label e g) ≡ recorded g
  unfolding recorded count_outcome record_request record_input_tokens
  recorded-count_outcome label e = refl

  recorded-export : (at : Moment) (e : Event) → recorded (export_trace_span at e g) ≡ recorded g
  unfolding recorded export_trace_span
  recorded-export at e = elim (Bool-cases c.exporting) [
    | inl on ↦ rw (on, export_trace_span) refl
    | inr off ↦ rw (off, export_trace_span) refl
  ]

  recorded-write : (e : Event) → recorded (write_audit e g) ≡ entry true (event_of e) (recorded g)
  unfolding recorded write_audit
  recorded-write e = refl

module _ {c : Config} (g : Gateway c) where
  pub recorded-write_and_export :
      (at : Moment) (e : Event)
      → recorded (write_and_export at e g) ≡ entry true (event_of e) (recorded g)
  unfolding write_and_export
  recorded-write_and_export at e = recorded-export (write_audit e g) at e ∙ recorded-write g e

  pub recorded-observe :
      (model_id : String) (latency : ℕ)
      → let g' : Gateway c = record g { metrics = observe_latency g.metrics model_id latency } in
        recorded g' ≡ recorded g
  unfolding recorded observe_latency
  recorded-observe model_id latency = refl

  pub recorded-count_auth_event :
      (resolved : ResolvedPrincipal) → recorded (count_auth_event resolved g) ≡ recorded g
  unfolding recorded count_auth_event record_auth_event
  recorded-count_auth_event resolved = refl

  pub recorded-ask_rate_limiter :
      (at : Moment) (p : Principal) (m : String) (policy : ModelPolicy)
      → recorded (ask_rate_limiter at p m policy g).1 ≡ recorded g
  unfolding recorded ask_rate_limiter observe_limiter_latency
  recorded-ask_rate_limiter at p m policy = ground arith

  pub recorded-ask_token_limiter :
      (at : Moment) (p : Principal) (m : String) (policy : ModelPolicy) (cost : ℕ)
      → recorded (ask_token_limiter at p m policy cost g).1 ≡ recorded g
  unfolding recorded ask_token_limiter observe_limiter_latency
  recorded-ask_token_limiter at p m policy cost = ground arith

denied_if :
    {c : Config} (allowed : Bool) (at : Moment) (e : Event) (g : Gateway c)
    → let suppressed : Gateway c = record g { metrics = record_audit_suppressed g.metrics } in
      let (written, g') : Bool × Gateway c = if allowed then (true, g) else (false, suppressed) in
      recorded (if written then write_and_export at e g' else g')
      ≡ entry allowed (event_of e) (recorded g)
unfolding recorded record_audit_suppressed
denied_if true at e g = recorded-write_and_export g at e
denied_if false at e g = refl

-- A denial is written where there is a slot for it, and counted as suppressed where there is none.
pub recorded-denial :
    {c : Config} (g : Gateway c) (at : Moment) (resolved : ResolvedPrincipal) (e : Event)
    → let (written, g') = denial_is_recorded at resolved g in
      recorded (if written then write_and_export at e g' else g')
      ≡ entry (slot c.ticks at resolved.principal g.denial_budget) (event_of e) (recorded g)
unfolding denial_is_recorded recorded
recorded-denial {c} g at resolved e = elim (Option-cases resolved.principal) [
  | inl absent ↦
      let (allowed, budget) = Audit.allow c.ticks g.denial_budget at.denial_now in
      rw (absent, denial_is_recorded) (denied_if allowed at e (record g { denial_budget = budget }))
  | inr (p, given) ↦ rw (given, denial_is_recorded) (recorded-write_and_export g at e)
]
