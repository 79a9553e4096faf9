-- ===== src/App/Infer/Recording.antt =====
-- The audit events of the handler of gateway/app.py.
use secure_gpu_inference_gat.Prelude.{
  ◌≡◌, refl, ap, ◌∙◌, Bool, true, false, Option, none, some, [], Result, ok, err, nat_beq,
  string_eq, inl, inr, Bool-cases,
}
use secure_gpu_inference_gat.Errors.{Exception}
use mathlib.Core.Option
use secure_gpu_inference_gat.Dict
use secure_gpu_inference_gat.TokenBudget.{estimate_input_tokens}
use secure_gpu_inference_gat.Models.{Principal, ModelPolicy, AuditEvent}
use secure_gpu_inference_gat.Identity.{ResolvedPrincipal}
use secure_gpu_inference_gat.Identity.Resolve.{resolve_principal}
use secure_gpu_inference_gat.Metrics.{observe_latency}
use secure_gpu_inference_gat.TraceContext.{RequestTrace, resolve_trace_context}
use secure_gpu_inference_gat.Audit.{DenialAuditBudget}
use secure_gpu_inference_gat.App.{
  Config, Gateway, Moment, BackendResult, Event, audit_event, metric_model_label, with_auth_failure,
  count_outcome, ask_rate_limiter, ask_token_limiter, count_auth_event,
}
use secure_gpu_inference_gat.App.Recorded.{
  Log, recorded, entry, slot, event_of, recorded-observe, recorded-count_outcome,
  recorded-write_and_export, recorded-count_auth_event, recorded-ask_rate_limiter,
  recorded-ask_token_limiter, recorded-denial,
}
use secure_gpu_inference_gat.App.Infer.{
  InferenceCall, Reply, refused, answered, event, estimated, decision_of, policy_of, record_outcome,
  http_exception, deny, answer, run_backend, after_token_limiter, after_rate_limiter, admit,
  decide_call, infer,
}

module _ (c : Config) (call : InferenceCall) (trace : RequestTrace)
    (resolved : ResolvedPrincipal) where
  -- The audit event that belongs to a reply: its caller, its trace and its model, whether the request
  -- was let through to the backend, and the reasons and the latency that the reply itself gives.
  abbrev pub audited : Reply → AuditEvent
  audited (refused exception) =
      audit_event resolved trace call.model_id (nat_beq exception.status_code 502) call.reason
        exception.reasons none (estimate_input_tokens call.input)
        (Option.map (λ policy. policy.input_tokens_per_minute) (Dict.get c.policies call.model_id))
  audited (answered response) =
      audit_event resolved trace call.model_id true call.reason response.decision_reasons
        (some response.latency) (estimate_input_tokens call.input)
        (Option.map (λ policy. policy.input_tokens_per_minute) (Dict.get c.policies call.model_id))

  -- What a run adds: the event of its reply, or nothing where an exception leaves.
  abbrev pub log_with : Bool → Result Exception Reply → Log → Log
  log_with written (err e) log = log
  log_with written (ok reply) log = entry written (audited reply) log

module _ (c : Config) (at : Moment) (call : InferenceCall) (trace : RequestTrace)
    (resolved : ResolvedPrincipal) where
  -- The run of a part of the handler puts the event of its reply into the log.
  abbrev Records : Bool → Gateway c → Result Exception Reply × Gateway c → Type 0
  Records written g run = recorded run.1 ≡ log_with c call trace resolved written run.0 (recorded g)

  -- What was done before the run has left the log alone.
  Records-after :
      (written : Bool) (g g' : Gateway c) (run : Result Exception Reply × Gateway c)
      → Records written g' run
      → recorded g' ≡ recorded g
      → Records written g run
  Records-after written g g' run h same = h ∙ ap (log_with c call trace resolved written run.0) same

  record_outcome-recorded :
      (e : Event) (g : Gateway c)
      → recorded (record_outcome c at call trace resolved e g)
        ≡ entry true (event_of e) (recorded g)
  unfolding record_outcome
  record_outcome-recorded e g =
      recorded-write_and_export (count_outcome call.model_id e g) at e
      ∙ ap (entry true (event_of e)) (recorded-count_outcome g call.model_id e)

  deny-Records :
      (g : Gateway c)
      → Records
          (slot c.ticks at resolved.principal g.denial_budget)
          g
          (deny c at call trace resolved g)
  unfolding deny event http_exception count_outcome
  deny-Records g =
      let e =
        event c at call trace resolved "policy_denied" false
          (with_auth_failure (decision_of c at call trace resolved).reasons resolved.failure_reason)
          none in
      let label = metric_model_label c.policies call.model_id in
      recorded-denial (count_outcome label e g) at resolved e
      ∙ ap (entry (slot c.ticks at resolved.principal g.denial_budget) (event_of e))
          (recorded-count_outcome g label e)

  answer-Records :
      (p : Principal) (result : Result Exception (Option BackendResult)) (g : Gateway c)
      → Records true g (answer c at call trace resolved p result g)
  unfolding answer event http_exception
  answer-Records p (err e) g = refl
  answer-Records p (ok none) g = record_outcome-recorded _ g
  answer-Records p (ok (some result)) g =
      let e =
        event c at call trace resolved "allowed" true (decision_of c at call trace resolved).reasons
          (some result.latency) in
      let counted = count_outcome call.model_id (record e { decision_reasons = [] }) g in
      recorded-write_and_export
        (record counted { metrics = observe_latency counted.metrics call.model_id result.latency })
        at e
      ∙ ap (entry true (event_of e)) (
          recorded-observe counted call.model_id result.latency
          ∙ recorded-count_outcome g call.model_id (record e { decision_reasons = [] }))

  run_backend-Records :
      (p : Principal) (g : Gateway c) → Records true g (run_backend c at call trace resolved p g)
  unfolding run_backend recorded
  run_backend-Records p g =
      let (result, state) = c.backend.run g.backend_state call.model_id call.input in
      answer-Records p result (record g { backend_state = state })

  after_token_limiter-Records :
      (p : Principal) (policy : ModelPolicy) (reply : Result Exception Bool) (g : Gateway c)
      → Records true g (after_token_limiter c at call trace resolved p policy reply g)
  unfolding after_token_limiter event http_exception
  after_token_limiter-Records p policy (err e) g = refl
  after_token_limiter-Records p policy (ok true) g = run_backend-Records p g
  after_token_limiter-Records p policy (ok false) g = record_outcome-recorded _ g

  after_rate_limiter-Records :
      (p : Principal) (policy : ModelPolicy) (reply : Result Exception Bool) (g : Gateway c)
      → Records true g (after_rate_limiter c at call trace resolved p policy reply g)
  unfolding after_rate_limiter event http_exception
  after_rate_limiter-Records p policy (err e) g = refl
  after_rate_limiter-Records p policy (ok true) g =
      let tokens = estimated c at call trace resolved in
      let (reply, g') = ask_token_limiter at p call.model_id policy tokens g in
      Records-after true g g' (after_token_limiter c at call trace resolved p policy reply g')
        (after_token_limiter-Records p policy reply g')
        (recorded-ask_token_limiter g at p call.model_id policy tokens)
  after_rate_limiter-Records p policy (ok false) g = record_outcome-recorded _ g

  admit-Records :
      (p? : Option Principal) (policy? : Option ModelPolicy) (budget : DenialAuditBudget)
      (g : Gateway c)
      → Records (slot c.ticks at p? budget) g (admit c at call trace resolved p? policy? g)
  unfolding admit
  admit-Records none policy budget g = refl
  admit-Records (some p) none budget g = refl
  admit-Records (some p) (some policy) budget g =
      let (reply, g') = ask_rate_limiter at p call.model_id policy g in
      Records-after true g g' (after_rate_limiter c at call trace resolved p policy reply g')
        (after_rate_limiter-Records p policy reply g')
        (recorded-ask_rate_limiter g at p call.model_id policy)

  decide_call-Records :
      (g : Gateway c)
      → Records
          (slot c.ticks at resolved.principal g.denial_budget)
          g
          (decide_call c at call trace resolved g)
  unfolding decide_call count_auth_event
  decide_call-Records g =
      let counted = count_auth_event resolved g in
      let p? = resolved.principal in
      let policy? = policy_of c at call trace resolved in
      elim (Bool-cases (decision_of c at call trace resolved).allowed) [
        | inl allowed ↦
            rw (allowed, decide_call)
              (Records-after (slot c.ticks at p? g.denial_budget) g counted
                (admit c at call trace resolved p? policy? counted)
                (admit-Records p? policy? g.denial_budget counted)
                (recorded-count_auth_event g resolved))
        | inr denied ↦
            rw (denied, decide_call)
              (Records-after (slot c.ticks at p? g.denial_budget) g counted
                (deny c at call trace resolved counted) (deny-Records counted)
                (recorded-count_auth_event g resolved))
      ]

-- A call whose trace and caller are resolved, and that is answered, whatever the answer, puts one
-- event behind the audit log, which names the caller, the trace and the model, is allowed exactly for
-- an answer and for a failure of the backend, and has the reasons of the reply; nothing is suppressed.
-- But where the caller is unknown and the denial budget has no slot left, the log stays as it is and
-- one more denial is counted as suppressed. A call that an exception ends changes neither.
pub infer-recorded :
    (c : Config) (at : Moment) (call : InferenceCall) (g : Gateway c) (trace : RequestTrace)
    (resolved : ResolvedPrincipal)
    → resolve_trace_context call.traceparent at.new_trace_id at.new_span_id ≡ ok trace
    → resolve_principal c.codec c.ticks c.auth_settings at.auth_now call.authorization
        call.x_principal_id
      ≡ ok resolved
    → recorded (infer c at call g).1
      ≡ log_with c call trace resolved
          (slot c.ticks at resolved.principal g.denial_budget)
          (infer c at call g).0
          (recorded g)
unfolding infer
infer-recorded c at call g trace resolved e f =
    rw (e, f, infer) (decide_call-Records c at call trace resolved g)
