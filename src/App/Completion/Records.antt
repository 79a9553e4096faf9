-- ===== src/App/Completion/Records.antt =====
-- The audit events of the admission to the proxy of gateway/app.py, and of an outcome behind it.
use secure_gpu_inference_gat.Prelude.{
  ℕ, String, ◌≡◌, refl, ap, ◌∙◌, Bool, true, false, Bool-cases, Option-cases, ◌==◌, inl, inr,
  Option, none, some, List, Result, ok, err, string_eq,
}
use secure_gpu_inference_gat.Errors.{Exception}
use mathlib.Core.Option
use secure_gpu_inference_gat.Dict
use secure_gpu_inference_gat.TokenBudget.{estimate_input_tokens}
use secure_gpu_inference_gat.Policy.{evaluate_policy}
use secure_gpu_inference_gat.Models.{Principal, ModelPolicy, AuditEvent}
use secure_gpu_inference_gat.Identity.{ResolvedPrincipal}
use secure_gpu_inference_gat.TraceContext.{RequestTrace}
use secure_gpu_inference_gat.Audit.{DenialAuditBudget}
use secure_gpu_inference_gat.App.{
  Config, Gateway, Moment, Event, audit_event, metric_model_label, with_auth_failure, count_outcome,
  count_auth_event, ask_rate_limiter, ask_token_limiter,
}
use secure_gpu_inference_gat.App.Recorded.{
  Log, recorded, entry, slot, event_of, recorded-observe, recorded-count_outcome,
  recorded-write_and_export, recorded-count_auth_event, recorded-ask_rate_limiter,
  recorded-ask_token_limiter, recorded-denial,
}
use secure_gpu_inference_gat.App.Completion.{
  CompletionCall, CompletionAdmission, Admission, denied, admitted, observe_allowed,
  record_completion_event_fields, record_completion_event, policy_of, estimated, decision_of,
  reasons_of, denial, refuse, admit_tokens, admit_rate, admit_known, admit_resolved,
}

module _ (c : Config) (call : CompletionCall) (trace : RequestTrace)
    (resolved : ResolvedPrincipal) where
  -- The audit event of this call, by what its outcome decides.
  abbrev pub audited : Bool → List String → Option ℕ → AuditEvent
  audited allowed reasons latency =
      audit_event resolved trace call.model allowed call.x_inference_reason reasons latency
        (estimate_input_tokens call.prompt)
        (Option.map (λ policy. policy.input_tokens_per_minute) (Dict.get c.policies call.model))

  -- The reasons that the policy gives, with the failure of the authentication.
  abbrev pub policy_reasons : List String
  policy_reasons =
      with_auth_failure
        (evaluate_policy resolved.principal (Dict.get c.policies call.model)
          call.x_inference_reason).reasons
        resolved.failure_reason

  -- What the admission adds: the event of a refusal.
  abbrev pub log_with_admission : Bool → Result Exception Admission → Log → Log
  log_with_admission written (err e) log = log
  log_with_admission written (ok (admitted admission)) log = log
  log_with_admission written (ok (denied exception)) log =
      entry written (audited false exception.reasons none) log

module _ {c : Config} (g : Gateway c) where
  recorded-observe_allowed : (e : Event) → recorded (observe_allowed e g) ≡ recorded g
  unfolding observe_allowed
  recorded-observe_allowed e = elim (Option-cases e.latency) [
    | inl absent ↦ rw (absent, observe_allowed) refl
    | inr (latency, given) ↦ elim (Bool-cases (e.outcome == "allowed")) [
      | inl same ↦
          rw (given, same, observe_allowed)
            (recorded-observe g (metric_model_label c.policies e.model_id) latency)
      | inr other ↦ rw (given, other, observe_allowed) refl
    ]
  ]

-- The event of an outcome behind the admission.
abbrev pub admitted_event : CompletionAdmission → List String → ℕ → AuditEvent
admitted_event admission reasons latency =
    audit_event admission.resolved admission.trace admission.model_id true admission.reason reasons
      (some latency) admission.estimated_input_tokens (some admission.token_budget_limit)

pub recorded-completion :
    {c : Config} (at : Moment) (admission : CompletionAdmission) (outcome : String)
    (reasons : List String) (latency : ℕ) (g : Gateway c)
    → recorded (record_completion_event at admission outcome reasons latency g)
      ≡ entry true (admitted_event admission reasons latency) (recorded g)
unfolding record_completion_event record_completion_event_fields
recorded-completion {c} at admission outcome reasons latency g =
    let e : Event = record {
      resolved = admission.resolved;
      trace = admission.trace;
      model_id = admission.model_id;
      outcome = outcome;
      allowed = true;
      reason = admission.reason;
      decision_reasons = reasons;
      latency = some latency;
      estimated_input_tokens = admission.estimated_input_tokens;
      token_budget_limit = some admission.token_budget_limit;
      route = "/v1/completions";
    } in
    let label = metric_model_label c.policies e.model_id in
    let counted = count_outcome label e g in
    recorded-write_and_export (observe_allowed e counted) at e
    ∙ ap (entry true (event_of e))
        (recorded-observe_allowed counted e ∙ recorded-count_outcome g label e)

module _ (c : Config) (at : Moment) (call : CompletionCall) (trace : RequestTrace)
    (resolved : ResolvedPrincipal) where
  abbrev pub Records : Bool → Gateway c → Result Exception Admission × Gateway c → Type 0
  Records written g run =
      recorded run.1 ≡ log_with_admission c call trace resolved written run.0 (recorded g)

  -- What was done before the run has left the log alone.
  Records-after :
      (written : Bool) (g g' : Gateway c) (run : Result Exception Admission × Gateway c)
      → Records written g' run
      → recorded g' ≡ recorded g
      → Records written g run
  Records-after written g g' run h same =
      h ∙ ap (log_with_admission c call trace resolved written run.0) same

  refuse-Records :
      (outcome : String) (reasons : List String) (status : ℕ) (budget : Option (ℕ × ℕ))
      (g : Gateway c)
      → Records
          (slot c.ticks at resolved.principal g.denial_budget)
          g
          (refuse c at call trace resolved outcome reasons status budget g)
  unfolding refuse record_completion_event_fields observe_allowed count_outcome
  refuse-Records outcome reasons status budget g =
      let e = denial c at call trace resolved outcome reasons in
      let label = metric_model_label c.policies call.model in
      recorded-denial (count_outcome label e g) at resolved e
      ∙ ap (entry (slot c.ticks at resolved.principal g.denial_budget) (event_of e))
          (recorded-count_outcome g label e)

  -- The refusal of a caller that is known is put into the log.
  refuse-known :
      (p : Principal) (outcome : String) (reasons : List String) (status : ℕ)
      (budget : Option (ℕ × ℕ)) (g : Gateway c)
      → resolved.principal ≡ some p
      → Records true g (refuse c at call trace resolved outcome reasons status budget g)
  refuse-known p outcome reasons status budget g known =
      refuse-Records outcome reasons status budget g
      ∙ ap
          (λ p?.
            log_with_admission c call trace resolved (slot c.ticks at p? g.denial_budget)
              (refuse c at call trace resolved outcome reasons status budget g).0 (recorded g))
          known

  admit_tokens-Records :
      (p : Principal) (policy : ModelPolicy) (reply : Result Exception Bool) (g : Gateway c)
      → resolved.principal ≡ some p
      → Records true g (admit_tokens c at call trace resolved policy reply g)
  unfolding admit_tokens
  admit_tokens-Records p policy (err e) g known = refl
  admit_tokens-Records p policy (ok false) g known = refuse-known p _ _ _ _ g known
  admit_tokens-Records p policy (ok true) g known = refl

  admit_rate-Records :
      (p : Principal) (policy : ModelPolicy) (reply : Result Exception Bool) (g : Gateway c)
      → resolved.principal ≡ some p
      → Records true g (admit_rate c at call trace resolved p policy reply g)
  unfolding admit_rate
  admit_rate-Records p policy (err e) g known = refl
  admit_rate-Records p policy (ok false) g known = refuse-known p _ _ _ _ g known
  admit_rate-Records p policy (ok true) g known =
      let tokens = estimated c at call trace resolved in
      let (reply, g') = ask_token_limiter at p call.model policy tokens g in
      Records-after true g g' (admit_tokens c at call trace resolved policy reply g')
        (admit_tokens-Records p policy reply g' known)
        (recorded-ask_token_limiter g at p call.model policy tokens)

  admit_known-Records :
      (p? : Option Principal) (policy? : Option ModelPolicy) (budget : DenialAuditBudget)
      (g : Gateway c)
      → resolved.principal ≡ p?
      → Records (slot c.ticks at p? budget) g (admit_known c at call trace resolved p? policy? g)
  unfolding admit_known
  admit_known-Records none policy budget g known = refl
  admit_known-Records (some p) none budget g known = refl
  admit_known-Records (some p) (some policy) budget g known =
      let (reply, g') = ask_rate_limiter at p call.model policy g in
      Records-after true g g' (admit_rate c at call trace resolved p policy reply g')
        (admit_rate-Records p policy reply g' known)
        (recorded-ask_rate_limiter g at p call.model policy)

  pub admit_resolved-Records :
      (g : Gateway c)
      → Records
          (slot c.ticks at resolved.principal g.denial_budget)
          g
          (admit_resolved c at call trace resolved g)
  unfolding admit_resolved count_auth_event
  admit_resolved-Records g =
      let counted = count_auth_event resolved g in
      let p? = resolved.principal in
      let policy? = policy_of c at call trace resolved in
      let written = slot c.ticks at p? g.denial_budget in
      let reasons = reasons_of c at call trace resolved in
      elim (Bool-cases (decision_of c at call trace resolved).allowed) [
        | inl open_ ↦
            rw (open_, admit_resolved)
              (Records-after written g counted
                (admit_known c at call trace resolved p? policy? counted)
                (admit_known-Records p? policy? g.denial_budget counted refl)
                (recorded-count_auth_event g resolved))
        | inr shut ↦
            rw (shut, admit_resolved)
              (Records-after written g counted
                (refuse c at call trace resolved "policy_denied" reasons 403 none counted)
                (refuse-Records "policy_denied" reasons 403 none counted)
                (recorded-count_auth_event g resolved))
      ]
