-- ===== src/App/Infer/Guard.antt =====
-- What stands between a request and the backend (gateway/app.py).
use secure_gpu_inference_gat.Prelude.{
  String, ◌≡◌, refl, ◌∙◌, ◌⊎◌, inl, inr, Bool, true, false, Option, none, some, Bool-cases,
  string_eq, Result, ok, err, Result-cases, arith, if◌then◌else◌,
}
use secure_gpu_inference_gat.Errors.{Exception}
use secure_gpu_inference_gat.Dict
use secure_gpu_inference_gat.Models.{Principal, ModelPolicy}
use secure_gpu_inference_gat.Identity.{ResolvedPrincipal, truthy}
use secure_gpu_inference_gat.Identity.Resolve.{resolve_principal}
use secure_gpu_inference_gat.Identity.Resolve.Sound.{Authentic, resolve_principal-Authentic}
use secure_gpu_inference_gat.Policy.Laws.{Permits, evaluate_policy-allowed_iff}
use secure_gpu_inference_gat.TokenBudget.{estimate_input_tokens}
use secure_gpu_inference_gat.TraceContext.{RequestTrace, resolve_trace_context}
use secure_gpu_inference_gat.App.{
  Config, Gateway, Moment, Event, count_outcome, export_trace_span, write_audit, write_and_export,
  denial_is_recorded, metric_model_label, with_auth_failure, count_auth_event, ask_rate_limiter,
  ask_token_limiter,
}
use secure_gpu_inference_gat.App.Infer.{
  InferenceCall, Reply, refused, answered, event, decision_of, estimated, record_outcome, deny,
  after_token_limiter, after_rate_limiter, admit, decide_call, infer,
}

-- The caller is authentic, the model is known, the policy permits the request, and both limiters
-- let it pass.
pub record Admitted (c : Config) (at : Moment) (call : InferenceCall) (g : Gateway c) : Type 0 where
  pub principal : Principal
  pub policy : ModelPolicy
  pub authentic :
      Authentic c.codec c.ticks c.auth_settings at.auth_now
        (truthy call.authorization)
        (truthy call.x_principal_id)
        principal
  pub known : Dict.get c.policies call.model_id ≡ some policy
  pub permitted : Permits principal policy call.reason
  pub in_rate :
      (c.rate_limiter.allow g.rates at.rate_now principal.principal_id call.model_id 1
        policy.requests_per_minute).0
      ≡ ok true
  pub in_budget :
      (c.token_budget_limiter.allow g.budgets at.budget_now principal.principal_id call.model_id
        (estimate_input_tokens call.input)
        policy.input_tokens_per_minute).0
      ≡ ok true

abbrev pub NotAnswered : Result Exception Reply → Type 0
NotAnswered (err e) = Unit
NotAnswered (ok (refused e)) = Unit
NotAnswered (ok (answered r)) = ⊥

-- The backend was not called.
abbrev pub Kept : {c : Config} → Gateway c → Result Exception Reply × Gateway c → Type 0
Kept g run = (run.1.backend_state ≡ g.backend_state) × NotAnswered run.0

module _ {c : Config} (g : Gateway c) where
  backend_state-write_and_export :
      (at : Moment) (e : Event) → (write_and_export at e g).backend_state ≡ g.backend_state
  unfolding write_and_export export_trace_span write_audit
  backend_state-write_and_export at e = ground arith

  backend_state-denial :
      (at : Moment) (resolved : ResolvedPrincipal)
      → (denial_is_recorded at resolved g).1.backend_state ≡ g.backend_state
  unfolding denial_is_recorded
  backend_state-denial at resolved = ground arith

  backend_state-count :
      (label : String) (e : Event) → (count_outcome label e g).backend_state ≡ g.backend_state
  unfolding count_outcome
  backend_state-count label e = refl

backend_state-if :
    {c : Config} (written : Bool) (at : Moment) (e : Event) (g : Gateway c)
    → (if written then write_and_export at e g else g).backend_state ≡ g.backend_state
backend_state-if true at e g = backend_state-write_and_export g at e
backend_state-if false at e g = refl

module _ (c : Config) (at : Moment) (call : InferenceCall) (trace : RequestTrace)
    (resolved : ResolvedPrincipal) where
  record_outcome-backend_state :
      (e : Event) (g : Gateway c)
      → (record_outcome c at call trace resolved e g).backend_state ≡ g.backend_state
  unfolding record_outcome
  record_outcome-backend_state e g =
      backend_state-write_and_export (count_outcome call.model_id e g) at e
      ∙ backend_state-count g call.model_id e

  deny-Kept : (g : Gateway c) → Kept g (deny c at call trace resolved g)
  unfolding deny
  deny-Kept g =
      let e =
        event c at call trace resolved "policy_denied" false
          (with_auth_failure (decision_of c at call trace resolved).reasons resolved.failure_reason)
          none in
      let counted = count_outcome (metric_model_label c.policies call.model_id) e g in
      let (written, g') = denial_is_recorded at resolved counted in
      (
        backend_state-if written at e g'
            ∙ backend_state-denial counted at resolved
            ∙ backend_state-count g (metric_model_label c.policies call.model_id) e,
        tt,
      )

  after_token_limiter-Kept :
      (p : Principal) (policy : ModelPolicy) (reply : Result Exception Bool) (g : Gateway c)
      → Kept g (after_token_limiter c at call trace resolved p policy reply g) ⊎ (reply ≡ ok true)
  unfolding after_token_limiter
  after_token_limiter-Kept p policy (err e) g = inl (refl, tt)
  after_token_limiter-Kept p policy (ok true) g = inr refl
  after_token_limiter-Kept p policy (ok false) g = inl (record_outcome-backend_state _ g, tt)

  abbrev pub InBudget : Principal → ModelPolicy → Gateway c → Type 0
  InBudget p policy g =
      (c.token_budget_limiter.allow g.budgets at.budget_now p.principal_id call.model_id
        (estimate_input_tokens call.input) policy.input_tokens_per_minute).0
      ≡ ok true

  after_rate_limiter-Kept :
      (p : Principal) (policy : ModelPolicy) (reply : Result Exception Bool) (g : Gateway c)
      → Kept g (after_rate_limiter c at call trace resolved p policy reply g)
        ⊎ ((reply ≡ ok true) × InBudget p policy g)
  unfolding after_rate_limiter ask_token_limiter
  after_rate_limiter-Kept p policy (err e) g = inl (refl, tt)
  after_rate_limiter-Kept p policy (ok true) g =
      let tokens = estimated c at call trace resolved in
      let (reply, g') = ask_token_limiter at p call.model_id policy tokens g in
      elim (after_token_limiter-Kept p policy reply g') [
        | inl kept ↦ inl kept
        | inr passed ↦ inr (refl, passed)
      ]
  after_rate_limiter-Kept p policy (ok false) g = inl (record_outcome-backend_state _ g, tt)

  -- What is known of a request that has got as far as the backend.
  pub record Passed (p? : Option Principal) (policy? : Option ModelPolicy) (g : Gateway c)
      : Type 0 where
    pub principal : Principal
    pub policy : ModelPolicy
    pub is_principal : p? ≡ some principal
    pub is_policy : policy? ≡ some policy
    pub in_rate :
        (c.rate_limiter.allow g.rates at.rate_now principal.principal_id call.model_id 1
          policy.requests_per_minute).0
        ≡ ok true
    pub in_budget : InBudget principal policy g

  admit-Kept :
      (p? : Option Principal) (policy? : Option ModelPolicy) (g : Gateway c)
      → Kept g (admit c at call trace resolved p? policy? g) ⊎ Passed p? policy? g
  unfolding admit ask_rate_limiter
  admit-Kept none policy g = inl (refl, tt)
  admit-Kept (some p) none g = inl (refl, tt)
  admit-Kept (some p) (some policy) g =
      let (reply, g') = ask_rate_limiter at p call.model_id policy g in
      elim (after_rate_limiter-Kept p policy reply g') [
        | inl kept ↦ inl kept
        | inr passed ↦ inr (record {
          principal = p;
          policy = policy;
          is_principal = refl;
          is_policy = refl;
          in_rate = passed.0;
          in_budget = passed.1;
        })
      ]

  decide_call-Kept :
      (g : Gateway c)
      → Kept g (decide_call c at call trace resolved g)
        ⊎ (((decision_of c at call trace resolved).allowed ≡ true)
            × Passed resolved.principal (Dict.get c.policies call.model_id) g)
  unfolding decide_call count_auth_event
  decide_call-Kept g =
      let counted = count_auth_event resolved g in
      elim (Bool-cases (decision_of c at call trace resolved).allowed) [
        | inl allowed ↦
            elim (admit-Kept resolved.principal (Dict.get c.policies call.model_id) counted) [
              | inl kept ↦ inl (rw (allowed, decide_call) kept)
              | inr passed ↦ inr (
                allowed,
                record {
                  principal = passed.principal;
                  policy = passed.policy;
                  is_principal = passed.is_principal;
                  is_policy = passed.is_policy;
                  in_rate = passed.in_rate;
                  in_budget = passed.in_budget;
                },
              )
            ]
        | inr denied ↦ inl (rw (denied, decide_call) (deny-Kept counted))
      ]

  pub Passed-Permits :
      (g : Gateway c) (passed : Passed resolved.principal (Dict.get c.policies call.model_id) g)
      → (decision_of c at call trace resolved).allowed ≡ true
      → Permits passed.principal passed.policy call.reason
  Passed-Permits g passed allowed =
      (evaluate_policy-allowed_iff (some passed.principal) (some passed.policy) call.reason).0
        (rw (passed.is_principal, passed.is_policy) at allowed)

-- The state of the backend stays as it was and no output is answered, or else the request was
-- admitted: its caller is authentic, its model is known, the policy permits it, and the request
-- limiter and the token limiter have both let it pass.
pub infer-guarded :
    (c : Config) (at : Moment) (call : InferenceCall) (g : Gateway c)
    → Kept g (infer c at call g) ⊎ Admitted c at call g
unfolding infer
infer-guarded c at call g =
    elim (Result-cases (resolve_trace_context call.traceparent at.new_trace_id at.new_span_id)) [
      | inl (x, e) ↦ inl (rw (e, infer) (refl, tt))
      | inr (trace, e) ↦
          elim (Result-cases (
            resolve_principal c.codec c.ticks c.auth_settings at.auth_now call.authorization
              call.x_principal_id)) [
                | inl (x, f) ↦ inl (rw (e, f, infer) (refl, tt))
                | inr (resolved, f) ↦ elim (decide_call-Kept c at call trace resolved g) [
                  | inl kept ↦ inl (rw (e, f, infer) kept)
                  | inr (allowed, passed) ↦ inr (record {
                    principal = passed.principal;
                    policy = passed.policy;
                    authentic =
                        resolve_principal-Authentic c.codec c.ticks c.auth_settings at.auth_now
                          call.authorization call.x_principal_id resolved passed.principal f
                          passed.is_principal;
                    known = passed.is_policy;
                    permitted = Passed-Permits c at call trace resolved g passed allowed;
                    in_rate = passed.in_rate;
                    in_budget = passed.in_budget;
                  })
                ]
              ]
    ]
