-- ===== src/App/Infer/Answers.antt =====
-- The way of a request through the handler of gateway/app.py to its answer.
use secure_gpu_inference_gat.Prelude.{◌≡◌, refl, true, Option, some, string_eq, Result, ok}
use secure_gpu_inference_gat.Errors.{Exception}
use secure_gpu_inference_gat.Dict
use secure_gpu_inference_gat.Models.{Principal, ModelPolicy}
use secure_gpu_inference_gat.Identity.{ResolvedPrincipal}
use secure_gpu_inference_gat.Identity.Resolve.{resolve_principal}
use secure_gpu_inference_gat.Policy.{evaluate_policy}
use secure_gpu_inference_gat.Policy.Laws.{Permits, evaluate_policy-allowed_iff}
use secure_gpu_inference_gat.TokenBudget.{estimate_input_tokens}
use secure_gpu_inference_gat.TraceContext.{RequestTrace, resolve_trace_context}
use secure_gpu_inference_gat.App.{
  Config, Gateway, Moment, BackendResult, count_auth_event, ask_rate_limiter, ask_token_limiter,
}
use secure_gpu_inference_gat.App.Infer.{
  InferenceCall, InferenceResponse, Reply, answered, decision_of, answer, run_backend,
  after_token_limiter, after_rate_limiter, admit, decide_call, infer,
}

-- The result of the backend is answered to the principal.
pub record Answered (trace : RequestTrace) (p : Principal) (result : BackendResult)
    (reply : Result Exception Reply) : Type 0 where
  pub response : InferenceResponse
  pub is_reply : reply ≡ ok (answered response)
  pub same_output : response.output ≡ result.output
  pub same_backend : response.backend ≡ result.backend
  pub to_principal : response.principal_id ≡ p.principal_id
  pub in_trace : response.trace_id ≡ trace.trace_id

allowed_of :
    (call : InferenceCall) (p? : Option Principal) (policy? : Option ModelPolicy) (p : Principal)
    (policy : ModelPolicy)
    → p? ≡ some p
    → policy? ≡ some policy
    → Permits p policy call.reason
    → (evaluate_policy p? policy? call.reason).allowed ≡ true
allowed_of call p? policy? p policy is_p is_policy permits =
    rw (is_p, is_policy)
      ((evaluate_policy-allowed_iff (some p) (some policy) call.reason).1 permits)

module _ (c : Config) (at : Moment) (call : InferenceCall) (trace : RequestTrace)
    (resolved : ResolvedPrincipal) where
  answer-Answered :
      (p : Principal) (result : BackendResult) (g : Gateway c)
      → Answered trace p result (answer c at call trace resolved p (ok (some result)) g).0
  unfolding answer
  answer-Answered p result g = record {
    response = _;
    is_reply = refl;
    same_output = refl;
    same_backend = refl;
    to_principal = refl;
    in_trace = refl;
  }

  run_backend-Answered :
      (p : Principal) (result : BackendResult) (g : Gateway c)
      → (c.backend.run g.backend_state call.model_id call.input).0 ≡ ok (some result)
      → Answered trace p result (run_backend c at call trace resolved p g).0
  unfolding run_backend
  run_backend-Answered p result g h = rw h (answer-Answered p result _)

  admit-Answered :
      (p? : Option Principal) (policy? : Option ModelPolicy) (p : Principal) (policy : ModelPolicy)
      (result : BackendResult) (g : Gateway c)
      → p? ≡ some p
      → policy? ≡ some policy
      → (c.rate_limiter.allow g.rates at.rate_now p.principal_id call.model_id 1
          policy.requests_per_minute).0
        ≡ ok true
      → (c.token_budget_limiter.allow g.budgets at.budget_now p.principal_id call.model_id
          (estimate_input_tokens call.input)
          policy.input_tokens_per_minute).0
        ≡ ok true
      → (c.backend.run g.backend_state call.model_id call.input).0 ≡ ok (some result)
      → Answered trace p result (admit c at call trace resolved p? policy? g).0
  unfolding admit after_rate_limiter after_token_limiter ask_rate_limiter ask_token_limiter
  admit-Answered p? policy? p policy result g is_p is_policy in_rate in_budget run =
      rw (is_p, is_policy, in_rate, in_budget) (run_backend-Answered p result _ run)

  decide_call-Answered :
      (p : Principal) (policy : ModelPolicy) (result : BackendResult) (g : Gateway c)
      → resolved.principal ≡ some p
      → Dict.get c.policies call.model_id ≡ some policy
      → (decision_of c at call trace resolved).allowed ≡ true
      → (c.rate_limiter.allow g.rates at.rate_now p.principal_id call.model_id 1
          policy.requests_per_minute).0
        ≡ ok true
      → (c.token_budget_limiter.allow g.budgets at.budget_now p.principal_id call.model_id
          (estimate_input_tokens call.input)
          policy.input_tokens_per_minute).0
        ≡ ok true
      → (c.backend.run g.backend_state call.model_id call.input).0 ≡ ok (some result)
      → Answered trace p result (decide_call c at call trace resolved g).0
  unfolding decide_call count_auth_event
  decide_call-Answered p policy result g is_p is_policy allowed in_rate in_budget run =
      rw (allowed, decide_call)
        (admit-Answered resolved.principal (Dict.get c.policies call.model_id) p policy result
          (count_auth_event resolved g) is_p is_policy in_rate in_budget run)

-- A request is answered, with the output of the backend, to the principal it comes from and under
-- its trace, if its trace and its principal are resolved, its model is known, the policy permits it,
-- both limiters let it pass, and the backend gives a result.
pub infer-Answered :
    (c : Config) (at : Moment) (call : InferenceCall) (g : Gateway c) (trace : RequestTrace)
    (resolved : ResolvedPrincipal) (p : Principal) (policy : ModelPolicy) (result : BackendResult)
    → resolve_trace_context call.traceparent at.new_trace_id at.new_span_id ≡ ok trace
    → resolve_principal c.codec c.ticks c.auth_settings at.auth_now call.authorization
        call.x_principal_id
      ≡ ok resolved
    → resolved.principal ≡ some p
    → Dict.get c.policies call.model_id ≡ some policy
    → Permits p policy call.reason
    → (c.rate_limiter.allow g.rates at.rate_now p.principal_id call.model_id 1
        policy.requests_per_minute).0
      ≡ ok true
    → (c.token_budget_limiter.allow g.budgets at.budget_now p.principal_id call.model_id
        (estimate_input_tokens call.input)
        policy.input_tokens_per_minute).0
      ≡ ok true
    → (c.backend.run g.backend_state call.model_id call.input).0 ≡ ok (some result)
    → Answered trace p result (infer c at call g).0
unfolding infer
infer-Answered c at call g trace resolved p policy result traced resolves is_p is_policy permits
      in_rate in_budget run =
    rw (traced, resolves, infer)
      (decide_call-Answered c at call trace resolved p policy result g is_p is_policy
        (allowed_of call resolved.principal (Dict.get c.policies call.model_id) p policy is_p
          is_policy permits)
        in_rate in_budget run)
