-- ===== src/App/Completion/Guard.antt =====
-- What stands between a completion and the upstream (gateway/app.py).
use secure_gpu_inference_gat.Prelude.{
  ℕ, String, ◌≡◌, refl, ◌⊎◌, inl, inr, Bool, true, false, Option, none, some, List, Bool-cases,
  string_eq, Result, ok, err, Result-cases,
}
use secure_gpu_inference_gat.Errors.{Exception}
use secure_gpu_inference_gat.Dict
use secure_gpu_inference_gat.Models.{Principal, ModelPolicy}
use secure_gpu_inference_gat.Identity.{ResolvedPrincipal}
use secure_gpu_inference_gat.Identity.Resolve.{resolve_principal}
use secure_gpu_inference_gat.Identity.Resolve.Sound.{resolve_principal-Authentic}
use secure_gpu_inference_gat.TraceContext.{RequestTrace, resolve_trace_context}
use secure_gpu_inference_gat.App.{
  Config, Gateway, Moment, count_auth_event, ask_rate_limiter, ask_token_limiter,
}
use secure_gpu_inference_gat.App.Infer.{InferenceCall}
use secure_gpu_inference_gat.App.Infer.Guard.{Admitted, InBudget, Passed, Passed-Permits}
use secure_gpu_inference_gat.App.Completion.{
  CompletionCall, Upstream, Admission, denied, admitted, estimated, decision_of, refuse,
  admit_tokens, admit_rate, admit_known, admit_resolved, admit_completion,
}
use secure_gpu_inference_gat.App.Completion.Proxy.{
  CompletionReply, refused, answered, streaming, proxy, completions,
}

-- What the controls see of a completion: the same as of an inference request.
abbrev pub controlled : CompletionCall → InferenceCall
controlled call = record {
  model_id = call.model;
  input = call.prompt;
  reason = call.x_inference_reason;
  authorization = call.authorization;
  x_principal_id = call.x_principal_id;
  traceparent = call.traceparent;
}

abbrev NotAdmitted : Result Exception Admission → Type 0
NotAdmitted (err e) = Unit
NotAdmitted (ok (denied e)) = Unit
NotAdmitted (ok (admitted admission)) = ⊥

-- Neither a body nor a stream.
abbrev pub NotServed : Result Exception CompletionReply → Type 0
NotServed (err e) = Unit
NotServed (ok (refused e)) = Unit
NotServed (ok (answered status body)) = ⊥
NotServed (ok (streaming response admission)) = ⊥

module _ (c : Config) (at : Moment) (call : CompletionCall) (trace : RequestTrace)
    (resolved : ResolvedPrincipal) where
  refuse-NotAdmitted :
      (outcome : String) (reasons : List String) (status : ℕ) (budget : Option (ℕ × ℕ))
      (g : Gateway c)
      → NotAdmitted (refuse c at call trace resolved outcome reasons status budget g).0
  unfolding refuse
  refuse-NotAdmitted outcome reasons status budget g = tt

  admit_tokens-NotAdmitted :
      (policy : ModelPolicy) (reply : Result Exception Bool) (g : Gateway c)
      → NotAdmitted (admit_tokens c at call trace resolved policy reply g).0 ⊎ (reply ≡ ok true)
  unfolding admit_tokens
  admit_tokens-NotAdmitted policy (err e) g = inl tt
  admit_tokens-NotAdmitted policy (ok false) g = inl (refuse-NotAdmitted _ _ _ _ g)
  admit_tokens-NotAdmitted policy (ok true) g = inr refl

  admit_rate-NotAdmitted :
      (p : Principal) (policy : ModelPolicy) (reply : Result Exception Bool) (g : Gateway c)
      → NotAdmitted (admit_rate c at call trace resolved p policy reply g).0
        ⊎ ((reply ≡ ok true) × InBudget c at (controlled call) trace resolved p policy g)
  unfolding admit_rate ask_token_limiter
  admit_rate-NotAdmitted p policy (err e) g = inl tt
  admit_rate-NotAdmitted p policy (ok false) g = inl (refuse-NotAdmitted _ _ _ _ g)
  admit_rate-NotAdmitted p policy (ok true) g =
      let tokens = estimated c at call trace resolved in
      let (reply, g') = ask_token_limiter at p call.model policy tokens g in
      elim (admit_tokens-NotAdmitted policy reply g') [
        | inl stopped ↦ inl stopped
        | inr passed ↦ inr (refl, passed)
      ]

  admit_known-NotAdmitted :
      (p? : Option Principal) (policy? : Option ModelPolicy) (g : Gateway c)
      → NotAdmitted (admit_known c at call trace resolved p? policy? g).0
        ⊎ Passed c at (controlled call) trace resolved p? policy? g
  unfolding admit_known ask_rate_limiter
  admit_known-NotAdmitted none policy g = inl tt
  admit_known-NotAdmitted (some p) none g = inl tt
  admit_known-NotAdmitted (some p) (some policy) g =
      let (reply, g') = ask_rate_limiter at p call.model policy g in
      elim (admit_rate-NotAdmitted p policy reply g') [
        | inl stopped ↦ inl stopped
        | inr passed ↦ inr (record {
          principal = p;
          policy = policy;
          is_principal = refl;
          is_policy = refl;
          in_rate = passed.0;
          in_budget = passed.1;
        })
      ]

  admit_resolved-NotAdmitted :
      (g : Gateway c)
      → NotAdmitted (admit_resolved c at call trace resolved g).0
        ⊎ (((decision_of c at call trace resolved).allowed ≡ true)
            × Passed c at
                (controlled call)
                trace
                resolved
                resolved.principal
                (Dict.get c.policies call.model)
                g)
  unfolding admit_resolved count_auth_event
  admit_resolved-NotAdmitted g =
      let counted = count_auth_event resolved g in
      let p? = resolved.principal in
      let policy? = Dict.get c.policies call.model in
      elim (Bool-cases (decision_of c at call trace resolved).allowed) [
        | inl open_ ↦ elim (admit_known-NotAdmitted p? policy? counted) [
          | inl stopped ↦ inl (rw (open_, admit_resolved) stopped)
          | inr passed ↦ inr (
            open_,
            record {
              principal = passed.principal;
              policy = passed.policy;
              is_principal = passed.is_principal;
              is_policy = passed.is_policy;
              in_rate = passed.in_rate;
              in_budget = passed.in_budget;
            },
          )
        ]
        | inr shut ↦ inl (rw (shut, admit_resolved) (refuse-NotAdmitted _ _ _ _ counted))
      ]

admit_completion-Admitted :
    (c : Config) (at : Moment) (call : CompletionCall) (g : Gateway c)
    → NotAdmitted (admit_completion c at call g).0 ⊎ Admitted c at (controlled call) g
unfolding admit_completion
admit_completion-Admitted c at call g =
    elim (Result-cases (resolve_trace_context call.traceparent at.new_trace_id at.new_span_id)) [
      | inl (x, e) ↦ inl (rw (e, admit_completion) tt)
      | inr (trace, e) ↦
          elim (Result-cases (
            resolve_principal c.codec c.ticks c.auth_settings at.auth_now call.authorization
              call.x_principal_id)) [
                | inl (x, f) ↦ inl (rw (e, f, admit_completion) tt)
                | inr (resolved, f) ↦ elim (admit_resolved-NotAdmitted c at call trace resolved g) [
                  | inl stopped ↦ inl (rw (e, f, admit_completion) stopped)
                  | inr (allowed, passed) ↦ inr (record {
                    principal = passed.principal;
                    policy = passed.policy;
                    authentic =
                        resolve_principal-Authentic c.codec c.ticks c.auth_settings at.auth_now
                          call.authorization call.x_principal_id resolved passed.principal f
                          passed.is_principal;
                    known = passed.is_policy;
                    permitted =
                        Passed-Permits c at (controlled call) trace resolved g passed allowed;
                    in_rate = passed.in_rate;
                    in_budget = passed.in_budget;
                  })
                ]
              ]
    ]

proxy-stopped :
    (c : Config) (u : Upstream) (at : Moment) (latency : ℕ) (call : CompletionCall)
    (admission : Result Exception Admission) (g : Gateway c) (s : u.State)
    → NotAdmitted admission
    → ((proxy c u at latency call admission g s).2 ≡ s)
      × NotServed (proxy c u at latency call admission g s).0
unfolding proxy
proxy-stopped c u at latency call (err e) g s stopped = (refl, tt)
proxy-stopped c u at latency call (ok (denied e)) g s stopped = (refl, tt)
proxy-stopped c u at latency call (ok (admitted admission)) g s stopped = absurd stopped

-- The upstream stays as it was and neither a body nor a stream is answered, or else the completion
-- was admitted under the conditions of an inference request: its caller is authentic, its model is
-- known, the policy permits it, and both limiters have let it pass.
pub completions-guarded :
    (c : Config) (u : Upstream) (at : Moment) (latency : ℕ) (call : CompletionCall) (g : Gateway c)
    (s : u.State)
    → (((completions c u at latency call g s).2 ≡ s)
        × NotServed (completions c u at latency call g s).0)
      ⊎ Admitted c at (controlled call) g
unfolding completions
completions-guarded c u at latency call g s = elim (admit_completion-Admitted c at call g) [
  | inl stopped ↦
      let (admission, g') = admit_completion c at call g in
      inl (proxy-stopped c u at latency call admission g' s stopped)
  | inr through ↦ inr through
]
