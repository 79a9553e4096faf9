-- ===== src/App/Completion/Recording.antt =====
-- The audit events of the handlers and the streamed bodies of the proxy of gateway/app.py.
use secure_gpu_inference_gat.Prelude.{
  ℕ, String, ◌≡◌, refl, sym, ap, ◌∙◌, Bool, true, false, Bool-cases, inl, inr, Option, none, some,
  List, [], ◌∷◌, Result, ok, err, string_eq, nat_beq, if◌then◌else◌,
}
use secure_gpu_inference_gat.Errors.{Exception}
use mathlib.Core.Option
use secure_gpu_inference_gat.TokenBudget.{estimate_input_tokens}
use secure_gpu_inference_gat.Models.{Principal, ModelPolicy}
use secure_gpu_inference_gat.Identity.{ResolvedPrincipal}
use secure_gpu_inference_gat.Identity.Resolve.{resolve_principal}
use secure_gpu_inference_gat.TraceContext.{RequestTrace, resolve_trace_context}
use secure_gpu_inference_gat.App.{
  Config, Gateway, Moment, audit_event, count_auth_event, ask_rate_limiter, ask_token_limiter,
}
use secure_gpu_inference_gat.App.Recorded.{Log, recorded, entry, slot}
use secure_gpu_inference_gat.App.Completion.{
  CompletionCall, UpstreamResponse, Upstream, CompletionAdmission, Admission, denied, admitted,
  backend_unavailable, policy_of, estimated, decision_of, refuse, admit_tokens, admit_rate,
  admit_known, admit_resolved, admit_completion,
}
use secure_gpu_inference_gat.App.Completion.Proxy.{
  CompletionReply, refused, answered, streaming, Reader, Ending, finished, broken, disconnected,
  unstarted, stream_body, record_ending, iter_completion_response, respond, proxy, completions,
}
use secure_gpu_inference_gat.App.Completion.Records.{
  audited, policy_reasons, log_with_admission, admitted_event, recorded-completion,
  admit_resolved-Records,
}

module _ (c : Config) (call : CompletionCall) (trace : RequestTrace)
    (resolved : ResolvedPrincipal) where
  -- What a reply adds: the event of a refusal, of a failed backend, which is the answer 502, or of a
  -- whole body. A stream that is still to be read adds nothing.
  abbrev pub log_with : Bool → ℕ → Result Exception CompletionReply → Log → Log
  log_with written latency (err e) log = log
  log_with written latency (ok (streaming response admission)) log = log
  log_with written latency (ok (answered status body)) log =
      entry true
        (audited c call trace resolved true (policy_reasons c call trace resolved) (some latency))
        log
  log_with written latency (ok (refused exception)) log =
      if nat_beq exception.status_code 502
      then entry true (audited c call trace resolved true exception.reasons (some latency)) log
      else entry written (audited c call trace resolved false exception.reasons none) log

  -- A refusal is no failure of the backend, and an admission is that of this call.
  abbrev Fits : Result Exception Admission → Type 0
  Fits (err e) = Unit
  Fits (ok (denied exception)) = nat_beq exception.status_code 502 ≡ false
  Fits (ok (admitted admission)) =
      (admission.decision_reasons ≡ policy_reasons c call trace resolved)
      × ((reasons : List String) (latency : ℕ)
          → admitted_event admission reasons latency
            ≡ audited c call trace resolved true reasons (some latency))

module _ (c : Config) (at : Moment) (call : CompletionCall) (trace : RequestTrace)
    (resolved : ResolvedPrincipal) where
  admit_tokens-Fits :
      (policy : ModelPolicy) (reply : Result Exception Bool) (g : Gateway c)
      → policy_of c at call trace resolved ≡ some policy
      → Fits c call trace resolved (admit_tokens c at call trace resolved policy reply g).0
  unfolding admit_tokens refuse
  admit_tokens-Fits policy (err e) g found = tt
  admit_tokens-Fits policy (ok false) g found = refl
  admit_tokens-Fits policy (ok true) g found = (
    refl,
    λ reasons latency.
        ap
          (λ policy?.
            audit_event resolved trace call.model true call.x_inference_reason reasons
              (some latency) (estimate_input_tokens call.prompt)
              (Option.map (λ policy. policy.input_tokens_per_minute) policy?))
          (sym found),
  )

  admit_known-Fits :
      (p? : Option Principal) (policy? : Option ModelPolicy) (g : Gateway c)
      → policy_of c at call trace resolved ≡ policy?
      → Fits c call trace resolved (admit_known c at call trace resolved p? policy? g).0
  unfolding admit_known admit_rate refuse
  admit_known-Fits none policy g found = tt
  admit_known-Fits (some p) none g found = tt
  admit_known-Fits (some p) (some policy) g found =
      let (reply, g') = ask_rate_limiter at p call.model policy g in admit_rate-Fits reply g'
    where
      admit_rate-Fits :
          (reply : Result Exception Bool) (g' : Gateway c)
          → Fits c call trace resolved (admit_rate c at call trace resolved p policy reply g').0
      admit_rate-Fits (err e) g' = tt
      admit_rate-Fits (ok false) g' = refl
      admit_rate-Fits (ok true) g' =
          let tokens = estimated c at call trace resolved in
          let (reply, g') = ask_token_limiter at p call.model policy tokens g' in
          admit_tokens-Fits policy reply g' found

  admit_resolved-Fits :
      (g : Gateway c) → Fits c call trace resolved (admit_resolved c at call trace resolved g).0
  unfolding admit_resolved refuse
  admit_resolved-Fits g = elim (Bool-cases (decision_of c at call trace resolved).allowed) [
    | inl open_ ↦
        rw (open_, admit_resolved)
          (admit_known-Fits resolved.principal (policy_of c at call trace resolved)
            (count_auth_event resolved g) refl)
    | inr shut ↦ rw (shut, admit_resolved) refl
  ]

  respond-recorded :
      (written : Bool) (latency : ℕ) (stream : Bool) (admission : CompletionAdmission)
      (response : Option UpstreamResponse) (g : Gateway c)
      → Fits c call trace resolved (ok (admitted admission))
      → recorded (respond at latency stream admission response g).1
        ≡ log_with c call trace resolved written latency
            (ok (respond at latency stream admission response g).0)
            (recorded g)
  unfolding respond
  respond-recorded written latency stream admission none g (same, fits) =
      recorded-completion at admission "backend_error" backend_unavailable latency g
      ∙ ap (λ e. entry true e (recorded g)) (fits backend_unavailable latency)
  respond-recorded written latency true admission (some response) g fits = refl
  respond-recorded written latency false admission (some response) g (same, fits) =
      elim (Bool-cases response.breaks_off) [
        | inl off ↦
            rw (off, respond)
              (recorded-completion at admission "backend_error" backend_unavailable latency g
                ∙ ap (λ e. entry true e (recorded g)) (fits backend_unavailable latency))
        | inr whole ↦
            rw (whole, respond)
              (recorded-completion at admission "allowed" admission.decision_reasons latency g
                ∙ ap (λ e. entry true e (recorded g)) (fits admission.decision_reasons latency)
                ∙ ap
                    (λ reasons.
                      entry true (audited c call trace resolved true reasons (some latency))
                        (recorded g))
                    same)
      ]

  proxy-recorded :
      (u : Upstream) (latency : ℕ) (written : Bool) (before : Log)
      (admission : Result Exception Admission) (g : Gateway c) (s : u.State)
      → Fits c call trace resolved admission
      → recorded g ≡ log_with_admission c call trace resolved written admission before
      → recorded (proxy c u at latency call admission g s).1
        ≡ log_with c call trace resolved written latency
            (proxy c u at latency call admission g s).0
            before
  unfolding proxy
  proxy-recorded u latency written before (err e) g s fits so_far = so_far
  proxy-recorded u latency written before (ok (denied e)) g s fits so_far = rw fits so_far
  proxy-recorded u latency written before (ok (admitted admission)) g s fits so_far =
      let (response, s') = u.open_response s call in
      respond-recorded written latency call.stream admission response g fits
      ∙ ap
          (log_with c call trace resolved written latency
            (ok (respond at latency call.stream admission response g).0))
          so_far

-- A completion whose trace and caller are resolved, and that is refused, ends with the answer 502, or
-- is answered with a whole body, puts one event behind the audit log: a refusal as denied with the
-- reasons of the reply, a failed backend and a whole body as allowed with the latency, and the body
-- with the reasons of the policy; nothing is suppressed. But where it is refused, the caller is
-- unknown and the denial budget has no slot left, the log stays as it is and one more denial is
-- counted as suppressed. A stream that is yet to be read, or a call that an exception ends, changes
-- neither.
pub completions-recorded :
    (c : Config) (u : Upstream) (at : Moment) (latency : ℕ) (call : CompletionCall) (g : Gateway c)
    (s : u.State) (trace : RequestTrace) (resolved : ResolvedPrincipal)
    → resolve_trace_context call.traceparent at.new_trace_id at.new_span_id ≡ ok trace
    → resolve_principal c.codec c.ticks c.auth_settings at.auth_now call.authorization
        call.x_principal_id
      ≡ ok resolved
    → recorded (completions c u at latency call g s).1
      ≡ log_with c call trace resolved
          (slot c.ticks at resolved.principal g.denial_budget)
          latency
          (completions c u at latency call g s).0
          (recorded g)
unfolding completions admit_completion
completions-recorded c u at latency call g s trace resolved e f =
    let (admission, g') = admit_resolved c at call trace resolved g in
    rw (e, f, completions, admit_completion)
      (proxy-recorded c at call trace resolved u latency
        (slot c.ticks at resolved.principal g.denial_budget) (recorded g) admission g' s
        (admit_resolved-Fits c at call trace resolved g)
        (admit_resolved-Records c at call trace resolved g))

-- The reasons that a stream is put on record with, by the way it ends.
abbrev pub ending_reasons : CompletionAdmission → Ending → Option (List String)
ending_reasons admission finished = some admission.decision_reasons
ending_reasons admission broken = some ("inference backend unavailable" ∷ [])
ending_reasons admission disconnected = some ("client disconnected during inference" ∷ [])
ending_reasons admission unstarted = none

abbrev pub log_with_ending : CompletionAdmission → ℕ → Option (List String) → Log → Log
log_with_ending admission latency none log = log
log_with_ending admission latency (some reasons) log =
    entry true (admitted_event admission reasons latency) log

record_ending-recorded :
    {c : Config} (at : Moment) (admission : CompletionAdmission) (latency : ℕ) (ending : Ending)
    (g : Gateway c)
    → recorded (record_ending at admission latency ending g)
      ≡ log_with_ending admission latency (ending_reasons admission ending) (recorded g)
unfolding record_ending
record_ending-recorded at admission latency finished g = recorded-completion at admission _ _ _ g
record_ending-recorded at admission latency broken g = recorded-completion at admission _ _ _ g
record_ending-recorded at admission latency disconnected g =
    recorded-completion at admission _ _ _ g
record_ending-recorded at admission latency unstarted g = refl

-- The reading of a stream puts one event behind the audit log, which is allowed and has the caller,
-- the trace, the model and the latency of the stream; its reasons say whether the stream was read to
-- the end, broke off or was left by the client. Nothing is suppressed. A stream that is closed before
-- its first chunk is asked for changes neither.
pub iter_completion_response-recorded :
    {c : Config} (at : Moment) (admission : CompletionAdmission) (latency : ℕ)
    (response : UpstreamResponse) (reader : Reader) (g : Gateway c)
    → let ((chunks, ending), g') =
        iter_completion_response at admission latency response reader g in
      recorded g' ≡ log_with_ending admission latency (ending_reasons admission ending) (recorded g)
unfolding iter_completion_response
iter_completion_response-recorded at admission latency response reader g =
    record_ending-recorded at admission latency (stream_body response reader).1 g
