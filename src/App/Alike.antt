-- ===== src/App/Alike.antt =====
-- gateway/app.py: POST /v1/infer/{model_id} and POST /v1/completions decide a request alike.
use secure_gpu_inference_gat.Prelude.{
  ◌≡◌, refl, sym, ap, ◌∙◌, String, Bool, true, false, Option, none, some, List, string_eq, Result,
  ok, err, if◌then◌else◌,
}
use secure_gpu_inference_gat.Errors.{Exception}
use secure_gpu_inference_gat.Dict
use secure_gpu_inference_gat.Models.{Principal, ModelPolicy}
use secure_gpu_inference_gat.Identity.{ResolvedPrincipal}
use secure_gpu_inference_gat.Identity.Resolve.{resolve_principal}
use secure_gpu_inference_gat.TraceContext.{RequestTrace, resolve_trace_context}
use secure_gpu_inference_gat.App.{
  Config, Gateway, Moment, Event, metric_model_label, denial_is_recorded, count_outcome,
  count_auth_event,
}
use secure_gpu_inference_gat.App.Infer.{
  InferenceCall, Reply, refused, event, http_exception, record_outcome, deny, run_backend,
  decision_of, after_token_limiter, after_rate_limiter, admit, decide_call, infer,
}
use secure_gpu_inference_gat.App.Completion.{
  CompletionCall, Admission, denied, admitted, record_completion_event_fields, observe_allowed,
  refuse, reasons_of, denial, admit_tokens, admit_rate, admit_known, admit_resolved,
  admit_completion,
}
use secure_gpu_inference_gat.App.Unrouted.{
  unrouted, write_and_export-route, denial_is_recorded-known, settled, settled-route,
}

-- The same request to the other path.
abbrev pub as_completion : Bool → String → InferenceCall → CompletionCall
as_completion stream payload call = record {
  model = call.model_id;
  prompt = call.input;
  stream = stream;
  payload = payload;
  x_inference_reason = call.reason;
  authorization = call.authorization;
  x_principal_id = call.x_principal_id;
  traceparent = call.traceparent;
}

metric_model_label-known :
    (policies : Dict.Dict String ModelPolicy) (model_id : String) {policy : ModelPolicy}
    → Dict.get policies model_id ≡ some policy
    → metric_model_label policies model_id ≡ model_id
unfolding metric_model_label
metric_model_label-known policies model_id found = rw (found, metric_model_label) refl

-- What the first path does where the second has come to an outcome.
abbrev pub DecidesAlike :
    (c : Config)
    → Moment
    → InferenceCall
    → Result Exception Reply × Gateway c
    → Result Exception Admission × Gateway c
    → Type 0
DecidesAlike c at call run (err e, h) = run ≡ (err e, h)
DecidesAlike c at call run (ok (denied refusal), h) =
    (run.0 ≡ ok (refused refusal)) × (unrouted run.1 ≡ unrouted h)
DecidesAlike c at call run (ok (admitted a), h) =
    (principal : Principal) × (a.resolved.principal ≡ some principal)
    × (run ≡ run_backend c at call a.trace a.resolved principal h)

module _ (c : Config) (at : Moment) (stream : Bool) (payload : String) (call : InferenceCall)
    (trace : RequestTrace) (resolved : ResolvedPrincipal) where
  abbrev other : CompletionCall
  other = as_completion stream payload call

  abbrev Alike :
      Result Exception Reply × Gateway c → Result Exception Admission × Gateway c → Type 0
  Alike = DecidesAlike c at call

  abbrev IsLabel : Type 0
  IsLabel = metric_model_label c.policies call.model_id ≡ call.model_id

  -- A refusal behind the policy.
  refusals-unrouted :
      (principal : Principal) (outcome : String) (reasons : List String) (g : Gateway c)
      → resolved.principal ≡ some principal
      → IsLabel
      → unrouted (
          record_outcome c at call trace resolved
            (event c at call trace resolved outcome false reasons none)
            g)
        ≡ unrouted
            (record_completion_event_fields at (denial c at other trace resolved outcome reasons) g)
  unfolding record_outcome event record_completion_event_fields observe_allowed count_outcome
  refusals-unrouted principal outcome reasons g known label =
      let e : Event = denial c at other trace resolved outcome reasons in
      let counted : Gateway c = count_outcome call.model_id e g in
      write_and_export-route at (event c at call trace resolved outcome false reasons none)
        "/v1/completions" counted
      ∙ sym (
          ap (λ l. unrouted (settled at e (denial_is_recorded at resolved (count_outcome l e g))))
            label
          ∙ ap (λ r. unrouted (settled at e r))
              (denial_is_recorded-known at resolved counted known))

  after_token_limiter-admit_tokens :
      (principal : Principal) (policy : ModelPolicy) (reply : Result Exception Bool) (g : Gateway c)
      → resolved.principal ≡ some principal
      → IsLabel
      → Alike
          (after_token_limiter c at call trace resolved principal policy reply g)
          (admit_tokens c at other trace resolved policy reply g)
  unfolding after_token_limiter admit_tokens refuse http_exception
  after_token_limiter-admit_tokens principal policy (err e) g known found = refl
  after_token_limiter-admit_tokens principal policy (ok true) g known found =
      (principal, known, refl)
  after_token_limiter-admit_tokens principal policy (ok false) g known found =
      (refl, refusals-unrouted principal "token_budget_limited" _ g known found)

  after_rate_limiter-admit_rate :
      (principal : Principal) (policy : ModelPolicy) (reply : Result Exception Bool) (g : Gateway c)
      → resolved.principal ≡ some principal
      → IsLabel
      → Alike
          (after_rate_limiter c at call trace resolved principal policy reply g)
          (admit_rate c at other trace resolved principal policy reply g)
  unfolding after_rate_limiter admit_rate refuse http_exception
  after_rate_limiter-admit_rate principal policy (err e) g known label = refl
  after_rate_limiter-admit_rate principal policy (ok false) g known label =
      (refl, refusals-unrouted principal "rate_limited" _ g known label)
  after_rate_limiter-admit_rate principal policy (ok true) g known label =
      after_token_limiter-admit_tokens principal policy _ _ known label

  admit-admit_known :
      (o : Option Principal) (p : Option ModelPolicy) (g : Gateway c)
      → resolved.principal ≡ o
      → Dict.get c.policies call.model_id ≡ p
      → Alike (admit c at call trace resolved o p g) (admit_known c at other trace resolved o p g)
  unfolding admit admit_known
  admit-admit_known none p g known found = refl
  admit-admit_known (some principal) none g known found = refl
  admit-admit_known (some principal) (some policy) g known found =
      after_rate_limiter-admit_rate principal policy _ _ known
        (metric_model_label-known c.policies call.model_id found)

  deny-refuse :
      (g : Gateway c)
      → Alike (deny c at call trace resolved g) (
          refuse c at other trace resolved "policy_denied"
            (reasons_of c at other trace resolved)
            403
            none
            g)
  unfolding deny refuse record_completion_event_fields observe_allowed event http_exception
      count_outcome
  deny-refuse g =
      let e : Event =
        event c at call trace resolved "policy_denied" false (reasons_of c at other trace resolved)
          none in
      let counted : Gateway c = count_outcome (metric_model_label c.policies call.model_id) e g in
      (refl, settled-route at e "/v1/completions" (denial_is_recorded at resolved counted))

  Alike-if :
      (b : Bool) (x y : Result Exception Reply × Gateway c)
      (x' y' : Result Exception Admission × Gateway c)
      → Alike x x'
      → Alike y y'
      → Alike (if b then x else y) (if b then x' else y')
  Alike-if true x y x' y' first second = first
  Alike-if false x y x' y' first second = second

  decide_call-admit_resolved :
      (g : Gateway c)
      → Alike (decide_call c at call trace resolved g) (admit_resolved c at other trace resolved g)
  unfolding decide_call admit_resolved
  decide_call-admit_resolved g =
      let counted = count_auth_event resolved g in
      Alike-if (decision_of c at call trace resolved).allowed _ _ _ _
        (admit-admit_known resolved.principal (Dict.get c.policies call.model_id) counted refl refl)
        (deny-refuse counted)

-- The two handlers from the reading of the caller on, and from the reading of the trace on.
module _ (c : Config) (at : Moment) (stream : Bool) (payload : String) (call : InferenceCall)
    (g : Gateway c) where
  resolved-Alike :
      (trace : RequestTrace) (r : Result Exception ResolvedPrincipal)
      → DecidesAlike c at call
          (elim r as (λ _. Result Exception Reply × Gateway c) [
            | err e ↦ (err e, g)
            | ok resolved ↦ decide_call c at call trace resolved g
          ])
          (elim r as (λ _. Result Exception Admission × Gateway c) [
            | err e ↦ (err e, g)
            | ok resolved ↦ admit_resolved c at (as_completion stream payload call) trace resolved g
          ])
  resolved-Alike trace (err e) = refl
  resolved-Alike trace (ok resolved) =
      decide_call-admit_resolved c at stream payload call trace resolved g

  traced-Alike :
      (t : Result Exception RequestTrace) (r : Result Exception ResolvedPrincipal)
      → DecidesAlike c at call
          (elim t as (λ _. Result Exception Reply × Gateway c) [
            | err e ↦ (err e, g)
            | ok trace ↦ elim r as (λ _. Result Exception Reply × Gateway c) [
              | err e ↦ (err e, g)
              | ok resolved ↦ decide_call c at call trace resolved g
            ]
          ])
          (elim t as (λ _. Result Exception Admission × Gateway c) [
            | err e ↦ (err e, g)
            | ok trace ↦ elim r as (λ _. Result Exception Admission × Gateway c) [
              | err e ↦ (err e, g)
              | ok resolved ↦
                  admit_resolved c at (as_completion stream payload call) trace resolved g
            ]
          ])
  traced-Alike (err e) r = refl
  traced-Alike (ok trace) r = resolved-Alike trace r

-- The same request gets the same decision on both paths. Where the second raises, the first raises
-- the same and leaves the same state. Where it refuses, the first refuses with the same status,
-- reasons and budget, and leaves the same limiters, counters, audit events and denial budget, and
-- the same spans but for their routes. Where it admits, the first calls the backend for the same
-- caller from the state that the second leaves.
pub infer-admit_completion :
    (c : Config) (at : Moment) (stream : Bool) (payload : String) (call : InferenceCall)
    (g : Gateway c)
    → DecidesAlike c at call
        (infer c at call g)
        (admit_completion c at (as_completion stream payload call) g)
unfolding infer admit_completion
infer-admit_completion c at stream payload call g =
    traced-Alike c at stream payload call g
      (resolve_trace_context call.traceparent at.new_trace_id at.new_span_id)
      (resolve_principal c.codec c.ticks c.auth_settings at.auth_now call.authorization
        call.x_principal_id)
