-- ===== src/App/Unrouted.antt =====
-- gateway/app.py: what both paths record, but for the route of a span.
use secure_gpu_inference_gat.Prelude.{
  ◌≡◌, refl, ap, String, Bool, true, false, some, List, [], ◌∷◌, ◌++◌, map, string_eq,
  if◌then◌else◌,
}
use secure_gpu_inference_gat.Models.{Principal}
use secure_gpu_inference_gat.Identity.{ResolvedPrincipal}
use secure_gpu_inference_gat.App.{
  Config, Gateway, Moment, Event, Span, denial_is_recorded, write_audit, export_trace_span,
  write_and_export,
}

abbrev unroute : Span → Span
unroute span = record span { route = "" }

-- A state without the routes of its spans, by which alone the records of the paths differ.
abbrev pub unrouted : {c : Config} → Gateway c → Gateway c
unrouted g = record g { spans = map unroute g.spans }

map-last :
    {A B : Type 0} (f : A → B) (xs : List A) (y z : A)
    → f y ≡ f z
    → map f (xs ++ y ∷ []) ≡ map f (xs ++ z ∷ [])
map-last f [] y z same = ap (λ b. b ∷ []) same
map-last f (x ∷ xs) y z same = ap (λ l. f x ∷ l) (map-last f xs y z same)

if-unrouted :
    {c : Config} (b : Bool) (x y z : Gateway c)
    → unrouted x ≡ unrouted y
    → unrouted (if b then x else z) ≡ unrouted (if b then y else z)
if-unrouted true x y z same = same
if-unrouted false x y z same = refl

abbrev span_of : Moment → Event → Span
span_of at e = record {
  trace = e.trace;
  model_id = e.model_id;
  outcome = e.outcome;
  auth_method = e.resolved.auth_method;
  decision_reasons = e.decision_reasons;
  latency = e.latency;
  estimated_input_tokens = e.estimated_input_tokens;
  token_budget_limit = e.token_budget_limit;
  started_at = at.started_at;
  ended_at = at.ended_at;
  route = e.route;
}

module _ {c : Config} (at : Moment) where
  abbrev spanned : Event → Gateway c → Gateway c
  spanned e g = record g { spans = g.spans ++ span_of at e ∷ [] }

  pub write_and_export-route :
      (e : Event) (route : String) (g : Gateway c)
      → unrouted (write_and_export at e g)
        ≡ unrouted (write_and_export at (record e { route = route }) g)
  unfolding write_and_export export_trace_span write_audit
  write_and_export-route e route g =
      let e' : Event = record e { route = route } in
      let written : Gateway c = write_audit e g in
      if-unrouted c.exporting (spanned e written) (spanned e' written) written (
        ap (λ l. record written { spans = l })
          (map-last unroute written.spans (span_of at e) (span_of at e') refl))

  pub denial_is_recorded-known :
      (resolved : ResolvedPrincipal) (g : Gateway c) {principal : Principal}
      → resolved.principal ≡ some principal
      → denial_is_recorded at resolved g ≡ (true, g)
  unfolding denial_is_recorded
  denial_is_recorded-known resolved g known = rw known refl

  -- What the second path does with the answer of the denial budget.
  abbrev pub settled : Event → Bool × Gateway c → Gateway c
  settled e (written, g) = if written then write_and_export at e g else g

  pub settled-route :
      (e : Event) (route : String) (r : Bool × Gateway c)
      → unrouted (settled e r) ≡ unrouted (settled (record e { route = route }) r)
  settled-route e route (true, g) = write_and_export-route e route g
  settled-route e route (false, g) = refl
