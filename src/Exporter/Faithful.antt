-- ===== src/Exporter/Faithful.antt =====
-- gateway/trace_exporter.py: what an exporter sends for a call, against the call itself.
use Prim.Native.String.{◌++◌}
use secure_gpu_inference_gat.Prelude.{
  ◌≡◌, refl, ap, ℕ, String, Bool, true, false, Option, none, some, List, [], ◌∷◌, ◌==◌, string_eq,
  filter, All, length, ok, if◌then◌else◌, Bool-cases, inl, inr,
}
use secure_gpu_inference_gat.Prelude.Int.{pos}
use secure_gpu_inference_gat.Dict
use secure_gpu_inference_gat.Sorting.{sorted}
use secure_gpu_inference_gat.Text.{decimal}
use secure_gpu_inference_gat.Identity.{is_text}
use secure_gpu_inference_gat.Json.{
  Float, Json, str, int, arr, get, object, to_items, to_fields, is_true,
}
use secure_gpu_inference_gat.Exporter.{
  SpanCall, span_attributes, sanitize_attributes, span_record, is_safe, by_name, parent_json,
}
use secure_gpu_inference_gat.Exporter.Otlp.{
  group_records, read_record, add_span, item, mapping, otlp_value, otlp_attributes, otlp_span,
  text_of, text_or_empty, build_otlp_traces_payload,
}

module _ (show dumps : Json → String) (rounded_ms : ℕ → Float) where
  -- The span of the payload as the call describes it.
  unfoldable pub span_for_call : SpanCall → Json
  span_for_call s = object (
      ("traceId", str s.trace.trace_id)
      ∷ ("spanId", str s.trace.span_id)
      ∷ ("parentSpanId", str (elim s.trace.parent_span_id [ none ↦ "" | some parent ↦ parent ]))
      ∷ ("name", str ("POST " ++ s.route))
      ∷ ("kind", int (pos 2))
      ∷ ("startTimeUnixNano", str (decimal s.started_at_unix_nano))
      ∷ ("endTimeUnixNano", str (decimal s.ended_at_unix_nano))
      ∷ (
        "attributes",
        otlp_attributes show (to_fields (sanitize_attributes (span_attributes rounded_ms s))),
      )
      ∷ (
        "status",
        object (
            ("code", int (pos (if s.outcome == "allowed" then 1 else 2)))
            ∷ ("message", str s.outcome)
            ∷ []),
      )
      ∷ [])

  -- The payload with that span and the name of the service.
  unfoldable pub payload_for_call : String → SpanCall → Json
  unfolding span_for_call
  payload_for_call name s =
      let one = λ (j : Json). arr (to_items (j ∷ [])) in
      let resource =
        object
          (("key", str "service.name") ∷ ("value", object (("stringValue", str name) ∷ [])) ∷ []) in
      let scope = object (
        ("name", str "gateway.trace_exporter")
        ∷ ("schemaUrl", str "https://opentelemetry.io/schemas/1.28.0")
        ∷ []) in
      object (
        (
          "resourceSpans",
          one (
              object (
                ("resource", object (("attributes", one resource) ∷ []))
                ∷ (
                  "scopeSpans",
                  one (object (("scope", scope) ∷ ("spans", one (span_for_call s)) ∷ [])),
                )
                ∷ [])),
        )
        ∷ [])

  parent_text :
      (parent : Option String)
      → text_or_empty show
          (to_fields (("parent_span_id", parent_json parent) ∷ []))
          "parent_span_id"
        ≡ elim parent [ none ↦ "" | some p ↦ p ]
  unfolding text_or_empty is_true text_of get
  parent_text none = refl
  parent_text (some String.[]) = refl
  parent_text (some (String.◌∷◌ c p)) = refl

  abbrev shown : Bool → String
  shown allowed = if allowed then "OK" else "ERROR"

  abbrev code : Bool → ℕ
  code fine = if fine then 1 else 2

  status_code : (b : Bool) → code (shown b == "OK") ≡ code b
  status_code true = refl
  status_code false = refl

  pub build_otlp_traces_payload-eq :
      (name : String) (s : SpanCall)
      → build_otlp_traces_payload show dumps (span_record rounded_ms name s ∷ [])
        ≡ ok (payload_for_call name s)
  unfolding build_otlp_traces_payload group_records add_span Dict.get Dict.put sorted
      otlp_attributes otlp_value span_record read_record otlp_span item mapping get text_of
      text_or_empty is_text payload_for_call span_for_call is_true
  build_otlp_traces_payload-eq name s =
      rw (parent_text s.trace.parent_span_id, status_code (s.outcome == "allowed")) refl

filter-All :
    (p : String × Json → Bool) (es : List (String × Json)) → All (λ e. p e ≡ true) (filter p es)
filter-All p [] = tt
filter-All p (e ∷ es) = elim (Bool-cases (p e)) [
  | inl yes_eq ↦ rw (yes_eq, All) (yes_eq, filter-All p es)
  | inr no_eq ↦ rw (no_eq, All) (filter-All p es)
]

module _ (show dumps : Json → String) (rounded_ms : ℕ → Float) where
  -- The payload for a call is made without an exception. It holds one span, with the identifiers,
  -- times, route and outcome of the call; its attributes have safe keys and scalar values only,
  -- whatever extra attributes the call has; and of the decision reasons it tells only the number.
  pub build_otlp_traces_payload-span_record :
      (name : String) (s : SpanCall) (reasons : List String)
      → length reasons ≡ length s.decision_reasons
      → (build_otlp_traces_payload show dumps (span_record rounded_ms name s ∷ [])
          ≡ ok (payload_for_call show dumps rounded_ms name s))
        × All (λ e. is_safe e ≡ true) (sanitize_attributes (span_attributes rounded_ms s))
        × (build_otlp_traces_payload show dumps
              (span_record rounded_ms name (record s { decision_reasons = reasons }) ∷ [])
            ≡ build_otlp_traces_payload show dumps (span_record rounded_ms name s ∷ []))
  unfolding sanitize_attributes span_record span_attributes
  build_otlp_traces_payload-span_record name s reasons same = (
    build_otlp_traces_payload-eq show dumps rounded_ms name s,
    filter-All is_safe (sorted by_name (span_attributes rounded_ms s).items),
    ap (λ r. build_otlp_traces_payload show dumps (r ∷ [])) (rw (same, span_attributes) refl),
  )
