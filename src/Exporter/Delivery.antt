-- ===== src/Exporter/Delivery.antt =====
-- gateway/trace_exporter.py: what `write_span` of the exporters leaves behind.
use secure_gpu_inference_gat.Prelude.{
  ◌≡◌, refl, ap, ◌∙◌, String, Option, none, some, List, ◌∷◌, Result, ok, err,
}
use secure_gpu_inference_gat.Errors.{Exception}
use secure_gpu_inference_gat.Exporter.{SpanCall}
use secure_gpu_inference_gat.Exporter.Faithful.{payload_for_call, build_otlp_traces_payload-eq}
use secure_gpu_inference_gat.Exporter.Sinks.{
  Outside, Exporter, otlp, OtlpHttpTraceExporter, Files, write_span, write_one, write_otlp,
  after_post, after_payload, after_one,
}

module _ (o : Outside) where
  -- The POST that an exporter makes for a call.
  unfoldable pub posted : OtlpHttpTraceExporter → SpanCall → Result Exception Unit
  posted e call =
      o.post e.endpoint (payload_for_call o.show o.dumps o.rounded_ms e.service_name call)
        e.timeout_seconds

  write_otlp-posted :
      (e : OtlpHttpTraceExporter) (call : SpanCall)
      → write_otlp o e call ≡ after_post e (posted e call)
  unfolding write_otlp posted
  write_otlp-posted e call =
      ap (after_payload o e)
        (build_otlp_traces_payload-eq o.show o.dumps o.rounded_ms e.service_name call)

  settled :
      (e : OtlpHttpTraceExporter) (error : Option String)
      → after_post e (elim error [ none ↦ ok tt | some text ↦ err (Exception.os_error text) ])
        ≡ (none, record e { last_error = error })
  settled e none = refl
  settled e (some text) = refl

  abbrev with_error : OtlpHttpTraceExporter → Option String → Exporter
  with_error e error = otlp (record e { last_error = error })

  -- A collector that answers clears the last error, one that fails with an OSError leaves its text
  -- there; in both cases the exporters behind it still get the call, as if it were not in front of
  -- them, and only what they raise is raised.
  pub write_span-collector :
      (e : OtlpHttpTraceExporter) (es : List Exporter) (call : SpanCall) (files : Files)
      (error : Option String)
      → posted e call ≡ elim error [ none ↦ ok tt | some text ↦ err (Exception.os_error text) ]
      → write_span o (otlp e ∷ es) call files ≡ (
          let (stop, after, files_after) = write_span o es call files in
          (stop, with_error e error ∷ after, files_after))
  unfolding write_span write_one
  write_span-collector e es call files error given =
      ap (λ r. after_one (r.0, otlp r.1, files) es (write_span o es call files))
        (write_otlp-posted e call ∙ ap (after_post e) given ∙ settled e error)
