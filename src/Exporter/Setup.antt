-- ===== src/Exporter/Setup.antt =====
-- gateway/trace_exporter.py: the exporters that the environment asks for, and the conversion of a
-- file of records. `os.getenv` and `float` of a text are parameters.
use secure_gpu_inference_gat.Prelude.{
  String, Option, none, some, List, [], ◌∷◌, ◌++◌ as append, Result, ok, ◌>>=◌, if◌then◌else◌,
}
use secure_gpu_inference_gat.Errors.{Exception}
use secure_gpu_inference_gat.Text.{strip, is_empty}
use secure_gpu_inference_gat.Json.{Float, Json, Fields}
use secure_gpu_inference_gat.Exporter.Otlp.{build_otlp_traces_payload, mapping}
use secure_gpu_inference_gat.Exporter.Sinks.{
  Outside, Exporter, jsonl, otlp, JsonlTraceExporter, load_jsonl_span_records,
}

-- `_empty_to_none`
unfoldable pub empty_to_none : Option String → Option String
empty_to_none none = none
empty_to_none (some text) = if is_empty (strip text) then none else some (strip text)

-- `a or b` of two texts that may be missing.
abbrev pub or_else : Option String → Option String → Option String
or_else none b = b
or_else (some a) b = if is_empty a then b else some a

module _ (getenv : String → Option String) (parse_float : String → Option Float) where
  abbrev pub getenv_or : String → String → String
  getenv_or name other = elim (getenv name) [ none ↦ other | some text ↦ text ]

  -- `_env_float`
  unfoldable pub env_float : String → Float → Float
  unfolding empty_to_none
  env_float name other = elim (empty_to_none (getenv name)) [
    | none ↦ other
    | some text ↦ elim (parse_float text) [ none ↦ other | some value ↦ value ]
  ]

  abbrev pub export_path : Option String
  unfolding empty_to_none
  export_path =
      empty_to_none (or_else (getenv "TRACE_EXPORT_PATH") (getenv "OTEL_TRACE_EXPORT_PATH"))

  abbrev pub service_name : String
  service_name = getenv_or "OTEL_SERVICE_NAME" "secure-gpu-inference-gateway"

  -- `JsonlTraceExporter.from_env`
  unfoldable pub jsonl_from_env : Option JsonlTraceExporter
  unfolding export_path
  jsonl_from_env = elim export_path [
    | none ↦ none
    | some path ↦ some (record { path = path; service_name = service_name })
  ]

  -- `build_trace_exporter_from_env`, with the default timeout of two seconds; no exporter is the
  -- empty list, and several are those of a `CompositeTraceExporter`.
  unfoldable pub build_trace_exporter_from_env : Float → List Exporter
  unfolding jsonl_from_env env_float empty_to_none
  build_trace_exporter_from_env two_seconds =
      let files : List Exporter = elim jsonl_from_env [ none ↦ [] | some e ↦ jsonl e ∷ [] ] in
      let endpoint =
        empty_to_none
          (or_else (getenv "OTEL_EXPORTER_OTLP_TRACES_ENDPOINT") (getenv "OTLP_TRACES_ENDPOINT")) in
      let collectors : List Exporter = elim endpoint [
        | none ↦ []
        | some url ↦
            otlp (record {
              endpoint = url;
              service_name = service_name;
              timeout_seconds = env_float "OTEL_EXPORTER_OTLP_TIMEOUT" two_seconds;
              last_error = none;
            })
            ∷ []
      ] in
      append files collectors

-- Every record is to be a mapping.
unfoldable pub mappings : List Json → Result Exception (List Fields)
unfolding mapping
mappings [] = ok []
mappings (j ∷ js) = do fields ← mapping j; more ← mappings js; ok (fields ∷ more)

-- `write_otlp_payload`: the payload for the contents of the input file.
unfoldable pub write_otlp_payload : Outside → String → Result Exception Json
unfolding load_jsonl_span_records mappings build_otlp_traces_payload
write_otlp_payload o text = do
  loaded ← load_jsonl_span_records o text
  records ← mappings loaded
  build_otlp_traces_payload o.show o.dumps records
