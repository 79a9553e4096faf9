-- ===== src/Tests/Spans.antt =====
-- Spans of two services, with writers of JSON that serve these records.

use secure_gpu_inference_gat.Prelude.{
  ◌≡◌, refl, ℕ, String, true, none, some, List, [], ◌∷◌, Result, ok, err, length, All,
}
use secure_gpu_inference_gat.Prelude.Int.{pos}
use secure_gpu_inference_gat.Errors.{Exception, os_error}
use secure_gpu_inference_gat.Dict
use secure_gpu_inference_gat.Dict.{Dict}
use secure_gpu_inference_gat.Sorting.{sorted}
use secure_gpu_inference_gat.Text.{strip, lstrip, rstrip, is_space, decimal}
use secure_gpu_inference_gat.Identity.{is_text}
use secure_gpu_inference_gat.Json.{
  Json, finite, Float, Fields, to_fields, object, field, obj, str, int, get, is_true,
}
use secure_gpu_inference_gat.Exporter.{
  SpanCall, span_record, build_span_record, span_attributes, sanitize_attributes, update, is_safe,
}
use secure_gpu_inference_gat.Exporter.Otlp.{
  GroupKey, Group, key_eq, read_record, group_records, add_span, otlp_span, item, mapping, text_of,
  text_or_empty, build_otlp_traces_payload, otlp_attributes, otlp_value,
}
use secure_gpu_inference_gat.Exporter.Grouping.{
  spans_at, spans_with, span_count, group_records_refines,
}
use secure_gpu_inference_gat.Exporter.Faithful.{
  payload_for_call, build_otlp_traces_payload-span_record,
}
use secure_gpu_inference_gat.Exporter.Sinks.{
  Outside, jsonl, otlp, JsonlTraceExporter, OtlpHttpTraceExporter, contents, write_span,
  load_jsonl_span_records,
}
use secure_gpu_inference_gat.Exporter.Delivery.{posted, write_span-collector}
use secure_gpu_inference_gat.Exporter.Lines.{
  write_all, record_of, IsJsonLine, load_jsonl_span_records-write_all,
}
use secure_gpu_inference_gat.Tests.Service.{trace}

abbrev call : SpanCall
call = record {
  trace = trace;
  model_id = "m";
  outcome = "allowed";
  auth_method = "jwt";
  decision_reasons = "policy allow" ∷ [];
  latency = some 3;
  started_at_unix_nano = 5;
  ended_at_unix_nano = 9;
  extra_attributes = ("prompt", str "secret") ∷ ("ai.gateway.token_budget_limit", int (pos 7)) ∷ [];
  route = "/v1/infer/m";
}

abbrev show : Json → String
show value = "?"

-- The first text of an object.
abbrev dumps : Json → String
dumps (obj (field key (str text) more)) = text
dumps value = "{}"

abbrev rounded : ℕ → Float
rounded n = finite (pos n)

abbrev span : String → Fields
span id = to_fields (
    ("trace_id", str "t")
    ∷ ("span_id", str id)
    ∷ ("name", str "POST")
    ∷ ("start_time_unix_nano", int (pos 1))
    ∷ ("end_time_unix_nano", int (pos 2))
    ∷ [])

abbrev record_from : String → String → Fields
record_from service id = to_fields (
    ("resource", object (("service.name", str service) ∷ []))
    ∷ ("scope", object (("name", str "s") ∷ []))
    ∷ ("span", obj (span id))
    ∷ [])

abbrev records : List Fields
records = record_from "a" "1" ∷ record_from "b" "2" ∷ record_from "a" "3" ∷ []

abbrev or_empty : Result Exception (Dict GroupKey Group) → Dict GroupKey Group
or_empty (err e) = Dict.empty
or_empty (ok grouped) = grouped

abbrev grouped : Dict GroupKey Group
grouped = or_empty (group_records show dumps records Dict.empty)

group_records_refines_example :
    ((key : GroupKey) → spans_at grouped key ≡ spans_with show dumps key records)
    × (span_count grouped ≡ 3)
unfolding group_records read_record item mapping get otlp_span text_of text_or_empty is_true is_text
    otlp_attributes otlp_value sorted add_span Dict.get Dict.put decimal
group_records_refines_example = group_records_refines show dumps records grouped refl

-- The service `a` has two of the three spans.
two_spans : length (spans_at grouped ("a", "s")) ≡ 2
unfolding group_records read_record item mapping get otlp_span text_of text_or_empty is_true is_text
    otlp_attributes otlp_value sorted add_span Dict.get Dict.put decimal spans_at
two_spans = refl

build_otlp_traces_payload-span_record_example :
    (build_otlp_traces_payload show dumps (span_record rounded "svc" call ∷ [])
      ≡ ok (payload_for_call show dumps rounded "svc" call))
    × All (λ e. is_safe e ≡ true) (sanitize_attributes (span_attributes rounded call))
    × (build_otlp_traces_payload show dumps
          (span_record rounded "svc" (record call { decision_reasons = "other" ∷ [] }) ∷ [])
        ≡ build_otlp_traces_payload show dumps (span_record rounded "svc" call ∷ []))
build_otlp_traces_payload-span_record_example =
    build_otlp_traces_payload-span_record show dumps rounded "svc" call ("other" ∷ []) refl

-- Of the two extra attributes of the call, the prompt is left out.
nine_attributes : length (sanitize_attributes (span_attributes rounded call)) ≡ 9
unfolding sanitize_attributes span_attributes update sorted Dict.put
nine_attributes = refl

abbrev file : JsonlTraceExporter
file = record { path = "spans.jsonl"; service_name = "svc" }

abbrev collector : OtlpHttpTraceExporter
collector = record {
  endpoint = "http://collector";
  service_name = "svc";
  timeout_seconds = finite (pos 2);
  last_error = none;
}

-- A collector that is down, a file that can be written, and JSON of the one record.
abbrev outside : Outside
outside = record {
  rounded_ms = rounded;
  show = show;
  dumps = λ value. "{}";
  loads = λ line. ok (build_span_record rounded "svc" call);
  append_to = λ path. ok tt;
  post = λ endpoint payload timeout. err (os_error "refused");
}

write_span-collector_example :
    write_span outside (otlp collector ∷ jsonl file ∷ []) call Dict.empty ≡ (
      let (stop, after, files) = write_span outside (jsonl file ∷ []) call Dict.empty in
      (stop, otlp (record collector { last_error = some "refused" }) ∷ after, files))
unfolding posted
write_span-collector_example =
    write_span-collector outside collector (jsonl file ∷ []) call Dict.empty (some "refused") refl

one_line : IsJsonLine outside (record_of outside file call)
unfolding strip lstrip rstrip is_space
one_line = record { one_line = refl; shown = refl; loads-dumps = refl }

load_jsonl_span_records-write_all_example :
    load_jsonl_span_records outside
      (contents (write_all outside file (call ∷ call ∷ []) Dict.empty) "spans.jsonl")
    ≡ ok (record_of outside file call ∷ record_of outside file call ∷ [])
unfolding Dict.get
load_jsonl_span_records-write_all_example =
    load_jsonl_span_records-write_all outside file (call ∷ call ∷ []) Dict.empty refl refl
      (one_line, (one_line, tt))
