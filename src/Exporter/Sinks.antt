-- ===== src/Exporter/Sinks.antt =====
-- gateway/trace_exporter.py: the exporters that `write_span` is called on, and the reader of the
-- file that one of them writes. The files are the state; how an append or a POST ends, and the
-- JSON of Python, are parameters.
use Prim.Native.Char.{Char, code}
use Prim.Native.String.{◌++◌}
use secure_gpu_inference_gat.Prelude.{
  ℕ, String, Bool, true, false, Option, none, some, List, [], ◌∷◌, ◌==◌, nat_eq, string_eq, Result,
  ok, err, ◌>>=◌, if◌then◌else◌,
}
use secure_gpu_inference_gat.Errors.{Exception, os_error}
use secure_gpu_inference_gat.Text.{strip, is_empty}
use secure_gpu_inference_gat.Text.Affix.{prepend}
use secure_gpu_inference_gat.Dict
use secure_gpu_inference_gat.Dict.{Dict}
use secure_gpu_inference_gat.Json.{Float, Json}
use secure_gpu_inference_gat.Exporter.{SpanCall, build_span_record, span_record}
use secure_gpu_inference_gat.Exporter.Otlp.{build_otlp_traces_payload}

-- What the exporters call.
pub record Outside : Type 0 where
  pub rounded_ms : ℕ → Float
  pub show : Json → String
  pub dumps : Json → String
  pub loads : String → Result Exception Json
  pub append_to : String → Result Exception Unit
  pub post : String → Json → Float → Result Exception Unit

pub record JsonlTraceExporter : Type 0 where
  pub path : String
  pub service_name : String

pub record OtlpHttpTraceExporter : Type 0 where
  pub endpoint : String
  pub service_name : String
  pub timeout_seconds : Float
  pub last_error : Option String

pub data Exporter : Type 0 where
  jsonl : JsonlTraceExporter → Exporter
  otlp : OtlpHttpTraceExporter → Exporter

-- The contents of the files.
abbrev pub Files : Type 0
Files = Dict String String

abbrev pub or_no_text : Option String → String
or_no_text none = ""
or_no_text (some text) = text

abbrev pub contents : Files → String → String
contents files path = or_no_text (Dict.get files path)

-- What `OtlpHttpTraceExporter.write_span` raises after a POST, and its `last_error` then.
abbrev pub after_post :
    OtlpHttpTraceExporter → Result Exception Unit → Option Exception × OtlpHttpTraceExporter
after_post e (ok _) = (none, record e { last_error = none })
after_post e (err (os_error text)) = (none, record e { last_error = some text })
after_post e (err other) = (some other, e)

abbrev begins_line : String → Bool
begins_line String.[] = false
begins_line (String.◌∷◌ c s) = code c == 10

-- The line ends of a file as it is read: `\r\n` and `\r` are `\n`.
unfoldable pub universal : String → String
universal String.[] = ""
universal (String.◌∷◌ c s) =
    let rest = universal s in
    if code c == 13 then if begins_line s then rest else prepend "\n" rest else String.◌∷◌ c rest

-- A character in front of the first line.
abbrev pub extend : Char → List String → List String
extend c [] = String.◌∷◌ c String.[] ∷ []
extend c (l ∷ ls) = String.◌∷◌ c l ∷ ls

-- The lines of a text, each with its end.
unfoldable pub lines : String → List String
lines String.[] = []
lines (String.◌∷◌ c s) =
    let rest = lines s in if code c == 10 then String.◌∷◌ c String.[] ∷ rest else extend c rest

-- The rest of the exporters follows unless the first one raised.
abbrev pub after_one :
    Option Exception × Exporter × Files
    → List Exporter
    → Option Exception × List Exporter × Files
    → Option Exception × List Exporter × Files
after_one (some x, e, files) es rest = (some x, e ∷ es, files)
after_one (none, e, files) es (later, rest, after) = (later, e ∷ rest, after)

abbrev pub after_append : Result Exception Unit → Files → String → String → Option Exception × Files
after_append (err x) files path text = (some x, files)
after_append (ok _) files path text = (none, Dict.put files path text)

-- The record of a line in front of the later ones, unless the line is blank.
abbrev pub load_line :
    Bool → Result Exception Json → Result Exception (List Json) → Result Exception (List Json)
load_line true loaded more = more
load_line false loaded more = do first ← loaded; records ← more; ok (first ∷ records)

module _ (o : Outside) where
  abbrev pub line_of : JsonlTraceExporter → SpanCall → String
  line_of e call = o.dumps (build_span_record o.rounded_ms e.service_name call) ++ "\n"

  -- `JsonlTraceExporter.write_span`: what it raises, and the files then.
  unfoldable pub write_jsonl : JsonlTraceExporter → SpanCall → Files → Option Exception × Files
  unfolding span_record Dict.get Dict.put
  write_jsonl e call files =
      after_append (o.append_to e.path) files e.path (contents files e.path ++ line_of e call)

  abbrev pub after_payload :
      OtlpHttpTraceExporter → Result Exception Json → Option Exception × OtlpHttpTraceExporter
  after_payload e (err x) = (some x, e)
  after_payload e (ok payload) = after_post e (o.post e.endpoint payload e.timeout_seconds)

  -- `OtlpHttpTraceExporter.write_span`
  unfoldable pub write_otlp :
      OtlpHttpTraceExporter → SpanCall → Option Exception × OtlpHttpTraceExporter
  unfolding span_record build_otlp_traces_payload
  write_otlp e call =
      let records = span_record o.rounded_ms e.service_name call ∷ [] in
      after_payload e (build_otlp_traces_payload o.show o.dumps records)

  unfoldable pub write_one : Exporter → SpanCall → Files → Option Exception × Exporter × Files
  unfolding write_jsonl write_otlp
  write_one (jsonl e) call files =
      let (stop, after) = write_jsonl e call files in (stop, jsonl e, after)
  write_one (otlp e) call files = let (stop, after) = write_otlp e call in (stop, otlp after, files)

  -- `CompositeTraceExporter.write_span`: the exporters one after the other; an exception keeps it
  -- from those that follow.
  unfoldable pub write_span :
      List Exporter → SpanCall → Files → Option Exception × List Exporter × Files
  unfolding write_one
  write_span [] call files = (none, [], files)
  write_span (e ∷ es) call files =
      let one = write_one e call files in after_one one es (write_span es call one.2)

  unfoldable pub load_lines : List String → Result Exception (List Json)
  load_lines [] = ok []
  load_lines (line ∷ more) = load_line (is_empty (strip line)) (o.loads line) (load_lines more)

  -- `load_jsonl_span_records`, on the contents of the file.
  unfoldable pub load_jsonl_span_records : String → Result Exception (List Json)
  unfolding lines load_lines universal
  load_jsonl_span_records text = load_lines (lines (universal text))
