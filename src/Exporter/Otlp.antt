-- ===== src/Exporter/Otlp.antt =====
-- gateway/trace_exporter.py: the OTLP payload of span records. `str` and `json.dumps` of Python are
-- parameters where they see values that are neither texts nor numbers.
use Prim.Native.String.{◌++◌}
use secure_gpu_inference_gat.Prelude.{
  suc, String, Option, none, some, List, [], ◌∷◌, ◌++◌ as append, map, Eq, string_eq, pair_eq,
  Result, ok, err, ◌>>=◌, if◌then◌else◌,
}
use secure_gpu_inference_gat.Prelude.Int.{ℤ, pos, negsuc}
use secure_gpu_inference_gat.Errors.{Exception, key_error, type_error}
use secure_gpu_inference_gat.Text.{decimal}
use secure_gpu_inference_gat.Sorting.{sorted}
use secure_gpu_inference_gat.Dict
use secure_gpu_inference_gat.Dict.{Dict}
use secure_gpu_inference_gat.Identity.{is_text}
use secure_gpu_inference_gat.Json.{
  Json, bool, int, float, str, arr, obj, Fields, end, get, entries, object, to_items, is_true,
}
use secure_gpu_inference_gat.Exporter.{by_name}

-- `str(n)`
abbrev pub show_int : ℤ → String
show_int (pos n) = decimal n
show_int (negsuc n) = "-" ++ decimal (suc n)

-- `record[key]`
unfoldable pub item : Fields → String → Result Exception Json
item fields key = elim (get fields key) [ none ↦ err (key_error key) | some value ↦ ok value ]

-- `_mapping`
unfoldable pub mapping : Json → Result Exception Fields
mapping (obj fields) = ok fields
mapping _ = err (type_error "expected mapping-shaped span record")

-- `fields.get(key, default)`
abbrev pub get_or : Fields → String → Json → Json
get_or fields key other = elim (get fields key) [ none ↦ other | some value ↦ value ]

module _ (show : Json → String) where
  -- `str(value)`
  unfoldable pub text_of : Json → String
  text_of (str s) = s
  text_of (int n) = show_int n
  text_of value = show value

  -- `str(fields.get(key) or "")`
  unfoldable pub text_or_empty : Fields → String → String
  unfolding is_true text_of
  text_or_empty fields key = elim (get fields key) [
    | none ↦ ""
    | some value ↦ if is_true value then text_of value else ""
  ]

  unfoldable pub otlp_value : Json → Json
  unfolding text_of
  otlp_value (bool b) = object (("boolValue", bool b) ∷ [])
  otlp_value (int n) = object (("intValue", str (show_int n)) ∷ [])
  otlp_value (float f) = object (("doubleValue", float f) ∷ [])
  otlp_value value = object (("stringValue", str (text_of value)) ∷ [])

  unfoldable pub otlp_attributes : Fields → Json
  unfolding otlp_value
  otlp_attributes attributes = arr (
      to_items (
        map (λ e. object (("key", str e.0) ∷ ("value", otlp_value e.1) ∷ []))
          (sorted by_name (entries attributes))))

  unfoldable pub otlp_span : Fields → Result Exception Json
  unfolding item mapping text_of otlp_attributes text_or_empty
  otlp_span span = do
    status ← mapping (get_or span "status" (obj end))
    trace_id ← item span "trace_id"
    span_id ← item span "span_id"
    name ← item span "name"
    started ← item span "start_time_unix_nano"
    ended ← item span "end_time_unix_nano"
    attributes ← mapping (get_or span "attributes" (obj end))
    ok (
        object (
          ("traceId", str (text_of trace_id))
          ∷ ("spanId", str (text_of span_id))
          ∷ ("parentSpanId", str (text_or_empty span "parent_span_id"))
          ∷ ("name", str (text_of name))
          ∷ ("kind", int (pos 2))
          ∷ ("startTimeUnixNano", str (text_of started))
          ∷ ("endTimeUnixNano", str (text_of ended))
          ∷ ("attributes", otlp_attributes attributes)
          ∷ (
            "status",
            object (
                ("code", int (pos (if is_text (get status "code") "OK" then 1 else 2)))
                ∷ ("message", str (text_of (get_or status "message" (str ""))))
                ∷ []),
          )
          ∷ []))

-- `(resource_key, scope_key)`
abbrev pub GroupKey : Type 0
GroupKey = String × String

instance abbrev pub key_eq : Eq GroupKey
key_eq = pair_eq string_eq string_eq

-- One entry of `grouped`: its resource and scope, and the spans so far.
pub record Group : Type 0 where
  pub resource : Json
  pub scope : Json
  pub spans : List Json

-- The group of a key: a new one if there is none.
abbrev pub or_fresh : Json × Json → Option Group → Group
or_fresh (resource, scope) none = record { resource = resource; scope = scope; spans = [] }
or_fresh about (some group) = group

abbrev pub append_span : Group → Json → Group
append_span group span = record group { spans = append group.spans (span ∷ []) }

-- `grouped[group_key]`, made if it is new, with the span appended.
unfoldable pub add_span : Dict GroupKey Group → GroupKey → Json × Json → Json → Dict GroupKey Group
add_span grouped key about span =
    Dict.put grouped key (append_span (or_fresh about (Dict.get grouped key)) span)

abbrev pub resource_span : Group → Json
resource_span group = object (
    ("resource", group.resource)
    ∷ (
      "scopeSpans",
      arr (
          to_items
            (object (("scope", group.scope) ∷ ("spans", arr (to_items group.spans)) ∷ []) ∷ [])),
    )
    ∷ [])

module _ (show dumps : Json → String) where
  -- The key of a record, its resource and scope in the payload, and its span.
  unfoldable pub read_record : Fields → Result Exception (GroupKey × (Json × Json) × Json)
  unfolding item mapping otlp_attributes text_of otlp_span
  read_record r = do
    resource ← item r "resource"
    resource ← mapping resource
    scope ← item r "scope"
    scope ← mapping scope
    span ← item r "span"
    span ← mapping span
    otlp ← otlp_span show span
    ok (
      (dumps (obj resource), dumps (obj scope)),
      (
        object (("attributes", otlp_attributes show resource) ∷ []),
        object (
            ("name", str (text_of show (get_or scope "name" (str ""))))
            ∷ ("schemaUrl", str (text_of show (get_or scope "schema_url" (str ""))))
            ∷ []),
      ),
      otlp,
    )

  -- The loop over the records.
  unfoldable pub group_records :
      List Fields → Dict GroupKey Group → Result Exception (Dict GroupKey Group)
  unfolding read_record add_span
  group_records [] grouped = ok grouped
  group_records (r ∷ rs) grouped = do
    (key, about, span) ← read_record r
    group_records rs (add_span grouped key about span)

  -- `build_otlp_traces_payload`
  unfoldable pub build_otlp_traces_payload : List Fields → Result Exception Json
  unfolding group_records
  build_otlp_traces_payload records = do
    grouped ← group_records records Dict.empty
    ok (object (("resourceSpans", arr (to_items (map resource_span (Dict.values grouped)))) ∷ []))
