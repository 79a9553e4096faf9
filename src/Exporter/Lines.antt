-- ===== src/Exporter/Lines.antt =====
-- gateway/trace_exporter.py: the file of span records, written by `JsonlTraceExporter` and read by
-- `load_jsonl_span_records`.
use Prim.Native.Char.{code}
use Prim.Native.String.{◌++◌}
use text.Mathlib.TextLemmas.{nil-append, append_assoc, append-nil}
use secure_gpu_inference_gat.Prelude.{
  ◌≡◌, refl, sym, ap, ◌∙◌, String, Bool, true, false, not, ◌&&◌, some, List, [], ◌∷◌, map, ◌==◌,
  nat_eq, string_eq, arith, beq_refl, All, ok, if◌then◌else◌,
}
use secure_gpu_inference_gat.Text.{strip, is_empty}
use secure_gpu_inference_gat.Text.Affix.{prepend, append_eq}
use secure_gpu_inference_gat.Dict
use secure_gpu_inference_gat.Dict.{get-put}
use secure_gpu_inference_gat.Json.{Json}
use secure_gpu_inference_gat.Exporter.{SpanCall, build_span_record}
use secure_gpu_inference_gat.Exporter.Sinks.{
  Outside, after_append, load_line, or_no_text, JsonlTraceExporter, Files, contents, line_of,
  write_jsonl, universal, lines, load_lines, load_jsonl_span_records,
}

-- No character of the text ends a line.
abbrev pub is_one_line : String → Bool
is_one_line String.[] = true
is_one_line (String.◌∷◌ c s) = not (code c == 10) && not (code c == 13) && is_one_line s

line_eq : (s t : String) → (s ++ "\n") ++ t ≡ prepend s (prepend "\n" t)
line_eq s t = append_assoc s "\n" t ∙ append_eq s ("\n" ++ t) ∙ ap (prepend s) (append_eq "\n" t)

universal-line :
    (s rest : String)
    → is_one_line s ≡ true
    → universal (prepend s (prepend "\n" rest)) ≡ prepend s (prepend "\n" (universal rest))
unfolding universal
universal-line String.[] rest plain = refl
universal-line (String.◌∷◌ c s) rest plain = ground (arith, universal-line s rest)

lines-line :
    (s rest : String)
    → is_one_line s ≡ true
    → lines (prepend s (prepend "\n" rest)) ≡ prepend s "\n" ∷ lines rest
unfolding lines
lines-line String.[] rest plain = refl
lines-line (String.◌∷◌ c s) rest plain = ground (arith, lines-line s rest)

-- Every record fills a line of its own, and the line reads as the record.
pub record IsJsonLine (o : Outside) (j : Json) : Type 0 where
  pub one_line : is_one_line (o.dumps j) ≡ true
  pub shown : is_empty (strip (o.dumps j ++ "\n")) ≡ false
  pub loads-dumps : o.loads (o.dumps j ++ "\n") ≡ ok j

module _ (o : Outside) (e : JsonlTraceExporter) where
  abbrev pub record_of : SpanCall → Json
  record_of = build_span_record o.rounded_ms e.service_name

  -- The calls one after the other.
  unfoldable pub write_all : List SpanCall → Files → Files
  unfolding write_jsonl
  write_all [] files = files
  write_all (call ∷ calls) files = write_all calls (write_jsonl o e call files).1

  abbrev joined : List SpanCall → String
  joined [] = ""
  joined (call ∷ calls) = line_of o e call ++ joined calls

  contents-write_jsonl :
      (call : SpanCall) (files : Files)
      → o.append_to e.path ≡ ok tt
      → contents (write_jsonl o e call files).1 e.path ≡ contents files e.path ++ line_of o e call
  unfolding write_jsonl
  contents-write_jsonl call files given =
      let text = contents files e.path ++ line_of o e call in
      ap (λ r. contents (after_append r files e.path text).1 e.path) given
      ∙ ap or_no_text (get-put files e.path e.path text)
      ∙ ap (λ b. or_no_text (if b then some text else Dict.get files e.path)) (beq_refl e.path)

  contents-write_all :
      (calls : List SpanCall) (files : Files)
      → o.append_to e.path ≡ ok tt
      → contents (write_all calls files) e.path ≡ contents files e.path ++ joined calls
  unfolding write_all
  contents-write_all [] files given = sym (append-nil _)
  contents-write_all (call ∷ calls) files given =
      contents-write_all calls (write_jsonl o e call files).1 given
      ∙ ap (λ t. t ++ joined calls) (contents-write_jsonl call files given)
      ∙ append_assoc (contents files e.path) (line_of o e call) (joined calls)

  universal-joined :
      (calls : List SpanCall)
      → All (λ call. IsJsonLine o (record_of call)) calls
      → universal (joined calls) ≡ joined calls
  unfolding universal
  universal-joined [] fine = refl
  universal-joined (call ∷ calls) (one, fine) =
      let s = o.dumps (record_of call) in
      rw (line_eq s (joined calls)) (
        universal-line s (joined calls) one.one_line
        ∙ ap (λ t. prepend s (prepend "\n" t)) (universal-joined calls fine))

  load_lines-joined :
      (calls : List SpanCall)
      → All (λ call. IsJsonLine o (record_of call)) calls
      → load_lines o (lines (joined calls)) ≡ ok (map record_of calls)
  unfolding lines load_lines
  load_lines-joined [] fine = refl
  load_lines-joined (call ∷ calls) (one, fine) =
      let s = o.dumps (record_of call) in
      ap (λ t. load_lines o (lines t)) (line_eq s (joined calls))
      ∙ ap (load_lines o) (lines-line s (joined calls) one.one_line)
      ∙ ap (λ t. load_lines o (t ∷ lines (joined calls))) (sym (append_eq s "\n"))
      ∙ ap (λ b. load_line b (o.loads (line_of o e call)) (load_lines o (lines (joined calls))))
          one.shown
      ∙ ap (λ r. load_line false r (load_lines o (lines (joined calls)))) one.loads-dumps
      ∙ ap (λ r. load_line false (ok (record_of call)) r) (load_lines-joined calls fine)

  -- The records of calls that are written one after the other to an empty file are read back from
  -- it, all of them and in their order.
  pub load_jsonl_span_records-write_all :
      (calls : List SpanCall) (files : Files)
      → o.append_to e.path ≡ ok tt
      → contents files e.path ≡ ""
      → All (λ call. IsJsonLine o (record_of call)) calls
      → load_jsonl_span_records o (contents (write_all calls files) e.path)
        ≡ ok (map record_of calls)
  unfolding load_jsonl_span_records
  load_jsonl_span_records-write_all calls files fits blank fine =
      let text : contents (write_all calls files) e.path ≡ joined calls =
        contents-write_all calls files fits
        ∙ ap (λ t. t ++ joined calls) blank
        ∙ nil-append (joined calls) in
      ap (λ t. load_lines o (lines (universal t))) text
      ∙ ap (λ t. load_lines o (lines t)) (universal-joined calls fine)
      ∙ load_lines-joined calls fine
