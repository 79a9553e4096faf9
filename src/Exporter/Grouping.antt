-- ===== src/Exporter/Grouping.antt =====
-- gateway/trace_exporter.py, `build_otlp_traces_payload`: the loop against a description of what
-- each group is to hold.
use secure_gpu_inference_gat.Prelude.{
  ◌≡◌, refl, ◌∙◌, sym, ap, ℕ, ◌+◌, String, Bool, true, false, Option, none, some, List, [], ◌∷◌,
  ◌++◌, arith, ◌==◌, Result, ok, err, >>=-eq-ok, if◌then◌else◌, length, length-append, Bool-cases,
  inl, inr,
}
use mathlib.Core.List.{append_assoc, append-nil}
use secure_gpu_inference_gat.Errors.{Exception}
use secure_gpu_inference_gat.Dict
use secure_gpu_inference_gat.Dict.{Dict, get-put, get-empty, sum_sizes, sum_sizes-put, size_at}
use secure_gpu_inference_gat.Json.{Json, Fields}
use secure_gpu_inference_gat.Exporter.Otlp.{
  Group, GroupKey, key_eq, or_fresh, append_span, add_span, read_record, group_records,
}

abbrev spans_of : Option Group → List Json
spans_of none = []
spans_of (some group) = group.spans

-- The spans that a key has so far, and the number of all spans.
unfoldable pub spans_at : Dict GroupKey Group → GroupKey → List Json
spans_at grouped key = spans_of (Dict.get grouped key)

abbrev pub span_count : Dict GroupKey Group → ℕ
span_count = sum_sizes (λ group. length group.spans)

or_fresh-spans :
    (about : Json × Json) (found : Option Group) → (or_fresh about found).spans ≡ spans_of found
or_fresh-spans about none = refl
or_fresh-spans about (some group) = refl

spans_of-if :
    (b : Bool) (group : Group) (other : Option Group) {spans : List Json}
    → group.spans ≡ spans
    → spans_of (if b then some group else other) ≡ (if b then spans else spans_of other)
spans_of-if true group other given = given
spans_of-if false group other given = refl

spans_at-add_span :
    (grouped : Dict GroupKey Group) (k key : GroupKey) (about : Json × Json) (span : Json)
    → spans_at (add_span grouped k about span) key
      ≡ (if k == key then spans_at grouped k ++ span ∷ [] else spans_at grouped key)
unfolding spans_at add_span
spans_at-add_span grouped k key about span =
    let found = Dict.get grouped k in
    let group = append_span (or_fresh about found) span in
    rw (get-put grouped k key group) (
      spans_of-if (k == key) group (Dict.get grouped key)
        (ap (λ spans. spans ++ span ∷ []) (or_fresh-spans about found)))

size_at-or_fresh :
    (about : Json × Json) (found : Option Group)
    → size_at (λ group. length group.spans) found ≡ length (or_fresh about found).spans
size_at-or_fresh about none = refl
size_at-or_fresh about (some group) = refl

span_count-add_span :
    (grouped : Dict GroupKey Group) (k : GroupKey) (about : Json × Json) (span : Json)
    → span_count (add_span grouped k about span) ≡ span_count grouped + 1
unfolding add_span
span_count-add_span grouped k about span =
    let group = or_fresh about (Dict.get grouped k) in
    omega (
      arith,
      sum_sizes-put (λ g. length g.spans) grouped k (append_span group span),
      size_at-or_fresh about (Dict.get grouped k),
      length-append group.spans (span ∷ []),
    )

add_span-append :
    (grouped : Dict GroupKey Group) (k key : GroupKey) (about : Json × Json) (span : Json)
    (more : List Json)
    → spans_at (add_span grouped k about span) key ++ more
      ≡ spans_at grouped key ++ ((if k == key then span ∷ [] else []) ++ more)
add_span-append grouped k key about span more =
    rw (spans_at-add_span grouped k key about span) (elim (Bool-cases (k == key)) [
      | inl same ↦
          rw (same, (key_eq.beq_iff k key).0 same)
            (append_assoc (spans_at grouped key) (span ∷ []) more)
      | inr other ↦ rw other refl
    ])

module _ (show dumps : Json → String) where
  -- The span that a record adds to the group of a key.
  abbrev span_for : GroupKey → Result Exception (GroupKey × (Json × Json) × Json) → List Json
  span_for key (err e) = []
  span_for key (ok (k, about, span)) = if k == key then span ∷ [] else []

  -- The spans of the records that have a key, in their order.
  unfoldable pub spans_with : GroupKey → List Fields → List Json
  spans_with key [] = []
  spans_with key (r ∷ rs) = span_for key (read_record show dumps r) ++ spans_with key rs

  grouped_from :
      (records : List Fields) (before after : Dict GroupKey Group)
      → group_records show dumps records before ≡ ok after
      → ((key : GroupKey) → spans_at after key ≡ spans_at before key ++ spans_with key records)
        × (span_count after ≡ span_count before + length records)
  unfolding group_records spans_with
  grouped_from [] before after given =
      let same : before ≡ after = cc in
      (λ key. rw same (sym (append-nil (spans_at after key))), rw same (omega arith))
  grouped_from (r ∷ rs) before after given =
      let ((k, about, span), read, rest) = >>=-eq-ok (read_record show dumps r) _ given in
      let (each, count) = grouped_from rs (add_span before k about span) after rest in
      (
        λ key. each key ∙ rw read (add_span-append before k key about span (spans_with key rs)),
        omega (arith, count, span_count-add_span before k about span),
      )

  -- The loop sorts the spans as described: after it has read the records, each key has exactly the
  -- spans of the records with that key, in the order of the records, and all groups together hold
  -- as many spans as there were records.
  pub group_records_refines :
      (records : List Fields) (grouped : Dict GroupKey Group)
      → group_records show dumps records Dict.empty ≡ ok grouped
      → ((key : GroupKey) → spans_at grouped key ≡ spans_with key records)
        × (span_count grouped ≡ length records)
  unfolding spans_at sum_sizes Dict.get
  group_records_refines records grouped given =
      let (each, count) = grouped_from records Dict.empty grouped given in
      (λ key. each key, omega (arith, count))
