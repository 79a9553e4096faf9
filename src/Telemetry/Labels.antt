-- ===== src/Telemetry/Labels.antt =====
-- gateway/telemetry_snapshot.py, `parse_labels`: the labels that gateway/metrics.py writes are read
-- back.
use Prim.Native.Char.{Char, code}
use Prim.Native.String.{◌++◌}
use text.Mathlib.TextEquality.{Char-path}
use text.Mathlib.TextLemmas.{append_assoc, append-nil}
use secure_gpu_inference_gat.Prelude.{
  ◌≡◌, refl, sym, ap, ◌∙◌, String, Bool, true, false, not, ◌&&◌, List, [], ◌∷◌, map, inl, inr,
  Bool-cases, nat_beq, nat_beq_iff, string_eq, arith, All, ok, ◌>>=◌,
}
use secure_gpu_inference_gat.Text.{strip, lstrip, rstrip, is_empty, is_space}
use secure_gpu_inference_gat.Text.Affix.{prepend, append_eq, join}
use secure_gpu_inference_gat.Text.Case.{chr}
use secure_gpu_inference_gat.Dict
use secure_gpu_inference_gat.Dict.{Dict}
use secure_gpu_inference_gat.Metrics.Render.{escape_label_value, render_label}
use secure_gpu_inference_gat.Metrics.Escape.{escape-cons}
use secure_gpu_inference_gat.Telemetry.{
  Reading, start, closed, in_key, in_value, grow, escaped, key_step, step, finish, scan,
  parse_labels,
}

grow-prepend :
    (s : String) (c : Char) (t : String) → prepend (grow s c) t ≡ prepend s (String.◌∷◌ c t)
grow-prepend String.[] c t = refl
grow-prepend (String.◌∷◌ d s) c t = ap (String.◌∷◌ d) (grow-prepend s c t)

prepend-nil : (s : String) → prepend s "" ≡ s
prepend-nil String.[] = refl
prepend-nil (String.◌∷◌ c s) = ap (String.◌∷◌ c) (prepend-nil s)

char_eq : (d c : Char) → nat_beq (code c) (code d) ≡ true → c ≡ d
char_eq d c h = Char-path c d ((nat_beq_iff (code c) (code d)).0 h)

-- A value is read up to its closing quote.
scan-escape_label_value :
    (key value s t : String) (labels : Dict String String)
    → scan (in_value key value) (prepend (escape_label_value s) (String.◌∷◌ "\"" t)) labels
      ≡ scan closed t (Dict.put labels key (prepend value s))
unfolding scan step escape_label_value escaped chr
scan-escape_label_value key value String.[] t labels =
    ap (λ v. scan closed t (Dict.put labels key v)) (sym (prepend-nil value))
scan-escape_label_value key value (String.◌∷◌ c s) t labels =
    let rest = prepend (escape_label_value s) (String.◌∷◌ "\"" t) in
    let done : scan (in_value key (grow value c)) rest labels
        ≡ scan closed t (Dict.put labels key (prepend value (String.◌∷◌ c s))) =
      scan-escape_label_value key (grow value c) s t labels
      ∙ ap (λ v. scan closed t (Dict.put labels key v)) (grow-prepend value c s) in
    let read_as : (d : Char)
        → nat_beq (code c) (code d) ≡ true
        → scan (in_value key (grow value d)) rest labels
          ≡ scan closed t (Dict.put labels key (prepend value (String.◌∷◌ c s))) =
      λ d same.
        ap (λ e. scan (in_value key (grow value e)) rest labels) (sym (char_eq d c same)) ∙ done in
    ap (λ e. scan (in_value key value) (prepend e (String.◌∷◌ "\"" t)) labels) (escape-cons c s)
    ∙ elim (Bool-cases (nat_beq (code c) b'\\')) [
      | inl back ↦ rw back (read_as "\\" back)
      | inr other ↦ elim (Bool-cases (nat_beq (code c) 10)) [
        | inl line ↦ rw (other, line) (read_as "\n" line)
        | inr ink ↦ elim (Bool-cases (nat_beq (code c) b'"')) [
          | inl quote ↦ rw (other, ink, quote) (read_as "\"" quote)
          | inr plain ↦ rw (other, ink, plain, other, plain) done
        ]
      ]
    ]

-- The characters of the name of a label.
abbrev pub is_plain : Char → Bool
is_plain c = not (nat_beq (code c) b'=') && not (nat_beq (code c) b',') && not (is_space (code c))

abbrev pub all_plain : String → Bool
all_plain String.[] = true
all_plain (String.◌∷◌ c s) = is_plain c && all_plain s

-- The text has a character, and no character of it is blank, a comma or an equals sign.
abbrev pub is_label_name : String → Bool
is_label_name key = not (is_empty key) && all_plain key

rstrip-plain : (s : String) → all_plain s ≡ true → rstrip s ≡ s
unfolding rstrip
rstrip-plain String.[] h = refl
rstrip-plain (String.◌∷◌ c s) h = ground (arith, rstrip-plain s)

strip-plain : (s : String) → all_plain s ≡ true → strip s ≡ s
unfolding strip lstrip
strip-plain String.[] h = rstrip-plain "" h
strip-plain (String.◌∷◌ c s) h =
    let ink : is_space (code c) ≡ false = ground arith in rw ink (rstrip-plain (String.◌∷◌ c s) h)

abbrev after_key : String → String
after_key t = String.◌∷◌ "=" (String.◌∷◌ "\"" t)

key_step-plain :
    (key : String) (c : Char) (labels : Dict String String)
    → is_plain c ≡ true
    → key_step key c labels ≡ ok (in_key (grow key c), labels)
unfolding key_step
key_step-plain key c labels plain = ground arith

scan-equals :
    (key t : String) (labels : Dict String String)
    → strip key ≡ key
    → is_empty key ≡ false
    → scan (in_key key) (after_key t) labels ≡ scan (in_value key "") t labels
unfolding scan step key_step
scan-equals key t labels stripped full = rw (stripped, full) refl

-- A key is read up to its opening quote.
scan-key :
    (key s t : String) (labels : Dict String String) {whole : String}
    → prepend key s ≡ whole
    → all_plain s ≡ true
    → strip whole ≡ whole
    → is_empty whole ≡ false
    → scan (in_key key) (prepend s (after_key t)) labels ≡ scan (in_value whole "") t labels
unfolding scan step
scan-key key String.[] t labels same plain stripped full =
    ap (λ k. scan (in_key k) (after_key t) labels) (sym (prepend-nil key) ∙ same)
    ∙ scan-equals _ t labels stripped full
scan-key key (String.◌∷◌ c s) t labels same plain stripped full =
    let text = prepend s (after_key t) in
    ap (λ (r : Reading). r >>= λ x. scan x.0 text x.1)
      (key_step-plain key c labels (ground (arith, plain)))
    ∙ scan-key (grow key c) s t labels (grow-prepend key c s ∙ same) (ground (arith, plain))
        stripped full

-- The first character of a key.
scan-start :
    (c : Char) (s : String) (labels : Dict String String)
    → is_plain c ≡ true
    → scan start (String.◌∷◌ c s) labels ≡ scan (in_key "") (String.◌∷◌ c s) labels
unfolding scan step is_space
scan-start c s labels plain =
    let blank : nat_beq (code c) b' ' ≡ false = ground arith in
    let comma : nat_beq (code c) b',' ≡ false = ground arith in rw (blank, comma) refl

render_label-append :
    (key value t : String)
    → render_label (key, value) ++ t
      ≡ prepend key (after_key (prepend (escape_label_value value) (String.◌∷◌ "\"" t)))
render_label-append key value t =
    let e = escape_label_value value in
    append_assoc key ("=\"" ++ e ++ "\"") t
    ∙ ap (λ u. key ++ u) (append_assoc "=\"" (e ++ "\"") t)
    ∙ append_eq key ("=\"" ++ (e ++ "\"") ++ t)
    ∙ ap (prepend key) (append_eq "=\"" ((e ++ "\"") ++ t))
    ∙ ap (λ u. prepend key (after_key u))
        (append_assoc e "\"" t ∙ append_eq e ("\"" ++ t) ∙ ap (prepend e) (append_eq "\"" t))

scan-name :
    (key t : String) (labels : Dict String String)
    → is_label_name key ≡ true
    → scan start (prepend key (after_key t)) labels ≡ scan (in_value key "") t labels
scan-name String.[] t labels named = cc
scan-name (String.◌∷◌ c key) t labels named =
    let plain : all_plain (String.◌∷◌ c key) ≡ true = named in
    scan-start c (prepend key (after_key t)) labels (ground (arith, plain))
    ∙ scan-key "" (String.◌∷◌ c key) t labels refl plain (strip-plain (String.◌∷◌ c key) plain) refl

scan-label :
    (key value t : String) (labels : Dict String String)
    → is_label_name key ≡ true
    → scan start (render_label (key, value) ++ t) labels ≡ scan closed t (Dict.put labels key value)
scan-label key value t labels named =
    ap (λ u. scan start u labels) (render_label-append key value t)
    ∙ scan-name key _ labels named
    ∙ scan-escape_label_value key "" value t labels

-- Every label stored under its key, one after the other.
unfoldable pub put_all : List (String × String) → Dict String String → Dict String String
unfolding Dict.put
put_all [] labels = labels
put_all ((key, value) ∷ more) labels = put_all more (Dict.put labels key value)

scan-join :
    (pairs : List (String × String)) (labels : Dict String String)
    → All (λ pair. is_label_name pair.0 ≡ true) pairs
    → scan start (join "," (map render_label pairs)) labels ≡ ok (put_all pairs labels)
unfolding join scan step finish put_all
scan-join [] labels named = refl
scan-join ((key, value) ∷ []) labels (name, _) =
    ap (λ u. scan start u labels) (sym (append-nil (render_label (key, value))))
    ∙ scan-label key value "" labels name
scan-join ((key, value) ∷ next ∷ more) labels (name, named) =
    let rest = join "," (map render_label (next ∷ more)) in
    scan-label key value ("," ++ rest) labels name
    ∙ ap (λ u. scan closed u (Dict.put labels key value)) (append_eq "," rest)
    ∙ scan-join (next ∷ more) (Dict.put labels key value) named

-- The labels that the gateway writes, whatever their values hold, are read back with the values
-- they had, when their names are names of labels.
pub parse_labels-join :
    (pairs : List (String × String))
    → All (λ pair. is_label_name pair.0 ≡ true) pairs
    → parse_labels (join "," (map render_label pairs)) ≡ ok (put_all pairs Dict.empty)
unfolding parse_labels
parse_labels-join pairs named = scan-join pairs Dict.empty named
