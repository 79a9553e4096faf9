-- ===== src/Telemetry/Unbroken.antt =====
-- gateway/metrics.py, `format_sample`, under `splitlines` of gateway/telemetry_snapshot.py: which
-- lines stay whole.
use Prim.Native.Char.{Char, code}
use Prim.Native.String.{◌++◌}
use secure_gpu_inference_gat.Prelude.{
  ◌≡◌, refl, ap, ◌∙◌, String, Bool, true, false, not, ◌&&◌, ◌||◌, List, [], ◌∷◌, map, All, nat_beq,
  string_eq, inl, inr, Bool-cases, arith,
}
use secure_gpu_inference_gat.Text.{is_space}
use secure_gpu_inference_gat.Text.Affix.{prepend, append_eq, join}
use secure_gpu_inference_gat.Text.Split.{ends_line, splitlines}
use secure_gpu_inference_gat.Text.Decimal.{all_chars, ascii_digit}
use secure_gpu_inference_gat.Metrics.Escape.{escape-cons}
use secure_gpu_inference_gat.Metrics.Render.{escape_label_value, render_label}
use secure_gpu_inference_gat.Telemetry.Labels.{is_plain, all_plain, is_label_name}
use secure_gpu_inference_gat.Telemetry.Lines.{name_char}
use secure_gpu_inference_gat.Telemetry.Scraped.{block_of}

-- No line ends at the character.
abbrev pub calm : Char → Bool
calm c = not (ends_line (code c))

-- A line feed, which the writer escapes, or a character at which no line ends.
abbrev pub is_kept : Char → Bool
is_kept c = nat_beq (code c) 10 || calm c

pub splitlines-prepend :
    (s rest : String)
    → all_chars calm s ≡ true
    → splitlines (prepend s (String.◌∷◌ "\n" rest)) ≡ s ∷ splitlines rest
unfolding splitlines ends_line
splitlines-prepend String.[] rest whole = refl
splitlines-prepend (String.◌∷◌ c s) rest whole =
    let first : ends_line (code c) ≡ false = ground arith in
    let no_return : nat_beq (code c) 13 ≡ false = ground arith in
    rw (no_return, splitlines-prepend s rest (ground arith)) (rw first refl)

all_chars-prepend :
    (p : Char → Bool) (s t : String)
    → all_chars p s ≡ true
    → all_chars p t ≡ true
    → all_chars p (prepend s t) ≡ true
all_chars-prepend p String.[] t hs ht = ht
all_chars-prepend p (String.◌∷◌ c s) t hs ht =
    let later : all_chars p (prepend s t) ≡ true = all_chars-prepend p s t (ground arith) ht in
    ground arith

all_chars-append :
    (p : Char → Bool) (s t : String)
    → all_chars p s ≡ true
    → all_chars p t ≡ true
    → all_chars p (s ++ t) ≡ true
all_chars-append p s t hs ht = ap (all_chars p) (append_eq s t) ∙ all_chars-prepend p s t hs ht

calm-escape :
    (s : String) → all_chars is_kept s ≡ true → all_chars calm (escape_label_value s) ≡ true
unfolding escape_label_value ends_line
calm-escape String.[] kept = refl
calm-escape (String.◌∷◌ c s) kept =
    let later : all_chars calm (escape_label_value s) ≡ true = calm-escape s (ground arith) in
    ap (all_chars calm) (escape-cons c s) ∙ elim (Bool-cases (nat_beq (code c) b'\\')) [
      | inl back ↦ rw back (all_chars-prepend calm "\\\\" (escape_label_value s) refl later)
      | inr other ↦ elim (Bool-cases (nat_beq (code c) 10)) [
        | inl line ↦
            rw (other, line) (all_chars-prepend calm "\\n" (escape_label_value s) refl later)
        | inr ink ↦ elim (Bool-cases (nat_beq (code c) b'"')) [
          | inl quote ↦
              rw (other, ink, quote)
                (all_chars-prepend calm "\\\"" (escape_label_value s) refl later)
          | inr plain ↦
              let first : calm c ≡ true = ground arith in rw (other, ink, plain) (ground arith)
        ]
      ]
    ]

calm-is_plain : (c : Char) → is_plain c ≡ true → calm c ≡ true
unfolding is_space ends_line
calm-is_plain c h = ground arith

calm-all_plain : (s : String) → all_plain s ≡ true → all_chars calm s ≡ true
calm-all_plain String.[] h = refl
calm-all_plain (String.◌∷◌ c s) h =
    let first : calm c ≡ true = calm-is_plain c (ground arith) in
    let later : all_chars calm s ≡ true = calm-all_plain s (ground arith) in ground arith

-- The name of a label can be read, and no line ends within its value where it is written.
abbrev pub is_whole : String × String → Bool
is_whole label = is_label_name label.0 && all_chars is_kept label.1

calm-render_label :
    (label : String × String) → is_whole label ≡ true → all_chars calm (render_label label) ≡ true
unfolding ends_line
calm-render_label (key, value) whole =
    let named : all_plain key ≡ true = ground arith in
    all_chars-append calm key ("=\"" ++ escape_label_value value ++ "\"") (calm-all_plain key named)
      (all_chars-append calm "=\"" (escape_label_value value ++ "\"") refl (
        all_chars-append calm (escape_label_value value) "\"" (calm-escape value (ground arith))
          refl))

calm-join :
    (labels : List (String × String))
    → All (λ label. is_whole label ≡ true) labels
    → all_chars calm (join "," (map render_label labels)) ≡ true
unfolding join ends_line
calm-join [] whole = refl
calm-join (label ∷ []) (first, whole) = calm-render_label label first
calm-join (label ∷ next ∷ labels) (first, whole) =
    let others = join "," (map render_label (next ∷ labels)) in
    all_chars-append calm (render_label label) ("," ++ others) (calm-render_label label first)
      (all_chars-append calm "," others refl (calm-join (next ∷ labels) whole))

pub name_char-calm : (c : Char) → name_char c ≡ true → calm c ≡ true
unfolding ends_line
name_char-calm c h = ground arith

pub digit-calm : (c : Char) → ascii_digit c ≡ true → calm c ≡ true
unfolding ends_line
digit-calm c h = ground arith

calm-block_of :
    (labels : String) → all_chars calm labels ≡ true → all_chars calm (block_of labels) ≡ true
unfolding ends_line
calm-block_of String.[] h = refl
calm-block_of (String.◌∷◌ c l) h =
    all_chars-append calm "{" (String.◌∷◌ c l ++ "}") refl
      (all_chars-append calm (String.◌∷◌ c l) "}" h refl)

-- The line of a sample, with its name, its labels and its value.
pub calm-line :
    (name v : String) (labels : List (String × String))
    → all_chars calm name ≡ true
    → All (λ label. is_whole label ≡ true) labels
    → all_chars calm v ≡ true
    → all_chars calm (name ++ block_of (join "," (map render_label labels)) ++ " " ++ v) ≡ true
unfolding ends_line
calm-line name v labels named whole number =
    let block = block_of (join "," (map render_label labels)) in
    all_chars-append calm name (block ++ " " ++ v) named (
      all_chars-append calm block (" " ++ v)
        (calm-block_of (join "," (map render_label labels)) (calm-join labels whole))
        (all_chars-append calm " " v refl number))
