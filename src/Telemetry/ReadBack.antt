-- ===== src/Telemetry/ReadBack.antt =====
-- gateway/telemetry_snapshot.py, `parse_prometheus`, over `format_sample` of gateway/metrics.py: a
-- line that the gateway writes is read back.
use Prim.Native.Char.{Char, code}
use Prim.Native.String.{◌++◌}
use mathlib.Core.Path.{subst}
use secure_gpu_inference_gat.Prelude.{
  ◌≡◌, refl, ap, ◌∙◌, ℕ, String, Bool, true, false, ◌||◌, Option, some, List, [], ◌∷◌, map,
  contains, All, nat_beq, string_eq, ◌==◌, inl, inr, Bool-cases, arith, ok, beq_of_ne, ◌>>=◌,
}
use secure_gpu_inference_gat.Dict
use secure_gpu_inference_gat.Text.{strip, lstrip, rstrip, is_empty, is_space, decimal}
use secure_gpu_inference_gat.Text.Affix.{prepend, append_eq, starts_with, join}
use secure_gpu_inference_gat.Text.Decimal.{all_chars, ascii_digit, IsNumeral, decimal-IsNumeral}
use secure_gpu_inference_gat.Sorting.{sorted, text_le}
use secure_gpu_inference_gat.Sorting.Ranks.{All-sorted}
use secure_gpu_inference_gat.Json.{Float}
use secure_gpu_inference_gat.Floats.{Rounding, of_nat}
use secure_gpu_inference_gat.Metrics.Render.{
  MetricSample, whole, format_sample, format_number, render_label,
}
use secure_gpu_inference_gat.Telemetry.Labels.{is_label_name, put_all, parse_labels-join}
use secure_gpu_inference_gat.Telemetry.Lines.{
  name_start, ink, Match, allowed_metrics, digits, is_value, fraction, parse_number, sample_of,
  read_match, read_line, read_lines, parse_prometheus, name_char,
}
use secure_gpu_inference_gat.Text.Split.{splitlines}
use secure_gpu_inference_gat.Telemetry.Unbroken.{
  calm, is_whole, splitlines-prepend, name_char-calm, digit-calm, calm-line,
}
use secure_gpu_inference_gat.Telemetry.Scraped.{
  is_metric_name, number_char, ink-number_char, blank-name_start, all_chars-weaken, span-all,
  tail_of, block_of, line-tail_of, match_line-tail_of,
}

rstrip-cons :
    (c : Char) (s : String)
    → rstrip s ≡ s
    → is_empty s ≡ false
    → rstrip (String.◌∷◌ c s) ≡ String.◌∷◌ c s
unfolding rstrip
rstrip-cons c s same full = rw (same, full) (ground arith)

rstrip-ink : (v : String) → all_chars ink v ≡ true → rstrip v ≡ v
unfolding rstrip
rstrip-ink String.[] h = refl
rstrip-ink (String.◌∷◌ c s) h =
    let first : is_space (code c) ≡ false = ground arith in
    let later : all_chars ink s ≡ true = ground arith in rw (first, rstrip-ink s later) refl

is_empty-prepend : (s t : String) → is_empty t ≡ false → is_empty (prepend s t) ≡ false
is_empty-prepend String.[] t h = h
is_empty-prepend (String.◌∷◌ c s) t h = refl

rstrip-prepend :
    (s t : String) → rstrip t ≡ t → is_empty t ≡ false → rstrip (prepend s t) ≡ prepend s t
rstrip-prepend String.[] t same full = same
rstrip-prepend (String.◌∷◌ c s) t same full =
    rstrip-cons c (prepend s t) (rstrip-prepend s t same full) (is_empty-prepend s t full)

rstrip-tail_of :
    (labels v : String)
    → all_chars ink v ≡ true
    → is_empty v ≡ false
    → rstrip (tail_of labels v) ≡ tail_of labels v
rstrip-tail_of String.[] v written full = rstrip-prepend " " v (rstrip-ink v written) full
rstrip-tail_of (String.◌∷◌ c l) v written full =
    rstrip-cons "{" _
      (rstrip-prepend (String.◌∷◌ c l) (String.◌∷◌ "}" (String.◌∷◌ " " v))
        (rstrip-prepend "} " v (rstrip-ink v written) full) refl)
      refl

is_empty-tail_of : (labels v : String) → is_empty (tail_of labels v) ≡ false
is_empty-tail_of String.[] v = refl
is_empty-tail_of (String.◌∷◌ c l) v = refl

-- The line of a sample is no blank line and no comment, and has no blank at an end.
line-strip :
    (name labels v : String)
    → is_metric_name name ≡ true
    → all_chars ink v ≡ true
    → is_empty v ≡ false
    → let line : String = prepend name (tail_of labels v) in
      (strip line ≡ line) × ((is_empty line || starts_with line "#") ≡ false)
unfolding strip lstrip starts_with
line-strip String.[] labels v named written full = cc
line-strip (String.◌∷◌ c s) labels v named written full =
    let first : is_space (code c) ≡ false = blank-name_start c (ground arith) in
    (
      rw first (
          rstrip-prepend (String.◌∷◌ c s) (tail_of labels v) (rstrip-tail_of labels v written full)
            (is_empty-tail_of labels v)),
      (let start : name_start c ≡ true = ground arith in ground arith),
    )

allowed_metrics-named :
    (names : List String) (name : String)
    → All (λ n. is_metric_name n ≡ true) names
    → contains names name ≡ true
    → is_metric_name name ≡ true
allowed_metrics-named [] name named here = cc
allowed_metrics-named (n ∷ names) name (first, named) here = elim (Bool-cases (n == name)) [
  | inl same ↦ subst (λ m. is_metric_name m ≡ true) ((string_eq.beq_iff n name).0 same) first
  | inr other ↦ allowed_metrics-named names name named (ground arith)
]

module _ (is_digit : Char → Bool) (to_float : String → Option Float) where
  sample_of-join :
      (found : Match) (pairs : List (String × String)) (x : Float)
      → found.labels ≡ join "," (map render_label pairs)
      → All (λ pair. is_label_name pair.0 ≡ true) pairs
      → parse_number to_float found.value ≡ ok x
      → sample_of is_digit to_float found
        ≡ ok (record { name = found.name; labels = put_all pairs Dict.empty; value = x } ∷ [])
  unfolding sample_of
  sample_of-join found pairs x joined named value =
      rw (joined, parse_labels-join pairs named, value) refl

  read_line-tail_of :
      (line_number : ℕ) (name : String) (pairs : List (String × String)) (v : String) (x : Float)
      → contains allowed_metrics name ≡ true
      → All (λ pair. is_label_name pair.0 ≡ true) pairs
      → all_chars number_char v ≡ true
      → is_empty v ≡ false
      → is_value is_digit v ≡ true
      → parse_number to_float v ≡ ok x
      → read_line is_digit to_float line_number
          (prepend name (tail_of (join "," (map render_label pairs)) v))
        ≡ ok (record { name = name; labels = put_all pairs Dict.empty; value = x } ∷ [])
  unfolding read_line read_match
  read_line-tail_of line_number name pairs v x allowed named number full value reads =
      let labels = join "," (map render_label pairs) in
      let is_name =
        allowed_metrics-named allowed_metrics name (refl, (refl, (refl, (refl, (refl, tt)))))
          allowed in
      let written = all_chars-weaken number_char ink ink-number_char v number in
      let (bare, line) = line-strip name labels v is_name written full in
      rw (bare, line, match_line-tail_of is_digit name labels v is_name number full value, allowed)
        (sample_of-join (record { name = name; labels = labels; value = v }) pairs x refl named
          reads)

number_char-ascii_digit : (c : Char) → ascii_digit c ≡ true → number_char c ≡ true
number_char-ascii_digit c h = ground arith

-- Digits are a value of the pattern, and no infinity.
is_value-digits :
    (is_digit : Char → Bool)
    → ((c : Char) → ascii_digit c ≡ true → is_digit c ≡ true)
    → (v : String) → IsNumeral v
    → is_value is_digit v ≡ true
unfolding is_value fraction
is_value-digits is_digit ascii String.[] (digits, full) = cc
is_value-digits is_digit ascii (String.◌∷◌ c s) (digits, full) =
    let unsigned : (nat_beq (code c) b'-' || nat_beq (code c) b'+') ≡ false = ground arith in
    let all_digits = all_chars-weaken ascii_digit is_digit ascii (String.◌∷◌ c s) digits in
    rw (unsigned, span-all is_digit (String.◌∷◌ c s) all_digits) refl

numeral-other : (v w : String) → IsNumeral v → all_chars ascii_digit w ≡ false → (v == w) ≡ false
numeral-other v w (digits, full) other =
    beq_of_ne v w λ same. cc (digits, other, ap (all_chars ascii_digit) same)

parse_number-digits :
    (to_float : String → Option Float) (v : String) (x : Float)
    → IsNumeral v
    → to_float v ≡ some x
    → parse_number to_float v ≡ ok x
unfolding parse_number
parse_number-digits to_float v x numeral reads =
    rw
      (
        numeral-other v "Inf" numeral refl,
        numeral-other v "+Inf" numeral refl,
        numeral-other v "-Inf" numeral refl,
        reads,
      )
      refl

read_line-format_sample :
    (f : Rounding) (is_digit : Char → Bool) (to_float : String → Option Float)
    (format_bucket format_seconds : ℕ → String) (line_number n : ℕ) (sample : MetricSample)
    → ((c : Char) → ascii_digit c ≡ true → is_digit c ≡ true)
    → to_float (decimal n) ≡ some (of_nat f n)
    → contains allowed_metrics sample.name ≡ true
    → All (λ label. is_label_name label.0 ≡ true) sample.labels
    → sample.value ≡ whole n
    → let pairs : List (String × String) = sorted (λ p q. text_le p.0 q.0) sample.labels in
      read_line is_digit to_float line_number (format_sample format_bucket format_seconds sample)
      ≡ ok (
          record { name = sample.name; labels = put_all pairs Dict.empty; value = of_nat f n } ∷ [])
unfolding format_sample format_number
read_line-format_sample f is_digit to_float format_bucket format_seconds line_number n sample ascii
      reads allowed named counts =
    let le : String × String → String × String → Bool = λ p q. text_le p.0 q.0 in
    let pairs = sorted le sample.labels in
    let numeral = decimal-IsNumeral n in
    let number =
      all_chars-weaken ascii_digit number_char number_char-ascii_digit (decimal n) numeral.0 in
    ap
      (λ value. read_line is_digit to_float line_number (
        sample.name
        ++ block_of (join "," (map render_label pairs))
        ++ " "
        ++ format_number format_bucket format_seconds value))
      counts
    ∙ ap (read_line is_digit to_float line_number)
        (line-tail_of sample.name (join "," (map render_label pairs)) (decimal n))
    ∙ read_line-tail_of is_digit to_float line_number sample.name pairs (decimal n) (of_nat f n)
        allowed (All-sorted (λ label. is_label_name label.0 ≡ true) le sample.labels named) number
        numeral.1 (is_value-digits is_digit ascii (decimal n) numeral)
        (parse_number-digits to_float (decimal n) (of_nat f n) numeral reads)

is_whole-named :
    (labels : List (String × String))
    → All (λ label. is_whole label ≡ true) labels
    → All (λ label. is_label_name label.0 ≡ true) labels
is_whole-named [] unbroken = tt
is_whole-named (label ∷ labels) (first, unbroken) = (ground arith, is_whole-named labels unbroken)

is_metric_name-calm : (name : String) → is_metric_name name ≡ true → all_chars calm name ≡ true
is_metric_name-calm String.[] named = cc
is_metric_name-calm (String.◌∷◌ c s) named =
    let first : calm c ≡ true = name_char-calm c (ground arith) in
    let later : all_chars calm s ≡ true =
      all_chars-weaken name_char calm name_char-calm s (ground arith) in
    ground arith

format_sample-calm :
    (format_bucket format_seconds : ℕ → String) (n : ℕ) (sample : MetricSample)
    → contains allowed_metrics sample.name ≡ true
    → All (λ label. is_whole label ≡ true) sample.labels
    → sample.value ≡ whole n
    → all_chars calm (format_sample format_bucket format_seconds sample) ≡ true
unfolding format_sample format_number
format_sample-calm format_bucket format_seconds n sample allowed unbroken counts =
    let le : String × String → String × String → Bool = λ p q. text_le p.0 q.0 in
    let pairs = sorted le sample.labels in
    let named =
      allowed_metrics-named allowed_metrics sample.name (refl, (refl, (refl, (refl, (refl, tt)))))
        allowed in
    ap
      (λ value. all_chars calm (
        sample.name
        ++ block_of (join "," (map render_label pairs))
        ++ " "
        ++ format_number format_bucket format_seconds value))
      counts
    ∙ calm-line sample.name (decimal n) pairs (is_metric_name-calm sample.name named)
        (All-sorted (λ label. is_whole label ≡ true) le sample.labels unbroken)
        (all_chars-weaken ascii_digit calm digit-calm (decimal n) (decimal-IsNumeral n).0)

-- Where `\d` matches the ten digits of ASCII and `float` reads the numeral of the count as that
-- number: a text that begins with the line that the gateway writes for a counter that is read, whose
-- labels have names that can be read and values in which no line ends for `splitlines`, save at line
-- feeds, which the gateway escapes, is read as the sample with these labels, sorted, and with its
-- count, followed by what the rest of the text gives from line 2 on.
pub parse_prometheus-format_sample :
    (f : Rounding) (is_digit : Char → Bool) (to_float : String → Option Float)
    (format_bucket format_seconds : ℕ → String) (n : ℕ) (sample : MetricSample) (rest : String)
    → ((c : Char) → ascii_digit c ≡ true → is_digit c ≡ true)
    → to_float (decimal n) ≡ some (of_nat f n)
    → contains allowed_metrics sample.name ≡ true
    → All (λ label. is_whole label ≡ true) sample.labels
    → sample.value ≡ whole n
    → let pairs : List (String × String) = sorted (λ p q. text_le p.0 q.0) sample.labels in
      parse_prometheus is_digit to_float
        (format_sample format_bucket format_seconds sample ++ "\n" ++ rest)
      ≡ (read_lines is_digit to_float 2 (splitlines rest) >>= λ more. ok (
          record { name = sample.name; labels = put_all pairs Dict.empty; value = of_nat f n }
          ∷ more))
unfolding parse_prometheus read_lines
parse_prometheus-format_sample f is_digit to_float format_bucket format_seconds n sample rest ascii
      reads allowed unbroken counts =
    let line = format_sample format_bucket format_seconds sample in
    let lines : splitlines (line ++ "\n" ++ rest) ≡ line ∷ splitlines rest =
      ap splitlines (append_eq line ("\n" ++ rest) ∙ ap (prepend line) (append_eq "\n" rest))
      ∙ splitlines-prepend line rest
          (format_sample-calm format_bucket format_seconds n sample allowed unbroken counts) in
    ap (read_lines is_digit to_float 1) lines
    ∙ rw
        (read_line-format_sample f is_digit to_float format_bucket format_seconds 1 n sample ascii
          reads allowed (is_whole-named sample.labels unbroken) counts)
        refl
