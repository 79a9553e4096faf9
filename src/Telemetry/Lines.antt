-- ===== src/Telemetry/Lines.antt =====
-- gateway/telemetry_snapshot.py, `parse_prometheus`: the samples of a metrics text. The pattern of
-- a line is read by hand: a blank, a digit or a brace can stand at one place of it only, except
-- that the labels take the last closing brace behind which the rest still fits. What `\d` matches
-- and what `float` reads are parameters.
use Prim.Native.Char.{Char, code}
use Prim.Native.String.{◌++◌}
use secure_gpu_inference_gat.Prelude.{
  ℕ, suc, String, Bool, true, not, ◌&&◌, ◌||◌, Option, none, some, List, [], ◌∷◌, ◌++◌ as append,
  contains, leb, nat_beq, ◌==◌, string_eq, Result, ok, err, ◌>>=◌, if◌then◌else◌,
}
use secure_gpu_inference_gat.Errors.{Exception, value_error}
use secure_gpu_inference_gat.Text.{strip, is_empty, is_space, decimal}
use secure_gpu_inference_gat.Text.Affix.{starts_with}
use secure_gpu_inference_gat.Text.Split.{splitlines}
use secure_gpu_inference_gat.Dict.{Dict}
use secure_gpu_inference_gat.Json.{Float, infinity, minus_infinity}
use secure_gpu_inference_gat.Telemetry.{parse_labels}

-- The longest front part whose characters pass the test, and the rest.
unfoldable pub span : (Char → Bool) → String → String × String
span p String.[] = ("", "")
span p (String.◌∷◌ c s) =
    let (front, rest) = span p s in if p c then (String.◌∷◌ c front, rest) else ("", String.◌∷◌ c s)

abbrev is_letter : ℕ → Bool
is_letter n = (leb b'a' n && leb n b'z') || (leb b'A' n && leb n b'Z')

abbrev pub name_start : Char → Bool
name_start c = is_letter (code c) || nat_beq (code c) b'_' || nat_beq (code c) b':'

abbrev pub name_char : Char → Bool
name_char c = name_start c || (leb b'0' (code c) && leb (code c) b'9')

abbrev pub blank : Char → Bool
blank c = is_space (code c)

abbrev pub ink : Char → Bool
ink c = not (is_space (code c))

-- `[-+]?`
abbrev drop_sign : String → String
drop_sign String.[] = ""
drop_sign (String.◌∷◌ c s) =
    if nat_beq (code c) b'-' || nat_beq (code c) b'+' then s else String.◌∷◌ c s

-- A line of the pattern, by its groups.
pub record Match : Type 0 where
  pub name : String
  pub labels : String
  pub value : String

pub record Sample : Type 0 where
  pub name : String
  pub labels : Dict String String
  pub value : Float

abbrev pub allowed_metrics : List String
allowed_metrics =
    "security_gateway_requests_total" ∷ "security_gateway_input_tokens_total"
    ∷ "security_gateway_inference_latency_seconds_bucket"
    ∷ "security_gateway_inference_latency_seconds_count"
    ∷ "security_gateway_inference_latency_seconds_sum" ∷ []

module _ (to_float : String → Option Float) where
  abbrev or_value_error : Option Float → Result Exception Float
  or_value_error none = err (value_error "could not convert string to float")
  or_value_error (some number) = ok number

  unfoldable pub parse_number : String → Result Exception Float
  parse_number value =
      if value == "Inf" || value == "+Inf"
      then ok infinity
      else if value == "-Inf"
      then ok minus_infinity
      else or_value_error (to_float value)

abbrev pub within : Char → Option (String × String) → Option (String × String)
within c none = none
within c (some (labels, value)) = some (String.◌∷◌ c labels, value)

abbrev pub at_brace : Option String → Option (String × String)
at_brace none = none
at_brace (some value) = some ("", value)

abbrev pub or_else : Option (String × String) → Option (String × String) → Option (String × String)
or_else none shorter = shorter
or_else (some longer) shorter = some longer

abbrev pub with_labels : String → Option (String × String) → Option Match
with_labels name none = none
with_labels name (some (labels, value)) =
    some (record { name = name; labels = labels; value = value })

abbrev pub without_labels : Option String → Option (String × String)
without_labels none = none
without_labels (some value) = some ("", value)

module _ (is_digit : Char → Bool) where
  -- `\d+` up to the end
  unfoldable pub digits : String → Bool
  unfolding span
  digits s = let (front, rest) = span is_digit s in not (is_empty front) && is_empty rest

  -- `(?:[eE][-+]?\d+)?` up to the end
  unfoldable pub exponent : String → Bool
  unfolding digits
  exponent String.[] = true
  exponent (String.◌∷◌ c s) =
      (nat_beq (code c) b'e' || nat_beq (code c) b'E') && digits (drop_sign s)

  -- What stands behind the digits before a point, of which there are some or none.
  unfoldable pub fraction : Bool → String → Bool
  unfolding span exponent
  fraction some_digits String.[] = some_digits
  fraction some_digits (String.◌∷◌ c s) =
      let (front, rest) = span is_digit s in
      if nat_beq (code c) b'.'
      then (some_digits || not (is_empty front)) && exponent rest
      else some_digits && exponent (String.◌∷◌ c s)

  unfoldable pub is_value : String → Bool
  unfolding span fraction
  is_value s =
      let (front, rest) = span is_digit (drop_sign s) in
      fraction (not (is_empty front)) rest || s == "NaN" || drop_sign s == "Inf"

  -- `(?:\s+\d+)?$`
  unfoldable pub stamp : String → Bool
  unfolding span digits
  stamp s =
      let (blanks, rest) = span blank s in is_empty s || (not (is_empty blanks) && digits rest)

  -- A value, if it is one, there is a blank before it, and what is behind it fits.
  unfoldable pub checked_value : Bool → String × String → Option String
  unfolding is_value stamp
  checked_value some_blank (value, behind) =
      if some_blank && is_value value && stamp behind then some value else none

  abbrev pub behind_blanks : String × String → Option String
  behind_blanks (blanks, rest) = checked_value (not (is_empty blanks)) (span ink rest)

  -- What stands behind the name and the labels, with its value.
  unfoldable pub match_value : String → Option String
  unfolding span checked_value
  match_value s = behind_blanks (span blank s)

  -- `(.*)\}` and what stands behind it; the longest labels come first.
  unfoldable pub match_labels : String → Option (String × String)
  unfolding match_value
  match_labels String.[] = none
  match_labels (String.◌∷◌ c s) =
      or_else (within c (match_labels s))
        (if nat_beq (code c) b'}' then at_brace (match_value s) else none)

  unfoldable pub behind_name : String → String → Option Match
  unfolding match_labels match_value
  behind_name name String.[] = none
  behind_name name (String.◌∷◌ c s) =
      if nat_beq (code c) b'{'
      then with_labels name (match_labels s)
      else with_labels name (without_labels (match_value (String.◌∷◌ c s)))

  abbrev pub behind_front : Char → String × String → Option Match
  behind_front c (front, rest) = behind_name (String.◌∷◌ c front) rest

  -- `METRIC_LINE.match`
  unfoldable pub match_line : String → Option Match
  unfolding span behind_name
  match_line String.[] = none
  match_line (String.◌∷◌ c s) = if name_start c then behind_front c (span name_char s) else none

  module _ (to_float : String → Option Float) where
    unfoldable pub sample_of : Match → Result Exception (List Sample)
    unfolding parse_number
    sample_of found = do
      labels ← parse_labels found.labels
      value ← parse_number to_float found.value
      ok (record { name = found.name; labels = labels; value = value } ∷ [])

    -- The sample of a match, if its metric is one of those that are read.
    unfoldable pub read_match : ℕ → Option Match → Result Exception (List Sample)
    unfolding sample_of
    read_match line_number none =
        err (value_error ("invalid Prometheus sample on line " ++ decimal line_number))
    read_match line_number (some found) =
        if contains allowed_metrics found.name then sample_of found else ok []

    unfoldable pub read_line : ℕ → String → Result Exception (List Sample)
    unfolding read_match match_line strip
    read_line line_number raw_line =
        let line = strip raw_line in
        if is_empty line || starts_with line "#"
        then ok []
        else read_match line_number (match_line line)

    unfoldable pub read_lines : ℕ → List String → Result Exception (List Sample)
    unfolding read_line
    read_lines line_number [] = ok []
    read_lines line_number (line ∷ lines) = do
      samples ← read_line line_number line
      more ← read_lines (suc line_number) lines
      ok (append samples more)

    unfoldable pub parse_prometheus : String → Result Exception (List Sample)
    unfolding read_lines splitlines
    parse_prometheus text = read_lines 1 (splitlines text)
