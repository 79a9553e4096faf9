-- ===== src/TraceContext.antt =====
-- gateway/trace_context.py: the W3C trace context of a request.
pub mod RoundTrip
pub mod Resolved
use Prim.Native.Char.{Char, code}
use Prim.Native.String
use Prim.Native.String.{◌++◌}
use secure_gpu_inference_gat.Prelude.{
  ℕ, zero, suc, ◌+◌, ◌-◌, ◌*◌, ◌%◌, String, Bool, true, false, not, ◌&&◌, ◌||◌, Option, none, some,
  leb, nat_beq, ◌==◌, string_eq, Result, ok, err, ◌>>=◌, ◌>>◌, raise_if, if◌then◌else◌,
}
use mathlib.Core.Option
use secure_gpu_inference_gat.Errors.{Exception, value_error}
use secure_gpu_inference_gat.Text.{len, is_empty, strip}
use secure_gpu_inference_gat.Text.Case.{lower, lower_char}

pub record RequestTrace : Type 0 where
  pub trace_id : String
  pub span_id : String
  pub parent_span_id : Option String
  pub sampled : Bool
  pub source : String

-- The groups of `_TRACEPARENT_PATTERN`, in lower case.
pub record Parts : Type 0 where
  pub version : String
  pub trace_id : String
  pub parent_id : String
  pub trace_flags : String

-- `[0-9a-f]`
unfoldable pub is_lower_hex : ℕ → Bool
is_lower_hex n = (leb b'0' n && leb n b'9') || (leb b'a' n && leb n b'f')

-- `[0-9a-fA-F]`
unfoldable pub is_hex : ℕ → Bool
is_hex n = is_lower_hex n || (leb b'A' n && leb n b'F')

-- `(?P<name>[0-9a-fA-F]{n})`: n digits, in lower case, and what follows them.
unfoldable pub hex_group : ℕ → String → Option (String × String)
hex_group zero s = some ("", s)
hex_group (suc n) String.[] = none
hex_group (suc n) (String.◌∷◌ c s) = elim (hex_group n s) [
  | none ↦ none
  | some (group, rest) ↦
      if is_hex (code c) then some (String.◌∷◌ (lower_char c) group, rest) else none
]

-- `-`
unfoldable pub dash : String → Option String
dash String.[] = none
dash (String.◌∷◌ c s) = if nat_beq (code c) b'-' then some s else none

abbrev and_then : {A B : Type 0} → Option A → (A → Option B) → Option B
and_then none f = none
and_then (some a) f = f a

-- `_TRACEPARENT_PATTERN.match`
unfoldable pub match_traceparent : String → Option Parts
match_traceparent s = and_then (hex_group 2 s) λ (version, s). and_then (dash s) λ s.
    and_then (hex_group 32 s) λ (trace_id, s). and_then (dash s) λ s.
      and_then (hex_group 16 s) λ (parent_id, s). and_then (dash s) λ s.
        and_then (hex_group 2 s) λ (trace_flags, s).
          if is_empty s
          then some (record {
            version = version;
            trace_id = trace_id;
            parent_id = parent_id;
            trace_flags = trace_flags;
          })
          else none

all_zero : String → Bool
all_zero String.[] = true
all_zero (String.◌∷◌ c s) = nat_beq (code c) b'0' && all_zero s

-- `set(value) == {"0"}`
unfoldable pub is_all_zero : String → Bool
unfolding all_zero
is_all_zero value = not (is_empty value) && all_zero value

-- The matched parts, unless the version or an identifier is forbidden.
unfoldable pub accept_parts : Parts → Option Parts
accept_parts parts =
    if parts.version == "ff"
    then none
    else if is_all_zero parts.trace_id || is_all_zero parts.parent_id
    then none
    else some parts

unfoldable pub parse_traceparent : Option String → Option Parts
parse_traceparent none = none
parse_traceparent (some traceparent) =
    if is_empty traceparent
    then none
    else and_then (match_traceparent (strip traceparent)) accept_parts

unfoldable pub format_traceparent : RequestTrace → String
format_traceparent trace =
    "00-" ++ trace.trace_id ++ "-" ++ trace.span_id ++ "-" ++ (if trace.sampled then "01" else "00")

unfoldable pub all_lower_hex : String → Bool
all_lower_hex String.[] = true
all_lower_hex (String.◌∷◌ c s) = is_lower_hex (code c) && all_lower_hex s

-- `_nonzero_hex`, with what the factory returned.
unfoldable pub nonzero_hex : String → ℕ → Result Exception String
unfolding all_lower_hex
nonzero_hex made expected_length = do
  let value = lower made
  raise_if
      (not (nat_beq (len value) expected_length)
        || not (not (is_empty value) && all_lower_hex value))
      (value_error "trace id factory returned invalid hex")
  raise_if (is_all_zero value) (value_error "trace id factory returned zero value")
  ok value

digit_value : ℕ → ℕ
digit_value n = if leb n b'9' then n - b'0' else n - 87

-- `int(flags, 16)` of lower-case digits
hex_value : ℕ → String → ℕ
unfolding digit_value
hex_value acc String.[] = acc
hex_value acc (String.◌∷◌ c s) = hex_value (acc * 16 + digit_value (code c)) s

-- `resolve_trace_context`, with what the two factories return.
unfoldable pub resolve_trace_context :
    Option String → String → String → Result Exception RequestTrace
unfolding hex_value
resolve_trace_context traceparent new_trace_id new_span_id = do
  span_id ← nonzero_hex new_span_id 16
  elim (parse_traceparent traceparent) [
    | none ↦ do
      trace_id ← nonzero_hex new_trace_id 32
      ok (record {
        trace_id = trace_id;
        span_id = span_id;
        parent_span_id = none;
        sampled = false;
        source = "generated";
      })
    | some parsed ↦ ok (record {
      trace_id = parsed.trace_id;
      span_id = span_id;
      parent_span_id = some parsed.parent_id;
      sampled = nat_beq (hex_value 0 parsed.trace_flags % 2) 1;
      source = "remote";
    })
  ]
