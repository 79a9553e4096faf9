-- ===== src/TraceContext/RoundTrip.antt =====
-- Writing a trace context and reading it back (gateway/trace_context.py).
use Prim.Native.Char.{Char, code}
use Prim.Native.String.{◌++◌}
use text.Mathlib.TextLemmas.{nil-append, cons-append, append_assoc, append-nil}
use secure_gpu_inference_gat.Prelude.{
  ℕ, String, ◌≡◌, refl, ap, sym, ◌∙◌, Bool, true, false, some, string_eq, arith, if◌then◌else◌,
}
use secure_gpu_inference_gat.Text.{len, is_empty, is_space}
use secure_gpu_inference_gat.Text.Case.{lower_char, is_cased, lower_char-eq}
use secure_gpu_inference_gat.Text.Strip.{HasNoBlank, HasNoBlank-append, strip_of_HasNoBlank}
use secure_gpu_inference_gat.TraceContext.{
  RequestTrace, is_lower_hex, is_hex, hex_group, dash, match_traceparent, is_all_zero, accept_parts,
  parse_traceparent, format_traceparent,
}

-- Lower-case hexadecimal digits.
abbrev pub IsHex : String → Type 0
IsHex String.[] = Unit
IsHex (String.◌∷◌ c s) = (is_lower_hex (code c) ≡ true) × IsHex s

-- An identifier of n digits, not all of them zero.
pub record IsId (n : ℕ) (s : String) : Type 0 where
  pub digits : IsHex s
  pub size : len s ≡ n
  pub nonzero : is_all_zero s ≡ false

hex_digit :
    (c : Char)
    → is_lower_hex (code c) ≡ true
    → (is_hex (code c) ≡ true) × (lower_char c ≡ c) × (is_space (code c) ≡ false)
unfolding is_lower_hex is_hex is_cased is_space
hex_digit c h = (ground arith, lower_char-eq c (ground arith), ground arith)

IsHex-HasNoBlank : (s : String) → IsHex s → HasNoBlank s
IsHex-HasNoBlank String.[] h = tt
IsHex-HasNoBlank (String.◌∷◌ c s) h = ((hex_digit c h.0).2, IsHex-HasNoBlank s h.1)

-- A group reads its digits and leaves the rest.
hex_group-append : (s rest : String) → IsHex s → hex_group (len s) (s ++ rest) ≡ some (s, rest)
unfolding hex_group
hex_group-append String.[] rest h = rw nil-append
hex_group-append (String.◌∷◌ c s) rest h =
    let (hex, same, ink) = hex_digit c h.0 in
    rw (cons-append, hex_group-append s rest h.1, hex, same)

group_of_len :
    (n : ℕ) (s rest : String) → IsHex s → len s ≡ n → hex_group n (s ++ rest) ≡ some (s, rest)
group_of_len n s rest h e = rw (← e) (hex_group-append s rest h)

dash-append : (s : String) → dash ("-" ++ s) ≡ some s
unfolding dash
dash-append s = rw (cons-append, nil-append)

abbrev flags_of : Bool → String
flags_of sampled = if sampled then "01" else "00"

flags-IsHex : (sampled : Bool) → IsHex (flags_of sampled) × (len (flags_of sampled) ≡ 2)
unfolding is_lower_hex
flags-IsHex true = ((refl, (refl, tt)), refl)
flags-IsHex false = ((refl, (refl, tt)), refl)

format-HasNoBlank :
    (t : RequestTrace) → IsHex t.trace_id → IsHex t.span_id → HasNoBlank (format_traceparent t)
unfolding format_traceparent is_space
format-HasNoBlank t ht hs =
    HasNoBlank-append "00-" _ (refl, (refl, (refl, tt)))
      (HasNoBlank-append t.trace_id _ (IsHex-HasNoBlank t.trace_id ht) (
        HasNoBlank-append "-" _ (refl, tt)
          (HasNoBlank-append t.span_id _ (IsHex-HasNoBlank t.span_id hs) (
            HasNoBlank-append "-" _ (refl, tt)
              (IsHex-HasNoBlank (flags_of t.sampled) (flags-IsHex t.sampled).0)))))

group_00 : (after : String) → hex_group 2 ("00-" ++ after) ≡ some ("00", "-" ++ after)
unfolding is_lower_hex
group_00 after =
    ap (hex_group 2) (append_assoc "00" "-" after)
    ∙ group_of_len 2 "00" ("-" ++ after) (refl, (refl, tt)) refl

group_at_end : (n : ℕ) (s : String) → IsHex s → len s ≡ n → hex_group n s ≡ some (s, "")
group_at_end n s h e = sym (ap (hex_group n) (append-nil s)) ∙ group_of_len n s "" h e

format-ne-nil : (t : RequestTrace) → is_empty (format_traceparent t) ≡ false
unfolding format_traceparent
format-ne-nil t = rw cons-append

match-format :
    (t : RequestTrace)
    → IsId 32 t.trace_id
    → IsId 16 t.span_id
    → match_traceparent (format_traceparent t)
      ≡ some (record {
        version = "00";
        trace_id = t.trace_id;
        parent_id = t.span_id;
        trace_flags = flags_of t.sampled;
      })
unfolding match_traceparent format_traceparent
match-format t ht hs =
    let flags = flags_of t.sampled in
    let after = t.trace_id ++ "-" ++ t.span_id ++ "-" ++ flags in
    rw (
      group_00 after,
      dash-append after,
      group_of_len 32 t.trace_id ("-" ++ t.span_id ++ "-" ++ flags) ht.digits ht.size,
      dash-append (t.span_id ++ "-" ++ flags),
      group_of_len 16 t.span_id ("-" ++ flags) hs.digits hs.size,
      dash-append flags,
      group_at_end 2 flags (flags-IsHex t.sampled).0 (flags-IsHex t.sampled).1,
    )

-- A context with identifiers that are hexadecimal and not zero, as the gateway sends it on, is
-- read with the same trace, with the gateway's span as the parent, and with its sampling flag.
pub parse-format :
    (t : RequestTrace)
    → IsId 32 t.trace_id
    → IsId 16 t.span_id
    → parse_traceparent (some (format_traceparent t))
      ≡ some (record {
        version = "00";
        trace_id = t.trace_id;
        parent_id = t.span_id;
        trace_flags = (if t.sampled then "01" else "00");
      })
unfolding parse_traceparent accept_parts
parse-format t ht hs = rw (
  format-ne-nil t,
  strip_of_HasNoBlank (format_traceparent t) (format-HasNoBlank t ht.digits hs.digits),
  match-format t ht hs,
  ht.nonzero,
  hs.nonzero,
)
