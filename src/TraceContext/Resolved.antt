-- ===== src/TraceContext/Resolved.antt =====
-- The identifiers of a trace that is resolved (gateway/trace_context.py).
use Prim.Native.Char.{Char, code}
use mathlib.Core.Path.{subst}
use secure_gpu_inference_gat.Prelude.{
  ℕ, zero, suc, String, ◌≡◌, refl, true, not, ◌&&◌, ◌||◌, Option, none, some, nat_beq, nat_eq,
  string_eq, Option-cases, Bool-cases, inl, inr, ok, raise_if-eq-ok, >>=-eq-ok, arith,
  if◌then◌else◌,
}
use secure_gpu_inference_gat.Errors.{value_error}
use secure_gpu_inference_gat.Text.{len, is_empty, strip}
use secure_gpu_inference_gat.Text.Case.{lower, lower_char, lower_code, is_cased, chr}
use secure_gpu_inference_gat.TraceContext.{
  RequestTrace, Parts, is_lower_hex, is_hex, hex_group, dash, and_then, match_traceparent,
  is_all_zero, accept_parts, parse_traceparent, format_traceparent, all_lower_hex, nonzero_hex,
  resolve_trace_context,
}
use secure_gpu_inference_gat.TraceContext.RoundTrip.{IsHex, IsId, parse-format}

pub all_lower_hex-IsHex : (s : String) → all_lower_hex s ≡ true → IsHex s
unfolding all_lower_hex
all_lower_hex-IsHex String.[] h = tt
all_lower_hex-IsHex (String.◌∷◌ c s) h = (ground arith, all_lower_hex-IsHex s (ground arith))

nonzero_hex-IsId : (made : String) (n : ℕ) (v : String) → nonzero_hex made n ≡ ok v → IsId n v
unfolding nonzero_hex
nonzero_hex-IsId made n v h =
    let value = lower made in
    let (is_hex, k) =
      raise_if-eq-ok
        (not (nat_beq (len value) n) || not (not (is_empty value) && all_lower_hex value))
        (value_error "trace id factory returned invalid hex") _ h in
    let (is_nonzero, k) =
      raise_if-eq-ok (is_all_zero value) (value_error "trace id factory returned zero value") _ k in
    let e : value ≡ v = cc k in
    record {
      digits = all_lower_hex-IsHex v (ground arith);
      size = ground arith;
      nonzero = ground arith;
    }

lower_char-hex : (c : Char) → is_hex (code c) ≡ true → is_lower_hex (code (lower_char c)) ≡ true
unfolding is_hex is_lower_hex lower_char is_cased lower_code chr
lower_char-hex c h = ground arith

hex_group-IsHex :
    (n : ℕ) (s group rest : String)
    → hex_group n s ≡ some (group, rest)
    → IsHex group × (len group ≡ n)
unfolding hex_group
hex_group-IsHex zero s group rest h =
    let e : "" ≡ group = ground (arith, h) in subst (λ g. IsHex g × (len g ≡ 0)) e (tt, refl)
hex_group-IsHex (suc n) String.[] group rest h = cc
hex_group-IsHex (suc n) (String.◌∷◌ c s) group rest h = elim (Option-cases (hex_group n s)) [
  | inl e ↦ cc (rw (e, hex_group) at h)
  | inr ((tail, left), e) ↦
      let k = rw (e, hex_group) at h in
      let later = hex_group-IsHex n s tail left e in
      elim (Bool-cases (is_hex (code c))) [
        | inl hex ↦
            let same : String.◌∷◌ (lower_char c) tail ≡ group = ground (arith, hex, k) in
            subst (λ g. IsHex g × (len g ≡ suc n)) same
              ((lower_char-hex c hex, later.0), ground (arith, later.1))
        | inr other ↦ ground (arith, other, k)
      ]
]

and_then-eq-some :
    {A B : Type 0} (o : Option A) (f : A → Option B) {b : B}
    → and_then o f ≡ some b
    → (a : A) × (o ≡ some a) × (f a ≡ some b)
and_then-eq-some none f h = cc
and_then-eq-some (some a) f h = (a, refl, h)

-- The two identifiers of a context that is matched.
match-IsHex :
    (s : String) (parts : Parts)
    → match_traceparent s ≡ some parts
    → (IsHex parts.trace_id × (len parts.trace_id ≡ 32))
      × (IsHex parts.parent_id × (len parts.parent_id ≡ 16))
unfolding match_traceparent
match-IsHex s parts h =
    let ((version, s), e, h) = and_then-eq-some (hex_group 2 s) _ h in
    let (s, e, h) = and_then-eq-some (dash s) _ h in
    let ((trace_id, s'), is_trace, h) = and_then-eq-some (hex_group 32 s) _ h in
    let (s'', e, h) = and_then-eq-some (dash s') _ h in
    let ((parent_id, s'''), is_parent, h) = and_then-eq-some (hex_group 16 s'') _ h in
    let (s4, e, h) = and_then-eq-some (dash s''') _ h in
    let ((trace_flags, s5), e, h) = and_then-eq-some (hex_group 2 s4) _ h in
    let same : (trace_id ≡ parts.trace_id) × (parent_id ≡ parts.parent_id) = ground (arith, h) in
    (
      subst (λ t. IsHex t × (len t ≡ 32)) same.0 (hex_group-IsHex 32 s trace_id s' is_trace),
      subst (λ p. IsHex p × (len p ≡ 16)) same.1 (hex_group-IsHex 16 s'' parent_id s''' is_parent),
    )

-- A context that is accepted.
parse-IsId :
    (traceparent : Option String) (parts : Parts)
    → parse_traceparent traceparent ≡ some parts
    → IsId 32 parts.trace_id × IsId 16 parts.parent_id
unfolding parse_traceparent accept_parts
parse-IsId none parts h = cc
parse-IsId (some traceparent) parts h =
    let (matched, is_match, k) =
      and_then-eq-some (match_traceparent (strip traceparent)) accept_parts {b = parts}
        (ground arith) in
    let same : matched ≡ parts = ground (arith, k) in
    let (trace_hex, parent_hex) = match-IsHex (strip traceparent) parts (rw same at is_match) in
    (
      record { digits = trace_hex.0; size = trace_hex.1; nonzero = ground (arith, k, same) },
      record { digits = parent_hex.0; size = parent_hex.1; nonzero = ground (arith, k, same) },
    )

resolved-IsId :
    (traceparent : Option String) (parsed : Option Parts) (new_trace_id new_span_id : String)
    (t : RequestTrace)
    → parse_traceparent traceparent ≡ parsed
    → resolve_trace_context traceparent new_trace_id new_span_id ≡ ok t
    → IsId 32 t.trace_id × IsId 16 t.span_id
unfolding resolve_trace_context
resolved-IsId traceparent none new_trace_id new_span_id t e h =
    let (span_id, is_span, k) =
      >>=-eq-ok (nonzero_hex new_span_id 16) _ (rw (e, resolve_trace_context) at h) in
    let (trace_id, is_trace, k) = >>=-eq-ok (nonzero_hex new_trace_id 32) _ k in
    let same : (trace_id ≡ t.trace_id) × (span_id ≡ t.span_id) = ground (arith, k) in
    (
      subst (IsId 32) same.0 (nonzero_hex-IsId new_trace_id 32 trace_id is_trace),
      subst (IsId 16) same.1 (nonzero_hex-IsId new_span_id 16 span_id is_span),
    )
resolved-IsId traceparent (some parts) new_trace_id new_span_id t e h =
    let (span_id, is_span, k) =
      >>=-eq-ok (nonzero_hex new_span_id 16) _ (rw (e, resolve_trace_context) at h) in
    let same : (parts.trace_id ≡ t.trace_id) × (span_id ≡ t.span_id) = ground (arith, k) in
    (
      subst (IsId 32) same.0 (parse-IsId traceparent parts e).0,
      subst (IsId 16) same.1 (nonzero_hex-IsId new_span_id 16 span_id is_span),
    )

-- Whatever header a request has, the context that the gateway resolves and sends on is read by the
-- next service with the same trace, with the gateway's span as the parent, and with its flag.
pub resolve-forwarded :
    (traceparent : Option String) (new_trace_id new_span_id : String) (t : RequestTrace)
    → resolve_trace_context traceparent new_trace_id new_span_id ≡ ok t
    → parse_traceparent (some (format_traceparent t))
      ≡ some (record {
        version = "00";
        trace_id = t.trace_id;
        parent_id = t.span_id;
        trace_flags = (if t.sampled then "01" else "00");
      })
resolve-forwarded traceparent new_trace_id new_span_id t h =
    let ids =
      resolved-IsId traceparent (parse_traceparent traceparent) new_trace_id new_span_id t refl h in
    parse-format t ids.0 ids.1
