-- ===== src/Metrics/Escape.antt =====
-- The escaping of label values in gateway/metrics.py, and a reader of it.
use Prim.Native.Char.{Char, code}
use text.Mathlib.TextEquality.{Char-path}
use secure_gpu_inference_gat.Prelude.{
  String, ◌≡◌, refl, sym, ap, ◌∙◌, inl, inr, Bool, true, false, Bool-cases, nat_beq, nat_beq_iff,
  if◌then◌else◌,
}
use secure_gpu_inference_gat.Text.Case.{chr}
use secure_gpu_inference_gat.Text.Affix.{prepend}
use secure_gpu_inference_gat.Metrics.Render.{replace_with, escape_label_value}

-- The reading of an escaped text; the flag says whether a backslash stands before it.
unfoldable unescape : Bool → String → String
unescape after String.[] = ""
unescape true (String.◌∷◌ c s) =
    String.◌∷◌ (if nat_beq (code c) b'n' then chr 10 else c) (unescape false s)
unescape false (String.◌∷◌ c s) = elim (nat_beq (code c) b'\\') [
  | true ↦ unescape true s
  | false ↦ String.◌∷◌ c (unescape false s)
]

cons_path :
    (d c : Char) {t s : String}
    → nat_beq (code c) (code d) ≡ true
    → t ≡ s
    → String.◌∷◌ d t ≡ String.◌∷◌ c s
cons_path d c h e = rw (Char-path d c (sym ((nat_beq_iff (code c) (code d)).0 h)), e) refl

pub escape-cons :
    (c : Char) (s : String)
    → escape_label_value (String.◌∷◌ c s) ≡ (
        if nat_beq (code c) b'\\'
        then prepend "\\\\" (escape_label_value s)
        else if nat_beq (code c) 10
        then prepend "\\n" (escape_label_value s)
        else if nat_beq (code c) b'"'
        then prepend "\\\"" (escape_label_value s)
        else String.◌∷◌ c (escape_label_value s))
unfolding escape_label_value replace_with
escape-cons c s = elim (Bool-cases (nat_beq (code c) b'\\')) [
  | inl back ↦ rw back refl
  | inr other ↦ elim (Bool-cases (nat_beq (code c) 10)) [
    | inl line ↦ rw (other, line) refl
    | inr ink ↦ elim (Bool-cases (nat_beq (code c) b'"')) [
      | inl quote ↦ rw (other, ink, quote) refl
      | inr plain ↦ rw (other, ink, plain) refl
    ]
  ]
]

-- Whatever a label value holds, its escaped text is read back as the value.
unescape-escape_label_value : (s : String) → unescape false (escape_label_value s) ≡ s
unfolding unescape escape_label_value replace_with chr
unescape-escape_label_value String.[] = refl
unescape-escape_label_value (String.◌∷◌ c s) =
    let later = unescape-escape_label_value s in
    ap (unescape false) (escape-cons c s) ∙ elim (Bool-cases (nat_beq (code c) b'\\')) [
      | inl back ↦ rw (back, unescape) (cons_path _ c back later)
      | inr other ↦ elim (Bool-cases (nat_beq (code c) 10)) [
        | inl line ↦ rw (other, line, unescape) (cons_path _ c line later)
        | inr ink ↦ elim (Bool-cases (nat_beq (code c) b'"')) [
          | inl quote ↦ rw (other, ink, quote, unescape) (cons_path _ c quote later)
          | inr plain ↦ rw (other, ink, plain, other, unescape) (ap (λ t. String.◌∷◌ c t) later)
        ]
      ]
    ]
