-- ===== src/Telemetry/Scraped.antt =====
-- gateway/telemetry_snapshot.py, `METRIC_LINE`: what it matches in a line that gateway/metrics.py
-- writes.
use Prim.Native.Char.{Char, code}
use Prim.Native.String.{◌++◌}
use text.Mathlib.TextLemmas.{append_assoc}
use secure_gpu_inference_gat.Prelude.{
  ◌≡◌, refl, ap, ◌∙◌, String, Bool, true, false, not, ◌&&◌, ◌||◌, Option, none, some, leb, nat_beq,
  string_eq, arith, if◌then◌else◌,
}
use secure_gpu_inference_gat.Text.{is_empty, is_space}
use secure_gpu_inference_gat.Text.Affix.{prepend, append_eq}
use secure_gpu_inference_gat.Text.Decimal.{all_chars}
use secure_gpu_inference_gat.Telemetry.Lines.{
  span, name_start, name_char, blank, ink, is_value, stamp, checked_value, match_value, within,
  or_else, at_brace, behind_blanks, match_labels, with_labels, without_labels, behind_front,
  behind_name, match_line,
}

abbrev pub is_metric_name : String → Bool
is_metric_name String.[] = false
is_metric_name (String.◌∷◌ c s) = name_start c && all_chars name_char s

-- A digit or a point.
abbrev pub number_char : Char → Bool
number_char c = (leb b'0' (code c) && leb (code c) b'9') || nat_beq (code c) b'.'

pub ink-number_char : (c : Char) → number_char c ≡ true → ink c ≡ true
unfolding is_space
ink-number_char c h = ground arith

brace-number_char : (c : Char) → number_char c ≡ true → nat_beq (code c) b'}' ≡ false
brace-number_char c h = ground arith

pub blank-name_start : (c : Char) → name_start c ≡ true → is_space (code c) ≡ false
unfolding is_space
blank-name_start c h = ground arith

-- A front part that passes is taken up to a character that does not.
span-prepend :
    (p : Char → Bool) (s : String) (c : Char) (t : String)
    → all_chars p s ≡ true
    → p c ≡ false
    → span p (prepend s (String.◌∷◌ c t)) ≡ (s, String.◌∷◌ c t)
unfolding span
span-prepend p String.[] c t passes stops = rw stops refl
span-prepend p (String.◌∷◌ d s) c t passes stops =
    let first : p d ≡ true = ground arith in
    let later : all_chars p s ≡ true = ground arith in
    rw (first, span-prepend p s c t later stops) refl

pub span-all : (p : Char → Bool) (s : String) → all_chars p s ≡ true → span p s ≡ (s, "")
unfolding span
span-all p String.[] passes = refl
span-all p (String.◌∷◌ d s) passes =
    let first : p d ≡ true = ground arith in
    let later : all_chars p s ≡ true = ground arith in rw (first, span-all p s later) refl

pub all_chars-weaken :
    (p q : Char → Bool)
    → ((c : Char) → p c ≡ true → q c ≡ true)
    → (s : String) → all_chars p s ≡ true
    → all_chars q s ≡ true
all_chars-weaken p q weaken String.[] passes = refl
all_chars-weaken p q weaken (String.◌∷◌ c s) passes =
    let first : q c ≡ true = weaken c (ground arith) in
    let later : all_chars q s ≡ true = all_chars-weaken p q weaken s (ground arith) in ground arith

span-blank :
    (v : String)
    → all_chars number_char v ≡ true
    → is_empty v ≡ false
    → span blank (String.◌∷◌ " " v) ≡ (" ", v)
unfolding span is_space
span-blank String.[] number full = cc
span-blank (String.◌∷◌ c s) number full =
    let first : ink c ≡ true = ink-number_char c (ground arith) in
    span-prepend blank " " c s refl (ground arith)

-- The labels of a line in their braces; a line without labels has no braces.
abbrev pub block_of : String → String
block_of labels = if is_empty labels then "" else "{" ++ labels ++ "}"

-- What stands behind the name.
abbrev pub tail_of : String → String → String
tail_of String.[] v = String.◌∷◌ " " v
tail_of (String.◌∷◌ c l) v =
    String.◌∷◌ "{" (prepend (String.◌∷◌ c l) (String.◌∷◌ "}" (String.◌∷◌ " " v)))

pub line-tail_of :
    (name labels v : String) → name ++ block_of labels ++ " " ++ v ≡ prepend name (tail_of labels v)
line-tail_of name String.[] v =
    append_eq name ("" ++ " " ++ v) ∙ ap (prepend name) (append_eq "" (" " ++ v) ∙ append_eq " " v)
line-tail_of name (String.◌∷◌ c l) v =
    let labels = String.◌∷◌ c l in
    append_eq name (("{" ++ labels ++ "}") ++ " " ++ v)
    ∙ ap (prepend name) (
        append_assoc "{" (labels ++ "}") (" " ++ v)
        ∙ append_eq "{" ((labels ++ "}") ++ " " ++ v)
        ∙ ap (String.◌∷◌ "{") (
            append_assoc labels "}" (" " ++ v)
            ∙ append_eq labels ("}" ++ " " ++ v)
            ∙ ap (prepend labels)
                (append_eq "}" (" " ++ v) ∙ ap (String.◌∷◌ "}") (append_eq " " v))))

module _ (is_digit : Char → Bool) where
  abbrev no_brace : Char → Bool
  no_brace c = not (nat_beq (code c) b'}')

  match_labels-cons :
      (c : Char) (s : String) {found : Option (String × String)}
      → match_labels is_digit s ≡ found
      → match_labels is_digit (String.◌∷◌ c s)
        ≡ or_else
            (within c found)
            (if nat_beq (code c) b'}' then at_brace (match_value is_digit s) else none)
  unfolding match_labels
  match_labels-cons c s same =
      ap
        (λ o.
          or_else (within c o)
            (if nat_beq (code c) b'}' then at_brace (match_value is_digit s) else none))
        same

  match_labels-no_brace :
      (s : String) → all_chars no_brace s ≡ true → match_labels is_digit s ≡ none
  unfolding match_labels
  match_labels-no_brace String.[] free = refl
  match_labels-no_brace (String.◌∷◌ c s) free =
      let other : nat_beq (code c) b'}' ≡ false = ground arith in
      match_labels-cons c s (match_labels-no_brace s (ground arith)) ∙ rw other refl

  checked : (v : String) → is_value is_digit v ≡ true → checked_value is_digit true (v, "") ≡ some v
  unfolding checked_value stamp
  checked v value = rw value refl

  match_value-number :
      (v : String)
      → all_chars number_char v ≡ true
      → is_empty v ≡ false
      → is_value is_digit v ≡ true
      → match_value is_digit (String.◌∷◌ " " v) ≡ some v
  unfolding match_value
  match_value-number v number full value =
      ap (behind_blanks is_digit) (span-blank v number full)
      ∙ ap (checked_value is_digit true)
          (span-all ink v (all_chars-weaken number_char ink ink-number_char v number))
      ∙ checked v value

  match_labels-brace :
      (l v : String)
      → all_chars number_char v ≡ true
      → match_value is_digit (String.◌∷◌ " " v) ≡ some v
      → match_labels is_digit (prepend l (String.◌∷◌ "}" (String.◌∷◌ " " v))) ≡ some (l, v)
  match_labels-brace String.[] v number found =
      let free : all_chars no_brace v ≡ true =
        all_chars-weaken number_char no_brace (λ c h. rw (brace-number_char c h) refl) v number in
      match_labels-cons "}" (String.◌∷◌ " " v) (match_labels-no_brace (String.◌∷◌ " " v) free)
      ∙ ap at_brace found
  match_labels-brace (String.◌∷◌ c l) v number found =
      match_labels-cons c (prepend l (String.◌∷◌ "}" (String.◌∷◌ " " v)))
        (match_labels-brace l v number found)

  behind_name-tail_of :
      (name labels v : String)
      → all_chars number_char v ≡ true
      → match_value is_digit (String.◌∷◌ " " v) ≡ some v
      → behind_name is_digit name (tail_of labels v)
        ≡ some (record { name = name; labels = labels; value = v })
  unfolding behind_name
  behind_name-tail_of name String.[] v number found =
      ap (λ o. with_labels name (without_labels o)) found
  behind_name-tail_of name (String.◌∷◌ c l) v number found =
      ap (with_labels name) (match_labels-brace (String.◌∷◌ c l) v number found)

  span-tail_of :
      (s labels v : String)
      → all_chars name_char s ≡ true
      → span name_char (prepend s (tail_of labels v)) ≡ (s, tail_of labels v)
  span-tail_of s String.[] v named = span-prepend name_char s " " v named refl
  span-tail_of s (String.◌∷◌ c l) v named = span-prepend name_char s "{" _ named refl

  pub match_line-tail_of :
      (name labels v : String)
      → is_metric_name name ≡ true
      → all_chars number_char v ≡ true
      → is_empty v ≡ false
      → is_value is_digit v ≡ true
      → match_line is_digit (prepend name (tail_of labels v))
        ≡ some (record { name = name; labels = labels; value = v })
  unfolding match_line
  match_line-tail_of String.[] labels v named number full value = cc
  match_line-tail_of (String.◌∷◌ c s) labels v named number full value =
      let first : name_start c ≡ true = ground arith in
      rw first (
        ap (behind_front is_digit c) (span-tail_of s labels v (ground arith))
        ∙ behind_name-tail_of (String.◌∷◌ c s) labels v number
            (match_value-number v number full value))
