-- ===== src/Telemetry.antt =====
-- gateway/telemetry_snapshot.py: the reader of the labels of a Prometheus sample, and what of a
-- snapshot may be published. The loops over the characters of a label are the modes of one reader.
pub mod Labels
pub mod Lines
pub mod Snapshot
pub mod Probe
pub mod Build
pub mod Bound
pub mod Scraped
pub mod Unbroken
pub mod ReadBack
pub mod Public
pub mod Verdict
use Prim.Native.Char.{Char, code}
use Prim.Native.String
use Prim.Native.String.{◌++◌}
use secure_gpu_inference_gat.Prelude.{
  ℕ, String, Bool, true, false, ◌&&◌, ◌||◌, Option, none, some, List, [], ◌∷◌, any, nat_beq, ◌==◌,
  string_eq, Result, ok, err, ◌>>=◌, ◌>>◌, raise_if, if◌then◌else◌,
}
use secure_gpu_inference_gat.Prelude.Int.{ℤ, pos}
use secure_gpu_inference_gat.Errors.{Exception, value_error}
use secure_gpu_inference_gat.Text.{strip, is_empty}
use secure_gpu_inference_gat.Text.Affix.{starts_with, prepend}
use secure_gpu_inference_gat.Text.Case.{chr, lower}
use secure_gpu_inference_gat.Dict
use secure_gpu_inference_gat.Dict.{Dict}
use secure_gpu_inference_gat.Json.{
  Float, finite, Json, null, bool, int, float, str, arr, obj, Items, nil, cons, Fields, end, field,
  get, entries, object, to_items,
}

-- Where `parse_labels` stands: at the head of its loop, past a blank, in a key, behind the equals
-- sign of a key, in a value, behind a backslash in it, or behind a value.
pub data Mode : Type 0 where
  start skipping closed : Mode
  in_key opening : String → Mode
  in_value escaping : String → String → Mode

abbrev pub grow : String → Char → String
grow s c = prepend s (String.◌∷◌ c String.[])

-- The character that a backslash stands before.
unfoldable pub escaped : Char → Char
unfolding chr
escaped c =
    if nat_beq (code c) b'n'
    then chr 10
    else if nat_beq (code c) b'r'
    then chr 13
    else if nat_beq (code c) b't'
    then chr 9
    else c

abbrev pub Reading : Type 0
Reading = Result Exception (Mode × Dict String String)

-- A character of a key, or the equals sign behind it.
unfoldable pub key_step : String → Char → Dict String String → Reading
unfolding strip
key_step key c labels =
    if nat_beq (code c) b'='
    then if is_empty (strip key)
      then err (value_error "invalid Prometheus label")
      else ok (opening (strip key), labels)
    else if nat_beq (code c) b','
    then err (value_error "invalid Prometheus label")
    else ok (in_key (grow key c), labels)

abbrev skip_step : Char → Dict String String → Reading
skip_step c labels =
    if nat_beq (code c) b' ' || nat_beq (code c) b','
    then ok (skipping, labels)
    else key_step "" c labels

-- One character.
unfoldable pub step : Mode → Char → Dict String String → Reading
unfolding key_step escaped Dict.put
step start c labels = skip_step c labels
step skipping c labels = skip_step c labels
step (in_key key) c labels = key_step key c labels
step (opening key) c labels =
    if nat_beq (code c) b'"'
    then ok (in_value key "", labels)
    else err (value_error "Prometheus labels must be quoted")
step (in_value key value) c labels =
    if nat_beq (code c) b'"'
    then ok (closed, Dict.put labels key value)
    else if nat_beq (code c) b'\\'
    then ok (escaping key value, labels)
    else ok (in_value key (grow value c), labels)
step (escaping key value) c labels = ok (in_value key (grow value (escaped c)), labels)
step closed c labels =
    if nat_beq (code c) b','
    then ok (start, labels)
    else err (value_error "invalid Prometheus label separator")

-- The end of the text.
unfoldable pub finish : Mode → Dict String String → Result Exception (Dict String String)
finish start labels = ok labels
finish closed labels = ok labels
finish skipping labels = err (value_error "invalid Prometheus label")
finish (in_key key) labels = err (value_error "invalid Prometheus label")
finish (opening key) labels = err (value_error "Prometheus labels must be quoted")
finish (in_value key value) labels = err (value_error "unterminated Prometheus label")
finish (escaping key value) labels = err (value_error "unterminated Prometheus label escape")

unfoldable pub scan : Mode → String → Dict String String → Result Exception (Dict String String)
unfolding step finish
scan mode String.[] labels = finish mode labels
scan mode (String.◌∷◌ c s) labels = do (mode, labels) ← step mode c labels; scan mode s labels

-- `parse_labels`
unfoldable pub parse_labels : String → Result Exception (Dict String String)
unfolding scan
parse_labels text = scan start text Dict.empty

-- `part in text`
unfoldable pub has_part : String → String → Bool
unfolding starts_with
has_part String.[] part = is_empty part
has_part (String.◌∷◌ c s) part =
    let rest = has_part s part in starts_with (String.◌∷◌ c s) part || rest

abbrev pub forbidden_terms : List String
forbidden_terms =
    "authorization" ∷ "api_key" ∷ "endpoint" ∷ "prompt" ∷ "principal" ∷ "request_body"
    ∷ "decoded_output" ∷ []

-- The first of the terms that a text has, in whatever case.
unfoldable pub forbidden_in : String → List String → Option String
unfolding has_part lower
forbidden_in text [] = none
forbidden_in text (term ∷ terms) =
    let rest = forbidden_in text terms in if has_part (lower text) term then some term else rest

abbrev pub refuse_field : String → Option String → Result Exception Unit
refuse_field key none = ok tt
refuse_field key (some term) =
    err (value_error ("public snapshot contains forbidden field: " ++ key))

abbrev pub refuse_value : Option String → Result Exception Unit
refuse_value none = ok tt
refuse_value (some term) = err (value_error ("public snapshot contains forbidden value: " ++ term))

-- `assert_no_sensitive_data`: the flag says that `exclusions` is on the path.
unfoldable mutual
  unfolding forbidden_in lower

  pub walk : Bool → Json → Result Exception Unit
  walk excluded (obj fields) = walk_fields excluded fields
  walk excluded (arr items) = walk_items excluded items
  walk true (str text) = ok tt
  walk false (str text) = refuse_value (forbidden_in text forbidden_terms)
  walk excluded _ = ok tt

  pub walk_items : Bool → Items → Result Exception Unit
  walk_items excluded nil = ok tt
  walk_items excluded (cons child more) = do walk excluded child; walk_items excluded more

  pub walk_fields : Bool → Fields → Result Exception Unit
  walk_fields excluded end = ok tt
  walk_fields excluded (field key child more) = do
    refuse_field key (forbidden_in key forbidden_terms)
    walk (excluded || lower key == "exclusions") child
    walk_fields excluded more
