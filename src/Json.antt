-- ===== src/Json.antt =====
-- The values that `json.loads` gives. A float is a whole number of ticks, of which `ticks` make
-- one, or one of the three special values; their sums are exact here.
use secure_gpu_inference_gat.Text.{is_empty}
use secure_gpu_inference_gat.Prelude.{
  String, Bool, true, false, not, nat_beq, Option, none, some, ◌==◌, string_eq, List, [], ◌∷◌,
  if◌then◌else◌,
}
use secure_gpu_inference_gat.Errors.{Exception}
use secure_gpu_inference_gat.Prelude.Int.{pos, ℤ, ◌+ℤ◌, ◌-ℤ◌, ltb_ℤ}

pub data Float : Type 0 where
  finite : ℤ → Float
  nan infinity minus_infinity : Float

-- Sums and differences with a finite number.
abbrev pub add : Float → ℤ → Float
add (finite a) b = finite (a +ℤ b)
add nan b = nan
add infinity b = infinity
add minus_infinity b = minus_infinity

abbrev pub sub : Float → ℤ → Float
sub (finite a) b = finite (a -ℤ b)
sub nan b = nan
sub infinity b = infinity
sub minus_infinity b = minus_infinity

-- `a < b` and `a > b` for a finite b: every order with a nan is false.
abbrev pub is_below : Float → ℤ → Bool
is_below (finite a) b = ltb_ℤ a b
is_below nan b = false
is_below infinity b = false
is_below minus_infinity b = true

abbrev pub is_above : Float → ℤ → Bool
is_above (finite a) b = ltb_ℤ b a
is_above nan b = false
is_above infinity b = true
is_above minus_infinity b = false

mutual
  pub data Json : Type 0 where
    null : Json
    bool : Bool → Json
    int : ℤ → Json
    float : Float → Json
    str : String → Json
    arr : Items → Json
    obj : Fields → Json

  pub data Items : Type 0 where
    nil : Items
    cons : Json → Items → Items

  pub data Fields : Type 0 where
    end : Fields
    field : String → Json → Fields → Fields

-- `claims.get(key)`
unfoldable pub get : Fields → String → Option Json
get end key = none
get (field k v fs) key = if k == key then some v else get fs key

abbrev pub items : Items → List Json
items nil = []
items (cons j js) = j ∷ items js

abbrev pub to_items : List Json → Items
to_items [] = nil
to_items (j ∷ js) = cons j (to_items js)

-- `d.items()`
abbrev pub entries : Fields → List (String × Json)
entries end = []
entries (field k v fs) = (k, v) ∷ entries fs

abbrev pub to_fields : List (String × Json) → Fields
to_fields [] = end
to_fields ((k, v) ∷ es) = field k v (to_fields es)

-- A JSON object, and one with a single field.
abbrev pub object : List (String × Json) → Json
object es = obj (to_fields es)

-- `bool(value)`
unfoldable pub is_true : Json → Bool
is_true null = false
is_true (bool b) = b
is_true (int (pos n)) = not (nat_beq n 0)
is_true (float (finite (pos n))) = not (nat_beq n 0)
is_true (str s) = not (is_empty s)
is_true (arr nil) = false
is_true (obj end) = false
is_true _ = true

-- How `json.loads` ends: with a value, with an exception that is caught, or with another one.
pub data Loaded : Type 0 where
  value : Json → Loaded
  invalid : Loaded
  broke_off : Exception → Loaded
