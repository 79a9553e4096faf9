-- ===== src/Floats.antt =====
-- Python's floats where a report computes with them: the order of the numbers of `Json.Float`, and
-- the operations that round, as a record of parameters. Every order with a nan is false.
pub mod Order
use secure_gpu_inference_gat.Prelude.{
  ℕ, ◌*◌, ◌%◌, ◌/◌, Bool, true, false, ◌&&◌, nat_beq, if◌then◌else◌, Result, ok, err,
}
use secure_gpu_inference_gat.Prelude.Int.{pos, ltb_ℤ, leb_ℤ}
use secure_gpu_inference_gat.Errors.{Exception, value_error, zero_division_error}
use secure_gpu_inference_gat.Json.{Float, finite, infinity, minus_infinity}

-- `a <= b`
unfoldable pub le : Float → Float → Bool
le (finite a) (finite b) = leb_ℤ a b
le minus_infinity minus_infinity = true
le minus_infinity (finite b) = true
le minus_infinity infinity = true
le (finite a) infinity = true
le infinity infinity = true
le _ _ = false

-- `a < b`
unfoldable pub lt : Float → Float → Bool
lt (finite a) (finite b) = ltb_ℤ a b
lt minus_infinity (finite b) = true
lt minus_infinity infinity = true
lt (finite a) infinity = true
lt _ _ = false

abbrev pub is_infinite : Float → Bool
is_infinite infinity = true
is_infinite minus_infinity = true
is_infinite _ = false

-- `max(a, b)`, which is `a` unless `b` is greater.
unfoldable pub greater : Float → Float → Float
unfolding lt
greater a b = if lt a b then b else a

abbrev pub zero_float : Float
zero_float = finite (pos 0)

-- `not x`
abbrev pub is_zero : Float → Bool
is_zero (finite (pos n)) = nat_beq n 0
is_zero _ = false

-- `a == b`
abbrev pub equal : Float → Float → Bool
equal a b = le a b && le b a

-- The operations whose results are rounded: the product, the difference, the quotient by a number
-- that is not zero, and `round(x, digits)`. A one is `ticks` ticks.
pub record Rounding : Type 0 where
  pub ticks : ℕ
  pub times : Float → Float → Float
  pub minus : Float → Float → Float
  pub over : Float → Float → Float
  pub round : Float → ℕ → Float

module _ (f : Rounding) where
  abbrev pub of_nat : ℕ → Float
  of_nat n = finite (pos (n * f.ticks))

  -- `a / b`
  unfoldable pub divide : Float → Float → Result Exception Float
  divide a b = if is_zero b then err zero_division_error else ok (f.over a b)

  -- The whole number that a float is, if it is one and not negative.
  unfoldable pub as_int : Float → Result Exception ℕ
  as_int (finite (pos n)) =
      if nat_beq (n % f.ticks) 0
      then ok (n / f.ticks)
      else err (value_error "counter values must be non-negative integers")
  as_int _ = err (value_error "counter values must be non-negative integers")
