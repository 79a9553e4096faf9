-- ===== src/Floats/Order.antt =====
-- The order of the floats that are numbers.
use secure_gpu_inference_gat.Prelude.{◌≡◌, ◌↔◌, true, false, inl, inr, Bool-cases, arith}
use secure_gpu_inference_gat.Json.{Float}
use secure_gpu_inference_gat.Floats.{le, lt, greater}

-- A nan is the one float that is not equal to itself.
abbrev pub IsNumber : Float → Type 0
IsNumber x = le x x ≡ true

pub le_trans : (a b c : Float) → le a b ≡ true → le b c ≡ true → le a c ≡ true
unfolding le
le_trans a b c h k = ground arith

le-lt : (a b : Float) → lt a b ≡ true → le a b ≡ true
unfolding le lt
le-lt a b h = ground arith

le-not-lt : (a b : Float) → IsNumber a → IsNumber b → lt a b ≡ false → le b a ≡ true
unfolding le lt
le-not-lt a b h k l = ground arith

-- The greater of two numbers is bounded as both are.
pub greater-le_iff :
    (a b c : Float)
    → IsNumber a
    → IsNumber b
    → (le (greater a b) c ≡ true) ↔ ((le a c ≡ true) × (le b c ≡ true))
unfolding greater
greater-le_iff a b c h k = elim (Bool-cases (lt a b)) [
  | inl less ↦ rw less ((λ m. (le_trans a b c (le-lt a b less) m, m)), λ m. m.1)
  | inr other ↦ rw other ((λ m. (m, le_trans b a c (le-not-lt a b h k other) m)), λ m. m.0)
]

pub greater-IsNumber : (a b : Float) → IsNumber a → IsNumber b → IsNumber (greater a b)
unfolding greater
greater-IsNumber a b h k = elim (Bool-cases (lt a b)) [
  | inl less ↦ rw less k
  | inr other ↦ rw other h
]
