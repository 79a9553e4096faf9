-- ===== src/Sorting.antt =====
-- Python's `sorted`, and the orders of texts.
pub mod Ranks
use Prim.Native.Nat.{Ordering}
use Prim.Native.String.{compare}
use secure_gpu_inference_gat.Prelude.{
  ℕ, zero, suc, Option, none, some, String, Bool, true, false, List, [], ◌∷◌, ◌==◌, string_eq,
  if◌then◌else◌,
}

-- `a <= b` of two texts, by code points.
abbrev pub text_le : String → String → Bool
text_le a b = elim (compare a b) [ Ordering.gt ↦ false | _ ↦ true ]

-- The order of two pairs of texts.
abbrev pub labels_le : String × String → String × String → Bool
labels_le (a, b) (c, d) = if a == c then text_le b d else text_le a c

module _ {A : Type 0} where
  unfoldable pub place : (A → A → Bool) → A → List A → List A
  place le a [] = a ∷ []
  place le a (b ∷ bs) = let rest = place le a bs in if le a b then a ∷ b ∷ bs else b ∷ rest

  -- `sorted(items)`, which keeps the order of equals.
  unfoldable pub sorted : (A → A → Bool) → List A → List A
  unfolding place
  sorted le [] = []
  sorted le (a ∷ as_) = place le a (sorted le as_)

-- `items[n]`, unless it is out of range.
abbrev pub get_elem? : {A : Type 0} → List A → ℕ → Option A
get_elem? [] n = none
get_elem? (a ∷ as_) zero = some a
get_elem? (a ∷ as_) (suc n) = get_elem? as_ n
