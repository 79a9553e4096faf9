-- ===== src/Deployment/Greatest.antt =====
-- gateway/deployment_readiness.py: the greatest of the scheduled utilizations.
use secure_gpu_inference_gat.Prelude.{◌≡◌, refl, true, List, [], ◌∷◌, All, Bool-cases, inl, inr}
use secure_gpu_inference_gat.Json.{Float}
use secure_gpu_inference_gat.Floats.{Rounding, le, lt, greater, zero_float}
use secure_gpu_inference_gat.Floats.Order.{IsNumber, greater-le_iff, greater-IsNumber}
use secure_gpu_inference_gat.Deployment.{max_from, max_of}

max_from-le :
    (m : Float) (xs : List Float) (c : Float)
    → IsNumber m
    → All IsNumber xs
    → le (max_from m xs) c ≡ true
    → (le m c ≡ true) × All (λ x. le x c ≡ true) xs
unfolding max_from
max_from-le m [] c number all bound = (bound, tt)
max_from-le m (x ∷ xs) c number (first, all) bound =
    let (most, later) =
      max_from-le (greater m x) xs c (greater-IsNumber m x number first) all bound in
    let (before, here) = (greater-le_iff m x c number first).0 most in (before, (here, later))

pub max_of-le :
    (xs : List Float) (c : Float)
    → All IsNumber xs
    → le (max_of xs) c ≡ true
    → All (λ x. le x c ≡ true) xs
unfolding max_of
max_of-le [] c all bound = tt
max_of-le (x ∷ xs) c (first, all) bound = max_from-le x xs c first all bound

max_from-IsNumber :
    (m : Float) (xs : List Float) → IsNumber m → All IsNumber xs → IsNumber (max_from m xs)
unfolding max_from
max_from-IsNumber m [] number all = number
max_from-IsNumber m (x ∷ xs) number (first, all) =
    max_from-IsNumber (greater m x) xs (greater-IsNumber m x number first) all

pub max_of-IsNumber : (xs : List Float) → All IsNumber xs → IsNumber (max_of xs)
unfolding max_of le
max_of-IsNumber [] all = refl
max_of-IsNumber (x ∷ xs) (first, all) = max_from-IsNumber x xs first all

module _ (f : Rounding) where
  -- A float that rounding to six decimals leaves alone.
  abbrev pub IsRounded : Float → Type 0
  IsRounded x = f.round x 6 ≡ x

  pub greater-IsRounded : (a b : Float) → IsRounded a → IsRounded b → IsRounded (greater a b)
  unfolding greater
  greater-IsRounded a b h k = elim (Bool-cases (lt a b)) [
    | inl less ↦ rw less k
    | inr other ↦ rw other h
  ]

  max_from-IsRounded :
      (m : Float) (xs : List Float) → IsRounded m → All IsRounded xs → IsRounded (max_from m xs)
  unfolding max_from
  max_from-IsRounded m [] h all = h
  max_from-IsRounded m (x ∷ xs) h (first, all) =
      max_from-IsRounded (greater m x) xs (greater-IsRounded m x h first) all

  pub max_of-IsRounded :
      (xs : List Float) → IsRounded zero_float → All IsRounded xs → IsRounded (max_of xs)
  unfolding max_of
  max_of-IsRounded [] zero_rounded all = zero_rounded
  max_of-IsRounded (x ∷ xs) zero_rounded (first, all) = max_from-IsRounded x xs first all
