-- ===== src/Replay/Rank.antt =====
-- gateway/workload_replay.py, `percentile`: the value at the nearest rank.
use native.Mathlib.Nat.{mul-le-mul_right}
use secure_gpu_inference_gat.Prelude.{
  ◌≡◌, ap, ℕ, suc, ◌+◌, ◌*◌, ◌/◌, ◌-◌, ◌≤◌, ◌<◌, true, ◌&&◌, ltb, leb, some, List, [], ◌∷◌, length,
  arith, ok,
}
use secure_gpu_inference_gat.Sorting.Ranks.{at_most, below, get_elem?-sorted}
use secure_gpu_inference_gat.Replay.{Percent, fiftieth, ninety_fifth, percent, percentile, rank}

ceil_bounds :
    (m n : ℕ)
    → 1 ≤ m
    → m ≤ 100 * n
    → ((m + 99) / 100 - 1 < n)
      × (m ≤ 100 * suc ((m + 99) / 100 - 1))
      × (100 * ((m + 99) / 100 - 1) < m)
ceil_bounds m n some_m fits = (omega arith, omega arith, omega arith)

percent-bounds : (p : Percent) → (1 ≤ percent p) × (percent p ≤ 100)
percent-bounds fiftieth = (omega arith, omega arith)
percent-bounds ninety_fifth = (omega arith, omega arith)

rank-bounds :
    (p : Percent) (n : ℕ)
    → 1 ≤ n
    → (rank p n < n) × (percent p * n ≤ 100 * suc (rank p n)) × (100 * rank p n < percent p * n)
rank-bounds p n some_n =
    let (positive, small) = percent-bounds p in
    ceil_bounds (percent p * n) n (omega (arith, mul-le-mul_right n positive))
      (omega (arith, mul-le-mul_right n small))

-- Of a list that is not empty, the fiftieth and the ninety-fifth percentile, p in a hundred, is a
-- value that at least p in a hundred of the samples do not exceed, and that fewer than p in a hundred
-- are below.
pub percentile-rank :
    (samples : List ℕ) (p : Percent)
    → 1 ≤ length samples
    → (v : ℕ) × (percentile samples p ≡ ok (some v))
      × (percent p * length samples ≤ 100 * at_most v samples)
      × (100 * below v samples < percent p * length samples)
unfolding percentile
percentile-rank [] p full = absurd (omega (arith, full))
percentile-rank (s ∷ samples) p full =
    let n = length (s ∷ samples) in
    let (inside, enough, few) = rank-bounds p n full in
    let (v, found, up_to, before) = get_elem?-sorted (s ∷ samples) (rank p n) inside in
    let (positive, small) = percent-bounds p in
    let fits : (ltb 0 (percent p) && leb (percent p) 100) ≡ true = ground arith in
    (v, rw fits (ap (λ o. ok o) found), omega arith, omega arith)
