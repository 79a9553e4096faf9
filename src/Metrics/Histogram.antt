-- ===== src/Metrics/Histogram.antt =====
-- gateway/metrics.py, `observe_latency`: what the histogram of a model counts.
use secure_gpu_inference_gat.Prelude.{
  ◌≡◌, refl, ℕ, ◌+◌, String, Bool, inl, inr, Bool-cases, Option, none, some, true, false, ap, ◌∙◌,
  List, [], ◌∷◌, length, Eq, string_eq, nat_eq, ◌==◌, ◌&&◌, leb, arith, if◌then◌else◌,
}
use secure_gpu_inference_gat.Dict
use secure_gpu_inference_gat.Dict.{Dict, get-put}
use secure_gpu_inference_gat.Sorting.Ranks.{count_if, at_most}
use secure_gpu_inference_gat.Metrics.{
  GatewayMetrics, bucket_eq, count, bump, fill_buckets, observe_latency,
}

abbrev number : Option ℕ → ℕ
number o = elim o [ none ↦ 0 | some n ↦ n ]

number-if :
    (b : Bool) (n : ℕ) (o : Option ℕ)
    → number (if b then some n else o) ≡ (if b then n else number o)
number-if true n o = refl
number-if false n o = refl

module _ {K : Type 0} ⦃e : Eq K⦄ where
  -- What a counter reads after another, or itself, has grown.
  pub count-bump :
      (d : Dict K ℕ) (k j : K) (n : ℕ)
      → count (bump d k n) j ≡ (if k == j then count d k + n else count d j)
  unfolding bump count
  count-bump d k j n =
      ap number (get-put d k j (count d k + n)) ∙ number-if (k == j) (count d k + n) (Dict.get d j)

  pub count-bump-plus :
      (d : Dict K ℕ) (k j : K) (n : ℕ)
      → count (bump d k n) j ≡ count d j + (if k == j then n else 0)
  count-bump-plus d k j n = elim (Bool-cases (k == j)) [
    | inl same ↦ count-bump d k j n ∙ rw (same, (e.beq_iff k j).0 same) refl
    | inr other ↦ count-bump d k j n ∙ rw other (omega arith)
  ]

pub count-empty : {K : Type 0} ⦃e : Eq K⦄ (k : K) → count Dict.empty k ≡ 0
unfolding count Dict.get
count-empty k = refl

-- The latencies of one model, in the order of their observation.
abbrev pub latencies_of : String → List (String × ℕ) → List ℕ
latencies_of model_id [] = []
latencies_of model_id ((observed, latency) ∷ more) =
    let rest = latencies_of model_id more in if observed == model_id then latency ∷ rest else rest

abbrev pub sum : List ℕ → ℕ
sum [] = 0
sum (n ∷ ns) = n + sum ns

abbrev pub observe_all : GatewayMetrics → List (String × ℕ) → GatewayMetrics
observe_all m [] = m
observe_all m ((model_id, latency) ∷ more) = observe_all (observe_latency m model_id latency) more

-- How often a bound stands among the buckets.
abbrev pub times : ℕ → List ℕ → ℕ
times bound = count_if (λ bucket. bucket == bound)

counted :
    (latency bound bucket : ℕ) (same : Bool) (before grown more : ℕ)
    → leb latency bucket ≡ true
    → grown ≡ before + (if same && (bucket == bound) then 1 else 0)
    → grown + (if same && leb latency bound then more else 0)
      ≡ before
        + (if same && leb latency bound then (if bucket == bound then 1 else 0) + more else 0)
counted latency bound bucket true before grown more under grows = ground (arith, under, grows)
counted latency bound bucket false before grown more under grows = ground (arith, grows)

skipped :
    (latency bound bucket : ℕ) (same : Bool) (before more : ℕ)
    → leb latency bucket ≡ false
    → before + (if same && leb latency bound then more else 0)
      ≡ before
        + (if same && leb latency bound then (if bucket == bound then 1 else 0) + more else 0)
skipped latency bound bucket true before more over = ground (arith, over)
skipped latency bound bucket false before more over = refl

-- A latency is counted at each bound that it does not pass, under its own key only.
count-fill_buckets :
    {K : Type 0} ⦃e : Eq K⦄ (key : ℕ → K) (j : K) (latency bound : ℕ) (same : Bool)
    → ((bucket : ℕ) → (key bucket == j) ≡ (same && (bucket == bound)))
    → (buckets : List ℕ) (d : Dict K ℕ)
    → count (fill_buckets key latency buckets d) j
      ≡ count d j + (if same && leb latency bound then times bound buckets else 0)
unfolding fill_buckets count_if
count-fill_buckets key j latency bound same agrees [] d = ground arith
count-fill_buckets key j latency bound same agrees (bucket ∷ buckets) d =
    let later = count-fill_buckets key j latency bound same agrees buckets in
    elim (Bool-cases (leb latency bucket)) [
      | inl under ↦ rw under (
          later (bump d (key bucket) 1)
          ∙ counted latency bound bucket same _ _ _ under
              (count-bump-plus d (key bucket) j 1 ∙ rw (agrees bucket) refl))
      | inr over ↦ rw over (later d ∙ skipped latency bound bucket same _ _ over)
    ]

pub observe_all-latency_buckets :
    (observed : List (String × ℕ)) (m : GatewayMetrics)
    → (observe_all m observed).latency_buckets ≡ m.latency_buckets
unfolding observe_latency
observe_all-latency_buckets [] m = refl
observe_all-latency_buckets ((seen, latency) ∷ more) m =
    observe_all-latency_buckets more (observe_latency m seen latency)

bucket_placed :
    (bound latency n : ℕ) (ns : List ℕ) (same : Bool)
    → n + (if same && leb latency bound then 1 else 0) + at_most bound ns
      ≡ n + at_most bound (if same then latency ∷ ns else ns)
unfolding count_if
bucket_placed bound latency n ns true = ground arith
bucket_placed bound latency n ns false = ground arith

placed :
    (size : List ℕ → ℕ) (latency part n : ℕ) (ns : List ℕ) (same : Bool)
    → size (latency ∷ ns) ≡ part + size ns
    → n + (if same then part else 0) + size ns ≡ n + size (if same then latency ∷ ns else ns)
placed size latency part n ns true grows = omega (arith, grows)
placed size latency part n ns false grows = omega arith

pub observe_all-latency_count :
    (observed : List (String × ℕ)) (m : GatewayMetrics) (model_id : String)
    → count (observe_all m observed).latency_count model_id
      ≡ count m.latency_count model_id + length (latencies_of model_id observed)
unfolding observe_latency
observe_all-latency_count [] m model_id = omega arith
observe_all-latency_count ((seen, latency) ∷ more) m model_id =
    let rest = latencies_of model_id more in
    observe_all-latency_count more (observe_latency m seen latency) model_id
    ∙ ap (λ n. n + length rest) (count-bump-plus m.latency_count seen model_id 1)
    ∙ placed length latency 1 _ rest (seen == model_id) (omega arith)

observe_all-latency_sum :
    (observed : List (String × ℕ)) (m : GatewayMetrics) (model_id : String)
    → count (observe_all m observed).latency_sum model_id
      ≡ count m.latency_sum model_id + sum (latencies_of model_id observed)
unfolding observe_latency
observe_all-latency_sum [] m model_id = omega arith
observe_all-latency_sum ((seen, latency) ∷ more) m model_id =
    let rest = latencies_of model_id more in
    observe_all-latency_sum more (observe_latency m seen latency) model_id
    ∙ ap (λ n. n + sum rest) (count-bump-plus m.latency_sum seen model_id latency)
    ∙ placed sum latency latency _ rest (seen == model_id) refl

observe_all-bucket_counts :
    (observed : List (String × ℕ)) (m : GatewayMetrics) (model_id : String) (bound : ℕ)
    → times bound m.latency_buckets ≡ 1
    → count (observe_all m observed).bucket_counts (model_id, bound)
      ≡ count m.bucket_counts (model_id, bound) + at_most bound (latencies_of model_id observed)
unfolding observe_latency count_if
observe_all-bucket_counts [] m model_id bound once = omega arith
observe_all-bucket_counts ((seen, latency) ∷ more) m model_id bound once =
    let rest = latencies_of model_id more in
    let filled =
      count-fill_buckets (λ bucket. (seen, bucket)) (model_id, bound) latency bound
        (seen == model_id) (λ bucket. refl) m.latency_buckets m.bucket_counts
      ∙ rw once refl in
    observe_all-bucket_counts more (observe_latency m seen latency) model_id bound once
    ∙ ap (λ n. n + at_most bound rest) filled
    ∙ bucket_placed bound latency _ rest (seen == model_id)

-- Each bound that stands once among the buckets counts, of a model, the observed latencies that
-- do not pass it; the count and the sum of the model are those of its observed latencies.
pub observe_all-histogram :
    (observed : List (String × ℕ)) (m : GatewayMetrics) (model_id : String) (bound : ℕ)
    → times bound m.latency_buckets ≡ 1
    → let after : GatewayMetrics = observe_all m observed in
      let latencies : List ℕ = latencies_of model_id observed in
      (count after.bucket_counts (model_id, bound)
        ≡ count m.bucket_counts (model_id, bound) + at_most bound latencies)
      × (count after.latency_count model_id ≡ count m.latency_count model_id + length latencies)
      × (count after.latency_sum model_id ≡ count m.latency_sum model_id + sum latencies)
observe_all-histogram observed m model_id bound once = (
  observe_all-bucket_counts observed m model_id bound once,
  observe_all-latency_count observed m model_id,
  observe_all-latency_sum observed m model_id,
)
