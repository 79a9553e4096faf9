-- ===== src/Telemetry/Bound.antt =====
-- gateway/telemetry_snapshot.py, `latency_summary`, over the histogram of gateway/metrics.py: what
-- the bound of the p95 says of the latencies that the gateway observed.
use mathlib.Core.Path.{subst}
use secure_gpu_inference_gat.Prelude.{
  ◌≡◌, refl, sym, ap, ◌∙◌, ℕ, ◌+◌, ◌*◌, ◌≤◌, ◌<◌, String, Bool, true, false, Option, none, some,
  List, [], ◌∷◌, length, All, Any, leb, nat_beq, string_eq, arith, ◌⊎◌, inl, inr, if◌then◌else◌,
}
use secure_gpu_inference_gat.Prelude.Int.{pos}
use secure_gpu_inference_gat.Dict
use secure_gpu_inference_gat.Json.{Float, finite, infinity}
use secure_gpu_inference_gat.Floats.{Rounding, le}
use secure_gpu_inference_gat.Sorting.{place, sorted}
use secure_gpu_inference_gat.Sorting.Ranks.{IsSorted, at_most}
use secure_gpu_inference_gat.Metrics.{GatewayMetrics, Bucket, bucket_eq, count}
use secure_gpu_inference_gat.Metrics.Histogram.{
  count-empty, latencies_of, observe_all, times, observe_all-latency_count, observe_all-histogram,
  observe_all-latency_buckets,
}
use secure_gpu_inference_gat.Telemetry.Snapshot.{
  Latency, LatencySummary, target, by_bound, to_ms, first_enough, latency_summary,
}

-- The buckets of a histogram, as `_latency_samples` writes them.
abbrev pub buckets_of : List ℕ → (ℕ → ℕ) → ℕ → List (Float × ℕ)
buckets_of [] bucket_count total = (infinity, total) ∷ []
buckets_of (bound ∷ bounds) bucket_count total =
    (finite (pos bound), bucket_count bound) ∷ buckets_of bounds bucket_count total

buckets_of-agree :
    (bounds : List ℕ) (f g : ℕ → ℕ) (total : ℕ)
    → All (λ b. f b ≡ g b) bounds
    → buckets_of bounds f total ≡ buckets_of bounds g total
buckets_of-agree [] f g total all = refl
buckets_of-agree (b ∷ bs) f g total (first, all) =
    rw first (ap (λ l. (finite (pos b), g b) ∷ l) (buckets_of-agree bs f g total all))

place-front :
    (b n : ℕ) (bounds : List ℕ) (f : ℕ → ℕ) (total : ℕ)
    → All (λ c. b ≤ c) bounds
    → place by_bound (finite (pos b), n) (buckets_of bounds f total)
      ≡ (finite (pos b), n) ∷ buckets_of bounds f total
unfolding place le
place-front b n [] f total all = refl
place-front b n (c ∷ cs) f total (first, all) =
    let before : leb (b + 0) (c + 0) ≡ true = ground (arith, first) in rw before refl

sorted-buckets_of :
    (bounds : List ℕ) (f : ℕ → ℕ) (total : ℕ)
    → IsSorted bounds
    → sorted by_bound (buckets_of bounds f total) ≡ buckets_of bounds f total
unfolding sorted
sorted-buckets_of [] f total h = refl
sorted-buckets_of (b ∷ bs) f total (all, h) =
    ap (place by_bound (finite (pos b), f b)) (sorted-buckets_of bs f total h)
    ∙ place-front b (f b) bs f total all

-- The least of the bounds that enough of the latencies do not exceed.
abbrev pub IsLeast : ℕ → List ℕ → List ℕ → Type 0
IsLeast b bounds latencies =
    Any (λ c. c ≡ b) bounds
    × (95 * length latencies ≤ 100 * at_most b latencies)
    × All (λ c. c < b → 100 * at_most c latencies < 95 * length latencies) bounds

module _ (f : Rounding) (latencies : List ℕ) (some_latency : 1 ≤ length latencies) where
  abbrev wanted : ℕ
  wanted = target (length latencies)

  -- What the loop finds.
  abbrev Outcome : List ℕ → Option Float → Type 0
  Outcome bounds found =
      ((b : ℕ) × (found ≡ some (to_ms f (finite (pos b)))) × IsLeast b bounds latencies)
      ⊎ (found ≡ none) × All (λ c. 100 * at_most c latencies < 95 * length latencies) bounds

  none_smaller :
      (b : ℕ) (bounds : List ℕ)
      → All (λ c. b ≤ c) bounds
      → All (λ c. c < b → 100 * at_most c latencies < 95 * length latencies) bounds
  none_smaller b [] all = tt
  none_smaller b (c ∷ cs) (first, all) =
      ((λ under. absurd (omega (arith, first, under))), none_smaller b cs all)

  at_front :
      (b : ℕ) (bs : List ℕ) (test : Bool) (rest : Option Float)
      → leb wanted (at_most b latencies) ≡ test
      → All (λ c. b ≤ c) bs
      → Outcome bs rest
      → Outcome (b ∷ bs) (if test then some (to_ms f (finite (pos b))) else rest)
  at_front b bs true rest enough all later = inl (
    b,
    refl,
    (
      inl refl,
      ground (arith, some_latency, enough),
      ((λ under. absurd (omega (arith, under))), none_smaller b bs all),
    ),
  )
  at_front b bs false rest few all (inl (c, found, (there, enough, least))) =
      inl (c, found, (inr there, enough, ((λ under. ground (arith, some_latency, few)), least)))
  at_front b bs false rest few all (inr (found, least)) =
      inr (found, (ground (arith, some_latency, few), least))

  first_enough-Outcome :
      (bounds : List ℕ)
      → IsSorted bounds
      → Outcome bounds
          (first_enough f wanted (buckets_of bounds (λ b. at_most b latencies) (length latencies)))
  unfolding first_enough
  first_enough-Outcome [] h = inr (refl, tt)
  first_enough-Outcome (b ∷ bs) (all, h) =
      at_front b bs (leb wanted (at_most b latencies)) _ refl all (first_enough-Outcome bs h)

-- The buckets of a model, after the gateway has observed latencies.
abbrev pub observed_latency : GatewayMetrics → String → Float → Latency
observed_latency m model_id sum_seconds = record {
  buckets =
      buckets_of m.latency_buckets (λ b. count m.bucket_counts (model_id, b))
        (count m.latency_count model_id);
  total = count m.latency_count model_id;
  sum_seconds = sum_seconds;
}

fresh_counts :
    (m : GatewayMetrics) (observed : List (String × ℕ)) (model_id : String) (bounds : List ℕ)
    → m.bucket_counts ≡ Dict.empty
    → All (λ b. times b m.latency_buckets ≡ 1) bounds
    → All
        (λ b.
          count (observe_all m observed).bucket_counts (model_id, b)
          ≡ at_most b (latencies_of model_id observed))
        bounds
fresh_counts m observed model_id [] fresh once = tt
fresh_counts m observed model_id (b ∷ bs) fresh (first, once) = (
  (observe_all-histogram observed m model_id b first).0
      ∙ ap (λ d. count d (model_id, b) + at_most b (latencies_of model_id observed)) fresh
      ∙ rw (count-empty {K = Bucket} (model_id, b)) (omega arith),
  fresh_counts m observed model_id bs fresh once,
)

-- Of counters that start empty, with sorted and distinct buckets: when some latencies of a model
-- were observed, the p95 that a snapshot gives for its histogram is, in milliseconds, the least
-- bound that at least 95 in a hundred of them do not exceed, and none where no bound is such.
pub latency_summary-p95 :
    (f : Rounding) (m : GatewayMetrics) (observed : List (String × ℕ)) (model_id : String)
    (sum_seconds : Float)
    → m.bucket_counts ≡ Dict.empty
    → m.latency_count ≡ Dict.empty
    → IsSorted m.latency_buckets
    → All (λ b. times b m.latency_buckets ≡ 1) m.latency_buckets
    → let latencies : List ℕ = latencies_of model_id observed in
      1 ≤ length latencies
      → let summary : LatencySummary =
          latency_summary f (observed_latency (observe_all m observed) model_id sum_seconds) in
        let found : Option Float = summary.p95_upper_bound_ms in
        ((b : ℕ) × (found ≡ some (to_ms f (finite (pos b))))
          × IsLeast b m.latency_buckets latencies)
        ⊎ (found ≡ none)
          × All (λ c. 100 * at_most c latencies < 95 * length latencies) m.latency_buckets
unfolding latency_summary
latency_summary-p95 f m observed model_id sum_seconds fresh uncounted in_order once some_latency =
    let after = observe_all m observed in
    let latencies = latencies_of model_id observed in
    let counted : count after.latency_count model_id ≡ length latencies =
      observe_all-latency_count observed m model_id
      ∙ rw (uncounted, count-empty model_id) (omega arith) in
    let buckets : sorted by_bound (
          buckets_of after.latency_buckets (λ b. count after.bucket_counts (model_id, b))
            (count after.latency_count model_id))
        ≡ buckets_of m.latency_buckets (λ b. at_most b latencies) (length latencies) =
      rw (counted, observe_all-latency_buckets observed m)
        (sorted-buckets_of m.latency_buckets _ _ in_order
          ∙ buckets_of-agree m.latency_buckets _ _ _
              (fresh_counts m observed model_id m.latency_buckets fresh once)) in
    let some_total : nat_beq (length latencies) 0 ≡ false = ground (arith, some_latency) in
    let whole : (if nat_beq (count after.latency_count model_id) 0
          then none
          else first_enough f (target (count after.latency_count model_id)) (
              sorted by_bound (
                buckets_of after.latency_buckets (λ b. count after.bucket_counts (model_id, b))
                  (count after.latency_count model_id))))
        ≡ first_enough f (target (length latencies))
            (buckets_of m.latency_buckets (λ b. at_most b latencies) (length latencies)) =
      rw (buckets, counted, some_total) refl in
    subst (λ o. Outcome f latencies some_latency m.latency_buckets o) (sym whole)
      (first_enough-Outcome f latencies some_latency m.latency_buckets in_order)
