-- ===== src/Replay/Totals.antt =====
-- gateway/workload_replay.py: what a replay counts, against the outcomes of its requests.
use secure_gpu_inference_gat.Prelude.{
  ◌≡◌, refl, sym, ap, ◌∙◌, ℕ, ◌+◌, ◌&&◌, String, Bool, true, false, List, [], ◌∷◌, ◌++◌, length,
  length-concat, map, arith, Bool-cases, inl, inr, string_eq, ◌==◌, Result, ok, err, ◌>>=◌,
  >>=-eq-ok, if◌then◌else◌,
}
use secure_gpu_inference_gat.Errors.{Exception}
use secure_gpu_inference_gat.Dict
use secure_gpu_inference_gat.Dict.{Dict, get-put}
use secure_gpu_inference_gat.Models.{Principal, ModelPolicy}
use secure_gpu_inference_gat.Metrics.{count, bump}
use secure_gpu_inference_gat.Metrics.Histogram.{count-bump-plus}
use secure_gpu_inference_gat.Replay.{ReplayRequest, token_cost}
use secure_gpu_inference_gat.Replay.Loop.{
  Replay, Limiters, counter_of, list_of, begin, count_outcome, add_latency, settle, settled,
  replay_outcome, replay_requests,
}

-- A request with its outcome.
abbrev pub Decided : Type 0
Decided = ReplayRequest × String

abbrev pub one_if : Bool → ℕ
one_if b = if b then 1 else 0

abbrev pub tally : (Decided → ℕ) → List Decided → ℕ
tally weight [] = 0
tally weight (d ∷ decided) = weight d + tally weight decided

abbrev pub of_model : String → String → Decided → Bool
of_model model_id outcome (request, decided) =
    (request.model_id == model_id) && (decided == outcome)

-- The counter of an outcome of a model.
count-counter_of :
    (d : Dict String (Dict String ℕ)) (k outcome m o : String)
    → count (counter_of (Dict.get (Dict.put d k (bump (counter_of (Dict.get d k)) outcome 1)) m)) o
      ≡ count (counter_of (Dict.get d m)) o + one_if ((k == m) && (outcome == o))
count-counter_of d k outcome m o =
    let grown = bump (counter_of (Dict.get d k)) outcome 1 in
    elim (Bool-cases (k == m)) [
      | inl same ↦
          ap (λ found. count (counter_of found) o) (get-put d k m grown)
          ∙ rw (same, ← (string_eq.beq_iff k m).0 same)
              (count-bump-plus (counter_of (Dict.get d k)) outcome o 1)
      | inr other ↦
          ap (λ found. count (counter_of found) o) (get-put d k m grown) ∙ rw other (omega arith)
    ]

-- The number of latencies of a model.
length-list_of :
    (d : Dict String (List ℕ)) (k m : String) (latency : ℕ)
    → length (list_of (Dict.get (Dict.put d k (list_of (Dict.get d k) ++ latency ∷ [])) m))
      ≡ length (list_of (Dict.get d m)) + one_if (k == m)
length-list_of d k m latency =
    let grown = list_of (Dict.get d k) ++ latency ∷ [] in
    elim (Bool-cases (k == m)) [
      | inl same ↦
          ap (λ found. length (list_of found)) (get-put d k m grown)
          ∙ rw (same, ← (string_eq.beq_iff k m).0 same)
              (length-concat (list_of (Dict.get d k)) latency)
      | inr other ↦
          ap (λ found. length (list_of found)) (get-put d k m grown) ∙ rw other (omega arith)
    ]

-- What one request adds to a quantity of a replay.
abbrev Adds : (Replay → ℕ) → (Decided → ℕ) → Type 0
Adds quantity weight =
    (request : ReplayRequest) (sequence : ℕ) (outcome : String) (r : Replay)
    → quantity (settle request sequence outcome r) ≡ quantity r + weight (request, outcome)

-- A quantity that the latencies do not change.
settle-counted :
    {A : Type 0} (quantity : Replay → A)
    → ((request : ReplayRequest) (sequence : ℕ) (r : Replay)
        → quantity (add_latency request sequence r) ≡ quantity r)
    → (request : ReplayRequest) (sequence : ℕ) (outcome : String) (r : Replay)
    → quantity (settle request sequence outcome r) ≡ quantity (count_outcome request outcome r)
unfolding settle
settle-counted quantity keeps request sequence outcome r =
    elim (Bool-cases (outcome == "allowed")) [
      | inl same ↦ rw (same, settle) (keeps request sequence (count_outcome request outcome r))
      | inr other ↦ rw (other, settle) refl
    ]

outcomes-Adds : (o : String) → Adds (λ r. count r.outcomes o) (λ d. one_if (d.1 == o))
unfolding count_outcome add_latency
outcomes-Adds o request sequence outcome r =
    settle-counted (λ r. count r.outcomes o) (λ _ _ _. refl) request sequence outcome r
    ∙ count-bump-plus r.outcomes outcome o 1

model_outcomes-Adds :
    (m o : String)
    → Adds (λ r. count (counter_of (Dict.get r.model_outcomes m)) o) (λ d. one_if (of_model m o d))
unfolding count_outcome add_latency
model_outcomes-Adds m o request sequence outcome r =
    settle-counted (λ r. count (counter_of (Dict.get r.model_outcomes m)) o) (λ _ _ _. refl) request
      sequence outcome r
    ∙ count-counter_of r.model_outcomes request.model_id outcome m o

model_input_tokens-Adds :
    (m : String)
    → Adds
        (λ r. count r.model_input_tokens m)
        (λ d. if d.0.model_id == m then token_cost d.0 else 0)
unfolding count_outcome add_latency
model_input_tokens-Adds m request sequence outcome r =
    settle-counted (λ r. count r.model_input_tokens m) (λ _ _ _. refl) request sequence outcome r
    ∙ count-bump-plus r.model_input_tokens request.model_id m (token_cost request)

model_allowed_latency-Adds :
    (m : String)
    → Adds
        (λ r. length (list_of (Dict.get r.model_allowed_latency m)))
        (λ d. one_if (of_model m "allowed" d))
unfolding settle count_outcome add_latency
model_allowed_latency-Adds m request sequence outcome r = elim (Bool-cases (outcome == "allowed")) [
  | inl same ↦
      rw (same, settle)
        (length-list_of r.model_allowed_latency request.model_id m _
          ∙ ap (λ n. length (list_of (Dict.get r.model_allowed_latency m)) + n)
              (both (request.model_id == m)))
  | inr other ↦
      rw (other, settle)
        (neither (length (list_of (Dict.get r.model_allowed_latency m))) (request.model_id == m))
]
  where
    both : (b : Bool) → one_if b ≡ one_if (b && true)
    both true = refl
    both false = refl

    neither : (n : ℕ) (b : Bool) → n ≡ n + one_if (b && false)
    neither n true = omega arith
    neither n false = omega arith

allowed_latencies-Adds : Adds (λ r. length r.allowed_latencies) (λ d. one_if (d.1 == "allowed"))
unfolding settle count_outcome add_latency
allowed_latencies-Adds request sequence outcome r = elim (Bool-cases (outcome == "allowed")) [
  | inl same ↦ rw (same, settle) (length-concat r.allowed_latencies _)
  | inr other ↦ rw (other, settle) (omega arith)
]

settle-limiters :
    (request : ReplayRequest) (sequence : ℕ) (outcome : String) (r : Replay)
    → ◌≡◌ {A = Limiters}
        (
          (settle request sequence outcome r).request_limiter,
          (settle request sequence outcome r).token_budget_limiter,
        )
        (r.request_limiter, r.token_budget_limiter)
unfolding count_outcome add_latency
settle-limiters request sequence outcome r =
    settle-counted {A = Limiters} (λ r. (r.request_limiter, r.token_budget_limiter)) (λ _ _ _. refl)
      request sequence outcome r

abbrev pub limiters_of : Replay → Limiters
limiters_of r = (r.request_limiter, r.token_budget_limiter)

abbrev with_limiters : Limiters → Replay → Replay
with_limiters limiters r = record r {
  request_limiter = limiters.0;
  token_budget_limiter = limiters.1;
}

settled-settle :
    (request : ReplayRequest) (sequence : ℕ) (r next : Replay)
    (tried : Result Exception String × Limiters)
    → settled request sequence r tried ≡ ok next
    → (outcome : String) × (tried.0 ≡ ok outcome)
      × (settle request sequence outcome (with_limiters tried.1 r) ≡ next)
settled-settle request sequence r next (err e, limiters) h = cc
settled-settle request sequence r next (ok outcome, (requests, tokens)) h = (outcome, refl, cc)

module _ (ticks : ℕ) (policies : Dict String ModelPolicy) (principals : Dict String Principal)
    (clock : ℕ → ℕ × ℕ) where
  -- The outcomes of the requests, in turn; of a replay only the limiters are needed.
  abbrev pub decide_all : ℕ → List ReplayRequest → Limiters → Result Exception (List Decided)
  decide_all sequence [] limiters = ok []
  decide_all sequence (request ∷ requests) limiters =
      let tried =
        replay_outcome ticks policies principals (clock sequence).0 (clock sequence).1 request
          limiters in
      tried.0 >>= λ outcome.
      decide_all (sequence + 1) requests tried.1 >>= λ decided. ok ((request, outcome) ∷ decided)

  -- A quantity to which every request adds its weight ends as the sum of the weights.
  replay_requests-tally :
      (quantity : Replay → ℕ) (weight : Decided → ℕ)
      → Adds quantity weight
      → ((limiters : Limiters) (r : Replay) → quantity (with_limiters limiters r) ≡ quantity r)
      → (sequence : ℕ) (requests : List ReplayRequest) (r last : Replay)
      → replay_requests ticks policies principals clock sequence requests r ≡ ok last
      → (decided : List Decided) × (decide_all sequence requests (limiters_of r) ≡ ok decided)
        × (quantity last ≡ quantity r + tally weight decided)
  unfolding replay_requests
  replay_requests-tally quantity weight adds keeps sequence [] r last done =
      let same : r ≡ last = cc done in ([], refl, ap quantity (sym same) ∙ omega arith)
  replay_requests-tally quantity weight adds keeps sequence (request ∷ requests) r last done =
      let tried =
        replay_outcome ticks policies principals (clock sequence).0 (clock sequence).1 request
          (limiters_of r) in
      let (next, first, rest) = >>=-eq-ok (settled request sequence r tried) _ done in
      let (outcome, is_outcome, is_next) = settled-settle request sequence r next tried first in
      let before = with_limiters tried.1 r in
      let limiters : limiters_of next ≡ tried.1 =
        ap limiters_of (sym is_next) ∙ settle-limiters request sequence outcome before in
      let (decided, is_decided, sum) =
        replay_requests-tally quantity weight adds keeps (sequence + 1) requests next last rest in
      let grown : quantity next ≡ quantity r + weight (request, outcome) =
        ap quantity (sym is_next)
        ∙ adds request sequence outcome before
        ∙ ap (λ n. n + weight (request, outcome)) (keeps tried.1 r) in
      (
        (request, outcome) ∷ decided,
        rw (is_outcome, ← limiters, is_decided) refl,
        omega (arith, sum, grown),
      )

  decide_all-requests :
      (sequence : ℕ) (requests : List ReplayRequest) (limiters : Limiters) (decided : List Decided)
      → decide_all sequence requests limiters ≡ ok decided
      → map (λ d. d.0) decided ≡ requests
  decide_all-requests sequence [] limiters decided h =
      let none_left : [] ≡ decided = cc h in ap (map (λ d. d.0)) (sym none_left)
  decide_all-requests sequence (request ∷ requests) limiters decided h =
      let tried =
        replay_outcome ticks policies principals (clock sequence).0 (clock sequence).1 request
          limiters in
      let (outcome, first, k) = >>=-eq-ok tried.0 _ h in
      let (rest, is_rest, last) = >>=-eq-ok (decide_all (sequence + 1) requests tried.1) _ k in
      let same : (request, outcome) ∷ rest ≡ decided = cc last in
      ap (map (λ d. d.0)) (sym same)
      ∙ ap (λ more. request ∷ more)
          (decide_all-requests (sequence + 1) requests tried.1 rest is_rest)

  -- A quantity that starts at zero.
  replay_requests-tally_all :
      (quantity : Replay → ℕ) (weight : Decided → ℕ)
      → Adds quantity weight
      → ((limiters : Limiters) (r : Replay) → quantity (with_limiters limiters r) ≡ quantity r)
      → quantity begin ≡ 0
      → (requests : List ReplayRequest) (r : Replay) (decided : List Decided)
      → replay_requests ticks policies principals clock 1 requests begin ≡ ok r
      → decide_all 1 requests (limiters_of begin) ≡ ok decided
      → quantity r ≡ tally weight decided
  replay_requests-tally_all quantity weight adds keeps zero_first requests r decided done
        is_decided =
      let (others, is_others, sum) =
        replay_requests-tally quantity weight adds keeps 1 requests begin r done in
      let same : others ≡ decided = cc (is_others, is_decided) in
      omega (arith, sum, zero_first, ap (tally weight) same)

  -- A replay that ends has decided every request once, in turn, with the limiters that the requests
  -- before it left. By these outcomes the counter of an outcome is the number of requests that had
  -- it; the counter of an outcome of a model is the number of requests for that model that had it;
  -- the tokens of a model are the sum over the requests for it; and there is one latency for every
  -- request that was allowed, in all and under its model.
  pub replay_requests-total :
      (requests : List ReplayRequest) (r : Replay) (m o : String)
      → replay_requests ticks policies principals clock 1 requests begin ≡ ok r
      → (decided : List Decided) × (decide_all 1 requests (limiters_of begin) ≡ ok decided)
        × (map (λ d. d.0) decided ≡ requests)
        × (count r.outcomes o ≡ tally (λ d. one_if (d.1 == o)) decided)
        × (count (counter_of (Dict.get r.model_outcomes m)) o
            ≡ tally (λ d. one_if (of_model m o d)) decided)
        × (count r.model_input_tokens m
            ≡ tally (λ d. if d.0.model_id == m then token_cost d.0 else 0) decided)
        × (length r.allowed_latencies ≡ tally (λ d. one_if (d.1 == "allowed")) decided)
        × (length (list_of (Dict.get r.model_allowed_latency m))
            ≡ tally (λ d. one_if (of_model m "allowed" d)) decided)
  unfolding count Dict.get
  replay_requests-total requests r m o done =
      let (decided, is_decided, sum) =
        replay_requests-tally (λ r. count r.outcomes o) (λ d. one_if (d.1 == o)) (outcomes-Adds o)
          (λ _ _. refl) 1 requests begin r done in
      (
        decided,
        is_decided,
        decide_all-requests 1 requests (limiters_of begin) decided is_decided,
        omega (arith, sum),
        replay_requests-tally_all (λ r. count (counter_of (Dict.get r.model_outcomes m)) o)
            (λ d. one_if (of_model m o d)) (model_outcomes-Adds m o) (λ _ _. refl) refl requests r
            decided done is_decided,
        replay_requests-tally_all (λ r. count r.model_input_tokens m)
            (λ d. if d.0.model_id == m then token_cost d.0 else 0) (model_input_tokens-Adds m)
            (λ _ _. refl) refl requests r decided done is_decided,
        replay_requests-tally_all (λ r. length r.allowed_latencies) (λ d. one_if (d.1 == "allowed"))
            allowed_latencies-Adds (λ _ _. refl) refl requests r decided done is_decided,
        replay_requests-tally_all (λ r. length (list_of (Dict.get r.model_allowed_latency m)))
            (λ d. one_if (of_model m "allowed" d)) (model_allowed_latency-Adds m) (λ _ _. refl) refl
            requests r decided done is_decided,
      )
