-- ===== src/Distributed/Samples.antt =====
-- gateway/distributed_limiter.py, `sample_decisions`: what the report shows against the script that
-- the limiter runs.
use Prim.Native.Nat.{min}
use secure_gpu_inference_gat.Prelude.{
  ◌≡◌, refl, ap, ◌∙◌, ℕ, zero, suc, ◌+◌, ◌≤◌, String, Bool, true, false, none, List, [], ◌∷◌, All,
  ltb, ok, arith, ◌==◌, string_eq, Bool-cases, inl, inr, if◌then◌else◌,
}
use secure_gpu_inference_gat.Redis.{Server, number, fixed_window_lua, decode}
use secure_gpu_inference_gat.Distributed.{
  LimitRule, Sample, within_limit, over_limit, first_rules, samples_of, sample_decisions,
}

module _ (r : Server) (s : r.State) (key : String) (window_ms : ℕ) where
  -- What the script decides of a sample.
  abbrev pub IsDecided : Sample → Type 0
  IsDecided sample =
      decode (fixed_window_lua r s key sample.window_cost window_ms sample.limit).0
      ≡ ok sample.allowed

  decided :
      (cost limit : ℕ) (denied : Bool)
      → ltb limit (number (r.get s key) + cost) ≡ denied
      → decode (fixed_window_lua r s key cost window_ms limit).0
        ≡ ok (if denied then false else true)
  unfolding fixed_window_lua decode
  decided cost limit true test = rw test refl
  decided cost limit false test = rw test refl

  fresh_test :
      (cost limit : ℕ)
      → r.get s key ≡ none
      → ltb limit (number (r.get s key) + cost) ≡ ltb limit cost
  fresh_test cost limit fresh =
      let no_cost : 0 + cost ≡ cost = omega arith in
      ap (λ o. ltb limit (number o + cost)) fresh ∙ ap (ltb limit) no_cost

  within_limit-IsDecided :
      (sha256 : String → String) (rule : LimitRule)
      → r.get s key ≡ none
      → 1 ≤ rule.limit
      → IsDecided (within_limit sha256 rule)
  within_limit-IsDecided sha256 rule fresh positive =
      let cost : ℕ = if rule.budget_type == "request_count" then 1 else min 64 rule.limit in
      let fits : ltb rule.limit cost ≡ false =
        elim (Bool-cases (rule.budget_type == "request_count")) [
          | inl same ↦ rw same (ground arith)
          | inr other ↦ rw other (ground arith)
        ] in
      decided cost rule.limit false (fresh_test cost rule.limit fresh ∙ fits)

  over_limit-IsDecided :
      (sha256 : String → String) (rule : LimitRule)
      → r.get s key ≡ none
      → IsDecided (over_limit sha256 rule)
  over_limit-IsDecided sha256 rule fresh =
      decided (rule.limit + 1) rule.limit true
        (fresh_test (rule.limit + 1) rule.limit fresh ∙ ground arith)

  samples_of-IsDecided :
      (sha256 : String → String) (n : ℕ) (rules : List LimitRule)
      → r.get s key ≡ none
      → All (λ rule. 1 ≤ rule.limit) rules
      → All IsDecided (samples_of sha256 (first_rules n rules))
  unfolding samples_of
  samples_of-IsDecided sha256 zero rules fresh positive = tt
  samples_of-IsDecided sha256 (suc n) [] fresh positive = tt
  samples_of-IsDecided sha256 (suc n) (rule ∷ rules) fresh (first, positive) = (
    within_limit-IsDecided sha256 rule fresh first,
    (over_limit-IsDecided sha256 rule fresh, samples_of-IsDecided sha256 n rules fresh positive),
  )

  -- The decisions that the report shows are those of the script: on a key that is not there, for
  -- rules with limits of at least 1, it allows each sample that is shown as allowed and denies each
  -- that is shown as denied.
  pub sample_decisions-IsDecided :
      (sha256 : String → String) (rules : List LimitRule)
      → r.get s key ≡ none
      → All (λ rule. 1 ≤ rule.limit) rules
      → All IsDecided (sample_decisions sha256 rules)
  unfolding sample_decisions
  sample_decisions-IsDecided sha256 rules = samples_of-IsDecided sha256 4 rules
