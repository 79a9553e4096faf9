-- ===== src/Tests/Shared.antt =====
-- A server that keeps its keys in two functions, and two replicas that share a key on it.
use secure_gpu_inference_gat.Prelude.{
  ℕ, ◌+◌, ◌≤◌, String, refl, Option, none, some, List, [], ◌∷◌, ◌==◌, string_eq, beq_refl,
  beq_of_ne, arith, All, if◌then◌else◌,
}
use secure_gpu_inference_gat.Redis.{Server, IsRedis, RedisLimiter, number, aged, aged_ttl}
use secure_gpu_inference_gat.Registry.{model_policies}
use secure_gpu_inference_gat.Sorting.{sorted}
use secure_gpu_inference_gat.Distributed.{LimitRule, build_limit_rules, sample_decisions}
use secure_gpu_inference_gat.Distributed.Samples.{IsDecided, sample_decisions-IsDecided}
use secure_gpu_inference_gat.Redis.Shared.{Event, call, pass, passed, granted, granted-le}

record Keys : Type 0 where
  pub value : String → Option ℕ
  pub left : String → Option ℕ

abbrev update : (String → Option ℕ) → String → Option ℕ → String → Option ℕ
update f k v j = if k == j then v else f j

abbrev set_left : Option ℕ → Option ℕ → ℕ → Option ℕ
set_left none left ms = left
set_left (some v) left ms = some ms

abbrev server : Server
server = record {
  State = Keys;
  get = λ s. s.value;
  incrby =
      λ s k n. record { value = update s.value k (some (number (s.value k) + n)); left = s.left };
  pexpire = λ s k ms. record {
    value = s.value;
    left = update s.left k (set_left (s.value k) (s.left k) ms);
  };
  pttl = λ s. s.left;
  elapse = λ s n. record {
    value = λ k. aged (s.left k) n (s.value k);
    left = λ k. aged_ttl (s.left k) n;
  };
}

server-IsRedis : IsRedis server
server-IsRedis = record {
  get-incrby_self = λ s k n. rw (beq_refl k) refl;
  get-incrby_ne = λ s k j n h. rw (beq_of_ne k j h) refl;
  pttl-incrby = λ s k j n. refl;
  get-pexpire = λ s k j ms h. refl;
  pttl-pexpire_self = λ s k ms v h. rw (beq_refl k, h) refl;
  pttl-pexpire_ne = λ s k j ms h. rw (beq_of_ne k j h) refl;
  get-elapse = λ s k n. refl;
  pttl-elapse = λ s k n. refl;
}

abbrev empty : Keys
empty = record { value = λ k. none; left = λ k. none }

abbrev replica : RedisLimiter
replica = record { budget_type = "requests"; window_seconds = 60; key_prefix = "sgig" }

abbrev hash : String → String
hash name = name

abbrev shared_key : String
shared_key = "sgig:m:requests:ada:0"

abbrev events : List Event
events =
    call replica 1 "ada" "m" 1 2
    ∷ pass 1000
    ∷ call replica 2 "ada" "m" 1 2
    ∷ call replica 2 "ada" "m" 1 2
    ∷ []

granted-le_example : granted hash 1 server shared_key empty events ≤ 2
unfolding passed
granted-le_example =
    granted-le hash 1 server shared_key server-IsRedis 2 60 empty events refl
      (
        omega arith,
        λ h. (refl, refl),
        (omega arith, λ h. (refl, refl), (omega arith, λ h. (refl, refl), tt)),
      )
      (omega arith)

abbrev rules : List LimitRule
rules = build_limit_rules (model_policies 120 20000)

sample_decisions-IsDecided_example :
    All (IsDecided server empty shared_key 60000) (sample_decisions hash rules)
unfolding build_limit_rules sorted
sample_decisions-IsDecided_example =
    sample_decisions-IsDecided server empty shared_key 60000 hash rules refl
      (omega arith, (omega arith, (omega arith, (omega arith, (omega arith, (omega arith, tt))))))
