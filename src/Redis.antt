-- ===== src/Redis.antt =====
-- The Redis limiters of gateway/rate_limit.py. The server is not part of the program: it is a
-- parameter with the documented behaviour of GET, INCRBY, PEXPIRE and PTTL.
pub mod Shared
use secure_gpu_inference_gat.Prelude.{
  ℕ, ◌+◌, ◌*◌, ◌/◌, ◌≤◌, ◌<◌, ◌-◌, String, ◌≡◌, ◌≢◌, Bool, true, false, Option, none, some, List,
  [], ◌∷◌, nat_beq, ltb, Result, ok, err, ◌>>=◌, ◌>>◌, raise_if, if◌then◌else◌,
}
use Prim.Native.String.{◌++◌}
use secure_gpu_inference_gat.Text.{is_empty, take, decimal}
use secure_gpu_inference_gat.Errors.{Exception, value_error, runtime_error}

pub record Server : Type 1 where
  pub State : Type 0
  -- GET: the number that a key holds, none for a key that is not there.
  pub get : State → String → Option ℕ
  pub incrby : State → String → ℕ → State
  pub pexpire : State → String → ℕ → State
  -- PTTL: the milliseconds left to a key, none for a key that does not expire.
  pub pttl : State → String → Option ℕ
  -- The passing of milliseconds.
  pub elapse : State → ℕ → State

abbrev pub number : Option ℕ → ℕ
number none = 0
number (some n) = n

-- What a key holds after time has passed, if it holds a value now.
abbrev pub aged : Option ℕ → ℕ → Option ℕ → Option ℕ
aged none n value = value
aged (some left) n value = if ltb n left then value else none

abbrev pub aged_ttl : Option ℕ → ℕ → Option ℕ
aged_ttl none n = none
aged_ttl (some left) n = if ltb n left then some (left - n) else none

-- The documented behaviour. Keys are independent, INCRBY takes a missing key for 0 and keeps the
-- time to live, PEXPIRE with a positive time sets it, and a key is gone when it has run out.
pub record IsRedis (r : Server) : Type 0 where
  pub get-incrby_self :
      (s : r.State) (k : String) (n : ℕ) → r.get (r.incrby s k n) k ≡ some (number (r.get s k) + n)
  pub get-incrby_ne :
      (s : r.State) (k j : String) (n : ℕ) → k ≢ j → r.get (r.incrby s k n) j ≡ r.get s j
  pub pttl-incrby : (s : r.State) (k j : String) (n : ℕ) → r.pttl (r.incrby s k n) j ≡ r.pttl s j
  pub get-pexpire :
      (s : r.State) (k j : String) (ms : ℕ) → 1 ≤ ms → r.get (r.pexpire s k ms) j ≡ r.get s j
  pub pttl-pexpire_self :
      (s : r.State) (k : String) (ms : ℕ) (v : ℕ)
      → r.get s k ≡ some v
      → r.pttl (r.pexpire s k ms) k ≡ some ms
  pub pttl-pexpire_ne :
      (s : r.State) (k j : String) (ms : ℕ) → k ≢ j → r.pttl (r.pexpire s k ms) j ≡ r.pttl s j
  pub get-elapse :
      (s : r.State) (k : String) (n : ℕ) → r.get (r.elapse s n) k ≡ aged (r.pttl s k) n (r.get s k)
  pub pttl-elapse :
      (s : r.State) (k : String) (n : ℕ) → r.pttl (r.elapse s n) k ≡ aged_ttl (r.pttl s k) n

module _ (r : Server) where
  -- `REDIS_FIXED_WINDOW_LUA`, which the server runs as one step.
  unfoldable pub fixed_window_lua : r.State → String → ℕ → ℕ → ℕ → List ℕ × r.State
  fixed_window_lua s key cost window_ms limit =
      let current = number (r.get s key) in
      if ltb limit (current + cost)
      then (0 ∷ current ∷ limit ∷ [], s)
      else let s' = r.incrby s key cost in
        let total = number (r.get s' key) in
        (1 ∷ total ∷ limit ∷ [], if nat_beq total cost then r.pexpire s' key window_ms else s')

-- `_RedisFixedWindowLimiter`: the fields that a call reads.
pub record RedisLimiter : Type 0 where
  pub budget_type : String
  pub window_seconds : ℕ
  pub key_prefix : String

-- `__init__`
unfoldable pub make : String → ℕ → String → Result Exception RedisLimiter
make budget_type window_seconds key_prefix = do
  raise_if (ltb window_seconds 1) (value_error "window must be positive")
  raise_if (is_empty key_prefix) (value_error "Redis key prefix must not be empty")
  ok (record {
    budget_type = budget_type;
    window_seconds = window_seconds;
    key_prefix = key_prefix;
  })

-- `int(decision[0]) == 1`
unfoldable pub decode : List ℕ → Result Exception Bool
decode [] = err (runtime_error "Redis limiter returned an invalid decision")
decode (first ∷ rest) = ok (nat_beq first 1)

-- `sha256(...).hexdigest()` is a parameter; a time is a whole number of ticks.
module _ (sha256_hex : String → String) (ticks : ℕ) where
  unfoldable pub redis_key : RedisLimiter → ℕ → String → String → String
  redis_key l now principal_id model_id =
      let window_epoch = now / (l.window_seconds * ticks) in
      let caller_hash = take 24 (sha256_hex principal_id) in
      l.key_prefix
      ++ ":"
      ++ model_id
      ++ ":"
      ++ l.budget_type
      ++ ":"
      ++ caller_hash
      ++ ":"
      ++ decimal window_epoch

  module _ {S : Type 0} (client : S → String → ℕ → ℕ → ℕ → Result Exception (List ℕ) × S) where
    -- `_allow`; what the client raises goes to the caller.
    unfoldable pub allow :
        RedisLimiter → S → ℕ → String → String → ℕ → ℕ → Result Exception Bool × S
    allow l s now principal_id model_id cost limit =
        if ltb cost 1
        then (err (value_error "cost must be positive"), s)
        else if ltb limit 1
        then (err (value_error "limit must be positive"), s)
        else let (decision, s') =
            client s (redis_key l now principal_id model_id) cost (l.window_seconds * 1000) limit in
          (decision >>= decode, s')

-- A client whose calls all reach the server.
abbrev pub connected :
    (r : Server) → r.State → String → ℕ → ℕ → ℕ → Result Exception (List ℕ) × r.State
connected r s key cost window_ms limit =
    let (decision, s') = fixed_window_lua r s key cost window_ms limit in (ok decision, s')
