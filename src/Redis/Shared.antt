-- ===== src/Redis/Shared.antt =====
-- The limiters of several replicas over one server (gateway/rate_limit.py): the calls of any of them, in any order, and the passing of
-- time between them.

use native.Mathlib.Decide.{dec_le}
use secure_gpu_inference_gat.Prelude.{
  ℕ, ◌+◌, ◌*◌, ◌≤◌, ◌<◌, String, ◌≡◌, ◌≢◌, refl, inl, inr, Bool, true, false, Option, none, some,
  List, [], ◌∷◌, ◌==◌, string_eq, Result, ok, err, arith, Bool-cases, if◌then◌else◌,
}
use secure_gpu_inference_gat.Errors.{Exception}
use secure_gpu_inference_gat.Redis.{
  Server, IsRedis, number, fixed_window_lua, RedisLimiter, redis_key, allow, decode, connected,
}

-- One step of the world: a replica calls, or milliseconds pass.
pub data Event : Type 0 where
  call : RedisLimiter → (now : ℕ) (principal_id model_id : String) (cost limit : ℕ) → Event
  pass : ℕ → Event

unfoldable pub passed : List Event → ℕ
passed [] = 0
passed (call _ _ _ _ _ _ ∷ es) = passed es
passed (pass n ∷ es) = n + passed es

abbrev pub granted_cost : Result Exception Bool → ℕ → ℕ
granted_cost (ok true) cost = cost
granted_cost (ok false) cost = 0
granted_cost (err e) cost = 0

-- The key is absent, or it holds a count within the limit and outlives the rest of the events.
abbrev Holds : ℕ → ℕ → Option ℕ → Option ℕ → Type 0
Holds limit rest none ttl = Unit
Holds limit rest (some v) none = ⊥
Holds limit rest (some v) (some left) = (1 ≤ v) × (v ≤ limit) × (rest < left)

Holds-le :
    (limit rest : ℕ) (value ttl : Option ℕ) → Holds limit rest value ttl → number value ≤ limit
Holds-le limit rest none ttl held = omega arith
Holds-le limit rest (some v) none held = absurd held
Holds-le limit rest (some v) (some left) held = held.1

module _ (r : Server) (redis : IsRedis r) (k : String) (limit window_ms : ℕ) where
  open redis use {
    get-incrby_self, get-incrby_ne, pttl-incrby, get-pexpire, pttl-pexpire_self, pttl-pexpire_ne,
    get-elapse, pttl-elapse,
  }

  module _ (s : r.State) (cost : ℕ) where
    abbrev grown : r.State
    grown = r.incrby s k cost

    abbrev run : List ℕ × r.State
    run = fixed_window_lua r s k cost window_ms limit

    lua_denies : limit < number (r.get s k) + cost → run ≡ (0 ∷ number (r.get s k) ∷ limit ∷ [], s)
    unfolding fixed_window_lua
    lua_denies h = ground arith

    lua_opens :
        1 ≤ window_ms
        → cost ≤ limit
        → r.get s k ≡ none
        → (r.get run.1 k ≡ some cost) × (r.pttl run.1 k ≡ some window_ms) × (decode run.0 ≡ ok true)
    unfolding fixed_window_lua decode
    lua_opens long fits absent =
        let total : r.get grown k ≡ some cost = ground (arith, get-incrby_self s k cost) in
        ground
          (arith, total, get-pexpire grown k k window_ms, pttl-pexpire_self grown k window_ms cost)

    lua_spends :
        (v : ℕ)
        → 1 ≤ v
        → v + cost ≤ limit
        → r.get s k ≡ some v
        → (r.get run.1 k ≡ some (v + cost))
          × (r.pttl run.1 k ≡ r.pttl s k)
          × (decode run.0 ≡ ok true)
    unfolding fixed_window_lua decode
    lua_spends v counted fits held =
        let total : r.get grown k ≡ some (v + cost) = ground (arith, get-incrby_self s k cost) in
        ground (arith, total, pttl-incrby s k k cost)

  -- A call on the key: what is granted is added to the count, and the count stays within the limit.
  lua_self :
      (s : r.State) (cost rest : ℕ) (value ttl : Option ℕ)
      → r.get s k ≡ value
      → r.pttl s k ≡ ttl
      → 1 ≤ cost
      → rest < window_ms
      → Holds limit rest value ttl
      → let (decision, s') = fixed_window_lua r s k cost window_ms limit in
        Holds limit rest (r.get s' k) (r.pttl s' k)
        × (number (r.get s' k) ≡ number value + granted_cost (decode decision) cost)
  lua_self s cost rest none ttl absent left costs long held = elim (dec_le cost limit) [
    | yes fits ↦ ground (arith, lua_opens s cost (omega arith) fits absent)
    | no full ↦ unfold decode in ground (arith, lua_denies s cost (ground arith))
  ]
  lua_self s cost rest (some v) none present left costs long held = absurd held
  lua_self s cost rest (some v) (some l) present left costs long held =
      elim (dec_le (v + cost) limit) [
        | yes fits ↦ ground (arith, lua_spends s cost v held.0 fits present)
        | no full ↦ unfold decode in ground (arith, lua_denies s cost (ground arith))
      ]

  -- A call on another key.
  lua_other :
      (s : r.State) (j : String) (cost other_ms other_limit : ℕ)
      → 1 ≤ other_ms
      → j ≢ k
      → let s' = (fixed_window_lua r s j cost other_ms other_limit).1 in
        (r.get s' k ≡ r.get s k) × (r.pttl s' k ≡ r.pttl s k)
  unfolding fixed_window_lua
  lua_other s j cost other_ms other_limit long differ = ground (
    arith,
    get-incrby_ne s j k cost differ,
    pttl-incrby s j k cost,
    get-pexpire (r.incrby s j cost) j k other_ms long,
    pttl-pexpire_ne (r.incrby s j cost) j k other_ms differ,
  )

  -- The passing of time, while the key outlives it.
  elapse-Holds :
      (s : r.State) (n rest : ℕ) (value ttl : Option ℕ)
      → r.get s k ≡ value
      → r.pttl s k ≡ ttl
      → Holds limit (n + rest) value ttl
      → Holds limit rest (r.get (r.elapse s n) k) (r.pttl (r.elapse s n) k)
        × (number (r.get (r.elapse s n) k) ≡ number value)
  elapse-Holds s n rest none ttl absent left held =
      ground (arith, get-elapse s k n, pttl-elapse s k n)
  elapse-Holds s n rest (some v) none present left held = absurd held
  elapse-Holds s n rest (some v) (some l) present left held =
      ground (arith, get-elapse s k n, pttl-elapse s k n)

module _ (sha256_hex : String → String) (ticks : ℕ) (r : Server) (k : String) where
  -- The cost of the calls that are granted on the key.
  pub granted : r.State → List Event → ℕ
  granted s [] = 0
  granted s (call l now principal_id model_id cost limit ∷ es) =
      let (reply, s') =
        allow sha256_hex ticks (connected r) l s now principal_id model_id cost limit in
      (if redis_key sha256_hex ticks l now principal_id model_id == k
        then granted_cost reply cost
        else 0)
      + granted s' es
  granted s (pass n ∷ es) = granted (r.elapse s n) es

  -- Every limiter has a window, and those that use the key agree on the limit and the window.
  abbrev pub Agree : ℕ → ℕ → List Event → Type 0
  Agree limit window_seconds [] = Unit
  Agree limit window_seconds (call l now p m cost limit' ∷ es) =
      (1 ≤ l.window_seconds)
      × (redis_key sha256_hex ticks l now p m ≡ k
          → (limit' ≡ limit) × (l.window_seconds ≡ window_seconds))
      × Agree limit window_seconds es
  Agree limit window_seconds (pass n ∷ es) = Agree limit window_seconds es

  module _ (redis : IsRedis r) (limit window_seconds : ℕ) where
    -- One call, of whatever replica and on whatever key.
    call-Holds :
        (l : RedisLimiter) (s : r.State) (now : ℕ) (p m : String) (cost limit' rest : ℕ)
        → (value ttl : Option ℕ) → r.get s k ≡ value
        → r.pttl s k ≡ ttl
        → 1 ≤ l.window_seconds
        → (redis_key sha256_hex ticks l now p m ≡ k
            → (limit' ≡ limit) × (l.window_seconds ≡ window_seconds))
        → rest < window_seconds * 1000
        → Holds limit rest value ttl
        → let (reply, s') = allow sha256_hex ticks (connected r) l s now p m cost limit' in
          Holds limit rest (r.get s' k) (r.pttl s' k)
          × (number (r.get s' k)
              ≡ number value
                + (if redis_key sha256_hex ticks l now p m == k
                    then granted_cost reply cost
                    else 0))
    unfolding allow
    call-Holds l s now p m cost limit' rest value ttl e f long agree short held =
        elim (Bool-cases (redis_key sha256_hex ticks l now p m == k)) [
          | inl same ↦
              let here = (string_eq.beq_iff (redis_key sha256_hex ticks l now p m) k).0 same in
              ground (
                arith,
                here,
                agree here,
                lua_self r redis k limit (window_seconds * 1000) s cost rest value ttl e f,
              )
          | inr other ↦ ground (
            arith,
            other,
            lua_other r redis k limit (window_seconds * 1000) s
                (redis_key sha256_hex ticks l now p m) cost (l.window_seconds * 1000) limit'
                (omega arith)
                (λ here.
                  cc (other, (string_eq.beq_iff (redis_key sha256_hex ticks l now p m) k).1 here)),
          )
        ]

    granted-le-left :
        (s : r.State) (es : List Event) (value ttl : Option ℕ)
        → r.get s k ≡ value
        → r.pttl s k ≡ ttl
        → Agree limit window_seconds es
        → passed es < window_seconds * 1000
        → Holds limit (passed es) value ttl
        → number value + granted s es ≤ limit
    unfolding granted passed
    granted-le-left s [] value ttl e f agree short held =
        omega (arith, Holds-le limit 0 value ttl held)
    granted-le-left s (pass n ∷ es) value ttl e f agree short held =
        let step =
          elapse-Holds r redis k limit (window_seconds * 1000) s n (passed es) value ttl e f held in
        omega (
          arith,
          step.1,
          granted-le-left (r.elapse s n) es (r.get (r.elapse s n) k) (r.pttl (r.elapse s n) k) refl
              refl agree (omega arith) step.0,
        )
    granted-le-left s (call l now p m cost limit' ∷ es) value ttl e f agree short held =
        let s' = (allow sha256_hex ticks (connected r) l s now p m cost limit').1 in
        let step =
          call-Holds l s now p m cost limit' (passed es) value ttl e f agree.0 agree.1 short held in
        omega (
          arith,
          step.1,
          granted-le-left s' es (r.get s' k) (r.pttl s' k) refl refl agree.2 short step.0,
        )

    -- Whatever replicas call in whatever order, the calls that are granted on one key cost at most
    -- the limit in total, when the key is absent at first, less than a window passes, and the
    -- limiters that use the key agree on the limit and the window.
    pub granted-le :
        (s : r.State) (es : List Event)
        → r.get s k ≡ none
        → Agree limit window_seconds es
        → passed es < window_seconds * 1000
        → granted s es ≤ limit
    granted-le s es absent agree short =
        omega (arith, granted-le-left s es none (r.pttl s k) absent refl agree short tt)
