-- ===== src/RateLimit/Interval.antt =====
-- What a key can spend in an interval as long as a window, over any sequence of calls.
use mathlib.Core.Path.{subst}
use secure_gpu_inference_gat.Prelude.{
  ℕ, ◌+◌, ◌*◌, ◌≤◌, String, ◌≡◌, inl, inr, Bool, false, Option, none, some, List, [], ◌∷◌, ◌==◌,
  Result, ok, err, arith, Bool-cases, beq_refl, if◌then◌else◌,
}
use secure_gpu_inference_gat.Errors.{Exception}
use secure_gpu_inference_gat.Dict
use secure_gpu_inference_gat.Dict.{Dict, get-put, get-empty}
use secure_gpu_inference_gat.RateLimit.{
  Window, Key, key_eq, init, FixedWindowLimiter, store, budget_window, allow_tokens,
}
use secure_gpu_inference_gat.RateLimit.Room.{
  Fits, counted, merged, room, room-le, room-later, budget_window-Fits, budget_window-room,
}

-- One call of a limiter.
pub record Call : Type 0 where
  pub now : ℕ
  pub principal_id : String
  pub model_id : String
  pub cost : ℕ
  pub limit : ℕ

abbrev pub key_of : Call → Key
key_of c = (c.principal_id, c.model_id)

abbrev pub is_allowed : Result Exception Bool → Bool
is_allowed (ok b) = b
is_allowed (err e) = false

-- The calls come in the order of their times, none before t.
abbrev pub InOrder : ℕ → List Call → Type 0
InOrder t [] = Unit
InOrder t (c ∷ cs) = (t ≤ c.now) × InOrder c.now cs

-- Every call for the key has the limit of its model.
abbrev pub HasLimit : Key → ℕ → List Call → Type 0
HasLimit k limit [] = Unit
HasLimit k limit (c ∷ cs) = (key_of c ≡ k → c.limit ≡ limit) × HasLimit k limit cs

pub get-store :
    (l : FixedWindowLimiter) (j k : Key) (o : Option Window)
    → Dict.get (store l j o).windows k
      ≡ (if j == k then merged (Dict.get l.windows k) o else Dict.get l.windows k)
unfolding store
get-store l j k none = ground arith
get-store l j k (some w) = ground (arith, get-put l.windows j k w)

module _ (ticks : ℕ) where
  abbrev pub call_tokens : FixedWindowLimiter → Call → Result Exception Bool × FixedWindowLimiter
  call_tokens l c = allow_tokens ticks l c.now c.principal_id c.model_id c.cost c.limit

  -- The tokens that the calls spend for the key at times in [lo, lo + window).
  pub spent : ℕ → Key → FixedWindowLimiter → List Call → ℕ
  spent lo k l [] = 0
  spent lo k l (c ∷ cs) =
      let (reply, l') = call_tokens l c in
      (if key_of c == k
        then counted lo (l.window_seconds * ticks) c.now c.cost (is_allowed reply)
        else 0)
      + spent lo k l' cs

  window_seconds-call :
      (l : FixedWindowLimiter) (c : Call) → (call_tokens l c).1.window_seconds ≡ l.window_seconds
  unfolding allow_tokens store
  window_seconds-call l c = ground arith

  pub call-other :
      (l : FixedWindowLimiter) (c : Call) (k : Key)
      → (key_of c == k) ≡ false
      → Dict.get (call_tokens l c).1.windows k ≡ Dict.get l.windows k
  unfolding allow_tokens
  call-other l c k h = ground (
    arith,
    get-store l (key_of c) k
        (budget_window ticks l c.now c.cost c.limit (Dict.get l.windows (key_of c))).1,
  )

  module _ (lo t : ℕ) (l : FixedWindowLimiter) (c : Call) where
    abbrev old : Option Window
    old = Dict.get l.windows (key_of c)

    abbrev span : ℕ
    span = l.window_seconds * ticks

    call_self :
        t ≤ c.now
        → Fits c.limit t old
        → (counted lo span c.now c.cost (is_allowed (call_tokens l c).0)
              + room lo span c.limit c.now (Dict.get (call_tokens l c).1.windows (key_of c))
            ≤ room lo span c.limit t old)
          × Fits c.limit c.now (Dict.get (call_tokens l c).1.windows (key_of c))
    unfolding allow_tokens
    call_self later fits = ground (
      arith,
      get-store l (key_of c) (key_of c) (budget_window ticks l c.now c.cost c.limit old).1,
      beq_refl (key_of c),
      budget_window-room ticks l lo t c.now c.cost c.limit later old fits,
      budget_window-Fits ticks l lo t c.now c.cost c.limit later old fits,
      room-later lo span c.limit t c.now old later,
    )

    call-room :
        (k : Key) (limit : ℕ)
        → (key_of c ≡ k → c.limit ≡ limit)
        → t ≤ c.now
        → Fits limit t (Dict.get l.windows k)
        → ((if key_of c == k
                then counted lo span c.now c.cost (is_allowed (call_tokens l c).0)
                else 0)
              + room lo span limit c.now (Dict.get (call_tokens l c).1.windows k)
            ≤ room lo span limit t (Dict.get l.windows k))
          × Fits limit c.now (Dict.get (call_tokens l c).1.windows k)
    call-room k limit same_limit later fits = elim (Bool-cases (key_of c == k)) [
      | inl same ↦
          let e = (key_eq.beq_iff (key_of c) k).0 same in
          subst
            (λ (j : Key).
              Fits limit t (Dict.get l.windows j)
              → ((if key_of c == j
                      then counted lo span c.now c.cost (is_allowed (call_tokens l c).0)
                      else 0)
                    + room lo span limit c.now (Dict.get (call_tokens l c).1.windows j)
                  ≤ room lo span limit t (Dict.get l.windows j))
                × Fits limit c.now (Dict.get (call_tokens l c).1.windows j))
            e (rw (beq_refl (key_of c), ← same_limit e) (call_self later)) fits
      | inr other ↦
          rw (other, call-other l c k other)
            (ground (arith, room-later lo span limit t c.now (Dict.get l.windows k)))
    ]

  spent-le-room :
      (lo : ℕ) (k : Key) (limit t : ℕ) (l : FixedWindowLimiter) (cs : List Call)
      → InOrder t cs
      → HasLimit k limit cs
      → Fits limit t (Dict.get l.windows k)
      → spent lo k l cs ≤ room lo (l.window_seconds * ticks) limit t (Dict.get l.windows k)
  unfolding spent
  spent-le-room lo k limit t l [] ordered limited fits = omega arith
  spent-le-room lo k limit t l (c ∷ cs) ordered limited fits =
      let step = call-room lo t l c k limit limited.0 ordered.0 fits in
      let later =
        spent-le-room lo k limit c.now (call_tokens l c).1 cs ordered.1 limited.1 step.1 in
      let same = window_seconds-call l c in ground (arith, step, later, same)

  -- Over any sequence of calls in the order of time, one caller spends on one model at most twice
  -- the limit in any interval that is as long as a window, wherever the interval begins.
  pub spent-le :
      (lo : ℕ) (k : Key) (limit t window_seconds : ℕ) (cs : List Call)
      → InOrder t cs
      → HasLimit k limit cs
      → spent lo k (init window_seconds) cs ≤ 2 * limit
  spent-le lo k limit t window_seconds cs ordered limited = omega (
    arith,
    room-le lo (window_seconds * ticks) limit t (Dict.get Dict.empty k),
    spent-le-room lo k limit t (init window_seconds) cs ordered limited (rw get-empty tt),
  )
