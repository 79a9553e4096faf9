-- ===== src/Audit/Interval.antt =====
-- How many anonymous denials are recorded in an interval of a minute.
use secure_gpu_inference_gat.Prelude.{
  ℕ, ◌+◌, ◌-◌, ◌*◌, ◌≤◌, Bool, List, [], ◌∷◌, ◌&&◌, ltb, leb, arith, if◌then◌else◌,
}
use secure_gpu_inference_gat.Audit.{DenialAuditBudget, init, allow}

abbrev pub InOrder : ℕ → List ℕ → Type 0
InOrder t [] = Unit
InOrder t (now ∷ times) = (t ≤ now) × InOrder now times

abbrev counted : ℕ → ℕ → ℕ → Bool → ℕ
counted lo span now allowed = if allowed && leb lo now && ltb now (lo + span) then 1 else 0

-- The calls at times in [lo, lo + 60 seconds) that are allowed.
pub recorded : ℕ → ℕ → DenialAuditBudget → List ℕ → ℕ
recorded ticks lo b [] = 0
recorded ticks lo b (now ∷ times) =
    let (allowed, b') = allow ticks b now in
    counted lo (60 * ticks) now allowed + recorded ticks lo b' times

room : ℕ → ℕ → ℕ → DenialAuditBudget → ℕ
room lo span t b =
    if leb (lo + span) t
    then 0
    else if ltb t lo
    then 2 * b.limit_per_minute
    else if ltb b.window_started lo
    then 2 * b.limit_per_minute - b.count
    else b.limit_per_minute - b.count

abbrev Fits : ℕ → DenialAuditBudget → Type 0
Fits t b = (b.count ≤ b.limit_per_minute) × (b.window_started ≤ t)

module _ (ticks lo t now : ℕ) (b : DenialAuditBudget) where
  allow-Fits : t ≤ now → Fits t b → Fits now (allow ticks b now).1
  unfolding allow
  allow-Fits later fits = ground arith

  allow-room :
      t ≤ now
      → Fits t b
      → counted lo (60 * ticks) now (allow ticks b now).0
          + room lo (60 * ticks) now (allow ticks b now).1
        ≤ room lo (60 * ticks) t b
  unfolding allow room
  allow-room later fits = ground arith

  limit-allow : (allow ticks b now).1.limit_per_minute ≤ b.limit_per_minute
  unfolding allow
  limit-allow = ground arith

recorded-le-room :
    (ticks lo t : ℕ) (b : DenialAuditBudget) (times : List ℕ)
    → InOrder t times
    → Fits t b
    → recorded ticks lo b times ≤ room lo (60 * ticks) t b
unfolding recorded
recorded-le-room ticks lo t b [] ordered fits = omega arith
recorded-le-room ticks lo t b (now ∷ times) ordered fits = ground (
  arith,
  allow-room ticks lo t now b ordered.0 fits,
  recorded-le-room ticks lo now (allow ticks b now).1 times ordered.1
      (allow-Fits ticks lo t now b ordered.0 fits),
)

room-le : (lo span t : ℕ) (b : DenialAuditBudget) → room lo span t b ≤ 2 * b.limit_per_minute
unfolding room
room-le lo span t b = ground arith

-- Of any denials in the order of time, at most twice the limit are recorded in any interval of 60
-- seconds, wherever it begins.
pub recorded-le :
    (ticks lo limit t : ℕ) (times : List ℕ)
    → InOrder t times
    → recorded ticks lo (init limit t) times ≤ 2 * limit
unfolding init
recorded-le ticks lo limit t times ordered = omega (
  arith,
  recorded-le-room ticks lo t (record { limit_per_minute = limit; window_started = t; count = 0 })
      times ordered (omega arith),
  room-le lo (60 * ticks) t (record { limit_per_minute = limit; window_started = t; count = 0 }),
)
