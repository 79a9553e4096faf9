-- ===== src/RateLimit/Room.antt =====
-- How much a key can still spend in the interval [lo, lo + window), seen from its window.
use secure_gpu_inference_gat.Prelude.{
  ℕ, ◌+◌, ◌-◌, ◌*◌, ◌≤◌, Bool, true, ◌&&◌, Option, none, some, ltb, leb, arith, if◌then◌else◌,
}
use secure_gpu_inference_gat.RateLimit.{Window, FixedWindowLimiter, budget_window}

-- A window that has spent at most the limit and began by time t.
abbrev pub Fits : ℕ → ℕ → Option Window → Type 0
Fits limit t none = Unit
Fits limit t (some w) = (w.count ≤ limit) × (w.started_at ≤ t)

-- The window is over at time now, or there is none.
abbrev IsDone : ℕ → ℕ → Option Window → Type 0
IsDone span now none = Unit
IsDone span now (some w) = w.started_at + span ≤ now

-- What one decision adds to the sum spent in [lo, lo + span).
abbrev pub counted : ℕ → ℕ → ℕ → ℕ → Bool → ℕ
counted lo span now cost allowed = if allowed && leb lo now && ltb now (lo + span) then cost else 0

left_of : ℕ → ℕ → Option Window → ℕ
left_of lo limit none = limit
left_of lo limit (some w) = if ltb w.started_at lo then 2 * limit - w.count else limit - w.count

-- An upper bound for all that is still to come, when every later time is at least t.
pub room : ℕ → ℕ → ℕ → ℕ → Option Window → ℕ
room lo span limit t o =
    if leb (lo + span) t then 0 else if ltb t lo then 2 * limit else left_of lo limit o

-- The window that a call leaves.
abbrev pub merged : Option Window → Option Window → Option Window
merged old none = old
merged old (some w) = some w

pub room-le : (lo span limit t : ℕ) (o : Option Window) → room lo span limit t o ≤ 2 * limit
unfolding room left_of
room-le lo span limit t o = ground arith

pub room-later :
    (lo span limit t now : ℕ) (o : Option Window)
    → t ≤ now
    → room lo span limit now o ≤ room lo span limit t o
unfolding room left_of
room-later lo span limit t now o h = ground arith

-- A call that opens a window.
room-open :
    (lo span limit t now cost : ℕ) (o : Option Window)
    → t ≤ now
    → cost ≤ limit
    → Fits limit t o
    → IsDone span now o
    → counted lo span now cost true
        + room lo span limit now (some (record { started_at = now; count = cost }))
      ≤ room lo span limit t o
unfolding room left_of
room-open lo span limit t now cost none h c f d = ground arith
room-open lo span limit t now cost (some w) h c f d = ground arith

-- A call that spends in an open window.
room-spend :
    (lo span limit t now cost : ℕ) (w : Window)
    → t ≤ now
    → w.count + cost ≤ limit
    → Fits limit t (some w)
    → counted lo span now cost true
        + room lo span limit now (some (record w { count = w.count + cost }))
      ≤ room lo span limit t (some w)
unfolding room left_of
room-spend lo span limit t now cost w h c f = ground arith

module _ (ticks : ℕ) (l : FixedWindowLimiter) (lo t now cost limit : ℕ) (later : t ≤ now) where
  pub budget_window-Fits :
      (o : Option Window)
      → Fits limit t o
      → Fits limit now (merged o (budget_window ticks l now cost limit o).1)
  unfolding budget_window
  budget_window-Fits none fits = ground arith
  budget_window-Fits (some w) fits = ground arith

  -- What a call adds to the sum is paid from the room that it leaves.
  pub budget_window-room :
      (o : Option Window)
      → Fits limit t o
      → counted lo (l.window_seconds * ticks) now cost (budget_window ticks l now cost limit o).0
          + room lo
              (l.window_seconds * ticks)
              limit
              now
              (merged o (budget_window ticks l now cost limit o).1)
        ≤ room lo (l.window_seconds * ticks) limit t o
  unfolding budget_window
  budget_window-room none fits = ground (
    arith,
    room-open lo (l.window_seconds * ticks) limit t now cost none,
    room-later lo (l.window_seconds * ticks) limit t now none,
  )
  budget_window-room (some w) fits = ground (
    arith,
    room-open lo (l.window_seconds * ticks) limit t now cost (some w),
    room-spend lo (l.window_seconds * ticks) limit t now cost w,
    room-later lo (l.window_seconds * ticks) limit t now (some w),
  )
