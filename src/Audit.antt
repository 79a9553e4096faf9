-- ===== src/Audit.antt =====
-- gateway/audit.py: the cap on the denials of unauthenticated callers that reach the audit log.
-- A time is a whole number of ticks, of which `ticks` make a second.
pub mod Interval
mod Sink
use secure_gpu_inference_gat.Prelude.{ℕ, ◌+◌, ◌*◌, Bool, true, false, leb, if◌then◌else◌}

pub record DenialAuditBudget : Type 0 where
  pub limit_per_minute : ℕ
  pub window_started : ℕ
  pub count : ℕ

-- `__init__`, with the reading of the clock.
unfoldable pub init : ℕ → ℕ → DenialAuditBudget
init limit_per_minute now = record {
  limit_per_minute = limit_per_minute;
  window_started = now;
  count = 0;
}

-- The window is renewed 60 seconds after it began, also by a call that is then refused.
renew : ℕ → ℕ → DenialAuditBudget → DenialAuditBudget
renew ticks now b =
    if leb (b.window_started + 60 * ticks) now
    then record b { window_started = now; count = 0 }
    else b

take_slot : DenialAuditBudget → Bool × DenialAuditBudget
take_slot b =
    if leb b.limit_per_minute b.count then (false, b) else (true, record b { count = b.count + 1 })

-- `allow`, which holds the lock from the reading of the clock to its return.
unfoldable pub allow : ℕ → DenialAuditBudget → ℕ → Bool × DenialAuditBudget
unfolding renew take_slot
allow ticks b now = take_slot (renew ticks now b)
