-- ===== src/Base/Clock.antt =====
-- Readings of the monotonic clock (`std::time::Instant`), in nanoseconds since an origin before
-- every reading of the process, and the 64-bit arithmetic of the code.
use Prim.Native.Nat.{ℕ, ◌+◌, ◌-◌, ◌*◌, ◌/◌, ◌^◌, ◌≤◌, min}
use mathlib.Core.Bool.{Bool}
use ai_agent_sandbox_bluepri.Base.Tests.{ltb}

abbrev pub nanos : ℕ
nanos = 1000000000

abbrev pub u64_modulus : ℕ
u64_modulus = 2 ^ 64

abbrev pub u32_modulus : ℕ
u32_modulus = 2 ^ 32

-- `earlier.elapsed().as_secs()` read at `now`: the difference stops at 0, the seconds are whole.
abbrev pub elapsed_secs : ℕ → ℕ → ℕ
elapsed_secs earlier now = (now - earlier) / nanos

-- `t > now - Duration::from_secs(secs)`. The platform's `Instant` is signed, so the difference is
-- taken on the other side.
abbrev pub newer_than : ℕ → ℕ → ℕ → Bool
newer_than secs now t = ltb now (t + secs * nanos)

-- `u64::saturating_add`.
abbrev pub saturating_add : ℕ → ℕ → ℕ
saturating_add a b = min (a + b) (u64_modulus - 1)

-- The successive clock readings of one call that may sweep: for the elapsed time since the last
-- sweep, for the cutoff, for the new time of the last sweep, and for the entry itself.
pub record Reads : Type 0 where
  pub gc : ℕ
  pub cutoff : ℕ
  pub reset : ℕ
  pub entry : ℕ

-- The clock is monotonic: the readings do not fall, and none is before `since`.
pub record IsOrdered (since : ℕ) (r : Reads) : Type 0 where
  pub since-gc : since ≤ r.gc
  pub gc-cutoff : r.gc ≤ r.cutoff
  pub cutoff-reset : r.cutoff ≤ r.reset
  pub reset-entry : r.reset ≤ r.entry
