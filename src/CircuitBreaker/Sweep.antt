-- ===== src/CircuitBreaker/Sweep.antt =====
-- What the sweep of stale entries does to a probe in flight.
use ai_agent_sandbox_bluepri.Base.{
  ℕ, ◌+◌, ◌*◌, ◌%◌, ◌<◌, ◌≤◌, ◌≡◌, String, true, none, some, ok, Reads, elapsed_secs, newer_than,
  nanos, u64_modulus, arith, string_eq,
}
use ai_agent_sandbox_bluepri.Base.Map.{IsMap, lookup, lookup-retain_values}
use ai_agent_sandbox_bluepri.CircuitBreaker.{
  Breaker, BreakerEntry, gc_interval_secs, sweep, check_health,
}

-- A second probe goes through while the first is in flight: if the entry is at least twice the
-- cooldown old and a sweep is due, the check drops the entry, is let through, and leaves the
-- sandbox untracked. No sandbox is tracked twice, and twice the cooldown is a u64.
pub sweep_admits_second_probe :
    (cooldown : ℕ) (now : Reads) (id : String) (b : Breaker) (e : BreakerEntry)
    → cooldown * 2 < u64_modulus
    → IsMap b.unhealthy
    → lookup id b.unhealthy ≡ some e
    → e.probing ≡ true
    → gc_interval_secs ≤ elapsed_secs b.last_gc now.gc
    → e.marked_at + cooldown * 2 * nanos ≤ now.cutoff
    → ((check_health cooldown now id b).0 ≡ ok tt)
      × (lookup id (check_health cooldown now id b).1.unhealthy ≡ none)
unfolding check_health sweep
sweep_admits_second_probe cooldown now id b e small m found probing due stale = ground (
  arith,
  lookup-retain_values
      (λ (x : BreakerEntry). newer_than (cooldown * 2 % u64_modulus) now.cutoff x.marked_at) id
      b.unhealthy m,
)
