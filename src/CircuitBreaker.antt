-- ===== src/CircuitBreaker.antt =====
-- sandbox-runtime/src/circuit_breaker.rs: which sandboxes accept a request.
mod Status
mod Probe
mod Sweep
mod Tests
use ai_agent_sandbox_bluepri.Base.{
  ℕ, ◌-◌, ◌*◌, ◌≤◌, ◌%◌, String, Bool, true, false, Option, none, some, Result, ok, err,
  circuit_breaker, if◌then◌else◌, ltb, leb, Reads, elapsed_secs, newer_than, u64_modulus, string_eq,
}
use ai_agent_sandbox_bluepri.Base.Map.{Map, lookup, insert, remove, update, retain_values}

abbrev pub default_cooldown_secs : ℕ
default_cooldown_secs = 30

abbrev pub gc_interval_secs : ℕ
gc_interval_secs = 120

pub record BreakerEntry : Type 0 where
  pub marked_at : ℕ
  pub probing : Bool

pub record BreakerStatus : Type 0 where
  pub active : Bool
  pub remaining_secs : Option ℕ
  pub probing : Bool

-- The statics `UNHEALTHY` and `LAST_GC`.
pub record Breaker : Type 0 where
  pub unhealthy : Map String BreakerEntry
  pub last_gc : ℕ

-- The block of `check_health` that sweeps; `cooldown * 2` is a product of u64.
unfoldable pub sweep : ℕ → Reads → Breaker → Breaker
sweep cooldown now b =
    if leb gc_interval_secs (elapsed_secs b.last_gc now.gc)
    then record {
      unhealthy =
          retain_values (λ e. newer_than (cooldown * 2 % u64_modulus) now.cutoff e.marked_at)
            b.unhealthy;
      last_gc = now.reset;
    }
    else b

abbrev start_probe : BreakerEntry → BreakerEntry
start_probe e = record e { probing = true }

-- What `check_health` does with the entry that it finds.
check_entry : ℕ → ℕ → String → Breaker → Option BreakerEntry → Result (Unit {0}) × Breaker
check_entry cooldown now id b none = (ok tt, b)
check_entry cooldown now id b (some e) =
    let elapsed = elapsed_secs e.marked_at now in
    if ltb elapsed cooldown
    then (err (circuit_breaker (cooldown - elapsed) false), b)
    else if e.probing
    then (err (circuit_breaker 0 true), b)
    else (ok tt, record b { unhealthy = update id start_probe b.unhealthy })

unfoldable pub check_health : ℕ → Reads → String → Breaker → Result (Unit {0}) × Breaker
unfolding check_entry
check_health cooldown now id b =
    let swept = sweep cooldown now b in
    check_entry cooldown now.entry id swept (lookup id swept.unhealthy)

unfoldable pub mark_unhealthy : ℕ → String → Breaker → Breaker
mark_unhealthy now id b = record b {
  unhealthy = insert id (record { marked_at = now; probing = false }) b.unhealthy;
}

unfoldable pub mark_healthy : String → Breaker → Breaker
mark_healthy id b = record b { unhealthy = remove id b.unhealthy }

unfoldable pub clear : String → Breaker → Breaker
unfolding mark_healthy
clear id b = mark_healthy id b

status_of : ℕ → ℕ → Option BreakerEntry → BreakerStatus
status_of cooldown now none = record { active = false; remaining_secs = none; probing = false }
status_of cooldown now (some e) =
    let elapsed = elapsed_secs e.marked_at now in
    if ltb elapsed cooldown
    then record { active = true; remaining_secs = some (cooldown - elapsed); probing = false }
    else record { active = e.probing; remaining_secs = some 0; probing = e.probing }

unfoldable pub query_status : ℕ → ℕ → String → Breaker → BreakerStatus
unfolding status_of
query_status cooldown now id b = status_of cooldown now (lookup id b.unhealthy)
