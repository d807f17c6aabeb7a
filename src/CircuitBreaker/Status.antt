-- ===== src/CircuitBreaker/Status.antt =====
-- What `check_health` answers in each state of the breaker, and the read-only `query_status`.
use text.Mathlib.TextPositions.{eq_refl}
use ai_agent_sandbox_bluepri.Base.{
  ap, ◌≤◌, ℕ, ◌+◌, ◌-◌, ◌*◌, ◌%◌, ◌<◌, ◌≡◌, String, false, none, some, Result, ok, err,
  circuit_breaker, if◌then◌else◌, Reads, IsOrdered, elapsed_secs, newer_than, nanos, u64_modulus,
  arith, string_eq,
}
use ai_agent_sandbox_bluepri.Base.Map.{
  IsMap, lookup, lookup-insert, insert-IsMap, lookup-retain_values,
}
use ai_agent_sandbox_bluepri.CircuitBreaker.{
  Breaker, BreakerEntry, BreakerStatus, sweep, check_health, mark_unhealthy, query_status,
}

-- The answer that a status stands for.
abbrev pub verdict_of : BreakerStatus → Result (Unit {0})
verdict_of s =
    if s.active
    then err (circuit_breaker (elim s.remaining_secs [ none ↦ 0 | some n ↦ n ]) s.probing)
    else ok tt

-- A check answers what the read-only status says of the swept breaker at the same reading.
pub check_health-query_status :
    (cooldown : ℕ) (now : Reads) (id : String) (b : Breaker)
    → (check_health cooldown now id b).0
      ≡ verdict_of (query_status cooldown now.entry id (sweep cooldown now b))
unfolding check_health query_status
check_health-query_status cooldown now id b = ground arith

-- A sweep keeps an entry younger than twice the cooldown.
pub lookup-sweep_young :
    (cooldown : ℕ) (now : Reads) (id : String) (b : Breaker) (e : BreakerEntry)
    → cooldown * 2 < u64_modulus
    → IsMap b.unhealthy
    → lookup id b.unhealthy ≡ some e
    → now.cutoff < e.marked_at + cooldown * 2 * nanos
    → lookup id (sweep cooldown now b).unhealthy ≡ some e
unfolding sweep
lookup-sweep_young cooldown now id b e small m found young = ground (
  arith,
  lookup-retain_values
      (λ (x : BreakerEntry). newer_than (cooldown * 2 % u64_modulus) now.cutoff x.marked_at) id
      b.unhealthy m,
)

lookup-mark_unhealthy :
    (marked : ℕ) (id : String) (b : Breaker)
    → lookup id (mark_unhealthy marked id b).unhealthy
      ≡ some (record { marked_at = marked; probing = false })
unfolding mark_unhealthy
lookup-mark_unhealthy marked id b = simp (lookup-insert, eq_refl)

-- A check of a tracked sandbox whose cooldown runs, at a sweep or not.
check_health-open :
    (cooldown : ℕ) (now : Reads) (id : String) (b : Breaker) (e : BreakerEntry)
    → cooldown * 2 < u64_modulus
    → IsMap b.unhealthy
    → lookup id b.unhealthy ≡ some e
    → now.cutoff ≤ now.entry
    → elapsed_secs e.marked_at now.entry < cooldown
    → check_health cooldown now id b ≡ (
      err (circuit_breaker (cooldown - elapsed_secs e.marked_at now.entry) false),
      sweep cooldown now b,
    )
unfolding check_health
check_health-open cooldown now id b e small m found le early =
    ground (arith, lookup-sweep_young cooldown now id b e small m found (omega arith))

-- After a failure every check within the cooldown is refused, with the whole seconds that remain, if
-- the readings do not fall from the failure on, no sandbox is tracked twice, and twice the cooldown
-- is a u64.
pub mark_unhealthy-blocks :
    (cooldown marked : ℕ) (now : Reads) (id : String) (b : Breaker)
    → cooldown * 2 < u64_modulus
    → IsMap b.unhealthy
    → IsOrdered marked now
    → elapsed_secs marked now.entry < cooldown
    → (check_health cooldown now id (mark_unhealthy marked id b)).0
      ≡ err (circuit_breaker (cooldown - elapsed_secs marked now.entry) false)
mark_unhealthy-blocks cooldown marked now id b small m o early =
    ap (λ r. r.0)
      (check_health-open cooldown now id (mark_unhealthy marked id b) _ small
        (unfold mark_unhealthy in insert-IsMap id _ b.unhealthy m)
        (lookup-mark_unhealthy marked id b) (omega arith) early)
