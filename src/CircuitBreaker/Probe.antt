-- ===== src/CircuitBreaker/Probe.antt =====
-- The half-open state: after the cooldown one request goes through, and then none.
use text.Mathlib.TextEquality.{eq_iff}
use ai_agent_sandbox_bluepri.Base.{
  ℕ, ◌+◌, ◌*◌, ◌%◌, ◌<◌, ◌≤◌, ◌≡◌, refl, String, true, false, some, ok, if◌then◌else◌, Reads,
  newer_than, nanos, u64_modulus, arith, ◌==◌, string_eq, List, [], ◌∷◌, All, ◌≢◌, is_ok,
}
use ai_agent_sandbox_bluepri.Base.Map.{
  IsMap, lookup, lookup-insert, lookup-remove, lookup-update, insert-IsMap, remove-IsMap,
  update-IsMap, retain_values-IsMap,
}
use ai_agent_sandbox_bluepri.CircuitBreaker.{
  Breaker, BreakerEntry, sweep, check_health, mark_unhealthy, mark_healthy,
}
use ai_agent_sandbox_bluepri.CircuitBreaker.Status.{lookup-sweep_young}

-- The calls that other parts of the runtime make.
pub data Call : Type 0 where
  checks : Reads → String → Call
  marks_unhealthy : ℕ → String → Call
  marks_healthy : String → Call

pub step : ℕ → Call → Breaker → Breaker
step cooldown (checks now id) b = (check_health cooldown now id b).1
step cooldown (marks_unhealthy now id) b = mark_unhealthy now id b
step cooldown (marks_healthy id) b = mark_healthy id b

-- 1 for a check of `id` that is let through.
abbrev pub admits : ℕ → String → Call → Breaker → ℕ
admits cooldown id (checks now j) b =
    if j == id then (if is_ok (check_health cooldown now j b).0 then 1 else 0) else 0
admits cooldown id (marks_unhealthy now j) b = 0
admits cooldown id (marks_healthy j) b = 0

-- How many checks of `id` a history of calls lets through.
pub admissions : ℕ → String → List Call → Breaker → ℕ
admissions cooldown id [] b = 0
admissions cooldown id (c ∷ cs) b =
    admits cooldown id c b + admissions cooldown id cs (step cooldown c b)

-- The call does not report on `id`, and comes before the entry marked at `marked` is stale.
abbrev pub Spares : ℕ → String → ℕ → Call → Type 0
Spares cooldown id marked (checks now j) =
    (now.cutoff < marked + cooldown * 2 * nanos) × (now.cutoff ≤ now.entry)
Spares cooldown id marked (marks_unhealthy now j) = j ≢ id
Spares cooldown id marked (marks_healthy j) = j ≢ id

pub sweep-IsMap :
    (cooldown : ℕ) (now : Reads) (b : Breaker)
    → IsMap b.unhealthy
    → IsMap (sweep cooldown now b).unhealthy
unfolding sweep
sweep-IsMap cooldown now b m = ground (
  arith,
  retain_values-IsMap
      (λ (x : BreakerEntry). newer_than (cooldown * 2 % u64_modulus) now.cutoff x.marked_at)
      b.unhealthy m,
)

-- Every call keeps the keys distinct.
pub step-IsMap :
    (cooldown : ℕ) (c : Call) (b : Breaker)
    → IsMap b.unhealthy
    → IsMap (step cooldown c b).unhealthy
unfolding step check_health mark_unhealthy mark_healthy
step-IsMap cooldown (checks now j) b m =
    let s = sweep-IsMap cooldown now b m in
    ground (
      arith,
      s,
      update-IsMap j (λ (x : BreakerEntry). record x { probing = true })
          (sweep cooldown now b).unhealthy s,
    )
step-IsMap cooldown (marks_unhealthy now j) b m = insert-IsMap j _ b.unhealthy m
step-IsMap cooldown (marks_healthy j) b m = remove-IsMap j b.unhealthy m

-- The entry with its probe in flight survives the call, and the call lets no check of `id` through.
probing_kept :
    (cooldown : ℕ) (id : String) (c : Call) (b : Breaker) (e : BreakerEntry)
    → cooldown * 2 < u64_modulus
    → IsMap b.unhealthy
    → lookup id b.unhealthy ≡ some e
    → e.probing ≡ true
    → Spares cooldown id e.marked_at c
    → (lookup id (step cooldown c b).unhealthy ≡ some e) × (admits cooldown id c b ≡ 0)
unfolding step check_health mark_unhealthy mark_healthy
probing_kept cooldown id (checks now j) b e small m found probing h = ground (
  arith,
  eq_iff j id,
  lookup-sweep_young cooldown now id b e small m found h.0,
  lookup-update j id (λ (x : BreakerEntry). record x { probing = true })
      (sweep cooldown now b).unhealthy,
)
probing_kept cooldown id (marks_unhealthy now j) b e small m found probing h = ground (
  arith,
  eq_iff j id,
  lookup-insert j id (record { marked_at = now; probing = false }) b.unhealthy,
)
probing_kept cooldown id (marks_healthy j) b e small m found probing h =
    ground (arith, eq_iff j id, lookup-remove j id b.unhealthy)

probing_admits_none :
    (cooldown : ℕ) (id : String) (cs : List Call) (b : Breaker) (e : BreakerEntry)
    → cooldown * 2 < u64_modulus
    → IsMap b.unhealthy
    → lookup id b.unhealthy ≡ some e
    → e.probing ≡ true
    → All (Spares cooldown id e.marked_at) cs
    → admissions cooldown id cs b ≡ 0
unfolding admissions
probing_admits_none cooldown id [] b e small m found probing h = refl
probing_admits_none cooldown id (c ∷ cs) b e small m found probing h =
    let (kept_e, none_admitted) = probing_kept cooldown id c b e small m found probing h.0 in
    omega (
      arith,
      none_admitted,
      probing_admits_none cooldown id cs (step cooldown c b) e small (step-IsMap cooldown c b m)
          kept_e probing h.1,
    )

-- A check that finds the cooldown over is let through and leaves the probe in flight.
check_health-probe :
    (cooldown : ℕ) (now : Reads) (id : String) (b : Breaker) (e : BreakerEntry)
    → cooldown * 2 < u64_modulus
    → IsMap b.unhealthy
    → lookup id b.unhealthy ≡ some e
    → now.cutoff < e.marked_at + cooldown * 2 * nanos
    → (check_health cooldown now id b).0 ≡ ok tt
    → lookup id (check_health cooldown now id b).1.unhealthy ≡ some (record e { probing = true })
unfolding check_health
check_health-probe cooldown now id b e small m found young passed = ground (
  arith,
  eq_iff id id,
  lookup-sweep_young cooldown now id b e small m found young,
  lookup-update id id (λ (x : BreakerEntry). record x { probing = true })
      (sweep cooldown now b).unhealthy,
)

-- One probe: once a check of a tracked sandbox is let through, no further check of it is, whatever
-- the calls that follow, as long as none of them reports on the sandbox and every sweep, the first
-- check's too, reads its cutoff less than twice the cooldown after the failure and not after the
-- entry. No sandbox is tracked twice, and twice the cooldown is a u64.
pub probe_is_single :
    (cooldown : ℕ) (now : Reads) (id : String) (b : Breaker) (e : BreakerEntry) (cs : List Call)
    → cooldown * 2 < u64_modulus
    → IsMap b.unhealthy
    → lookup id b.unhealthy ≡ some e
    → now.cutoff < e.marked_at + cooldown * 2 * nanos
    → (check_health cooldown now id b).0 ≡ ok tt
    → All (Spares cooldown id e.marked_at) cs
    → admissions cooldown id cs (check_health cooldown now id b).1 ≡ 0
probe_is_single cooldown now id b e cs small m found young passed h =
    probing_admits_none cooldown id cs (check_health cooldown now id b).1
      (record e { probing = true }) small (unfold step in step-IsMap cooldown (checks now id) b m)
      (check_health-probe cooldown now id b e small m found young passed) refl h
