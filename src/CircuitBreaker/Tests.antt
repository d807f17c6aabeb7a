-- ===== src/CircuitBreaker/Tests.antt =====
-- Checks of the circuit breaker at concrete readings.
use text.Mathlib.TextEquality.{eq_iff}
use ai_agent_sandbox_bluepri.Base.{
  ℕ, ◌*◌, ◌≡◌, ◌≢◌, refl, String, string_eq, false, true, none, List, [], ◌∷◌, ok, err,
  circuit_breaker, Reads, nanos, arith,
}
use ai_agent_sandbox_bluepri.Base.Map.{lookup, update}
use ai_agent_sandbox_bluepri.CircuitBreaker.{
  Breaker, BreakerEntry, check_health, query_status, mark_unhealthy, sweep,
}
use ai_agent_sandbox_bluepri.CircuitBreaker.Status.{
  verdict_of, check_health-query_status, mark_unhealthy-blocks,
}
use ai_agent_sandbox_bluepri.CircuitBreaker.Probe.{
  Call, checks, marks_healthy, admissions, probe_is_single,
}
use ai_agent_sandbox_bluepri.CircuitBreaker.Sweep.{sweep_admits_second_probe}

-- All the readings of one check.
abbrev at_secs : ℕ → Reads
at_secs n = record { gc = n * nanos; cutoff = n * nanos; reset = n * nanos; entry = n * nanos }

abbrev fresh : Breaker
fresh = record { unhealthy = []; last_gc = 0 }

-- Marked at second 10.
abbrev failed : Breaker
failed = record {
  unhealthy = ("sb-1", record { marked_at = 10 * nanos; probing = false }) ∷ [];
  last_gc = 0;
}

abbrev entry_1 : BreakerEntry
entry_1 = record { marked_at = 10 * nanos; probing = false }

abbrev probing_1 : BreakerEntry
probing_1 = record { marked_at = 10 * nanos; probing = true }

abbrev probed : Breaker
probed = record { unhealthy = ("sb-1", probing_1) ∷ []; last_gc = 0 }

refused_early : (check_health 30 (at_secs 20) "sb-1" failed).0 ≡ err (circuit_breaker 20 false)
unfolding check_health lookup sweep
refused_early = refl

probes_once : (check_health 30 (at_secs 40) "sb-1" failed).1 ≡ probed
unfolding check_health lookup sweep update
probes_once = refl

check_health-query_status_example :
    (check_health 30 (at_secs 20) "sb-1" failed).0
    ≡ verdict_of (query_status 30 (20 * nanos) "sb-1" (sweep 30 (at_secs 20) failed))
check_health-query_status_example = check_health-query_status 30 (at_secs 20) "sb-1" failed

mark_unhealthy-blocks_example :
    (check_health 30 (at_secs 20) "sb-1" (mark_unhealthy (10 * nanos) "sb-1" fresh)).0
    ≡ err (circuit_breaker 20 false)
mark_unhealthy-blocks_example =
    mark_unhealthy-blocks 30 (10 * nanos) (at_secs 20) "sb-1" fresh (omega arith) tt
      (record {
        since-gc = omega arith;
        gc-cutoff = omega arith;
        cutoff-reset = omega arith;
        reset-entry = omega arith;
      })
      (omega arith)

abbrev sb_2 : String
sb_2 = "sb-2"

other : sb_2 ≢ "sb-1"
other = ground (arith, eq_iff "sb-2" "sb-1")

-- Two more checks of the sandbox, and a report on another one between them.
abbrev later_calls : List Call
later_calls = checks (at_secs 41) "sb-1" ∷ marks_healthy sb_2 ∷ checks (at_secs 60) "sb-1" ∷ []

probe_is_single_example :
    admissions 30 "sb-1" later_calls (check_health 30 (at_secs 40) "sb-1" failed).1 ≡ 0
unfolding lookup check_health sweep
probe_is_single_example =
    probe_is_single 30 (at_secs 40) "sb-1" failed entry_1 later_calls (omega arith) (refl, tt) refl
      (omega arith) refl ((omega arith, omega arith), (other, ((omega arith, omega arith), tt)))

sweep_admits_second_probe_example :
    ((check_health 30 (at_secs 130) "sb-1" probed).0 ≡ ok tt)
    × (lookup "sb-1" (check_health 30 (at_secs 130) "sb-1" probed).1.unhealthy ≡ none)
unfolding lookup
sweep_admits_second_probe_example =
    sweep_admits_second_probe 30 (at_secs 130) "sb-1" probed probing_1 (omega arith) (refl, tt) refl
      refl (omega arith) (omega arith)
