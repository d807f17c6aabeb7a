-- ===== src/Admission/Budget.antt =====
-- The budgets: what the saturating sums of the code decide.
use ai_agent_sandbox_bluepri.Base.{
  ℕ, ◌+◌, ◌-◌, ◌<◌, ◌≤◌, ◌≡◌, List, [], ◌∷◌, ok, err, unavailable, if◌then◌else◌, ltb, eqb,
  saturating_add, u64_modulus, arith,
}
use ai_agent_sandbox_bluepri.Admission.{
  accounted_memory_mb, accounted_cpu_cores, or_zero, live_memory, live_cpu,
  check_host_memory_budget, check_host_cpu_budget, enforce_resource_max,
}

-- The exact sum of what each entry costs.
abbrev pub total : (ℕ → ℕ) → List ℕ → ℕ
total cost [] = 0
total cost (n ∷ ns) = cost n + total cost ns

abbrev pub memory_cost : ℕ → ℕ → ℕ
memory_cost max mb = or_zero (accounted_memory_mb mb max)

abbrev pub cpu_cost : ℕ → ℕ → ℕ
cpu_cost max cores = or_zero (accounted_cpu_cores cores max)

live_memory-total :
    (max : ℕ) (ms : List ℕ) (live : ℕ)
    → live < u64_modulus
    → live_memory max ms live ≡ saturating_add live (total (memory_cost max) ms)
unfolding live_memory
live_memory-total max [] live h = omega arith
live_memory-total max (m ∷ ms) live h = ground (
  arith,
  live_memory-total max ms live h,
  live_memory-total max ms (saturating_add live (memory_cost max m)) (omega arith),
)

live_cpu-total :
    (max : ℕ) (cs : List ℕ) (live : ℕ)
    → live < u64_modulus
    → live_cpu max cs live ≡ saturating_add live (total (cpu_cost max) cs)
unfolding live_cpu
live_cpu-total max [] live h = omega arith
live_cpu-total max (c ∷ cs) live h = ground (
  arith,
  live_cpu-total max cs live h,
  live_cpu-total max cs (saturating_add live (cpu_cost max c)) (omega arith),
)

-- The memory check refuses exactly when the exact sum of the accounted memory of the running
-- sandboxes, of the request and of the reservation exceeds the budget: the sums that stop at the
-- largest u64 lose nothing, unless the budget itself is that number. A budget of 0 admits all.
pub check_host_memory_budget-exact :
    (running_mb : List ℕ) (incoming max budget reserved : ℕ)
    → budget < u64_modulus - 1
    → check_host_memory_budget running_mb incoming max budget reserved ≡ (
        if eqb budget 0
        then ok tt
        else if ltb budget
            (total (memory_cost max) running_mb + memory_cost max incoming + reserved)
        then err unavailable
        else ok tt)
unfolding check_host_memory_budget
check_host_memory_budget-exact running_mb incoming max budget reserved h =
    rw (live_memory-total max running_mb 0 (omega arith)) (ground arith)

-- The CPU check refuses exactly when the exact sum of the accounted cores of the running sandboxes
-- and of the request exceeds the budget, unless the budget is the largest u64. A budget of 0 admits
-- all.
pub check_host_cpu_budget-exact :
    (running_cores : List ℕ) (incoming max budget : ℕ)
    → budget < u64_modulus - 1
    → check_host_cpu_budget running_cores incoming max budget ≡ (
        if eqb budget 0
        then ok tt
        else if ltb budget (total (cpu_cost max) running_cores + cpu_cost max incoming)
        then err unavailable
        else ok tt)
unfolding check_host_cpu_budget
check_host_cpu_budget-exact running_cores incoming max budget h =
    rw (live_cpu-total max running_cores 0 (omega arith)) (ground arith)

-- Under a cap that is not 0, an admitted resource value is within the cap and is not 0; it is the
-- requested one, or the cap where 0 was requested.
pub enforce_resource_max-clamps :
    (requested max granted : ℕ)
    → enforce_resource_max requested max ≡ ok granted
    → 0 < max
    → (0 < granted) × (granted ≤ max) × (granted ≡ (if eqb requested 0 then max else requested))
unfolding enforce_resource_max
enforce_resource_max-clamps requested max granted h pos = ground arith
