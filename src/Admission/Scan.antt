-- ===== src/Admission/Scan.antt =====
-- What the scan of the records sums up, flags and counts.
use ai_agent_sandbox_bluepri.Base.{
  ℕ, ◌+◌, ◌-◌, ◌<◌, ◌≤◌, ◌≡◌, refl, ◌∙◌, String, string_eq, Bool, false, ◌||◌, Option, List, [],
  ◌∷◌, ◌++◌, if◌then◌else◌, arith, length,
}
use ai_agent_sandbox_bluepri.Sandbox.{SandboxRecord, SidecarRuntimeConfig}
use ai_agent_sandbox_bluepri.Admission.{AdmissionScan, is_running, is_reused, scan_one, scan_loop}
use ai_agent_sandbox_bluepri.Admission.Budget.{total, memory_cost, cpu_cost}

-- The exact memory and CPU of the running sandboxes of a store.
abbrev pub running_memory : ℕ → List SandboxRecord → ℕ
running_memory max [] = 0
running_memory max (r ∷ rs) =
    let rest = running_memory max rs in
    if is_running r.state then memory_cost max r.memory_mb + rest else rest

abbrev pub running_cpu : ℕ → List SandboxRecord → ℕ
running_cpu max [] = 0
running_cpu max (r ∷ rs) =
    let rest = running_cpu max rs in
    if is_running r.state then cpu_cost max r.cpu_cores + rest else rest

-- The scan without the slot that is reused.
abbrev pub others : Option String → List SandboxRecord → List SandboxRecord
others reused [] = []
others reused (r ∷ rs) = if is_reused reused r.id then others reused rs else r ∷ others reused rs

total-append :
    (cost : ℕ → ℕ) (xs ys : List ℕ) → total cost (xs ++ ys) ≡ total cost xs + total cost ys
total-append cost [] ys = omega arith
total-append cost (x ∷ xs) ys = omega (arith, total-append cost xs ys)

abbrev pub reused_in : Option String → List SandboxRecord → Bool
reused_in reused [] = false
reused_in reused (r ∷ rs) = is_reused reused r.id || reused_in reused rs

scan_one-memory :
    (max : ℕ) (reused : Option String) (r : SandboxRecord) (rs : List SandboxRecord)
    (scan : AdmissionScan)
    → total (memory_cost max) (scan_one reused r scan).running_memory_mb
        + running_memory max (others reused rs)
      ≡ total (memory_cost max) scan.running_memory_mb + running_memory max (others reused (r ∷ rs))
unfolding scan_one
scan_one-memory max reused r rs scan =
    ground (arith, total-append (memory_cost max) scan.running_memory_mb (r.memory_mb ∷ []))

scan_one-cpu :
    (max : ℕ) (reused : Option String) (r : SandboxRecord) (rs : List SandboxRecord)
    (scan : AdmissionScan)
    → total (cpu_cost max) (scan_one reused r scan).running_cpu_cores
        + running_cpu max (others reused rs)
      ≡ total (cpu_cost max) scan.running_cpu_cores + running_cpu max (others reused (r ∷ rs))
unfolding scan_one
scan_one-cpu max reused r rs scan =
    ground (arith, total-append (cpu_cost max) scan.running_cpu_cores (r.cpu_cores ∷ []))

scan_one-flag :
    (reused : Option String) (r : SandboxRecord) (rest : Bool) (scan : AdmissionScan)
    → ((scan_one reused r scan).reusing_existing_slot || rest)
      ≡ (scan.reusing_existing_slot || (is_reused reused r.id || rest))
unfolding scan_one
scan_one-flag reused r rest scan = ground arith

scan_one-count :
    (reused : Option String) (r : SandboxRecord) (scan : AdmissionScan)
    → (scan_one reused r scan).total_count ≡ scan.total_count
unfolding scan_one
scan_one-count reused r scan = ground arith

-- What the loop has summed, flagged and counted at its end.
pub scan_loop-lem :
    (m c : ℕ) (reused : Option String) (rs : List SandboxRecord) (scan : AdmissionScan)
    → let end = scan_loop reused rs scan in
      (total (memory_cost m) end.running_memory_mb
        ≡ total (memory_cost m) scan.running_memory_mb + running_memory m (others reused rs))
      × (total (cpu_cost c) end.running_cpu_cores
          ≡ total (cpu_cost c) scan.running_cpu_cores + running_cpu c (others reused rs))
      × (end.reusing_existing_slot ≡ (scan.reusing_existing_slot || reused_in reused rs))
      × (end.total_count ≡ scan.total_count)
unfolding scan_loop
scan_loop-lem m c reused [] scan = (omega arith, omega arith, ground arith, refl)
scan_loop-lem m c reused (r ∷ rs) scan =
    let (mem, cpu, flag, n) = scan_loop-lem m c reused rs (scan_one reused r scan) in
    (
      mem ∙ scan_one-memory m reused r rs scan,
      cpu ∙ scan_one-cpu c reused r rs scan,
      flag ∙ scan_one-flag reused r (reused_in reused rs) scan,
      n ∙ scan_one-count reused r scan,
    )

-- What an admission shows of the records that it read.
pub record IsAdmitted (config : SidecarRuntimeConfig) (reserved memory_mb cpu_cores : ℕ)
    (reused : Option String) (rs : List SandboxRecord) : Type 0 where
  pub memory_fits :
      0 < config.sandbox_host_memory_budget_mb
      → running_memory config.sandbox_max_memory_mb (others reused rs)
          + memory_cost config.sandbox_max_memory_mb memory_mb
          + reserved
        ≤ config.sandbox_host_memory_budget_mb
  pub cpu_fits :
      0 < config.sandbox_host_cpu_budget
      → running_cpu config.sandbox_max_cpu_cores (others reused rs)
          + cpu_cost config.sandbox_max_cpu_cores cpu_cores
        ≤ config.sandbox_host_cpu_budget
  pub count_fits :
      0 < config.sandbox_max_count
      → (if reused_in reused rs then length rs - 1 else length rs) < config.sandbox_max_count
