-- ===== src/Admission/Create.antt =====
-- The checks of an admission that answer ok.
use ai_agent_sandbox_bluepri.Base.{
  ℕ, ◌+◌, ◌-◌, ◌<◌, ◌≤◌, ◌≡◌, refl, String, string_eq, Bool, false, Option, List, [], Result, ok,
  err, if◌then◌else◌, saturating_add, u64_modulus, arith, length, ◌>>◌,
}
use ai_agent_sandbox_bluepri.Sandbox.{SandboxRecord, SidecarRuntimeConfig}
use ai_agent_sandbox_bluepri.Admission.{
  AdmissionScan, Host, scan_loop, check_sandbox_count_limit, scanned, memory_admission,
  cpu_admission,
}
use ai_agent_sandbox_bluepri.Admission.Budget.{
  total, memory_cost, cpu_cost, check_host_memory_budget-exact, check_host_cpu_budget-exact,
}
use ai_agent_sandbox_bluepri.Admission.Scan.{scan_loop-lem, IsAdmitted}

-- The two budgets are below the number at which the sums of the code stop.
pub record IsConfig (config : SidecarRuntimeConfig) : Type 0 where
  pub memory_budget_fits : config.sandbox_host_memory_budget_mb < u64_modulus - 1
  pub cpu_budget_fits : config.sandbox_host_cpu_budget < u64_modulus - 1

abbrev pub start : List SandboxRecord → AdmissionScan
start rs = record {
  total_count = length rs;
  reusing_existing_slot = false;
  running_memory_mb = [];
  running_cpu_cores = [];
}

memory_admission-ok :
    (config : SidecarRuntimeConfig) (host : Host) (scan : AdmissionScan) (memory_mb f d : ℕ)
    → config.sandbox_host_memory_budget_mb < u64_modulus - 1
    → host.firecracker_reserved_mb ≡ ok f
    → host.docker_reserved_mb ≡ ok d
    → memory_admission config host scan memory_mb ≡ ok tt
    → 0 < config.sandbox_host_memory_budget_mb
    → total (memory_cost config.sandbox_max_memory_mb) scan.running_memory_mb
        + memory_cost config.sandbox_max_memory_mb memory_mb
        + saturating_add f d
      ≤ config.sandbox_host_memory_budget_mb
unfolding memory_admission
memory_admission-ok config host scan memory_mb f d fits hf hd h pos = ground (
  arith,
  check_host_memory_budget-exact scan.running_memory_mb memory_mb config.sandbox_max_memory_mb
      config.sandbox_host_memory_budget_mb (saturating_add f d) fits,
)

cpu_admission-ok :
    (config : SidecarRuntimeConfig) (scan : AdmissionScan) (cpu_cores : ℕ)
    → config.sandbox_host_cpu_budget < u64_modulus - 1
    → cpu_admission config scan cpu_cores ≡ ok tt
    → 0 < config.sandbox_host_cpu_budget
    → total (cpu_cost config.sandbox_max_cpu_cores) scan.running_cpu_cores
        + cpu_cost config.sandbox_max_cpu_cores cpu_cores
      ≤ config.sandbox_host_cpu_budget
unfolding cpu_admission
cpu_admission-ok config scan cpu_cores fits h pos = ground (
  arith,
  check_host_cpu_budget-exact scan.running_cpu_cores cpu_cores config.sandbox_max_cpu_cores
      config.sandbox_host_cpu_budget fits,
)

count-ok :
    (current max : ℕ) (reusing : Bool)
    → check_sandbox_count_limit current reusing max ≡ ok tt
    → 0 < max
    → (if reusing then current - 1 else current) < max
unfolding check_sandbox_count_limit
count-ok current max reusing h pos = ground arith

>>-ok : (a b : Result (Unit {0})) → (a >> b) ≡ ok tt → (a ≡ ok tt) × (b ≡ ok tt)
>>-ok (ok tt) b h = (refl, h)
>>-ok (err e) b h = cc

pub scanned-IsAdmitted :
    (config : SidecarRuntimeConfig) (host : Host) (memory_mb cpu_cores f d : ℕ)
    (reused : Option String) (rs : List SandboxRecord)
    → IsConfig config
    → host.firecracker_reserved_mb ≡ ok f
    → host.docker_reserved_mb ≡ ok d
    → scanned config host memory_mb cpu_cores (scan_loop reused rs (start rs)) ≡ ok tt
    → IsAdmitted config (saturating_add f d) memory_mb cpu_cores reused rs
unfolding scanned
scanned-IsAdmitted config host memory_mb cpu_cores f d reused rs c hf hd h =
    let (mem, cpu, flag, n) =
      scan_loop-lem config.sandbox_max_memory_mb config.sandbox_max_cpu_cores reused rs
        (start rs) in
    let end = scan_loop reused rs (start rs) in
    let (m, h') = >>-ok (memory_admission config host end memory_mb) _ h in
    let (p, q) = >>-ok (cpu_admission config end cpu_cores) _ h' in
    record {
      memory_fits = λ pos. omega (
        arith,
        mem,
        memory_admission-ok config host end memory_mb f d c.memory_budget_fits hf hd m pos,
      );
      cpu_fits =
          λ pos. omega (arith, cpu, cpu_admission-ok config end cpu_cores c.cpu_budget_fits p pos);
      count_fits = λ pos.
          rw (flag, n) at
            (count-ok end.total_count config.sandbox_max_count end.reusing_existing_slot q pos);
    }
