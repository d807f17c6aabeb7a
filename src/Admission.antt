-- ===== src/Admission.antt =====
-- sandbox-runtime/src/runtime/admission.rs: the limits that a new sandbox must meet.
mod Budget
mod Scan
mod Create
mod Keeps
mod Tests
use ai_agent_sandbox_bluepri.Base.{
  ℕ, ◌-◌, ◌<◌, String, string_eq, Bool, true, false, ◌||◌, ◌&&◌, not, Option, none, some, List, [],
  ◌∷◌, ◌++◌, Result, ok, err, unavailable, ◌>>=◌, ◌>>◌, if◌then◌else◌, ltb, leb, eqb, length,
  saturating_add, Eq, ◌==◌, suc,
}
use ai_agent_sandbox_bluepri.Base.Map.{Map, lookup, insert, remove}
use ai_agent_sandbox_bluepri.Sandbox.{
  SandboxState, running, stopped, SandboxRecord, SidecarRuntimeConfig, CreateSandboxParams,
}

unfoldable pub adjusted_sandbox_count_for_limit : ℕ → Bool → ℕ
adjusted_sandbox_count_for_limit current reusing_existing_slot =
    if reusing_existing_slot then current - 1 else current

unfoldable pub check_sandbox_count_limit : ℕ → Bool → ℕ → Result (Unit {0})
unfolding adjusted_sandbox_count_for_limit
check_sandbox_count_limit current reusing_existing_slot max =
    if eqb max 0
    then ok tt
    else if leb max (adjusted_sandbox_count_for_limit current reusing_existing_slot)
    then err unavailable
    else ok tt

pub record AdmissionScan : Type 0 where
  pub total_count : ℕ
  pub reusing_existing_slot : Bool
  pub running_memory_mb : List ℕ
  pub running_cpu_cores : List ℕ

abbrev pub is_reused : Option String → String → Bool
is_reused none id = false
is_reused (some reused) id = reused == id

abbrev pub is_running : SandboxState → Bool
is_running running = true
is_running stopped = false

-- The body of the loop over the records.
unfoldable pub scan_one : Option String → SandboxRecord → AdmissionScan → AdmissionScan
scan_one reused r scan =
    if is_reused reused r.id
    then record scan { reusing_existing_slot = true }
    else if is_running r.state
    then record scan {
      running_memory_mb = scan.running_memory_mb ++ r.memory_mb ∷ [];
      running_cpu_cores = scan.running_cpu_cores ++ r.cpu_cores ∷ [];
    }
    else scan

unfoldable pub scan_loop : Option String → List SandboxRecord → AdmissionScan → AdmissionScan
scan_loop reused [] scan = scan
scan_loop reused (r ∷ rs) scan = scan_loop reused rs (scan_one reused r scan)

unfoldable pub scan_records_for_admission : List SandboxRecord → Option String → AdmissionScan
unfolding scan_loop scan_one
scan_records_for_admission records reused = scan_loop reused records (record {
  total_count = length records;
  reusing_existing_slot = false;
  running_memory_mb = [];
  running_cpu_cores = [];
})

unfoldable pub enforce_resource_max : ℕ → ℕ → Result ℕ
enforce_resource_max requested max =
    if eqb max 0
    then ok requested
    else if eqb requested 0
    then ok max
    else if ltb max requested
    then err unavailable
    else ok requested

unfoldable pub accounted_memory_mb : ℕ → ℕ → Option ℕ
accounted_memory_mb memory_mb sandbox_max_memory_mb =
    if ltb 0 memory_mb
    then some memory_mb
    else if ltb 0 sandbox_max_memory_mb
    then some sandbox_max_memory_mb
    else none

unfoldable pub accounted_cpu_cores : ℕ → ℕ → Option ℕ
accounted_cpu_cores cpu_cores sandbox_max_cpu_cores =
    if ltb 0 cpu_cores
    then some cpu_cores
    else if ltb 0 sandbox_max_cpu_cores
    then some sandbox_max_cpu_cores
    else none

-- What an unknowable footprint adds.
abbrev pub or_zero : Option ℕ → ℕ
or_zero none = 0
or_zero (some n) = n

-- The loop that sums the running sandboxes; it stops at the largest u64.
unfoldable pub live_memory : ℕ → List ℕ → ℕ → ℕ
live_memory max [] live = live
live_memory max (m ∷ ms) live =
    live_memory max ms
      (elim (accounted_memory_mb m max) [ none ↦ live | some mb ↦ saturating_add live mb ])

unfoldable pub check_host_memory_budget : List ℕ → ℕ → ℕ → ℕ → ℕ → Result (Unit {0})
check_host_memory_budget running_mb incoming max budget reserved =
    let live = live_memory max running_mb 0 in
    let incoming_mb = or_zero (accounted_memory_mb incoming max) in
    let committed = saturating_add (saturating_add live incoming_mb) reserved in
    if eqb budget 0 then ok tt else if ltb budget committed then err unavailable else ok tt

unfoldable pub live_cpu : ℕ → List ℕ → ℕ → ℕ
live_cpu max [] live = live
live_cpu max (c ∷ cs) live =
    live_cpu max cs
      (elim (accounted_cpu_cores c max) [ none ↦ live | some cores ↦ saturating_add live cores ])

unfoldable pub check_host_cpu_budget : List ℕ → ℕ → ℕ → ℕ → Result (Unit {0})
check_host_cpu_budget running_cores incoming max budget =
    let live = live_cpu max running_cores 0 in
    let committed = saturating_add live (or_zero (accounted_cpu_cores incoming max)) in
    if eqb budget 0 then ok tt else if ltb budget committed then err unavailable else ok tt

-- What `enforce_store_admission` reads: the records of the store, and the memory that the two warm
-- pools reserve; each may fail.
pub record Host : Type 0 where
  pub records : Result (List SandboxRecord)
  pub firecracker_reserved_mb : Result ℕ
  pub docker_reserved_mb : Result ℕ

reserved_and_checked : SidecarRuntimeConfig → Host → AdmissionScan → ℕ → Result (Unit {0})
reserved_and_checked config host scan memory_mb = do
  firecracker_mb ← host.firecracker_reserved_mb
  docker_mb ← host.docker_reserved_mb
  check_host_memory_budget scan.running_memory_mb memory_mb config.sandbox_max_memory_mb
      config.sandbox_host_memory_budget_mb (saturating_add firecracker_mb docker_mb)

memory_admission : SidecarRuntimeConfig → Host → AdmissionScan → ℕ → Result (Unit {0})
unfolding reserved_and_checked
memory_admission config host scan memory_mb =
    if eqb config.sandbox_host_memory_budget_mb 0
    then ok tt
    else reserved_and_checked config host scan memory_mb

cpu_admission : SidecarRuntimeConfig → AdmissionScan → ℕ → Result (Unit {0})
cpu_admission config scan cpu_cores =
    if eqb config.sandbox_host_cpu_budget 0
    then ok tt
    else check_host_cpu_budget scan.running_cpu_cores cpu_cores config.sandbox_max_cpu_cores
        config.sandbox_host_cpu_budget

-- The checks of the scanned store, in the order in which they may refuse.
unfoldable pub scanned : SidecarRuntimeConfig → Host → ℕ → ℕ → AdmissionScan → Result (Unit {0})
unfolding memory_admission cpu_admission
scanned config host memory_mb cpu_cores scan = do
  memory_admission config host scan memory_mb
  cpu_admission config scan cpu_cores
  check_sandbox_count_limit scan.total_count scan.reusing_existing_slot config.sandbox_max_count

unfoldable pub enforce_store_admission :
    SidecarRuntimeConfig → Host → ℕ → ℕ → Option String → Result (Unit {0})
unfolding scanned
enforce_store_admission config host memory_mb cpu_cores reused =
    let limited = host.records >>= λ records.
    scanned config host memory_mb cpu_cores (scan_records_for_admission records reused) in
    if eqb config.sandbox_host_memory_budget_mb 0
      && (eqb config.sandbox_host_cpu_budget 0 && eqb config.sandbox_max_count 0)
    then ok tt
    else limited

unfoldable pub admit_sandbox_resources :
    SidecarRuntimeConfig → Host → CreateSandboxParams → Option String → Result CreateSandboxParams
admit_sandbox_resources config host request sandbox_id_override = do
  cpu_cores ← enforce_resource_max request.cpu_cores config.sandbox_max_cpu_cores
  memory_mb ← enforce_resource_max request.memory_mb config.sandbox_max_memory_mb
  disk_gb ← enforce_resource_max request.disk_gb config.sandbox_max_disk_gb
  let admitted : CreateSandboxParams = record request {
    cpu_cores = cpu_cores;
    memory_mb = memory_mb;
    disk_gb = disk_gb;
  }
  enforce_store_admission config host admitted.memory_mb admitted.cpu_cores sandbox_id_override
  ok admitted

-- `restore_previous_store_entry`, where the store answers.
unfoldable pub restore_previous_store_entry :
    String → Option SandboxRecord → Map String SandboxRecord → Map String SandboxRecord
restore_previous_store_entry id none store = remove id store
restore_previous_store_entry id (some r) store = insert id r store
