-- ===== src/Admission/Tests.antt =====
-- Admissions on a host with one running sandbox.
use ai_agent_sandbox_bluepri.Base.{
  ℕ, ◌+◌, ◌<◌, ◌≤◌, ◌≡◌, inl, refl, string_eq, String, none, [], ◌∷◌, ok, err, unavailable,
  if◌then◌else◌, eqb, ltb, arith, saturating_add, false,
}
use ai_agent_sandbox_bluepri.Base.Map.{Map, insert}
use ai_agent_sandbox_bluepri.Sandbox.{SandboxRecord, CreateSandboxParams}
use ai_agent_sandbox_bluepri.Sandbox.Samples.{docker_record, config}
use ai_agent_sandbox_bluepri.Admission.{
  Host, check_host_memory_budget, check_host_cpu_budget, enforce_resource_max,
  admit_sandbox_resources, enforce_store_admission, scanned, memory_admission, cpu_admission,
  reserved_and_checked, scan_records_for_admission, scan_loop, scan_one, check_sandbox_count_limit,
  adjusted_sandbox_count_for_limit, live_memory, live_cpu, accounted_memory_mb, accounted_cpu_cores,
}
use ai_agent_sandbox_bluepri.Admission.Budget.{
  check_host_memory_budget-exact, check_host_cpu_budget-exact, enforce_resource_max-clamps,
}
use ai_agent_sandbox_bluepri.Admission.Keeps.{IsWithin, admit_sandbox_resources-IsWithin}

check_host_memory_budget-exact_example :
    check_host_memory_budget (1024 ∷ 2048 ∷ []) 1024 2048 4096 0
    ≡ (if eqb 4096 0 then ok tt else if ltb 4096 (3072 + 1024 + 0) then err unavailable else ok tt)
unfolding accounted_memory_mb
check_host_memory_budget-exact_example =
    check_host_memory_budget-exact (1024 ∷ 2048 ∷ []) 1024 2048 4096 0 (omega arith)

check_host_cpu_budget-exact_example :
    check_host_cpu_budget (2 ∷ 4 ∷ []) 4 4 8
    ≡ (if eqb 8 0 then ok tt else if ltb 8 (6 + 4) then err unavailable else ok tt)
unfolding accounted_cpu_cores
check_host_cpu_budget-exact_example = check_host_cpu_budget-exact (2 ∷ 4 ∷ []) 4 4 8 (omega arith)

abbrev cap : ℕ
cap = 2048

enforce_resource_max-clamps_example :
    (0 < 2048) × (2048 ≤ 2048) × (cap ≡ (if eqb 0 0 then 2048 else 0))
unfolding enforce_resource_max
enforce_resource_max-clamps_example = enforce_resource_max-clamps 0 2048 2048 refl (omega arith)

abbrev store : Map String SandboxRecord
store = ("sb-1", docker_record) ∷ []

abbrev host : Host
host = record {
  records = ok (docker_record ∷ []);
  firecracker_reserved_mb = ok 512;
  docker_reserved_mb = ok 512;
}

abbrev request : CreateSandboxParams
request = record {
  metadata_json = "";
  cpu_cores = 4;
  memory_mb = 2048;
  disk_gb = 10;
  tee_required = false;
}

abbrev created : SandboxRecord
created = record docker_record { id = "sb-2"; cpu_cores = 4; memory_mb = 2048 }

-- 1024 MB run, 2048 MB are asked for and 1024 MB reserved: the budget of 4096 MB is just enough.
request_admitted : admit_sandbox_resources config host request none ≡ ok request
unfolding admit_sandbox_resources enforce_resource_max enforce_store_admission scanned
    memory_admission cpu_admission reserved_and_checked scan_records_for_admission scan_loop
    scan_one check_host_memory_budget check_host_cpu_budget live_memory live_cpu accounted_memory_mb
    accounted_cpu_cores check_sandbox_count_limit adjusted_sandbox_count_for_limit
request_admitted = refl

admit_sandbox_resources-IsWithin_example :
    IsWithin config (saturating_add 512 512) (insert created.id created store)
admit_sandbox_resources-IsWithin_example =
    admit_sandbox_resources-IsWithin config host request request none store 512 512 created
      (record { memory_budget_fits = omega arith; cpu_budget_fits = omega arith }) (refl, tt)
      (inl refl) refl refl refl request_admitted (refl, refl)
