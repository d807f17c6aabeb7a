-- ===== src/Sandbox/Tests.antt =====
-- Runs of the choice of the backend and of the timeouts.
use ai_agent_sandbox_bluepri.Base.{◌≡◌, [], ◌∷◌, refl, some, none, ok, true}
use ai_agent_sandbox_bluepri.Sandbox.Backend.{
  parse-runtime_backend_name, resolve_runtime_backend-tee,
}
use ai_agent_sandbox_bluepri.Base.Text.{codes, trim, trim_start, equal_codes}
use ai_agent_sandbox_bluepri.Sandbox.{
  firecracker, tee, is_firecracker, CreateSandboxParams, runtime_backend_name,
  resolve_runtime_backend, parse_runtime_backend_from_metadata, parse_runtime_backend_from_env,
  or_env, parse_runtime_backend_value, effective_idle_timeout,
}
use ai_agent_sandbox_bluepri.Sandbox.Samples.{config}

reads_microvm : parse_runtime_backend_value " MicroVM " ≡ some firecracker
unfolding parse_runtime_backend_value trim trim_start equal_codes
reads_microvm = refl

idle_timeout_capped : effective_idle_timeout config 9999 ≡ 7200
unfolding effective_idle_timeout
idle_timeout_capped = refl

abbrev request : CreateSandboxParams
request = record {
  metadata_json = "";
  cpu_cores = 1;
  memory_mb = 1;
  disk_gb = 1;
  tee_required = true;
}

parse-runtime_backend_name_example : parse_runtime_backend_value " FireCracker\t" ≡ some firecracker
unfolding runtime_backend_name
parse-runtime_backend_name_example =
    parse-runtime_backend_name firecracker " FireCracker\t" (32 ∷ []) (codes "FireCracker") (9 ∷ [])
      refl (refl, tt) (refl, tt) refl

resolve_runtime_backend-tee_example : tee ≡ tee
unfolding resolve_runtime_backend parse_runtime_backend_from_metadata or_env
    parse_runtime_backend_from_env is_firecracker
resolve_runtime_backend-tee_example =
    resolve_runtime_backend-tee (λ metadata. ok none) none request tee refl refl
