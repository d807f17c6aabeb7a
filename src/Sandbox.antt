-- ===== src/Sandbox.antt =====
-- The records and the configuration of sandbox-runtime/src/runtime/mod.rs, and the choice of the
-- backend of runtime/backend.rs.
mod Backend
pub mod Samples
mod Tests
use ai_agent_sandbox_bluepri.Base.{
  ℕ, String, Bool, true, false, ◌||◌, Option, none, some, List, Result, ok, err, validation, ◌>>=◌,
  if◌then◌else◌, is_some, is_none, ◌&&◌, not, min, eqb,
}
use ai_agent_sandbox_bluepri.Base.Map.{Map}
use ai_agent_sandbox_bluepri.Base.Text.{codes, trim, to_ascii_lowercase, equal_codes}

pub data SandboxState : Type 0 where
  running stopped : SandboxState

pub record SshAuthorizedKey : Type 0 where
  pub username : String
  pub public_key : String

-- `tee_config` is kept as its serialized text.
pub record SandboxRecord : Type 0 where
  pub id : String
  pub container_id : String
  pub sidecar_url : String
  pub sidecar_port : ℕ
  pub ssh_port : Option ℕ
  pub token : String
  pub created_at : ℕ
  pub cpu_cores : ℕ
  pub memory_mb : ℕ
  pub state : SandboxState
  pub idle_timeout_seconds : ℕ
  pub max_lifetime_seconds : ℕ
  pub last_activity_at : ℕ
  pub stopped_at : Option ℕ
  pub snapshot_image_id : Option String
  pub snapshot_s3_url : Option String
  pub container_removed_at : Option ℕ
  pub image_removed_at : Option ℕ
  pub original_image : String
  pub base_env_json : String
  pub user_env_json : String
  pub snapshot_destination : Option String
  pub tee_deployment_id : Option String
  pub tee_metadata_json : Option String
  pub tee_attestation_json : Option String
  pub name : String
  pub agent_identifier : String
  pub metadata_json : String
  pub disk_gb : ℕ
  pub stack : String
  pub owner : String
  pub service_id : Option ℕ
  pub tee_config : Option String
  pub extra_ports : Map ℕ ℕ
  pub ssh_login_user : Option String
  pub ssh_authorized_keys : List SshAuthorizedKey
  pub capabilities_json : String

-- The fields of `SidecarRuntimeConfig` that the modelled parts read.
pub record SidecarRuntimeConfig : Type 0 where
  pub sandbox_default_idle_timeout : ℕ
  pub sandbox_default_max_lifetime : ℕ
  pub sandbox_max_idle_timeout : ℕ
  pub sandbox_max_max_lifetime : ℕ
  pub sandbox_gc_hot_retention : ℕ
  pub sandbox_gc_warm_retention : ℕ
  pub sandbox_gc_cold_retention : ℕ
  pub snapshot_auto_commit : Bool
  pub snapshot_destination_prefix : Option String
  pub sandbox_max_count : ℕ
  pub sandbox_max_cpu_cores : ℕ
  pub sandbox_max_memory_mb : ℕ
  pub sandbox_max_disk_gb : ℕ
  pub sandbox_host_memory_budget_mb : ℕ
  pub sandbox_host_cpu_budget : ℕ

unfoldable pub effective_idle_timeout : SidecarRuntimeConfig → ℕ → ℕ
effective_idle_timeout c requested =
    min (if eqb requested 0 then c.sandbox_default_idle_timeout else requested)
      c.sandbox_max_idle_timeout

unfoldable pub effective_max_lifetime : SidecarRuntimeConfig → ℕ → ℕ
effective_max_lifetime c requested =
    min (if eqb requested 0 then c.sandbox_default_max_lifetime else requested)
      c.sandbox_max_max_lifetime

-- The fields of `CreateSandboxParams` that the modelled parts read.
pub record CreateSandboxParams : Type 0 where
  pub metadata_json : String
  pub cpu_cores : ℕ
  pub memory_mb : ℕ
  pub disk_gb : ℕ
  pub tee_required : Bool

pub data RuntimeBackend : Type 0 where
  docker firecracker tee : RuntimeBackend

unfoldable pub is_firecracker : RuntimeBackend → Bool
is_firecracker firecracker = true
is_firecracker _ = false

abbrev names : List ℕ → String → Bool
names value name = equal_codes value (codes name)

unfoldable pub parse_runtime_backend_value : String → Option RuntimeBackend
unfolding trim equal_codes
parse_runtime_backend_value raw =
    let value = to_ascii_lowercase (trim (codes raw)) in
    if names value "docker" || names value "container"
    then some docker
    else if names value "firecracker" || names value "microvm"
    then some firecracker
    else if names value "tee" || (names value "confidential" || names value "confidential-vm")
    then some tee
    else none

-- The value of SANDBOX_RUNTIME_BACKEND, if it is set.
parse_runtime_backend_from_env : Option String → Result RuntimeBackend
parse_runtime_backend_from_env none = ok docker
parse_runtime_backend_from_env (some raw) = elim (parse_runtime_backend_value raw) [
  | none ↦ err validation
  | some b ↦ ok b
]

or_env : Option String → Option RuntimeBackend → Result RuntimeBackend
unfolding parse_runtime_backend_from_env
or_env env none = parse_runtime_backend_from_env env
or_env env (some b) = ok b

-- `read_backend` is the reading of the metadata by the JSON library: an error where the text is no
-- JSON object, else the string at `runtime_backend`, or at `runtime.backend`, if there is one.
module _ (read_backend : String → Result (Option String)) where
  parse_name : Option String → Result (Option RuntimeBackend)
  parse_name none = ok none
  parse_name (some raw) = elim (parse_runtime_backend_value raw) [
    | none ↦ err validation
    | some b ↦ ok (some b)
  ]

  unfoldable pub parse_runtime_backend_from_metadata : String → Result (Option RuntimeBackend)
  unfolding parse_name
  parse_runtime_backend_from_metadata json = read_backend json >>= parse_name

  -- What the metadata of a stored record selects; an error selects Docker.
  selected : Result (Option RuntimeBackend) → RuntimeBackend
  selected (err e) = docker
  selected (ok none) = docker
  selected (ok (some b)) = b

  unfoldable pub runtime_backend_for_record : SandboxRecord → RuntimeBackend
  unfolding selected
  runtime_backend_for_record r =
      if is_some r.tee_deployment_id
      then tee
      else selected (parse_runtime_backend_from_metadata r.metadata_json)

  unfoldable pub record_uses_firecracker : SandboxRecord → Bool
  unfolding runtime_backend_for_record is_firecracker
  record_uses_firecracker r = is_firecracker (runtime_backend_for_record r)

  unfoldable pub supports_docker_endpoint_refresh : SandboxRecord → Bool
  supports_docker_endpoint_refresh r =
      is_none r.tee_deployment_id && not (record_uses_firecracker r)

  unfoldable pub resolve_runtime_backend :
      Option String → CreateSandboxParams → Result RuntimeBackend
  unfolding or_env is_firecracker
  resolve_runtime_backend env request = do
    metadata_backend ← parse_runtime_backend_from_metadata request.metadata_json
    backend ← or_env env metadata_backend
    if request.tee_required
        then (if is_firecracker backend then err validation else ok tee)
        else ok backend

unfoldable pub runtime_backend_name : RuntimeBackend → String
runtime_backend_name docker = "docker"
runtime_backend_name firecracker = "firecracker"
runtime_backend_name tee = "tee"
