-- ===== src/Sandbox/Samples.antt =====
-- A concrete record and configuration, for the tests.
use ai_agent_sandbox_bluepri.Base.{true, none, some, []}
use ai_agent_sandbox_bluepri.Sandbox.{running, SandboxRecord, SidecarRuntimeConfig}

-- A Docker sandbox created at second 100, with 2 cores and 1024 MB.
abbrev pub docker_record : SandboxRecord
docker_record = record {
  id = "sb-1";
  container_id = "c-1";
  sidecar_url = "http://127.0.0.1:3000";
  sidecar_port = 3000;
  ssh_port = none;
  token = "t";
  created_at = 100;
  cpu_cores = 2;
  memory_mb = 1024;
  state = running;
  idle_timeout_seconds = 600;
  max_lifetime_seconds = 3600;
  last_activity_at = 0;
  stopped_at = none;
  snapshot_image_id = none;
  snapshot_s3_url = none;
  container_removed_at = none;
  image_removed_at = none;
  original_image = "sidecar";
  base_env_json = "{}";
  user_env_json = "{}";
  snapshot_destination = none;
  tee_deployment_id = none;
  tee_metadata_json = none;
  tee_attestation_json = none;
  name = "one";
  agent_identifier = "";
  metadata_json = "";
  disk_gb = 10;
  stack = "";
  owner = "0xAb";
  service_id = none;
  tee_config = none;
  extra_ports = [];
  ssh_login_user = none;
  ssh_authorized_keys = [];
  capabilities_json = "";
}

-- Four sandboxes at most, 4096 MB and 8 cores on the host, and an operator's prefix.
abbrev pub config : SidecarRuntimeConfig
config = record {
  sandbox_default_idle_timeout = 1800;
  sandbox_default_max_lifetime = 86400;
  sandbox_max_idle_timeout = 7200;
  sandbox_max_max_lifetime = 172800;
  sandbox_gc_hot_retention = 100;
  sandbox_gc_warm_retention = 200;
  sandbox_gc_cold_retention = 300;
  snapshot_auto_commit = true;
  snapshot_destination_prefix = some "s3://op/";
  sandbox_max_count = 4;
  sandbox_max_cpu_cores = 4;
  sandbox_max_memory_mb = 2048;
  sandbox_max_disk_gb = 100;
  sandbox_host_memory_budget_mb = 4096;
  sandbox_host_cpu_budget = 8;
}
