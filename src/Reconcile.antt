-- ===== src/Reconcile.antt =====
-- The loop of sandbox-runtime/src/reaper/reconcile.rs: at the start of the operator, the records are
-- brought in line with the VMs and the containers.
mod Fate
mod Loop
mod Agrees
mod Tests
use ai_agent_sandbox_bluepri.Base.{
  ℕ, String, string_eq, Bool, true, false, ◌||◌, not, Option, none, some, List, Result, ok, err,
  if◌then◌else◌, is_some, is_none,
}
use ai_agent_sandbox_bluepri.Base.Map.{Map}
use ai_agent_sandbox_bluepri.Sandbox.{
  SandboxState, running, stopped, SandboxRecord, record_uses_firecracker,
  supports_docker_endpoint_refresh,
}
use ai_agent_sandbox_bluepri.Lifecycle.{
  World, Outside, is_stopped, change, forget, mark_stopped, for_each,
}

pub data FirecrackerContainerStatus : Type 0 where
  missing vm_running vm_stopped : FirecrackerContainerStatus

-- The endpoint that Docker tells of a container.
pub record Endpoint : Type 0 where
  pub sidecar_url : String
  pub sidecar_port : ℕ
  pub ssh_port : Option ℕ
  pub extra_ports : Map ℕ ℕ

-- What the hypervisor and Docker tell of an id: the status of a VM, whether a container runs (none
-- where its state is not given), and its endpoint.
pub record Inspection : Type 0 where
  pub vm_status : String → Result FirecrackerContainerStatus
  pub container_running : String → Result (Option Bool)
  pub endpoint : String → Result Endpoint

unfoldable pub has_snapshot : SandboxRecord → Bool
has_snapshot r = is_some r.snapshot_image_id || is_some r.snapshot_s3_url

abbrev pub or_now : ℕ → Option ℕ → Option ℕ
or_now now none = some now
or_now now (some t) = some t

abbrev pub mark_gone : ℕ → SandboxRecord → SandboxRecord
mark_gone now r = record r {
  state = stopped;
  stopped_at = or_now now r.stopped_at;
  container_removed_at = or_now now r.container_removed_at;
}

abbrev pub mark_running : SandboxRecord → SandboxRecord
mark_running r = record r { state = running; stopped_at = none }

abbrev pub set_endpoint : Endpoint → SandboxRecord → SandboxRecord
set_endpoint e r = record r {
  sidecar_url = e.sidecar_url;
  sidecar_port = e.sidecar_port;
  ssh_port = e.ssh_port;
  extra_ports = e.extra_ports;
}

-- A sandbox whose VM or container is gone stays while it has a snapshot.
unfoldable pub gone : Outside → ℕ → SandboxRecord → World → World
gone o now r w = if has_snapshot r then change o r.id (mark_gone now) w else forget o r.id w

unfoldable pub runs : Outside → SandboxRecord → World → World
runs o r w = if is_stopped r.state then change o r.id mark_running w else w

unfoldable pub stands : Outside → ℕ → SandboxRecord → World → World
stands o now r w = if is_stopped r.state then w else change o r.id (mark_stopped now) w

abbrev pub reconcile_vm :
    Outside → ℕ → SandboxRecord → Result FirecrackerContainerStatus → World → World
reconcile_vm o now r (ok missing) w = gone o now r w
reconcile_vm o now r (ok vm_running) w = runs o r w
reconcile_vm o now r (ok vm_stopped) w = stands o now r w
reconcile_vm o now r (err e) w = w

abbrev pub refreshed : Outside → SandboxRecord → Result Endpoint → World → World
refreshed o r (ok e) w = change o r.id (set_endpoint e) w
refreshed o r (err e) w = w

unfoldable pub refresh : Outside → Inspection → SandboxRecord → World → World
refresh o i r w =
    if supports_docker_endpoint_refresh o.read_backend r
    then refreshed o r (i.endpoint r.container_id) w
    else w

abbrev pub reconcile_container :
    Outside → Inspection → ℕ → SandboxRecord → Result (Option Bool) → World → World
reconcile_container o i now r (err e) w = gone o now r w
reconcile_container o i now r (ok (some true)) w = runs o r (refresh o i r w)
reconcile_container o i now r (ok (some false)) w = stands o now r w
reconcile_container o i now r (ok none) w = stands o now r w

-- The body of the loop over the records that were read.
unfoldable pub reconcile_record : Outside → Inspection → ℕ → SandboxRecord → World → World
reconcile_record o i now r w =
    if is_some r.tee_deployment_id
    then w
    else if record_uses_firecracker o.read_backend r
    then reconcile_vm o now r (i.vm_status r.container_id) w
    else reconcile_container o i now r (i.container_running r.container_id) w

unfoldable pub reconcile_loop :
    Outside → Inspection → ℕ → Result (List SandboxRecord) → World → World
reconcile_loop o i now (err e) w = w
reconcile_loop o i now (ok records) w = for_each (reconcile_record o i now) records w
