-- ===== src/Lifecycle/Tests.antt =====
-- Runs of the lifecycle.
use ai_agent_sandbox_bluepri.Base.{◌≡◌, refl, string_eq, [], ◌∷◌, ok, err, validation}
use ai_agent_sandbox_bluepri.Base.Map.{update}
use ai_agent_sandbox_bluepri.Sandbox.{
  record_uses_firecracker, runtime_backend_for_record, parse_runtime_backend_from_metadata,
  is_firecracker,
}
use ai_agent_sandbox_bluepri.Sandbox.Samples.{docker_record}
use ai_agent_sandbox_bluepri.Lifecycle.{
  container_stop, is_stopped, stop_sidecar, stop_call, stopping, change, write, called,
  mark_stopped,
}
use ai_agent_sandbox_bluepri.Lifecycle.Samples.{willing, holding}

stops_container : stop_sidecar willing docker_record (holding docker_record) ≡ (
  record {
    store = ("sb-1", mark_stopped 5000 docker_record) ∷ [];
    calls = container_stop "c-1" ∷ [];
  },
  ok tt,
)
unfolding stop_sidecar stopping stop_call is_stopped change write called update
    record_uses_firecracker runtime_backend_for_record parse_runtime_backend_from_metadata
    is_firecracker
stops_container = refl

stops_no_stopped :
    (stop_sidecar willing (mark_stopped 7 docker_record) (holding docker_record)).1 ≡ err validation
unfolding stop_sidecar is_stopped
stops_no_stopped = refl
