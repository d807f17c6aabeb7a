-- ===== src/Reconcile/Tests.antt =====
-- Reconciliations of one sandbox.
use ai_agent_sandbox_bluepri.Base.{◌≡◌, refl, string_eq, false, some, [], ◌∷◌, ok, err, docker}
use ai_agent_sandbox_bluepri.Base.Map.{lookup}
use ai_agent_sandbox_bluepri.Sandbox.{
  stopped, record_uses_firecracker, runtime_backend_for_record, parse_runtime_backend_from_metadata,
  is_firecracker,
}
use ai_agent_sandbox_bluepri.Sandbox.Samples.{docker_record}
use ai_agent_sandbox_bluepri.Lifecycle.Samples.{willing, holding}
use ai_agent_sandbox_bluepri.Lifecycle.Loop.{IsStore}
use ai_agent_sandbox_bluepri.Reconcile.{Inspection, missing, reconcile_loop}
use ai_agent_sandbox_bluepri.Reconcile.Loop.{reconcile_fate, reconcile_loop-fate}
use ai_agent_sandbox_bluepri.Reconcile.Agrees.{state_of, reconcile_loop-agrees}

-- The container stands.
abbrev standing : Inspection
standing = record {
  vm_status = λ id. ok missing;
  container_running = λ id. ok (some false);
  endpoint = λ id. err docker;
}

docker_record-IsStore : IsStore (holding docker_record).store
unfolding lookup
docker_record-IsStore = ((refl, tt), (refl, tt))

reconcile_loop-fate_example :
    lookup "sb-1"
      (reconcile_loop willing standing 900 (ok (docker_record ∷ [])) (holding docker_record)).store
    ≡ reconcile_fate willing standing 900 docker_record
unfolding lookup
reconcile_loop-fate_example =
    reconcile_loop-fate willing standing 900 (holding docker_record) docker_record
      docker_record-IsStore refl

reconcile_loop-agrees_example :
    state_of (
      lookup "sb-1"
        (reconcile_loop willing standing 900
          (ok (docker_record ∷ []))
          (holding docker_record)).store)
    ≡ some stopped
unfolding lookup record_uses_firecracker runtime_backend_for_record
    parse_runtime_backend_from_metadata is_firecracker
reconcile_loop-agrees_example =
    reconcile_loop-agrees willing standing 900 (holding docker_record) docker_record
      docker_record-IsStore refl refl refl
