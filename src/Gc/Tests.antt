-- ===== src/Gc/Tests.antt =====
-- Ticks of the collection over one stopped sandbox.
use ai_agent_sandbox_bluepri.Base.{◌≡◌, refl, string_eq, true, none, some, [], ◌∷◌, ok, arith}
use ai_agent_sandbox_bluepri.Base.Map.{lookup, update}
use ai_agent_sandbox_bluepri.Sandbox.{
  running, stopped, SandboxRecord, record_uses_firecracker, runtime_backend_for_record,
  parse_runtime_backend_from_metadata, is_firecracker,
}
use ai_agent_sandbox_bluepri.Sandbox.Samples.{docker_record, config}
use ai_agent_sandbox_bluepri.Lifecycle.Samples.{willing, holding}
use ai_agent_sandbox_bluepri.Lifecycle.Loop.{IsStore}
use ai_agent_sandbox_bluepri.Gc.Stale.{take_turns, take_turns-gc_tick}
use ai_agent_sandbox_bluepri.Lifecycle.{
  container_remove, delete_sidecar, deleting, delete_call, is_stopped, called, change, write,
}
use ai_agent_sandbox_bluepri.Gc.{gc_record, gc_tiers, is_hot_due, hot_to_warm, is_due, gc_tick}
use ai_agent_sandbox_bluepri.Gc.Calls.{IsTimed, all_calls, is_permitted_by, gc_tick-permitted}
use ai_agent_sandbox_bluepri.Gc.Tick.{tick}
use ai_agent_sandbox_bluepri.Gc.Drain.{IsStoppedDocker, gc_tick-drains}
use ai_agent_sandbox_bluepri.Gc.S3Only.{IsS3Only, ticks, gc_tick-keeps_s3_only}

-- Stopped at second 1000 with both snapshots.
abbrev parked : SandboxRecord
parked = record docker_record {
  state = stopped;
  stopped_at = some 1000;
  snapshot_image_id = some "img-1";
  snapshot_s3_url = some "s3://op/sb-1/snapshot.tar.gz";
}

abbrev s3_parked : SandboxRecord
s3_parked = record parked { snapshot_image_id = none }

parked-IsStore : IsStore (holding parked).store
unfolding lookup
parked-IsStore = ((refl, tt), (refl, tt))

s3_parked-IsStore : IsStore (holding s3_parked).store
unfolding lookup
s3_parked-IsStore = ((refl, tt), (refl, tt))

parked-IsTimed : IsTimed config parked
parked-IsTimed = record { hot_fits = omega arith; warm_fits = tt; cold_fits = tt; vm_fits = tt }

gc_tick-permitted_example :
    all_calls
      (is_permitted_by config 1100 (parked ∷ []))
      (gc_tick willing config 1100 (ok (parked ∷ [])) (holding parked)).calls
    ≡ true
gc_tick-permitted_example =
    gc_tick-permitted willing config 1100 (parked ∷ []) (holding parked).store (parked-IsTimed, tt)

parked-IsStoppedDocker : IsStoppedDocker willing parked
unfolding record_uses_firecracker runtime_backend_for_record parse_runtime_backend_from_metadata
    is_firecracker
parked-IsStoppedDocker = record { is_stopped = refl; no_tee = refl; no_vm = refl; writes = refl }

gc_tick-drains_example :
    lookup "sb-1"
      (tick willing config 1600
        (tick willing config 1300 (tick willing config 1100 (holding parked)))).store
    ≡ none
unfolding lookup
gc_tick-drains_example =
    gc_tick-drains willing config (holding parked) parked 1000 1100 1300 1600 parked-IsStore refl
      parked-IsStoppedDocker refl refl refl refl refl (omega arith, omega arith)
      (omega arith, omega arith) (omega arith, omega arith)

s3_parked-IsS3Only : IsS3Only willing "s3://op/sb-1/snapshot.tar.gz" s3_parked
unfolding record_uses_firecracker runtime_backend_for_record parse_runtime_backend_from_metadata
    is_firecracker
s3_parked-IsS3Only = record {
  is_stopped = refl;
  no_tee = refl;
  no_vm = refl;
  no_image = refl;
  no_removal = refl;
  has_s3 = refl;
}

gc_tick-keeps_s3_only_example :
    (s : SandboxRecord) × (lookup "sb-1"
        (ticks willing config (1100 ∷ 9999 ∷ 99999 ∷ []) (holding s3_parked)).store
      ≡ some s)
    × (s.snapshot_s3_url ≡ some "s3://op/sb-1/snapshot.tar.gz")
unfolding lookup
gc_tick-keeps_s3_only_example =
    gc_tick-keeps_s3_only willing config (1100 ∷ 9999 ∷ 99999 ∷ []) (holding s3_parked)
      "s3://op/sb-1/snapshot.tar.gz" s3_parked s3_parked-IsStore s3_parked-IsS3Only refl

abbrev resumed : SandboxRecord
resumed = record parked { state = running; stopped_at = none }

-- The sandbox was resumed before its turn.
take_turns-gc_tick_example :
    (take_turns willing config 1100 ((parked, ("sb-1", resumed) ∷ []) ∷ []) (holding parked)).calls
    ≡ (gc_tick willing config 1100 (ok (parked ∷ [])) (holding parked)).calls
take_turns-gc_tick_example =
    take_turns-gc_tick willing config 1100 ((parked, ("sb-1", resumed) ∷ []) ∷ []) (holding parked)

-- Its container is removed.
resumed_removed :
    (take_turns willing config 1100 ((parked, ("sb-1", resumed) ∷ []) ∷ []) (holding parked)).calls
    ≡ container_remove "c-1" ∷ []
unfolding take_turns gc_record gc_tiers is_hot_due hot_to_warm delete_sidecar deleting delete_call
    record_uses_firecracker runtime_backend_for_record parse_runtime_backend_from_metadata
    is_firecracker is_stopped is_due called change write update
resumed_removed = refl
