-- ===== src/Reaper.antt =====
-- sandbox-runtime/src/reaper/tick.rs and the destination of reaper/snapshot.rs: running sandboxes
-- that are idle are stopped, and those past their lifetime are deleted.
mod Fate
mod Tick
mod Limits
mod Tests
use Prim.Native.String.{◌++◌}
use ai_agent_sandbox_bluepri.Base.{
  ℕ, ◌+◌, ◌%◌, String, string_eq, Bool, true, false, ◌||◌, ◌&&◌, not, Option, none, some, List,
  Result, ok, err, if◌then◌else◌, leb, ltb, is_some, is_none, u64_modulus,
}
use ai_agent_sandbox_bluepri.Base.Map.{Map}
use ai_agent_sandbox_bluepri.Sandbox.{SandboxRecord, SidecarRuntimeConfig, record_uses_firecracker}
use ai_agent_sandbox_bluepri.Lifecycle.{
  World, Outside, s3_upload, is_stopped, change, forget, called, unseal_record, stop_sidecar,
  delete_sidecar, commit_container, for_each,
}

unfoldable pub resolve_snapshot_destination : SandboxRecord → SidecarRuntimeConfig → Option String
resolve_snapshot_destination r config = elim r.snapshot_destination [
  | some dest ↦ some dest
  | none ↦ elim config.snapshot_destination_prefix [
    | none ↦ none
    | some prefix ↦ some (prefix ++ r.id ++ "/snapshot.tar.gz")
  ]
]

abbrev pub activity : SandboxRecord → ℕ
activity r = if ltb 0 r.last_activity_at then r.last_activity_at else r.created_at

unfoldable pub is_expired : ℕ → SandboxRecord → Bool
is_expired now r =
    ltb 0 r.max_lifetime_seconds && leb ((r.created_at + r.max_lifetime_seconds) % u64_modulus) now

unfoldable pub is_idle : ℕ → SandboxRecord → Bool
is_idle now r =
    ltb 0 r.idle_timeout_seconds && leb ((activity r + r.idle_timeout_seconds) % u64_modulus) now

-- A failed delete leaves the record.
abbrev pub reap_deleted : Outside → SandboxRecord → World × Result (Unit {0}) → World
reap_deleted o r (w, ok tt) = forget o r.id w
reap_deleted o r (w, err e) = w

abbrev pub set_s3 : String → SandboxRecord → SandboxRecord
set_s3 dest r = record r { snapshot_s3_url = some dest }

abbrev pub set_image : String → SandboxRecord → SandboxRecord
set_image image r = record r { snapshot_image_id = some image }

abbrev pub uploaded : Outside → SandboxRecord → String → Result (Unit {0}) → World → World
uploaded o r dest (ok tt) w = change o r.id (set_s3 dest) w
uploaded o r dest (err e) w = w

-- The upload before the stop; a failed one does not keep the sandbox running.
abbrev pub upload : Outside → SandboxRecord → Option String → World → World
upload o r none w = w
upload o r (some dest) w = uploaded o r dest (o.answer (s3_upload dest)) (called (s3_upload dest) w)

abbrev pub committed : Outside → SandboxRecord → World × Result String → World
committed o r (w, ok image) = change o r.id (set_image image) w
committed o r (w, err e) = w

unfoldable pub commits : Outside → SidecarRuntimeConfig → SandboxRecord → Bool
commits o config r =
    config.snapshot_auto_commit
    && (is_none r.tee_deployment_id && not (record_uses_firecracker o.read_backend r))

-- The commit after the stop; a failed stop leaves the record.
abbrev pub reap_stopped :
    Outside → SidecarRuntimeConfig → SandboxRecord → World × Result (Unit {0}) → World
reap_stopped o config r (w, ok tt) =
    if commits o config r then committed o r (commit_container o r w) else w
reap_stopped o config r (w, err e) = w

unfoldable pub reap_idle : Outside → SidecarRuntimeConfig → SandboxRecord → World → World
reap_idle o config r w =
    reap_stopped o config r
      (stop_sidecar o r (upload o r (resolve_snapshot_destination r config) w))

unfoldable pub reap_unsealed : Outside → SidecarRuntimeConfig → ℕ → SandboxRecord → World → World
reap_unsealed o config now r w =
    if is_stopped r.state
    then w
    else if is_expired now r
    then reap_deleted o r (delete_sidecar o r w)
    else if is_idle now r
    then reap_idle o config r w
    else w

abbrev pub with_unsealed : Outside → SidecarRuntimeConfig → ℕ → Result SandboxRecord → World → World
with_unsealed o config now (ok r) w = reap_unsealed o config now r w
with_unsealed o config now (err e) w = w

-- The body of the loop over the records that were read.
unfoldable pub reap_record : Outside → SidecarRuntimeConfig → ℕ → SandboxRecord → World → World
reap_record o config now r w = with_unsealed o config now (unseal_record o r) w

unfoldable pub reaper_tick :
    Outside → SidecarRuntimeConfig → ℕ → Result (List SandboxRecord) → World → World
reaper_tick o config now (err e) w = w
reaper_tick o config now (ok records) w = for_each (reap_record o config now) records w
