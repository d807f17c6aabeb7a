-- ===== src/Gc.antt =====
-- sandbox-runtime/src/reaper/gc.rs and the S3 rules of reaper/snapshot.rs: the tiers of a stopped
-- sandbox. Times are seconds in a u64, whose sum wraps.
mod Calls
mod Store
mod Tick
mod Drain
mod S3Only
mod Stale
mod Tests
use ai_agent_sandbox_bluepri.Base.{
  ℕ, ◌+◌, ◌%◌, String, string_eq, Bool, true, false, ◌||◌, ◌&&◌, not, Option, none, some, List,
  Result, ok, err, if◌then◌else◌, leb, is_some, is_none, u64_modulus,
}
use ai_agent_sandbox_bluepri.Base.Map.{Map}
use ai_agent_sandbox_bluepri.Base.Text.{codes, starts_with}
use ai_agent_sandbox_bluepri.Sandbox.{SandboxRecord, SidecarRuntimeConfig, record_uses_firecracker}
use ai_agent_sandbox_bluepri.Lifecycle.{
  World, Outside, s3_delete, is_stopped, change, forget, called, delete_sidecar,
  remove_snapshot_image, for_each,
}

has_prefix : Option String → String → Bool
unfolding starts_with
has_prefix none s3_url = false
has_prefix (some prefix) s3_url = starts_with (codes prefix) (codes s3_url)

unfoldable pub is_operator_s3 : String → SandboxRecord → SidecarRuntimeConfig → Bool
unfolding has_prefix
is_operator_s3 s3_url r config =
    if is_some r.snapshot_destination
    then false
    else has_prefix config.snapshot_destination_prefix s3_url

-- `since + retention <= now`
unfoldable pub is_due : ℕ → ℕ → ℕ → Bool
is_due retention now since = leb ((since + retention) % u64_modulus) now

abbrev pub since_due : ℕ → ℕ → Option ℕ → Bool
since_due retention now none = false
since_due retention now (some since) = is_due retention now since

-- No container, no image, no S3 snapshot.
unfoldable pub is_empty : SandboxRecord → Bool
is_empty r =
    is_some r.container_removed_at && (is_none r.snapshot_image_id && is_none r.snapshot_s3_url)

abbrev pub delete_operator_s3 : SidecarRuntimeConfig → SandboxRecord → Option String → World → World
delete_operator_s3 config r none w = w
delete_operator_s3 config r (some s3_url) w =
    if is_operator_s3 s3_url r config then called (s3_delete s3_url) w else w

-- A failed delete of the S3 snapshot does not keep the record.
unfoldable pub cold_to_gone : Outside → SidecarRuntimeConfig → SandboxRecord → World → World
cold_to_gone o config r w = forget o r.id (delete_operator_s3 config r r.snapshot_s3_url w)

-- What follows a delete of the container; a failed one leaves the record.
abbrev pub container_deleted : Outside → ℕ → SandboxRecord → World × Result (Unit {0}) → World
container_deleted o now r (w, err e) = w
container_deleted o now r (w, ok tt) =
    if is_some r.snapshot_image_id || is_some r.snapshot_s3_url
    then change o r.id (λ (r : SandboxRecord). record r { container_removed_at = some now }) w
    else forget o r.id w

unfoldable pub hot_to_warm : Outside → ℕ → SandboxRecord → World → World
hot_to_warm o now r w = container_deleted o now r (delete_sidecar o r w)

abbrev image_removed : ℕ → SandboxRecord → SandboxRecord
image_removed now r = record r { snapshot_image_id = none; image_removed_at = some now }

abbrev pub remove_image : Outside → Option String → World → World
remove_image o none w = w
remove_image o (some image) w = (remove_snapshot_image o image w).0

-- A failed removal of the image does not stop the tier.
unfoldable pub warm_to_cold : Outside → ℕ → SandboxRecord → World → World
warm_to_cold o now r w =
    let changed = change o r.id (image_removed now) (remove_image o r.snapshot_image_id w) in
    if is_none r.snapshot_s3_url then forget o r.id changed else changed

unfoldable pub is_hot_due : SidecarRuntimeConfig → ℕ → SandboxRecord → Bool
is_hot_due config now r =
    is_none r.container_removed_at && since_due config.sandbox_gc_hot_retention now r.stopped_at

unfoldable pub is_warm_due : SidecarRuntimeConfig → ℕ → SandboxRecord → Bool
is_warm_due config now r =
    is_some r.snapshot_image_id
    && since_due config.sandbox_gc_warm_retention now r.container_removed_at

unfoldable pub is_cold_due : SidecarRuntimeConfig → ℕ → SandboxRecord → Bool
is_cold_due config now r =
    is_none r.snapshot_image_id
    && (is_some r.snapshot_s3_url
        && since_due config.sandbox_gc_cold_retention now r.image_removed_at)

unfoldable pub is_vm_due : SidecarRuntimeConfig → ℕ → SandboxRecord → Bool
is_vm_due config now r =
    is_some r.snapshot_s3_url
    && since_due config.sandbox_gc_cold_retention now r.container_removed_at

unfoldable pub gc_tiers : Outside → SidecarRuntimeConfig → ℕ → SandboxRecord → World → World
gc_tiers o config now r w =
    if is_none r.stopped_at
    then w
    else if is_hot_due config now r
    then hot_to_warm o now r w
    else if is_warm_due config now r
    then warm_to_cold o now r w
    else if is_cold_due config now r
    then cold_to_gone o config r w
    else if is_empty r
    then forget o r.id w
    else w

unfoldable pub gc_firecracker : Outside → SidecarRuntimeConfig → ℕ → SandboxRecord → World → World
gc_firecracker o config now r w =
    if is_vm_due config now r
    then cold_to_gone o config r w
    else if is_empty r
    then forget o r.id w
    else gc_tiers o config now r w

-- The body of the loop over the records that were read.
unfoldable pub gc_record : Outside → SidecarRuntimeConfig → ℕ → SandboxRecord → World → World
gc_record o config now r w =
    if not (is_stopped r.state)
    then w
    else if is_some r.tee_deployment_id
    then w
    else if record_uses_firecracker o.read_backend r
    then gc_firecracker o config now r w
    else gc_tiers o config now r w

-- A store that cannot be read ends the tick.
unfoldable pub gc_tick :
    Outside → SidecarRuntimeConfig → ℕ → Result (List SandboxRecord) → World → World
gc_tick o config now (err e) w = w
gc_tick o config now (ok records) w = for_each (gc_record o config now) records w
