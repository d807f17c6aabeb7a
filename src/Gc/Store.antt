-- ===== src/Gc/Store.antt =====
-- What becomes of each record in a tick of the collection.
use text.Mathlib.TextPositions.{eq_refl}
use ai_agent_sandbox_bluepri.Base.{
  ◌≡◌, refl, ℕ, String, string_eq, Bool, false, ◌&&◌, ◌||◌, not, Option, none, some, Result, ok,
  err, arith, if◌then◌else◌, ◌==◌, is_none, is_some, is_ok,
}
use ai_agent_sandbox_bluepri.Base.Map.{lookup}
use ai_agent_sandbox_bluepri.Sandbox.{SandboxRecord, SidecarRuntimeConfig, record_uses_firecracker}
use ai_agent_sandbox_bluepri.Lifecycle.{
  World, Outside, Call, is_stopped, change, called, delete_call, deleting, delete_sidecar,
  remove_snapshot_image,
}
use ai_agent_sandbox_bluepri.Lifecycle.Loop.{IsLocal, HasFate, lookup-change, lookup-forget}
use ai_agent_sandbox_bluepri.Gc.{
  gc_record, gc_firecracker, gc_tiers, hot_to_warm, warm_to_cold, cold_to_gone, is_hot_due,
  is_warm_due, is_cold_due, is_vm_due, is_empty, image_removed, remove_image, delete_operator_s3,
  container_deleted,
}

-- The container is deleted, as far as the outside tells.
abbrev pub is_deleted : Outside → SandboxRecord → Bool
is_deleted o r = elim (delete_call o r) [ ok call ↦ is_ok (o.answer call) | err e ↦ false ]

-- What the tiers make of a record: what stays of it, if it stays.
abbrev pub tier_fate : Outside → SidecarRuntimeConfig → ℕ → SandboxRecord → Option SandboxRecord
tier_fate o config now r =
    if is_none r.stopped_at
    then some r
    else if is_hot_due config now r
    then (if not (is_deleted o r)
        then some r
        else if is_some r.snapshot_image_id || is_some r.snapshot_s3_url
        then some (record r { container_removed_at = some now })
        else none)
    else if is_warm_due config now r
    then (if is_none r.snapshot_s3_url then none else some (image_removed now r))
    else if is_cold_due config now r || is_empty r
    then none
    else some r

abbrev pub gc_fate : Outside → SidecarRuntimeConfig → ℕ → SandboxRecord → Option SandboxRecord
gc_fate o config now r =
    if not (o.writes r.id) || (not (is_stopped r.state) || is_some r.tee_deployment_id)
    then some r
    else if record_uses_firecracker o.read_backend r && (is_vm_due config now r || is_empty r)
    then none
    else tier_fate o config now r

module _ (o : Outside) (config : SidecarRuntimeConfig) (now : ℕ) where
  pub delete_operator_s3-store :
      (r : SandboxRecord) (url : Option String) (w : World)
      → (delete_operator_s3 config r url w).store ≡ w.store
  unfolding called
  delete_operator_s3-store r none w = refl
  delete_operator_s3-store r (some url) w = ground arith

  pub remove_image-store :
      (image : Option String) (w : World) → (remove_image o image w).store ≡ w.store
  unfolding called remove_snapshot_image
  remove_image-store none w = refl
  remove_image-store (some image) w = refl

  cold-store :
      (r : SandboxRecord) (w : World) (k : String)
      → lookup k (cold_to_gone o config r w).store
        ≡ (if o.writes r.id && r.id == k then none else lookup k w.store)
  unfolding cold_to_gone
  cold-store r w k = rw (lookup-forget, delete_operator_s3-store) refl

  warm-store :
      (r : SandboxRecord) (w : World) (k : String)
      → lookup k (warm_to_cold o now r w).store ≡ (
          if o.writes r.id && r.id == k
          then (if is_none r.snapshot_s3_url
              then none
              else elim (lookup k w.store) [ none ↦ none | some s ↦ some (image_removed now s) ])
          else lookup k w.store)
  unfolding warm_to_cold
  warm-store r w k =
      let removed = remove_image o r.snapshot_image_id w in
      ground (
        arith,
        lookup-forget o r.id k (change o r.id (image_removed now) removed),
        lookup-change o r.id k (image_removed now) removed,
        remove_image-store r.snapshot_image_id w,
      )

  -- What the answer of a delete makes of the store.
  deleted-store :
      (r : SandboxRecord) (w : World) (k : String) (answer : Result (Unit {0}))
      → lookup k (container_deleted o now r (w, answer)).store ≡ (
          if is_ok answer && (o.writes r.id && r.id == k)
          then (if is_some r.snapshot_image_id || is_some r.snapshot_s3_url
              then elim (lookup k w.store) [
                | none ↦ none
                | some s ↦ some (record s { container_removed_at = some now })
              ]
              else none)
          else lookup k w.store)
  deleted-store r w k (err e) = refl
  deleted-store r w k (ok tt) = ground (
    arith,
    lookup-forget o r.id k w,
    lookup-change o r.id k (λ (s : SandboxRecord). record s { container_removed_at = some now }) w,
  )

  hot-store :
      (r : SandboxRecord) (w : World) (k : String)
      → lookup k (hot_to_warm o now r w).store ≡ (
          if is_deleted o r && (o.writes r.id && r.id == k)
          then (if is_some r.snapshot_image_id || is_some r.snapshot_s3_url
              then elim (lookup k w.store) [
                | none ↦ none
                | some s ↦ some (record s { container_removed_at = some now })
              ]
              else none)
          else lookup k w.store)
  unfolding hot_to_warm delete_sidecar deleting called
  hot-store r w k =
      elim (delete_call o r)
        as (λ (call : Result Call).
          lookup k (container_deleted o now r (deleting o call w)).store ≡ (
            if (elim call [ ok c ↦ is_ok (o.answer c) | err e ↦ false ])
              && (o.writes r.id && r.id == k)
            then (if is_some r.snapshot_image_id || is_some r.snapshot_s3_url
                then elim (lookup k w.store) [
                  | none ↦ none
                  | some s ↦ some (record s { container_removed_at = some now })
                ]
                else none)
            else lookup k w.store)) [
              | ok call ↦ deleted-store r (called call w) k (o.answer call)
              | err e ↦ refl
            ]

  pub gc-IsLocal : IsLocal (gc_record o config now)
  unfolding gc_record gc_firecracker gc_tiers
  gc-IsLocal r w k h =
      ground (arith, cold-store r w k, warm-store r w k, hot-store r w k, lookup-forget o r.id k w)

  pub gc-fate : HasFate (gc_record o config now) (gc_fate o config now)
  unfolding gc_record gc_firecracker gc_tiers
  gc-fate r w h = ground (
    arith,
    cold-store r w r.id,
    warm-store r w r.id,
    hot-store r w r.id,
    lookup-forget o r.id r.id w,
    eq_refl r.id,
  )
