-- ===== src/Gc/Tick.antt =====
-- A tick of the collection over the whole store, and ticks one after another.
use ai_agent_sandbox_bluepri.Base.{
  ◌≡◌, refl, ℕ, string_eq, ◌||◌, some, Result, ok, err, arith, is_none, is_some, Bool-cases, inl,
  inr,
}
use ai_agent_sandbox_bluepri.Base.Map.{lookup, values}
use ai_agent_sandbox_bluepri.Sandbox.{SandboxRecord, SidecarRuntimeConfig}
use ai_agent_sandbox_bluepri.Lifecycle.{
  World, Outside, Call, change, called, delete_call, deleting, delete_sidecar,
}
use ai_agent_sandbox_bluepri.Lifecycle.Loop.{
  IsStore, KeepsStore, for_each-fate, for_each-IsStore, change-IsStore, forget-IsStore,
}
use ai_agent_sandbox_bluepri.Gc.{
  gc_record, gc_tick, gc_firecracker, gc_tiers, hot_to_warm, warm_to_cold, cold_to_gone,
  image_removed, remove_image, delete_operator_s3, container_deleted,
}
use ai_agent_sandbox_bluepri.Gc.Store.{
  gc_fate, gc-IsLocal, gc-fate, remove_image-store, delete_operator_s3-store,
}

module _ (o : Outside) (config : SidecarRuntimeConfig) (now : ℕ) where
  cold-IsStore : KeepsStore (cold_to_gone o config)
  unfolding cold_to_gone
  cold-IsStore r w h =
      forget-IsStore o r.id (delete_operator_s3 config r r.snapshot_s3_url w)
        (rw (delete_operator_s3-store o config now r r.snapshot_s3_url w) h)

  warm-IsStore : KeepsStore (warm_to_cold o now)
  unfolding warm_to_cold
  warm-IsStore r w h =
      let removed = remove_image o r.snapshot_image_id w in
      let changed =
        change-IsStore o r.id (image_removed now) removed (λ s. refl)
          (rw (remove_image-store o config now r.snapshot_image_id w) h) in
      elim (Bool-cases (is_none r.snapshot_s3_url)) [
        | inl e ↦ rw e (forget-IsStore o r.id (change o r.id (image_removed now) removed) changed)
        | inr e ↦ rw e changed
      ]

  deleted-IsStore :
      (r : SandboxRecord) (w : World) (answer : Result (Unit {0}))
      → IsStore w.store
      → IsStore (container_deleted o now r (w, answer)).store
  deleted-IsStore r w (err e) h = h
  deleted-IsStore r w (ok tt) h =
      elim (Bool-cases (is_some r.snapshot_image_id || is_some r.snapshot_s3_url)) [
        | inl e ↦ rw e (change-IsStore o r.id _ w (λ s. refl) h)
        | inr e ↦ rw e (forget-IsStore o r.id w h)
      ]

  hot-IsStore : KeepsStore (hot_to_warm o now)
  unfolding hot_to_warm delete_sidecar deleting called
  hot-IsStore r w h =
      elim (delete_call o r)
        as (λ (call : Result Call). IsStore (container_deleted o now r (deleting o call w)).store) [
          | ok call ↦ deleted-IsStore r (called call w) (o.answer call) h
          | err e ↦ h
        ]

  tiers-IsStore : KeepsStore (gc_tiers o config now)
  unfolding gc_tiers
  tiers-IsStore r w h =
      ground (
        arith,
        hot-IsStore r w h,
        warm-IsStore r w h,
        cold-IsStore r w h,
        forget-IsStore o r.id w h,
      )

  gc-IsStore : KeepsStore (gc_record o config now)
  unfolding gc_record gc_firecracker
  gc-IsStore r w h =
      ground (arith, tiers-IsStore r w h, cold-IsStore r w h, forget-IsStore o r.id w h)

-- A tick that reads the store.
abbrev pub tick : Outside → SidecarRuntimeConfig → ℕ → World → World
tick o config now w = gc_tick o config now (ok (values w.store)) w

pub tick-IsStore :
    (o : Outside) (config : SidecarRuntimeConfig) (now : ℕ) (w : World)
    → IsStore w.store
    → IsStore (tick o config now w).store
unfolding gc_tick
tick-IsStore o config now w h =
    for_each-IsStore (gc_record o config now) (values w.store) w (gc-IsStore o config now) h

pub gc_tick-fate :
    (o : Outside) (config : SidecarRuntimeConfig) (now : ℕ) (w : World) (r : SandboxRecord)
    → IsStore w.store
    → lookup r.id w.store ≡ some r
    → lookup r.id (gc_tick o config now (ok (values w.store)) w).store ≡ gc_fate o config now r
unfolding gc_tick
gc_tick-fate o config now w r h at =
    for_each-fate (gc_record o config now) (gc_fate o config now) w.store w r
      (gc-IsLocal o config now) (gc-fate o config now) h at at
