-- ===== src/Gc/Drain.antt =====
-- Ticks of the collection one after another: a sandbox with both snapshots goes through the tiers to
-- its end, one with an S3 snapshot only does not.
use ai_agent_sandbox_bluepri.Base.{
  ◌≡◌, refl, ℕ, ◌+◌, ◌≤◌, ◌<◌, string_eq, true, false, ◌||◌, Option, none, some, ok, arith, is_some,
  u64_modulus, ◌∙◌,
}
use ai_agent_sandbox_bluepri.Base.Map.{lookup}
use ai_agent_sandbox_bluepri.Sandbox.{
  stopped, SandboxRecord, SidecarRuntimeConfig, record_uses_firecracker, runtime_backend_for_record,
}
use ai_agent_sandbox_bluepri.Lifecycle.{World, Outside, container_remove, is_stopped, delete_call}
use ai_agent_sandbox_bluepri.Lifecycle.Loop.{IsStore}
use ai_agent_sandbox_bluepri.Gc.{
  is_due, is_hot_due, is_warm_due, is_cold_due, is_vm_due, is_empty, image_removed,
}
use ai_agent_sandbox_bluepri.Gc.Store.{gc_fate}
use ai_agent_sandbox_bluepri.Gc.Tick.{tick, tick-IsStore, gc_tick-fate}

-- A stopped sandbox in a Docker container, whose record can be written.
pub record IsStoppedDocker (o : Outside) (r : SandboxRecord) : Type 0 where
  pub is_stopped : r.state ≡ stopped
  pub no_tee : r.tee_deployment_id ≡ none
  pub no_vm : record_uses_firecracker o.read_backend r ≡ false
  pub writes : o.writes r.id ≡ true

-- The retention has passed, and the sum does not wrap.
abbrev Passed : ℕ → ℕ → ℕ → Type 0
Passed retention now since = (since + retention ≤ now) × (since + retention < u64_modulus)

Passed-is_due :
    (retention now since : ℕ) → Passed retention now since → is_due retention now since ≡ true
unfolding is_due
Passed-is_due retention now since h = ground arith

module _ (o : Outside) (config : SidecarRuntimeConfig) where
  hot-fate :
      (now since : ℕ) (r : SandboxRecord)
      → IsStoppedDocker o r
      → r.stopped_at ≡ some since
      → r.container_removed_at ≡ none
      → (is_some r.snapshot_image_id || is_some r.snapshot_s3_url) ≡ true
      → o.answer (container_remove r.container_id) ≡ ok tt
      → Passed config.sandbox_gc_hot_retention now since
      → gc_fate o config now r ≡ some (record r { container_removed_at = some now })
  unfolding is_hot_due delete_call is_empty is_vm_due is_stopped
  hot-fate now since r d at no_removal snapshot answer passed = ground (
    arith,
    d.is_stopped,
    d.no_tee,
    d.no_vm,
    d.writes,
    Passed-is_due config.sandbox_gc_hot_retention now since passed,
  )

  warm-fate :
      (now stop removal : ℕ) (r : SandboxRecord)
      → IsStoppedDocker o r
      → r.stopped_at ≡ some stop
      → r.container_removed_at ≡ some removal
      → is_some r.snapshot_image_id ≡ true
      → is_some r.snapshot_s3_url ≡ true
      → Passed config.sandbox_gc_warm_retention now removal
      → gc_fate o config now r ≡ some (image_removed now r)
  unfolding is_hot_due is_warm_due is_empty is_vm_due is_stopped
  warm-fate now stop removal r d at removed image s3 passed = ground (
    arith,
    d.is_stopped,
    d.no_tee,
    d.no_vm,
    d.writes,
    Passed-is_due config.sandbox_gc_warm_retention now removal passed,
  )

  cold-fate :
      (now stop removal since : ℕ) (r : SandboxRecord)
      → IsStoppedDocker o r
      → r.stopped_at ≡ some stop
      → r.container_removed_at ≡ some removal
      → r.snapshot_image_id ≡ none
      → is_some r.snapshot_s3_url ≡ true
      → r.image_removed_at ≡ some since
      → Passed config.sandbox_gc_cold_retention now since
      → gc_fate o config now r ≡ none
  unfolding is_hot_due is_warm_due is_cold_due is_empty is_vm_due is_stopped
  cold-fate now stop removal since r d at removed image s3 since_at passed = ground (
    arith,
    d.is_stopped,
    d.no_tee,
    d.no_vm,
    d.writes,
    Passed-is_due config.sandbox_gc_cold_retention now since passed,
  )

  removed-IsStoppedDocker :
      (now : Option ℕ) (r : SandboxRecord)
      → IsStoppedDocker o r
      → IsStoppedDocker o (record r { container_removed_at = now })
  unfolding record_uses_firecracker runtime_backend_for_record
  removed-IsStoppedDocker now r d = record {
    is_stopped = d.is_stopped;
    no_tee = d.no_tee;
    no_vm = d.no_vm;
    writes = d.writes;
  }

  image_removed-IsStoppedDocker :
      (now : ℕ) (r : SandboxRecord) → IsStoppedDocker o r → IsStoppedDocker o (image_removed now r)
  unfolding record_uses_firecracker runtime_backend_for_record
  image_removed-IsStoppedDocker now r d = record {
    is_stopped = d.is_stopped;
    no_tee = d.no_tee;
    no_vm = d.no_vm;
    writes = d.writes;
  }

  -- A stopped sandbox in a Docker container and not in a TEE, with an image and an S3 snapshot,
  -- whose container can be deleted and whose record can be written, is collected by three ticks,
  -- each after the retention of its tier has passed: its record is gone after the third. The store
  -- holds the record under its id, once, and the sums of the times do not wrap.
  pub gc_tick-drains :
      (w : World) (r : SandboxRecord) (stop hot warm cold : ℕ)
      → IsStore w.store
      → lookup r.id w.store ≡ some r
      → IsStoppedDocker o r
      → r.stopped_at ≡ some stop
      → r.container_removed_at ≡ none
      → is_some r.snapshot_image_id ≡ true
      → is_some r.snapshot_s3_url ≡ true
      → o.answer (container_remove r.container_id) ≡ ok tt
      → Passed config.sandbox_gc_hot_retention hot stop
      → Passed config.sandbox_gc_warm_retention warm hot
      → Passed config.sandbox_gc_cold_retention cold warm
      → lookup r.id (tick o config cold (tick o config warm (tick o config hot w))).store ≡ none
  gc_tick-drains w r stop hot warm cold h at d stopped_at no_removal image s3 answer p q s =
      let r1 : SandboxRecord = record r { container_removed_at = some hot } in
      let r2 = image_removed warm r1 in
      let d1 = removed-IsStoppedDocker (some hot) r d in
      let w1 = tick o config hot w in
      let w2 = tick o config warm w1 in
      let h1 = tick-IsStore o config hot w h in
      let h2 = tick-IsStore o config warm w1 h1 in
      let at1 =
        gc_tick-fate o config hot w r h at
        ∙ hot-fate hot stop r d stopped_at no_removal (ground arith) answer p in
      let at2 =
        gc_tick-fate o config warm w1 r1 h1 at1
        ∙ warm-fate warm stop hot r1 d1 stopped_at refl image s3 q in
      gc_tick-fate o config cold w2 r2 h2 at2
      ∙ cold-fate cold stop hot warm r2 (image_removed-IsStoppedDocker warm r1 d1) stopped_at refl
          refl s3 refl s
