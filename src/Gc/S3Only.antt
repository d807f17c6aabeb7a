-- ===== src/Gc/S3Only.antt =====
-- A Docker sandbox that is left with an S3 snapshot and no image (no automatic commit, or a failed
-- one).
use ai_agent_sandbox_bluepri.Base.{
  ◌≡◌, ℕ, String, string_eq, false, Option, none, some, List, [], ◌∷◌, arith, ◌∙◌, inl, inr, ◌⊎◌,
}
use ai_agent_sandbox_bluepri.Base.Map.{lookup}
use ai_agent_sandbox_bluepri.Sandbox.{
  stopped, SandboxRecord, SidecarRuntimeConfig, record_uses_firecracker, runtime_backend_for_record,
}
use ai_agent_sandbox_bluepri.Lifecycle.{World, Outside, is_stopped}
use ai_agent_sandbox_bluepri.Lifecycle.Loop.{IsStore}
use ai_agent_sandbox_bluepri.Gc.{is_hot_due, is_warm_due, is_cold_due, is_vm_due, is_empty}
use ai_agent_sandbox_bluepri.Gc.Store.{gc_fate}
use ai_agent_sandbox_bluepri.Gc.Tick.{tick, tick-IsStore, gc_tick-fate}

-- A stopped Docker sandbox whose only snapshot is the object at `url`.
pub record IsS3Only (o : Outside) (url : String) (r : SandboxRecord) : Type 0 where
  pub is_stopped : r.state ≡ stopped
  pub no_tee : r.tee_deployment_id ≡ none
  pub no_vm : record_uses_firecracker o.read_backend r ≡ false
  pub no_image : r.snapshot_image_id ≡ none
  pub no_removal : r.image_removed_at ≡ none
  pub has_s3 : r.snapshot_s3_url ≡ some url

removed-IsS3Only :
    (o : Outside) (url : String) (now : Option ℕ) (r : SandboxRecord)
    → IsS3Only o url r
    → IsS3Only o url (record r { container_removed_at = now })
unfolding record_uses_firecracker runtime_backend_for_record
removed-IsS3Only o url now r d = record {
  is_stopped = d.is_stopped;
  no_tee = d.no_tee;
  no_vm = d.no_vm;
  no_image = d.no_image;
  no_removal = d.no_removal;
  has_s3 = d.has_s3;
}

s3_only-fate :
    (o : Outside) (config : SidecarRuntimeConfig) (now : ℕ) (url : String) (r : SandboxRecord)
    → IsS3Only o url r
    → (gc_fate o config now r ≡ some r)
      ⊎ (gc_fate o config now r ≡ some (record r { container_removed_at = some now }))
unfolding is_hot_due is_warm_due is_cold_due is_empty is_vm_due is_stopped
s3_only-fate o config now url r d =
    ground (arith, d.is_stopped, d.no_tee, d.no_vm, d.no_image, d.no_removal, d.has_s3)

-- Ticks of the collection at the given times.
abbrev pub ticks : Outside → SidecarRuntimeConfig → List ℕ → World → World
ticks o config [] w = w
ticks o config (now ∷ times) w = ticks o config times (tick o config now w)

-- A stopped Docker sandbox, not in a TEE, that has an S3 snapshot, no image and no time of an
-- image removal is never collected: after any ticks, at any times, with any retention periods and
-- whatever the outside answers, its record is there and names the same object. The store holds the
-- record under its id, once.
pub gc_tick-keeps_s3_only :
    (o : Outside) (config : SidecarRuntimeConfig) (times : List ℕ) (w : World) (url : String)
    (r : SandboxRecord)
    → IsStore w.store
    → IsS3Only o url r
    → lookup r.id w.store ≡ some r
    → (s : SandboxRecord) × (lookup r.id (ticks o config times w).store ≡ some s)
      × (s.snapshot_s3_url ≡ some url)
gc_tick-keeps_s3_only o config [] w url r h d at = (r, at, d.has_s3)
gc_tick-keeps_s3_only o config (now ∷ times) w url r h d at =
    let h' = tick-IsStore o config now w h in
    let fate = gc_tick-fate o config now w r h at in
    elim (s3_only-fate o config now url r d) [
      | inl e ↦ gc_tick-keeps_s3_only o config times (tick o config now w) url r h' d (fate ∙ e)
      | inr e ↦
          gc_tick-keeps_s3_only o config times (tick o config now w) url
            (record r { container_removed_at = some now }) h'
            (removed-IsS3Only o url (some now) r d) (fate ∙ e)
    ]
