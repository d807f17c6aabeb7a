-- ===== src/Gc/Stale.antt =====
-- The tick decides by the records that it read: the store as it stands meanwhile is not looked at.
use ai_agent_sandbox_bluepri.Base.{
  ◌≡◌, refl, ap, ◌∙◌, sym, ℕ, ◌∷◌, [], String, string_eq, Option, none, some, List, Result, ok, err,
  arith,
}
use ai_agent_sandbox_bluepri.Base.Map.{Map}
use ai_agent_sandbox_bluepri.Sandbox.{SandboxRecord, SidecarRuntimeConfig}
use ai_agent_sandbox_bluepri.Lifecycle.{
  World, Outside, Call, change, forget, write, called, delete_call, deleting, delete_sidecar,
  remove_snapshot_image, for_each,
}
use ai_agent_sandbox_bluepri.Gc.{
  gc_tick, gc_record, gc_tiers, gc_firecracker, hot_to_warm, warm_to_cold, cold_to_gone,
  container_deleted, delete_operator_s3, remove_image, image_removed,
}

-- What the body adds to the calls does not depend on the store.
abbrev SameCalls : (World → World) → Type 0
SameCalls body = (v w : World) → v.calls ≡ w.calls → (body v).calls ≡ (body w).calls

module _ (o : Outside) (config : SidecarRuntimeConfig) (now : ℕ) (r : SandboxRecord) where
  forget-calls : (w : World) → (forget o r.id w).calls ≡ w.calls
  unfolding forget write
  forget-calls w = ground arith

  change-calls :
      (f : SandboxRecord → SandboxRecord) (w : World) → (change o r.id f w).calls ≡ w.calls
  unfolding change write
  change-calls f w = ground arith

  delete_operator_s3-SameCalls : (url : Option String) → SameCalls (delete_operator_s3 config r url)
  unfolding called
  delete_operator_s3-SameCalls none v w h = h
  delete_operator_s3-SameCalls (some url) v w h = ground (arith, h)

  remove_image-SameCalls : (image : Option String) → SameCalls (remove_image o image)
  unfolding remove_snapshot_image called
  remove_image-SameCalls none v w h = h
  remove_image-SameCalls (some image) v w h = ground (arith, h)

  cold_to_gone-SameCalls : SameCalls (cold_to_gone o config r)
  unfolding cold_to_gone
  cold_to_gone-SameCalls v w h =
      forget-calls (delete_operator_s3 config r r.snapshot_s3_url v)
      ∙ delete_operator_s3-SameCalls r.snapshot_s3_url v w h
      ∙ sym (forget-calls (delete_operator_s3 config r r.snapshot_s3_url w))

  deleted-calls :
      (w : World) (answer : Result (Unit {0}))
      → (container_deleted o now r (w, answer)).calls ≡ w.calls
  deleted-calls w (err e) = refl
  deleted-calls w (ok tt) = ground (
    arith,
    forget-calls w,
    change-calls (λ (r : SandboxRecord). record r { container_removed_at = some now }) w,
  )

  deleting-SameCalls :
      (call : Result Call) → SameCalls (λ w. container_deleted o now r (deleting o call w))
  unfolding deleting called
  deleting-SameCalls (ok call) v w h =
      deleted-calls (called call v) (o.answer call)
      ∙ ap (λ cs. call ∷ cs) h
      ∙ sym (deleted-calls (called call w) (o.answer call))
  deleting-SameCalls (err e) v w h = h

  hot_to_warm-SameCalls : SameCalls (hot_to_warm o now r)
  unfolding hot_to_warm delete_sidecar
  hot_to_warm-SameCalls v w h = deleting-SameCalls (delete_call o r) v w h

  warm-calls :
      (w : World) → (warm_to_cold o now r w).calls ≡ (remove_image o r.snapshot_image_id w).calls
  unfolding warm_to_cold
  warm-calls w =
      let removed = remove_image o r.snapshot_image_id w in
      ground (
        arith,
        change-calls (image_removed now) removed,
        forget-calls (change o r.id (image_removed now) removed),
      )

  warm_to_cold-SameCalls : SameCalls (warm_to_cold o now r)
  warm_to_cold-SameCalls v w h =
      warm-calls v ∙ remove_image-SameCalls r.snapshot_image_id v w h ∙ sym (warm-calls w)

  forget-SameCalls : SameCalls (forget o r.id)
  forget-SameCalls v w h = forget-calls v ∙ h ∙ sym (forget-calls w)

  gc_tiers-SameCalls : SameCalls (gc_tiers o config now r)
  unfolding gc_tiers
  gc_tiers-SameCalls v w h = ground (
    arith,
    h,
    hot_to_warm-SameCalls v w h,
    warm_to_cold-SameCalls v w h,
    cold_to_gone-SameCalls v w h,
    forget-SameCalls v w h,
  )

  gc_firecracker-SameCalls : SameCalls (gc_firecracker o config now r)
  unfolding gc_firecracker
  gc_firecracker-SameCalls v w h =
      ground (arith, gc_tiers-SameCalls v w h, cold_to_gone-SameCalls v w h, forget-SameCalls v w h)

  gc_record-SameCalls : SameCalls (gc_record o config now r)
  unfolding gc_record
  gc_record-SameCalls v w h =
      ground (arith, h, gc_tiers-SameCalls v w h, gc_firecracker-SameCalls v w h)

-- A turn of the loop: a record that was read, and the store as the other tasks have left it when the
-- turn comes, the deletions of the turns before awaited.
abbrev pub Turn : Type 0
Turn = SandboxRecord × Map String SandboxRecord

abbrev pub records_of : List Turn → List SandboxRecord
records_of [] = []
records_of ((r, meanwhile) ∷ turns) = r ∷ records_of turns

unfoldable pub take_turns : Outside → SidecarRuntimeConfig → ℕ → List Turn → World → World
take_turns o config now [] w = w
take_turns o config now ((r, meanwhile) ∷ turns) w =
    take_turns o config now turns (gc_record o config now r (record w { store = meanwhile }))

turns-calls :
    (o : Outside) (config : SidecarRuntimeConfig) (now : ℕ) (turns : List Turn) (v w : World)
    → v.calls ≡ w.calls
    → (take_turns o config now turns v).calls
      ≡ (for_each (gc_record o config now) (records_of turns) w).calls
unfolding take_turns for_each
turns-calls o config now [] v w h = h
turns-calls o config now ((r, meanwhile) ∷ turns) v w h =
    turns-calls o config now turns (gc_record o config now r (record v { store = meanwhile }))
      (gc_record o config now r w)
      (gc_record-SameCalls o config now r (record v { store = meanwhile }) w h)

-- A tick of the collection does not look at the store again once it has read the records: of Docker,
-- the hypervisor and the object store it asks the same, in the same order, however other tasks
-- change the store before each turn of its loop. So a sandbox that is resumed after the records were
-- read loses its container, image or snapshot as if it were still stopped.
pub take_turns-gc_tick :
    (o : Outside) (config : SidecarRuntimeConfig) (now : ℕ) (turns : List Turn) (w : World)
    → (take_turns o config now turns w).calls
      ≡ (gc_tick o config now (ok (records_of turns)) w).calls
unfolding gc_tick
take_turns-gc_tick o config now turns w = turns-calls o config now turns w w refl
