-- ===== src/Reconcile/Loop.antt =====
-- The reconciliation over the whole store.
use text.Mathlib.TextPositions.{eq_refl}
use ai_agent_sandbox_bluepri.Base.{
  ◌≡◌, refl, ◌∙◌, ℕ, String, string_eq, Bool, true, false, ◌||◌, not, Option, none, some, Result,
  ok, err, arith, if◌then◌else◌, ◌==◌, is_some,
}
use ai_agent_sandbox_bluepri.Base.Map.{lookup, values}
use ai_agent_sandbox_bluepri.Sandbox.{
  SandboxRecord, record_uses_firecracker, supports_docker_endpoint_refresh,
}
use ai_agent_sandbox_bluepri.Lifecycle.{World, Outside, change, forget, write}
use ai_agent_sandbox_bluepri.Lifecycle.Loop.{IsStore, IsLocal, HasFate, for_each-fate}
use ai_agent_sandbox_bluepri.Reconcile.{
  FirecrackerContainerStatus, missing, vm_running, vm_stopped, Endpoint, Inspection, gone, runs,
  stands, reconcile_vm, refresh, refreshed, reconcile_container, reconcile_record, reconcile_loop,
}
use ai_agent_sandbox_bluepri.Reconcile.Fate.{
  vm_fate, container_fate, refresh_fate, gone-entry, gone-other, runs-entry, runs-other,
  stands-entry, stands-other, refreshed-entry, refreshed-other,
}

-- What becomes of a record in the reconciliation.
abbrev pub reconcile_fate : Outside → Inspection → ℕ → SandboxRecord → Option SandboxRecord
reconcile_fate o i now r =
    if not (o.writes r.id) || is_some r.tee_deployment_id
    then some r
    else if record_uses_firecracker o.read_backend r
    then vm_fate now r (i.vm_status r.container_id)
    else container_fate i now r (i.container_running r.container_id)

module _ (o : Outside) (i : Inspection) (now : ℕ) where
  vm-other :
      (r : SandboxRecord) (k : String) (w : World) (x : Result FirecrackerContainerStatus)
      → (r.id == k) ≡ false
      → lookup k (reconcile_vm o now r x w).store ≡ lookup k w.store
  vm-other r k w (ok missing) h = gone-other o i now r k w h
  vm-other r k w (ok vm_running) h = runs-other o i now r k w h
  vm-other r k w (ok vm_stopped) h = stands-other o i now r k w h
  vm-other r k w (err e) h = refl

  vm-entry :
      (r : SandboxRecord) (w : World) (x : Result FirecrackerContainerStatus)
      → o.writes r.id ≡ true
      → lookup r.id w.store ≡ some r
      → lookup r.id (reconcile_vm o now r x w).store ≡ vm_fate now r x
  vm-entry r w (ok missing) writes h = ground (arith, gone-entry o i now r r.id w h, eq_refl r.id)
  vm-entry r w (ok vm_running) writes h =
      ground (arith, runs-entry o i now r r r.id w h, eq_refl r.id)
  vm-entry r w (ok vm_stopped) writes h =
      ground (arith, stands-entry o i now r r.id w h, eq_refl r.id)
  vm-entry r w (err e) writes h = h

  refresh-other :
      (r : SandboxRecord) (k : String) (w : World)
      → (r.id == k) ≡ false
      → lookup k (refresh o i r w).store ≡ lookup k w.store
  unfolding refresh
  refresh-other r k w h =
      ground (arith, refreshed-other o i now r k w (i.endpoint r.container_id) h)

  refresh-entry :
      (r : SandboxRecord) (w : World)
      → o.writes r.id ≡ true
      → r.tee_deployment_id ≡ none
      → record_uses_firecracker o.read_backend r ≡ false
      → lookup r.id w.store ≡ some r
      → lookup r.id (refresh o i r w).store ≡ some (refresh_fate (i.endpoint r.container_id) r)
  unfolding refresh supports_docker_endpoint_refresh
  refresh-entry r w writes no_tee no_vm h = ground (
    arith,
    no_tee,
    no_vm,
    writes,
    eq_refl r.id,
    refreshed-entry o i now r r r.id w (i.endpoint r.container_id) h,
  )

  container-other :
      (r : SandboxRecord) (k : String) (w : World) (x : Result (Option Bool))
      → (r.id == k) ≡ false
      → lookup k (reconcile_container o i now r x w).store ≡ lookup k w.store
  container-other r k w (err e) h = gone-other o i now r k w h
  container-other r k w (ok (some true)) h =
      runs-other o i now r k (refresh o i r w) h ∙ refresh-other r k w h
  container-other r k w (ok (some false)) h = stands-other o i now r k w h
  container-other r k w (ok none) h = stands-other o i now r k w h

  container-entry :
      (r : SandboxRecord) (w : World) (x : Result (Option Bool))
      → o.writes r.id ≡ true
      → r.tee_deployment_id ≡ none
      → record_uses_firecracker o.read_backend r ≡ false
      → lookup r.id w.store ≡ some r
      → lookup r.id (reconcile_container o i now r x w).store ≡ container_fate i now r x
  container-entry r w (err e) writes no_tee no_vm h =
      ground (arith, gone-entry o i now r r.id w h, eq_refl r.id)
  container-entry r w (ok (some true)) writes no_tee no_vm h =
      let fresh = refresh_fate (i.endpoint r.container_id) r in
      let at = refresh-entry r w writes no_tee no_vm h in
      rw (writes, eq_refl r.id) at (runs-entry o i now r fresh r.id (refresh o i r w) at)
  container-entry r w (ok (some false)) writes no_tee no_vm h =
      ground (arith, stands-entry o i now r r.id w h, eq_refl r.id)
  container-entry r w (ok none) writes no_tee no_vm h =
      ground (arith, stands-entry o i now r r.id w h, eq_refl r.id)

  reconcile-IsLocal : IsLocal (reconcile_record o i now)
  unfolding reconcile_record
  reconcile-IsLocal r w k h = ground (
    arith,
    vm-other r k w (i.vm_status r.container_id) h,
    container-other r k w (i.container_running r.container_id) h,
  )

  -- Without its write, a record stays.
  vm-unwritten :
      (r : SandboxRecord) (w : World) (x : Result FirecrackerContainerStatus)
      → o.writes r.id ≡ false
      → reconcile_vm o now r x w ≡ w
  unfolding gone runs stands change forget write
  vm-unwritten r w (ok missing) h = ground (arith, h)
  vm-unwritten r w (ok vm_running) h = ground (arith, h)
  vm-unwritten r w (ok vm_stopped) h = ground (arith, h)
  vm-unwritten r w (err e) h = refl

  refreshed-unwritten :
      (r : SandboxRecord) (w : World) (x : Result Endpoint)
      → o.writes r.id ≡ false
      → refreshed o r x w ≡ w
  unfolding change write
  refreshed-unwritten r w (ok e) h = ground (arith, h)
  refreshed-unwritten r w (err e) h = refl

  container-unwritten :
      (r : SandboxRecord) (w : World) (x : Result (Option Bool))
      → o.writes r.id ≡ false
      → reconcile_container o i now r x w ≡ w
  unfolding gone runs stands refresh change forget write
  container-unwritten r w (err e) h = ground (arith, h)
  container-unwritten r w (ok (some true)) h =
      ground (arith, h, refreshed-unwritten r w (i.endpoint r.container_id) h)
  container-unwritten r w (ok (some false)) h = ground (arith, h)
  container-unwritten r w (ok none) h = ground (arith, h)

  reconcile-fate : HasFate (reconcile_record o i now) (reconcile_fate o i now)
  unfolding reconcile_record
  reconcile-fate r w at = ground (
    arith,
    at,
    vm-unwritten r w (i.vm_status r.container_id),
    container-unwritten r w (i.container_running r.container_id),
    vm-entry r w (i.vm_status r.container_id),
    container-entry r w (i.container_running r.container_id),
  )

-- The reconciliation makes of each record what its own fields, the time and the answers of the
-- outside say, whatever else the store holds and in whatever order it is read. The store holds the
-- record under its id, once.
pub reconcile_loop-fate :
    (o : Outside) (i : Inspection) (now : ℕ) (w : World) (r : SandboxRecord)
    → IsStore w.store
    → lookup r.id w.store ≡ some r
    → lookup r.id (reconcile_loop o i now (ok (values w.store)) w).store ≡ reconcile_fate o i now r
unfolding reconcile_loop
reconcile_loop-fate o i now w r h at =
    for_each-fate (reconcile_record o i now) (reconcile_fate o i now) w.store w r
      (reconcile-IsLocal o i now) (reconcile-fate o i now) h at at
