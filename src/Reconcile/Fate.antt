-- ===== src/Reconcile/Fate.antt =====
-- What becomes of each record in the reconciliation.
use ai_agent_sandbox_bluepri.Base.{
  ◌≡◌, refl, ℕ, String, string_eq, Bool, true, false, ◌&&◌, Option, none, some, Result, ok, err,
  arith, if◌then◌else◌, ◌==◌,
}
use ai_agent_sandbox_bluepri.Base.Map.{lookup}
use ai_agent_sandbox_bluepri.Sandbox.{SandboxRecord}
use ai_agent_sandbox_bluepri.Lifecycle.{World, Outside, is_stopped, mark_stopped}
use ai_agent_sandbox_bluepri.Lifecycle.Loop.{lookup-change, lookup-forget}
use ai_agent_sandbox_bluepri.Reconcile.{
  FirecrackerContainerStatus, missing, vm_running, vm_stopped, Endpoint, Inspection, has_snapshot,
  mark_gone, mark_running, set_endpoint, gone, runs, stands, refreshed,
}

abbrev pub gone_fate : ℕ → SandboxRecord → Option SandboxRecord
gone_fate now r = if has_snapshot r then some (mark_gone now r) else none

abbrev pub runs_fate : SandboxRecord → SandboxRecord → SandboxRecord
runs_fate r s = if is_stopped r.state then mark_running s else s

abbrev pub stands_fate : ℕ → SandboxRecord → SandboxRecord
stands_fate now r = if is_stopped r.state then r else mark_stopped now r

abbrev pub refresh_fate : Result Endpoint → SandboxRecord → SandboxRecord
refresh_fate (ok e) r = set_endpoint e r
refresh_fate (err e) r = r

abbrev pub vm_fate : ℕ → SandboxRecord → Result FirecrackerContainerStatus → Option SandboxRecord
vm_fate now r (ok missing) = gone_fate now r
vm_fate now r (ok vm_running) = some (runs_fate r r)
vm_fate now r (ok vm_stopped) = some (stands_fate now r)
vm_fate now r (err e) = some r

abbrev pub container_fate :
    Inspection → ℕ → SandboxRecord → Result (Option Bool) → Option SandboxRecord
container_fate i now r (err e) = gone_fate now r
container_fate i now r (ok (some true)) =
    some (runs_fate r (refresh_fate (i.endpoint r.container_id) r))
container_fate i now r (ok (some false)) = some (stands_fate now r)
container_fate i now r (ok none) = some (stands_fate now r)

module _ (o : Outside) (i : Inspection) (now : ℕ) where
  pub gone-entry :
      (r : SandboxRecord) (k : String) (w : World)
      → lookup k w.store ≡ some r
      → lookup k (gone o now r w).store
        ≡ (if o.writes r.id && r.id == k then gone_fate now r else some r)
  unfolding gone
  gone-entry r k w h =
      ground (arith, h, lookup-change o r.id k (mark_gone now) w, lookup-forget o r.id k w)

  pub gone-other :
      (r : SandboxRecord) (k : String) (w : World)
      → (r.id == k) ≡ false
      → lookup k (gone o now r w).store ≡ lookup k w.store
  unfolding gone
  gone-other r k w h =
      ground (arith, h, lookup-change o r.id k (mark_gone now) w, lookup-forget o r.id k w)

  pub runs-entry :
      (r s : SandboxRecord) (k : String) (w : World)
      → lookup k w.store ≡ some s
      → lookup k (runs o r w).store ≡ some (if o.writes r.id && r.id == k then runs_fate r s else s)
  unfolding runs
  runs-entry r s k w h = ground (arith, h, lookup-change o r.id k mark_running w)

  pub runs-other :
      (r : SandboxRecord) (k : String) (w : World)
      → (r.id == k) ≡ false
      → lookup k (runs o r w).store ≡ lookup k w.store
  unfolding runs
  runs-other r k w h = ground (arith, h, lookup-change o r.id k mark_running w)

  pub stands-entry :
      (r : SandboxRecord) (k : String) (w : World)
      → lookup k w.store ≡ some r
      → lookup k (stands o now r w).store
        ≡ some (if o.writes r.id && r.id == k then stands_fate now r else r)
  unfolding stands
  stands-entry r k w h = ground (arith, h, lookup-change o r.id k (mark_stopped now) w)

  pub stands-other :
      (r : SandboxRecord) (k : String) (w : World)
      → (r.id == k) ≡ false
      → lookup k (stands o now r w).store ≡ lookup k w.store
  unfolding stands
  stands-other r k w h = ground (arith, h, lookup-change o r.id k (mark_stopped now) w)

  pub refreshed-entry :
      (r s : SandboxRecord) (k : String) (w : World) (e : Result Endpoint)
      → lookup k w.store ≡ some s
      → lookup k (refreshed o r e w).store
        ≡ some (if o.writes r.id && r.id == k then refresh_fate e s else s)
  refreshed-entry r s k w (ok e) h = ground (arith, h, lookup-change o r.id k (set_endpoint e) w)
  refreshed-entry r s k w (err e) h = ground (arith, h)

  pub refreshed-other :
      (r : SandboxRecord) (k : String) (w : World) (e : Result Endpoint)
      → (r.id == k) ≡ false
      → lookup k (refreshed o r e w).store ≡ lookup k w.store
  refreshed-other r k w (ok e) h = ground (arith, h, lookup-change o r.id k (set_endpoint e) w)
  refreshed-other r k w (err e) h = refl
