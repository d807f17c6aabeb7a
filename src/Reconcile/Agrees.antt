-- ===== src/Reconcile/Agrees.antt =====
-- The records against the VMs and the containers, after the reconciliation.
use ai_agent_sandbox_bluepri.Base.{
  ◌≡◌, ℕ, string_eq, Bool, true, false, Option, none, some, Result, ok, err, arith, if◌then◌else◌,
}
use ai_agent_sandbox_bluepri.Base.Map.{lookup, values}
use ai_agent_sandbox_bluepri.Sandbox.{
  SandboxState, running, stopped, SandboxRecord, record_uses_firecracker,
}
use ai_agent_sandbox_bluepri.Lifecycle.{World, Outside, is_stopped}
use ai_agent_sandbox_bluepri.Lifecycle.Loop.{IsStore}
use ai_agent_sandbox_bluepri.Reconcile.{
  missing, vm_running, vm_stopped, Inspection, has_snapshot, reconcile_loop,
}
use ai_agent_sandbox_bluepri.Reconcile.Loop.{reconcile_loop-fate}

-- Whether a container or a VM runs, as far as the outside tells; none where it is gone.
abbrev pub runs_outside : Outside → Inspection → SandboxRecord → Result (Option Bool)
runs_outside o i r =
    if record_uses_firecracker o.read_backend r
    then elim (i.vm_status r.container_id) [
      | ok s ↦ elim s [
        | missing ↦ ok none
        | vm_running ↦ ok (some true)
        | vm_stopped ↦ ok (some false)
      ]
      | err e ↦ err e
    ]
    else elim (i.container_running r.container_id) [
      | ok s ↦ elim s [ none ↦ ok (some false) | some b ↦ ok (some b) ]
      | err e ↦ ok none
    ]

abbrev pub state_of : Option SandboxRecord → Option SandboxState
state_of none = none
state_of (some r) = some r.state

-- After the reconciliation, the record of a sandbox outside a TEE, whose write succeeds, agrees
-- with the outside: it is running where the VM or the container runs, stopped where it stands,
-- stopped where it is gone and a snapshot is left, and away where it is gone without one. A VM
-- whose status cannot be read keeps its state; a container that cannot be inspected counts as
-- gone. The store holds the record under its id, once.
pub reconcile_loop-agrees :
    (o : Outside) (i : Inspection) (now : ℕ) (w : World) (r : SandboxRecord)
    → IsStore w.store
    → lookup r.id w.store ≡ some r
    → r.tee_deployment_id ≡ none
    → o.writes r.id ≡ true
    → state_of (lookup r.id (reconcile_loop o i now (ok (values w.store)) w).store)
      ≡ elim (runs_outside o i r) [
        | err e ↦ some r.state
        | ok s ↦ elim s [
          | none ↦ if has_snapshot r then some stopped else none
          | some b ↦ some (if b then running else stopped)
        ]
      ]
unfolding is_stopped
reconcile_loop-agrees o i now w r h at no_tee writes =
    ground (arith, reconcile_loop-fate o i now w r h at, no_tee, writes)
