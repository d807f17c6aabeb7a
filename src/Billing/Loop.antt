-- ===== src/Billing/Loop.antt =====
-- The task of `spawn_watchdog`, over the events that its `select!` receives, and
-- `trigger_deprovision`.
use ai_agent_sandbox_bluepri.Base.{
  ℕ, Bool, true, false, Option, none, some, List, [], ◌∷◌, ◌++◌, if◌then◌else◌, eqb, is_none,
}
use ai_agent_sandbox_bluepri.Billing.{
  EscrowWatchdogConfig, EscrowWatchdog, new_watchdog, Rpc, WatchdogTickResult, sufficient,
  low_balance, insufficient, deprovision_required, transient_error, tick, BillingStatus,
  billing_status,
}

-- What the task does on the outside, in order: it sleeps for a number of seconds, it calls
-- `deprovision_core`, and it reports the deprovision of a service.
pub data Effect : Type 0 where
  sleeps : ℕ → Effect
  deprovisions : Effect
  reports : ℕ → Effect

-- An event of the loop: a tick, with the answers of the endpoint, the clock that the status reads
-- and whether the status file can be written; or the signal of the shutdown.
pub data Event : Type 0 where
  ticks : Rpc → (now : ℕ) → (writes : Bool) → Event
  shuts_down : Event

-- Why the task returned.
pub data Exit : Type 0 where
  exhausted shut_down : Exit

pub record Task : Type 0 where
  pub watchdog : EscrowWatchdog
  pub status_file : Option BillingStatus
  pub effects : List Effect
  pub exit : Option Exit

-- `core_ok` says whether `deprovision_core` succeeds.
unfoldable pub trigger_deprovision : Bool → ℕ → ℕ → List Effect
trigger_deprovision core_ok grace_period service =
    (if eqb grace_period 0 then [] else sleeps grace_period ∷ [])
    ++ (deprovisions ∷ (if core_ok then reports service ∷ [] else []))

-- A status that cannot be written leaves the file as it was.
unfoldable pub write_billing_status :
    Bool
    → ℕ
    → WatchdogTickResult
    → EscrowWatchdogConfig
    → Option BillingStatus
    → Option BillingStatus
unfolding billing_status
write_billing_status writes now result config file =
    if writes then some (billing_status now result config) else file

unfoldable pub exits : WatchdogTickResult → Bool
exits (deprovision_required c) = true
exits (sufficient p) = false
exits (low_balance b r n p) = false
exits (insufficient c t) = false
exits (transient_error e) = false

-- The arm of a tick.
unfoldable pub ticked : Bool → Rpc → ℕ → Bool → Task → Task
unfolding tick write_billing_status trigger_deprovision exits
ticked core_ok rpc now writes t =
    let (result, watchdog) = tick rpc t.watchdog in
    let file = write_billing_status writes now result watchdog.config t.status_file in
    if exits result
    then record t {
      watchdog = watchdog;
      status_file = file;
      effects =
          t.effects
          ++ trigger_deprovision core_ok watchdog.config.deprovision_grace_period_secs
              watchdog.config.service_id;
      exit = some exhausted;
    }
    else record t { watchdog = watchdog; status_file = file }

-- One round of the loop. A task that has returned receives nothing.
unfoldable pub round : Bool → Event → Task → Task
unfolding ticked
round core_ok event t =
    if is_none t.exit
    then elim event [
      | ticks rpc now writes ↦ ticked core_ok rpc now writes t
      | shuts_down ↦ record t { exit = some shut_down }
    ]
    else t

unfoldable pub watch : Bool → List Event → Task → Task
watch core_ok [] t = t
watch core_ok (event ∷ events) t = watch core_ok events (round core_ok event t)

unfoldable pub spawn_watchdog : EscrowWatchdogConfig → Option BillingStatus → Task
unfolding new_watchdog
spawn_watchdog config file = record {
  watchdog = new_watchdog config;
  status_file = file;
  effects = [];
  exit = none;
}
