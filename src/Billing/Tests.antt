-- ===== src/Billing/Tests.antt =====
-- A watchdog with a threshold of 2 that is paid once, then unpaid, then cannot read, then unpaid.
use ai_agent_sandbox_bluepri.Base.{◌≡◌, refl, ℕ, true, none, inl, inr, List, [], ◌∷◌, ◌++◌, arith}
use ai_agent_sandbox_bluepri.Billing.{
  EscrowWatchdogConfig, validate, Rpc, new_watchdog, tick, low_balance, from_env,
}
use ai_agent_sandbox_bluepri.Billing.Loop.{
  Event, ticks, shuts_down, sleeps, deprovisions, reports, watch, round, spawn_watchdog,
}
use ai_agent_sandbox_bluepri.Billing.Window.{IsExhausted}
use ai_agent_sandbox_bluepri.Billing.Fires.{Exhausts, watch_fires, watch_is_patient}

abbrev config : EscrowWatchdogConfig
config = record {
  tangle_contract = 7;
  http_rpc_endpoint = "http://127.0.0.1:8545";
  service_id = 4;
  blueprint_id = 9;
  check_interval_secs = 300;
  max_consecutive_failures = 2;
  low_balance_multiplier = 3;
  deprovision_grace_period_secs = 30;
}

abbrev answers : ℕ → ℕ → Rpc
answers balance rate = record {
  parse_url = λ url. inr tt;
  get_service_escrow = λ contract id. inr balance;
  get_blueprint_config = λ contract id. inr rate;
}

abbrev fails : Rpc
fails = record {
  parse_url = λ url. inr tt;
  get_service_escrow = λ contract id. inl "timeout";
  get_blueprint_config = λ contract id. inr 10;
}

abbrev paid_once : List Event
paid_once = ticks (answers 25 10) 100 true ∷ []

abbrev unpaid : List Event
unpaid = ticks (answers 9 10) 400 true ∷ ticks fails 700 true ∷ ticks (answers 0 10) 1000 true ∷ []

abbrev events : List Event
events = paid_once ++ (unpaid ++ (shuts_down ∷ []))

runs_low : (tick (answers 25 10) (new_watchdog config)).0 ≡ low_balance 25 10 2 0
unfolding tick new_watchdog
runs_low = refl

ends :
    (watch true events (spawn_watchdog config none)).effects
    ≡ sleeps 30 ∷ deprovisions ∷ reports 4 ∷ []
unfolding watch spawn_watchdog round
ends = refl

-- No contract, no watchdog.
off :
    from_env
      (record {
        var = λ name. none;
        parse_address = λ text. none;
        parse_number = λ bound text. none;
      })
      1
      2
    ≡ none
unfolding from_env
off = refl

config-validate : validate config ≡ inr tt
unfolding validate
config-validate = refl

events-Exhausts : Exhausts config events
events-Exhausts = record {
  before = paid_once;
  window = unpaid;
  after = shuts_down ∷ [];
  splits = refl;
  alive = (refl, tt);
  not_paid = (refl, (refl, (refl, tt)));
  enough = refl;
}

watch_fires_example : IsExhausted (watch true events (spawn_watchdog config none))
watch_fires_example =
    watch_fires true config (omega arith) none events config-validate events-Exhausts

watch_is_patient_example : Exhausts config events
unfolding watch spawn_watchdog round
watch_is_patient_example =
    watch_is_patient true config (omega arith) none events config-validate (omega arith)
