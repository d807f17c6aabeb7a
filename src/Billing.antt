-- ===== src/Billing.antt =====
-- The escrow watchdog of ai-agent-instance-blueprint-lib/src/billing.rs: its configuration, one
-- check of the escrow, one tick and the status that it writes. The chain, the environment and the
-- parsers of `url`, `alloy` and std are parameters. An address and a U256 are numbers, and the
-- product of two U256 wraps, as ruint's operator does.
pub mod Loop
pub mod Window
pub mod Runs
pub mod Fires
mod Tests
use Prim.Native.String.{◌++◌}
use ai_agent_sandbox_bluepri.Base.{
  ℕ, ◌+◌, ◌*◌, ◌/◌, ◌%◌, ◌^◌, min, String, Bool, true, false, ◌&&◌, Option, none, some, ◌⊎◌, inl,
  inr, if◌then◌else◌, ltb, leb, eqb, ◌==◌, string_eq, u32_modulus, u64_modulus,
}

abbrev pub u256_modulus : ℕ
u256_modulus = 2 ^ 256

-- `Result<A, String>`.
abbrev pub Answer : Type 0 → Type 0
Answer A = String ⊎ A

pub record EscrowWatchdogConfig : Type 0 where
  pub tangle_contract : ℕ
  pub http_rpc_endpoint : String
  pub service_id : ℕ
  pub blueprint_id : ℕ
  pub check_interval_secs : ℕ
  pub max_consecutive_failures : ℕ
  pub low_balance_multiplier : ℕ
  pub deprovision_grace_period_secs : ℕ

unfoldable pub validate : EscrowWatchdogConfig → Answer (Unit {0})
validate config =
    if eqb config.check_interval_secs 0
    then inl "check_interval_secs must be > 0 (would cause busy-loop)"
    else if eqb config.max_consecutive_failures 0
    then inl "max_consecutive_failures must be > 0 (would never deprovision)"
    else if config.http_rpc_endpoint == ""
    then inl "http_rpc_endpoint must not be empty"
    else inr tt

-- The environment, and the parsers of an address and of a number below a bound.
pub record Environment : Type 0 where
  pub var : String → Option String
  pub parse_address : String → Option ℕ
  pub parse_number : ℕ → String → Option ℕ

-- `std::env::var(name).ok().and_then(|v| v.parse().ok()).unwrap_or(default)`.
unfoldable pub number_or : Environment → ℕ → String → ℕ → ℕ
number_or env bound name default = elim (env.var name) [
  | none ↦ default
  | some v ↦ elim (env.parse_number bound v) [ none ↦ default | some n ↦ n ]
]

unfoldable pub rpc_endpoint : Environment → String
rpc_endpoint env = elim (env.var "HTTP_RPC_ENDPOINT") [
  | some url ↦ url
  | none ↦ elim (env.var "RPC_URL") [ some url ↦ url | none ↦ "http://127.0.0.1:8545" ]
]

unfoldable pub from_env : Environment → ℕ → ℕ → Option EscrowWatchdogConfig
unfolding number_or rpc_endpoint
from_env env service blueprint = elim (env.var "TANGLE_CONTRACT_ADDRESS") [
  | none ↦ none
  | some contract_str ↦ elim (env.parse_address contract_str) [
    | none ↦ none
    | some address ↦ some (record {
      tangle_contract = address;
      http_rpc_endpoint = rpc_endpoint env;
      service_id = service;
      blueprint_id = blueprint;
      check_interval_secs = number_or env u64_modulus "ESCROW_CHECK_INTERVAL_SECS" 300;
      max_consecutive_failures = number_or env u32_modulus "ESCROW_MAX_CONSECUTIVE_FAILURES" 3;
      low_balance_multiplier = number_or env u32_modulus "ESCROW_LOW_BALANCE_MULTIPLIER" 3;
      deprovision_grace_period_secs =
          number_or env u64_modulus "ESCROW_DEPROVISION_GRACE_PERIOD_SECS" 30;
    })
  ]
]

pub record EscrowStatus : Type 0 where
  pub balance : ℕ
  pub rate : ℕ
  pub sufficient : Bool

-- What the endpoint answers at one check: the parse of the URL, the balance of a service's escrow
-- and the subscription rate of a blueprint, by the contract's address and the id.
pub record Rpc : Type 0 where
  pub parse_url : String → Answer (Unit {0})
  pub get_service_escrow : ℕ → ℕ → Answer ℕ
  pub get_blueprint_config : ℕ → ℕ → Answer ℕ

unfoldable pub check_escrow : Rpc → EscrowWatchdogConfig → Answer EscrowStatus
check_escrow rpc config = elim (rpc.parse_url config.http_rpc_endpoint) [
  | inl e ↦ inl ("Invalid RPC URL: " ++ e)
  | inr url ↦ elim (rpc.get_service_escrow config.tangle_contract config.service_id) [
    | inl e ↦ inl ("getServiceEscrow RPC failed: " ++ e)
    | inr balance ↦ elim (rpc.get_blueprint_config config.tangle_contract config.blueprint_id) [
      | inl e ↦ inl ("getBlueprintConfig RPC failed: " ++ e)
      | inr rate ↦ inr (record {
        balance = balance;
        rate = rate;
        sufficient = if eqb rate 0 then true else leb rate balance;
      })
    ]
  ]
]

pub data WatchdogTickResult : Type 0 where
  sufficient : (previous_failures : ℕ) → WatchdogTickResult
  low_balance : (balance rate periods_remaining previous_failures : ℕ) → WatchdogTickResult
  insufficient : (consecutive threshold : ℕ) → WatchdogTickResult
  deprovision_required : (consecutive : ℕ) → WatchdogTickResult
  transient_error : String → WatchdogTickResult

pub record EscrowWatchdog : Type 0 where
  pub config : EscrowWatchdogConfig
  pub failure_count : ℕ

unfoldable pub new_watchdog : EscrowWatchdogConfig → EscrowWatchdog
new_watchdog c = record { config = c; failure_count = 0 }

unfoldable pub reset_failure_count : EscrowWatchdog → EscrowWatchdog
reset_failure_count w = record w { failure_count = 0 }

-- `(balance / rate).try_into().unwrap_or(u64::MAX)`.
unfoldable pub periods_remaining : ℕ → ℕ → ℕ
periods_remaining balance rate =
    let periods = balance / rate in
    if ltb periods u64_modulus then periods else 18446744073709551615

-- The branch of a sufficient escrow, after the counter is reset.
unfoldable pub covered : EscrowWatchdogConfig → EscrowStatus → ℕ → WatchdogTickResult
unfolding periods_remaining
covered config status prev =
    if ltb 0 config.low_balance_multiplier
      && ltb 0 status.rate
      && ltb status.balance (status.rate * config.low_balance_multiplier % u256_modulus)
    then low_balance status.balance status.rate (periods_remaining status.balance status.rate) prev
    else sufficient prev

-- The branch of an insufficient escrow: `fetch_add` wraps, and so does the `+ 1` on what it read.
unfoldable pub uncovered : EscrowWatchdogConfig → ℕ → WatchdogTickResult
uncovered config prev =
    let count = (prev + 1) % u32_modulus in
    if leb config.max_consecutive_failures count
    then deprovision_required count
    else insufficient count config.max_consecutive_failures

unfoldable pub tick : Rpc → EscrowWatchdog → WatchdogTickResult × EscrowWatchdog
unfolding check_escrow covered uncovered
tick rpc w = elim (check_escrow rpc w.config) [
  | inl e ↦ (transient_error e, w)
  | inr status ↦
      if status.sufficient
      then (covered w.config status w.failure_count, record w { failure_count = 0 })
      else (
        uncovered w.config w.failure_count,
        record w { failure_count = (w.failure_count + 1) % u32_modulus },
      )
]

-- The fields of `billing_status.json`. The two amounts are printed in decimal.
pub record BillingStatus : Type 0 where
  pub status : String
  pub service_id : ℕ
  pub blueprint_id : ℕ
  pub balance : Option ℕ
  pub rate : Option ℕ
  pub consecutive_failures : ℕ
  pub max_consecutive_failures : ℕ
  pub periods_remaining : Option ℕ
  pub updated_at : ℕ

unfoldable pub billing_status : ℕ → WatchdogTickResult → EscrowWatchdogConfig → BillingStatus
billing_status now result config = elim result [
  | sufficient p ↦ plain "sufficient" 0
  | low_balance b r n p ↦ record (plain "low_balance" 0) {
    balance = some b;
    rate = some r;
    periods_remaining = some n;
  }
  | insufficient c t ↦ plain "insufficient" c
  | deprovision_required c ↦ plain "deprovision_required" c
  | transient_error e ↦ plain "rpc_error" 0
]
  where
    plain : String → ℕ → BillingStatus
    plain name failures = record {
      status = name;
      service_id = config.service_id;
      blueprint_id = config.blueprint_id;
      balance = none;
      rate = none;
      consecutive_failures = failures;
      max_consecutive_failures = config.max_consecutive_failures;
      periods_remaining = none;
      updated_at = now;
    }
