-- ===== src/Billing/Window.antt =====
-- One check of the escrow, told by the answers of the endpoint, and what a round of the task does
-- with it.
use ai_agent_sandbox_bluepri.Base.{
  ℕ, suc, ◌+◌, ◌<◌, ◌%◌, ◌≡◌, refl, Bool, true, false, not, ◌&&◌, none, some, List, ◌++◌, inl, inr,
  if◌then◌else◌, ltb, leb, arith, count, count-append, u32_modulus,
}
use ai_agent_sandbox_bluepri.Billing.{
  EscrowWatchdogConfig, EscrowWatchdog, Rpc, check_escrow, uncovered, covered, tick,
}
use ai_agent_sandbox_bluepri.Billing.Loop.{
  Effect, sleeps, deprovisions, reports, Event, ticks, shuts_down, exhausted, Task,
  trigger_deprovision, exits, ticked, round,
}

-- Both calls are answered, and the balance is below the rate.
abbrev pub is_unpaid : EscrowWatchdogConfig → Rpc → Bool
is_unpaid c rpc = elim (rpc.parse_url c.http_rpc_endpoint) [
  | inl e ↦ false
  | inr url ↦ elim (rpc.get_service_escrow c.tangle_contract c.service_id) [
    | inl e ↦ false
    | inr balance ↦ elim (rpc.get_blueprint_config c.tangle_contract c.blueprint_id) [
      | inl e ↦ false
      | inr rate ↦ ltb balance rate
    ]
  ]
]

-- Both calls are answered, and the balance covers the rate.
abbrev pub is_paid : EscrowWatchdogConfig → Rpc → Bool
is_paid c rpc = elim (rpc.parse_url c.http_rpc_endpoint) [
  | inl e ↦ false
  | inr url ↦ elim (rpc.get_service_escrow c.tangle_contract c.service_id) [
    | inl e ↦ false
    | inr balance ↦ elim (rpc.get_blueprint_config c.tangle_contract c.blueprint_id) [
      | inl e ↦ false
      | inr rate ↦ leb rate balance
    ]
  ]
]

abbrev pub is_tick : Event → Bool
is_tick (ticks rpc now writes) = true
is_tick shuts_down = false

abbrev pub is_unpaid_tick : EscrowWatchdogConfig → Event → Bool
is_unpaid_tick c (ticks rpc now writes) = is_unpaid c rpc
is_unpaid_tick c shuts_down = false

-- A tick whose check does not find the rate covered.
abbrev pub is_not_paid : EscrowWatchdogConfig → Event → Bool
is_not_paid c (ticks rpc now writes) = not (is_paid c rpc)
is_not_paid c shuts_down = false

abbrev pub is_deprovision : Effect → Bool
is_deprovision (sleeps n) = false
is_deprovision deprovisions = true
is_deprovision (reports n) = false

tick-failure_count :
    (rpc : Rpc) (w : EscrowWatchdog)
    → (tick rpc w).1 ≡ record w {
      failure_count =
          if is_unpaid w.config rpc
          then (w.failure_count + 1) % u32_modulus
          else if is_paid w.config rpc
          then 0
          else w.failure_count;
    }
unfolding tick check_escrow
tick-failure_count rpc w = ground arith

exits-tick :
    (rpc : Rpc) (w : EscrowWatchdog)
    → exits (tick rpc w).0 ≡ (
        is_unpaid w.config rpc
        && leb w.config.max_consecutive_failures ((w.failure_count + 1) % u32_modulus))
unfolding tick check_escrow exits uncovered covered
exits-tick rpc w = ground arith

count-trigger_deprovision :
    (effects : List Effect) (core_ok : Bool) (grace service : ℕ)
    → count is_deprovision (effects ++ trigger_deprovision core_ok grace service)
      ≡ suc (count is_deprovision effects)
unfolding trigger_deprovision
count-trigger_deprovision effects core_ok grace service =
    ground (arith, count-append is_deprovision effects (trigger_deprovision core_ok grace service))

abbrev pub counting : EscrowWatchdogConfig → ℕ → EscrowWatchdog
counting c n = record { config = c; failure_count = n }

-- The task waits for an event, with `n` failures counted, below the threshold.
pub record IsWaiting (c : EscrowWatchdogConfig) (n : ℕ) (t : Task) : Type 0 where
  pub watchdog : t.watchdog ≡ counting c n
  pub waits : t.exit ≡ none
  pub below : n < c.max_consecutive_failures
  pub quiet : count is_deprovision t.effects ≡ 0

-- The task has returned after one deprovision.
pub record IsExhausted (t : Task) : Type 0 where
  pub returned : t.exit ≡ some exhausted
  pub once : count is_deprovision t.effects ≡ 1

module _ (core_ok : Bool) (c : EscrowWatchdogConfig)
    (fits : c.max_consecutive_failures < u32_modulus) where
  pub round-unpaid :
      (rpc : Rpc) (now : ℕ) (writes : Bool) (n : ℕ) (t : Task)
      → is_unpaid c rpc ≡ true
      → IsWaiting c n t
      → suc n < c.max_consecutive_failures
      → IsWaiting c (suc n) (round core_ok (ticks rpc now writes) t)
  unfolding round ticked
  round-unpaid rpc now writes n t unpaid h less =
      let w = counting c n in
      rw (h.watchdog, h.waits)
        (record {
          watchdog = ground (arith, unpaid, fits, less, tick-failure_count rpc w);
          waits = ground (arith, unpaid, fits, less, exits-tick rpc w, h.waits);
          below = less;
          quiet = ground (arith, unpaid, fits, less, exits-tick rpc w, h.quiet);
        })

  pub round-last :
      (rpc : Rpc) (now : ℕ) (writes : Bool) (n : ℕ) (t : Task)
      → is_unpaid c rpc ≡ true
      → IsWaiting c n t
      → suc n ≡ c.max_consecutive_failures
      → IsExhausted (round core_ok (ticks rpc now writes) t)
  unfolding round ticked
  round-last rpc now writes n t unpaid h last =
      let fires : exits (tick rpc (counting c n)).0 ≡ true =
        ground (arith, unpaid, fits, last, exits-tick rpc (counting c n)) in
      let w = (tick rpc (counting c n)).1.config in
      rw (h.watchdog, h.waits, fires)
        (record {
          returned = refl;
          once =
              unfold trigger_deprovision in
              omega (
                arith,
                h.quiet,
                count-trigger_deprovision t.effects core_ok w.deprovision_grace_period_secs
                    w.service_id,
              );
        })

  pub round-paid :
      (rpc : Rpc) (now : ℕ) (writes : Bool) (n : ℕ) (t : Task)
      → is_unpaid c rpc ≡ false
      → IsWaiting c n t
      → IsWaiting c (if is_paid c rpc then 0 else n) (round core_ok (ticks rpc now writes) t)
  unfolding round ticked
  round-paid rpc now writes n t unpaid h =
      let w = counting c n in
      rw (h.watchdog, h.waits)
        (record {
          watchdog = ground (arith, unpaid, tick-failure_count rpc w);
          waits = ground (arith, unpaid, exits-tick rpc w, h.waits);
          below = ground (arith, h.below);
          quiet = ground (arith, unpaid, exits-tick rpc w, h.quiet);
        })
