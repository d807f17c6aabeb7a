-- ===== src/Billing/Fires.antt =====
-- When the watchdog of billing.rs deprovisions: exactly after a window of checks in which none is
-- paid and enough are unpaid.
use ai_agent_sandbox_bluepri.Base.{
  ℕ, suc, ◌+◌, ◌<◌, ◌≡◌, refl, Bool, true, Option, some, List, [], ◌∷◌, ◌++◌, ◌⊎◌, inl, inr,
  if◌then◌else◌, arith, count, All, subst, ap, sym, u32_modulus, Bool-cases,
}
use ai_agent_sandbox_bluepri.Billing.{EscrowWatchdogConfig, validate, BillingStatus}
use ai_agent_sandbox_bluepri.Billing.Loop.{
  Event, ticks, shuts_down, shut_down, Task, round, watch, spawn_watchdog,
}
use ai_agent_sandbox_bluepri.Billing.Window.{
  is_unpaid, is_paid, is_tick, is_unpaid_tick, is_not_paid, is_deprovision, IsWaiting, IsExhausted,
  round-paid,
}
use ai_agent_sandbox_bluepri.Billing.Runs.{
  watch-append, watch-returned, watch-IsExhausted, spawn_watchdog-IsWaiting, unpaid_round,
  watch-alive, watch-unpaid,
}

-- The events hold a window of ticks of which none is paid and `max_consecutive_failures` are unpaid,
-- and no shutdown comes before its end.
pub record Exhausts (c : EscrowWatchdogConfig) (events : List Event) : Type 0 where
  pub before : List Event
  pub window : List Event
  pub after : List Event
  pub splits : events ≡ before ++ (window ++ after)
  pub alive : All (λ e. is_tick e ≡ true) before
  pub not_paid : All (λ e. is_not_paid c e ≡ true) window
  pub enough : count (is_unpaid_tick c) window ≡ c.max_consecutive_failures

-- After a shutdown nothing is deprovisioned.
shutdown_is_quiet :
    (core_ok : Bool) (c : EscrowWatchdogConfig) (n : ℕ) (es : List Event) (t : Task)
    → IsWaiting c n t
    → count is_deprovision (watch core_ok es (round core_ok shuts_down t)).effects ≡ 0
unfolding round
shutdown_is_quiet core_ok c n es t h =
    rw (h.waits, watch-returned core_ok shut_down es (record t { exit = some shut_down }) refl)
      h.quiet

-- A window that starts here with `n` failures counted, or a later one.
abbrev Fills : EscrowWatchdogConfig → ℕ → List Event → Type 0
Fills c n es =
    ((window : List Event) × (after : List Event) × (es ≡ window ++ after)
      × All (λ e. is_not_paid c e ≡ true) window
      × (n + count (is_unpaid_tick c) window ≡ c.max_consecutive_failures))
    ⊎ Exhausts c es

-- The event before.
Exhausts-before :
    (c : EscrowWatchdogConfig) (e : Event) (es : List Event)
    → is_tick e ≡ true
    → Exhausts c es
    → Exhausts c (e ∷ es)
Exhausts-before c e es alive x = record {
  before = e ∷ x.before;
  window = x.window;
  after = x.after;
  splits = ap (λ fs. e ∷ fs) x.splits;
  alive = (alive, x.alive);
  not_paid = x.not_paid;
  enough = x.enough;
}

Fills-counts :
    (c : EscrowWatchdogConfig) (n m : ℕ) (e : Event) (es : List Event)
    → is_tick e ≡ true
    → is_not_paid c e ≡ true
    → m ≡ (if is_unpaid_tick c e then suc n else n)
    → Fills c m es
    → Fills c n (e ∷ es)
Fills-counts c n m e es alive unsettled next (inr x) = inr (Exhausts-before c e es alive x)
Fills-counts c n m e es alive unsettled next (inl (window, after, splits, not_paid, enough)) = inl (
  e ∷ window,
  after,
  ap (λ fs. e ∷ fs) splits,
  (unsettled, not_paid),
  ground (arith, next, enough),
)

Fills-restarts :
    (c : EscrowWatchdogConfig) (n : ℕ) (e : Event) (es : List Event)
    → is_tick e ≡ true
    → Fills c 0 es
    → Fills c n (e ∷ es)
Fills-restarts c n e es alive (inr x) = inr (Exhausts-before c e es alive x)
Fills-restarts c n e es alive (inl (window, after, splits, not_paid, enough)) = inr (record {
  before = e ∷ [];
  window = window;
  after = after;
  splits = ap (λ fs. e ∷ fs) splits;
  alive = (alive, tt);
  not_paid = not_paid;
  enough = omega (arith, enough);
})

module _ (core_ok : Bool) (c : EscrowWatchdogConfig)
    (fits : c.max_consecutive_failures < u32_modulus) where
  watch-Fills :
      (es : List Event) (n : ℕ) (t : Task)
      → IsWaiting c n t
      → 0 < count is_deprovision (watch core_ok es t).effects
      → Fills c n es
  unfolding watch
  watch-Fills [] n t h fired = absurd (omega (arith, h.quiet, fired))
  watch-Fills (shuts_down ∷ es) n t h fired =
      absurd (omega (arith, shutdown_is_quiet core_ok c n es t h, fired))
  watch-Fills (ticks rpc now writes ∷ es) n t h fired = elim (Bool-cases (is_unpaid c rpc)) [
    | inl unpaid ↦ elim (unpaid_round core_ok c fits rpc now writes n t unpaid h) [
      | inl done ↦ inl (
        ticks rpc now writes ∷ [],
        es,
        refl,
        (ground (arith, unpaid), tt),
        ground (arith, unpaid, done.0),
      )
      | inr waits ↦
          Fills-counts c n (suc n) _ es refl (ground (arith, unpaid)) (ground (arith, unpaid))
            (watch-Fills es (suc n) _ waits fired)
    ]
    | inr covered ↦
        let waits = round-paid core_ok c fits rpc now writes n t covered h in
        elim (Bool-cases (is_paid c rpc)) [
          | inl paid ↦ Fills-restarts c n _ es refl (
              watch-Fills es 0 _
                (subst
                  (λ b. IsWaiting c (if b then 0 else n) (round core_ok (ticks rpc now writes) t))
                  paid waits)
                fired)
          | inr unread ↦
              Fills-counts c n n _ es refl (ground (arith, unread)) (ground (arith, covered)) (
                watch-Fills es n _
                  (subst
                    (λ b. IsWaiting c (if b then 0 else n) (round core_ok (ticks rpc now writes) t))
                    unread waits)
                  fired)
        ]
  ]

  -- The watchdog deprovisions in time: from a valid configuration, whose threshold is a u32, a task
  -- whose events hold a window of ticks of which none finds the rate covered and as many as the
  -- threshold find it not covered, with no shutdown before the window's end, returns, and it has
  -- called `deprovision_core` once. Failed calls of the endpoint may stand between the unpaid ones.
  pub watch_fires :
      (file : Option BillingStatus) (events : List Event)
      → validate c ≡ inr tt
      → Exhausts c events
      → IsExhausted (watch core_ok events (spawn_watchdog c file))
  watch_fires file events valid x =
      let start = spawn_watchdog c file in
      let fired : IsExhausted (watch core_ok (x.before ++ (x.window ++ x.after)) start) =
        rw
          (
            watch-append core_ok x.before (x.window ++ x.after) start,
            watch-append core_ok x.window x.after (watch core_ok x.before start),
          )
          (elim (watch-alive core_ok c fits x.before 0 start x.alive
            (spawn_watchdog-IsWaiting c file valid)) [
              | inr done ↦
                  watch-IsExhausted core_ok x.after _ (watch-IsExhausted core_ok x.window _ done)
              | inl (m, waits) ↦ watch-IsExhausted core_ok x.after _ (
                  watch-unpaid core_ok c fits x.window m _ x.not_paid (omega (arith, x.enough))
                    waits)
            ]) in
      subst (λ es. IsExhausted (watch core_ok es start)) (sym x.splits) fired

  -- The watchdog never deprovisions early: from a valid configuration, whose threshold is a u32, a
  -- task that has called `deprovision_core` has received a window of ticks of which none found the
  -- rate covered and as many as the threshold found it not covered, and no shutdown before its end.
  pub watch_is_patient :
      (file : Option BillingStatus) (events : List Event)
      → validate c ≡ inr tt
      → 0 < count is_deprovision (watch core_ok events (spawn_watchdog c file)).effects
      → Exhausts c events
  watch_is_patient file events valid fired =
      elim (watch-Fills events 0 (spawn_watchdog c file) (spawn_watchdog-IsWaiting c file valid)
        fired) [
          | inr x ↦ x
          | inl (window, after, splits, not_paid, enough) ↦ record {
            before = [];
            window = window;
            after = after;
            splits = splits;
            alive = tt;
            not_paid = not_paid;
            enough = omega (arith, enough);
          }
        ]
