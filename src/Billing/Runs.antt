-- ===== src/Billing/Runs.antt =====
-- The task over several events: while it waits, over a window that is not paid, and after its return.
use ai_agent_sandbox_bluepri.Base.{
  ℕ, suc, ◌+◌, ◌<◌, ◌≤◌, ◌≡◌, refl, Bool, true, false, Option, some, List, [], ◌∷◌, ◌++◌, ◌⊎◌, inl,
  inr, if◌then◌else◌, arith, count, All, ltb, ltb→lt, subst, u32_modulus, Bool-cases,
}
use ai_agent_sandbox_bluepri.Billing.{
  EscrowWatchdogConfig, Rpc, validate, new_watchdog, BillingStatus,
}
use ai_agent_sandbox_bluepri.Billing.Loop.{
  Event, ticks, shuts_down, Exit, exhausted, Task, round, watch, spawn_watchdog,
}
use ai_agent_sandbox_bluepri.Billing.Window.{
  is_unpaid, is_paid, is_tick, is_unpaid_tick, is_not_paid, IsWaiting, IsExhausted, round-unpaid,
  round-last, round-paid,
}

pub watch-append :
    (core_ok : Bool) (es fs : List Event) (t : Task)
    → watch core_ok (es ++ fs) t ≡ watch core_ok fs (watch core_ok es t)
unfolding watch
watch-append core_ok [] fs t = refl
watch-append core_ok (e ∷ es) fs t = watch-append core_ok es fs (round core_ok e t)

-- A task that has returned stays as it is.
pub watch-returned :
    (core_ok : Bool) (x : Exit) (es : List Event) (t : Task)
    → t.exit ≡ some x
    → watch core_ok es t ≡ t
unfolding watch round
watch-returned core_ok x [] t h = refl
watch-returned core_ok x (e ∷ es) t h =
    let same : round core_ok e t ≡ t = unfold round in rw h refl in
    rw same (watch-returned core_ok x es t h)

pub watch-IsExhausted :
    (core_ok : Bool) (es : List Event) (t : Task) → IsExhausted t → IsExhausted (watch core_ok es t)
watch-IsExhausted core_ok es t h = rw (watch-returned core_ok exhausted es t h.returned) h

pub spawn_watchdog-IsWaiting :
    (c : EscrowWatchdogConfig) (file : Option BillingStatus)
    → validate c ≡ inr tt
    → IsWaiting c 0 (spawn_watchdog c file)
unfolding spawn_watchdog new_watchdog validate
spawn_watchdog-IsWaiting c file valid = record {
  watchdog = refl;
  waits = refl;
  below = ground (arith, valid);
  quiet = refl;
}

module _ (core_ok : Bool) (c : EscrowWatchdogConfig)
    (fits : c.max_consecutive_failures < u32_modulus) where
  -- An unpaid tick counts, or is the last one.
  pub unpaid_round :
      (rpc : Rpc) (now : ℕ) (writes : Bool) (n : ℕ) (t : Task)
      → is_unpaid c rpc ≡ true
      → IsWaiting c n t
      → ((suc n ≡ c.max_consecutive_failures)
          × IsExhausted (round core_ok (ticks rpc now writes) t))
        ⊎ IsWaiting c (suc n) (round core_ok (ticks rpc now writes) t)
  unpaid_round rpc now writes n t unpaid h =
      elim (Bool-cases (ltb (suc n) c.max_consecutive_failures)) [
        | inl less ↦ inr (round-unpaid core_ok c fits rpc now writes n t unpaid h (ltb→lt _ _ less))
        | inr at_end ↦
            let last : suc n ≡ c.max_consecutive_failures = ground (arith, at_end, h.below) in
            inl (last, round-last core_ok c fits rpc now writes n t unpaid h last)
      ]

  -- Over ticks the task waits on, or has deprovisioned.
  pub watch-alive :
      (es : List Event) (n : ℕ) (t : Task)
      → All (λ e. is_tick e ≡ true) es
      → IsWaiting c n t
      → ((m : ℕ) × IsWaiting c m (watch core_ok es t)) ⊎ IsExhausted (watch core_ok es t)
  unfolding watch
  watch-alive [] n t alive h = inl (n, h)
  watch-alive (shuts_down ∷ es) n t alive h = ground (arith, alive.0)
  watch-alive (ticks rpc now writes ∷ es) n t alive h = elim (Bool-cases (is_unpaid c rpc)) [
    | inl unpaid ↦ elim (unpaid_round rpc now writes n t unpaid h) [
      | inl done ↦ inr (watch-IsExhausted core_ok es _ done.1)
      | inr waits ↦ watch-alive es (suc n) _ alive.1 waits
    ]
    | inr covered ↦
        watch-alive es _ _ alive.1 (round-paid core_ok c fits rpc now writes n t covered h)
  ]

  -- Over a window that is never paid, the unpaid ticks add up to the end.
  pub watch-unpaid :
      (es : List Event) (n : ℕ) (t : Task)
      → All (λ e. is_not_paid c e ≡ true) es
      → c.max_consecutive_failures ≤ n + count (is_unpaid_tick c) es
      → IsWaiting c n t
      → IsExhausted (watch core_ok es t)
  unfolding watch
  watch-unpaid [] n t window enough h = absurd (omega (arith, enough, h.below))
  watch-unpaid (shuts_down ∷ es) n t window enough h = ground (arith, window.0)
  watch-unpaid (ticks rpc now writes ∷ es) n t window enough h =
      elim (Bool-cases (is_unpaid c rpc)) [
        | inl unpaid ↦ elim (unpaid_round rpc now writes n t unpaid h) [
          | inl done ↦ watch-IsExhausted core_ok es _ done.1
          | inr waits ↦ watch-unpaid es (suc n) _ window.1 (ground (arith, unpaid, enough)) waits
        ]
        | inr covered ↦
            let unread : is_paid c rpc ≡ false = ground (arith, window.0) in
            watch-unpaid es n _ window.1 (ground (arith, covered, enough)) (
              subst (λ b. IsWaiting c (if b then 0 else n) (round core_ok (ticks rpc now writes) t))
                unread (round-paid core_ok c fits rpc now writes n t covered h))
      ]
