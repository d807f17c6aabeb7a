-- ===== src/Reaper/Limits.antt =====
-- The limits that a tick of the reaper enforces where the outside answers.
use ai_agent_sandbox_bluepri.Base.{
  ◌≡◌, refl, ℕ, ◌+◌, ◌%◌, ◌<◌, string_eq, Bool, true, false, ◌&&◌, Option, none, some, Result, ok,
  err, arith, if◌then◌else◌, is_ok, u64_modulus, ltb, leb, sym,
}
use ai_agent_sandbox_bluepri.Base.Map.{lookup, values}
use ai_agent_sandbox_bluepri.Sandbox.{
  SandboxState, running, stopped, SandboxRecord, SidecarRuntimeConfig,
}
use ai_agent_sandbox_bluepri.Lifecycle.{
  World, Outside, Call, is_stopped, unseal_record, stop_call, delete_call,
}
use ai_agent_sandbox_bluepri.Lifecycle.Loop.{IsStore}
use ai_agent_sandbox_bluepri.Reaper.{reaper_tick, is_expired, is_idle, activity}
use ai_agent_sandbox_bluepri.Reaper.Fate.{unsealed_fate, idle_change}
use ai_agent_sandbox_bluepri.Reaper.Tick.{
  reaper_fate, reaper_tick-fate, resealed, unseal_record-fields,
}

-- The outside answers for a sandbox: its secrets unseal, a write of its record succeeds, and every
-- call is answered. A sandbox in a TEE has its backend.
pub record IsReachable (o : Outside) (r u : SandboxRecord) : Type 0 where
  pub unseals : unseal_record o r ≡ ok u
  pub writes : o.writes r.id ≡ true
  pub answers : (call : Call) → o.answer call ≡ ok tt
  pub has_backend : o.present ≡ true

-- The sums of the times do not wrap.
pub record IsTimely (r : SandboxRecord) : Type 0 where
  pub lifetime_fits : r.created_at + r.max_lifetime_seconds < u64_modulus
  pub idle_fits : activity r + r.idle_timeout_seconds < u64_modulus

-- The state of an entry and the time of its stop.
abbrev pub status : Option SandboxRecord → Option (SandboxState × Option ℕ)
status none = none
status (some r) = some (r.state, r.stopped_at)

-- A limit of 0 is no limit.
abbrev pub is_over : ℕ → ℕ → ℕ → Bool
is_over since limit now = ltb 0 limit && leb (since + limit) now

idle_change-status :
    (o : Outside) (config : SidecarRuntimeConfig) (u r : SandboxRecord)
    → o.answer (stop_call o u) ≡ ok tt
    → status (some (idle_change o config u r)) ≡ some (stopped, some (o.clock u.id))
idle_change-status o config u r h = ground (arith, h)

answered :
    (o : Outside) (x : Result Call)
    → ((call : Call) → o.answer call ≡ ok tt)
    → is_ok x ≡ true
    → elim x [ ok call ↦ is_ok (o.answer call) | err e ↦ false ] ≡ true
answered o (ok call) answers h = rw (answers call) refl
answered o (err e) answers h = cc

delete_call-ok :
    (o : Outside) (u : SandboxRecord) → o.present ≡ true → is_ok (delete_call o u) ≡ true
unfolding delete_call
delete_call-ok o u present = ground (arith, present)

over :
    (since limit now : ℕ)
    → since + limit < u64_modulus
    → (ltb 0 limit && leb ((since + limit) % u64_modulus) now) ≡ is_over since limit now
over since limit now fits = ground arith

unsealed_fate-status :
    (o : Outside) (config : SidecarRuntimeConfig) (now : ℕ) (u r : SandboxRecord)
    → ((call : Call) → o.answer call ≡ ok tt)
    → o.present ≡ true
    → IsTimely u
    → u.state ≡ running
    → status (unsealed_fate o config now u r) ≡ (
        if is_over u.created_at u.max_lifetime_seconds now
        then none
        else if is_over (activity u) u.idle_timeout_seconds now
        then some (stopped, some (o.clock u.id))
        else some (r.state, r.stopped_at))
unfolding is_expired is_idle is_stopped
unsealed_fate-status o config now u r answers present timely runs =
    rw
      (
        answered o (delete_call o u) answers (delete_call-ok o u present),
        over u.created_at u.max_lifetime_seconds now timely.lifetime_fits,
        over (activity u) u.idle_timeout_seconds now timely.idle_fits,
      )
      ground (arith, runs, idle_change-status o config u r (answers (stop_call o u)))

reaper_fate-unsealed :
    (o : Outside) (config : SidecarRuntimeConfig) (now : ℕ) (r u : SandboxRecord)
    → unseal_record o r ≡ ok u
    → o.writes r.id ≡ true
    → reaper_fate o config now r ≡ unsealed_fate o config now u r
reaper_fate-unsealed o config now r u unseals writes = rw (reaper_fate, unseals, writes) refl

-- A tick of the reaper enforces the limits of a running sandbox whose secrets unseal, whose record
-- can be written, and for which every call of the outside succeeds, where there is a TEE backend:
-- past its lifetime its record is gone; else, idle for its timeout, it is stopped at the time that
-- the stop reads; else its state is as it was. A limit of 0 is no limit, and the activity is the
-- creation where none is recorded. The store holds the record under its id, once, and the sums of
-- the times do not wrap.
pub reaper_tick-enforces :
    (o : Outside) (config : SidecarRuntimeConfig) (now : ℕ) (w : World) (r u : SandboxRecord)
    → IsStore w.store
    → lookup r.id w.store ≡ some r
    → r.state ≡ running
    → IsReachable o r u
    → IsTimely r
    → status (lookup r.id (reaper_tick o config now (ok (values w.store)) w).store) ≡ (
        if is_over r.created_at r.max_lifetime_seconds now
        then none
        else if is_over (activity r) r.idle_timeout_seconds now
        then some (stopped, some (o.clock r.id))
        else some (r.state, r.stopped_at))
reaper_tick-enforces o config now w r u h at runs reach timely =
    let (t, b, e, same) = unseal_record-fields o r u reach.unseals in
    rw
      (
        reaper_tick-fate o config now w r h at,
        reaper_fate-unsealed o config now r u reach.unseals reach.writes,
        sym same,
      )
      (unsealed_fate-status o config now (resealed r t b e) r reach.answers reach.has_backend
        (record { lifetime_fits = timely.lifetime_fits; idle_fits = timely.idle_fits }) runs)
