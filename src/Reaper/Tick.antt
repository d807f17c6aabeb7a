-- ===== src/Reaper/Tick.antt =====
-- A tick of the reaper over the whole store.
use text.Mathlib.TextPositions.{eq_refl}
use ai_agent_sandbox_bluepri.Base.{
  ◌≡◌, refl, ap, subst, ℕ, String, string_eq, Bool, true, false, ◌&&◌, Option, some, Result, ok,
  err, arith, if◌then◌else◌, ◌==◌, ◌>>=◌,
}
use ai_agent_sandbox_bluepri.Base.Map.{lookup, values}
use ai_agent_sandbox_bluepri.Sandbox.{SandboxRecord, SidecarRuntimeConfig}
use ai_agent_sandbox_bluepri.Lifecycle.{World, Outside, unseal_record}
use ai_agent_sandbox_bluepri.Lifecycle.Loop.{IsStore, IsLocal, HasFate, for_each-fate}
use ai_agent_sandbox_bluepri.Reaper.{reaper_tick, reap_record, with_unsealed, reap_unsealed}
use ai_agent_sandbox_bluepri.Reaper.Fate.{unsealed_fate, unsealed-entry, idle-entry, expired-entry}

-- A record with other secrets.
abbrev pub resealed : SandboxRecord → String → String → String → SandboxRecord
resealed r token base_env_json user_env_json = record r {
  token = token;
  base_env_json = base_env_json;
  user_env_json = user_env_json;
}

-- Only the secrets of a record change when it is unsealed.
resealed-unseal_record :
    (r u : SandboxRecord) (token base user : Result String)
    → (do t ← token; b ← base; e ← user; ok (resealed r t b e)) ≡ ok u
    → (t : String) × (b : String) × (e : String) × (resealed r t b e ≡ u)
resealed-unseal_record r u (ok t) (ok b) (ok e) h = (t, b, e, cc)
resealed-unseal_record r u (err x) base user h = cc
resealed-unseal_record r u (ok t) (err x) user h = cc
resealed-unseal_record r u (ok t) (ok b) (err x) h = cc

pub unseal_record-fields :
    (o : Outside) (r u : SandboxRecord)
    → unseal_record o r ≡ ok u
    → (t : String) × (b : String) × (e : String) × (resealed r t b e ≡ u)
unfolding unseal_record
unseal_record-fields o r u h =
    resealed-unseal_record r u (o.unseal_field r.token) (o.unseal_field r.base_env_json)
      (o.unseal_field r.user_env_json) h

and_true : (b : Bool) → (b && true) ≡ b
and_true b = ground arith

-- What becomes of a record in a tick of the reaper.
abbrev pub reaper_fate : Outside → SidecarRuntimeConfig → ℕ → SandboxRecord → Option SandboxRecord
reaper_fate o config now r = elim (unseal_record o r) [
  | ok u ↦ if o.writes r.id then unsealed_fate o config now u r else some r
  | err e ↦ some r
]

module _ (o : Outside) (config : SidecarRuntimeConfig) (now : ℕ) where
  unsealed-other :
      (u : SandboxRecord) (w : World) (k : String)
      → (u.id == k) ≡ false
      → lookup k (reap_unsealed o config now u w).store ≡ lookup k w.store
  unfolding reap_unsealed
  unsealed-other u w k h =
      ground (arith, h, idle-entry o config u k w, expired-entry o config u k w)

  with_unsealed-local :
      (r : SandboxRecord) (w : World) (k : String) (x : Result SandboxRecord)
      → unseal_record o r ≡ x
      → (r.id == k) ≡ false
      → lookup k (with_unsealed o config now x w).store ≡ lookup k w.store
  with_unsealed-local r w k (err e) h other = refl
  with_unsealed-local r w k (ok u) h other =
      let (t, b, e, same) = unseal_record-fields o r u h in
      unsealed-other u w k (rw (ap (λ (s : SandboxRecord). s.id) same) at other)

  reap-IsLocal : IsLocal (reap_record o config now)
  unfolding reap_record
  reap-IsLocal r w k other = with_unsealed-local r w k (unseal_record o r) refl other

  with_unsealed-fate :
      (r : SandboxRecord) (w : World) (x : Result SandboxRecord)
      → unseal_record o r ≡ x
      → lookup r.id w.store ≡ some r
      → lookup r.id (with_unsealed o config now x w).store ≡ elim x [
        | ok u ↦ if o.writes r.id then unsealed_fate o config now u r else some r
        | err e ↦ some r
      ]
  with_unsealed-fate r w (err e) h at = at
  with_unsealed-fate r w (ok u) h at =
      let (t, b, e, same) = unseal_record-fields o r u h in
      subst
        (λ (u : SandboxRecord).
          lookup r.id (reap_unsealed o config now u w).store
          ≡ (if o.writes r.id then unsealed_fate o config now u r else some r))
        same
        (rw (eq_refl r.id, and_true (o.writes r.id)) at
          (unsealed-entry o config now (resealed r t b e) r r.id w at))

  reap-fate : HasFate (reap_record o config now) (reaper_fate o config now)
  unfolding reap_record
  reap-fate r w at = with_unsealed-fate r w (unseal_record o r) refl at

-- A tick of the reaper makes of each record what its own fields, the time and the answers of the
-- outside say, whatever else the store holds and in whatever order it is read. The store holds the
-- record under its id, once.
pub reaper_tick-fate :
    (o : Outside) (config : SidecarRuntimeConfig) (now : ℕ) (w : World) (r : SandboxRecord)
    → IsStore w.store
    → lookup r.id w.store ≡ some r
    → lookup r.id (reaper_tick o config now (ok (values w.store)) w).store
      ≡ reaper_fate o config now r
unfolding reaper_tick
reaper_tick-fate o config now w r h at =
    for_each-fate (reap_record o config now) (reaper_fate o config now) w.store w r
      (reap-IsLocal o config now) (reap-fate o config now) h at at
