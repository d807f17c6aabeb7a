-- ===== src/Gc/Calls.antt =====
-- What the collection asks of the outside, against the retention periods and the rule of the object
-- store.
use text.Mathlib.TextPositions.{eq_refl}
use ai_agent_sandbox_bluepri.Base.{
  ◌≡◌, refl, ℕ, ◌+◌, ◌<◌, String, string_eq, Bool, true, false, ◌&&◌, ◌||◌, Option, none, some,
  List, [], ◌∷◌, ok, arith, All, leb, ◌==◌, is_none, Option-cases, inl, inr, u64_modulus,
}
use ai_agent_sandbox_bluepri.Base.Map.{Map}
use ai_agent_sandbox_bluepri.Base.Text.{codes, starts_with}
use ai_agent_sandbox_bluepri.Sandbox.{SandboxRecord, SidecarRuntimeConfig}
use ai_agent_sandbox_bluepri.Lifecycle.{
  World, Outside, Call, vm_delete, container_remove, image_remove, s3_delete, is_stopped, write,
  change, forget, called, delete_call, delete_sidecar, remove_snapshot_image, for_each,
}
use ai_agent_sandbox_bluepri.Gc.{
  gc_record, gc_tick, gc_firecracker, gc_tiers, hot_to_warm, warm_to_cold, cold_to_gone,
  is_operator_s3, is_due, is_hot_due, is_warm_due, is_cold_due, is_vm_due, is_empty, since_due,
}

-- The retention has passed since a time that is known.
abbrev pub has_passed : ℕ → ℕ → Option ℕ → Bool
has_passed retention now none = false
has_passed retention now (some since) = leb (since + retention) now

abbrev pub is_text : Option String → String → Bool
is_text none t = false
is_text (some s) t = s == t

-- The URL is below the operator's prefix, and the sandbox has no destination of its user.
abbrev pub is_operators : SidecarRuntimeConfig → SandboxRecord → String → Bool
is_operators config r url =
    is_none r.snapshot_destination && elim config.snapshot_destination_prefix [
      | none ↦ false
      | some prefix ↦ starts_with (codes prefix) (codes url)
    ]

-- What may be asked for a stopped sandbox outside a TEE at a time.
abbrev pub is_permitted : SidecarRuntimeConfig → ℕ → SandboxRecord → Call → Bool
is_permitted config now r (container_remove id) =
    (id == r.container_id) && has_passed config.sandbox_gc_hot_retention now r.stopped_at
is_permitted config now r (vm_delete id) =
    (id == r.container_id) && has_passed config.sandbox_gc_hot_retention now r.stopped_at
is_permitted config now r (image_remove image) =
    is_text r.snapshot_image_id image
    && has_passed config.sandbox_gc_warm_retention now r.container_removed_at
is_permitted config now r (s3_delete url) =
    is_text r.snapshot_s3_url url
    && (is_operators config r url
        && (has_passed config.sandbox_gc_cold_retention now r.image_removed_at
            || has_passed config.sandbox_gc_cold_retention now r.container_removed_at))
is_permitted config now r _ = false

-- Some record of the list permits the call.
abbrev pub is_permitted_by : SidecarRuntimeConfig → ℕ → List SandboxRecord → Call → Bool
is_permitted_by config now [] call = false
is_permitted_by config now (r ∷ rs) call =
    (is_stopped r.state && (is_none r.tee_deployment_id && is_permitted config now r call))
    || is_permitted_by config now rs call

abbrev pub all_calls : (Call → Bool) → List Call → Bool
all_calls p [] = true
all_calls p (call ∷ calls) = p call && all_calls p calls

abbrev pub Fits : ℕ → Option ℕ → Type 0
Fits retention none = Unit
Fits retention (some since) = since + retention < u64_modulus

-- The times of a record are below the largest u64, with the retention periods added.
pub record IsTimed (config : SidecarRuntimeConfig) (r : SandboxRecord) : Type 0 where
  pub hot_fits : Fits config.sandbox_gc_hot_retention r.stopped_at
  pub warm_fits : Fits config.sandbox_gc_warm_retention r.container_removed_at
  pub cold_fits : Fits config.sandbox_gc_cold_retention r.image_removed_at
  pub vm_fits : Fits config.sandbox_gc_cold_retention r.container_removed_at

abbrev Permits : SidecarRuntimeConfig → ℕ → (Call → Bool) → SandboxRecord → Type 0
Permits config now p r =
    (call : Call)
    → (is_stopped r.state && (is_none r.tee_deployment_id && is_permitted config now r call)) ≡ true
    → p call ≡ true

module _ (o : Outside) (config : SidecarRuntimeConfig) (now : ℕ) (p : Call → Bool) where
  cold-calls :
      (r : SandboxRecord) (w : World)
      → Permits config now p r
      → is_stopped r.state ≡ true
      → r.tee_deployment_id ≡ none
      → (has_passed config.sandbox_gc_cold_retention now r.image_removed_at
          || has_passed config.sandbox_gc_cold_retention now r.container_removed_at)
        ≡ true
      → all_calls p w.calls ≡ true
      → all_calls p (cold_to_gone o config r w).calls ≡ true
  unfolding cold_to_gone forget write called is_operator_s3
  cold-calls r w permits stopped no_tee passed h = elim (Option-cases r.snapshot_s3_url) [
    | inl e ↦ ground (arith, e)
    | inr (url, e) ↦ ground (arith, e, permits (s3_delete url), eq_refl url)
  ]

  warm-calls :
      (r : SandboxRecord) (w : World)
      → Permits config now p r
      → is_stopped r.state ≡ true
      → r.tee_deployment_id ≡ none
      → has_passed config.sandbox_gc_warm_retention now r.container_removed_at ≡ true
      → all_calls p w.calls ≡ true
      → all_calls p (warm_to_cold o now r w).calls ≡ true
  unfolding warm_to_cold change forget write called remove_snapshot_image
  warm-calls r w permits stopped no_tee passed h = elim (Option-cases r.snapshot_image_id) [
    | inl e ↦ ground (arith, e)
    | inr (image, e) ↦ ground (arith, e, permits (image_remove image), eq_refl image)
  ]

  hot-calls :
      (r : SandboxRecord) (w : World)
      → Permits config now p r
      → is_stopped r.state ≡ true
      → r.tee_deployment_id ≡ none
      → has_passed config.sandbox_gc_hot_retention now r.stopped_at ≡ true
      → all_calls p w.calls ≡ true
      → all_calls p (hot_to_warm o now r w).calls ≡ true
  unfolding hot_to_warm delete_sidecar delete_call change forget write called
  hot-calls r w permits stopped no_tee passed h = ground (
    arith,
    permits (vm_delete r.container_id),
    permits (container_remove r.container_id),
    eq_refl r.container_id,
  )

  passed :
      (retention : ℕ) (since : Option ℕ)
      → Fits retention since
      → since_due retention now since ≡ has_passed retention now since
  unfolding is_due
  passed retention none fits = refl
  passed retention (some t) fits = ground arith

  tiers-calls :
      (r : SandboxRecord) (w : World)
      → Permits config now p r
      → IsTimed config r
      → is_stopped r.state ≡ true
      → r.tee_deployment_id ≡ none
      → all_calls p w.calls ≡ true
      → all_calls p (gc_tiers o config now r w).calls ≡ true
  unfolding gc_tiers is_hot_due is_warm_due is_cold_due is_empty forget write
  tiers-calls r w permits timed stopped no_tee h = ground (
    arith,
    passed config.sandbox_gc_hot_retention r.stopped_at timed.hot_fits,
    passed config.sandbox_gc_warm_retention r.container_removed_at timed.warm_fits,
    passed config.sandbox_gc_cold_retention r.image_removed_at timed.cold_fits,
    hot-calls r w permits stopped no_tee,
    warm-calls r w permits stopped no_tee,
    cold-calls r w permits stopped no_tee,
  )

  record-calls :
      (r : SandboxRecord) (w : World)
      → Permits config now p r
      → IsTimed config r
      → all_calls p w.calls ≡ true
      → all_calls p (gc_record o config now r w).calls ≡ true
  unfolding gc_record gc_firecracker is_vm_due is_empty forget write
  record-calls r w permits timed h = ground (
    arith,
    passed config.sandbox_gc_cold_retention r.container_removed_at timed.vm_fits,
    tiers-calls r w permits timed,
    cold-calls r w permits,
  )

  loop-calls :
      (rs : List SandboxRecord) (w : World)
      → All (Permits config now p) rs
      → All (IsTimed config) rs
      → all_calls p w.calls ≡ true
      → all_calls p (for_each (gc_record o config now) rs w).calls ≡ true
  unfolding for_each
  loop-calls [] w permits timed h = h
  loop-calls (r ∷ rs) w permits timed h =
      loop-calls rs (gc_record o config now r w) permits.1 timed.1
        (record-calls r w permits.0 timed.0 h)

Permits-weaken :
    (config : SidecarRuntimeConfig) (now : ℕ) (p q : Call → Bool) (rs : List SandboxRecord)
    → ((call : Call) → p call ≡ true → q call ≡ true)
    → All (Permits config now p) rs
    → All (Permits config now q) rs
Permits-weaken config now p q [] weaker h = tt
Permits-weaken config now p q (r ∷ rs) weaker h = (
  λ call permitted. weaker call (h.0 call permitted),
  Permits-weaken config now p q rs weaker h.1,
)

Permits-All :
    (config : SidecarRuntimeConfig) (now : ℕ) (rs : List SandboxRecord)
    → All (Permits config now (is_permitted_by config now rs)) rs
Permits-All config now [] = tt
Permits-All config now (r ∷ rs) = (
  λ call permitted. ground (arith, permitted),
  Permits-weaken config now (is_permitted_by config now rs) (is_permitted_by config now (r ∷ rs)) rs
      (λ call h. ground (arith, h)) (Permits-All config now rs),
)

-- Whatever a tick of the collection asks of the outside is permitted by a record that it read, which
-- is stopped and not in a TEE: a container or a VM is deleted once the hot retention has passed since
-- the stop, an image of the record is removed once the warm retention has passed since the container
-- was removed, and an S3 object is deleted once the cold retention has passed, if it is the snapshot
-- of the record, lies below the operator's prefix, and the sandbox has no destination of its user.
-- The times of the records do not overflow, whatever the outside answers.
pub gc_tick-permitted :
    (o : Outside) (config : SidecarRuntimeConfig) (now : ℕ) (records : List SandboxRecord)
    (store : Map String SandboxRecord)
    → All (IsTimed config) records
    → all_calls
        (is_permitted_by config now records)
        (gc_tick o config now (ok records) (record { store = store; calls = [] })).calls
      ≡ true
unfolding gc_tick
gc_tick-permitted o config now records store timed =
    loop-calls o config now (is_permitted_by config now records) records _
      (Permits-All config now records) timed refl
