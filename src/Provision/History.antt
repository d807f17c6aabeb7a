-- ===== src/Provision/History.antt =====
-- Any history of the calls on the provisions.
use ai_agent_sandbox_bluepri.Base.{
  ℕ, ◌≤◌, ◌≡◌, refl, nat_eq, String, Option, some, List, [], ◌∷◌, arith, ◌==◌, Bool-cases, inl, inr,
  subst, some-inj,
}
use ai_agent_sandbox_bluepri.Base.Map.{Map, lookup, insert, remove, update, values}
use ai_agent_sandbox_bluepri.Provision.{
  ProvisionPhase, progress_pct, ProvisionStatus, start_provision, update_provision,
  update_provision_metadata, remove_all, to_remove, gc_provisions,
}

-- The calls, with the readings of the clock.
pub data Op (J : Type 0) : Type 0 where
  starts : ℕ → ℕ → Op J
  updates : ℕ → ℕ → ProvisionPhase → Option String → Option String → Option String → Op J
  sets_metadata : ℕ → J → Op J
  collects : ℕ → ℕ → Op J

module _ {J : Type 0} (null : J) where
  unfoldable pub step : Op J → Map ℕ (ProvisionStatus J) → Map ℕ (ProvisionStatus J)
  step (starts now call_id) m = (start_provision null now call_id m).1
  step (updates now call_id phase message sandbox_id sidecar_url) m =
      (update_provision now call_id phase message sandbox_id sidecar_url m).1
  step (sets_metadata call_id json) m = (update_provision_metadata call_id json m).1
  step (collects now max_age_secs) m = gc_provisions now max_age_secs m

  unfoldable pub run : List (Op J) → Map ℕ (ProvisionStatus J) → Map ℕ (ProvisionStatus J)
  run [] m = m
  run (op ∷ ops) m = run ops (step op m)

-- The clock of a history: no reading is before the last one.
abbrev pub IsChain : {J : Type 0} → ℕ → List (Op J) → Type 0
IsChain since [] = Unit
IsChain since (starts now call_id ∷ ops) = (since ≤ now) × IsChain now ops
IsChain since (updates now call_id phase message sandbox_id sidecar_url ∷ ops) =
    (since ≤ now) × IsChain now ops
IsChain since (sets_metadata call_id json ∷ ops) = IsChain since ops
IsChain since (collects now max_age_secs ∷ ops) = (since ≤ now) × IsChain now ops

-- A status is under its call's id, shows the percentage of its phase, and was changed after its
-- start and not after the reading `now`.
pub record IsGood {J : Type 0} (now k : ℕ) (s : ProvisionStatus J) : Type 0 where
  pub keyed : k ≡ s.call_id
  pub shown : s.progress ≡ progress_pct s.phase
  pub started : s.started_at ≤ s.updated_at
  pub changed : s.updated_at ≤ now

abbrev pub AllGood : {J : Type 0} → ℕ → Map ℕ (ProvisionStatus J) → Type 0
AllGood now [] = Unit
AllGood now ((k, s) ∷ m) = IsGood now k s × AllGood now m

module _ {J : Type 0} where
  IsGood-later :
      (now later k : ℕ) (s : ProvisionStatus J) → now ≤ later → IsGood now k s → IsGood later k s
  IsGood-later now later k s le g = record {
    keyed = g.keyed;
    shown = g.shown;
    started = g.started;
    changed = omega (arith, g.changed);
  }

  all-later :
      (now later : ℕ) (m : Map ℕ (ProvisionStatus J))
      → now ≤ later
      → AllGood now m
      → AllGood later m
  all-later now later [] le g = tt
  all-later now later ((k, s) ∷ m) le g =
      (IsGood-later now later k s le g.0, all-later now later m le g.1)

  remove-AllGood :
      (now k : ℕ) (m : Map ℕ (ProvisionStatus J)) → AllGood now m → AllGood now (remove k m)
  unfolding remove
  remove-AllGood now k [] g = tt
  remove-AllGood now k ((j, s) ∷ m) g = elim (Bool-cases (j == k)) [
    | inl e ↦ rw e (remove-AllGood now k m g.1)
    | inr e ↦ rw e (g.0, remove-AllGood now k m g.1)
  ]

  update-AllGood :
      (now k : ℕ) (f : ProvisionStatus J → ProvisionStatus J) (m : Map ℕ (ProvisionStatus J))
      → ((j : ℕ) (s : ProvisionStatus J) → IsGood now j s → IsGood now j (f s))
      → AllGood now m
      → AllGood now (update k f m)
  unfolding update
  update-AllGood now k f [] keeps g = tt
  update-AllGood now k f ((j, s) ∷ m) keeps g = elim (Bool-cases (j == k)) [
    | inl e ↦ rw e (keeps j s g.0, g.1)
    | inr e ↦ rw e (g.0, update-AllGood now k f m keeps g.1)
  ]

  remove_all-AllGood :
      (now : ℕ) (keys : List ℕ) (m : Map ℕ (ProvisionStatus J))
      → AllGood now m
      → AllGood now (remove_all keys m)
  unfolding remove_all
  remove_all-AllGood now [] m g = g
  remove_all-AllGood now (k ∷ keys) m g =
      remove_all-AllGood now keys (remove k m) (remove-AllGood now k m g)

  start-AllGood :
      (null : J) (now call_id : ℕ) (m : Map ℕ (ProvisionStatus J))
      → AllGood now m
      → AllGood now (start_provision null now call_id m).1
  unfolding start_provision insert
  start-AllGood null now call_id m g = (
    record { keyed = refl; shown = refl; started = omega arith; changed = omega arith },
    remove-AllGood now call_id m g,
  )

  run-AllGood :
      (null : J) (since : ℕ) (ops : List (Op J)) (m : Map ℕ (ProvisionStatus J))
      → IsChain since ops
      → AllGood since m
      → (now : ℕ) × AllGood now (run null ops m)
  unfolding run step update_provision update_provision_metadata gc_provisions
  run-AllGood null since [] m c g = (since, g)
  run-AllGood null since (starts now call_id ∷ ops) m c g =
      run-AllGood null now ops _ c.1
        (start-AllGood null now call_id m (all-later since now m c.0 g))
  run-AllGood null since (updates now call_id phase message sandbox_id sidecar_url ∷ ops) m c g =
      run-AllGood null now ops _ c.1 (
        update-AllGood now call_id _ m
          (λ j s good. record {
            keyed = good.keyed;
            shown = refl;
            started = omega (arith, good.started, good.changed);
            changed = omega arith;
          })
          (all-later since now m c.0 g))
  run-AllGood null since (sets_metadata call_id json ∷ ops) m c g = run-AllGood null since ops _ c (
      update-AllGood since call_id _ m
        (λ j s good. record {
          keyed = good.keyed;
          shown = good.shown;
          started = good.started;
          changed = good.changed;
        })
        g)
  run-AllGood null since (collects now max_age_secs ∷ ops) m c g =
      run-AllGood null now ops _ c.1
        (remove_all-AllGood now (to_remove _ (values m)) m (all-later since now m c.0 g))

  lookup-AllGood :
      (now k : ℕ) (m : Map ℕ (ProvisionStatus J)) (s : ProvisionStatus J)
      → AllGood now m
      → lookup k m ≡ some s
      → IsGood now k s
  unfolding lookup
  lookup-AllGood now k [] s g h = cc
  lookup-AllGood now k ((j, r) ∷ m) s g h = elim (Bool-cases (j == k)) [
    | inl e ↦
        let same : j ≡ k = ground (arith, e) in
        subst (λ (t : ProvisionStatus J). IsGood now k t) (some-inj (rw e at h))
          (subst (λ i. IsGood now i r) same g.0)
    | inr e ↦ lookup-AllGood now k m s g.1 (rw e at h)
  ]

-- However the calls follow one another, every status that the store of a new operator holds is the
-- one of the call that it is looked up by, shows the percentage of its phase, and was not changed
-- before it was started. The readings of the clock do not fall.
pub run-shown :
    {J : Type 0} (null : J) (ops : List (Op J)) (call_id : ℕ) (s : ProvisionStatus J)
    → IsChain 0 ops
    → lookup call_id (run null ops []) ≡ some s
    → (call_id ≡ s.call_id) × (s.progress ≡ progress_pct s.phase) × (s.started_at ≤ s.updated_at)
run-shown null ops call_id s c h =
    let (now, good) = run-AllGood null 0 ops [] c tt in
    let g = lookup-AllGood now call_id (run null ops []) s good h in (g.keyed, g.shown, g.started)
