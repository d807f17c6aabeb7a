-- ===== src/Provision.antt =====
-- sandbox-runtime/src/provision_progress.rs: the progress of the sandboxes that are being created.
-- The store's key is the decimal text of the call's id; here it is the id. The metadata are a type
-- of the JSON library, and the store answers.
mod Collect
mod History
mod Tests
use ai_agent_sandbox_bluepri.Base.{
  ℕ, ◌-◌, String, nat_eq, Bool, true, false, ◌&&◌, not, Option, none, some, List, [], ◌∷◌,
  if◌then◌else◌, leb, is_some, retain,
}
use ai_agent_sandbox_bluepri.Base.Map.{Map, lookup, insert, remove, update, values}

pub data ProvisionPhase : Type 0 where
  queued image_pull container_create container_start health_check ready failed : ProvisionPhase

abbrev pub progress_pct : ProvisionPhase → ℕ
progress_pct queued = 0
progress_pct image_pull = 20
progress_pct container_create = 40
progress_pct container_start = 60
progress_pct health_check = 80
progress_pct ready = 100
progress_pct failed = 0

abbrev pub is_terminal : ProvisionPhase → Bool
is_terminal ready = true
is_terminal failed = true
is_terminal _ = false

pub record ProvisionStatus (J : Type 0) : Type 0 where
  pub call_id : ℕ
  pub sandbox_id : Option String
  pub phase : ProvisionPhase
  pub message : Option String
  pub started_at : ℕ
  pub updated_at : ℕ
  pub progress : ℕ
  pub sidecar_url : Option String
  pub metadata : J

abbrev pub or_else : Option String → Option String → Option String
or_else none old = old
or_else (some t) old = some t

-- `null` is the JSON value of that name.
module _ {J : Type 0} (null : J) where
  abbrev pub new_status : ℕ → ℕ → ProvisionStatus J
  new_status now call_id = record {
    call_id = call_id;
    sandbox_id = none;
    phase = queued;
    message = some "Queued for provisioning";
    started_at = now;
    updated_at = now;
    progress = 0;
    sidecar_url = none;
    metadata = null;
  }

  unfoldable pub start_provision :
      ℕ → ℕ → Map ℕ (ProvisionStatus J) → ProvisionStatus J × Map ℕ (ProvisionStatus J)
  start_provision now call_id m =
      (new_status now call_id, insert call_id (new_status now call_id) m)

module _ {J : Type 0} where
  -- The closure of `update_provision`.
  abbrev pub updated :
      ℕ
      → ProvisionPhase
      → Option String
      → Option String
      → Option String
      → ProvisionStatus J
      → ProvisionStatus J
  updated now phase message sandbox_id sidecar_url s = record s {
    phase = phase;
    progress = progress_pct phase;
    updated_at = now;
    message = or_else message s.message;
    sandbox_id = or_else sandbox_id s.sandbox_id;
    sidecar_url = or_else sidecar_url s.sidecar_url;
  }

  unfoldable pub update_provision :
      ℕ
      → ℕ
      → ProvisionPhase
      → Option String
      → Option String
      → Option String
      → Map ℕ (ProvisionStatus J)
      → Option (ProvisionStatus J) × Map ℕ (ProvisionStatus J)
  update_provision now call_id phase message sandbox_id sidecar_url m =
      let m' = update call_id (updated now phase message sandbox_id sidecar_url) m in
      (if is_some (lookup call_id m) then lookup call_id m' else none, m')

  abbrev pub set_metadata : J → ProvisionStatus J → ProvisionStatus J
  set_metadata json s = record s { metadata = json }

  unfoldable pub update_provision_metadata :
      ℕ → J → Map ℕ (ProvisionStatus J) → Bool × Map ℕ (ProvisionStatus J)
  update_provision_metadata call_id json m =
      (is_some (lookup call_id m), update call_id (set_metadata json) m)

  abbrev pub get_provision : ℕ → Map ℕ (ProvisionStatus J) → Option (ProvisionStatus J)
  get_provision call_id m = lookup call_id m

  abbrev pub list_active_provisions : Map ℕ (ProvisionStatus J) → List (ProvisionStatus J)
  list_active_provisions m =
      retain (λ (s : ProvisionStatus J). not (is_terminal s.phase)) (values m)

  abbrev pub list_all_provisions : Map ℕ (ProvisionStatus J) → List (ProvisionStatus J)
  list_all_provisions m = values m

  abbrev pub is_stale : ℕ → ProvisionStatus J → Bool
  is_stale cutoff s = is_terminal s.phase && leb s.updated_at cutoff

  -- The keys of the stale entries.
  unfoldable pub to_remove : ℕ → List (ProvisionStatus J) → List ℕ
  to_remove cutoff [] = []
  to_remove cutoff (s ∷ ss) =
      if is_stale cutoff s then s.call_id ∷ to_remove cutoff ss else to_remove cutoff ss

  unfoldable pub remove_all : List ℕ → Map ℕ (ProvisionStatus J) → Map ℕ (ProvisionStatus J)
  remove_all [] m = m
  remove_all (key ∷ keys) m = remove_all keys (remove key m)

  -- The subtraction stops at 0.
  unfoldable pub gc_provisions : ℕ → ℕ → Map ℕ (ProvisionStatus J) → Map ℕ (ProvisionStatus J)
  unfolding to_remove remove_all
  gc_provisions now max_age_secs m = remove_all (to_remove (now - max_age_secs) (values m)) m
