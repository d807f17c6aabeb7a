-- ===== src/Lifecycle.antt =====
-- sandbox-runtime/src/runtime/lifecycle.rs (stop, delete), runtime/snapshots.rs (commit, remove) and
-- `unseal_record` of runtime/secrets.rs: a sandbox is stopped, deleted or committed. A call of the
-- hypervisor, of Docker, of the TEE backend or of the object store is kept in the order of the
-- calls, the newest first, whatever it answers.
pub mod Loop
pub mod Samples
mod Tests
use ai_agent_sandbox_bluepri.Base.{
  ℕ, String, string_eq, Bool, true, false, Option, none, some, List, [], ◌∷◌, Result, ok, err,
  validation, ◌>>=◌, if◌then◌else◌,
}
use ai_agent_sandbox_bluepri.Base.Map.{Map, update, remove}
use ai_agent_sandbox_bluepri.Sandbox.{
  SandboxState, running, stopped, SandboxRecord, record_uses_firecracker,
}

-- What is asked of the outside: of a TEE by its deployment, of a VM or a container by its id, of an
-- image by its id, of the object store by the URL.
pub data Call : Type 0 where
  tee_stop tee_destroy vm_stop vm_delete container_stop container_remove container_commit
        image_remove s3_upload s3_delete :
      String → Call

pub record World : Type 0 where
  pub store : Map String SandboxRecord
  pub calls : List Call

-- What the outside answers. `present` tells whether there is a TEE backend, `writes` whether a write
-- of the store under an id succeeds, `clock` the time that the stop of an id reads.
pub record Outside : Type 0 where
  pub read_backend : String → Result (Option String)
  pub unseal_field : String → Result String
  pub present : Bool
  pub answer : Call → Result (Unit {0})
  pub image_id : String → Result String
  pub writes : String → Bool
  pub clock : String → ℕ

unfoldable pub is_stopped : SandboxState → Bool
is_stopped stopped = true
is_stopped running = false

unfoldable pub unseal_record : Outside → SandboxRecord → Result SandboxRecord
unseal_record o r = do
  token ← o.unseal_field r.token
  base_env_json ← o.unseal_field r.base_env_json
  user_env_json ← o.unseal_field r.user_env_json
  ok (record r { token = token; base_env_json = base_env_json; user_env_json = user_env_json })

-- A change of the store, which is lost where the write fails.
unfoldable pub write :
    Outside → String → (Map String SandboxRecord → Map String SandboxRecord) → World → World
write o id f w = if o.writes id then record w { store = f w.store } else w

unfoldable pub change : Outside → String → (SandboxRecord → SandboxRecord) → World → World
unfolding write
change o id f w = write o id (update id f) w

unfoldable pub forget : Outside → String → World → World
unfolding write
forget o id w = write o id (remove id) w

unfoldable pub called : Call → World → World
called call w = record w { calls = call ∷ w.calls }

abbrev pub mark_stopped : ℕ → SandboxRecord → SandboxRecord
mark_stopped now r = record r { state = stopped; stopped_at = some now }

-- The deployment that the TEE backend manages, where there is one.
abbrev pub managed : Outside → SandboxRecord → Option String
managed o r = if o.present then r.tee_deployment_id else none

-- How a running sandbox is stopped.
unfoldable pub stop_call : Outside → SandboxRecord → Call
stop_call o r = elim (managed o r) [
  | some deployment ↦ tee_stop deployment
  | none ↦
      if record_uses_firecracker o.read_backend r
      then vm_stop r.container_id
      else container_stop r.container_id
]

unfoldable pub stopping :
    Outside → SandboxRecord → Result (Unit {0}) → World → World × Result (Unit {0})
stopping o r (ok tt) w = (change o r.id (mark_stopped (o.clock r.id)) w, ok tt)
stopping o r (err e) w = (w, err e)

unfoldable pub stop_sidecar : Outside → SandboxRecord → World → World × Result (Unit {0})
unfolding stopping
stop_sidecar o r w =
    if is_stopped r.state
    then (w, err validation)
    else stopping o r (o.answer (stop_call o r)) (called (stop_call o r) w)

-- How a sandbox is destroyed: an error where it is in a TEE and there is no backend.
unfoldable pub delete_call : Outside → SandboxRecord → Result Call
delete_call o r = elim r.tee_deployment_id [
  | some deployment ↦ if o.present then ok (tee_destroy deployment) else err validation
  | none ↦
      if record_uses_firecracker o.read_backend r
      then ok (vm_delete r.container_id)
      else ok (container_remove r.container_id)
]

unfoldable pub deleting : Outside → Result Call → World → World × Result (Unit {0})
deleting o (ok call) w = (called call w, o.answer call)
deleting o (err e) w = (w, err e)

unfoldable pub delete_sidecar : Outside → SandboxRecord → World → World × Result (Unit {0})
unfolding deleting
delete_sidecar o r w = deleting o (delete_call o r) w

unfoldable pub commit_container : Outside → SandboxRecord → World → World × Result String
commit_container o r w =
    if record_uses_firecracker o.read_backend r
    then (w, err validation)
    else (called (container_commit r.container_id) w, o.image_id r.container_id)

unfoldable pub remove_snapshot_image : Outside → String → World → World × Result (Unit {0})
remove_snapshot_image o image w = (called (image_remove image) w, o.answer (image_remove image))

-- `for record in records`
unfoldable pub for_each : (SandboxRecord → World → World) → List SandboxRecord → World → World
for_each body [] w = w
for_each body (r ∷ rs) w = for_each body rs (body r w)
