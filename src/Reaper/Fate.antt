-- ===== src/Reaper/Fate.antt =====
-- What becomes of each record in a tick of the reaper.
use ai_agent_sandbox_bluepri.Base.{
  ◌≡◌, refl, ℕ, String, string_eq, Bool, false, ◌&&◌, Option, none, some, Result, ok, err, arith,
  if◌then◌else◌, ◌==◌, is_ok,
}
use ai_agent_sandbox_bluepri.Base.Map.{lookup}
use ai_agent_sandbox_bluepri.Sandbox.{SandboxRecord, SidecarRuntimeConfig}
use ai_agent_sandbox_bluepri.Lifecycle.{
  World, Outside, Call, s3_upload, container_commit, is_stopped, change, called, mark_stopped,
  stop_call, stopping, stop_sidecar, delete_call, deleting, delete_sidecar, commit_container,
}
use ai_agent_sandbox_bluepri.Lifecycle.Loop.{lookup-change, lookup-forget}
use ai_agent_sandbox_bluepri.Reaper.{
  reap_unsealed, reap_idle, reap_stopped, reap_deleted, upload, uploaded, committed, commits,
  set_s3, set_image, is_expired, is_idle, resolve_snapshot_destination,
}

abbrev pub map_option : {A : Type 0} → (A → A) → Option A → Option A
map_option f none = none
map_option f (some a) = some (f a)

-- The entry of a record after a change of it, if the store takes it.
abbrev pub changed :
    Bool → (SandboxRecord → SandboxRecord) → Option SandboxRecord → Option SandboxRecord
changed writes f entry = if writes then map_option f entry else entry

module _ (o : Outside) where
  change-entry :
      (id k : String) (f : SandboxRecord → SandboxRecord) (w : World)
      → lookup k (change o id f w).store ≡ changed (o.writes id && id == k) f (lookup k w.store)
  change-entry id k f w = ground (arith, lookup-change o id k f w)

-- The destination that an upload reached.
abbrev pub uploads : Outside → Option String → Option String
uploads o none = none
uploads o (some dest) = if is_ok (o.answer (s3_upload dest)) then some dest else none

abbrev pub with_s3 : Option String → SandboxRecord → SandboxRecord
with_s3 none r = r
with_s3 (some dest) r = set_s3 dest r

abbrev pub with_image : Result String → SandboxRecord → SandboxRecord
with_image (err e) r = r
with_image (ok image) r = set_image image r

module _ (o : Outside) (config : SidecarRuntimeConfig) where
  uploaded-entry :
      (r : SandboxRecord) (k : String) (dest : String) (answer : Result (Unit {0})) (w : World)
      → lookup k (uploaded o r dest answer w).store
        ≡ changed
            (o.writes r.id && r.id == k)
            (with_s3 (if is_ok answer then some dest else none))
            (lookup k w.store)
  uploaded-entry r k dest (ok tt) w = change-entry o r.id k (set_s3 dest) w
  uploaded-entry r k dest (err e) w = ground arith

  upload-entry :
      (r : SandboxRecord) (k : String) (dest : Option String) (w : World)
      → lookup k (upload o r dest w).store
        ≡ changed (o.writes r.id && r.id == k) (with_s3 (uploads o dest)) (lookup k w.store)
  unfolding called
  upload-entry r k none w = ground arith
  upload-entry r k (some dest) w =
      uploaded-entry r k dest (o.answer (s3_upload dest)) (called (s3_upload dest) w)

  committed-entry :
      (r : SandboxRecord) (k : String) (w : World) (image : Result String)
      → lookup k (committed o r (w, image)).store
        ≡ changed (o.writes r.id && r.id == k) (with_image image) (lookup k w.store)
  committed-entry r k w (ok image) = change-entry o r.id k (set_image image) w
  committed-entry r k w (err e) = ground arith

  stopping-entry :
      (r : SandboxRecord) (k : String) (answer : Result (Unit {0})) (w : World)
      → lookup k (stopping o r answer w).0.store
        ≡ changed
            (is_ok answer && (o.writes r.id && r.id == k))
            (mark_stopped (o.clock r.id))
            (lookup k w.store)
  unfolding stopping
  stopping-entry r k (ok tt) w = change-entry o r.id k (mark_stopped (o.clock r.id)) w
  stopping-entry r k (err e) w = refl

  -- What follows the answer of the stop.
  abbrev pub commit_change : SandboxRecord → SandboxRecord → SandboxRecord
  commit_change u r = if commits o config u then with_image (o.image_id u.container_id) r else r

  reap_stopped-entry :
      (u : SandboxRecord) (k : String) (answer : Result (Unit {0})) (w : World)
      → lookup k (reap_stopped o config u (stopping o u answer w)).store
        ≡ changed
            (is_ok answer && (o.writes u.id && u.id == k))
            (λ (r : SandboxRecord). commit_change u (mark_stopped (o.clock u.id) r))
            (lookup k w.store)
  unfolding stopping commits commit_container called
  reap_stopped-entry u k (err e) w = refl
  reap_stopped-entry u k (ok tt) w =
      let stopped_world = change o u.id (mark_stopped (o.clock u.id)) w in
      ground (
        arith,
        change-entry o u.id k (mark_stopped (o.clock u.id)) w,
        committed-entry u k (called (container_commit u.container_id) stopped_world)
            (o.image_id u.container_id),
      )

  -- What the reaper makes of the entry of an idle sandbox.
  abbrev pub idle_change : SandboxRecord → SandboxRecord → SandboxRecord
  idle_change u r =
      let saved = with_s3 (uploads o (resolve_snapshot_destination u config)) r in
      if is_ok (o.answer (stop_call o u))
      then commit_change u (mark_stopped (o.clock u.id) saved)
      else saved

  pub idle-entry :
      (u : SandboxRecord) (k : String) (w : World)
      → is_stopped u.state ≡ false
      → lookup k (reap_idle o config u w).store
        ≡ changed (o.writes u.id && u.id == k) (idle_change u) (lookup k w.store)
  unfolding reap_idle stop_sidecar called
  idle-entry u k w h =
      let saved = upload o u (resolve_snapshot_destination u config) w in
      ground (
        arith,
        h,
        upload-entry u k (resolve_snapshot_destination u config) w,
        reap_stopped-entry u k (o.answer (stop_call o u)) (called (stop_call o u) saved),
      )

  -- What the reaper makes of a record: what stays of it, if it stays. `u` is the record unsealed.
  abbrev pub unsealed_fate : ℕ → SandboxRecord → SandboxRecord → Option SandboxRecord
  unsealed_fate now u r =
      if is_stopped u.state
      then some r
      else if is_expired now u
      then (if elim (delete_call o u) [ ok call ↦ is_ok (o.answer call) | err e ↦ false ]
          then none
          else some r)
      else if is_idle now u
      then some (idle_change u r)
      else some r

  deleted-entry :
      (u : SandboxRecord) (k : String) (w : World) (answer : Result (Unit {0}))
      → lookup k (reap_deleted o u (w, answer)).store
        ≡ (if is_ok answer && (o.writes u.id && u.id == k) then none else lookup k w.store)
  deleted-entry u k w (ok tt) = lookup-forget o u.id k w
  deleted-entry u k w (err e) = refl

  pub expired-entry :
      (u : SandboxRecord) (k : String) (w : World)
      → lookup k (reap_deleted o u (delete_sidecar o u w)).store ≡ (
          if elim (delete_call o u) [ ok call ↦ is_ok (o.answer call) | err e ↦ false ]
            && (o.writes u.id && u.id == k)
          then none
          else lookup k w.store)
  unfolding delete_sidecar deleting called
  expired-entry u k w =
      elim (delete_call o u)
        as (λ (call : Result Call). lookup k (reap_deleted o u (deleting o call w)).store ≡ (
          if elim call [ ok c ↦ is_ok (o.answer c) | err e ↦ false ] && (o.writes u.id && u.id == k)
          then none
          else lookup k w.store)) [
            | ok call ↦ deleted-entry u k (called call w) (o.answer call)
            | err e ↦ refl
          ]

  pub unsealed-entry :
      (now : ℕ) (u r : SandboxRecord) (k : String) (w : World)
      → lookup k w.store ≡ some r
      → lookup k (reap_unsealed o config now u w).store
        ≡ (if o.writes u.id && u.id == k then unsealed_fate now u r else some r)
  unfolding reap_unsealed
  unsealed-entry now u r k w h = ground (arith, h, idle-entry u k w, expired-entry u k w)
