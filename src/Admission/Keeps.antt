-- ===== src/Admission/Keeps.antt =====
-- The store after an admitted create: the running sandboxes stay within the budgets.
use text.Mathlib.TextEquality.{eq_iff}
use ai_agent_sandbox_bluepri.Base.{
  ℕ, zero, suc, ◌+◌, ◌<◌, ◌≤◌, ◌≡◌, ◌⊎◌, inl, inr, refl, subst, ap, String, string_eq, true, ◌&&◌,
  Option, none, some, List, [], ◌∷◌, Result, ok, err, eqb, saturating_add, arith, length, ◌>>=◌,
  ◌>>◌, Bool-cases,
}
use ai_agent_sandbox_bluepri.Base.Map.{Map, insert, remove, values, length-remove-le}
use ai_agent_sandbox_bluepri.Sandbox.{SandboxRecord, SidecarRuntimeConfig, CreateSandboxParams}
use ai_agent_sandbox_bluepri.Lifecycle.Loop.{IsKeyed}
use ai_agent_sandbox_bluepri.Admission.{
  Host, scan_records_for_admission, enforce_resource_max, enforce_store_admission,
  admit_sandbox_resources,
}
use ai_agent_sandbox_bluepri.Admission.Scan.{
  running_memory, running_cpu, others, reused_in, IsAdmitted,
}
use ai_agent_sandbox_bluepri.Admission.Create.{IsConfig, scanned-IsAdmitted}

-- An id that the admission read as reused is the one the record is stored under.
abbrev pub Reuses : Option String → String → Type 0
Reuses reused id = (reused ≡ none) ⊎ (reused ≡ some id)

running-remove :
    (m c : ℕ) (id : String) (reused : Option String) (store : Map String SandboxRecord)
    → IsKeyed store
    → Reuses reused id
    → (running_memory m (values (remove id store))
        ≤ running_memory m (others reused (values store)))
      × (running_cpu c (values (remove id store)) ≤ running_cpu c (others reused (values store)))
unfolding remove
running-remove m c id reused [] keyed reuses = (omega arith, omega arith)
running-remove m c id none ((j, r) ∷ store) keyed reuses =
    let (a, b) = running-remove m c id none store keyed.1 reuses in
    (ground (arith, a), ground (arith, b))
running-remove m c id (some x) ((j, r) ∷ store) keyed reuses =
    let (a, b) = running-remove m c id (some x) store keyed.1 reuses in
    (
      ground (arith, a, eq_iff x r.id, eq_iff j id, keyed.0),
      ground (arith, b, eq_iff x r.id, eq_iff j id, keyed.0),
    )

length-values : (store : Map String SandboxRecord) → length (values store) ≡ length store
length-values [] = refl
length-values (e ∷ store) = ap suc (length-values store)

length-remove-reused :
    (id : String) (reused : Option String) (store : Map String SandboxRecord)
    → IsKeyed store
    → Reuses reused id
    → reused_in reused (values store) ≡ true
    → suc (length (remove id store)) ≤ length store
unfolding remove
length-remove-reused id reused [] keyed reuses h = cc
length-remove-reused id none ((j, r) ∷ store) keyed reuses h =
    ground (arith, length-remove-reused id none store keyed.1 reuses)
length-remove-reused id (some x) ((j, r) ∷ store) keyed reuses h = ground (
  arith,
  length-remove-reused id (some x) store keyed.1 reuses,
  length-remove-le id store,
  eq_iff x r.id,
  eq_iff j id,
  keyed.0,
)

-- A limit of 0 is no limit.
abbrev pub Within : ℕ → ℕ → Type 0
Within n limit = (limit ≡ 0) ⊎ (n ≤ limit)

-- What the store is within, once the record of an admitted request is in it.
pub record IsWithin (config : SidecarRuntimeConfig) (reserved : ℕ)
    (store : Map String SandboxRecord) : Type 0 where
  pub memory_within :
      Within
        (running_memory config.sandbox_max_memory_mb (values store) + reserved)
        config.sandbox_host_memory_budget_mb
  pub cpu_within :
      Within
        (running_cpu config.sandbox_max_cpu_cores (values store))
        config.sandbox_host_cpu_budget
  pub count_within : Within (length store) config.sandbox_max_count

within : (n limit : ℕ) → (0 < limit → n ≤ limit) → Within n limit
within n zero h = inl refl
within n (suc limit) h = inr (h (omega arith))

insert-IsWithin :
    (config : SidecarRuntimeConfig) (reserved : ℕ) (r : SandboxRecord) (reused : Option String)
    (store : Map String SandboxRecord)
    → IsKeyed store
    → Reuses reused r.id
    → IsAdmitted config reserved r.memory_mb r.cpu_cores reused (values store)
    → IsWithin config reserved (insert r.id r store)
unfolding insert
insert-IsWithin config reserved r reused store keyed reuses a =
    let (mem, cpu) =
      running-remove config.sandbox_max_memory_mb config.sandbox_max_cpu_cores r.id reused store
        keyed reuses in
    record {
      memory_within = within _ _ (λ pos. ground (arith, mem, a.memory_fits pos));
      cpu_within = within _ _ (λ pos. ground (arith, cpu, a.cpu_fits pos));
      count_within = within _ _ (λ pos. ground (
        arith,
        a.count_fits pos,
        length-values store,
        length-remove-le r.id store,
        length-remove-reused r.id reused store keyed reuses,
      ));
    }

unlimited-IsAdmitted :
    (config : SidecarRuntimeConfig) (reserved memory_mb cpu_cores : ℕ) (reused : Option String)
    (rs : List SandboxRecord)
    → (eqb config.sandbox_host_memory_budget_mb 0
        && (eqb config.sandbox_host_cpu_budget 0 && eqb config.sandbox_max_count 0))
      ≡ true
    → IsAdmitted config reserved memory_mb cpu_cores reused rs
unlimited-IsAdmitted config reserved memory_mb cpu_cores reused rs h = record {
  memory_fits = λ pos. ground arith;
  cpu_fits = λ pos. ground arith;
  count_fits = λ pos. ground arith;
}

-- A store admission that answers ok.
enforce_store_admission-IsAdmitted :
    (config : SidecarRuntimeConfig) (host : Host) (memory_mb cpu_cores f d : ℕ)
    (reused : Option String) (rs : List SandboxRecord)
    → IsConfig config
    → host.records ≡ ok rs
    → host.firecracker_reserved_mb ≡ ok f
    → host.docker_reserved_mb ≡ ok d
    → enforce_store_admission config host memory_mb cpu_cores reused ≡ ok tt
    → IsAdmitted config (saturating_add f d) memory_mb cpu_cores reused rs
unfolding enforce_store_admission scan_records_for_admission
enforce_store_admission-IsAdmitted config host memory_mb cpu_cores f d reused rs c hr hf hd h =
    elim (Bool-cases (
      eqb config.sandbox_host_memory_budget_mb 0
      && (eqb config.sandbox_host_cpu_budget 0 && eqb config.sandbox_max_count 0))) [
        | inl e ↦ unlimited-IsAdmitted config _ memory_mb cpu_cores reused rs e
        | inr e ↦
            scanned-IsAdmitted config host memory_mb cpu_cores f d reused rs c hf hd
              (rw (hr, e) at h)
      ]

-- An accepted step passes its result on, and what follows is `admitted`.
enforced-last :
    (e : Result (Unit {0})) (sent admitted : CreateSandboxParams)
    → (e >> ok sent) ≡ ok admitted
    → (e ≡ ok tt) × (sent ≡ admitted)
enforced-last (ok tt) sent admitted h = (refl, cc)
enforced-last (err e) sent admitted h = cc

-- The store admission is the last thing that an admission asks, of the resources that it answers.
admitted-enforced :
    (config : SidecarRuntimeConfig) (host : Host) (request admitted : CreateSandboxParams)
    (reused : Option String) (cpu memory disk : Result ℕ)
    → (do
      cpu_cores ← cpu
      memory_mb ← memory
      disk_gb ← disk
      enforce_store_admission config host memory_mb cpu_cores reused
      ok (record request { cpu_cores = cpu_cores; memory_mb = memory_mb; disk_gb = disk_gb }))
      ≡ ok admitted
    → enforce_store_admission config host admitted.memory_mb admitted.cpu_cores reused ≡ ok tt
admitted-enforced config host request admitted reused (ok c) (ok m) (ok d) h =
    let sent : CreateSandboxParams = record request { cpu_cores = c; memory_mb = m; disk_gb = d } in
    let (p, q) = enforced-last (enforce_store_admission config host m c reused) sent admitted h in
    subst
      (λ (a : CreateSandboxParams).
        enforce_store_admission config host a.memory_mb a.cpu_cores reused ≡ ok tt)
      q p
admitted-enforced config host request admitted reused (err e) memory disk h = cc
admitted-enforced config host request admitted reused (ok c) (err e) disk h = cc
admitted-enforced config host request admitted reused (ok c) (ok m) (err e) h = cc

-- An admission that answers ok leaves the host within its budgets once the record of the sandbox is
-- in the store. The store holds every record under its id; `reused` is none or the id of the new
-- record; the two warm pools answered the memory they reserve; the record carries the memory and
-- the cores that were admitted, running or not; the budgets are below the largest u64. A limit of 0
-- is no limit.
pub admit_sandbox_resources-IsWithin :
    (config : SidecarRuntimeConfig) (host : Host) (request admitted : CreateSandboxParams)
    (reused : Option String) (store : Map String SandboxRecord) (f d : ℕ) (r : SandboxRecord)
    → IsConfig config
    → IsKeyed store
    → Reuses reused r.id
    → host.records ≡ ok (values store)
    → host.firecracker_reserved_mb ≡ ok f
    → host.docker_reserved_mb ≡ ok d
    → admit_sandbox_resources config host request reused ≡ ok admitted
    → (r.memory_mb ≡ admitted.memory_mb) × (r.cpu_cores ≡ admitted.cpu_cores)
    → IsWithin config (saturating_add f d) (insert r.id r store)
unfolding admit_sandbox_resources
admit_sandbox_resources-IsWithin config host request admitted reused store f d r c keyed reuses hr
      hf hd h (mem, cpu) =
    let enforced =
      admitted-enforced config host request admitted reused
        (enforce_resource_max request.cpu_cores config.sandbox_max_cpu_cores)
        (enforce_resource_max request.memory_mb config.sandbox_max_memory_mb)
        (enforce_resource_max request.disk_gb config.sandbox_max_disk_gb) h in
    let a =
      enforce_store_admission-IsAdmitted config host admitted.memory_mb admitted.cpu_cores f d
        reused (values store) c hr hf hd enforced in
    insert-IsWithin config (saturating_add f d) r reused store keyed reuses (rw (mem, cpu) a)
