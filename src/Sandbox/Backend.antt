-- ===== src/Sandbox/Backend.antt =====
-- What the choice of the backend guarantees.
use ai_agent_sandbox_bluepri.Base.{
  ◌≡◌, ◌≢◌, refl, sym, ap, subst, ◌∙◌, ℕ, List, [], ◌∷◌, ◌++◌, All, String, true, Option, some,
  Result, ok, err, validation, ◌>>=◌, arith, if◌then◌else◌,
}
use ai_agent_sandbox_bluepri.Base.Text.{codes, trim, equal_codes, to_ascii_lowercase}
use ai_agent_sandbox_bluepri.Base.Trim.{IsSpace, IsInk, map_lower-IsInk, trim-padded}
use ai_agent_sandbox_bluepri.Sandbox.{
  CreateSandboxParams, RuntimeBackend, docker, firecracker, tee, is_firecracker, or_env,
  parse_runtime_backend_value, runtime_backend_name, resolve_runtime_backend,
  parse_runtime_backend_from_metadata,
}

name-IsInk : (b : RuntimeBackend) → All IsInk (codes (runtime_backend_name b))
unfolding runtime_backend_name
name-IsInk docker = (refl, (refl, (refl, (refl, (refl, (refl, tt))))))
name-IsInk firecracker =
    (refl, (refl, (refl, (refl, (refl, (refl, (refl, (refl, (refl, (refl, (refl, tt)))))))))))
name-IsInk tee = (refl, (refl, (refl, tt)))

name-ne-nil : (b : RuntimeBackend) → [] ≢ codes (runtime_backend_name b)
unfolding runtime_backend_name
name-ne-nil docker h = cc
name-ne-nil firecracker h = cc
name-ne-nil tee h = cc

-- The value of a name with white space around it and letters of either case.
lower-trim :
    (b : RuntimeBackend) (before name after : List ℕ)
    → All IsSpace before
    → All IsSpace after
    → to_ascii_lowercase name ≡ codes (runtime_backend_name b)
    → to_ascii_lowercase (trim (before ++ (name ++ after))) ≡ codes (runtime_backend_name b)
lower-trim b before [] after spaces more named = absurd (name-ne-nil b named)
lower-trim b before (c ∷ l) after spaces more named =
    let ink = map_lower-IsInk (c ∷ l) (subst (λ m. All IsInk m) (sym named) (name-IsInk b)) in
    rw (trim-padded before after c l spaces more ink) named

parse-value :
    (b : RuntimeBackend) (raw : String)
    → to_ascii_lowercase (trim (codes raw)) ≡ codes (runtime_backend_name b)
    → parse_runtime_backend_value raw ≡ some b
unfolding parse_runtime_backend_value runtime_backend_name equal_codes
parse-value docker raw h = rw h refl
parse-value firecracker raw h = rw h refl
parse-value tee raw h = rw h refl

-- The name that the runtime writes for a backend is read back as that backend, in letters of either
-- case and with any white space before and after it.
pub parse-runtime_backend_name :
    (b : RuntimeBackend) (raw : String) (before name after : List ℕ)
    → codes raw ≡ before ++ (name ++ after)
    → All IsSpace before
    → All IsSpace after
    → to_ascii_lowercase name ≡ codes (runtime_backend_name b)
    → parse_runtime_backend_value raw ≡ some b
parse-runtime_backend_name b raw before name after written spaces more named = parse-value b raw (
    ap (λ cs. to_ascii_lowercase (trim cs)) written
    ∙ lower-trim b before name after spaces more named)

chosen-tee :
    (request : CreateSandboxParams) (x : Result RuntimeBackend) (b : RuntimeBackend)
    → request.tee_required ≡ true
    → (do
      backend ← x
      if request.tee_required
          then (if is_firecracker backend then err validation else ok tee)
          else ok backend)
      ≡ ok b
    → b ≡ tee
chosen-tee request (ok c) b required h = ground arith
chosen-tee request (err e) b required h = cc

-- A request that requires a TEE gets the TEE backend or an error, whatever its metadata and the
-- environment say.
pub resolve_runtime_backend-tee :
    (read_backend : String → Result (Option String)) (env : Option String)
    (request : CreateSandboxParams) (b : RuntimeBackend)
    → request.tee_required ≡ true
    → resolve_runtime_backend read_backend env request ≡ ok b
    → b ≡ tee
unfolding resolve_runtime_backend
resolve_runtime_backend-tee read_backend env request b required h =
    go (parse_runtime_backend_from_metadata read_backend request.metadata_json) h
  where
    go :
        (x : Result (Option RuntimeBackend))
        → (do
          metadata_backend ← x
          backend ← or_env env metadata_backend
          if request.tee_required
              then (if is_firecracker backend then err validation else ok tee)
              else ok backend)
          ≡ ok b
        → b ≡ tee
    go (ok m) h = chosen-tee request (or_env env m) b required h
    go (err e) h = cc
