-- ===== src/RateLimit/Runs.antt =====
-- Any history of checks: the limiter answers as the limiter that keeps its whole log, and lets no
-- more through a window than its configuration allows.
use ai_agent_sandbox_bluepri.Base.{
  ℕ, ◌+◌, ◌*◌, ◌≤◌, ◌<◌, ◌≡◌, refl, ◌∙◌, ap, Bool, ◌&&◌, List, [], ◌∷◌, if◌then◌else◌, Reads,
  IsOrdered, newer_than, u32_modulus, u64_modulus, arith, Eq, ◌==◌, count-le-length, Bool-cases,
  inl, inr,
}
use ai_agent_sandbox_bluepri.Base.Map.{lookup, insert, lookup-insert, insert-IsMap}
use ai_agent_sandbox_bluepri.RateLimit.{
  RateLimitConfig, Limiter, new_limiter, check_and_record, sweep, check,
}
use ai_agent_sandbox_bluepri.RateLimit.Refinement.{
  new_bucket-IsGood, Log, logged, check_log, bucket, Refines, sweep-config, sweep-Refines,
  check_and_record-verdict, check_and_record-count, check_and_record-IsGood,
}

-- The limits are of their machine types, and twice the window is too.
pub record IsConfig (c : RateLimitConfig) : Type 0 where
  pub max_fits : c.max_requests < u32_modulus
  pub window_fits : c.window_secs * 2 < u64_modulus

module _ {K : Type 0} ⦃e : Eq K⦄ where
  -- A history: for each request the readings of the clock during its check and the key that it is
  -- counted under. The readings do not fall.
  abbrev pub IsChain : ℕ → List (Reads × K) → Type 0
  IsChain since [] = Unit
  IsChain since ((now, key) ∷ rs) = IsOrdered since now × IsChain now.entry rs

  pub run : Limiter K → List (Reads × K) → List Bool
  run l [] = []
  run l ((now, key) ∷ rs) = let (l', allowed) = check now key l in allowed ∷ run l' rs

  pub run_log : RateLimitConfig → Log K → List (Reads × K) → List Bool
  run_log c log [] = []
  run_log c log ((now, key) ∷ rs) =
      let (log', allowed) = check_log c now.entry key log in allowed ∷ run_log c log' rs

  -- The log that a history leaves, built from the answers of the limiter itself.
  pub admitted : Limiter K → Log K → List (Reads × K) → Log K
  admitted l log [] = log
  admitted l log ((now, key) ∷ rs) =
      let (l', allowed) = check now key l in
      admitted l' (if allowed then (key, now.entry) ∷ log else log) rs

  check-config : (now : Reads) (key : K) (l : Limiter K) → (check now key l).0.config ≡ l.config
  unfolding check
  check-config now key l = sweep-config now l

  swept_verdict :
      (now : ℕ) (key : K) (l : Limiter K) (log : Log K)
      → l.config.max_requests < u32_modulus
      → Refines now l log
      → (check_and_record now l.config.window_secs l.config.max_requests (bucket key l)).1
        ≡ (check_log l.config now key log).1
  unfolding check_log
  swept_verdict now key l log small r = ground (
    arith,
    check_and_record-verdict now l.config.window_secs l.config.max_requests (bucket key l) small
        (r.good key).bounded,
    r.counts key now (omega arith),
  )

  logged-add :
      (window later now : ℕ) (key j : K) (allowed : Bool) (log : Log K)
      → logged window later j (if allowed then (key, now) ∷ log else log)
        ≡ logged window later j log
          + (if (key == j) && (allowed && newer_than window later now) then 1 else 0)
  logged-add window later now key j allowed log = ground arith

  swept_Refines :
      (now : ℕ) (key : K) (l : Limiter K) (log : Log K)
      → l.config.max_requests < u32_modulus
      → Refines now l log
      → let (b, allowed) =
          check_and_record now l.config.window_secs l.config.max_requests (bucket key l) in
        Refines now
          (record l { buckets = insert key b l.buckets })
          (if allowed then (key, now) ∷ log else log)
  swept_Refines now key l log small r = record {
    is_map = insert-IsMap key _ l.buckets r.is_map;
    good = λ j. elim (Bool-cases (key == j)) [
      | inl same ↦
          rw (lookup-insert, same)
            (check_and_record-IsGood now now l.config.window_secs l.config.max_requests
              (bucket key l) small (omega arith) (r.good key))
      | inr other ↦ rw (lookup-insert, other) (r.good j)
    ];
    counts = λ j later le. elim (Bool-cases (key == j)) [
      | inl same ↦
          rw (lookup-insert, same)
            (rw (
              logged-add l.config.window_secs later now key j
                  (check_and_record now l.config.window_secs l.config.max_requests (bucket key l)).1
                  log,
              same,
              check_and_record-count now l.config.window_secs l.config.max_requests later
                  (bucket key l) le,
              r.counts key later le,
              (e.beq_iff key j).0 same,
            ))
      | inr other ↦
          rw (lookup-insert, other)
            (rw
              (
                logged-add l.config.window_secs later now key j
                    (check_and_record now l.config.window_secs l.config.max_requests
                      (bucket key l)).1
                    log,
                other,
                r.counts j later le,
              )
              (omega arith))
    ];
  }

  -- A check answers as the log does, and the buckets go on counting what the log counts.
  check-Refines :
      (since : ℕ) (now : Reads) (key : K) (l : Limiter K) (log : Log K)
      → IsConfig l.config
      → IsOrdered since now
      → Refines since l log
      → ((check now key l).1 ≡ (check_log l.config now.entry key log).1)
        × Refines now.entry
            (check now key l).0
            (if (check now key l).1 then (key, now.entry) ∷ log else log)
  unfolding check
  check-Refines since now key l log c o r =
      let s = sweep-Refines since now l log c.window_fits o r in
      let small : (sweep now l).config.max_requests < u32_modulus =
        rw (sweep-config now l) c.max_fits in
      (
        swept_verdict now.entry key (sweep now l) log small s
            ∙ ap (λ f. (check_log f now.entry key log).1) (sweep-config now l),
        swept_Refines now.entry key (sweep now l) log small s,
      )

  check_log-lem :
      (c : RateLimitConfig) (now : ℕ) (key : K) (log : Log K)
      → (check_log c now key log).0
        ≡ (if (check_log c now key log).1 then (key, now) ∷ log else log)
  unfolding check_log
  check_log-lem c now key log = ground arith

  run-run_log :
      (since : ℕ) (l : Limiter K) (log : Log K) (rs : List (Reads × K))
      → IsConfig l.config
      → IsChain since rs
      → Refines since l log
      → run l rs ≡ run_log l.config log rs
  unfolding run run_log
  run-run_log since l log [] c o r = refl
  run-run_log since l log ((now, key) ∷ rs) c o r =
      let (same, r') = check-Refines since now key l log c o.0 r in
      rw (check_log-lem l.config now.entry key log, ← same)
        (ap (◌∷◌ (check now key l).1) (
          run-run_log now.entry (check now key l).0 _ rs (rw (check-config now key l) c) o.1 r'
          ∙ ap (λ f. run_log f (if (check now key l).1 then (key, now.entry) ∷ log else log) rs)
              (check-config now key l)))

  -- The last reading of a history.
  abbrev pub last_reading : ℕ → List (Reads × K) → ℕ
  last_reading since [] = since
  last_reading since ((now, key) ∷ rs) = last_reading now.entry rs

  admitted-bounded :
      (since : ℕ) (l : Limiter K) (log : Log K) (rs : List (Reads × K)) (key : K) (later : ℕ)
      → IsConfig l.config
      → IsChain since rs
      → Refines since l log
      → last_reading since rs ≤ later
      → logged l.config.window_secs later key (admitted l log rs) ≤ l.config.max_requests
  unfolding admitted
  admitted-bounded since l log [] key later c o r le = omega (
    arith,
    r.counts key later le,
    count-le-length (newer_than l.config.window_secs later) (bucket key l).timestamps,
    (r.good key).bounded,
  )
  admitted-bounded since l log ((now, k) ∷ rs) key later c o r le = rw (check-config now k l) at (
      admitted-bounded now.entry (check now k l).0
        (if (check now k l).1 then (k, now.entry) ∷ log else log) rs key later
        (rw (check-config now k l) c) o.1 (check-Refines since now k l log c o.0 r).1 le)

  new_limiter-Refines : (c : RateLimitConfig) (now : ℕ) → Refines {K = K} now (new_limiter c now) []
  unfolding lookup
  new_limiter-Refines c now = record {
    is_map = tt;
    good = λ key. new_bucket-IsGood now c.max_requests;
    counts = λ key later le. refl;
  }

  -- A new limiter answers every history of checks as the limiter that forgets nothing and counts
  -- its whole log in the window, if the readings do not fall and the limits fit their types.
  pub run-run_log_new :
      (c : RateLimitConfig) (start : ℕ) (rs : List (Reads × K))
      → IsConfig c
      → IsChain start rs
      → run (new_limiter c start) rs ≡ run_log c [] rs
  run-run_log_new c start rs fits o =
      run-run_log start (new_limiter c start) [] rs fits o (new_limiter-Refines c start)

  -- At any reading from the end of a history on, the window that ends there holds at most
  -- `max_requests` of the requests of one key that a new limiter let through, if the readings do
  -- not fall and the limits fit their types.
  pub admitted-le_max :
      (c : RateLimitConfig) (start : ℕ) (rs : List (Reads × K)) (key : K) (later : ℕ)
      → IsConfig c
      → IsChain start rs
      → last_reading start rs ≤ later
      → logged c.window_secs later key (admitted (new_limiter c start) [] rs) ≤ c.max_requests
  admitted-le_max c start rs key later fits o le =
      admitted-bounded start (new_limiter c start) [] rs key later fits o
        (new_limiter-Refines c start) le
