-- ===== src/RateLimit.antt =====
-- sandbox-runtime/src/rate_limit.rs: the sliding-window limiters of the operator API.
pub mod Buckets
mod Refinement
mod Runs
pub mod ClientIp
pub mod Layer
mod Tests
use ai_agent_sandbox_bluepri.Base.{
  ℕ, ◌*◌, ◌%◌, ◌<◌, Bool, true, false, Option, none, some, List, [], ◌∷◌, ◌++◌, if◌then◌else◌, ltb,
  leb, Reads, elapsed_secs, newer_than, u64_modulus, u32_modulus, length, retain, last, Eq,
}
use ai_agent_sandbox_bluepri.Base.Map.{Map, lookup, insert, retain_values}

abbrev pub gc_interval_secs : ℕ
gc_interval_secs = 300

pub record RateLimitConfig : Type 0 where
  pub max_requests : ℕ
  pub window_secs : ℕ

-- `Bucket`: the times of the requests that were let through, oldest first.
pub record Bucket : Type 0 where
  pub timestamps : List ℕ

abbrev pub new_bucket : Bucket
new_bucket = record { timestamps = [] }

-- `Bucket::check_and_record`; the length is cast to u32.
unfoldable pub check_and_record : ℕ → ℕ → ℕ → Bucket → Bucket × Bool
check_and_record now window_secs max_requests b =
    let pruned = retain (newer_than window_secs now) b.timestamps in
    if ltb (length pruned % u32_modulus) max_requests
    then (record { timestamps = pruned ++ now ∷ [] }, true)
    else (record { timestamps = pruned }, false)

-- `RateLimiter` (keys are addresses) and `SessionRateLimiter` (keys are session ids).
pub record Limiter (K : Type 0) : Type 0 where
  pub config : RateLimitConfig
  pub buckets : Map K Bucket
  pub last_gc : ℕ

abbrev pub new_limiter : {K : Type 0} → RateLimitConfig → ℕ → Limiter K
new_limiter config now = record { config = config; buckets = []; last_gc = now }

-- The test of the sweep: the bucket's last request is younger than two windows.
abbrev pub is_fresh : ℕ → ℕ → Bucket → Bool
is_fresh window_secs cutoff b = elim (last b.timestamps) [
  | none ↦ false
  | some t ↦ newer_than (window_secs * 2 % u64_modulus) cutoff t
]

-- `entry(key).or_insert_with(Bucket::new)`.
abbrev pub bucket_of : Option Bucket → Bucket
bucket_of none = new_bucket
bucket_of (some b) = b

module _ {K : Type 0} ⦃e : Eq K⦄ where
  unfoldable pub sweep : Reads → Limiter K → Limiter K
  sweep now l =
      if leb gc_interval_secs (elapsed_secs l.last_gc now.gc)
      then record {
        config = l.config;
        buckets = retain_values (is_fresh l.config.window_secs now.cutoff) l.buckets;
        last_gc = now.reset;
      }
      else l

  unfoldable pub check : Reads → K → Limiter K → Limiter K × Bool
  check now key l =
      let swept = sweep now l in
      let (b, allowed) =
        check_and_record now.entry swept.config.window_secs swept.config.max_requests
          (bucket_of (lookup key swept.buckets)) in
      (record swept { buckets = insert key b swept.buckets }, allowed)

  unfoldable pub tracked : Limiter K → ℕ
  tracked l = length l.buckets
