-- ===== src/RateLimit/Refinement.antt =====
-- The buckets against a log of everything that was let through.
use ai_agent_sandbox_bluepri.Base.{
  ℕ, ◌+◌, ◌*◌, ◌%◌, ◌≤◌, ◌<◌, ◌≡◌, sym, ◌∙◌, Bool, true, false, ◌&&◌, List, [], ◌∷◌, if◌then◌else◌,
  ltb, Reads, IsOrdered, newer_than, u32_modulus, u64_modulus, length, retain, count, last, All,
  arith, Eq, ◌==◌, length-append, length-retain, count-append, count-le-length, length-retain-le,
  Bool-cases, Option-cases, inl, inr, ◌⊎◌,
}
use ai_agent_sandbox_bluepri.Base.Map.{IsMap, lookup, lookup-retain_values, retain_values-IsMap}
use ai_agent_sandbox_bluepri.RateLimit.{
  RateLimitConfig, Bucket, Limiter, new_bucket, bucket_of, is_fresh, check_and_record, sweep,
}
use ai_agent_sandbox_bluepri.RateLimit.Buckets.{
  IsAscending, All-mono, All-retain, All-snoc, retain-IsAscending, snoc-IsAscending,
  last-IsAscending, count-retain, count-stale, count-last-none,
}

-- A bucket whose times stand in order, none after `since`, and at most `max` of them.
pub record IsGood (since max : ℕ) (b : Bucket) : Type 0 where
  pub ascending : IsAscending b.timestamps
  pub past : All (λ t. t ≤ since) b.timestamps
  pub bounded : length b.timestamps ≤ max

pub new_bucket-IsGood : (since max : ℕ) → IsGood since max new_bucket
new_bucket-IsGood since max = record { ascending = tt; past = tt; bounded = omega arith }

IsGood-mono : (m n max : ℕ) (b : Bucket) → m ≤ n → IsGood m max b → IsGood n max b
IsGood-mono m n max b le g = record {
  ascending = g.ascending;
  past = All-mono m n b.timestamps le g.past;
  bounded = g.bounded;
}

-- A request goes through exactly when fewer than `max` stand in the window that ends now.
pub check_and_record-verdict :
    (now window max : ℕ) (b : Bucket)
    → max < u32_modulus
    → length b.timestamps ≤ max
    → (check_and_record now window max b).1 ≡ ltb (count (newer_than window now) b.timestamps) max
unfolding check_and_record
check_and_record-verdict now window max b small bounded = ground (
  arith,
  length-retain (newer_than window now) b.timestamps,
  count-le-length (newer_than window now) b.timestamps,
)

-- From now on the bucket counts what it counted, and the request if it went through.
pub check_and_record-count :
    (now window max later : ℕ) (b : Bucket)
    → now ≤ later
    → count (newer_than window later) (check_and_record now window max b).0.timestamps
      ≡ count (newer_than window later) b.timestamps
        + (if (check_and_record now window max b).1 && newer_than window later now then 1 else 0)
unfolding check_and_record
check_and_record-count now window max later b le = ground (
  arith,
  count-retain window now later b.timestamps le,
  count-append (newer_than window later) (retain (newer_than window now) b.timestamps) (now ∷ []),
)

pub check_and_record-IsGood :
    (since now window max : ℕ) (b : Bucket)
    → max < u32_modulus
    → since ≤ now
    → IsGood since max b
    → IsGood now max (check_and_record now window max b).0
unfolding check_and_record
check_and_record-IsGood since now window max b small le g =
    let p : ℕ → Bool = newer_than window now in
    let kept_past =
      All-retain (λ (t : ℕ). t ≤ now) p b.timestamps (All-mono since now b.timestamps le g.past) in
    let kept_ascending = retain-IsAscending p b.timestamps g.ascending in
    record {
      ascending = ground (
        arith,
        kept_ascending,
        snoc-IsAscending (retain p b.timestamps) now kept_past kept_ascending,
      );
      past = elim (Bool-cases (ltb (length (retain p b.timestamps) % u32_modulus) max)) [
        | inl h ↦ rw h (All-snoc (λ t. t ≤ now) (retain p b.timestamps) now kept_past (omega arith))
        | inr h ↦ rw h kept_past
      ];
      bounded = ground (
        arith,
        g.bounded,
        length-retain-le p b.timestamps,
        length-append (retain p b.timestamps) (now ∷ []),
      );
    }

-- A bucket that the sweep forgets counts nothing from the sweep on.
stale_bucket :
    (window since max cutoff : ℕ) (b : Bucket)
    → window * 2 < u64_modulus
    → IsGood since max b
    → is_fresh window cutoff b ≡ false
    → (later : ℕ) → cutoff ≤ later
    → count (newer_than window later) b.timestamps ≡ 0
stale_bucket window since max cutoff b small g stale later le =
    elim (Option-cases (last b.timestamps)) [
      | inl h ↦ count-last-none (newer_than window later) b.timestamps h
      | inr (t, h) ↦
          count-stale window t later b.timestamps (last-IsAscending b.timestamps t g.ascending h)
            (ground arith)
    ]

-- The log of the requests that went through, newest first, and the limiter that keeps all of it.
abbrev pub Log : Type 0 → Type 0
Log K = List (K × ℕ)

module _ {K : Type 0} ⦃e : Eq K⦄ where
  -- How many requests of `key` the log has in the window that ends at `now`.
  abbrev pub logged : ℕ → ℕ → K → Log K → ℕ
  logged window now key = count (λ r. r.0 == key && newer_than window now r.1)

  unfoldable pub check_log : RateLimitConfig → ℕ → K → Log K → Log K × Bool
  check_log c now key log =
      if ltb (logged c.window_secs now key log) c.max_requests
      then ((key, now) ∷ log, true)
      else (log, false)

  abbrev pub bucket : K → Limiter K → Bucket
  bucket key l = bucket_of (lookup key l.buckets)

  -- From `since` on, the buckets count what the log counts.
  pub record Refines (since : ℕ) (l : Limiter K) (log : Log K) : Type 0 where
    pub is_map : IsMap l.buckets
    pub good : (key : K) → IsGood since l.config.max_requests (bucket key l)
    pub counts :
        (key : K) (later : ℕ)
        → since ≤ later
        → count (newer_than l.config.window_secs later) (bucket key l).timestamps
          ≡ logged l.config.window_secs later key log

  pub sweep-config : (now : Reads) (l : Limiter K) → (sweep now l).config ≡ l.config
  unfolding sweep
  sweep-config now l = ground arith

  -- The sweep leaves a bucket, or forgets a stale one.
  sweep-bucket :
      (now : Reads) (key : K) (l : Limiter K)
      → IsMap l.buckets
      → (bucket key (sweep now l) ≡ bucket key l)
        ⊎ ((bucket key (sweep now l) ≡ new_bucket)
            × (is_fresh l.config.window_secs now.cutoff (bucket key l) ≡ false))
  unfolding sweep
  sweep-bucket now key l m =
      ground
        (arith, lookup-retain_values (is_fresh l.config.window_secs now.cutoff) key l.buckets m)

  sweep-IsMap : (now : Reads) (l : Limiter K) → IsMap l.buckets → IsMap (sweep now l).buckets
  unfolding sweep
  sweep-IsMap now l m =
      ground (arith, retain_values-IsMap (is_fresh l.config.window_secs now.cutoff) l.buckets m)

  pub sweep-Refines :
      (since : ℕ) (now : Reads) (l : Limiter K) (log : Log K)
      → l.config.window_secs * 2 < u64_modulus
      → IsOrdered since now
      → Refines since l log
      → Refines now.entry (sweep now l) log
  sweep-Refines since now l log small o r = record {
    is_map = sweep-IsMap now l r.is_map;
    good = λ key. elim (sweep-bucket now key l r.is_map) [
      | inl same ↦
          rw (same, sweep-config now l)
            (IsGood-mono since now.entry l.config.max_requests (bucket key l) (omega arith)
              (r.good key))
      | inr (gone, _) ↦ rw gone (new_bucket-IsGood now.entry (sweep now l).config.max_requests)
    ];
    counts = λ key later le. elim (sweep-bucket now key l r.is_map) [
      | inl same ↦ rw (same, sweep-config now l) (r.counts key later (omega arith))
      | inr (gone, stale) ↦
          rw (gone, sweep-config now l)
            (sym (
                stale_bucket l.config.window_secs since l.config.max_requests now.cutoff
                  (bucket key l) small (r.good key) stale later (omega arith))
              ∙ r.counts key later (omega arith))
    ];
  }
