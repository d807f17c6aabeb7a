-- ===== src/Scoped/Stale.antt =====
-- A bearer after its session's expiry, between two readings of the clock.
use ai_agent_sandbox_bluepri.Base.{
  ℕ, ◌+◌, ◌%◌, ◌<◌, ◌≡◌, refl, String, true, false, some, List, [], ◌∷◌, inl, inr, arith, length,
  string_eq, Bool-cases, u64_modulus,
}
use ai_agent_sandbox_bluepri.Base.Map.{lookup}
use ai_agent_sandbox_bluepri.Base.Text.{trim_text, is_empty_text}
use ai_agent_sandbox_bluepri.Scoped.{
  ScopedAuthConfig, ScopedAuthState, scoped, SessionEntry, is_sampled, is_operator, session_claims,
  resolve_bearer,
}
use ai_agent_sandbox_bluepri.Scoped.Resolve.{Call, is_counted, run, resolve_bearer-uncounted}

-- The sessions and the time are as they were, and `n` calls later the clock is still not read.
record IsBetween (n : ℕ) (s t : ScopedAuthState) : Type 0 where
  sessions : t.sessions ≡ s.sessions
  cached : t.cached_now_secs ≡ s.cached_now_secs
  started : 0 < t.resolve_calls % 256
  early : t.resolve_calls % 256 + n < 256

module _ (config : ScopedAuthConfig) where
  resolve_bearer-between :
      (capacity now_ms : ℕ) (token : String) (s : ScopedAuthState)
      → is_counted config (capacity, (now_ms, token)) ≡ true
      → is_sampled s.resolve_calls ≡ false
      → resolve_bearer config capacity now_ms token s ≡ (
        session_claims s.cached_now_secs (lookup (trim_text token) s.sessions),
        record s { resolve_calls = (s.resolve_calls + 1) % u64_modulus },
      )
  unfolding resolve_bearer
  resolve_bearer-between capacity now_ms token s counted between =
      let full : is_empty_text (trim_text token) ≡ false = ground (arith, counted) in
      let plain : is_operator config (trim_text token) ≡ false = ground (arith, counted) in
      rw (full, plain, between) refl

  run-IsBetween :
      (calls : List Call) (n : ℕ) (s t : ScopedAuthState)
      → IsBetween (length calls + n) s t
      → IsBetween n s (run config calls t)
  unfolding run
  run-IsBetween [] n s t h = record {
    sessions = h.sessions;
    cached = h.cached;
    started = h.started;
    early = omega (arith, h.early);
  }
  run-IsBetween ((capacity, (now_ms, token)) ∷ calls) n s t h =
      elim (Bool-cases (is_counted config (capacity, (now_ms, token)))) [
        | inl counted ↦
            let u = record t { resolve_calls = (t.resolve_calls + 1) % u64_modulus } in
            rw
              (
                run,
                resolve_bearer-between capacity now_ms token t counted (ground (arith, h.started)),
              )
              (run-IsBetween calls n s u (record {
                sessions = h.sessions;
                cached = h.cached;
                started = omega (arith, h.started, h.early);
                early = omega (arith, h.early);
              }))
        | inr skipped ↦
            rw (run, (resolve_bearer-uncounted config capacity now_ms token t skipped).0)
              (run-IsBetween calls n s t (record {
                sessions = h.sessions;
                cached = h.cached;
                started = h.started;
                early = omega (arith, h.early);
              }))
      ]

  -- An expired session is accepted: between two samples of the clock, over any calls of
  -- `resolve_bearer` that do not reach the next sample, a bearer whose session expires after the
  -- cached time is answered with its claims, whatever the clock of any call reads, also long past the
  -- expiry. The token is neither blank nor the operator's, and no call that writes comes between.
  pub resolve_bearer-stale :
      (calls : List Call) (capacity now_ms : ℕ) (token : String) (s : ScopedAuthState)
      (e : SessionEntry)
      → is_counted config (capacity, (now_ms, token)) ≡ true
      → lookup (trim_text token) s.sessions ≡ some e
      → s.cached_now_secs < e.expires_at
      → 0 < s.resolve_calls % 256
      → s.resolve_calls % 256 + length calls < 256
      → (resolve_bearer config capacity now_ms token (run config calls s)).0
        ≡ some (scoped e.scope_id e.owner)
  unfolding session_claims
  resolve_bearer-stale calls capacity now_ms token s e counted found valid started early =
      let t = run config calls s in
      let start : IsBetween (length calls + 0) s s = record {
        sessions = refl;
        cached = refl;
        started = started;
        early = omega (arith, early);
      } in
      let h = run-IsBetween calls 0 s s start in
      rw
        (
          resolve_bearer-between capacity now_ms token t counted (ground (arith, h.started)),
          h.sessions,
          h.cached,
          found,
        )
        (ground (arith, valid))
