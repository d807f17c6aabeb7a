-- ===== src/Scoped/Resolve.antt =====
-- How old the time may be that `resolve_bearer` of scoped_session_auth/service.rs compares with.
use ai_agent_sandbox_bluepri.Base.{
  ℕ, suc, ◌+◌, ◌-◌, ◌*◌, ◌/◌, ◌%◌, ◌≤◌, ◌<◌, ◌≡◌, ◌≢◌, refl, sym, subst, ◌∙◌, String, Bool, true,
  false, not, ◌&&◌, Option, none, some, List, [], ◌∷◌, inl, inr, if◌then◌else◌, arith, count, All,
  string_eq, Bool-cases, u64_modulus,
}
use ai_agent_sandbox_bluepri.Base.Map.{lookup}
use ai_agent_sandbox_bluepri.Base.Text.{trim_text, is_empty_text}
use ai_agent_sandbox_bluepri.Scoped.{
  ScopedAuthConfig, ScopedAuthState, scoped, SessionEntry, is_sampled, is_operator, sample_clock,
  maybe_gc, gc_now, session_claims, resolve_bearer, Externals,
}
use ai_agent_sandbox_bluepri.Scoped.History.{
  Op, challenges, verifies, grants, resolves, step, history,
}
use ai_agent_sandbox_bluepri.Scoped.Clock.{
  create_wallet_challenge-IsSwept, verify_wallet_challenge-clock,
  create_access_token_session-IsSwept,
}

-- A call: the capacity of the map, the clock in milliseconds, the token.
abbrev pub Call : Type 0
Call = ℕ × (ℕ × String)

-- The call is counted: its token is neither blank nor the operator's.
abbrev pub is_counted : ScopedAuthConfig → Call → Bool
is_counted config (capacity, (now_ms, token)) =
    not (is_empty_text (trim_text token)) && not (is_operator config (trim_text token))

unfoldable pub run : ScopedAuthConfig → List Call → ScopedAuthState → ScopedAuthState
run config [] s = s
run config ((capacity, (now_ms, token)) ∷ calls) s =
    run config calls (resolve_bearer config capacity now_ms token s).1

sample_clock-cached_now_secs :
    (capacity now_ms : ℕ) (s : ScopedAuthState)
    → ((sample_clock capacity now_ms s).cached_now_secs ≡ now_ms / 1000)
      × ((sample_clock capacity now_ms s).resolve_calls ≡ s.resolve_calls)
unfolding sample_clock maybe_gc gc_now
sample_clock-cached_now_secs capacity now_ms s = ground arith

-- A counted call leaves the time that it read, where it is a sampled one, or the time that there was,
-- and a session that it accepts expires later than the time it leaves.
resolve_bearer-counted :
    (config : ScopedAuthConfig) (capacity now_ms : ℕ) (token : String) (s : ScopedAuthState)
    → is_counted config (capacity, (now_ms, token)) ≡ true
    → let t = (resolve_bearer config capacity now_ms token s).1 in
      (t.resolve_calls ≡ (s.resolve_calls + 1) % u64_modulus)
      × (t.cached_now_secs
          ≡ (if is_sampled s.resolve_calls then now_ms / 1000 else s.cached_now_secs))
      × ((resolve_bearer config capacity now_ms token s).0
          ≡ session_claims t.cached_now_secs (lookup (trim_text token) t.sessions))
unfolding resolve_bearer
resolve_bearer-counted config capacity now_ms token s counted =
    let full : is_empty_text (trim_text token) ≡ false = ground (arith, counted) in
    let plain : is_operator config (trim_text token) ≡ false = ground (arith, counted) in
    let next = record s { resolve_calls = (s.resolve_calls + 1) % u64_modulus } in
    rw (full, plain)
      (
        ground (arith, sample_clock-cached_now_secs capacity now_ms next),
        ground (arith, sample_clock-cached_now_secs capacity now_ms next),
        refl,
      )

pub resolve_bearer-uncounted :
    (config : ScopedAuthConfig) (capacity now_ms : ℕ) (token : String) (s : ScopedAuthState)
    → is_counted config (capacity, (now_ms, token)) ≡ false
    → ((resolve_bearer config capacity now_ms token s).1 ≡ s)
      × ((scope owner : String)
          → (resolve_bearer config capacity now_ms token s).0 ≢ some (scoped scope owner))
unfolding resolve_bearer
resolve_bearer-uncounted config capacity now_ms token s skipped =
    elim (Bool-cases (is_empty_text (trim_text token))) [
      | inl blank ↦ rw blank (refl, λ scope owner h. ground (arith, h))
      | inr full ↦
          let plain : is_operator config (trim_text token) ≡ true = ground (arith, skipped, full) in
          rw (full, plain) (refl, λ scope owner h. ground (arith, h))
    ]

session_claims-some :
    (now_secs : ℕ) (o : Option SessionEntry) (scope owner : String)
    → session_claims now_secs o ≡ some (scoped scope owner)
    → (e : SessionEntry) × (o ≡ some e) × (now_secs < e.expires_at)
unfolding session_claims
session_claims-some now_secs none scope owner h = ground (arith, h)
session_claims-some now_secs (some e) scope owner h = (e, refl, ground (arith, h))

-- Calls until the time is read again.
abbrev due : ℕ → ℕ
due calls = if is_sampled calls then 1 else 257 - calls % 256

due_pos : (calls : ℕ) → 0 < due calls
due_pos calls = ground arith

due-suc : (calls : ℕ) → is_sampled calls ≡ false → suc (due ((calls + 1) % u64_modulus)) ≤ due calls
due-suc calls between = ground (arith, between)

due-le : (calls : ℕ) → due calls ≤ 256
due-le calls = ground arith

abbrev pub counts : ScopedAuthConfig → Op → Bool
counts config (resolves capacity now_ms token) = is_counted config (capacity, (now_ms, token))
counts config _ = false

abbrev pub is_verify : Op → Bool
is_verify (verifies now gc_ms fresh challenge signature) = true
is_verify _ = false

-- The call reads the clock at `secs` or later.
abbrev pub IsAfter : ℕ → Op → Type 0
IsAfter secs (challenges now gc_ms fresh resource wallet) = secs ≤ now
IsAfter secs (verifies now gc_ms fresh challenge signature) = secs ≤ now
IsAfter secs (grants now gc_ms fresh resource token) = secs ≤ now
IsAfter secs (resolves capacity now_ms token) = secs ≤ now_ms / 1000

abbrev due_ops : ScopedAuthConfig → List Op → ℕ
due_ops config ops = count (counts config) ops + 256 * count is_verify ops

module _ (x : Externals) (config : ScopedAuthConfig) (secs : ℕ) where
  -- A call that does not resolve a counted bearer keeps the count, and a fresh time.
  step-keeps :
      (op : Op) (s : ScopedAuthState)
      → IsAfter secs op
      → counts config op ≡ false
      → let t = step x config op s in
        (t.resolve_calls ≡ s.resolve_calls)
        × (secs ≤ s.cached_now_secs → secs ≤ t.cached_now_secs)
        × (is_verify op ≡ true → secs ≤ t.cached_now_secs)
  unfolding step
  step-keeps (challenges now gc_ms fresh resource wallet) s late skipped =
      let h = create_wallet_challenge-IsSwept x config now gc_ms fresh resource wallet s in
      (h.calls, λ kept. ground (arith, h.cached, late, kept), λ other. cc)
  step-keeps (verifies now gc_ms fresh challenge signature) s late skipped =
      let h = verify_wallet_challenge-clock x config now gc_ms fresh challenge signature s in
      (h.0, λ kept. omega (arith, h.1, late), λ same. omega (arith, h.1, late))
  step-keeps (grants now gc_ms fresh resource token) s late skipped =
      let h = create_access_token_session-IsSwept config now gc_ms fresh resource token s in
      (h.calls, λ kept. ground (arith, h.cached, late, kept), λ other. cc)
  step-keeps (resolves capacity now_ms token) s late skipped =
      let same = (resolve_bearer-uncounted config capacity now_ms token s skipped).0 in
      rw same (refl, λ kept. kept, λ other. cc)

  -- One that does counts, and reads the clock where it is sampled.
  step-counts :
      (op : Op) (s : ScopedAuthState)
      → IsAfter secs op
      → counts config op ≡ true
      → let t = step x config op s in
        (t.resolve_calls ≡ (s.resolve_calls + 1) % u64_modulus)
        × (secs ≤ s.cached_now_secs → secs ≤ t.cached_now_secs)
        × (is_sampled s.resolve_calls ≡ true → secs ≤ t.cached_now_secs)
        × (is_verify op ≡ false)
  unfolding step
  step-counts (challenges now gc_ms fresh resource wallet) s late counted = absurd (cc)
  step-counts (verifies now gc_ms fresh challenge signature) s late counted = absurd (cc)
  step-counts (grants now gc_ms fresh resource token) s late counted = absurd (cc)
  step-counts (resolves capacity now_ms token) s late counted =
      let h = resolve_bearer-counted config capacity now_ms token s counted in
      (
        h.0,
        λ kept. ground (arith, h.1, late, kept),
        λ sampled. ground (arith, h.1, late, sampled),
        refl,
      )

  history-keeps :
      (ops : List Op) (s : ScopedAuthState)
      → All (IsAfter secs) ops
      → secs ≤ s.cached_now_secs
      → secs ≤ (history x config ops s).cached_now_secs
  unfolding history
  history-keeps [] s late fresh = fresh
  history-keeps (op ∷ ops) s late fresh = elim (Bool-cases (counts config op)) [
    | inl counted ↦
        history-keeps ops (step x config op s) late.1 ((step-counts op s late.0 counted).1 fresh)
    | inr skipped ↦
        history-keeps ops (step x config op s) late.1 ((step-keeps op s late.0 skipped).1 fresh)
  ]

  history-refreshes :
      (ops : List Op) (s : ScopedAuthState)
      → All (IsAfter secs) ops
      → due s.resolve_calls ≤ due_ops config ops
      → secs ≤ (history x config ops s).cached_now_secs
  unfolding history
  history-refreshes [] s late enough = absurd (omega (arith, due_pos s.resolve_calls, enough))
  history-refreshes (op ∷ ops) s late enough =
      let t = step x config op s in
      elim (Bool-cases (counts config op)) [
        | inl counted ↦
            let h = step-counts op s late.0 counted in
            elim (Bool-cases (is_sampled s.resolve_calls)) [
              | inl sampled ↦ history-keeps ops t late.1 (h.2 sampled)
              | inr between ↦ history-refreshes ops t late.1 (
                  subst (λ n. due n ≤ due_ops config ops) (sym h.0)
                    (ground (arith, counted, h.3, enough, due-suc s.resolve_calls between)))
            ]
        | inr skipped ↦
            let h = step-keeps op s late.0 skipped in
            elim (Bool-cases (is_verify op)) [
              | inl verified ↦ history-keeps ops t late.1 (h.2 verified)
              | inr other ↦ history-refreshes ops t late.1 (
                  subst (λ n. due n ≤ due_ops config ops) (sym h.0)
                    (ground (arith, skipped, other, enough)))
            ]
      ]

  -- The cached time does not outlive 256 resolutions: after any history of the service's calls, from
  -- any state, that all read the clock at `secs` or later and of which at least 256 resolve a bearer
  -- that is neither blank nor the operator's, or at least one verifies a challenge, the next
  -- `resolve_bearer`, which reads at `secs` or later, accepts a bearer for a scope only if its session
  -- expires after `secs`. The calls run one at a time. Nothing is said of how long so many calls take.
  pub resolve_bearer-fresh :
      (ops : List Op) (capacity now_ms : ℕ) (token scope owner : String) (s : ScopedAuthState)
      → All (IsAfter secs) ops
      → secs ≤ now_ms / 1000
      → 256 ≤ count (counts config) ops + 256 * count is_verify ops
      → (resolve_bearer config capacity now_ms token (history x config ops s)).0
        ≡ some (scoped scope owner)
      → (e : SessionEntry) × (lookup
            (trim_text token)
            (resolve_bearer config capacity now_ms token (history x config ops s)).1.sessions
          ≡ some e)
        × (secs < e.expires_at)
  resolve_bearer-fresh ops capacity now_ms token scope owner s late now_late enough accepted =
      let t = history x config ops s in
      let fresh = history-refreshes ops s late (omega (arith, due-le s.resolve_calls, enough)) in
      elim (Bool-cases (is_counted config (capacity, (now_ms, token)))) [
        | inr skipped ↦ absurd (
            (resolve_bearer-uncounted config capacity now_ms token t skipped).1 scope owner
              accepted)
        | inl counted ↦
            let (calls_after, cached, answer) =
              resolve_bearer-counted config capacity now_ms token t counted in
            let u = (resolve_bearer config capacity now_ms token t).1 in
            let (e, found, later) =
              session_claims-some u.cached_now_secs (lookup (trim_text token) u.sessions) scope
                owner (sym answer ∙ accepted) in
            (e, found, ground (arith, later, cached, fresh, now_late))
      ]
