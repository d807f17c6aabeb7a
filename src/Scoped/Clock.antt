-- ===== src/Scoped/Clock.antt =====
-- What the calls of scoped_session_auth/service.rs that issue challenges and sessions do to the cached
-- time and to the count of the resolutions.
use ai_agent_sandbox_bluepri.Base.{
  ℕ, ◌≡◌, refl, String, Option, none, some, List, ◌⊎◌, inl, inr, leb, string_eq, length, arith,
  Bool-cases,
}
use ai_agent_sandbox_bluepri.Base.Map.{lookup, remove}
use ai_agent_sandbox_bluepri.Scoped.{
  ScopedAuthConfig, ScopedAuthState, ScopedAuthResource, ScopedError, ScopedChallengeResponse,
  WalletChallengeEntry, Externals, gc_now,
}
use ai_agent_sandbox_bluepri.Scoped.Service.{
  is_wallet_mode, owned_wallet, store_challenge, create_wallet_challenge, insert_session,
  verify_removed, verify_wallet_challenge, create_access_token_session,
}

-- The count is kept, and the cached time is kept or the present.
pub record IsSwept (now : ℕ) (s t : ScopedAuthState) : Type 0 where
  pub calls : t.resolve_calls ≡ s.resolve_calls
  pub cached : (t.cached_now_secs ≡ now) ⊎ (t.cached_now_secs ≡ s.cached_now_secs)

insert_session-clock :
    (config : ScopedAuthConfig) (now : ℕ) (fresh scope owner : String) (s : ScopedAuthState)
    → let t = (insert_session config now fresh scope owner s).1 in
      (t.resolve_calls ≡ s.resolve_calls) × (t.cached_now_secs ≡ s.cached_now_secs)
unfolding insert_session
insert_session-clock config now fresh scope owner s = ground arith

store_challenge-IsSwept :
    (x : Externals) (config : ScopedAuthConfig) (now gc_ms : ℕ) (fresh : String)
    (resource : ScopedAuthResource) (w : List ℕ) (s : ScopedAuthState)
    → IsSwept now s (store_challenge x config now gc_ms fresh resource w s).1
unfolding store_challenge gc_now
store_challenge-IsSwept x config now gc_ms fresh resource w s =
    elim (Bool-cases (leb config.max_challenges (length (gc_now gc_ms now s).challenges))) [
      | inl full ↦ rw full (record { calls = refl; cached = inl refl })
      | inr room ↦ rw room (record { calls = refl; cached = inl refl })
    ]

owned-IsSwept :
    (x : Externals) (config : ScopedAuthConfig) (now gc_ms : ℕ) (fresh : String)
    (resource : ScopedAuthResource) (s : ScopedAuthState) (p : ScopedError ⊎ List ℕ)
    → IsSwept now s
        (elim p as (λ q. (ScopedError ⊎ ScopedChallengeResponse) × ScopedAuthState) [
          | inl e ↦ (inl e, s)
          | inr w ↦ store_challenge x config now gc_ms fresh resource w s
        ]).1
owned-IsSwept x config now gc_ms fresh resource s (inl e) = record {
  calls = refl;
  cached = inr refl;
}
owned-IsSwept x config now gc_ms fresh resource s (inr w) =
    store_challenge-IsSwept x config now gc_ms fresh resource w s

pub create_wallet_challenge-IsSwept :
    (x : Externals) (config : ScopedAuthConfig) (now gc_ms : ℕ) (fresh : String)
    (resource : ScopedAuthResource) (wallet : String) (s : ScopedAuthState)
    → IsSwept now s (create_wallet_challenge x config now gc_ms fresh resource wallet s).1
unfolding create_wallet_challenge
create_wallet_challenge-IsSwept x config now gc_ms fresh resource wallet s =
    elim (Bool-cases (is_wallet_mode resource.auth_mode)) [
      | inl wallet_mode ↦
          rw wallet_mode
            (owned-IsSwept x config now gc_ms fresh resource s (owned_wallet resource wallet))
      | inr other ↦ rw other (record { calls = refl; cached = inr refl })
    ]

verify_removed-clock :
    (x : Externals) (config : ScopedAuthConfig) (now : ℕ) (fresh signature : String)
    (found : Option WalletChallengeEntry) (u : ScopedAuthState)
    → let t = (verify_removed x config now fresh signature found u).1 in
      (t.resolve_calls ≡ u.resolve_calls) × (t.cached_now_secs ≡ u.cached_now_secs)
unfolding verify_removed
verify_removed-clock x config now fresh signature none u = (refl, refl)
verify_removed-clock x config now fresh signature (some c) u =
    ground (arith, insert_session-clock config now fresh c.scope_id c.owner u)

-- A verification sweeps whatever it answers.
pub verify_wallet_challenge-clock :
    (x : Externals) (config : ScopedAuthConfig) (now gc_ms : ℕ) (fresh challenge signature : String)
    (s : ScopedAuthState)
    → let t = (verify_wallet_challenge x config now gc_ms fresh challenge signature s).1 in
      (t.resolve_calls ≡ s.resolve_calls) × (t.cached_now_secs ≡ now)
unfolding verify_wallet_challenge gc_now
verify_wallet_challenge-clock x config now gc_ms fresh challenge signature s =
    let t = gc_now gc_ms now s in
    verify_removed-clock x config now fresh signature (lookup challenge t.challenges)
      (record t { challenges = remove challenge t.challenges })

pub create_access_token_session-IsSwept :
    (config : ScopedAuthConfig) (now gc_ms : ℕ) (fresh : String) (resource : ScopedAuthResource)
    (token : String) (s : ScopedAuthState)
    → IsSwept now s (create_access_token_session config now gc_ms fresh resource token s).1
unfolding create_access_token_session gc_now
create_access_token_session-IsSwept config now gc_ms fresh resource token s = ground (
  arith,
  insert_session-clock config now fresh resource.scope_id resource.owner (gc_now gc_ms now s),
)
