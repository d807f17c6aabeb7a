-- ===== src/Scoped/Issued.antt =====
-- Over any history of the calls of scoped_session_auth/service.rs, the challenges that are stored
-- are those that the service issued.
use ai_agent_sandbox_bluepri.Base.{
  ℕ, ◌+◌, ◌/◌, ◌%◌, u64_modulus, ◌≡◌, refl, sym, subst, String, some, List, [], ◌∷◌, ◌⊎◌, inl, inr,
  leb, string_eq, length, Bool-cases,
}
use ai_agent_sandbox_bluepri.Base.Map.{
  lookup, remove, Every, remove-Every, insert-Every, retain_values-Every, Every-map,
}
use ai_agent_sandbox_bluepri.Base.Text.{trim_text, is_empty_text}
use ai_agent_sandbox_bluepri.Scoped.{
  ScopedAuthConfig, ScopedAuthState, ScopedAuthResource, WalletChallengeEntry, ScopedError,
  ScopedChallengeResponse, Externals, gc_now, sample_clock, should_gc, maybe_gc, is_sampled,
  is_operator, resolve_bearer, normalize_evm_address, challenge_message, wallet_signature,
}
use ai_agent_sandbox_bluepri.Scoped.History.{
  Op, challenges, verifies, grants, resolves, step, history,
}
use ai_agent_sandbox_bluepri.Scoped.Service.{
  is_wallet_mode, owned_wallet, store_challenge, create_wallet_challenge, verify_wallet_challenge,
  create_access_token_session,
}
use ai_agent_sandbox_bluepri.Scoped.Effects.{
  owned_wallet-owner, verify_removed-challenges, create_access_token_session-challenges,
}

-- What a stored challenge is: its wallet is the normalized owner, and its message is the challenge
-- message of its own scope, owner and id, with the time of its call and its expiry.
pub record IsIssued (x : Externals) (config : ScopedAuthConfig) (id : String)
    (c : WalletChallengeEntry) : Type 0 where
  pub issued : ℕ
  pub owns : normalize_evm_address c.owner ≡ some c.wallet_address
  pub expiry : c.expires_at ≡ issued + config.challenge_ttl_secs
  pub says :
      c.message
      ≡ challenge_message x config
          (record { scope_id = c.scope_id; owner = c.owner; auth_mode = wallet_signature })
          id
          issued
          (issued + config.challenge_ttl_secs)

abbrev pub AllIssued : Externals → ScopedAuthConfig → ScopedAuthState → Type 0
AllIssued x config s = Every (IsIssued x config) s.challenges

module _ (x : Externals) (config : ScopedAuthConfig) where
  gc_now-AllIssued :
      (gc_ms now : ℕ) (s : ScopedAuthState)
      → AllIssued x config s
      → AllIssued x config (gc_now gc_ms now s)
  unfolding gc_now
  gc_now-AllIssued gc_ms now s h =
      Every-map _ (IsIssued x config) _ (λ k c kept. kept.0)
        (retain_values-Every (IsIssued x config) _ s.challenges h)

  -- The challenge that a call stores.
  stored-IsIssued :
      (fresh : String) (now : ℕ) (resource : ScopedAuthResource) (w : List ℕ)
      → normalize_evm_address resource.owner ≡ some w
      → IsIssued x config fresh (record {
        scope_id = resource.scope_id;
        owner = resource.owner;
        wallet_address = w;
        message = challenge_message x config resource fresh now (now + config.challenge_ttl_secs);
        expires_at = now + config.challenge_ttl_secs;
      })
  unfolding challenge_message
  stored-IsIssued fresh now resource w owned = record {
    issued = now;
    owns = owned;
    expiry = refl;
    says = refl;
  }

  store_challenge-AllIssued :
      (now gc_ms : ℕ) (fresh : String) (resource : ScopedAuthResource) (w : List ℕ)
      (s : ScopedAuthState)
      → normalize_evm_address resource.owner ≡ some w
      → AllIssued x config s
      → AllIssued x config (store_challenge x config now gc_ms fresh resource w s).1
  unfolding store_challenge
  store_challenge-AllIssued now gc_ms fresh resource w s owned h =
      let t = gc_now gc_ms now s in
      let swept = gc_now-AllIssued gc_ms now s h in
      elim (Bool-cases (leb config.max_challenges (length t.challenges))) [
        | inl full ↦ rw full swept
        | inr room ↦ rw room (
            insert-Every (IsIssued x config) fresh _ t.challenges
              (stored-IsIssued fresh now resource w owned) swept)
      ]

  create-AllIssued :
      (now gc_ms : ℕ) (fresh : String) (resource : ScopedAuthResource) (s : ScopedAuthState)
      (p : ScopedError ⊎ List ℕ)
      → ((w : List ℕ) → p ≡ inr w → normalize_evm_address resource.owner ≡ some w)
      → AllIssued x config s
      → AllIssued x config
          (elim p as (λ q. (ScopedError ⊎ ScopedChallengeResponse) × ScopedAuthState) [
            | inl e ↦ (inl e, s)
            | inr w ↦ store_challenge x config now gc_ms fresh resource w s
          ]).1
  create-AllIssued now gc_ms fresh resource s (inl e) owned h = h
  create-AllIssued now gc_ms fresh resource s (inr w) owned h =
      store_challenge-AllIssued now gc_ms fresh resource w s (owned w refl) h

  create_wallet_challenge-AllIssued :
      (now gc_ms : ℕ) (fresh : String) (resource : ScopedAuthResource) (wallet : String)
      (s : ScopedAuthState)
      → AllIssued x config s
      → AllIssued x config (create_wallet_challenge x config now gc_ms fresh resource wallet s).1
  unfolding create_wallet_challenge
  create_wallet_challenge-AllIssued now gc_ms fresh resource wallet s h =
      elim (Bool-cases (is_wallet_mode resource.auth_mode)) [
        | inl wallet_mode ↦ rw wallet_mode (
            create-AllIssued now gc_ms fresh resource s (owned_wallet resource wallet)
              (owned_wallet-owner resource wallet) h)
        | inr other ↦ rw other h
      ]

  verify_wallet_challenge-AllIssued :
      (now gc_ms : ℕ) (fresh challenge signature : String) (s : ScopedAuthState)
      → AllIssued x config s
      → AllIssued x config
          (verify_wallet_challenge x config now gc_ms fresh challenge signature s).1
  unfolding verify_wallet_challenge
  verify_wallet_challenge-AllIssued now gc_ms fresh challenge signature s h =
      let t = gc_now gc_ms now s in
      let u : ScopedAuthState = record t { challenges = remove challenge t.challenges } in
      let same =
        verify_removed-challenges x config now fresh signature (lookup challenge t.challenges) u in
      subst (λ m. Every (IsIssued x config) m) (sym same)
        (remove-Every (IsIssued x config) challenge t.challenges (gc_now-AllIssued gc_ms now s h))

  create_access_token_session-AllIssued :
      (now gc_ms : ℕ) (fresh : String) (resource : ScopedAuthResource) (token : String)
      (s : ScopedAuthState)
      → AllIssued x config s
      → AllIssued x config (create_access_token_session config now gc_ms fresh resource token s).1
  create_access_token_session-AllIssued now gc_ms fresh resource token s h =
      elim (create_access_token_session-challenges config now gc_ms fresh resource token s) [
        | inl same ↦ subst (λ m. Every (IsIssued x config) m) (sym same) h
        | inr swept ↦
            subst (λ m. Every (IsIssued x config) m) (sym swept) (gc_now-AllIssued gc_ms now s h)
      ]

  sample_clock-AllIssued :
      (capacity now_ms : ℕ) (s : ScopedAuthState)
      → AllIssued x config s
      → AllIssued x config (sample_clock capacity now_ms s)
  unfolding sample_clock maybe_gc
  sample_clock-AllIssued capacity now_ms s h =
      let t : ScopedAuthState = record s { cached_now_secs = now_ms / 1000 } in
      let swept = gc_now-AllIssued now_ms (now_ms / 1000) t h in
      elim (Bool-cases (should_gc capacity now_ms t)) [
        | inl due ↦ rw due swept
        | inr idle ↦ rw idle h
      ]

  resolve_bearer-AllIssued :
      (capacity now_ms : ℕ) (token : String) (s : ScopedAuthState)
      → AllIssued x config s
      → AllIssued x config (resolve_bearer config capacity now_ms token s).1
  unfolding resolve_bearer
  resolve_bearer-AllIssued capacity now_ms token s h =
      let counted : ScopedAuthState = record s {
        resolve_calls = (s.resolve_calls + 1) % u64_modulus;
      } in
      elim (Bool-cases (is_empty_text (trim_text token))) [
        | inl blank ↦ rw blank h
        | inr full ↦ elim (Bool-cases (is_operator config (trim_text token))) [
          | inl plain ↦ rw (full, plain) h
          | inr other ↦ elim (Bool-cases (is_sampled s.resolve_calls)) [
            | inl sampled ↦
                rw (full, other, sampled) (sample_clock-AllIssued capacity now_ms counted h)
            | inr between ↦ rw (full, other, between) h
          ]
        ]
      ]

  step-AllIssued :
      (op : Op) (s : ScopedAuthState)
      → AllIssued x config s
      → AllIssued x config (step x config op s)
  unfolding step
  step-AllIssued (challenges now gc_ms fresh resource wallet) s h =
      create_wallet_challenge-AllIssued now gc_ms fresh resource wallet s h
  step-AllIssued (verifies now gc_ms fresh challenge signature) s h =
      verify_wallet_challenge-AllIssued now gc_ms fresh challenge signature s h
  step-AllIssued (grants now gc_ms fresh resource token) s h =
      create_access_token_session-AllIssued now gc_ms fresh resource token s h
  step-AllIssued (resolves capacity now_ms token) s h =
      resolve_bearer-AllIssued capacity now_ms token s h

  pub history-AllIssued :
      (ops : List Op) (s : ScopedAuthState)
      → AllIssued x config s
      → AllIssued x config (history x config ops s)
  unfolding history
  history-AllIssued [] s h = h
  history-AllIssued (op ∷ ops) s h =
      history-AllIssued ops (step x config op s) (step-AllIssued op s h)
