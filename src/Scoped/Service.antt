-- ===== src/Scoped/Service.antt =====
-- The calls of scoped_session_auth/service.rs that issue challenges and sessions. `now` is the
-- reading in seconds, and `gc_ms` that of the sweep.
use ai_agent_sandbox_bluepri.Base.{
  ℕ, ◌+◌, String, Bool, true, false, Option, none, some, ◌⊎◌, inl, inr, List, if◌then◌else◌, leb,
  ◌==◌, string_eq, length,
}
use ai_agent_sandbox_bluepri.Base.Map.{lookup, insert, remove}
use ai_agent_sandbox_bluepri.Base.Text.{trim_text, equal_codes}
use ai_agent_sandbox_bluepri.Scoped.{
  ScopedAuthMode, wallet_signature, access_token, ScopedAuthConfig, ScopedAuthResource,
  ScopedChallengeResponse, ScopedSessionResponse, WalletChallengeEntry, ScopedAuthState, Externals,
  ScopedError, wrong_mode, invalid_address, not_owner, challenge_capacity, challenge_not_found,
  unrecovered, wrong_signer, session_capacity, not_configured, invalid_access_token, gc_now,
  normalize_evm_address, issue_token, challenge_message,
}

abbrev pub is_wallet_mode : ScopedAuthMode → Bool
is_wallet_mode wallet_signature = true
is_wallet_mode access_token = false

-- The wallet, where both addresses are normalized and equal.
unfoldable pub owned_wallet : ScopedAuthResource → String → ScopedError ⊎ List ℕ
unfolding normalize_evm_address equal_codes
owned_wallet resource wallet = elim (normalize_evm_address wallet) [
  | none ↦ inl invalid_address
  | some w ↦ elim (normalize_evm_address resource.owner) [
    | none ↦ inl invalid_address
    | some owner ↦ if equal_codes w owner then inr w else inl not_owner
  ]
]

-- The challenge of a wallet, stored where there is room after the sweep.
unfoldable pub store_challenge :
    Externals
    → ScopedAuthConfig
    → ℕ
    → ℕ
    → String
    → ScopedAuthResource
    → List ℕ
    → ScopedAuthState
    → (ScopedError ⊎ ScopedChallengeResponse) × ScopedAuthState
unfolding gc_now challenge_message
store_challenge x config now gc_ms fresh resource wallet s =
    let expires = now + config.challenge_ttl_secs in
    let message = challenge_message x config resource fresh now expires in
    let t = gc_now gc_ms now s in
    if leb config.max_challenges (length t.challenges) then (inl challenge_capacity, t) else (
      inr (record { challenge_id = fresh; message = message; expires_at = expires }),
      record t {
        challenges =
            insert fresh
              (record {
                scope_id = resource.scope_id;
                owner = resource.owner;
                wallet_address = wallet;
                message = message;
                expires_at = expires;
              })
              t.challenges;
      },
    )

unfoldable pub create_wallet_challenge :
    Externals
    → ScopedAuthConfig
    → ℕ
    → ℕ
    → String
    → ScopedAuthResource
    → String
    → ScopedAuthState
    → (ScopedError ⊎ ScopedChallengeResponse) × ScopedAuthState
unfolding owned_wallet store_challenge
create_wallet_challenge x config now gc_ms fresh resource wallet s =
    if is_wallet_mode resource.auth_mode
    then elim (owned_wallet resource wallet) [
      | inl e ↦ (inl e, s)
      | inr w ↦ store_challenge x config now gc_ms fresh resource w s
    ]
    else (inl wrong_mode, s)

-- A new session, stored where there is room.
unfoldable pub insert_session :
    ScopedAuthConfig
    → ℕ
    → String
    → String
    → String
    → ScopedAuthState
    → (ScopedError ⊎ ScopedSessionResponse) × ScopedAuthState
unfolding issue_token
insert_session config now fresh scope owner s =
    let expires = now + config.session_ttl_secs in
    let token = issue_token config.token_prefix fresh in
    if leb config.max_sessions (length s.sessions) then (inl session_capacity, s) else (
      inr (record { token = token; expires_at = expires; scope_id = scope; owner = owner }),
      record s {
        sessions =
            insert token (record { scope_id = scope; owner = owner; expires_at = expires })
              s.sessions;
      },
    )

-- The signer of the challenge's message is its wallet.
unfoldable pub check_signer : Externals → WalletChallengeEntry → String → ScopedError ⊎ Unit {0}
unfolding normalize_evm_address equal_codes
check_signer x c signature = elim (x.verify_eip191_signature c.message signature) [
  | none ↦ inl unrecovered
  | some recovered ↦ elim (normalize_evm_address recovered) [
    | none ↦ inl invalid_address
    | some r ↦ if equal_codes r c.wallet_address then inr tt else inl wrong_signer
  ]
]

-- What follows the removal of the challenge.
unfoldable pub verify_removed :
    Externals
    → ScopedAuthConfig
    → ℕ
    → String
    → String
    → Option WalletChallengeEntry
    → ScopedAuthState
    → (ScopedError ⊎ ScopedSessionResponse) × ScopedAuthState
unfolding check_signer insert_session
verify_removed x config now fresh signature none s = (inl challenge_not_found, s)
verify_removed x config now fresh signature (some c) s = elim (check_signer x c signature) [
  | inl e ↦ (inl e, s)
  | inr checked ↦ insert_session config now fresh c.scope_id c.owner s
]

-- The challenge is removed before its signature is read.
unfoldable pub verify_wallet_challenge :
    Externals
    → ScopedAuthConfig
    → ℕ
    → ℕ
    → String
    → String
    → String
    → ScopedAuthState
    → (ScopedError ⊎ ScopedSessionResponse) × ScopedAuthState
unfolding gc_now verify_removed
verify_wallet_challenge x config now gc_ms fresh challenge signature s =
    let t = gc_now gc_ms now s in
    verify_removed x config now fresh signature (lookup challenge t.challenges)
      (record t { challenges = remove challenge t.challenges })

unfoldable pub create_access_token_session :
    ScopedAuthConfig
    → ℕ
    → ℕ
    → String
    → ScopedAuthResource
    → String
    → ScopedAuthState
    → (ScopedError ⊎ ScopedSessionResponse) × ScopedAuthState
unfolding trim_text gc_now insert_session
create_access_token_session config now gc_ms fresh resource token s =
    if is_wallet_mode resource.auth_mode then (inl wrong_mode, s) else elim config.access_token [
      | none ↦ (inl not_configured, s)
      | some expected ↦
          if trim_text token == expected
          then insert_session config now fresh resource.scope_id resource.owner (gc_now gc_ms now s)
          else (inl invalid_access_token, s)
    ]
