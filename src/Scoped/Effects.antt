-- ===== src/Scoped/Effects.antt =====
-- What the calls of scoped_session_auth/service.rs leave of the challenges, and the session that they
-- answer.
use text.Mathlib.TextPositions.{eq_refl}
use ai_agent_sandbox_bluepri.Base.{
  ℕ, ◌+◌, ◌≡◌, refl, ◌∙◌, sym, subst, ap, String, true, Option, none, some, List, [], ◌∷◌, ◌⊎◌, inl,
  inr, if◌then◌else◌, leb, ◌==◌, string_eq, arith, length, Bool-cases, Option-cases,
}
use ai_agent_sandbox_bluepri.Base.Map.{lookup, lookup-insert}
use ai_agent_sandbox_bluepri.Base.Text.{equal_codes, trim_text}
use ai_agent_sandbox_bluepri.Scoped.{
  ScopedAuthConfig, ScopedAuthState, ScopedAuthResource, ScopedSessionResponse,
  WalletChallengeEntry, SessionEntry, ScopedError, invalid_address, not_owner, Externals,
  issue_token, gc_now, normalize_evm_address,
}
use ai_agent_sandbox_bluepri.Scoped.Service.{
  is_wallet_mode, owned_wallet, insert_session, verify_removed, create_access_token_session,
}

pub equal_codes→eq : (a b : List ℕ) → equal_codes a b ≡ true → a ≡ b
unfolding equal_codes
equal_codes→eq [] [] h = refl
equal_codes→eq [] (b ∷ bs) h = ground (arith, h)
equal_codes→eq (a ∷ more) [] h = ground (arith, h)
equal_codes→eq (a ∷ more) (b ∷ bs) h = ground (arith, h, equal_codes→eq more bs)

inr-inj : {A B : Type 0} {a b : B} → ◌≡◌ {A = A ⊎ B} (inr a) (inr b) → a ≡ b
inr-inj h = cc

-- `owned_wallet` on the two normalized addresses.
normalized-owner :
    (wallet owner : Option (List ℕ)) (w : List ℕ)
    → elim wallet as (λ o. ScopedError ⊎ List ℕ) [
      | none ↦ inl invalid_address
      | some v ↦ elim owner [
        | none ↦ inl invalid_address
        | some o ↦ if equal_codes v o then inr v else inl not_owner
      ]
    ]
      ≡ inr w
    → owner ≡ some w
normalized-owner none owner w h = ground (arith, h)
normalized-owner (some v) none w h = ground (arith, h)
normalized-owner (some v) (some o) w h = elim (Bool-cases (equal_codes v o)) [
  | inl e ↦
      let same : v ≡ w = ground (arith, e, h) in
      ap (λ a. some a) (sym (equal_codes→eq v o e) ∙ same)
  | inr e ↦ ground (arith, e, h)
]

pub owned_wallet-owner :
    (resource : ScopedAuthResource) (wallet : String) (w : List ℕ)
    → owned_wallet resource wallet ≡ inr w
    → normalize_evm_address resource.owner ≡ some w
owned_wallet-owner resource wallet w h =
    normalized-owner (normalize_evm_address wallet) (normalize_evm_address resource.owner) w
      (unfold owned_wallet in h)

insert_session-challenges :
    (config : ScopedAuthConfig) (now : ℕ) (fresh scope owner : String) (s : ScopedAuthState)
    → (insert_session config now fresh scope owner s).1.challenges ≡ s.challenges
unfolding insert_session
insert_session-challenges config now fresh scope owner s = ground arith

pub insert_session-ok :
    (config : ScopedAuthConfig) (now : ℕ) (fresh scope owner : String) (s : ScopedAuthState)
    (r : ScopedSessionResponse)
    → (insert_session config now fresh scope owner s).0 ≡ inr r
    → (r.owner ≡ owner)
      × (r.scope_id ≡ scope)
      × (r.expires_at ≡ now + config.session_ttl_secs)
      × (lookup r.token (insert_session config now fresh scope owner s).1.sessions
          ≡ some (record { scope_id = r.scope_id; owner = r.owner; expires_at = r.expires_at }))
unfolding insert_session
insert_session-ok config now fresh scope owner s r h =
    elim (Bool-cases (leb config.max_sessions (length s.sessions))) [
      | inl full ↦ ground (arith, full, h)
      | inr room ↦
          let made : ScopedSessionResponse = record {
            token = issue_token config.token_prefix fresh;
            expires_at = now + config.session_ttl_secs;
            scope_id = scope;
            owner = owner;
          } in
          let entry : SessionEntry = record {
            scope_id = scope;
            owner = owner;
            expires_at = now + config.session_ttl_secs;
          } in
          let stored : inr made ≡ (insert_session config now fresh scope owner s).0 =
            rw room refl in
          let same : made ≡ r = inr-inj (stored ∙ h) in
          subst
            (λ (q : ScopedSessionResponse).
              (q.owner ≡ owner)
              × (q.scope_id ≡ scope)
              × (q.expires_at ≡ now + config.session_ttl_secs)
              × (lookup q.token (insert_session config now fresh scope owner s).1.sessions
                  ≡ some (record {
                    scope_id = q.scope_id;
                    owner = q.owner;
                    expires_at = q.expires_at;
                  })))
            same
            (
              refl,
              refl,
              refl,
              rw room (
                  lookup-insert made.token made.token entry s.sessions
                  ∙ rw (eq_refl made.token) refl),
            )
    ]

pub verify_removed-challenges :
    (x : Externals) (config : ScopedAuthConfig) (now : ℕ) (fresh signature : String)
    (found : Option WalletChallengeEntry) (u : ScopedAuthState)
    → (verify_removed x config now fresh signature found u).1.challenges ≡ u.challenges
unfolding verify_removed
verify_removed-challenges x config now fresh signature none u = refl
verify_removed-challenges x config now fresh signature (some c) u =
    ground (arith, insert_session-challenges config now fresh c.scope_id c.owner u)

-- A session by the access token leaves the challenges as they are, or swept.
pub create_access_token_session-challenges :
    (config : ScopedAuthConfig) (now gc_ms : ℕ) (fresh : String) (resource : ScopedAuthResource)
    (token : String) (s : ScopedAuthState)
    → let t = (create_access_token_session config now gc_ms fresh resource token s).1 in
      (t.challenges ≡ s.challenges) ⊎ (t.challenges ≡ (gc_now gc_ms now s).challenges)
unfolding create_access_token_session
create_access_token_session-challenges config now gc_ms fresh resource token s =
    let same =
      insert_session-challenges config now fresh resource.scope_id resource.owner
        (gc_now gc_ms now s) in
    elim (Bool-cases (is_wallet_mode resource.auth_mode)) [
      | inl wallet_mode ↦ rw wallet_mode (inl refl)
      | inr other ↦ elim (Option-cases config.access_token) [
        | inl e ↦ rw (other, e) (inl refl)
        | inr (expected, e) ↦ elim (Bool-cases (trim_text token == expected)) [
          | inl right ↦ rw (other, e, right) (inr same)
          | inr wrong ↦ rw (other, e, wrong) (inl refl)
        ]
      ]
    ]
