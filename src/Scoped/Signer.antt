-- ===== src/Scoped/Signer.antt =====
-- Who signs for a session of scoped_session_auth/service.rs, over any history of its calls.
use text.Mathlib.TextPositions.{eq_refl}
use ai_agent_sandbox_bluepri.Base.{
  ℕ, ◌+◌, ◌<◌, ◌≡◌, refl, ◌∙◌, sym, ap, String, true, Option, none, some, List, ◌⊎◌, inl, inr,
  string_eq, arith, Bool-cases, Option-cases, ltb, ltb→lt,
}
use ai_agent_sandbox_bluepri.Base.Map.{
  Map, lookup, remove, lookup-remove, Every, lookup-Every, retain_values-Every,
}
use ai_agent_sandbox_bluepri.Base.Text.{equal_codes}
use ai_agent_sandbox_bluepri.Scoped.{
  ScopedAuthConfig, ScopedAuthState, ScopedSessionResponse, WalletChallengeEntry, ScopedError,
  wallet_signature, challenge_message, Externals, new_state, gc_now, normalize_evm_address,
}
use ai_agent_sandbox_bluepri.Scoped.Service.{
  insert_session, check_signer, verify_removed, verify_wallet_challenge,
}
use ai_agent_sandbox_bluepri.Scoped.History.{Op, history}
use ai_agent_sandbox_bluepri.Scoped.Effects.{
  equal_codes→eq, insert_session-ok, verify_removed-challenges,
}
use ai_agent_sandbox_bluepri.Scoped.Issued.{IsIssued, AllIssued, history-AllIssued}

-- The challenge message of a challenge that has not expired at `now`, signed by the owner of the
-- session that it opens, which stands under its token; the challenge is gone.
pub record IsSigned (x : Externals) (config : ScopedAuthConfig) (now : ℕ)
    (challenge signature : String) (r : ScopedSessionResponse) (s : ScopedAuthState) : Type 0 where
  pub issued : ℕ
  pub recovered : String
  pub wallet : List ℕ
  pub unexpired : now < issued + config.challenge_ttl_secs
  pub signs :
      x.verify_eip191_signature
        (challenge_message x config
          (record { scope_id = r.scope_id; owner = r.owner; auth_mode = wallet_signature })
          challenge
          issued
          (issued + config.challenge_ttl_secs))
        signature
      ≡ some recovered
  pub signer : normalize_evm_address recovered ≡ some wallet
  pub owns : normalize_evm_address r.owner ≡ some wallet
  pub expiry : r.expires_at ≡ now + config.session_ttl_secs
  pub stored :
      lookup r.token s.sessions
      ≡ some (record { scope_id = r.scope_id; owner = r.owner; expires_at = r.expires_at })
  pub spent : lookup challenge s.challenges ≡ none

-- `check_signer` on the recovered signer and its normalized address.
check_signer-ok :
    (x : Externals) (c : WalletChallengeEntry) (signature : String)
    → check_signer x c signature ≡ inr tt
    → (recovered : String) × (x.verify_eip191_signature c.message signature ≡ some recovered)
      × (normalize_evm_address recovered ≡ some c.wallet_address)
unfolding check_signer
check_signer-ok x c signature h =
    elim (Option-cases (x.verify_eip191_signature c.message signature)) [
      | inl e ↦ ground (arith, e, h)
      | inr (recovered, e) ↦ elim (Option-cases (normalize_evm_address recovered)) [
        | inl f ↦ ground (arith, e, f, h)
        | inr (r, f) ↦ elim (Bool-cases (equal_codes r c.wallet_address)) [
          | inl same ↦ (recovered, e, f ∙ ap (λ w. some w) (equal_codes→eq r c.wallet_address same))
          | inr other ↦ ground (arith, e, f, other, h)
        ]
      ]
    ]

-- A check that passed, by its result.
passed :
    (p : ScopedError ⊎ Unit {0}) (q : (ScopedError ⊎ ScopedSessionResponse) × ScopedAuthState)
    (u : ScopedAuthState) (r : ScopedSessionResponse)
    → (elim p as (λ z. (ScopedError ⊎ ScopedSessionResponse) × ScopedAuthState) [
      | inl e ↦ (inl e, u)
      | inr checked ↦ q
    ]).0
      ≡ inr r
    → (p ≡ inr tt)
      × (elim p as (λ z. (ScopedError ⊎ ScopedSessionResponse) × ScopedAuthState) [
        | inl e ↦ (inl e, u)
        | inr checked ↦ q
      ]
          ≡ q)
passed (inl e) q u r h = ground (arith, h)
passed (inr t) q u r h = (refl, refl)

-- The message of an issued challenge, by the session that it opens.
issued-signs :
    (x : Externals) (config : ScopedAuthConfig) (challenge signature recovered : String)
    (c : WalletChallengeEntry) (scope owner : String) (issue : IsIssued x config challenge c)
    → scope ≡ c.scope_id
    → owner ≡ c.owner
    → x.verify_eip191_signature c.message signature ≡ some recovered
    → x.verify_eip191_signature
        (challenge_message x config
          (record { scope_id = scope; owner = owner; auth_mode = wallet_signature })
          challenge
          issue.issued
          (issue.issued + config.challenge_ttl_secs))
        signature
      ≡ some recovered
issued-signs x config challenge signature recovered c scope owner issue same_scope same_owner h =
    rw (same_scope, same_owner, ← issue.says) h

verify_removed-IsSigned :
    (x : Externals) (config : ScopedAuthConfig) (now : ℕ) (fresh challenge signature : String)
    (c : WalletChallengeEntry) (u : ScopedAuthState) (r : ScopedSessionResponse)
    → IsIssued x config challenge c
    → now < c.expires_at
    → lookup challenge u.challenges ≡ none
    → (verify_removed x config now fresh signature (some c) u).0 ≡ inr r
    → IsSigned x config now challenge signature r
        (verify_removed x config now fresh signature (some c) u).1
unfolding verify_removed
verify_removed-IsSigned x config now fresh challenge signature c u r issue unexpired gone h =
    let q = insert_session config now fresh c.scope_id c.owner u in
    let (checked, same) = passed (check_signer x c signature) q u r h in
    let (recovered, signs, signer) = check_signer-ok x c signature checked in
    let (owner, scope, expiry, stored) =
      insert_session-ok config now fresh c.scope_id c.owner u r (sym (ap (λ p. p.0) same) ∙ h) in
    record {
      issued = issue.issued;
      recovered = recovered;
      wallet = c.wallet_address;
      unexpired = omega (arith, unexpired, issue.expiry);
      signs =
          issued-signs x config challenge signature recovered c r.scope_id r.owner issue scope owner
            signs;
      signer = signer;
      owns = ap normalize_evm_address owner ∙ issue.owns;
      expiry = expiry;
      stored =
          ap
            (λ (p : (ScopedError ⊎ ScopedSessionResponse) × ScopedAuthState).
              lookup r.token p.1.sessions)
            same
          ∙ stored;
      spent =
          ap (λ m. lookup challenge m)
            (verify_removed-challenges x config now fresh signature (some c) u)
          ∙ gone;
    }

found-IsSigned :
    (x : Externals) (config : ScopedAuthConfig) (now : ℕ) (fresh challenge signature : String)
    (found : Option WalletChallengeEntry) (u : ScopedAuthState) (r : ScopedSessionResponse)
    → ((c : WalletChallengeEntry)
        → found ≡ some c
        → IsIssued x config challenge c × (ltb now c.expires_at ≡ true))
    → lookup challenge u.challenges ≡ none
    → (verify_removed x config now fresh signature found u).0 ≡ inr r
    → IsSigned x config now challenge signature r
        (verify_removed x config now fresh signature found u).1
found-IsSigned x config now fresh challenge signature none u r stands gone h =
    absurd (unfold verify_removed in ground (arith, h))
found-IsSigned x config now fresh challenge signature (some c) u r stands gone h =
    let (issue, unexpired) = stands c refl in
    verify_removed-IsSigned x config now fresh challenge signature c u r issue
      (ltb→lt now c.expires_at unexpired) gone h

-- The challenges after the sweep of a call: issued by the service, and not expired.
swept-challenges :
    (x : Externals) (config : ScopedAuthConfig) (gc_ms now : ℕ) (s : ScopedAuthState)
    → AllIssued x config s
    → Every
        (λ k c. IsIssued x config k c × (ltb now c.expires_at ≡ true))
        (gc_now gc_ms now s).challenges
unfolding gc_now
swept-challenges x config gc_ms now s h =
    retain_values-Every (IsIssued x config) (λ c. ltb now c.expires_at) s.challenges h

removed :
    (challenge : String) (m : Map String WalletChallengeEntry)
    → lookup challenge (remove challenge m) ≡ none
removed challenge m = lookup-remove challenge challenge m ∙ rw (eq_refl challenge) refl

-- A session for a wallet is opened by its owner's signature of that challenge: after any history of
-- the service's calls from its start, a call of `verify_wallet_challenge` that answers with a session
-- was given a signature, by a signer with the address of the session's owner, both normalized, of
-- the challenge message that states the session's own scope and owner, the id of the challenge that
-- the call names, the time it was issued and its expiry, which is after the call. The session
-- expires its time to live after the call and stands under the token that the call answers, and the
-- challenge is gone.
pub verify_wallet_challenge-IsSigned :
    (x : Externals) (config : ScopedAuthConfig) (ops : List Op) (now gc_ms : ℕ)
    (fresh challenge signature : String) (r : ScopedSessionResponse)
    → (verify_wallet_challenge x config now gc_ms fresh challenge signature
        (history x config ops new_state)).0
      ≡ inr r
    → IsSigned x config now challenge signature r
        (verify_wallet_challenge x config now gc_ms fresh challenge signature
          (history x config ops new_state)).1
unfolding verify_wallet_challenge
verify_wallet_challenge-IsSigned x config ops now gc_ms fresh challenge signature r h =
    let s = history x config ops new_state in
    let t = gc_now gc_ms now s in
    let swept =
      swept-challenges x config gc_ms now s
        (history-AllIssued x config ops new_state (unfold new_state in tt)) in
    found-IsSigned x config now fresh challenge signature (lookup challenge t.challenges)
      (record t { challenges = remove challenge t.challenges }) r
      (λ c found.
        lookup-Every (λ k d. IsIssued x config k d × (ltb now d.expires_at ≡ true)) challenge c
          t.challenges swept found)
      (removed challenge t.challenges) h
