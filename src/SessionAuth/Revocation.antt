-- ===== src/SessionAuth/Revocation.antt =====
-- A revoked token is rejected: by the store, and by the blacklist in the fallback.
use text.Mathlib.TextEquality.{eq_iff}
use ai_agent_sandbox_bluepri.Base.{
  ℕ, ◌+◌, ◌<◌, ◌≤◌, ◌≡◌, ◌≢◌, refl, String, string_eq, Option, none, some, [], ◌∷◌, Result, ok, err,
  if◌then◌else◌, ltb, arith, not, auth, ◌==◌, ◌>>=◌, Bool-cases, inl, inr,
}
use ai_agent_sandbox_bluepri.Base.Map.{
  Map, IsMap, kept, lookup, lookup-insert, lookup-remove, lookup-retain_values,
  lookup-retain_values-none,
}
use ai_agent_sandbox_bluepri.Base.Text.{eq_ignore_ascii_case}
use ai_agent_sandbox_bluepri.SessionAuth.{
  Stores, SessionClaims, Externals, create_challenge, consume_challenge,
  exchange_signature_for_token, revoke_session, revoke_matching, revoke_sessions_for_address,
  gc_sessions, store_session, stored, issue, validate_session_token, validate_paseto,
  session_ttl_secs,
}
use ai_agent_sandbox_bluepri.SessionAuth.History.{
  Op, creates, exchanges, revokes, revokes_address, sweeps, step, IsBounded,
}

-- The token is not in the store, and on the blacklist until `horizon` at least.
pub record IsRevoked (token : String) (horizon : ℕ) (s : Stores) : Type 0 where
  pub not_stored : lookup token s.sessions ≡ none
  pub until : ℕ
  pub listed : lookup token s.revoked ≡ some until
  pub lasts : horizon ≤ until

-- What a call after the revocation may be: no exchange draws the same token again, no sweep is at
-- or after the horizon, and no revocation of the token by name is more than an hour before it.
abbrev pub Spares : Externals → String → ℕ → Op → Type 0
Spares x token horizon (exchanges consume_at now draw n signature) =
    (c : SessionClaims) → x.encrypt draw c ≢ some token
Spares x token horizon (revokes now t) = horizon ≤ now + session_ttl_secs
Spares x token horizon (sweeps now) = now < horizon
Spares x token horizon _ = Unit {0}

-- Revoked tokens are rejected.
pub revoked-rejected :
    (x : Externals) (read later : ℕ) (token : String) (horizon : ℕ) (s : Stores)
    → IsRevoked token horizon s
    → validate_session_token x read later token s ≡ err auth
unfolding validate_session_token validate_paseto
revoked-rejected x read later token horizon s r = ground (arith, r.not_stored, r.listed)

stored-IsRevoked :
    (x : Externals) (token : String) (horizon : ℕ) (r : Result (String × SessionClaims))
    (s : Stores)
    → ((t : String) (c : SessionClaims) → r ≡ ok (t, c) → t ≢ token)
    → IsRevoked token horizon s
    → IsRevoked token horizon (stored x r s).1
unfolding stored store_session
stored-IsRevoked x token horizon (err e) s other v = v
stored-IsRevoked x token horizon (ok (t, c)) s other v = record {
  not_stored =
      ground
        (arith, v.not_stored, other t c refl, eq_iff t token, lookup-insert t token c s.sessions);
  until = v.until;
  listed = ground (arith, v.listed);
  lasts = v.lasts;
}

issue-other :
    (x : Externals) (now draw : ℕ) (message : Result String) (signature token : String)
    → ((c : SessionClaims) → x.encrypt draw c ≢ some token)
    → (t : String) (c : SessionClaims) → (message >>= λ m. issue x now draw m signature) ≡ ok (t, c)
    → t ≢ token
unfolding issue
issue-other x now draw (err e) signature token other t c h = cc
issue-other x now draw (ok m) signature token other t c h = λ same. other c (ground arith)

-- What a revocation by address makes of each token.
pub revoke_matching_sessions :
    (address token : String) (m : Map String SessionClaims) (revoked : Map String ℕ)
    → IsMap m
    → lookup token (revoke_matching address m revoked).0
      ≡ kept (λ c. not (eq_ignore_ascii_case c.address address)) (lookup token m)
unfolding revoke_matching lookup
revoke_matching_sessions address token [] revoked h = refl
revoke_matching_sessions address token ((j, c) ∷ m) revoked h = ground (
  arith,
  eq_iff j token,
  revoke_matching_sessions address token m revoked h.1,
  revoke_matching_sessions address j m revoked h.1,
)

abbrev pub blacklisted : String → Option SessionClaims → Option ℕ → Option ℕ
blacklisted address none old = old
blacklisted address (some c) old =
    if eq_ignore_ascii_case c.address address then some c.expires_at else old

pub revoke_matching_revoked :
    (address token : String) (m : Map String SessionClaims) (revoked : Map String ℕ)
    → IsMap m
    → lookup token (revoke_matching address m revoked).1
      ≡ blacklisted address (lookup token m) (lookup token revoked)
unfolding revoke_matching lookup
revoke_matching_revoked address token [] revoked h = refl
revoke_matching_revoked address token ((j, c) ∷ m) revoked h = ground (
  arith,
  eq_iff j token,
  revoke_matching_revoked address token m revoked h.1,
  lookup-insert j token c.expires_at (revoke_matching address m revoked).1,
)

pub step-IsRevoked :
    (x : Externals) (token : String) (horizon : ℕ) (op : Op) (s : Stores)
    → IsBounded s
    → Spares x token horizon op
    → IsRevoked token horizon s
    → IsRevoked token horizon (step x op s)
unfolding step create_challenge exchange_signature_for_token consume_challenge revoke_session
    revoke_sessions_for_address gc_sessions
step-IsRevoked x token horizon (creates now n) s b h v = record {
  not_stored = ground (arith, v.not_stored);
  until = v.until;
  listed = ground (arith, v.listed);
  lasts = v.lasts;
}
step-IsRevoked x token horizon (exchanges consume_at now draw n signature) s b h v =
    stored-IsRevoked x token horizon _ _
      (issue-other x now draw (consume_challenge consume_at n s).0 signature token h)
      (record { not_stored = v.not_stored; until = v.until; listed = v.listed; lasts = v.lasts })
step-IsRevoked x token horizon (revokes now t) s b h v = elim (Bool-cases (t == token)) [
  | inl same ↦ record {
    not_stored = rw (lookup-remove, same);
    until = now + session_ttl_secs;
    listed = ground (
      arith,
      eq_iff t token,
      v.not_stored,
      lookup-insert t token (now + session_ttl_secs) s.revoked,
    );
    lasts = h;
  }
  | inr other ↦ record {
    not_stored = rw (lookup-remove, other) v.not_stored;
    until = v.until;
    listed = rw (lookup-insert, other) v.listed;
    lasts = v.lasts;
  }
]
step-IsRevoked x token horizon (revokes_address address) s b h v = record {
  not_stored =
      rw (revoke_matching_sessions address token s.sessions s.revoked b.sessions_map, v.not_stored);
  until = v.until;
  listed = rw (
    revoke_matching_revoked address token s.sessions s.revoked b.sessions_map,
    v.not_stored,
    v.listed,
  );
  lasts = v.lasts;
}
step-IsRevoked x token horizon (sweeps now) s b h v = record {
  not_stored = lookup-retain_values-none _ token s.sessions v.not_stored;
  until = v.until;
  listed = ground (
    arith,
    v.listed,
    v.lasts,
    lookup-retain_values (λ (t : ℕ). ltb now t) token s.revoked b.revoked_map,
  );
  lasts = v.lasts;
}
