-- ===== src/SessionAuth/Lasting.antt =====
-- How long a revocation lasts.
use text.Mathlib.TextEquality.{eq_iff}
use ai_agent_sandbox_bluepri.Base.{
  ℕ, ◌≡◌, String, string_eq, some, List, [], ◌∷◌, err, arith, true, auth, All,
}
use ai_agent_sandbox_bluepri.Base.Map.{lookup, lookup-insert, lookup-remove}
use ai_agent_sandbox_bluepri.Base.Text.{eq_ignore_ascii_case}
use ai_agent_sandbox_bluepri.SessionAuth.{
  Stores, SessionClaims, Externals, revoke_session, revoke_sessions_for_address,
  validate_session_token,
}
use ai_agent_sandbox_bluepri.SessionAuth.History.{
  Op, revokes, revokes_address, step, run, IsBounded, step-IsBounded,
}
use ai_agent_sandbox_bluepri.SessionAuth.Revocation.{
  IsRevoked, Spares, revoked-rejected, step-IsRevoked, revoke_matching_sessions,
  revoke_matching_revoked,
}

run-rejected :
    (x : Externals) (token : String) (horizon : ℕ) (ops : List Op) (s : Stores) (read later : ℕ)
    → IsBounded s
    → All (Spares x token horizon) ops
    → IsRevoked token horizon s
    → validate_session_token x read later token (run x ops s) ≡ err auth
unfolding run
run-rejected x token horizon [] s read later b h v = revoked-rejected x read later token horizon s v
run-rejected x token horizon (op ∷ ops) s read later b h v =
    run-rejected x token horizon ops (step x op s) read later (step-IsBounded x op s b) h.1
      (step-IsRevoked x token horizon op s b h.0 v)

revoke_session-IsRevoked :
    (now : ℕ) (token : String) (s : Stores) (c : SessionClaims)
    → lookup token s.sessions ≡ some c
    → IsRevoked token c.expires_at (revoke_session now token s).1
unfolding revoke_session
revoke_session-IsRevoked now token s c found = record {
  not_stored = rw lookup-remove (ground (arith, eq_iff token token));
  until = c.expires_at;
  listed =
      ground (arith, found, eq_iff token token, lookup-insert token token c.expires_at s.revoked);
  lasts = omega arith;
}

-- After the revocation of a stored token it is rejected at every reading, whatever calls follow,
-- as long as none draws the same token again, every sweep reads a time before the token's expiry,
-- and every further revocation of a token by name reads a time at most an hour before that expiry.
-- The stores are within their limits and hold no key twice.
pub revoke_session-lasting :
    (x : Externals) (now : ℕ) (token : String) (s : Stores) (c : SessionClaims) (ops : List Op)
    (read later : ℕ)
    → IsBounded s
    → lookup token s.sessions ≡ some c
    → All (Spares x token c.expires_at) ops
    → validate_session_token x read later token (run x ops (revoke_session now token s).1)
      ≡ err auth
revoke_session-lasting x now token s c ops read later b found h =
    run-rejected x token c.expires_at ops (revoke_session now token s).1 read later
      (unfold step in step-IsBounded x (revokes now token) s b) h
      (revoke_session-IsRevoked now token s c found)

-- After the revocation of all sessions of an address, compared without regard to the case of ASCII
-- letters, each token that was stored for it is rejected at every reading, whatever calls follow,
-- as long as none draws the same token again, every sweep reads a time before the token's expiry,
-- and every revocation of a token by name reads a time at most an hour before that expiry. The
-- stores are within their limits and hold no key twice.
pub revoke_sessions_for_address-lasting :
    (x : Externals) (address token : String) (s : Stores) (c : SessionClaims) (ops : List Op)
    (read later : ℕ)
    → IsBounded s
    → lookup token s.sessions ≡ some c
    → eq_ignore_ascii_case c.address address ≡ true
    → All (Spares x token c.expires_at) ops
    → validate_session_token x read later token
        (run x ops (revoke_sessions_for_address address s).1)
      ≡ err auth
unfolding revoke_sessions_for_address
revoke_sessions_for_address-lasting x address token s c ops read later b found same h =
    run-rejected x token c.expires_at ops _ read later
      (unfold step revoke_sessions_for_address in step-IsBounded x (revokes_address address) s b) h
      (record {
        not_stored =
            rw (revoke_matching_sessions address token s.sessions s.revoked b.sessions_map, found)
              (ground arith);
        until = c.expires_at;
        listed =
            rw (revoke_matching_revoked address token s.sessions s.revoked b.sessions_map, found)
              (ground arith);
        lasts = omega arith;
      })
