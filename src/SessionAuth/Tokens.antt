-- ===== src/SessionAuth/Tokens.antt =====
-- What a successful exchange says of its caller, and that the token it returns is accepted.
use text.Mathlib.TextEquality.{eq_iff}
use ai_agent_sandbox_bluepri.Base.{
  ℕ, ◌+◌, ◌≤◌, ◌≡◌, refl, ◌∙◌, String, string_eq, Option, none, some, Result, ok, err, arith, ◌>>=◌,
}
use ai_agent_sandbox_bluepri.Base.Map.{lookup, remove, lookup-insert}
use ai_agent_sandbox_bluepri.SessionAuth.{
  Stores, Challenge, SessionClaims, SessionToken, Externals, consumed, consume_challenge,
  exchange_signature_for_token, store_session, stored, issue, validate_session_token,
  session_ttl_secs,
}

stored_ok :
    (x : Externals) (r : Result (String × SessionClaims)) (s : Stores) (t : SessionToken)
    → (stored x r s).0 ≡ ok t
    → (c : SessionClaims) × (r ≡ ok (t.token, c))
      × (c.address ≡ t.address)
      × (c.expires_at ≡ t.expires_at)
      × (lookup t.token (stored x r s).1.sessions ≡ some c)
unfolding stored store_session
stored_ok x (err e) s t h = cc
stored_ok x (ok (token, c)) s t h = (
  c,
  ground arith,
  ground arith,
  ground arith,
  ground
      (arith, eq_iff token token, eq_iff t.token t.token, lookup-insert token token c s.sessions),
)

issued_ok :
    (x : Externals) (consume_at now draw : ℕ) (signature : String) (o : Option Challenge)
    (token : String) (c : SessionClaims)
    → (consumed consume_at o >>= λ m. issue x now draw m signature) ≡ ok (token, c)
    → (ch : Challenge) × (o ≡ some ch)
      × (consume_at ≤ ch.expires_at)
      × (x.verify_signature ch.message signature ≡ some c.address)
      × (c.issued_at ≡ now)
      × (c.expires_at ≡ now + session_ttl_secs)
unfolding consumed issue
issued_ok x consume_at now draw signature none token c h = cc
issued_ok x consume_at now draw signature (some ch) token c h =
    (ch, refl, ground arith, ground arith, ground arith, ground arith)

validate-stored :
    (x : Externals) (read later : ℕ) (token : String) (s : Stores) (c : SessionClaims)
    → lookup token s.sessions ≡ some c
    → read ≤ c.expires_at
    → validate_session_token x read later token s ≡ ok c
unfolding validate_session_token
validate-stored x read later token s c found le = ground arith

-- A successful exchange found a challenge that had not expired; the signature of its message
-- recovers to the address of the token; the token runs for an hour from the issue; and a
-- validation that follows accepts it with the same claims at every reading within that hour.
pub exchange_sound :
    (x : Externals) (consume_at now draw : ℕ) (nonce signature : String) (s : Stores)
    (t : SessionToken) (read later : ℕ)
    → (exchange_signature_for_token x consume_at now draw nonce signature s).0 ≡ ok t
    → read ≤ now + session_ttl_secs
    → (c : Challenge) × (lookup nonce s.challenges ≡ some c)
      × (consume_at ≤ c.expires_at)
      × (x.verify_signature c.message signature ≡ some t.address)
      × (t.expires_at ≡ now + session_ttl_secs)
      × (validate_session_token x read later t.token
            (exchange_signature_for_token x consume_at now draw nonce signature s).1
          ≡ ok (record { address = t.address; issued_at = now; expires_at = t.expires_at }))
unfolding exchange_signature_for_token consume_challenge
exchange_sound x consume_at now draw nonce signature s t read later h le =
    let r : Result (String × SessionClaims) =
      consumed consume_at (lookup nonce s.challenges) >>= λ m. issue x now draw m signature in
    let s' : Stores = record s { challenges = remove nonce s.challenges } in
    let (c, made, address, expires, found) = stored_ok x r s' t h in
    let (ch, had, fresh, signed, issued, ends) =
      issued_ok x consume_at now draw signature (lookup nonce s.challenges) t.token c made in
    (
      ch,
      had,
      fresh,
      ground arith,
      omega arith,
      validate-stored x read later t.token _ c found (omega arith) ∙ ground arith,
    )
