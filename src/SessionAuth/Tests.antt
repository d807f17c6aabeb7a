-- ===== src/SessionAuth/Tests.antt =====
-- Challenges and tokens of concrete sandboxes' users.
use text.Mathlib.TextEquality.{eq_iff}
use ai_agent_sandbox_bluepri.Base.{
  ◌+◌, ◌≡◌, ◌≢◌, ◌≤◌, refl, String, string_eq, some, List, [], ◌∷◌, ok, err, auth, arith,
}
use ai_agent_sandbox_bluepri.Base.Map.{lookup}
use ai_agent_sandbox_bluepri.Base.Text.{eq_ignore_ascii_case}
use ai_agent_sandbox_bluepri.SessionAuth.{
  stored, consume_challenge, Challenge, SessionClaims, Stores, Payload, Externals,
  exchange_signature_for_token, validate_session_token, revoke_session, revoke_sessions_for_address,
  session_ttl_secs,
}
use ai_agent_sandbox_bluepri.SessionAuth.History.{
  Op, creates, exchanges, sweeps, run, empty_stores, IsBounded, run-IsBounded,
}
use ai_agent_sandbox_bluepri.SessionAuth.Challenges.{successes, nonce_single_use}
use ai_agent_sandbox_bluepri.SessionAuth.Tokens.{exchange_sound}
use ai_agent_sandbox_bluepri.SessionAuth.Lasting.{
  revoke_session-lasting, revoke_sessions_for_address-lasting,
}

abbrev claims : SessionClaims
claims = record { address = "0xAb"; issued_at = 100; expires_at = 3700 }

abbrev payload : Payload
payload = record { address = some "0xAb"; iat = some 100; exp = some (some 3700) }

-- A signer, and an encryption with one token.
abbrev outside : Externals
outside = record {
  message = λ nonce expires. nonce;
  verify_signature = λ message signature. some "0xAb";
  encrypt = λ draw c. some "token-1";
  decrypt = λ now token. some payload;
}

abbrev challenged : Stores
challenged = record {
  challenges = ("n-1", record { nonce = "n-1"; message = "n-1"; expires_at = 300 }) ∷ [];
  sessions = [];
  revoked = [];
}

abbrev signed_in : Stores
signed_in = record { challenges = []; sessions = ("token-1", claims) ∷ []; revoked = [] }

abbrev n_2 : String
n_2 = "n-2"

n_2-other : n_2 ≢ "n-1"
n_2-other = ground (arith, eq_iff n_2 "n-1")

signed_in-IsBounded : IsBounded signed_in
unfolding lookup
signed_in-IsBounded = record {
  challenges_map = tt;
  sessions_map = (refl, tt);
  revoked_map = tt;
  challenges_fit = omega arith;
  sessions_fit = omega arith;
}

run-IsBounded_example :
    IsBounded (run outside (creates 0 "n-1" ∷ exchanges 10 100 0 "n-1" "sig" ∷ []) empty_stores)
run-IsBounded_example =
    run-IsBounded outside (creates 0 "n-1" ∷ exchanges 10 100 0 "n-1" "sig" ∷ [])

abbrev replays : List Op
replays = exchanges 11 101 1 "n-1" "sig" ∷ creates 12 n_2 ∷ exchanges 13 103 2 "n-1" "sig" ∷ []

nonce_single_use_example :
    successes outside "n-1" replays
      (exchange_signature_for_token outside 10 100 0 "n-1" "sig" challenged).1
    ≡ 0
nonce_single_use_example =
    nonce_single_use outside 10 100 0 "n-1" "sig" challenged replays (tt, (n_2-other, (tt, tt)))

exchange_sound_example :
    (c : Challenge) × (lookup "n-1" challenged.challenges ≡ some c)
    × (10 ≤ c.expires_at)
    × (outside.verify_signature c.message "sig" ≡ some "0xAb")
    × (3700 ≡ 100 + session_ttl_secs)
    × (validate_session_token outside 200 200 "token-1"
          (exchange_signature_for_token outside 10 100 0 "n-1" "sig" challenged).1
        ≡ ok (record { address = "0xAb"; issued_at = 100; expires_at = 3700 }))
unfolding exchange_signature_for_token consume_challenge stored lookup
exchange_sound_example =
    exchange_sound outside 10 100 0 "n-1" "sig" challenged
      (record { token = "token-1"; address = "0xAb"; expires_at = 3700 }) 200 200 refl (omega arith)

revoke_session-lasting_example :
    validate_session_token outside 600 600 "token-1"
      (run outside (sweeps 500 ∷ creates 501 "n-1" ∷ []) (revoke_session 400 "token-1" signed_in).1)
    ≡ err auth
unfolding lookup
revoke_session-lasting_example =
    revoke_session-lasting outside 400 "token-1" signed_in claims
      (sweeps 500 ∷ creates 501 "n-1" ∷ []) 600 600 signed_in-IsBounded refl (omega arith, (tt, tt))

revoke_sessions_for_address-lasting_example :
    validate_session_token outside 600 600 "token-1"
      (run outside (sweeps 500 ∷ []) (revoke_sessions_for_address "0xaB" signed_in).1)
    ≡ err auth
unfolding lookup eq_ignore_ascii_case
revoke_sessions_for_address-lasting_example =
    revoke_sessions_for_address-lasting outside "0xaB" "token-1" signed_in claims (sweeps 500 ∷ [])
      600 600 signed_in-IsBounded refl refl (omega arith, tt)
