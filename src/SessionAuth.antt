-- ===== src/SessionAuth.antt =====
-- sandbox-runtime/src/session_auth/: challenges and session tokens of the operator API. Times are
-- whole seconds of the wall clock, and each call takes its readings as arguments.
pub mod History
mod Challenges
mod Tokens
mod Revocation
mod Lasting
mod Tests
use ai_agent_sandbox_bluepri.Base.{
  ℕ, ◌+◌, ◌<◌, String, string_eq, Bool, true, false, Option, none, some, List, [], ◌∷◌, Result, ok,
  err, auth, unavailable, ◌>>=◌, if◌then◌else◌, ltb, leb, length, is_some,
}
use ai_agent_sandbox_bluepri.Base.Map.{Map, lookup, insert, remove, retain_values, contains_key}
use ai_agent_sandbox_bluepri.Base.Text.{eq_ignore_ascii_case}

abbrev pub challenge_ttl_secs : ℕ
challenge_ttl_secs = 300

abbrev pub session_ttl_secs : ℕ
session_ttl_secs = 3600

abbrev pub max_challenges : ℕ
max_challenges = 10000

abbrev pub max_sessions : ℕ
max_sessions = 50000

pub record Challenge : Type 0 where
  pub nonce : String
  pub message : String
  pub expires_at : ℕ

pub record SessionToken : Type 0 where
  pub token : String
  pub address : String
  pub expires_at : ℕ

pub record SessionClaims : Type 0 where
  pub address : String
  pub issued_at : ℕ
  pub expires_at : ℕ

-- The statics `CHALLENGES`, `SESSIONS` and `REVOKED`.
pub record Stores : Type 0 where
  pub challenges : Map String Challenge
  pub sessions : Map String SessionClaims
  pub revoked : Map String ℕ

-- What decryption yields: the claims "address", "iat" and "exp" of the payload. `iat` is none where
-- it is missing or no timestamp; `exp` is none where it is missing, and some none where it is no
-- timestamp.
pub record Payload : Type 0 where
  pub address : Option String
  pub iat : Option ℕ
  pub exp : Option (Option ℕ)

-- What the code calls: the text of a challenge (`format!`), the recovery of the signer's address
-- from a message and a signature, the encryption of new claims to a token (which may fail, and
-- draws its nonce from the system: the first argument), and the decryption of a token at a time,
-- which checks the claims too.
pub record Externals : Type 0 where
  pub message : String → ℕ → String
  pub verify_signature : String → String → Option String
  pub encrypt : ℕ → SessionClaims → Option String
  pub decrypt : ℕ → String → Option Payload

abbrev pub or_auth {ℓ} : {A : Type ℓ} → Option A → Result A
or_auth none = err auth
or_auth (some a) = ok a

-- A call that fails may still change the stores.
abbrev pub Answer : Type 0 → Type 0
Answer A = Result A × Stores

module _ (x : Externals) where
  unfoldable pub create_challenge : ℕ → String → Stores → Answer Challenge
  create_challenge now nonce s =
      let c : Challenge = record {
        nonce = nonce;
        message = x.message nonce (now + challenge_ttl_secs);
        expires_at = now + challenge_ttl_secs;
      } in
      if leb max_challenges (length s.challenges)
      then (err unavailable, s)
      else (ok c, record s { challenges = insert nonce c s.challenges })

-- `consume_challenge`: the challenge leaves the store before its expiry is read.
consumed : ℕ → Option Challenge → Result String
consumed now none = err auth
consumed now (some c) = if ltb c.expires_at now then err auth else ok c.message

unfoldable pub consume_challenge : ℕ → String → Stores → Answer String
unfolding consumed
consume_challenge now nonce s =
    (consumed now (lookup nonce s.challenges), record s { challenges = remove nonce s.challenges })

-- The last step of the exchange: the new session is stored, if there is room.
store_session : String → SessionClaims → Stores → Answer SessionToken
store_session token c s = if leb max_sessions (length s.sessions) then (err unavailable, s) else (
  ok (record { token = token; address = c.address; expires_at = c.expires_at }),
  record s { sessions = insert token c s.sessions },
)

module _ (x : Externals) where
  -- The claims and the token for the signer of a message.
  issue : ℕ → ℕ → String → String → Result (String × SessionClaims)
  issue now draw message signature = do
    address ← or_auth (x.verify_signature message signature)
    let c : SessionClaims = record {
      address = address;
      issued_at = now;
      expires_at = now + session_ttl_secs;
    }
    token ← or_auth (x.encrypt draw c)
    ok (token, c)

  stored : Result (String × SessionClaims) → Stores → Answer SessionToken
  unfolding store_session
  stored (err e) s = (err e, s)
  stored (ok (token, c)) s = store_session token c s

  -- `consume_at` is the reading of `consume_challenge`, `now` that of the issue.
  unfoldable pub exchange_signature_for_token :
      ℕ → ℕ → ℕ → String → String → Stores → Answer SessionToken
  unfolding issue stored
  exchange_signature_for_token consume_at now draw nonce signature s =
      let (message, s') = consume_challenge consume_at nonce s in
      stored (message >>= λ m. issue now draw m signature) s'

  -- The claims of a payload, read at `now`.
  claims_of : ℕ → Payload → Result SessionClaims
  claims_of now p = do
    address ← or_auth p.address
    exp ← or_auth p.exp
    expires_at ← or_auth exp
    if ltb expires_at now
        then err auth
        else ok (record {
          address = address;
          issued_at = elim p.iat [ none ↦ 0 | some t ↦ t ];
          expires_at = expires_at;
        })

  -- The fallback for a token that the store does not know.
  validate_paseto : ℕ → String → Stores → Result SessionClaims
  unfolding claims_of
  validate_paseto now token s =
      if contains_key token s.revoked
      then err auth
      else or_auth (x.decrypt now token) >>= claims_of now

  unfoldable pub validate_session_token : ℕ → ℕ → String → Stores → Result SessionClaims
  unfolding validate_paseto
  validate_session_token now later token s =
      let fallback = validate_paseto later token s in
      elim (lookup token s.sessions) [
        | none ↦ fallback
        | some c ↦ if leb now c.expires_at then ok c else fallback
      ]

-- How long a revoked token is kept on the blacklist.
abbrev revoked_until : ℕ → Option SessionClaims → ℕ
revoked_until now none = now + session_ttl_secs
revoked_until now (some c) = c.expires_at

unfoldable pub revoke_session : ℕ → String → Stores → Bool × Stores
revoke_session now token s =
    let claims = lookup token s.sessions in
    (
      is_some claims,
      record s {
        sessions = remove token s.sessions;
        revoked = insert token (revoked_until now claims) s.revoked;
      },
    )

-- The closure of `retain`: it drops the sessions of an address, blacklists and counts them.
unfoldable pub revoke_matching :
    String → Map String SessionClaims → Map String ℕ → Map String SessionClaims × Map String ℕ × ℕ
revoke_matching address [] revoked = ([], revoked, 0)
revoke_matching address ((token, c) ∷ m) revoked =
    let (m', revoked', n) = revoke_matching address m revoked in
    if eq_ignore_ascii_case c.address address
    then (m', insert token c.expires_at revoked', n + 1)
    else ((token, c) ∷ m', revoked', n)

unfoldable pub revoke_sessions_for_address : String → Stores → ℕ × Stores
revoke_sessions_for_address address s =
    let (m, revoked, n) = revoke_matching address s.sessions s.revoked in
    (n, record s { sessions = m; revoked = revoked })

unfoldable pub gc_sessions : ℕ → Stores → Stores
gc_sessions now s = record {
  challenges = retain_values (λ c. ltb now c.expires_at) s.challenges;
  sessions = retain_values (λ c. ltb now c.expires_at) s.sessions;
  revoked = retain_values (λ t. ltb now t) s.revoked;
}
