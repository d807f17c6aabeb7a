-- ===== src/SessionAuth/Challenges.antt =====
-- A challenge is good for one exchange.
use text.Mathlib.TextEquality.{eq_iff}
use ai_agent_sandbox_bluepri.Base.{
  ℕ, ◌+◌, ◌≡◌, ◌≢◌, refl, String, string_eq, none, List, [], ◌∷◌, Result, ok, err, if◌then◌else◌,
  ltb, arith, is_ok, auth, All, ◌==◌, ◌>>=◌,
}
use ai_agent_sandbox_bluepri.Base.Map.{
  lookup, remove, lookup-insert, lookup-remove, lookup-retain_values-none,
}
use ai_agent_sandbox_bluepri.SessionAuth.{
  Stores, SessionClaims, Externals, create_challenge, consumed, consume_challenge,
  exchange_signature_for_token, revoke_session, revoke_sessions_for_address, gc_sessions,
  store_session, stored, issue,
}
use ai_agent_sandbox_bluepri.SessionAuth.History.{
  Op, creates, exchanges, revokes, revokes_address, sweeps, step,
}

-- The call does not create a challenge with this nonce.
abbrev pub Spares : String → Op → Type 0
Spares nonce (creates now n) = n ≢ nonce
Spares nonce _ = Unit {0}

stored-challenges :
    (x : Externals) (r : Result (String × SessionClaims)) (s : Stores)
    → (stored x r s).1.challenges ≡ s.challenges
unfolding stored store_session
stored-challenges x (err e) s = refl
stored-challenges x (ok (token, c)) s = ground arith

exchange-challenges :
    (x : Externals) (consume_at now draw : ℕ) (n signature : String) (s : Stores)
    → (exchange_signature_for_token x consume_at now draw n signature s).1.challenges
      ≡ remove n s.challenges
unfolding exchange_signature_for_token consume_challenge
exchange-challenges x consume_at now draw n signature s =
    stored-challenges x ((consume_challenge consume_at n s).0 >>= λ m. issue x now draw m signature)
      (consume_challenge consume_at n s).1

-- A nonce that is not stored stays so until a challenge is created with it.
step-absent :
    (x : Externals) (nonce : String) (op : Op) (s : Stores)
    → Spares nonce op
    → lookup nonce s.challenges ≡ none
    → lookup nonce (step x op s).challenges ≡ none
unfolding step create_challenge revoke_session revoke_sessions_for_address gc_sessions
step-absent x nonce (creates now n) s h absent = ground (
  arith,
  eq_iff n nonce,
  lookup-insert n nonce
      (record { nonce = n; message = x.message n (now + 300); expires_at = now + 300 })
      s.challenges,
)
step-absent x nonce (exchanges consume_at now draw n signature) s h absent =
    rw (exchange-challenges x consume_at now draw n signature s, lookup-remove, absent)
      (ground arith)
step-absent x nonce (revokes now token) s h absent = absent
step-absent x nonce (revokes_address address) s h absent = absent
step-absent x nonce (sweeps now) s h absent =
    lookup-retain_values-none (λ c. ltb now c.expires_at) nonce s.challenges absent

-- 1 for an exchange of `nonce` that succeeds.
abbrev pub success : Externals → String → Op → Stores → ℕ
success x nonce (exchanges consume_at now draw n signature) s =
    if n == nonce
    then (if is_ok (exchange_signature_for_token x consume_at now draw n signature s).0
        then 1
        else 0)
    else 0
success x nonce _ s = 0

-- How many exchanges of `nonce` succeed in a history.
pub successes : Externals → String → List Op → Stores → ℕ
successes x nonce [] s = 0
successes x nonce (op ∷ ops) s = success x nonce op s + successes x nonce ops (step x op s)

exchange-absent :
    (x : Externals) (consume_at now draw : ℕ) (n signature : String) (s : Stores)
    → lookup n s.challenges ≡ none
    → (exchange_signature_for_token x consume_at now draw n signature s).0 ≡ err auth
unfolding exchange_signature_for_token consume_challenge stored consumed
exchange-absent x consume_at now draw n signature s absent = ground arith

absent_fails :
    (x : Externals) (nonce : String) (op : Op) (s : Stores)
    → lookup nonce s.challenges ≡ none
    → success x nonce op s ≡ 0
absent_fails x nonce (exchanges consume_at now draw n signature) s absent =
    ground (arith, eq_iff n nonce, exchange-absent x consume_at now draw n signature s)
absent_fails x nonce _ s absent = refl

absent-successes :
    (x : Externals) (nonce : String) (ops : List Op) (s : Stores)
    → All (Spares nonce) ops
    → lookup nonce s.challenges ≡ none
    → successes x nonce ops s ≡ 0
unfolding successes
absent-successes x nonce [] s h absent = refl
absent-successes x nonce (op ∷ ops) s h absent = omega (
  arith,
  absent_fails x nonce op s absent,
  absent-successes x nonce ops (step x op s) h.1 (step-absent x nonce op s h.0 absent),
)

-- Once an exchange of a nonce has been tried, with any outcome, no later exchange of it succeeds,
-- in any history that does not create a challenge with the same nonce again.
pub nonce_single_use :
    (x : Externals) (consume_at now draw : ℕ) (nonce signature : String) (s : Stores)
    (ops : List Op)
    → All (Spares nonce) ops
    → successes x nonce ops (exchange_signature_for_token x consume_at now draw nonce signature s).1
      ≡ 0
nonce_single_use x consume_at now draw nonce signature s ops h = absent-successes x nonce ops _ h (
    rw (exchange-challenges x consume_at now draw nonce signature s, lookup-remove)
      (ground (arith, eq_iff nonce nonce)))
