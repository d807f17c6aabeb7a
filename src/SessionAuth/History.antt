-- ===== src/SessionAuth/History.antt =====
-- The calls of the session authentication as steps of its stores.
use ai_agent_sandbox_bluepri.Base.{
  ℕ, ◌+◌, ◌≤◌, ◌≡◌, refl, String, string_eq, none, List, [], ◌∷◌, Result, ok, err, ltb, length,
  arith,
}
use ai_agent_sandbox_bluepri.Base.Map.{
  Map, IsMap, insert-IsMap, remove-IsMap, retain_values-IsMap, length-insert-le, length-remove-le,
  length-retain_values-le, lookup,
}
use ai_agent_sandbox_bluepri.SessionAuth.{
  Stores, Challenge, SessionClaims, Externals, create_challenge, consume_challenge,
  exchange_signature_for_token, revoke_session, revoke_matching, revoke_sessions_for_address,
  gc_sessions, store_session, stored, max_challenges, max_sessions,
}

pub data Op : Type 0 where
  creates : ℕ → String → Op
  exchanges : ℕ → ℕ → ℕ → String → String → Op
  revokes : ℕ → String → Op
  revokes_address : String → Op
  sweeps : ℕ → Op

abbrev pub empty_stores : Stores
empty_stores = record { challenges = []; sessions = []; revoked = [] }

module _ (x : Externals) where
  unfoldable pub step : Op → Stores → Stores
  step (creates now nonce) s = (create_challenge x now nonce s).1
  step (exchanges consume_at now draw nonce signature) s =
      (exchange_signature_for_token x consume_at now draw nonce signature s).1
  step (revokes now token) s = (revoke_session now token s).1
  step (revokes_address address) s = (revoke_sessions_for_address address s).1
  step (sweeps now) s = gc_sessions now s

  unfoldable pub run : List Op → Stores → Stores
  run [] s = s
  run (op ∷ ops) s = run ops (step op s)

-- The keys are distinct, and no store is fuller than its limit.
pub record IsBounded (s : Stores) : Type 0 where
  pub challenges_map : IsMap s.challenges
  pub sessions_map : IsMap s.sessions
  pub revoked_map : IsMap s.revoked
  pub challenges_fit : length s.challenges ≤ max_challenges
  pub sessions_fit : length s.sessions ≤ max_sessions

-- What is left of the sessions has distinct keys, and so has the longer blacklist.
lookup-revoke_matching :
    (address token : String) (m : Map String SessionClaims) (revoked : Map String ℕ)
    → lookup token m ≡ none
    → lookup token (revoke_matching address m revoked).0 ≡ none
unfolding revoke_matching lookup
lookup-revoke_matching address token [] revoked h = refl
lookup-revoke_matching address token ((j, c) ∷ m) revoked h =
    ground (arith, lookup-revoke_matching address token m revoked)

pub revoke_matching-IsMap :
    (address : String) (m : Map String SessionClaims) (revoked : Map String ℕ)
    → IsMap m
    → IsMap revoked
    → IsMap (revoke_matching address m revoked).0 × IsMap (revoke_matching address m revoked).1
unfolding revoke_matching
revoke_matching-IsMap address [] revoked h k = (tt, k)
revoke_matching-IsMap address ((j, c) ∷ m) revoked h k =
    let (h', k') = revoke_matching-IsMap address m revoked h.1 k in
    ground (
      arith,
      h',
      k',
      insert-IsMap j c.expires_at (revoke_matching address m revoked).1 k',
      lookup-revoke_matching address j m revoked h.0,
    )

length-revoke_matching-le :
    (address : String) (m : Map String SessionClaims) (revoked : Map String ℕ)
    → length (revoke_matching address m revoked).0 ≤ length m
unfolding revoke_matching
length-revoke_matching-le address [] revoked = omega arith
length-revoke_matching-le address ((j, c) ∷ m) revoked =
    ground (arith, length-revoke_matching-le address m revoked)

store_session-IsBounded :
    (token : String) (c : SessionClaims) (s : Stores)
    → IsBounded s
    → IsBounded (store_session token c s).1
unfolding store_session
store_session-IsBounded token c s b = record {
  challenges_map = ground (arith, b.challenges_map);
  sessions_map = ground (arith, insert-IsMap token c s.sessions b.sessions_map);
  revoked_map = ground (arith, b.revoked_map);
  challenges_fit = ground (arith, b.challenges_fit);
  sessions_fit = ground (arith, length-insert-le token c s.sessions, b.sessions_fit);
}

stored-IsBounded :
    (x : Externals) (r : Result (String × SessionClaims)) (s : Stores)
    → IsBounded s
    → IsBounded (stored x r s).1
unfolding stored
stored-IsBounded x (err e) s b = b
stored-IsBounded x (ok (token, c)) s b = store_session-IsBounded token c s b

consume-IsBounded :
    (now : ℕ) (nonce : String) (s : Stores)
    → IsBounded s
    → IsBounded (consume_challenge now nonce s).1
unfolding consume_challenge
consume-IsBounded now nonce s b = record {
  challenges_map = remove-IsMap nonce s.challenges b.challenges_map;
  sessions_map = b.sessions_map;
  revoked_map = b.revoked_map;
  challenges_fit = omega (arith, length-remove-le nonce s.challenges);
  sessions_fit = b.sessions_fit;
}

create-IsBounded :
    (x : Externals) (now : ℕ) (nonce : String) (s : Stores)
    → IsBounded s
    → IsBounded (create_challenge x now nonce s).1
unfolding create_challenge
create-IsBounded x now nonce s b =
    let c : Challenge = record {
      nonce = nonce;
      message = x.message nonce (now + 300);
      expires_at = now + 300;
    } in
    record {
      challenges_map = ground (arith, insert-IsMap nonce c s.challenges b.challenges_map);
      sessions_map = ground (arith, b.sessions_map);
      revoked_map = ground (arith, b.revoked_map);
      challenges_fit = ground (arith, length-insert-le nonce c s.challenges, b.challenges_fit);
      sessions_fit = ground (arith, b.sessions_fit);
    }

gc-IsBounded : (now : ℕ) (s : Stores) → IsBounded s → IsBounded (gc_sessions now s)
unfolding gc_sessions
gc-IsBounded now s b = record {
  challenges_map = retain_values-IsMap _ s.challenges b.challenges_map;
  sessions_map = retain_values-IsMap _ s.sessions b.sessions_map;
  revoked_map = retain_values-IsMap _ s.revoked b.revoked_map;
  challenges_fit =
      omega (arith, length-retain_values-le (λ (c : Challenge). ltb now c.expires_at) s.challenges);
  sessions_fit =
      omega
        (arith, length-retain_values-le (λ (c : SessionClaims). ltb now c.expires_at) s.sessions);
}

-- Every call keeps the stores within their limits, whatever it answers.
pub step-IsBounded : (x : Externals) (op : Op) (s : Stores) → IsBounded s → IsBounded (step x op s)
unfolding step exchange_signature_for_token revoke_session revoke_sessions_for_address
step-IsBounded x (creates now nonce) s b = create-IsBounded x now nonce s b
step-IsBounded x (exchanges consume_at now draw nonce signature) s b =
    stored-IsBounded x _ _ (consume-IsBounded consume_at nonce s b)
step-IsBounded x (revokes now token) s b = record {
  challenges_map = b.challenges_map;
  sessions_map = remove-IsMap token s.sessions b.sessions_map;
  revoked_map = insert-IsMap token _ s.revoked b.revoked_map;
  challenges_fit = b.challenges_fit;
  sessions_fit = omega (arith, length-remove-le token s.sessions, b.sessions_fit);
}
step-IsBounded x (revokes_address address) s b =
    let (m, r) = revoke_matching-IsMap address s.sessions s.revoked b.sessions_map b.revoked_map in
    record {
      challenges_map = b.challenges_map;
      sessions_map = m;
      revoked_map = r;
      challenges_fit = b.challenges_fit;
      sessions_fit =
          omega (arith, length-revoke_matching-le address s.sessions s.revoked, b.sessions_fit);
    }
step-IsBounded x (sweeps now) s b = gc-IsBounded now s b

-- However the calls follow one another, from empty stores on there are never more than 10000
-- challenges or 50000 sessions, and no key is stored twice.
pub run-IsBounded : (x : Externals) (ops : List Op) → IsBounded (run x ops empty_stores)
unfolding run
run-IsBounded x ops = go x ops empty_stores (omega arith)
  where
    go : (x : Externals) (ops : List Op) (s : Stores) → IsBounded s → IsBounded (run x ops s)
    go x [] s b = b
    go x (op ∷ ops) s b = go x ops (step x op s) (step-IsBounded x op s b)
