-- ===== src/Scoped/Tests.antt =====
-- One wallet and one session: a signed challenge, a bearer after 256 calls, and an expired one.
use ai_agent_sandbox_bluepri.Base.{
  ℕ, zero, suc, ◌≡◌, ◌<◌, refl, ap, String, none, some, List, [], ◌∷◌, inr, arith, All, count,
  string_eq,
}
use ai_agent_sandbox_bluepri.Base.Map.{lookup, insert, retain_values}
use ai_agent_sandbox_bluepri.Base.Text.{trim_text}
use ai_agent_sandbox_bluepri.Scoped.{
  wallet_signature, ScopedAuthConfig, ScopedAuthResource, ScopedAuthState, ScopedSessionResponse,
  SessionEntry, scoped, Externals, new_state, resolve_bearer,
}
use ai_agent_sandbox_bluepri.Scoped.Service.{verify_wallet_challenge, create_wallet_challenge}
use ai_agent_sandbox_bluepri.Scoped.History.{Op, challenges, resolves, step, history}
use ai_agent_sandbox_bluepri.Scoped.Signer.{IsSigned, verify_wallet_challenge-IsSigned}
use ai_agent_sandbox_bluepri.Scoped.Resolve.{Call, counts, IsAfter, run, resolve_bearer-fresh}
use ai_agent_sandbox_bluepri.Scoped.Stale.{resolve_bearer-stale}

abbrev config : ScopedAuthConfig
config = record {
  challenge_ttl_secs = 300;
  session_ttl_secs = 3600;
  access_token = none;
  operator_api_token = none;
  max_challenges = 10;
  max_sessions = 10;
  token_prefix = "scope_";
  challenge_message_header = "Scoped Resource Access";
}

abbrev wallet : String
wallet = "0xABCDEFABCDEFABCDEFABCDEFABCDEFABCDEFABCD"

abbrev resource : ScopedAuthResource
resource = record { scope_id = "sandbox:1"; owner = wallet; auth_mode = wallet_signature }

-- Every signature is the wallet's.
abbrev outside : Externals
outside = record {
  verify_eip191_signature = λ message signature. some wallet;
  print = λ time. "then";
}

abbrev ops : List Op
ops = challenges 100 100000 "c1" resource wallet ∷ []

abbrev response : ScopedSessionResponse
response = record { token = "scope_f1"; expires_at = 3800; scope_id = "sandbox:1"; owner = wallet }

issued :
    (verify_wallet_challenge outside config 200 200000 "f1" "c1" "0x01"
      (history outside config ops new_state)).0
    ≡ inr response
unfolding verify_wallet_challenge history step create_wallet_challenge new_state lookup insert
    retain_values
issued = refl

verify_wallet_challenge-IsSigned_example :
    IsSigned outside config 200 "c1" "0x01" response
      (verify_wallet_challenge outside config 200 200000 "f1" "c1" "0x01"
        (history outside config ops new_state)).1
verify_wallet_challenge-IsSigned_example =
    verify_wallet_challenge-IsSigned outside config ops 200 200000 "f1" "c1" "0x01" response issued

abbrev entry : SessionEntry
entry = record { scope_id = "sandbox:1"; owner = wallet; expires_at = 3800 }

abbrev state : ScopedAuthState
state = record {
  challenges = [];
  sessions = ("scope_f1", entry) ∷ [];
  last_gc_ms = 200000;
  resolve_calls = 1;
  cached_now_secs = 200;
}

-- `n` calls at 1000 seconds.
abbrev calls : ℕ → List Call
calls zero = []
calls (suc n) = (16, (1000000, "scope_f1")) ∷ calls n

abbrev resolutions : ℕ → List Op
resolutions zero = []
resolutions (suc n) = resolves 16 1000000 "scope_f1" ∷ resolutions n

resolutions-IsAfter : (n : ℕ) → All (IsAfter 1000) (resolutions n)
resolutions-IsAfter zero = tt
resolutions-IsAfter (suc n) = (omega arith, resolutions-IsAfter n)

count-resolutions : (n : ℕ) → count (counts config) (resolutions n) ≡ n
unfolding trim_text
count-resolutions zero = refl
count-resolutions (suc n) = ap suc (count-resolutions n)

resolve_bearer-fresh_example :
    (e : SessionEntry) × (lookup
        (trim_text "scope_f1")
        (resolve_bearer config 16 1000000 "scope_f1"
          (history outside config (resolutions 256) state)).1.sessions
      ≡ some e)
    × (1000 < e.expires_at)
unfolding resolve_bearer history step lookup retain_values
resolve_bearer-fresh_example =
    resolve_bearer-fresh outside config 1000 (resolutions 256) 16 1000000 "scope_f1" "sandbox:1"
      wallet state (resolutions-IsAfter 256) (omega arith) (omega (arith, count-resolutions 256))
      refl

-- The session expires at 3800 seconds; a day later it is accepted.
resolve_bearer-stale_example :
    (resolve_bearer config 16 90000000 "scope_f1" (run config (calls 3) state)).0
    ≡ some (scoped "sandbox:1" wallet)
unfolding trim_text lookup
resolve_bearer-stale_example =
    resolve_bearer-stale config (calls 3) 16 90000000 "scope_f1" state entry refl refl (omega arith)
      (omega arith) (omega arith)
