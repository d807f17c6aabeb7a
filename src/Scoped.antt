-- ===== src/Scoped.antt =====
-- Scoped session authentication, sandbox-runtime/src/scoped_session_auth/: the configuration
-- (config.rs), the challenges, sessions and their sweep (state.rs), and the service (service.rs).
-- Times are seconds since the epoch, and milliseconds where the name says so; an expiry is not
-- wrapped. The code's times and times to live are signed, and are not negative here. The recovery of a signer, the printing of a time and the fresh ids are arguments.
pub mod Service
pub mod Resolve
pub mod Stale
pub mod History
pub mod Effects
pub mod Issued
pub mod Clock
pub mod Signer
mod Tests
use Prim.Native.String.{◌++◌ as text_append}
use ai_agent_sandbox_bluepri.Base.{
  ℕ, ◌+◌, ◌-◌, ◌*◌, ◌/◌, ◌%◌, String, Bool, true, false, not, ◌&&◌, ◌||◌, Option, none, some, ◌⊎◌,
  inl, inr, List, [], ◌∷◌, if◌then◌else◌, ltb, leb, eqb, ◌==◌, string_eq, length, u64_modulus,
}
use ai_agent_sandbox_bluepri.Base.Map.{Map, lookup, insert, remove, retain_values}
use ai_agent_sandbox_bluepri.Base.Text.{
  codes, byte_len, trim_text, is_empty_text, equal_codes, to_ascii_lowercase,
}

pub data ScopedAuthMode : Type 0 where
  wallet_signature access_token : ScopedAuthMode

-- The times to live are i64 in the code; a negative one, which the configuration does not forbid, is
-- left out.
pub record ScopedAuthConfig : Type 0 where
  pub challenge_ttl_secs : ℕ
  pub session_ttl_secs : ℕ
  pub access_token : Option String
  pub operator_api_token : Option String
  pub max_challenges : ℕ
  pub max_sessions : ℕ
  pub token_prefix : String
  pub challenge_message_header : String

pub record ScopedAuthResource : Type 0 where
  pub scope_id : String
  pub owner : String
  pub auth_mode : ScopedAuthMode

pub data ScopedSessionClaims : Type 0 where
  operator : ScopedSessionClaims
  scoped : (scope_id owner : String) → ScopedSessionClaims

pub record ScopedChallengeResponse : Type 0 where
  pub challenge_id : String
  pub message : String
  pub expires_at : ℕ

pub record ScopedSessionResponse : Type 0 where
  pub token : String
  pub expires_at : ℕ
  pub scope_id : String
  pub owner : String

-- A normalized address is the list of its characters.
pub record WalletChallengeEntry : Type 0 where
  pub scope_id : String
  pub owner : String
  pub wallet_address : List ℕ
  pub message : String
  pub expires_at : ℕ

pub record SessionEntry : Type 0 where
  pub scope_id : String
  pub owner : String
  pub expires_at : ℕ

pub record ScopedAuthState : Type 0 where
  pub challenges : Map String WalletChallengeEntry
  pub sessions : Map String SessionEntry
  pub last_gc_ms : ℕ
  pub resolve_calls : ℕ
  pub cached_now_secs : ℕ

unfoldable pub new_state : ScopedAuthState
new_state = record {
  challenges = [];
  sessions = [];
  last_gc_ms = 0;
  resolve_calls = 0;
  cached_now_secs = 0;
}

abbrev pub gc_interval_ms : ℕ
gc_interval_ms = 60000

-- `calls & GC_LOAD_SAMPLE_MASK == 0`: every 256th call.
abbrev pub is_sampled : ℕ → Bool
is_sampled calls = eqb (calls % 256) 0

-- The load factor of a map with the capacity that `DashMap` answers. The quotient of the floats is at
-- least 0.8 exactly where it is as a fraction, for capacities below 2 ^ 50.
unfoldable pub load_factor_exceeded : ℕ → ℕ → Bool
load_factor_exceeded len capacity = if eqb capacity 0 then false else leb (8 * capacity) (10 * len)

unfoldable pub should_gc : ℕ → ℕ → ScopedAuthState → Bool
unfolding load_factor_exceeded
should_gc capacity now_ms s =
    ltb gc_interval_ms (now_ms - s.last_gc_ms) || load_factor_exceeded (length s.sessions) capacity

-- `gc_now`: both maps keep what expires later.
unfoldable pub gc_now : ℕ → ℕ → ScopedAuthState → ScopedAuthState
gc_now now_ms now_secs s = record s {
  last_gc_ms = now_ms;
  cached_now_secs = now_secs;
  challenges = retain_values (λ c. ltb now_secs c.expires_at) s.challenges;
  sessions = retain_values (λ e. ltb now_secs e.expires_at) s.sessions;
}

-- No other thread sweeps meanwhile, so the exchange of the time of the last sweep succeeds.
unfoldable pub maybe_gc : ℕ → ℕ → ℕ → ScopedAuthState → ScopedAuthState
unfolding should_gc gc_now
maybe_gc capacity now_ms now_secs s =
    if should_gc capacity now_ms s then gc_now now_ms now_secs s else s

-- The cold path of every 256th call.
unfoldable pub sample_clock : ℕ → ℕ → ScopedAuthState → ScopedAuthState
unfolding should_gc maybe_gc
sample_clock capacity now_ms s =
    let t = record s { cached_now_secs = now_ms / 1000 } in
    if should_gc capacity now_ms t then maybe_gc capacity now_ms (now_ms / 1000) t else t

abbrev pub is_operator : ScopedAuthConfig → String → Bool
is_operator config token = elim config.operator_api_token [ none ↦ false | some t ↦ token == t ]

-- What the session of a token answers.
unfoldable pub session_claims : ℕ → Option SessionEntry → Option ScopedSessionClaims
session_claims now_secs none = none
session_claims now_secs (some e) =
    if leb e.expires_at now_secs then none else some (scoped e.scope_id e.owner)

unfoldable pub resolve_bearer :
    ScopedAuthConfig
    → ℕ
    → ℕ
    → String
    → ScopedAuthState
    → Option ScopedSessionClaims × ScopedAuthState
unfolding trim_text sample_clock session_claims
resolve_bearer config capacity now_ms token s =
    let trimmed = trim_text token in
    if is_empty_text trimmed
    then (none, s)
    else if is_operator config trimmed
    then (some operator, s)
    else (let calls = s.resolve_calls in
        let counted = record s { resolve_calls = (calls + 1) % u64_modulus } in
        let t = if is_sampled calls then sample_clock capacity now_ms counted else counted in
        (session_claims t.cached_now_secs (lookup trimmed t.sessions), t))

-- `is_ascii_hexdigit`.
abbrev pub is_hexdigit : ℕ → Bool
is_hexdigit c =
    (leb b'0' c && leb c b'9') || ((leb b'A' c && leb c b'F') || (leb b'a' c && leb c b'f'))

unfoldable pub all_hex : List ℕ → Bool
all_hex [] = true
all_hex (c ∷ cs) = is_hexdigit c && all_hex cs

-- The text after `0x` or `0X`.
unfoldable pub strip_0x : List ℕ → Option (List ℕ)
strip_0x [] = none
strip_0x (c ∷ []) = none
strip_0x (c ∷ (d ∷ cs)) = if eqb c b'0' && (eqb d b'x' || eqb d b'X') then some cs else none

unfoldable pub normalize_evm_address : String → Option (List ℕ)
unfolding trim_text byte_len strip_0x all_hex
normalize_evm_address raw =
    let value = codes (trim_text raw) in
    if eqb (byte_len value) 42
    then elim (strip_0x value) [
      | none ↦ none
      | some hex ↦ if all_hex hex then some (b'0' ∷ (b'x' ∷ to_ascii_lowercase hex)) else none
    ]
    else none

unfoldable pub issue_token : String → String → String
unfolding trim_text
issue_token prefix fresh =
    text_append (if is_empty_text (trim_text prefix) then "scope_" else trim_text prefix) fresh

pub data ScopedError : Type 0 where
  wrong_mode invalid_address not_owner challenge_capacity challenge_not_found unrecovered
        wrong_signer session_capacity not_configured invalid_access_token :
      ScopedError

-- The recovery of the signer of a message, and a time in decimal.
pub record Externals : Type 0 where
  pub verify_eip191_signature : String → String → Option String
  pub print : ℕ → String

unfoldable pub challenge_message :
    Externals → ScopedAuthConfig → ScopedAuthResource → String → ℕ → ℕ → String
challenge_message x config resource challenge now expires =
    text_append config.challenge_message_header (
      text_append "\nscope_id:" (
        text_append resource.scope_id (
          text_append "\nowner:" (
            text_append resource.owner (
              text_append "\nchallenge_id:" (
                text_append challenge (
                  text_append "\nissued_at:" (
                    text_append (x.print now)
                      (text_append "\nexpires_at:" (x.print expires))))))))))
