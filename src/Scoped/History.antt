-- ===== src/Scoped/History.antt =====
-- Histories of the calls of scoped_session_auth/service.rs.
use ai_agent_sandbox_bluepri.Base.{ℕ, String, List, [], ◌∷◌}
use ai_agent_sandbox_bluepri.Scoped.{
  ScopedAuthConfig, ScopedAuthState, ScopedAuthResource, Externals, resolve_bearer,
}
use ai_agent_sandbox_bluepri.Scoped.Service.{
  create_wallet_challenge, verify_wallet_challenge, create_access_token_session,
}

-- A call, with its readings of the clocks, its fresh id and its arguments.
pub data Op : Type 0 where
  challenges : (now gc_ms : ℕ) → (fresh : String) → ScopedAuthResource → (wallet : String) → Op
  verifies : (now gc_ms : ℕ) → (fresh challenge signature : String) → Op
  grants : (now gc_ms : ℕ) → (fresh : String) → ScopedAuthResource → (token : String) → Op
  resolves : (capacity now_ms : ℕ) → (token : String) → Op

unfoldable pub step : Externals → ScopedAuthConfig → Op → ScopedAuthState → ScopedAuthState
step x config (challenges now gc_ms fresh resource wallet) s =
    (create_wallet_challenge x config now gc_ms fresh resource wallet s).1
step x config (verifies now gc_ms fresh challenge signature) s =
    (verify_wallet_challenge x config now gc_ms fresh challenge signature s).1
step x config (grants now gc_ms fresh resource token) s =
    (create_access_token_session config now gc_ms fresh resource token s).1
step x config (resolves capacity now_ms token) s = (resolve_bearer config capacity now_ms token s).1

unfoldable pub history : Externals → ScopedAuthConfig → List Op → ScopedAuthState → ScopedAuthState
history x config [] s = s
history x config (op ∷ ops) s = history x config ops (step x config op s)
