-- ===== src/Base/Errors.antt =====
-- `SandboxError` and `Result` of sandbox-runtime/src/error.rs. The texts of the messages are left
-- out, except where a caller reads them.
use mathlib.Core.Bool.{Bool, true, false}
use Prim.Native.Nat.{ℕ}

pub data SandboxError : Type 0 where
  auth docker http validation not_found storage cloud_provider unavailable unsupported :
      SandboxError
  circuit_breaker : ℕ → Bool → SandboxError

pub data Result {ℓ} (A : Type ℓ) : Type ℓ where
  ok : A → Result A
  err : SandboxError → Result A

abbrev pub is_ok {ℓ} : {A : Type ℓ} → Result A → Bool
is_ok (err _) = false
is_ok (ok _) = true

-- The operator `?`.
infixl 5 ◌>>=◌ ◌>>◌
abbrev pub ◌>>=◌ {ℓ κ} : {A : Type ℓ} {B : Type κ} → Result A → (A → Result B) → Result B
err failure >>= next = err failure
ok value >>= next = next value

-- A check whose value is not read.
abbrev pub ◌>>◌ {κ} : {B : Type κ} → Result (Unit {0}) → Result B → Result B
check >> next = check >>= λ done. next
