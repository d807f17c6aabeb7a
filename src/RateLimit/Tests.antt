-- ===== src/RateLimit/Tests.antt =====
-- Checks of the limiters at concrete readings.
use ai_agent_sandbox_bluepri.Base.{
  ℕ, ◌*◌, ◌≡◌, ◌≤◌, refl, String, string_eq, none, some, List, [], ◌∷◌, Option, Reads, IsOrdered,
  nanos, arith,
}
use ai_agent_sandbox_bluepri.RateLimit.{RateLimitConfig, new_limiter}
use ai_agent_sandbox_bluepri.RateLimit.ClientIp.{IpAddr, v4, Request, ip_eq, is_trusted_proxy}
use ai_agent_sandbox_bluepri.RateLimit.Refinement.{logged}
use ai_agent_sandbox_bluepri.RateLimit.Runs.{
  IsConfig, IsChain, run, run_log, admitted, run-run_log_new, admitted-le_max,
}
use ai_agent_sandbox_bluepri.RateLimit.Layer.{
  init, read_rate_limit, write_rate_limit, terminal_interactive_rate_limit, auth_rate_limit,
  layers-ignore_header,
}

abbrev at_secs : ℕ → Reads
at_secs n = record { gc = n * nanos; cutoff = n * nanos; reset = n * nanos; entry = n * nanos }

-- Two requests in ten seconds.
abbrev two_in_ten : RateLimitConfig
two_in_ten = record { max_requests = 2; window_secs = 10 }

abbrev history : List (Reads × String)
history = (at_secs 1, "a") ∷ (at_secs 2, "a") ∷ (at_secs 3, "a") ∷ (at_secs 12, "a") ∷ []

two_in_ten-IsConfig : IsConfig two_in_ten
two_in_ten-IsConfig = record { max_fits = omega arith; window_fits = omega arith }

ordered : (m n : ℕ) → m ≤ n * nanos → IsOrdered m (at_secs n)
ordered m n le = record {
  since-gc = le;
  gc-cutoff = omega arith;
  cutoff-reset = omega arith;
  reset-entry = omega arith;
}

history-IsChain : IsChain 0 history
history-IsChain = (
  ordered 0 1 (omega arith),
  (
    ordered (1 * nanos) 2 (omega arith),
    (ordered (2 * nanos) 3 (omega arith), (ordered (3 * nanos) 12 (omega arith), tt)),
  ),
)

run-run_log_new_example : run (new_limiter two_in_ten 0) history ≡ run_log two_in_ten [] history
run-run_log_new_example = run-run_log_new two_in_ten 0 history two_in_ten-IsConfig history-IsChain

admitted-le_max_example :
    logged 10 (13 * nanos) "a" (admitted (new_limiter two_in_ten 0) [] history) ≤ 2
admitted-le_max_example =
    admitted-le_max two_in_ten 0 history "a" (13 * nanos) two_in_ten-IsConfig history-IsChain
      (omega arith)

-- A parser that knows one text.
abbrev parse_one : List ℕ → Option IpAddr
parse_one [] = none
parse_one (c ∷ cs) = some (v4 9 9 9 9)

abbrev public_peer : Option (List ℕ) → Request
public_peer header = record { connect_ip = some (v4 8 8 8 8); forwarded_for = header }

layers-ignore_header_example :
    let s = init none 0 in
    let spoofed = public_peer (some (b'9' ∷ [])) in
    let plain = public_peer none in
    (read_rate_limit parse_one (at_secs 1) spoofed s
      ≡ read_rate_limit parse_one (at_secs 1) plain s)
    × (write_rate_limit parse_one (at_secs 1) spoofed s
        ≡ write_rate_limit parse_one (at_secs 1) plain s)
    × (terminal_interactive_rate_limit parse_one (at_secs 1) spoofed s
        ≡ terminal_interactive_rate_limit parse_one (at_secs 1) plain s)
    × (auth_rate_limit parse_one (at_secs 1) spoofed s
        ≡ auth_rate_limit parse_one (at_secs 1) plain s)
unfolding is_trusted_proxy
layers-ignore_header_example =
    layers-ignore_header parse_one (at_secs 1) (v4 8 8 8 8) (some (b'9' ∷ [])) none (init none 0)
      refl
