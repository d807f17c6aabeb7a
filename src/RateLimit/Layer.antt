-- ===== src/RateLimit/Layer.antt =====
-- The middleware functions of sandbox-runtime/src/rate_limit.rs over the static limiters.
use ai_agent_sandbox_bluepri.Base.{
  ℕ, zero, suc, ◌+◌, ◌%◌, ◌≡◌, String, string_eq, Bool, true, false, Option, none, some, List,
  Reads, u64_modulus,
}
use ai_agent_sandbox_bluepri.RateLimit.{Limiter, new_limiter, check}
use ai_agent_sandbox_bluepri.RateLimit.ClientIp.{
  IpAddr, Request, ip_eq, unknown_ip, is_trusted_proxy, extract_client_ip, extract_client_ip-direct,
}

-- The static limiters, and the counter of rejections in the metrics.
pub record Limiters : Type 0 where
  pub read : Limiter IpAddr
  pub write : Limiter IpAddr
  pub terminal_interactive : Limiter IpAddr
  pub auth : Limiter IpAddr
  pub session_fanout : Limiter String
  pub rejections : ℕ

-- The value of SESSION_FANOUT_LIMIT_PER_MINUTE, where it is a positive u32.
abbrev fanout_limit : Option ℕ → ℕ
fanout_limit none = 60
fanout_limit (some zero) = 60
fanout_limit (some (suc n)) = suc n

-- The limiters as they are first used, at `now`.
unfoldable pub init : Option ℕ → ℕ → Limiters
init per_minute now = record {
  read = new_limiter (record { max_requests = 120; window_secs = 60 }) now;
  write = new_limiter (record { max_requests = 30; window_secs = 60 }) now;
  terminal_interactive = new_limiter (record { max_requests = 2400; window_secs = 60 }) now;
  auth = new_limiter (record { max_requests = 10; window_secs = 60 }) now;
  session_fanout =
      new_limiter (record { max_requests = fanout_limit per_minute; window_secs = 60 }) now;
  rejections = 0;
}

-- The response of the middleware itself, or that of the rest of the chain.
pub data Outcome : Type 0 where
  too_many_requests passed : Outcome

-- A rejected request is counted, by an atomic u64.
abbrev answer : Bool → Limiters → Limiters × Outcome
answer true s = (s, passed)
answer false s = (record s { rejections = (s.rejections + 1) % u64_modulus }, too_many_requests)

abbrev or_unknown : Option IpAddr → IpAddr
or_unknown none = unknown_ip
or_unknown (some ip) = ip

module _ (parse_ip : List ℕ → Option IpAddr) where
  unfoldable pub read_rate_limit : Reads → Request → Limiters → Limiters × Outcome
  read_rate_limit now req s =
      let (l, allowed) = check now (or_unknown (extract_client_ip parse_ip req)) s.read in
      answer allowed (record s { read = l })

  unfoldable pub write_rate_limit : Reads → Request → Limiters → Limiters × Outcome
  write_rate_limit now req s =
      let (l, allowed) = check now (or_unknown (extract_client_ip parse_ip req)) s.write in
      answer allowed (record s { write = l })

  unfoldable pub terminal_interactive_rate_limit : Reads → Request → Limiters → Limiters × Outcome
  terminal_interactive_rate_limit now req s =
      let (l, allowed) =
        check now (or_unknown (extract_client_ip parse_ip req)) s.terminal_interactive in
      answer allowed (record s { terminal_interactive = l })

  unfoldable pub auth_rate_limit : Reads → Request → Limiters → Limiters × Outcome
  auth_rate_limit now req s =
      let (l, allowed) = check now (or_unknown (extract_client_ip parse_ip req)) s.auth in
      answer allowed (record s { auth = l })

  -- A client that connects directly cannot change its limit by the header x-forwarded-for: each of
  -- the four middleware functions does the same with any two values of it, in every state, if the
  -- peer's address is neither loopback nor private.
  pub layers-ignore_header :
      (now : Reads) (ip : IpAddr) (header other : Option (List ℕ)) (s : Limiters)
      → is_trusted_proxy ip ≡ false
      → let req : Request = record { connect_ip = some ip; forwarded_for = header } in
        let req' : Request = record { connect_ip = some ip; forwarded_for = other } in
        (read_rate_limit now req s ≡ read_rate_limit now req' s)
        × (write_rate_limit now req s ≡ write_rate_limit now req' s)
        × (terminal_interactive_rate_limit now req s ≡ terminal_interactive_rate_limit now req' s)
        × (auth_rate_limit now req s ≡ auth_rate_limit now req' s)
  unfolding read_rate_limit write_rate_limit terminal_interactive_rate_limit auth_rate_limit
  layers-ignore_header now ip header other s h =
      let e = extract_client_ip-direct parse_ip ip header h in
      let e' = extract_client_ip-direct parse_ip ip other h in
      (rw (e, e'), rw (e, e'), rw (e, e'), rw (e, e'))

-- `Err` holds the seconds after which to try again.
unfoldable pub check_session_fanout : Reads → String → Limiters → Limiters × Option ℕ
check_session_fanout now session_id s =
    let (l, allowed) = check now session_id s.session_fanout in
    let (s', outcome) = answer allowed (record s { session_fanout = l }) in
    (s', elim outcome [ too_many_requests ↦ some 60 | passed ↦ none ])
