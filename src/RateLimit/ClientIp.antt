-- ===== src/RateLimit/ClientIp.antt =====
-- `extract_client_ip` and `is_trusted_proxy` of sandbox-runtime/src/rate_limit.rs.
use ai_agent_sandbox_bluepri.Base.{
  ℕ, ◌≡◌, Bool, true, false, ◌&&◌, ◌||◌, Option, none, some, List, [], ◌∷◌, if◌then◌else◌, eqb, leb,
  Eq, arith, ◌↔◌,
}
use ai_agent_sandbox_bluepri.Base.Text.{trim}

-- An address: four bytes, or the 128 bits of an IPv6 address.
pub data IpAddr : Type 0 where
  v4 : ℕ → ℕ → ℕ → ℕ → IpAddr
  v6 : ℕ → IpAddr

-- `Ipv4Addr::is_loopback`, `Ipv4Addr::is_private`, `Ipv6Addr::is_loopback`.
unfoldable pub is_trusted_proxy : IpAddr → Bool
is_trusted_proxy (v4 a b c d) =
    eqb a 127 || (eqb a 10 || (eqb a 172 && (leb 16 b && leb b 31) || eqb a 192 && eqb b 168))
is_trusted_proxy (v6 n) = eqb n 1

-- The sentinel `UNKNOWN_IP`.
abbrev pub unknown_ip : IpAddr
unknown_ip = v4 0 0 0 0

-- A request as the extractor reads it: the peer's address from `ConnectInfo`, and the value of the
-- header x-forwarded-for where it is visible ASCII, as its bytes.
pub record Request : Type 0 where
  pub connect_ip : Option IpAddr
  pub forwarded_for : Option (List ℕ)

-- `split(',').next()`.
before_comma : List ℕ → List ℕ
before_comma [] = []
before_comma (c ∷ cs) = if eqb c b',' then [] else c ∷ before_comma cs

-- `parse_ip` is the parser of `IpAddr` of the standard library.
module _ (parse_ip : List ℕ → Option IpAddr) where
  forwarded_ip : Option (List ℕ) → Option IpAddr
  unfolding before_comma trim
  forwarded_ip none = none
  forwarded_ip (some value) = parse_ip (trim (before_comma value))

  -- `option.or(Some(ip))`.
  or_ip : Option IpAddr → IpAddr → Option IpAddr
  or_ip none ip = some ip
  or_ip (some forwarded) ip = some forwarded

  client_ip_of : Option IpAddr → Option (List ℕ) → Option IpAddr
  unfolding forwarded_ip or_ip
  client_ip_of none header = forwarded_ip header
  client_ip_of (some ip) header =
      if is_trusted_proxy ip then or_ip (forwarded_ip header) ip else some ip

  unfoldable pub extract_client_ip : Request → Option IpAddr
  unfolding client_ip_of is_trusted_proxy
  extract_client_ip req = client_ip_of req.connect_ip req.forwarded_for

  -- Who connects directly is counted under the address of the socket, whatever the header says.
  pub extract_client_ip-direct :
      (ip : IpAddr) (header : Option (List ℕ))
      → is_trusted_proxy ip ≡ false
      → extract_client_ip (record { connect_ip = some ip; forwarded_for = header }) ≡ some ip
  unfolding extract_client_ip
  extract_client_ip-direct ip header h = rw h

abbrev pub ip_beq : IpAddr → IpAddr → Bool
ip_beq (v4 a b c d) (v4 p q r s) = eqb a p && (eqb b q && (eqb c r && eqb d s))
ip_beq (v6 n) (v6 m) = eqb n m
ip_beq _ _ = false

pub ip_beq_iff : (i j : IpAddr) → (ip_beq i j ≡ true) ↔ (i ≡ j)
ip_beq_iff (v4 a b c d) (v4 p q r s) = ground arith
ip_beq_iff (v6 n) (v6 m) = ground arith
ip_beq_iff (v4 a b c d) (v6 m) = ground arith
ip_beq_iff (v6 n) (v4 a b c d) = ground arith

instance abbrev pub ip_eq : Eq IpAddr
ip_eq = record { beq = ip_beq; beq_iff = ip_beq_iff }
