-- ===== src/Base/Ip.antt =====
-- `std::net::IpAddr`: an IPv4 address as its 32-bit number, an IPv6 address as its 128-bit number.
use luci_app_overwatch.Base.{ℕ, ℕ_discrete}

pub data IpAddr : Type 0 where
  v4 : ℕ → IpAddr
  v6 : ℕ → IpAddr

unfoldable pub IpAddr-discrete : Discrete IpAddr
IpAddr-discrete = hlevel ℕ_discrete
