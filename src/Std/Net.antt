-- ===== src/Std/Net.antt =====
-- `std::net` addresses. An address is its octets in network order, as `octets()` gives them.
use zc_splice_proxy.Base.{ℕ, ◌<◌, ◌≡◌, length, All}
use zc_splice_proxy.Std.Utf8.{Bytes, IsByte}

pub record SocketAddrV4 : Type 0 where
  pub ip : Bytes
  pub port : ℕ

pub record SocketAddrV6 : Type 0 where
  pub ip : Bytes
  pub port : ℕ
  pub flowinfo : ℕ
  pub scope_id : ℕ

pub data SocketAddr : Type 0 where
  v4 : SocketAddrV4 → SocketAddr
  v6 : SocketAddrV6 → SocketAddr

pub data IpAddr : Type 0 where
  ipv4 : Bytes → IpAddr
  ipv6 : Bytes → IpAddr

-- `[u8; n]`: the type of an address fixes the number of its octets.
pub record IsOctets (n : ℕ) (bytes : Bytes) : Type 0 where
  pub sized : length bytes ≡ n
  pub bounded : All IsByte bytes

-- A `u16`.
abbrev pub IsPort : ℕ → Type 0
IsPort p = p < 65536
