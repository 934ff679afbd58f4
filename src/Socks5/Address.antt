-- ===== src/Socks5/Address.antt =====
-- noxen-socks5/src/types.rs: `Address`, an address type, its data and a port in one value.
use zc_splice_proxy.Base.{
  ℕ, ◌≡◌, true, List, [], ◌∷◌, Result, ok, All, Option, err, length, none, some,
}
use zc_splice_proxy.Std.Utf8.{Bytes, IsByte, is_utf8}
use zc_splice_proxy.Std.Io.{IoError}
use zc_splice_proxy.Std.Net.{SocketAddr, SocketAddrV4, SocketAddrV6, v4, v6, IsOctets, IsPort}
use zc_splice_proxy.Socks5.AddressType.{AddressType}

pub data Address : Type 0 where
  ipv4 : SocketAddrV4 → Address
  domain : Bytes → ℕ → Address
  ipv6 : SocketAddrV6 → Address

-- `From<SocketAddr>`, `From<SocketAddrV4>` and `From<SocketAddrV6>`.
unfoldable pub from : SocketAddr → Address
from (v4 addr) = ipv4 addr
from (v6 addr) = ipv6 addr

unfoldable pub atyp : Address → AddressType
atyp (ipv4 addr) = AddressType.ipv4
atyp (ipv6 addr) = AddressType.ipv6
atyp (domain name port) = AddressType.domain

unfoldable pub addr : Address → Bytes
addr (ipv4 a) = a.ip
addr (ipv6 a) = a.ip
addr (domain name port) = name

unfoldable pub port : Address → ℕ
port (ipv4 a) = a.port
port (ipv6 a) = a.port
port (domain name p) = p

-- What the Rust types guarantee of an address.
abbrev pub IsValid : Address → Type 0
IsValid (ipv4 a) = IsOctets 4 a.ip × IsPort a.port
IsValid (ipv6 a) = IsOctets 16 a.ip × IsPort a.port
IsValid (domain name p) = All IsByte name × (is_utf8 name ≡ true) × IsPort p

-- `From<(S, u16)>`.
unfoldable pub from_pair : Bytes × ℕ → Address
from_pair (name, port) = domain name port

-- `AddressIter`. `Once` is the address that it has not yielded yet, if any; an iterator over a vector
-- is the list of what it has not yielded.
pub data AddressIter : Type 0 where
  one : Option SocketAddr → AddressIter
  many : List SocketAddr → AddressIter

unfoldable pub next : AddressIter → Option SocketAddr × AddressIter
next (one none) = (none, one none)
next (one (some addr)) = (some addr, one none)
next (many []) = (none, many [])
next (many (addr ∷ rest)) = (some addr, many rest)

unfoldable pub size_hint : AddressIter → ℕ × Option ℕ
size_hint (one none) = (0, some 0)
size_hint (one (some addr)) = (1, some 1)
size_hint (many addrs) = (length addrs, some (length addrs))

-- `ToSocketAddrs`. The system's resolver, which a domain is handed to, is an argument.
unfoldable pub to_socket_addrs :
    (Bytes → ℕ → Result (List SocketAddr) IoError) → Address → Result AddressIter IoError
to_socket_addrs resolve (ipv4 a) = ok (one (some (v4 a)))
to_socket_addrs resolve (ipv6 a) = ok (one (some (v6 a)))
to_socket_addrs resolve (domain name p) = elim (resolve name p) [
  | ok addrs ↦ ok (many addrs)
  | err e ↦ err e
]
