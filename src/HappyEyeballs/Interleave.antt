-- ===== src/HappyEyeballs/Interleave.antt =====
-- `InterleavedAddressesIter`: IPv6 and IPv4 addresses in turns. An iterator over a vector is the
-- list of what it has not yielded.
pub mod Order
use zc_splice_proxy.Base.{
  Bool, List, Option, [], false, length, none, some, suc, true, zero, ℕ, ◌+◌, ◌∷◌, if◌then◌else◌,
}
use zc_splice_proxy.Std.Net.{IpAddr}
use zc_splice_proxy.HappyEyeballs.Addresses.{ResolvedAddresses}

pub record InterleavedAddressesIter : Type 0 where
  pub ipv6 : List IpAddr
  pub ipv4 : List IpAddr
  pub ipv6_turn : Bool

unfoldable pub new : List IpAddr → List IpAddr → InterleavedAddressesIter
new ipv6 ipv4 = record { ipv6 = ipv6; ipv4 = ipv4; ipv6_turn = true }

-- `next` of a vector's iterator.
pop : List IpAddr → Option (IpAddr × List IpAddr)
pop [] = none
pop (addr ∷ rest) = some (addr, rest)

-- The family whose turn it is comes first, and the turn passes on; if it has run out, the other
-- one is drained.
unfoldable pub next : InterleavedAddressesIter → Option IpAddr × InterleavedAddressesIter
unfolding pop
next it =
    if it.ipv6_turn
    then elim (pop it.ipv6) [
      | some (addr, rest) ↦ (some addr, record it { ipv6 = rest; ipv6_turn = false })
      | none ↦ elim (pop it.ipv4) [
        | some (addr, rest) ↦ (some addr, record it { ipv4 = rest })
        | none ↦ (none, it)
      ]
    ]
    else elim (pop it.ipv4) [
      | some (addr, rest) ↦ (some addr, record it { ipv4 = rest; ipv6_turn = true })
      | none ↦ elim (pop it.ipv6) [
        | some (addr, rest) ↦ (some addr, record it { ipv6 = rest })
        | none ↦ (none, it)
      ]
    ]

-- `ExactSizeIterator::len`, and `size_hint`, whose bounds for a vector's iterator are exact.
unfoldable pub len : InterleavedAddressesIter → ℕ
len it = length it.ipv6 + length it.ipv4

unfoldable pub size_hint : InterleavedAddressesIter → ℕ × Option ℕ
size_hint it = (length it.ipv6 + length it.ipv4, some (length it.ipv6 + length it.ipv4))

-- What the iterator yields until it is exhausted; each address costs a unit of fuel.
unfoldable pub collect : ℕ → InterleavedAddressesIter → List IpAddr
collect zero it = []
collect (suc fuel) it =
    let (item, it') = next it in
    let rest = collect fuel it' in elim item [ none ↦ [] | some addr ↦ addr ∷ rest ]

unfoldable pub interleave : ResolvedAddresses → InterleavedAddressesIter
unfolding new
interleave a = new a.ipv6 a.ipv4
