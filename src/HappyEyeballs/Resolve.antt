-- ===== src/HappyEyeballs/Resolve.antt =====
-- `HappyEyeballsConnector::resolve_with_delay`. What the resolver and the clock do is a record of
-- what each `await` gives; a lookup that succeeds gives the octets of its addresses.
use zc_splice_proxy.Base.{map, All, List, Option, Result, [], err, none, ok, refl, some, ◌∷◌, ◌≡◌}
use zc_splice_proxy.Std.Utf8.{Bytes}
use zc_splice_proxy.Std.Io.{Text}
use zc_splice_proxy.Std.Net.{IpAddr, ipv4, ipv6}
use zc_splice_proxy.HappyEyeballs.Config.{HappyEyeballsError}
use zc_splice_proxy.HappyEyeballs.Addresses.{ResolvedAddresses}
use zc_splice_proxy.HappyEyeballs.Addresses.Sorting.{IsSplit, IsIpv4, IsIpv6}

abbrev pub Lookup : Type 0
Lookup = Result (List Bytes) Text

-- What the first `select!` sees: the IPv6 lookup is done, or the delay has passed.
pub data FirstWait : Type 0 where
  ipv6_result : Lookup → FirstWait
  delay_expired : FirstWait

-- `joined` is both lookups under the timeout, `ipv4_alone` the IPv4 lookup under it; `none` is a
-- timeout that passes first.
pub record Dns : Type 0 where
  pub first_wait : FirstWait
  pub joined : Option (Lookup × Lookup)
  pub ipv4_alone : Option Lookup

-- `if let Ok(lookup) = result { addrs.extend(lookup.map(IpAddr::V6)) }`, from an empty vector.
abbrev pub found : (Bytes → IpAddr) → Lookup → List IpAddr
found family (ok lookup) = map family lookup
found family (err e) = []

abbrev found_in_time : (Bytes → IpAddr) → Option Lookup → List IpAddr
found_in_time family (some lookup) = found family lookup
found_in_time family none = []

abbrev found_both : Option (Lookup × Lookup) → ResolvedAddresses
found_both (some (v6_result, v4_result)) = record {
  ipv6 = found ipv6 v6_result;
  ipv4 = found ipv4 v4_result;
}
found_both none = record { ipv6 = []; ipv4 = [] }

unfoldable pub resolve_with_delay : Dns → Result ResolvedAddresses HappyEyeballsError
resolve_with_delay dns = elim dns.first_wait [
  | ipv6_result result ↦
      ok (record { ipv6 = found ipv6 result; ipv4 = found_in_time ipv4 dns.ipv4_alone })
  | delay_expired ↦ ok (found_both dns.joined)
]

found_v6 : (lookup : List Bytes) → All IsIpv6 (map ipv6 lookup)
found_v6 [] = tt
found_v6 (ip ∷ lookup) = (tt, found_v6 lookup)

found_v4 : (lookup : List Bytes) → All IsIpv4 (map ipv4 lookup)
found_v4 [] = tt
found_v4 (ip ∷ lookup) = (tt, found_v4 lookup)

found-v6 : (result : Lookup) → All IsIpv6 (found ipv6 result)
found-v6 (ok lookup) = found_v6 lookup
found-v6 (err e) = tt

found-v4 : (result : Lookup) → All IsIpv4 (found ipv4 result)
found-v4 (ok lookup) = found_v4 lookup
found-v4 (err e) = tt

alone-v4 : (result : Option Lookup) → All IsIpv4 (found_in_time ipv4 result)
alone-v4 (some result) = found-v4 result
alone-v4 none = tt

both-IsSplit : (joined : Option (Lookup × Lookup)) → IsSplit (found_both joined)
both-IsSplit (some (a, b)) = record { v6 = found-v6 a; v4 = found-v4 b }
both-IsSplit none = record { v6 = tt; v4 = tt }

-- Resolution never fails: a lookup that fails or is late gives no addresses, and what is found is
-- split by family.
pub resolve_with_delay-IsSplit :
    (dns : Dns) → (addrs : ResolvedAddresses) × (resolve_with_delay dns ≡ ok addrs) × IsSplit addrs
unfolding resolve_with_delay
resolve_with_delay-IsSplit dns = resolved dns.first_wait dns.joined dns.ipv4_alone
  where
    resolved :
        (first_wait : FirstWait) (joined : Option (Lookup × Lookup)) (ipv4_alone : Option Lookup)
        → (addrs : ResolvedAddresses) × (resolve_with_delay
              (record { first_wait = first_wait; joined = joined; ipv4_alone = ipv4_alone })
            ≡ ok addrs)
          × IsSplit addrs
    resolved (ipv6_result result) joined alone =
        (_, refl, record { v6 = found-v6 result; v4 = alone-v4 alone })
    resolved delay_expired joined alone = (_, refl, both-IsSplit joined)
