-- ===== src/HappyEyeballs/Clock.antt =====
-- `HappyEyeballsConnector::connect` by the clock: the lookups of `resolve_with_delay` with the times
-- that they take, and then the race. Times are in milliseconds.
pub mod Deadline
pub mod Finds
use zc_splice_proxy.Base.{
  List, Result, [], err, false, if◌then◌else◌, leb, none, ok, returns, some, true, ℕ, ◌+◌, ◌<◌, ◌∷◌,
  ◌≡◌, ◌≤◌, ◌⊎◌,
}
use zc_splice_proxy.Std.Utf8.{Bytes}
use zc_splice_proxy.Std.Net.{IpAddr}
use zc_splice_proxy.HappyEyeballs.Config.{
  HappyEyeballsConfig, HappyEyeballsError, no_addresses_resolved,
}
use zc_splice_proxy.HappyEyeballs.Addresses.{ResolvedAddresses, is_empty}
use zc_splice_proxy.HappyEyeballs.Resolve.{
  Lookup, Dns, ipv6_result, delay_expired, resolve_with_delay,
}
use zc_splice_proxy.HappyEyeballs.Race.{Event}
use zc_splice_proxy.HappyEyeballs.Race.Timed.{Answer, Course, start}
use zc_splice_proxy.HappyEyeballs.Connect.{order}

-- What a lookup gives, and how long after it was started.
pub record TimedLookup : Type 0 where
  pub after : ℕ
  pub result : Lookup

abbrev pub max : ℕ → ℕ → ℕ
max a b = if leb a b then b else a

-- How `resolve_with_delay` may go: what its waits give, and the time it takes. Where two branches of
-- a wait are ready at the same moment, either may be seen.
pub data Resolves (config : HappyEyeballsConfig) (v6 v4 : TimedLookup) : Dns → ℕ → Type 0 where
  one_by_one :
      v6.after ≤ config.resolution_delay
      → v4.after ≤ config.first_address_family_timeout
      → Resolves config v6 v4
          (record {
            first_wait = ipv6_result v6.result;
            joined = none;
            ipv4_alone = some v4.result;
          })
          (v6.after + v4.after)
  ipv4_late :
      v6.after ≤ config.resolution_delay
      → config.first_address_family_timeout < v4.after
      → Resolves config v6 v4
          (record { first_wait = ipv6_result v6.result; joined = none; ipv4_alone = none })
          (v6.after + config.first_address_family_timeout)
  together :
      config.resolution_delay ≤ v6.after
      → v6.after ≤ config.resolution_delay + config.first_address_family_timeout
      → v4.after ≤ config.first_address_family_timeout
      → Resolves config v6 v4
          (record {
            first_wait = delay_expired;
            joined = some (v6.result, v4.result);
            ipv4_alone = none;
          })
          (max v6.after (config.resolution_delay + v4.after))
  one_late :
      config.resolution_delay ≤ v6.after
      → (config.resolution_delay + config.first_address_family_timeout < v6.after)
        ⊎ (config.first_address_family_timeout < v4.after)
      → Resolves config v6 v4
          (record { first_wait = delay_expired; joined = none; ipv4_alone = none })
          (config.resolution_delay + config.first_address_family_timeout)

-- How `connect` may go: the events of the race, the time until it returns, and its result.
pub data Connecting {Stream : Type 0} (config : HappyEyeballsConfig) (v6 v4 : TimedLookup)
    (network : IpAddr → ℕ → Answer Stream) (hostname : Bytes) (port : ℕ)
    : List (Event Stream) → ℕ → Result Stream HappyEyeballsError → Type 0 where
  none_found :
      (dns : Dns) (addrs : ResolvedAddresses) (time : ℕ)
      → Resolves config v6 v4 dns time
      → resolve_with_delay dns ≡ ok addrs
      → is_empty addrs ≡ true
      → Connecting config v6 v4 network hostname port [] time (err (no_addresses_resolved hostname))
  races :
      (dns : Dns) (addrs : ResolvedAddresses) (time : ℕ) (addr : IpAddr) (rest : List IpAddr)
      (events : List (Event Stream)) (race_time : ℕ) (r : Result Stream HappyEyeballsError)
      → Resolves config v6 v4 dns time
      → resolve_with_delay dns ≡ ok addrs
      → is_empty addrs ≡ false
      → order addrs ≡ returns (addr ∷ rest)
      → Course network config.connect_timeout config.connection_attempt_delay
          (start network config.connect_timeout addr rest port)
          events
          race_time
          r
      → Connecting config v6 v4 network hostname port events (time + race_time) r
