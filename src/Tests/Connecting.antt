-- ===== src/Tests/Connecting.antt =====
-- Happy Eyeballs, errors, credentials and traffic on concrete values.
use zc_splice_proxy.Base.{
  arith, [], length, returns, ◌++◌, ◌∷◌, ◌≡◌, List, Result, err, none, ok, refl, some, ℕ, ◌-◌, ◌^◌,
  ◌↔◌, ◌⊎◌,
}
use mathlib.Core.List.{Memᴰ, Perm}
use zc_splice_proxy.Std.Io.{
  IoError, connection_refused, timed_out, literal, all_failed, ErrorKind-discrete,
}
use zc_splice_proxy.Std.Net.{IpAddr, ipv4, ipv6}
use zc_splice_proxy.Socks5.Reply
use zc_splice_proxy.HappyEyeballs.Config.{HappyEyeballsError, all_attempts_failed}
use zc_splice_proxy.HappyEyeballs.Addresses.{ResolvedAddresses, sort_by_preference}
use zc_splice_proxy.HappyEyeballs.Addresses.Preference.{IsPreferred, sort_by_preference-IsPreferred}
use zc_splice_proxy.HappyEyeballs.Interleave.{new, len, collect}
use zc_splice_proxy.HappyEyeballs.Interleave.Order.{alternate, collect-new}
use zc_splice_proxy.HappyEyeballs.Resolve.{Dns, ipv6_result, resolve_with_delay}
use zc_splice_proxy.HappyEyeballs.Race.{
  Event, attempt_ended, delay_passed, Outcome, returned, connect_to_addresses, handle,
}
use zc_splice_proxy.HappyEyeballs.Race.Accounts.{Accounts, connect_to_addresses-Accounts}
use zc_splice_proxy.HappyEyeballs.Race.Ends.{connect_to_addresses_ends}
use zc_splice_proxy.HappyEyeballs.Connect.{connect, Promises, connect-Promises}
use zc_splice_proxy.Proxy.Auth.{
  StaticAuthProvider, authenticate, authenticate_iff, invalid_credentials,
}
use zc_splice_proxy.Proxy.Relay.{Traffic}
use zc_splice_proxy.Proxy.Failure.{from_happy_eyeballs, target_connection_failed, to_reply, is_kind}
use zc_splice_proxy.Proxy.Failure.Ranking.{
  Represents, from_happy_eyeballs-Represents, to_reply_refused,
}

-- 127.0.0.1 and 8.8.8.8, and ::1.
abbrev local : IpAddr
local = ipv4 (127 ∷ 0 ∷ 0 ∷ 1 ∷ [])

abbrev four : IpAddr
four = ipv4 (8 ∷ 8 ∷ 8 ∷ 8 ∷ [])

abbrev six : IpAddr
six = ipv6 (0 ∷ 0 ∷ 0 ∷ 0 ∷ 0 ∷ 0 ∷ 0 ∷ 0 ∷ 0 ∷ 0 ∷ 0 ∷ 0 ∷ 0 ∷ 0 ∷ 0 ∷ 1 ∷ [])

abbrev resolved : ResolvedAddresses
resolved = record { ipv6 = six ∷ []; ipv4 = four ∷ local ∷ [] }

sort_by_preference-IsPreferred_example :
    (r : ResolvedAddresses) × (sort_by_preference resolved ≡ returns r)
    × IsPreferred resolved.ipv6 r.ipv6
    × IsPreferred resolved.ipv4 r.ipv4
sort_by_preference-IsPreferred_example =
    sort_by_preference-IsPreferred resolved (record { sized = refl; bounded = ground arith }, tt)
      (
        record { sized = refl; bounded = ground arith },
        (record { sized = refl; bounded = ground arith }, tt),
      )

collect-new_example :
    (collect 4 (new (six ∷ []) (four ∷ local ∷ [])) ≡ alternate (six ∷ []) (four ∷ local ∷ []))
    × (length (collect 4 (new (six ∷ []) (four ∷ local ∷ [])))
        ≡ len (new (six ∷ []) (four ∷ local ∷ [])))
    × Perm (collect 4 (new (six ∷ []) (four ∷ local ∷ []))) ((six ∷ []) ++ (four ∷ local ∷ []))
collect-new_example = collect-new (six ∷ []) (four ∷ local ∷ []) 4 (unfold len new in omega arith)

-- The first lookup fails in time, the second one finds two addresses.
abbrev dns : Dns
dns = record {
  first_wait = ipv6_result (err (literal "no AAAA record"));
  joined = none;
  ipv4_alone = some (ok ((8 ∷ 8 ∷ 8 ∷ 8 ∷ []) ∷ (127 ∷ 0 ∷ 0 ∷ 1 ∷ []) ∷ []));
}

abbrev refused : IoError
refused = record { kind = connection_refused; message = literal "refused" }

abbrev late : IoError
late = record { kind = timed_out; message = literal "late" }

-- The first attempt fails, the second one starts and gives the stream 7.
abbrev events : List (Event ℕ)
events = attempt_ended 0 (err refused) ∷ delay_passed ∷ attempt_ended 0 (ok 7) ∷ delay_passed ∷ []

connect-Promises_example :
    (addrs : ResolvedAddresses) × (resolve_with_delay dns ≡ ok addrs)
    × (o : Outcome ℕ) × (connect dns (97 ∷ []) 80 events ≡ returns o)
    × Promises (97 ∷ []) addrs o
connect-Promises_example = connect-Promises dns (97 ∷ []) 80 events

connect_to_addresses-Accounts_example :
    Accounts 2 (connect_to_addresses (four ∷ local ∷ []) 80 events)
connect_to_addresses-Accounts_example = connect_to_addresses-Accounts (four ∷ local ∷ []) 80 events

connect_to_addresses_ends_example :
    (r : Result ℕ HappyEyeballsError) × (connect_to_addresses (four ∷ local ∷ []) 80 events
      ≡ returned r)
connect_to_addresses_ends_example =
    connect_to_addresses_ends four (local ∷ []) 80 events
      (unfold handle in (omega arith, (omega arith, (omega arith, tt)))) (omega arith)

from_happy_eyeballs-Represents_example :
    (r : IoError) × Represents r (late ∷ refused ∷ [])
    × (from_happy_eyeballs (all_attempts_failed (late ∷ refused ∷ []))
        ≡ target_connection_failed (record {
          kind = r.kind;
          message = all_failed (length (late ∷ refused ∷ [])) r.message;
        }))
from_happy_eyeballs-Represents_example = from_happy_eyeballs-Represents late (refused ∷ [])

to_reply_refused_example :
    to_reply (from_happy_eyeballs (all_attempts_failed (late ∷ refused ∷ [])))
    ≡ Reply.connection_refused
to_reply_refused_example =
    to_reply_refused late (refused ∷ []) refused (Memᴰ.tail (Memᴰ.head refl))
      (unfold is_kind ErrorKind-discrete in refl)

abbrev account : StaticAuthProvider
account = record { username = 97 ∷ []; password = 98 ∷ 99 ∷ [] }

authenticate_iff_example :
    ((authenticate account (97 ∷ []) (98 ∷ []) ≡ ok tt)
      ↔ ((97 ∷ [] ≡ account.username) × (98 ∷ [] ≡ account.password)))
    × ((authenticate account (97 ∷ []) (98 ∷ []) ≡ ok tt)
        ⊎ (authenticate account (97 ∷ []) (98 ∷ []) ≡ err invalid_credentials))
authenticate_iff_example = authenticate_iff account (97 ∷ []) (98 ∷ [])

abbrev traffic : Traffic
traffic = record { tx_bytes = 2 ^ 64 - 1; rx_bytes = 2 }

-- Both attempts fail.
abbrev failures : List (Event ℕ)
failures = attempt_ended 0 (err refused) ∷ delay_passed ∷ attempt_ended 0 (err late) ∷ []
