-- ===== src/Proxy/Failure/Hosts.antt =====
-- noxen-proxy/src/handler/socks5/error.rs and noxen-proxy/src/net/happy_eyeballs.rs together: the reply
-- to a client whose host could not be connected to.
use zc_splice_proxy.Base.{List, [], length, ok, ◌<◌, ◌≡◌, ◌+◌}
use zc_splice_proxy.Std.Utf8.{Bytes}
use zc_splice_proxy.Std.Io.{IoError}
use zc_splice_proxy.Socks5.Reply.{Reply, host_unreachable}
use zc_splice_proxy.HappyEyeballs.Config.{
  HappyEyeballsError, no_addresses_resolved, all_attempts_failed,
}
use zc_splice_proxy.HappyEyeballs.Addresses
use zc_splice_proxy.HappyEyeballs.Addresses.{ResolvedAddresses}
use zc_splice_proxy.HappyEyeballs.Resolve.{Dns, resolve_with_delay}
use zc_splice_proxy.HappyEyeballs.Race.Accounts.{Accounts}
use zc_splice_proxy.Proxy.Failure.Replies.{Replies}
use zc_splice_proxy.Proxy.Failure.Ranking.{Represents}

-- A host whose lookups give no address at all is unreachable; otherwise each address has failed, and
-- the reply is that of the table for a failure which no other one outranks.
pub data Told (dns : Dns) (hostname : Bytes) : HappyEyeballsError → Reply → Type 0 where
  unresolved :
      (addrs : ResolvedAddresses)
      → resolve_with_delay dns ≡ ok addrs
      → addrs.ipv6 ≡ []
      → addrs.ipv4 ≡ []
      → Told dns hostname (no_addresses_resolved hostname) host_unreachable
  failed :
      (addrs : ResolvedAddresses) (errors : List IoError) (r : IoError) (reply : Reply)
      → resolve_with_delay dns ≡ ok addrs
      → 0 < length addrs.ipv6 + length addrs.ipv4
      → length errors ≡ length addrs.ipv6 + length addrs.ipv4
      → Represents r errors
      → Replies r.kind reply
      → Told dns hostname (all_attempts_failed errors) reply
