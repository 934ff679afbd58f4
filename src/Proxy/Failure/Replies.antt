-- ===== src/Proxy/Failure/Replies.antt =====
-- The replies that noxen-proxy/src/handler/socks5/error.rs gives for an error, as a table of RFC 1928's
-- reply names.
use zc_splice_proxy.Base.{◌≢◌}
use zc_splice_proxy.Std.Io.{
  IoError, Text, ErrorKind, connection_refused, not_found, addr_not_available, network_unreachable,
}
use zc_splice_proxy.Socks5.Error.{ProtocolError}
use zc_splice_proxy.Socks5.Reply.{Reply, host_unreachable, general_failure}
use zc_splice_proxy.Proxy.Auth.{AuthError}
use zc_splice_proxy.Proxy.Failure.{
  Socks5Error, io, protocol, authentication_failed, no_acceptable_method, command_not_supported,
  target_connection_failed, dns_resolution_failed, timeout, reply_of_kind, to_reply,
}

-- What a client is told of an error of the system.
pub data Replies : ErrorKind → Reply → Type 0 where
  refused : Replies connection_refused Reply.connection_refused
  absent : Replies not_found host_unreachable
  unavailable : Replies addr_not_available host_unreachable
  cut_off : Replies network_unreachable Reply.network_unreachable
  in_general :
      (kind : ErrorKind)
      → kind ≢ connection_refused
      → kind ≢ not_found
      → kind ≢ addr_not_available
      → kind ≢ network_unreachable
      → Replies kind general_failure

-- What it is told of an error of its connection.
pub data Reports : Socks5Error → Reply → Type 0 where
  of_io : (e : IoError) (reply : Reply) → Replies e.kind reply → Reports (io e) reply
  of_target :
      (e : IoError) (reply : Reply)
      → Replies e.kind reply
      → Reports (target_connection_failed e) reply
  of_timeout : Reports timeout host_unreachable
  of_resolution : (e : Text) → Reports (dns_resolution_failed e) host_unreachable
  of_protocol : (e : ProtocolError) → Reports (protocol e) general_failure
  of_authentication : (e : AuthError) → Reports (authentication_failed e) general_failure
  of_methods : Reports no_acceptable_method general_failure
  of_command : Reports command_not_supported general_failure

pub reply_of_kind-Replies : (kind : ErrorKind) → Replies kind (reply_of_kind kind)
unfolding reply_of_kind
reply_of_kind-Replies connection_refused = refused
reply_of_kind-Replies not_found = absent
reply_of_kind-Replies addr_not_available = unavailable
reply_of_kind-Replies network_unreachable = cut_off
reply_of_kind-Replies kind = in_general kind (λ e. cc) (λ e. cc) (λ e. cc) (λ e. cc)

pub to_reply-Reports : (error : Socks5Error) → Reports error (to_reply error)
unfolding to_reply
to_reply-Reports (io e) = of_io e _ (reply_of_kind-Replies e.kind)
to_reply-Reports (target_connection_failed e) = of_target e _ (reply_of_kind-Replies e.kind)
to_reply-Reports timeout = of_timeout
to_reply-Reports (dns_resolution_failed e) = of_resolution e
to_reply-Reports (protocol e) = of_protocol e
to_reply-Reports (authentication_failed e) = of_authentication e
to_reply-Reports no_acceptable_method = of_methods
to_reply-Reports command_not_supported = of_command
