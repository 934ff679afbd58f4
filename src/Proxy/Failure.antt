-- ===== src/Proxy/Failure.antt =====
-- noxen-proxy/src/handler/socks5/error.rs: the errors of a connection, the replies they become and
-- the conversions between errors.
pub mod Hosts
pub mod Ranking
pub mod Replies
use zc_splice_proxy.Base.{Bool, List, Option, [], if◌then◌else◌, length, none, some, ◌∷◌, decide}
use zc_splice_proxy.Std.Io.{
  IoError, Text, literal, prefixed, display_of, all_failed, ErrorKind, ErrorKind-discrete,
  connection_refused, not_found, addr_not_available, network_unreachable, timed_out, other,
}
use zc_splice_proxy.Socks5.Error.{ProtocolError, CodecError}
use zc_splice_proxy.Socks5.Error
use zc_splice_proxy.Socks5.Reply.{Reply, host_unreachable, general_failure}
use zc_splice_proxy.Socks5.Reply
use zc_splice_proxy.HappyEyeballs.Config.{
  HappyEyeballsError, no_addresses_resolved, all_attempts_failed,
}
use zc_splice_proxy.HappyEyeballs.Config
use zc_splice_proxy.Proxy.Auth.{AuthError}
use zc_splice_proxy.Proxy.Auth

pub data Socks5Error : Type 0 where
  io : IoError → Socks5Error
  protocol : ProtocolError → Socks5Error
  authentication_failed : AuthError → Socks5Error
  no_acceptable_method : Socks5Error
  command_not_supported : Socks5Error
  target_connection_failed : IoError → Socks5Error
  dns_resolution_failed : Text → Socks5Error
  timeout : Socks5Error

-- The `#[error(...)]` texts.
unfoldable pub display : Socks5Error → Text
display (io e) = prefixed "I/O error: " e.message
display (protocol e) = prefixed "Protocol error: " (literal (Error.display e))
display (authentication_failed e) = prefixed "Authentication failed: " (Auth.display e)
display no_acceptable_method = literal "No mutually acceptable authentication method"
display command_not_supported = literal "Command not supported"
display (target_connection_failed e) = prefixed "Target connection failed: " e.message
display (dns_resolution_failed e) = prefixed "DNS resolution failed: " e
display timeout = literal "Operation timeout"

unfoldable pub reply_of_kind : ErrorKind → Reply
reply_of_kind connection_refused = Reply.connection_refused
reply_of_kind not_found = host_unreachable
reply_of_kind addr_not_available = host_unreachable
reply_of_kind network_unreachable = Reply.network_unreachable
reply_of_kind _ = general_failure

unfoldable pub to_reply : Socks5Error → Reply
unfolding reply_of_kind
to_reply (target_connection_failed e) = reply_of_kind e.kind
to_reply (io e) = reply_of_kind e.kind
to_reply timeout = host_unreachable
to_reply (dns_resolution_failed e) = host_unreachable
to_reply _ = general_failure

unfoldable pub from_codec : CodecError → Socks5Error
from_codec (CodecError.io e) = io e
from_codec (CodecError.protocol e) = protocol e

unfoldable pub is_kind : ErrorKind → IoError → Bool
is_kind kind e = decide (ErrorKind-discrete e.kind kind)

-- `Iterator::find` and `Iterator::find_map`.
abbrev pub find {ℓ} : {A : Type ℓ} → (A → Bool) → List A → Option A
find p [] = none
find p (x ∷ xs) = let rest = find p xs in if p x then some x else rest

abbrev or_else {ℓ} : {A : Type ℓ} → Option A → Option A → Option A
or_else (some x) o = some x
or_else none o = o

abbrev find_map {ℓ κ} : {A : Type ℓ} {B : Type κ} → (A → Option B) → List A → Option B
find_map f [] = none
find_map f (x ∷ xs) = or_else (f x) (find_map f xs)

abbrev priority_order : List ErrorKind
priority_order = connection_refused ∷ network_unreachable ∷ timed_out ∷ []

-- The representative of the errors `e ∷ es`: `errors[0]` is `e`.
unfoldable pub representative_error : IoError → List IoError → IoError
unfolding is_kind
representative_error e es = elim (find_map (λ kind. find (is_kind kind) (e ∷ es)) priority_order) [
  | some x ↦ x
  | none ↦ e
]

unfoldable pub from_happy_eyeballs : HappyEyeballsError → Socks5Error
unfolding representative_error
from_happy_eyeballs (HappyEyeballsError.io e) = target_connection_failed e
from_happy_eyeballs (HappyEyeballsError.dns_resolution e) = dns_resolution_failed e
from_happy_eyeballs HappyEyeballsError.timeout = timeout
from_happy_eyeballs (no_addresses_resolved hostname) =
    dns_resolution_failed (prefixed "No addresses resolved for " (display_of hostname))
from_happy_eyeballs (all_attempts_failed []) =
    target_connection_failed
      (record { kind = other; message = literal "All connection attempts failed (no details)" })
from_happy_eyeballs (all_attempts_failed (e ∷ es)) =
    let r = representative_error e es in
    target_connection_failed
      (record { kind = r.kind; message = all_failed (length (e ∷ es)) r.message })

-- `From<Socks5Error> for io::Error`.
unfoldable pub to_io : Socks5Error → IoError
unfolding display
to_io (io e) = e
to_io (target_connection_failed e) = e
to_io (dns_resolution_failed e) = record { kind = not_found; message = e }
to_io timeout = record { kind = timed_out; message = literal "Operation timeout" }
to_io e = record { kind = other; message = display e }
