-- ===== src/Proxy/Handler/Outcomes.antt =====
-- noxen-proxy/src/handler/socks5/state.rs: how a request ends, and the course of a CONNECT.
use zc_splice_proxy.Base.{List, Result, [], err, ok, ◌∷◌, Option, none, some}
use zc_splice_proxy.Std.Io.{IoError}
use zc_splice_proxy.Std.Net.{SocketAddr, SocketAddrV4, SocketAddrV6, v4, v6}
use zc_splice_proxy.Socks5.Error.{CodecError}
use zc_splice_proxy.Socks5.Reply.{Reply}
use zc_splice_proxy.Socks5.Address.{Address}
use zc_splice_proxy.Socks5.Address
use zc_splice_proxy.Proxy.Failure.{
  Socks5Error, from_codec, to_reply, from_happy_eyeballs, target_connection_failed, timeout,
}
use zc_splice_proxy.Proxy.Handler.{
  Os, Action, Message, response, unspecified_address, send, shutdown, tcp_connect,
  happy_eyeballs_connect, local_addr, into_inner, request_processing, Socks5Handler,
}
use zc_splice_proxy.Proxy.Handler.Phases.{error_reply}
use zc_splice_proxy.Proxy.Handler.Requests.{
  Tunnelled, in_time, bound_address, send_error_reply, connect_to_upstream, reply_and_tunnel,
  use_upstream, handle_connect,
}
use zc_splice_proxy.Proxy.Handler.Courses.{Always, Always-map}
use zc_splice_proxy.Proxy.Failure.Replies.{Reports, to_reply-Reports}
use zc_splice_proxy.Proxy.Relay.{tcp}

-- A reply of the server.
abbrev pub reply_with : Reply → Address → Message
reply_with reply addr = response (record { reply = reply; bnd_address = addr })

-- 0.0.0.0:0.
abbrev pub nowhere : Address
nowhere = Address.ipv4 (record { ip = 0 ∷ 0 ∷ 0 ∷ 0 ∷ []; port = 0 })

-- The address that a reply gives for one of the system's.
pub data IsAt : SocketAddr → Address → Type 0 where
  at_v4 : (a : SocketAddrV4) → IsAt (v4 a) (Address.ipv4 a)
  at_v6 : (a : SocketAddrV6) → IsAt (v6 a) (Address.ipv6 a)

-- The same where the system may not know it.
pub data IsBoundAt : Result SocketAddr IoError → Address → Type 0 where
  known : (bnd : SocketAddr) (addr : Address) → IsAt bnd addr → IsBoundAt (ok bnd) addr
  unknown : (e : IoError) → IsBoundAt (err e) nowhere

pub from-IsAt : (a : SocketAddr) → IsAt a (Address.from a)
unfolding Address.from
from-IsAt (v4 a) = at_v4 a
from-IsAt (v6 a) = at_v6 a

pub bound_address-IsBoundAt : (bnd : Result SocketAddr IoError) → IsBoundAt bnd (bound_address bnd)
unfolding bound_address unspecified_address
bound_address-IsBoundAt (ok bnd) = known bnd _ (from-IsAt bnd)
bound_address-IsBoundAt (err e) = unknown e

-- What an answer under a timeout comes to.
pub data IsTimed {A E : Type 0} (from : E → Socks5Error)
    : Option (Result A E) → Result A Socks5Error → Type 0 where
  too_late : IsTimed from none (err timeout)
  in_vain : (e : E) → IsTimed from (some (err e)) (err (from e))
  got : (a : A) → IsTimed from (some (ok a)) (ok a)

pub in_time-IsTimed :
    {A E : Type 0} (from : E → Socks5Error) (x : Option (Result A E))
    → IsTimed from x (in_time from x)
in_time-IsTimed from none = too_late
in_time-IsTimed from (some (err e)) = in_vain e
in_time-IsTimed from (some (ok a)) = got a

module _ {os : Os} {TR UR : Type 0} where
  -- The end of a request that failed: one reply, with what the client is told of the error and the
  -- address 0.0.0.0:0, and the connection is closed, whether or not these go through.
  pub data Failed (e : Socks5Error) : List (Action os) → Tunnelled os TR UR → Type 0 where
    failed :
        (reply : Reply) (r : _) (r' : _)
        → Reports e reply
        → Failed e ((send (reply_with reply nowhere), r) ∷ (shutdown, r') ∷ []) (err e)

  pub fails :
      (e : Socks5Error) (r : _) (r' : _)
      → Failed e ((send (error_reply (to_reply e)), r) ∷ (shutdown, r') ∷ []) (err e)
  unfolding error_reply unspecified_address
  fails e r r' = failed (to_reply e) r r' (to_reply-Reports e)

  -- The end of a request whose target was reached: a success reply with an address, and the tunnel
  -- between the client's stream and the target's; nothing more where the reply cannot be sent.
  pub data Replied (h : Socks5Handler os TR UR request_processing) (addr : Address)
      (upstream : os.Stream) : List (Action os) → Tunnelled os TR UR → Type 0 where
    tunnelled :
        (downstream : os.Stream)
        → Replied h addr upstream
            ((send (reply_with Reply.succeeded addr), ok tt) ∷ (into_inner, downstream) ∷ [])
            (ok (
              tcp (record {
                strategy = h.ctx.tcp_relay_strategy;
                downstream = downstream;
                upstream = upstream;
              })))
    unsent :
        (e : CodecError)
        → Replied h addr upstream
            ((send (reply_with Reply.succeeded addr), err e) ∷ [])
            (err (from_codec e))

  -- One attempt to reach the target, and what it comes to.
  pub data Attempt (h : Socks5Handler os TR UR request_processing)
      : Address → Action os → Result os.Stream Socks5Error → Type 0 where
    by_ipv4 :
        (addr : _) (x : _) (r : _)
        → IsTimed target_connection_failed x r
        → Attempt h (Address.ipv4 addr) (tcp_connect h.ctx.config.connect_timeout (v4 addr), x) r
    by_ipv6 :
        (addr : _) (x : _) (r : _)
        → IsTimed target_connection_failed x r
        → Attempt h (Address.ipv6 addr) (tcp_connect h.ctx.config.connect_timeout (v6 addr), x) r
    by_name :
        (name : _) (port : _) (x : _) (r : _)
        → IsTimed from_happy_eyeballs x r
        → Attempt h
            (Address.domain name port)
            (happy_eyeballs_connect h.ctx.config.connect_timeout name port, x)
            r

  pub data Connecting (h : Socks5Handler os TR UR request_processing) (dst : Address)
      : List (Action os) → Tunnelled os TR UR → Type 0 where
    unreached :
        (attempt : _) (e : Socks5Error) (acts : _) (r : _)
        → Attempt h dst attempt (err e)
        → Failed e acts r
        → Connecting h dst (attempt ∷ acts) r
    reached :
        (attempt : _) (upstream : os.Stream) (bnd : _) (addr : Address) (acts : _) (r : _)
        → Attempt h dst attempt (ok upstream)
        → IsBoundAt bnd addr
        → Replied h addr upstream acts r
        → Connecting h dst (attempt ∷ (local_addr upstream, bnd) ∷ acts) r

  pub replies :
      (h : Socks5Handler os TR UR request_processing) (addr : Address) (upstream : os.Stream)
      → Always (reply_and_tunnel h addr upstream) (Replied h addr upstream)
  replies h addr upstream (ok u) = λ downstream. tunnelled downstream
  replies h addr upstream (err e) = unsent e

  reach :
      (h : Socks5Handler os TR UR request_processing) (dst : Address) (attempt : Action os)
      → (x : Result os.Stream Socks5Error) → Attempt h dst attempt x
      → Always (use_upstream h x) (λ acts r. Connecting h dst (attempt ∷ acts) r)
  unfolding send_error_reply use_upstream
  reach h dst attempt (err e) a = λ r r'. unreached attempt e _ _ a (fails _ r r')
  reach h dst attempt (ok upstream) a = λ bnd.
      Always-map (reply_and_tunnel h (bound_address bnd) upstream)
        (Replied h (bound_address bnd) upstream) _
        (λ acts r. reached attempt upstream bnd _ acts r a (bound_address-IsBoundAt bnd))
        (replies h (bound_address bnd) upstream)

  pub handle_connect-Connecting :
      (h : Socks5Handler os TR UR request_processing) (dst : Address)
      → Always (handle_connect h dst) (Connecting h dst)
  unfolding handle_connect connect_to_upstream
  handle_connect-Connecting h (Address.ipv4 addr) =
      λ x. reach h _ _ _ (by_ipv4 addr x _ (in_time-IsTimed _ x))
  handle_connect-Connecting h (Address.ipv6 addr) =
      λ x. reach h _ _ _ (by_ipv6 addr x _ (in_time-IsTimed _ x))
  handle_connect-Connecting h (Address.domain name port) =
      λ x. reach h _ _ _ (by_name name port x _ (in_time-IsTimed _ x))
