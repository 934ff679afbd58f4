-- ===== src/Proxy/Handler/Requests.antt =====
-- noxen-proxy/src/handler/socks5/state.rs: the requests of a client.
use zc_splice_proxy.Proxy.Handler.Phases.{success_reply, error_reply}
use zc_splice_proxy.Base.{Result, err, ok, Option, none, some}
use zc_splice_proxy.Std.Io.{IoError}
use zc_splice_proxy.Std.Net.{SocketAddr, v4, v6}
use zc_splice_proxy.Socks5.Command.{Command, connect, bind, udp_associate}
use zc_splice_proxy.Socks5.Reply.{Reply}
use zc_splice_proxy.Socks5.Address.{Address}
use zc_splice_proxy.Socks5.Address
use zc_splice_proxy.Proxy.Relay.{Tunnel, tcp}
use zc_splice_proxy.Proxy.Failure.{
  Socks5Error, to_reply, from_happy_eyeballs, target_connection_failed, command_not_supported,
  timeout,
}
use zc_splice_proxy.Proxy.Failure
use zc_splice_proxy.Proxy.Handler.{
  Os, Task, done, ask, ◌>>=◌, tcp_connect, happy_eyeballs_connect, local_addr, listen,
  listener_addr, accept, close, into_inner, unspecified_address, codec, request_processing,
  Socks5Handler, recv, send_message, send_and_shutdown,
}

-- `inspect_err(...).map_err(|_| Timeout)?` around an attempt to connect.
abbrev pub in_time : {A E : Type 0} → (E → Socks5Error) → Option (Result A E) → Result A Socks5Error
in_time from none = err timeout
in_time from (some (ok a)) = ok a
in_time from (some (err e)) = err (from e)

unfoldable pub bound_address : Result SocketAddr IoError → Address
unfolding Address.from unspecified_address
bound_address (ok addr) = Address.from addr
bound_address (err e) = unspecified_address

module _ {os : Os} where
  -- What ends a request that failed: the error decides the reply.
  unfoldable pub send_error_reply : {A : Type 0} → Socks5Error → Task os (Result A Socks5Error)
  unfolding to_reply
  send_error_reply error = send_and_shutdown (error_reply (to_reply error)) error

  -- A failure of the first task is handled by the second one.
  abbrev pub match_on : {A B : Type 0} → Task os A → (A → Task os B) → Task os B
  match_on (done a) f = f a
  match_on (ask call k) f = ask call (λ x. match_on (k x) f)

abbrev pub Tunnelled : Os → Type 0 → Type 0 → Type 0
Tunnelled os TR UR = Result (Tunnel TR UR os.Stream os.Socket) Socks5Error

module _ {os : Os} {TR UR : Type 0} where
  unfoldable pub connect_to_upstream :
      Socks5Handler os TR UR request_processing → Address → Task os (Result os.Stream Socks5Error)
  connect_to_upstream h (Address.ipv4 addr) =
      ask (tcp_connect h.ctx.config.connect_timeout (v4 addr))
        (λ r. done (in_time target_connection_failed r))
  connect_to_upstream h (Address.ipv6 addr) =
      ask (tcp_connect h.ctx.config.connect_timeout (v6 addr))
        (λ r. done (in_time target_connection_failed r))
  connect_to_upstream h (Address.domain name port) =
      ask (happy_eyeballs_connect h.ctx.config.connect_timeout name port)
        (λ r. done (in_time from_happy_eyeballs r))

  abbrev pub tunnel :
      Socks5Handler os TR UR request_processing → os.Stream → os.Stream → Tunnelled os TR UR
  tunnel h downstream upstream = ok (
      tcp (record {
        strategy = h.ctx.tcp_relay_strategy;
        downstream = downstream;
        upstream = upstream;
      }))

  -- A success reply, after which the client's stream is taken out of its frame.
  abbrev pub reply_and_tunnel :
      Socks5Handler os TR UR request_processing → Address → os.Stream → Task os (Tunnelled os TR UR)
  reply_and_tunnel h bnd_address upstream = do
    sent ← send_message (success_reply bnd_address)
    ask into_inner (λ downstream. done (tunnel h downstream upstream))

  unfoldable pub use_upstream :
      Socks5Handler os TR UR request_processing
      → Result os.Stream Socks5Error
      → Task os (Tunnelled os TR UR)
  unfolding send_error_reply
  use_upstream h (err e) = send_error_reply e
  use_upstream h (ok upstream) =
      ask (local_addr upstream) (λ r. reply_and_tunnel h (bound_address r) upstream)

  unfoldable pub handle_connect :
      Socks5Handler os TR UR request_processing → Address → Task os (Tunnelled os TR UR)
  unfolding connect_to_upstream
  handle_connect h dst_address = match_on (connect_to_upstream h dst_address) (use_upstream h)

  -- `handle_bind`, from its end: after the wait for a connection, after the listener's address is
  -- known, after the listener is there. `drop(listener)` on a failing path is not a call.
  unfoldable pub use_accepted :
      Socks5Handler os TR UR request_processing
      → os.Listener
      → Option (Result (os.Stream × SocketAddr) IoError)
      → Task os (Tunnelled os TR UR)
  unfolding send_error_reply Address.from
  use_accepted h listener (some (ok (upstream, remote_addr))) =
      ask (close listener) (λ u. reply_and_tunnel h (Address.from remote_addr) upstream)
  use_accepted h listener (some (err e)) = send_error_reply (Failure.io e)
  use_accepted h listener none = send_error_reply timeout

  unfoldable pub use_listener_addr :
      Socks5Handler os TR UR request_processing
      → os.Listener
      → Result SocketAddr IoError
      → Task os (Tunnelled os TR UR)
  unfolding send_error_reply Address.from
  use_listener_addr h listener (err e) = send_error_reply (Failure.io e)
  use_listener_addr h listener (ok addr) = do
    sent ← send_message (success_reply (Address.from addr))
    ask (accept h.ctx.config.bind_timeout listener) (use_accepted h listener)

  unfoldable pub use_listener :
      Socks5Handler os TR UR request_processing
      → Result os.Listener IoError
      → Task os (Tunnelled os TR UR)
  unfolding send_error_reply
  use_listener h (err e) = send_error_reply (Failure.io e)
  use_listener h (ok listener) = ask (listener_addr listener) (use_listener_addr h listener)

  unfoldable pub handle_bind :
      Socks5Handler os TR UR request_processing → Task os (Tunnelled os TR UR)
  handle_bind h = ask listen (use_listener h)

  unfoldable pub handle_udp_associate :
      Socks5Handler os TR UR request_processing → Task os (Tunnelled os TR UR)
  handle_udp_associate h =
      send_and_shutdown (error_reply Reply.command_not_supported) command_not_supported

  unfoldable pub dispatch :
      Socks5Handler os TR UR request_processing → Command → Address → Task os (Tunnelled os TR UR)
  unfolding handle_connect handle_bind handle_udp_associate
  dispatch h connect dst_address = handle_connect h dst_address
  dispatch h bind dst_address = handle_bind h
  dispatch h udp_associate dst_address = handle_udp_associate h

  unfoldable pub handle : Socks5Handler os TR UR request_processing → Task os (Tunnelled os TR UR)
  unfolding codec
  handle h = do
    client_request ← recv request_processing
    dispatch h client_request.command client_request.dst_address
