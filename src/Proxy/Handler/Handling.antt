-- ===== src/Proxy/Handler/Handling.antt =====
-- The courses that a request can take, whatever the answers are.
use zc_splice_proxy.Proxy.Handler.Outcomes.{
  reply_with, nowhere, IsAt, IsTimed, too_late, in_vain, from-IsAt, Failed, fails, Replied, replies,
  Connecting, handle_connect-Connecting,
}
use zc_splice_proxy.Base.{List, Result, [], err, ok, ◌∷◌, Option, none, refl, some, ◌≡◌}
use zc_splice_proxy.Std.Io.{IoError}
use zc_splice_proxy.Std.Net.{SocketAddr}
use zc_splice_proxy.Socks5.Error.{CodecError}
use zc_splice_proxy.Socks5.Command.{connect, bind, udp_associate}
use zc_splice_proxy.Socks5.Reply.{Reply}
use zc_splice_proxy.Socks5.Address.{Address}
use zc_splice_proxy.Socks5.Address
use zc_splice_proxy.Proxy.Failure.{Socks5Error, from_codec, command_not_supported}
use zc_splice_proxy.Proxy.Failure
use zc_splice_proxy.Proxy.Handler.{
  Os, Action, unspecified_address, next, send, shutdown, request_response_codec, listen,
  listener_addr, accept, close, codec, request_processing, Socks5Handler, received,
}
use zc_splice_proxy.Proxy.Handler.Phases.{success_reply, error_reply}
use zc_splice_proxy.Proxy.Handler.Requests.{
  Tunnelled, send_error_reply, reply_and_tunnel, handle_connect, use_accepted, use_listener_addr,
  use_listener, handle_bind, handle_udp_associate, dispatch, handle,
}
use zc_splice_proxy.Proxy.Handler.Courses.{Always, Always-map}

module _ {os : Os} {TR UR : Type 0} where
  -- A request to wait for a connection: a first reply with the address of the listener, a second
  -- one with the address of whoever connects.
  pub data Binding (h : Socks5Handler os TR UR request_processing)
      : List (Action os) → Tunnelled os TR UR → Type 0 where
    no_listener :
        (e : IoError) (acts : _) (r : _)
        → Failed (Failure.io e) acts r
        → Binding h ((listen, err e) ∷ acts) r
    no_address :
        (l : os.Listener) (e : IoError) (acts : _) (r : _)
        → Failed (Failure.io e) acts r
        → Binding h ((listen, ok l) ∷ (listener_addr l, err e) ∷ acts) r
    first_unsent :
        (l : os.Listener) (addr : SocketAddr) (shown : Address) (e : CodecError)
        → IsAt addr shown
        → Binding h
            ((listen, ok l)
              ∷ (listener_addr l, ok addr)
              ∷ (send (reply_with Reply.succeeded shown), err e)
              ∷ [])
            (err (from_codec e))
    not_accepted :
        (l : os.Listener) (addr : SocketAddr) (shown : Address) (x : _) (e : Socks5Error) (acts : _)
        (r : _)
        → IsAt addr shown
        → IsTimed Failure.io x (err e)
        → Failed e acts r
        → Binding h
            ((listen, ok l)
              ∷ (listener_addr l, ok addr)
              ∷ (send (reply_with Reply.succeeded shown), ok tt)
              ∷ (accept h.ctx.config.bind_timeout l, x)
              ∷ acts)
            r
    was_accepted :
        (l : os.Listener) (addr : SocketAddr) (shown : Address) (upstream : os.Stream)
        (remote : SocketAddr) (remote_shown : Address) (u : _) (acts : _) (r : _)
        → IsAt addr shown
        → IsAt remote remote_shown
        → Replied h remote_shown upstream acts r
        → Binding h
            ((listen, ok l)
              ∷ (listener_addr l, ok addr)
              ∷ (send (reply_with Reply.succeeded shown), ok tt)
              ∷ (accept h.ctx.config.bind_timeout l, some (ok (upstream, remote)))
              ∷ (close l, u)
              ∷ acts)
            r

  takes_over :
      (h : Socks5Handler os TR UR request_processing) (l : os.Listener) (addr : SocketAddr)
      → (x : Option (Result (os.Stream × SocketAddr) IoError))
      → Always (use_accepted h l x) (λ acts r.
        Binding h
          ((listen, ok l)
            ∷ (listener_addr l, ok addr)
            ∷ (send (success_reply (Address.from addr)), ok tt)
            ∷ (accept h.ctx.config.bind_timeout l, x)
            ∷ acts)
          r)
  unfolding send_error_reply use_accepted
  takes_over h l addr (some (ok (upstream, remote))) = λ u.
      Always-map (reply_and_tunnel h (Address.from remote) upstream)
        (Replied h (Address.from remote) upstream) _
        (λ acts r.
          was_accepted l addr _ upstream remote _ u acts r (from-IsAt addr) (from-IsAt remote))
        (replies h (Address.from remote) upstream)
  takes_over h l addr (some (err e)) =
      λ r r'. not_accepted l addr _ (some (err e)) _ _ _ (from-IsAt addr) (in_vain e) (fails _ r r')
  takes_over h l addr none =
      λ r r'. not_accepted l addr _ none _ _ _ (from-IsAt addr) too_late (fails _ r r')

  announces :
      (h : Socks5Handler os TR UR request_processing) (l : os.Listener)
      → (x : Result SocketAddr IoError)
      → Always
          (use_listener_addr h l x)
          (λ acts r. Binding h ((listen, ok l) ∷ (listener_addr l, x) ∷ acts) r)
  unfolding send_error_reply use_listener_addr
  announces h l (err e) = λ r r'. no_address l e _ _ (fails _ r r')
  announces h l (ok addr) = first
    where
      first :
          Always
            (use_listener_addr h l (ok addr))
            (λ acts r. Binding h ((listen, ok l) ∷ (listener_addr l, ok addr) ∷ acts) r)
      first (ok u) = takes_over h l addr
      first (err e) = first_unsent l addr _ e (from-IsAt addr)

  handle_bind-Binding :
      (h : Socks5Handler os TR UR request_processing) → Always (handle_bind h) (Binding h)
  unfolding handle_bind send_error_reply use_listener
  handle_bind-Binding h (err e) = λ r r'. no_listener e _ _ (fails _ r r')
  handle_bind-Binding h (ok l) = announces h l

  -- What a request may lead to.
  pub data Handling (h : Socks5Handler os TR UR request_processing)
      : List (Action os) → Tunnelled os TR UR → Type 0 where
    no_request :
        (x : _) (e : Socks5Error)
        → received x ≡ err e
        → Handling h ((next request_response_codec, x) ∷ []) (err e)
    connecting :
        (dst : Address) (acts : _) (r : _)
        → Connecting h dst acts r
        → Handling h
            ((
              next request_response_codec,
              some (ok (record { command = connect; dst_address = dst })),
            )
              ∷ acts)
            r
    binding :
        (dst : Address) (acts : _) (r : _)
        → Binding h acts r
        → Handling h
            ((next request_response_codec, some (ok (record { command = bind; dst_address = dst })))
              ∷ acts)
            r
    unsupported :
        (dst : Address) (r : _) (r' : _)
        → Handling h
            ((
              next request_response_codec,
              some (ok (record { command = udp_associate; dst_address = dst })),
            )
              ∷ (send (reply_with Reply.command_not_supported nowhere), r)
              ∷ (shutdown, r')
              ∷ [])
            (err command_not_supported)

  dispatched :
      (h : Socks5Handler os TR UR request_processing) (command : _) (dst : Address)
      → Always (dispatch h command dst) (λ acts r.
        Handling h
          ((
            next request_response_codec,
            some (ok (record { command = command; dst_address = dst })),
          )
            ∷ acts)
          r)
  unfolding handle_udp_associate dispatch error_reply unspecified_address
  dispatched h connect dst =
      Always-map (handle_connect h dst) (Connecting h dst) _ (λ acts r. connecting dst acts r)
        (handle_connect-Connecting h dst)
  dispatched h bind dst =
      Always-map (handle_bind h) (Binding h) _ (λ acts r. binding dst acts r)
        (handle_bind-Binding h)
  dispatched h udp_associate dst = λ r r'. unsupported dst r r'

  -- Whatever the client, the network and the clock answer, a request takes one of the courses of
  -- `Handling`. Where a target was not reached, a listener not made or nobody accepted, the client is
  -- sent one reply with the code for the error and 0.0.0.0:0, and the connection is closed; a
  -- CONNECT tunnels after one success reply and a BIND after two; UDP ASSOCIATE is refused. A request
  -- that cannot be received and a success reply that cannot be sent end the request at once.
  pub handle-Handling :
      (h : Socks5Handler os TR UR request_processing) → Always (handle h) (Handling h)
  unfolding handle codec
  handle-Handling h none = no_request none _ refl
  handle-Handling h (some (err e)) = no_request (some (err e)) _ refl
  handle-Handling h (some (ok request)) = dispatched h request.command request.dst_address
