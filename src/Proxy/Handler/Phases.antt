-- ===== src/Proxy/Handler/Phases.antt =====
-- noxen-proxy/src/handler/socks5/state.rs: method selection, authentication and the requests.
use zc_splice_proxy.Base.{List, Result, err, if◌then◌else◌, ok, ◌&&◌}
use zc_splice_proxy.Socks5.AuthMethod.{
  AuthMethod, no_authentication_required, username_password, no_acceptable_methods,
}
use zc_splice_proxy.Socks5.AuthStatus.{success, failure}
use zc_splice_proxy.Socks5.Reply.{Reply, succeeded}
use zc_splice_proxy.Socks5.Address.{Address}
use zc_splice_proxy.Proxy.Auth.{AuthError}
use zc_splice_proxy.Proxy.Failure.{Socks5Error, authentication_failed, no_acceptable_method}
use zc_splice_proxy.Proxy.Handler.{
  Os, Task, done, ask, ◌>>=◌, authenticate, Message, greeting, auth, response, contains,
  unspecified_address, codec, method_selection, authentication, request_processing, Socks5Handler,
  into_state, recv, send_message, send_and_shutdown,
}

abbrev pub greet_with : AuthMethod → Message
greet_with m = greeting (record { method = m })

abbrev pub success_reply : Address → Message
success_reply bnd_address = response (record { reply = succeeded; bnd_address = bnd_address })

unfoldable pub error_reply : Reply → Message
unfolding unspecified_address
error_reply reply = response (record { reply = reply; bnd_address = unspecified_address })

module _ {os : Os} {TR UR : Type 0} where
  -- `authenticate`, after the answer of the provider.
  abbrev pub settle_auth :
      Socks5Handler os TR UR authentication
      → Result (Unit {0}) AuthError
      → Task os (Result (Socks5Handler os TR UR request_processing) Socks5Error)
  settle_auth h (ok u) = do
    sent ← send_message (auth (record { status = success }))
    done (ok (into_state h))
  settle_auth h (err e) =
      send_and_shutdown (auth (record { status = failure })) (authentication_failed e)

  unfoldable pub authenticate_client :
      Socks5Handler os TR UR authentication
      → Task os (Result (Socks5Handler os TR UR request_processing) Socks5Error)
  unfolding codec
  authenticate_client h = do
    request ← recv authentication
    ask (authenticate h.ctx.auth_provider request.username request.password) (settle_auth h)

  -- `negotiate`, after the greeting.
  unfoldable pub select_method :
      Socks5Handler os TR UR method_selection
      → List AuthMethod
      → Task os (Result (Socks5Handler os TR UR request_processing) Socks5Error)
  unfolding authenticate_client
  select_method h methods =
      if contains methods username_password
      then (do
        sent ← send_message (greet_with username_password)
        authenticate_client (into_state h))
      else if h.ctx.config.allow_no_auth && contains methods no_authentication_required
      then (do
        sent ← send_message (greet_with no_authentication_required)
        done (ok (into_state h)))
      else send_and_shutdown (greet_with no_acceptable_methods) no_acceptable_method

  unfoldable pub negotiate :
      Socks5Handler os TR UR method_selection
      → Task os (Result (Socks5Handler os TR UR request_processing) Socks5Error)
  unfolding codec select_method
  negotiate h = do client_greeting ← recv method_selection; select_method h client_greeting.methods
