-- ===== src/Tests/Starting.antt =====
-- The program as it is started, and a client with the right password.
use zc_splice_proxy.Base.{List, Result, [], ok, refl, some, true, ℕ, ◌++◌, ◌∷◌, ◌⊎◌, returns}
use Prim.Native.String.{String}
use zc_splice_proxy.Std.Io.{IoError}
use zc_splice_proxy.Std.Net.{SocketAddr, v4}
use zc_splice_proxy.Socks5.AuthMethod.{username_password}
use zc_splice_proxy.Socks5.AuthMethod
use zc_splice_proxy.Socks5.AuthStatus.{success}
use zc_splice_proxy.Proxy.Auth
use zc_splice_proxy.Proxy.Config.{Config, default, server_default, socks5_default}
use zc_splice_proxy.Proxy.Handler.{
  Action, Socks5Handler, request_processing, new, codec, next, send, authenticate, auth,
  greeting_codec, auth_codec,
}
use zc_splice_proxy.Proxy.Handler.Phases.{negotiate, select_method, authenticate_client, greet_with}
use zc_splice_proxy.Proxy.Handler.Requests.{handle}
use zc_splice_proxy.Proxy.Server.{
  Selected, NotAdmitted, finished, shut_down, answered, request_shut_down,
}
use zc_splice_proxy.Proxy.Main.{
  os, Started, TcpRelay, UdpRelay, KnowsPassword, tcp_relay, standard_udp_relay, uname, passwd,
  main, main-KnowsPassword,
}

-- Streams, sockets and listeners are numbers. Nothing is configured.
abbrev load : String → Result Config (Unit {0})
load file = ok default

abbrev bind : SocketAddr → Result ℕ IoError
bind addr = ok 3

abbrev local_addr : ℕ → Result SocketAddr IoError
local_addr listener = ok (v4 (record { ip = 0 ∷ 0 ∷ 0 ∷ 0 ∷ []; port = 1080 }))

abbrev started : Started ℕ ℕ ℕ
started = record {
  listener = 3;
  socks5_ctx = record {
    tcp_relay_strategy = tcp_relay true;
    udp_relay_strategy = standard_udp_relay;
    auth_provider = Auth.new uname passwd;
    config = socks5_default;
  };
  config = server_default;
}

abbrev logs_in : List (Action (os ℕ ℕ ℕ))
logs_in =
    (next greeting_codec, some (ok (record { methods = username_password ∷ [] })))
    ∷ (send (greet_with username_password), ok tt)
    ∷ (next auth_codec, some (ok (record { username = uname; password = passwd })))
    ∷ (authenticate (Auth.new uname passwd) uname passwd, ok tt)
    ∷ (send (auth (record { status = success })), ok tt)
    ∷ []

abbrev ready : Socks5Handler (os ℕ ℕ ℕ) TcpRelay UdpRelay request_processing
ready = record { ctx = started.socks5_ctx }

let_in : Selected (negotiate (new started.socks5_ctx)) logs_in (some (ok ready))
let_in =
    unfold negotiate codec select_method authenticate_client AuthMethod.code new in
    answered _ _ _ _ _ (
      answered _ _ _ _ _
        (answered _ _ _ _ _ (answered _ _ _ _ _ (answered _ _ _ _ _ (finished _)))))

main-KnowsPassword_example :
    NotAdmitted started.socks5_ctx (logs_in ++ []) (ok tt) ⊎ KnowsPassword ℕ ℕ ℕ (logs_in ++ [])
main-KnowsPassword_example =
    main-KnowsPassword ℕ ℕ ℕ (returns tt) load bind local_addr true default started (logs_in ++ [])
      (ok tt) refl (unfold default socks5_default in refl) (unfold main default in refl)
      (tt, (tt, (tt, (unfold Auth.authenticate Auth.new in refl, (tt, tt)))))
      (request_shut_down logs_in [] ready let_in (shut_down (handle ready)))
