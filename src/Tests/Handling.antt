-- ===== src/Tests/Handling.antt =====
-- The handler's courses for a concrete configuration.
use zc_splice_proxy.Base.{true, ℕ, [], some, ◌∷◌, ◌⊎◌, List, ok, ◌++◌}
use zc_splice_proxy.Proxy.Handler.{
  Os, Socks5Context, Socks5Handler, method_selection, request_processing, new, codec, next, send,
  greeting_codec, Action,
}
use zc_splice_proxy.Proxy.Handler.Phases.{negotiate, select_method, greet_with}
use zc_splice_proxy.Proxy.Handler.Requests.{handle}
use zc_splice_proxy.Proxy.Handler.Courses.{
  Always, Negotiation, negotiate-Negotiation, Admits, negotiate-Admits,
}
use zc_splice_proxy.Proxy.Handler.Handling.{Handling, handle-Handling}
use zc_splice_proxy.Proxy.Server.{
  Served, Selected, finished, shut_down, answered, request_shut_down, NotAdmitted, Admitted,
  Served-Admitted,
}
use zc_splice_proxy.Proxy.Server.Semaphore.{counter}
use zc_splice_proxy.Proxy.Server.Listener.{Server, draining, negotiating}
use zc_splice_proxy.Socks5.AuthMethod.{no_authentication_required}
use zc_splice_proxy.Socks5.AuthMethod

-- Streams, sockets, listeners and the provider are numbers.
abbrev os : Os
os = record { Stream = ℕ; Socket = ℕ; Listener = ℕ; Provider = ℕ }

abbrev ctx : Socks5Context os (Unit {0}) (Unit {0})
ctx = record {
  tcp_relay_strategy = tt;
  udp_relay_strategy = tt;
  auth_provider = 1;
  config = record { allow_no_auth = true; connect_timeout = 10000; bind_timeout = 40000 };
}

abbrev fresh : Socks5Handler os (Unit {0}) (Unit {0}) method_selection
fresh = record { ctx = ctx }

abbrev ready : Socks5Handler os (Unit {0}) (Unit {0}) request_processing
ready = record { ctx = ctx }

negotiate-Negotiation_example : Always (negotiate fresh) (Negotiation fresh)
negotiate-Negotiation_example = negotiate-Negotiation fresh

negotiate-Admits_example : Always (negotiate fresh) (Admits fresh)
negotiate-Admits_example = negotiate-Admits fresh

handle-Handling_example : Always (handle ready) (Handling ready)
handle-Handling_example = handle-Handling ready

-- A client that offers to do without authentication, and is let in.
abbrev greets : List (Action os)
greets =
    (next greeting_codec, some (ok (record { methods = no_authentication_required ∷ [] })))
    ∷ (send (greet_with no_authentication_required), ok tt)
    ∷ []

let_in : Selected (negotiate {TR = Unit {0}} {UR = Unit {0}} (new ctx)) greets (some (ok ready))
let_in =
    unfold negotiate codec select_method AuthMethod.code new in
    answered _ _ _ _ _ (answered _ _ _ _ _ (finished _))

-- Then the server shuts down.
Served-Admitted_example : NotAdmitted ctx (greets ++ []) (ok tt) ⊎ Admitted ctx (greets ++ [])
Served-Admitted_example =
    Served-Admitted ctx (greets ++ []) (ok tt)
      (request_shut_down greets [] ready let_in (shut_down (handle ready)))

-- The same connection inside a server that drains.
abbrev course : Served ctx (greets ++ []) (ok tt)
course = request_shut_down greets [] ready let_in (shut_down (handle ready))

abbrev leaving : Server counter
leaving = record {
  limit_connections = some 2;
  stage = draining;
  connections = record { phase = negotiating; permit = true } ∷ [];
  shutdown_complete = 1;
}
