-- ===== src/Proxy/Main.antt =====
-- noxen-proxy/src/main.rs: what the server is started with, and the signals that end it.
use mathlib.Core.List.{Memᴰ}
use mathlib.Core.List.Memᴰ
use zc_splice_proxy.Base.{
  All, Bool, List, Result, Result-cases, Run, [], err, if◌then◌else◌, inl, inr, ok, ok-injective,
  panics, returns, returns-injective, some, ◌∷◌, ◌≡◌, All-Memᴰ, ap, false, subst, sym, ◌∙◌, ◌⊎◌,
  Run-cases, true, ◌>>=◌, ◌||◌,
}
use Prim.Native.String.{String}
use zc_splice_proxy.Std.Utf8.{Bytes}
use zc_splice_proxy.Std.Io.{IoError}
use zc_splice_proxy.Std.Net.{SocketAddr}
use zc_splice_proxy.Proxy.Auth.{StaticAuthProvider, authenticate_iff}
use zc_splice_proxy.Proxy.Auth
use zc_splice_proxy.Proxy.Config.{Config, ServerConfig, Socks5Config}
use zc_splice_proxy.Proxy.Handler.{
  Os, Call, Answer, Action, authenticate, next, auth_codec, Socks5Context, new,
}
use zc_splice_proxy.Proxy.Server.{Served, NotAdmitted, Admitted, Served-Admitted}
use zc_splice_proxy.Socks5.Messages.{AuthRequest}

abbrev pub default_config_file : String
default_config_file = "config.toml"

-- The filter for log lines, unless the environment has one.
abbrev pub default_filter : String
default_filter = "proxy_core=info"

-- "uname" and "passwd".
abbrev pub uname : Bytes
uname = 0x75 ∷ 0x6e ∷ 0x61 ∷ 0x6d ∷ 0x65 ∷ []

abbrev pub passwd : Bytes
passwd = 0x70 ∷ 0x61 ∷ 0x73 ∷ 0x73 ∷ 0x77 ∷ 0x64 ∷ []

-- The relay strategies by name; `tcp_relay` is what `cfg(target_os = "linux")` chooses.
pub data TcpRelay : Type 0 where
  splice_relay copy_relay : TcpRelay

pub data UdpRelay : Type 0 where
  standard_udp_relay : UdpRelay

abbrev pub tcp_relay : Bool → TcpRelay
tcp_relay linux = if linux then splice_relay else copy_relay

-- `shutdown_signal` waits for Ctrl+C or, on Unix, SIGTERM: whether one of the signals so far ends it.
pub data Signal : Type 0 where
  ctrl_c terminate : Signal

abbrev pub is_awaited : Bool → Signal → Bool
is_awaited unix ctrl_c = true
is_awaited unix terminate = unix

unfoldable pub shutdown_signal : Bool → List Signal → Bool
shutdown_signal unix [] = false
shutdown_signal unix (signal ∷ signals) = is_awaited unix signal || shutdown_signal unix signals

module _ (Stream Socket TcpListener : Type 0) where
  abbrev pub os : Os
  os = record {
    Stream = Stream;
    Socket = Socket;
    Listener = TcpListener;
    Provider = StaticAuthProvider;
  }

  -- The arguments of `server::run`.
  pub record Started : Type 0 where
    pub listener : TcpListener
    pub socks5_ctx : Socks5Context os TcpRelay UdpRelay
    pub config : ServerConfig

  module _ {ConfigError : Type 0} (logging : Run (Unit {0}))
      (load : String → Result Config ConfigError) (bind : SocketAddr → Result TcpListener IoError)
      (local_addr : TcpListener → Result SocketAddr IoError) where
    -- Up to the call of `server::run`. `logging` is what `init_subscriber` gives. Without a
    -- configuration `expect` panics.
    unfoldable pub main : Bool → Run (Result Started IoError)
    unfolding Auth.new
    main linux = do
      logs ← logging
      elim (load default_config_file) [
        | err e ↦ panics
        | ok config ↦ elim (bind config.server.listen_address) [
          | err e ↦ returns (err e)
          | ok listener ↦ elim (local_addr listener) [
            | err e ↦ returns (err e)
            | ok addr ↦ returns (
                ok (record {
                  listener = listener;
                  socks5_ctx = record {
                    tcp_relay_strategy = tcp_relay linux;
                    udp_relay_strategy = standard_udp_relay;
                    auth_provider = Auth.new uname passwd;
                    config = config.socks5;
                  };
                  config = config.server;
                }))
          ]
        ]
      ]

    -- The server gets the static provider, and the sections of the configuration.
    Started-main :
        (linux : Bool) (config : Config) (started : Started)
        → load default_config_file ≡ ok config
        → main linux ≡ returns (ok started)
        → (started.socks5_ctx.auth_provider ≡ Auth.new uname passwd)
          × (started.socks5_ctx.config ≡ config.socks5)
          × (started.config ≡ config.server)
    unfolding main
    Started-main linux config started loaded e = elim (Run-cases logging) [
      | inl broken ↦ absurd (cc (rw (main, broken) at e))
      | inr (u, logs) ↦ elim (Result-cases (bind config.server.listen_address)) [
        | inr (x, failed) ↦ absurd (cc (rw (main, logs, loaded, failed) at e))
        | inl (listener, bound) ↦ elim (Result-cases (local_addr listener)) [
          | inr (x, failed) ↦ absurd (cc (rw (main, logs, loaded, bound, failed) at e))
          | inl (addr, known) ↦
              let same =
                ok-injective {E = IoError}
                  (returns-injective (rw (main, logs, loaded, bound, known) at e)) in
              (
                ap (λ (s : Started). s.socks5_ctx.auth_provider) (sym same),
                ap (λ (s : Started). s.socks5_ctx.config) (sym same),
                ap (λ (s : Started). s.config) (sym same),
              )
        ]
      ]
    ]

  -- That the static provider itself answered an `authenticate`.
  abbrev OwnAnswer : (call : Call os) → Answer os call → Type 0
  OwnAnswer (authenticate provider username password) x =
      x ≡ Auth.authenticate provider username password
  OwnAnswer call x = Unit {0}

  abbrev pub AreOwn : List (Action os) → Type 0
  AreOwn acts = All (λ (act : Action os). OwnAnswer act.0 act.1) acts

  -- That the client sent the program's user name and password.
  abbrev pub KnowsPassword : List (Action os) → Type 0
  KnowsPassword acts =
      (request : AuthRequest) × Memᴰ (next auth_codec, some (ok request)) acts
      × (request.username ≡ uname)
      × (request.password ≡ passwd)

  knows :
      (ctx : Socks5Context os TcpRelay UdpRelay) (acts : List (Action os))
      → ctx.auth_provider ≡ Auth.new uname passwd
      → ctx.config.allow_no_auth ≡ false
      → AreOwn acts
      → Admitted ctx acts
      → KnowsPassword acts
  unfolding new Auth.new
  knows ctx acts provider closed own adm = elim adm.admitted.1 [
    | inl (request, received, approved) ↦
        let here : Memᴰ (authenticate ctx.auth_provider request.username request.password, ok tt)
            acts =
          subst (Memᴰ _) (sym adm.in_order) (Memᴰ.append_left adm.after approved) in
        let answer = All-Memᴰ (λ (act : Action os). OwnAnswer act.0 act.1) _ acts here own in
        let agree =
          (authenticate_iff ctx.auth_provider request.username request.password).0.0 (sym answer) in
        (
          request,
          subst (Memᴰ _) (sym adm.in_order) (Memᴰ.append_left adm.after received),
          agree.0 ∙ ap (λ (p : StaticAuthProvider). p.username) provider,
          agree.1 ∙ ap (λ (p : StaticAuthProvider). p.password) provider,
        )
    | inr (hello, m, allowed, offered, no_password) ↦ absurd (cc (closed, allowed))
  ]

  module _ {ConfigError : Type 0} (logging : Run (Unit {0}))
      (load : String → Result Config ConfigError) (bind : SocketAddr → Result TcpListener IoError)
      (local_addr : TcpListener → Result SocketAddr IoError) where
    -- The program as it is started, with a configuration that demands authentication: a connection
    -- ends before its requests are handled, or the client sent the program's user name and password,
    -- if the static provider itself answers what is asked of it.
    pub main-KnowsPassword :
        (linux : Bool) (config : Config) (started : Started) (acts : List (Action os))
        (r : Result (Unit {0}) IoError)
        → load default_config_file ≡ ok config
        → config.socks5.allow_no_auth ≡ false
        → main logging load bind local_addr linux ≡ returns (ok started)
        → AreOwn acts
        → Served started.socks5_ctx acts r
        → NotAdmitted started.socks5_ctx acts r ⊎ KnowsPassword acts
    main-KnowsPassword linux config started acts r loaded closed e own served =
        let (provider, settings, rest) =
          Started-main logging load bind local_addr linux config started loaded e in
        elim (Served-Admitted started.socks5_ctx acts r served) [
          | inl turned_away ↦ inl turned_away
          | inr adm ↦ inr (
              knows started.socks5_ctx acts provider
                (ap (λ (c : Socks5Config). c.allow_no_auth) settings ∙ closed) own adm)
        ]
