-- ===== src/Proxy/Config.antt =====
-- noxen-proxy/src/config.rs: the settings, their defaults and where they are read from; durations are
-- in milliseconds.
use Prim.Native.String.{String}
use zc_splice_proxy.Base.{false, Bool, [], ℕ, ◌*◌, ◌∷◌, Result, err, ok}
use zc_splice_proxy.Std.Net.{SocketAddr, v4}

pub record ServerConfig : Type 0 where
  pub listen_address : SocketAddr
  pub shutdown_timeout : ℕ
  pub backlog_size : ℕ
  pub max_connections : ℕ

unfoldable pub server_default : ServerConfig
server_default = record {
  listen_address = v4 (record { ip = 0 ∷ 0 ∷ 0 ∷ 0 ∷ []; port = 1080 });
  shutdown_timeout = 60 * 1000;
  backlog_size = 1024;
  max_connections = 0;
}

pub record Socks5Config : Type 0 where
  pub allow_no_auth : Bool
  pub connect_timeout : ℕ
  pub bind_timeout : ℕ

unfoldable pub socks5_default : Socks5Config
socks5_default = record {
  allow_no_auth = false;
  connect_timeout = 10 * 1000;
  bind_timeout = 40 * 1000;
}

pub record Config : Type 0 where
  pub server : ServerConfig
  pub socks5 : Socks5Config

unfoldable pub default : Config
unfolding server_default socks5_default
default = record { server = server_default; socks5 = socks5_default }

-- What the builder of the configuration library is given: a file, whether it must exist, and the
-- prefix and separator of the environment's variables.
pub record Sources : Type 0 where
  pub file : String
  pub required : Bool
  pub prefix : String
  pub separator : String

-- `Config::new`. Reading the sources and deserializing what they hold are the library's, with the
-- library's types `Read` and `ConfigError`.
module _ {Read ConfigError : Type 0} where
  unfoldable pub new :
      (Sources → Result Read ConfigError)
      → (Read → Result Config ConfigError)
      → String
      → Result Config ConfigError
  new build try_deserialize file =
      let sources : Sources = record {
        file = file;
        required = false;
        prefix = "PROXY";
        separator = "__";
      } in
      elim (build sources) [ ok config ↦ try_deserialize config | err e ↦ err e ]
