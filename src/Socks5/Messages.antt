-- ===== src/Socks5/Messages.antt =====
-- noxen-socks5/src/messages.rs: the messages and the limits on their frames.
use zc_splice_proxy.Base.{ℕ, List}
use zc_splice_proxy.Std.Utf8.{Bytes}
use zc_splice_proxy.Socks5.AuthMethod.{AuthMethod}
use zc_splice_proxy.Socks5.AuthStatus.{AuthStatus}
use zc_splice_proxy.Socks5.Command.{Command}
use zc_splice_proxy.Socks5.Reply.{Reply}
use zc_splice_proxy.Socks5.Address.{Address}

abbrev pub max_greeting_frame_size : ℕ
max_greeting_frame_size = 257

abbrev pub max_auth_frame_size : ℕ
max_auth_frame_size = 513

abbrev pub max_request_frame_size : ℕ
max_request_frame_size = 262

-- `SOCKS5_VER`, `SOCKS5_AUTH_VER` and `SOCKS5_RSV` of types.rs.
abbrev pub socks5_ver : ℕ
socks5_ver = 0x05

abbrev pub socks5_auth_ver : ℕ
socks5_auth_ver = 0x01

abbrev pub socks5_rsv : ℕ
socks5_rsv = 0x00

pub record ClientGreeting : Type 0 where
  pub methods : List AuthMethod

pub record ServerGreeting : Type 0 where
  pub method : AuthMethod

pub record AuthRequest : Type 0 where
  pub username : Bytes
  pub password : Bytes

pub record AuthResponse : Type 0 where
  pub status : AuthStatus

pub record ClientRequest : Type 0 where
  pub command : Command
  pub dst_address : Address

pub record ServerResponse : Type 0 where
  pub reply : Reply
  pub bnd_address : Address
