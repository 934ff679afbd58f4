-- ===== src/Socks5/Error.antt =====
-- noxen-socks5/src/error.rs and noxen-socks5/src/codecs/error.rs.
use Prim.Native.String.{String}
use zc_splice_proxy.Std.Io.{IoError}

pub data ProtocolError : Type 0 where
  invalid_version invalid_auth_version invalid_auth_method invalid_address_type : ProtocolError
  invalid_reserved invalid_command invalid_reply empty_methods_list empty_username : ProtocolError
  empty_password frame_too_large invalid_domain_encoding invalid_username_encoding : ProtocolError
  invalid_password_encoding : ProtocolError

-- The `#[error(...)]` texts.
unfoldable pub display : ProtocolError → String
display invalid_version = "Invalid SOCKS version byte"
display invalid_auth_version = "Invalid authentication version byte"
display invalid_auth_method = "Invalid authentication method byte"
display invalid_address_type = "Invalid address type byte"
display invalid_reserved = "Invalid reserved field value"
display invalid_command = "Invalid command byte"
display invalid_reply = "Invalid reply code byte"
display empty_methods_list = "No authentication methods provided"
display empty_username = "Username length is zero"
display empty_password = "Password length is zero"
display frame_too_large = "Frame size exceeds maximum allowed length"
display invalid_domain_encoding = "Invalid domain name field encoding"
display invalid_username_encoding = "Invalid username field encoding"
display invalid_password_encoding = "Invalid password field encoding"

pub data CodecError : Type 0 where
  protocol : ProtocolError → CodecError
  io : IoError → CodecError
