-- ===== src/Socks5.antt =====
-- noxen-socks5: the protocol's types, messages and server-side codecs.
pub mod Error
pub mod AuthMethod
pub mod AuthStatus
pub mod AddressType
pub mod Command
pub mod Reply
pub mod Address
pub mod Messages
pub mod Codec
