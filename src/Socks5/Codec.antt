-- ===== src/Socks5/Codec.antt =====
-- noxen-socks5/src/codecs/server.rs: one module for each codec, over the shared byte buffer.
pub mod Buffer
pub mod Answers
pub mod Greeting
pub mod Auth
pub mod Request
