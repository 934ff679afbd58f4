-- ===== src/HappyEyeballs.antt =====
-- noxen-proxy/src/net/happy_eyeballs.rs: connecting to a host by name, over both address families.
pub mod Config
pub mod Addresses
pub mod Interleave
pub mod Race
pub mod Resolve
pub mod Connect
pub mod Builder
pub mod Clock
