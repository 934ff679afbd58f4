-- ===== src/Proxy.antt =====
-- noxen-proxy: authentication, relaying, errors and the handler of a connection.
pub mod Auth
pub mod Config
pub mod Relay
pub mod Failure
pub mod Handler
pub mod Main
pub mod Server
pub mod Telemetry
