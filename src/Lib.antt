-- ===== src/Lib.antt =====
-- Verification of the SOCKS5 proxy: the protocol library noxen-socks5 and the proxy noxen-proxy.
--
-- A client's bytes reach a framed stream, whose codec (noxen-socks5/src/codecs/server.rs) cuts
-- them into messages (noxen-socks5/src/messages.rs, types.rs). The handler of a connection
-- (noxen-proxy/src/handler/socks5/state.rs) negotiates a method, has the credentials checked by the
-- provider (noxen-proxy/src/auth/auth_provider.rs), and answers a request: it connects to an
-- address, or to a host by Happy Eyeballs (noxen-proxy/src/net/happy_eyeballs.rs), or waits for a
-- connection. Failures become reply codes (noxen-proxy/src/handler/socks5/error.rs); a success is a
-- tunnel between two streams (noxen-proxy/src/relay). The server (noxen-proxy/src/server/mod.rs)
-- accepts connections under a limit, spawns a handler for each, and drains them when it is shut
-- down; noxen-proxy/src/main.rs starts it with the configuration and the static provider.
--
-- Where things are:
-- - Base: names shared by all modules, Boolean tests, lists measured by native numbers, `Result`,
--   and `Run` for code that may panic.
-- - Std: what is used of the standard library: errors of input and output, UTF-8, addresses.
-- - Socks5: types, messages and errors; a module per enumeration with its `code` and `try_from`.
-- - Socks5/Codec: `Greeting`, `Auth` and `Request` stand for `GreetingCodec`, `AuthCodec` and
--   `RequestResponseCodec`; `decode` takes the buffer and gives the result with the buffer left,
--   `encode` takes the message and the buffer. `Answers` is the contract of a decoder. The children
--   of each codec hold its theorems.
-- - HappyEyeballs: `Config` (settings, `build`), `Builder` (setters, global connector), `Addresses`
--   (`ResolvedAddresses`, the sort, and in `Preference` what it prefers), `Interleave` (the iterator), `Resolve`
--   (`resolve_with_delay`), `Race` (`connect_to_addresses`), `Connect` (`connect`). `Race/Timed` is
--   the race by the clock, with `connect_with_timeout`; its events, its time, its courses and its
--   result are in `Schedule`, `Deadline`, `Progress` and `Reaches` beside it.
--   `Clock` is `connect` by the clock, lookups included.
-- - Proxy: `Auth`, `Config`, `Relay`, `Failure` (`Socks5Error`), `Handler`. In `Handler/Phases` are
--   `negotiate` and `authenticate` (here `authenticate_client`), in `Handler/Requests` `handle` and
--   what it calls; `Handler/Courses`, `Handler/Outcomes` and `Handler/Handling` say what these may do. `Server` is
--   `Handler::run` of noxen-proxy/src/server/mod.rs, with the shutdown that may cut it short;
--   `Server/Listener` is `Listener::run` and `run`, `Server/Moves` what they may change,
--   `Server/Permits`, `Server/Senders` and `Server/Draining` what follows, and `Server/Tasks` joins them with
--   `Handler::run`. `Server/Promise` is an abstract server that only counts its connections.
--   `Server/Semaphore` is what they rely on of the library's semaphore, with a counter that has
--   these laws. `Main` is noxen-proxy/src/main.rs up to the start of the server,
--   `Telemetry` the set-up of logging.
-- - Tests: the theorems at concrete values; `Tests/Unit` holds the repository's unit tests.
--
-- How code is modelled:
-- - Bytes, ports and strings are native numbers and lists of them; that bytes are below 256 and
--   ports below 65536 is a hypothesis where it matters. Casts to `u8`, `u16` and `u64` are written
--   out. Log lines and reserved capacity are left out.
-- - An index, a slice, `advance`, `expect` and `unreachable!` give `panics` where Rust panics.
-- - What the network, the resolver and the clock do in Happy Eyeballs is a list of events, or a
--   record of what each wait gives. `run` is recursion on the events, of which twice as many as
--   there are addresses are enough. By the clock, what a connection comes to and when is a function
--   of its address and port, a lookup has a time and a result, and `Course` relates a race to its
--   events, its time and its result; attempts that end at the same moment may be seen in any order.
-- - The server is a machine: what may happen next is an event, `step` gives `none` where it cannot
--   happen, and a connection is a phase and whether it took a permit along. The senders that hold the
--   drain up are counted as they are cloned and dropped. How long the drain may last is an event too.
-- - `slice::sort_by_key` of the standard library is the stable sort by insertion.
-- - `collect` draws from the iterator with a unit of fuel for each address and one more.
-- - The handler is a tree of calls (`Task`): each call names what is done to the world outside, and
--   each answer has its own way on. `Always` says that a property holds of the calls made and of
--   the result whatever the answers are; `execute` runs a task with a state that answers.
-- - The framed stream, sockets, the resolver, the copying of data and the loading of the
--   configuration belong to libraries: they are answers, events or arguments.
--
-- Not modelled: log lines, cancellation of a handler in the middle of a call, the panic of the
-- library's semaphore above its greatest number of permits.
pub mod Base
pub mod Std
pub mod Socks5
pub mod HappyEyeballs
pub mod Proxy
pub mod Tests
