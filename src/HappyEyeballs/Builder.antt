-- ===== src/HappyEyeballs/Builder.antt =====
-- The setters of `HappyEyeballsConnectorBuilder`, and the global connector. Each setter takes the
-- builder and gives it back changed.
use zc_splice_proxy.Base.{List, Result, Run, err, ok, panics, returns, some, ℕ, ◌>>=◌}
use zc_splice_proxy.Std.Io.{Text}
use zc_splice_proxy.Std.Utf8.{Bytes}
use zc_splice_proxy.HappyEyeballs.Config.{
  HappyEyeballsConnectorBuilder, HappyEyeballsConnector, new,
}
use zc_splice_proxy.HappyEyeballs.Resolve.{Dns}
use zc_splice_proxy.HappyEyeballs.Race.{Event, Outcome}
use zc_splice_proxy.HappyEyeballs.Connect

module _ {Resolver : Type 0} where
  unfoldable pub resolver :
      HappyEyeballsConnectorBuilder Resolver → Resolver → HappyEyeballsConnectorBuilder Resolver
  resolver b r = record b { resolver = some r }

  unfoldable pub resolution_delay :
      HappyEyeballsConnectorBuilder Resolver → ℕ → HappyEyeballsConnectorBuilder Resolver
  resolution_delay b delay = record b { resolution_delay = some delay }

  unfoldable pub connect_timeout :
      HappyEyeballsConnectorBuilder Resolver → ℕ → HappyEyeballsConnectorBuilder Resolver
  connect_timeout b timeout = record b { connect_timeout = some timeout }

  unfoldable pub connection_attempt_delay :
      HappyEyeballsConnectorBuilder Resolver → ℕ → HappyEyeballsConnectorBuilder Resolver
  connection_attempt_delay b delay = record b { connection_attempt_delay = some delay }

  unfoldable pub first_address_family_timeout :
      HappyEyeballsConnectorBuilder Resolver → ℕ → HappyEyeballsConnectorBuilder Resolver
  first_address_family_timeout b timeout = record b { first_address_family_timeout = some timeout }

  -- `DEFAULT_CONNECTOR`: `expect` panics if the system's configuration cannot be read, which `system`
  -- says.
  unfoldable pub default_connector : Result Resolver Text → Run (HappyEyeballsConnector Resolver)
  default_connector system = elim (new system) [ ok connector ↦ returns connector | err e ↦ panics ]

  -- The function `connect`: a connection by the global connector, whose resolver gives `dns`.
  unfoldable pub connect :
      {Stream : Type 0}
      → Result Resolver Text
      → (Resolver → Dns)
      → Bytes
      → ℕ
      → List (Event Stream)
      → Run (Outcome Stream)
  unfolding default_connector
  connect system dns hostname port events = do
    connector ← default_connector system
    Connect.connect (dns connector.resolver) hostname port events
