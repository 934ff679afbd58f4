-- ===== src/HappyEyeballs/Config.antt =====
-- `HappyEyeballsError`, `HappyEyeballsConfig` and `HappyEyeballsConnectorBuilder`. Durations are in
-- milliseconds. A `ResolveError` of the resolver's library is the text that it displays.
use zc_splice_proxy.Base.{List, Option, none, some, ℕ, ◌*◌, Result, arith, err, ok, ◌≡◌}
use zc_splice_proxy.Std.Utf8.{Bytes}
use zc_splice_proxy.Std.Io.{IoError, Text}

pub data HappyEyeballsError : Type 0 where
  io : IoError → HappyEyeballsError
  dns_resolution : Text → HappyEyeballsError
  timeout : HappyEyeballsError
  no_addresses_resolved : Bytes → HappyEyeballsError
  all_attempts_failed : List IoError → HappyEyeballsError

pub record HappyEyeballsConfig : Type 0 where
  pub resolution_delay : ℕ
  pub connection_attempt_delay : ℕ
  pub connect_timeout : ℕ
  pub first_address_family_timeout : ℕ

unfoldable pub default : HappyEyeballsConfig
default = record {
  resolution_delay = 50;
  connection_attempt_delay = 250;
  connect_timeout = 10 * 1000;
  first_address_family_timeout = 5 * 1000;
}

abbrev unwrap_or {ℓ} : {A : Type ℓ} → Option A → A → A
unwrap_or none d = d
unwrap_or (some a) d = a

-- The resolver is a value of the resolver's library.
pub record HappyEyeballsConnectorBuilder (Resolver : Type 0) : Type 0 where
  pub resolver : Option Resolver
  pub resolution_delay : Option ℕ
  pub connection_attempt_delay : Option ℕ
  pub connect_timeout : Option ℕ
  pub first_address_family_timeout : Option ℕ

pub record HappyEyeballsConnector (Resolver : Type 0) : Type 0 where
  pub resolver : Resolver
  pub config : HappyEyeballsConfig

-- `system` is what `Resolver::builder_tokio()?.build()` gives.
module _ {Resolver : Type 0} (system : Result Resolver Text) where
  abbrev chosen_resolver : Option Resolver → Result Resolver HappyEyeballsError
  chosen_resolver (some r) = ok r
  chosen_resolver none = elim system [ ok r ↦ ok r | err e ↦ err (dns_resolution e) ]

  unfoldable pub build :
      HappyEyeballsConnectorBuilder Resolver
      → Result (HappyEyeballsConnector Resolver) HappyEyeballsError
  unfolding default
  build b = elim (chosen_resolver b.resolver) [
    | err e ↦ err e
    | ok r ↦ ok (record {
      resolver = r;
      config = record {
        resolution_delay = unwrap_or b.resolution_delay default.resolution_delay;
        connection_attempt_delay =
            unwrap_or b.connection_attempt_delay default.connection_attempt_delay;
        connect_timeout = unwrap_or b.connect_timeout default.connect_timeout;
        first_address_family_timeout =
            unwrap_or b.first_address_family_timeout default.first_address_family_timeout;
      };
    })
  ]

  unfoldable pub new : Result (HappyEyeballsConnector Resolver) HappyEyeballsError
  new = elim system [
    | err e ↦ err (dns_resolution e)
    | ok r ↦ ok (record { resolver = r; config = default })
  ]

  abbrev pub builder : HappyEyeballsConnectorBuilder Resolver
  builder = record {
    resolver = none;
    resolution_delay = none;
    connection_attempt_delay = none;
    connect_timeout = none;
    first_address_family_timeout = none;
  }

  -- A builder on which nothing was set builds what `new` makes.
  pub build-builder : build builder ≡ new
  unfolding build new
  build-builder = ground arith
