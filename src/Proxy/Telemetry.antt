-- ===== src/Proxy/Telemetry.antt =====
-- noxen-proxy/src/telemetry.rs: the subscriber for log lines. Filters and writers are the logging
-- library's.
use zc_splice_proxy.Base.{Bool, Result, Run, err, false, ok, panics, returns, true}
use Prim.Native.String.{String}

-- The layers of the subscriber.
pub record Subscriber (EnvFilter Writer : Type 0) : Type 0 where
  pub env_filter : EnvFilter
  pub writer : Writer
  pub with_target : Bool
  pub compact : Bool

module _ {EnvFilter Writer E : Type 0} where
  -- The filter of the environment, or else the given one. `from_env` is what `try_from_default_env`
  -- gives.
  unfoldable pub get_subscriber :
      Result EnvFilter E → (String → EnvFilter) → String → Writer → Subscriber EnvFilter Writer
  get_subscriber from_env new env_filter writer = record {
    env_filter = elim from_env [ ok filter ↦ filter | err e ↦ new env_filter ];
    writer = writer;
    with_target = false;
    compact = true;
  }

  unfoldable pub init_subscriber :
      (Subscriber EnvFilter Writer → Result (Unit {0}) E)
      → Subscriber EnvFilter Writer
      → Run (Unit {0})
  init_subscriber set_global_default subscriber = elim (set_global_default subscriber) [
    | ok done ↦ returns tt
    | err e ↦ panics
  ]
