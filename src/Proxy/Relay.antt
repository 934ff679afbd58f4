-- ===== src/Proxy/Relay.antt =====
-- noxen-proxy/src/relay: traffic, the strategies and the tunnels. The copying itself is done by
-- libraries, so `copy_bidirectional` and sockets are arguments.
use zc_splice_proxy.Base.{
  arith, Result, Run, err, if◌then◌else◌, ltb, ok, panics, returns, ℕ, ◌+◌, ◌-◌, ◌<◌, ◌^◌, ◌≡◌, ◌≤◌,
  ◌%◌, Bool-cases, inl, inr, not_ltb→le, refl, ◌⊎◌,
}
use zc_splice_proxy.Std.Io.{IoError}

-- Both counts are `u64`.
pub record Traffic : Type 0 where
  pub tx_bytes : ℕ
  pub rx_bytes : ℕ

unfoldable pub new : ℕ → ℕ → Traffic
new tx rx = record { tx_bytes = tx; rx_bytes = rx }

abbrev saturating_add_u64 : ℕ → ℕ → ℕ
saturating_add_u64 a b = if ltb (a + b) (2 ^ 64) then a + b else 2 ^ 64 - 1

unfoldable pub total : Traffic → ℕ
total t = saturating_add_u64 t.tx_bytes t.rx_bytes

-- `From<(u64, u64)>`.
unfoldable pub from_pair : ℕ × ℕ → Traffic
from_pair (tx, rx) = record { tx_bytes = tx; rx_bytes = rx }

module _ (World Stream : Type 0) where
  pub record TcpRelayStrategy : Type 0 where
    pub relay : Stream → Stream → World → Result Traffic IoError × World

  pub record UdpRelayStrategy (Socket : Type 0) : Type 0 where
    pub relay : Stream → Socket → Socket → World → Run (Result Traffic IoError × World)

-- `?` on what the library's copying gives, and the record of its two counts.
abbrev counted : {World : Type 0} → Result (ℕ × ℕ) IoError × World → Result Traffic IoError × World
counted (ok (tx, rx), w) = (ok (record { tx_bytes = tx; rx_bytes = rx }), w)
counted (err e, w) = (err e, w)

-- `as u64`.
abbrev cast_counts :
    {World : Type 0} → Result Traffic IoError × World → Result Traffic IoError × World
cast_counts (ok t, w) =
    (ok (record { tx_bytes = t.tx_bytes % 2 ^ 64; rx_bytes = t.rx_bytes % 2 ^ 64 }), w)
cast_counts (err e, w) = (err e, w)

module _ {World Stream : Type 0} where
  -- `tokio_splice2::copy_bidirectional`, whose counts are `usize` and cast to `u64`, or
  -- `tokio::io::copy_bidirectional`.
  unfoldable pub splice_relay :
      (Stream → Stream → World → Result (ℕ × ℕ) IoError × World) → TcpRelayStrategy World Stream
  splice_relay copy_bidirectional = record {
    relay =
        λ downstream upstream w. cast_counts (counted (copy_bidirectional downstream upstream w));
  }

  unfoldable pub copy_relay :
      (Stream → Stream → World → Result (ℕ × ℕ) IoError × World) → TcpRelayStrategy World Stream
  copy_relay copy_bidirectional = record {
    relay = λ downstream upstream w. counted (copy_bidirectional downstream upstream w);
  }

  -- `unimplemented!` panics.
  unfoldable pub standard_udp_relay : {Socket : Type 0} → UdpRelayStrategy World Stream Socket
  standard_udp_relay = record { relay = λ control downstream upstream w. panics }

pub record TcpTunnel (TR Stream : Type 0) : Type 0 where
  pub strategy : TR
  pub downstream : Stream
  pub upstream : Stream

pub record UdpTunnel (UR Stream Socket : Type 0) : Type 0 where
  pub strategy : UR
  pub control_connection : Stream
  pub downstream_socket : Socket
  pub upstream_socket : Socket

unfoldable pub new_tcp : {TR Stream : Type 0} → TR → Stream → Stream → TcpTunnel TR Stream
new_tcp strategy downstream upstream = record {
  strategy = strategy;
  downstream = downstream;
  upstream = upstream;
}

unfoldable pub new_udp :
    {UR Stream Socket : Type 0} → UR → Stream → Socket → Socket → UdpTunnel UR Stream Socket
new_udp strategy control_connection downstream_socket upstream_socket = record {
  strategy = strategy;
  control_connection = control_connection;
  downstream_socket = downstream_socket;
  upstream_socket = upstream_socket;
}

pub data Tunnel (TR UR Stream Socket : Type 0) : Type 0 where
  tcp : TcpTunnel TR Stream → Tunnel TR UR Stream Socket
  udp : UdpTunnel UR Stream Socket → Tunnel TR UR Stream Socket

module _ {World Stream : Type 0} where
  unfoldable pub run_tcp :
      TcpTunnel (TcpRelayStrategy World Stream) Stream → World → Result Traffic IoError × World
  run_tcp t w = t.strategy.relay t.downstream t.upstream w

module _ {World Stream Socket : Type 0} where
  unfoldable pub run_udp :
      UdpTunnel (UdpRelayStrategy World Stream Socket) Stream Socket
      → World
      → Run (Result Traffic IoError × World)
  run_udp t w = t.strategy.relay t.control_connection t.downstream_socket t.upstream_socket w

  unfoldable pub run :
      Tunnel (TcpRelayStrategy World Stream) (UdpRelayStrategy World Stream Socket) Stream Socket
      → World
      → Run (Result Traffic IoError × World)
  unfolding run_tcp run_udp
  run (tcp t) w = returns (run_tcp t w)
  run (udp t) w = run_udp t w

-- The total of two `u64` counts is a `u64` that is at least each of them: their sum, or the greatest
-- `u64` if the sum is greater than that.
pub total-bounds :
    (t : Traffic)
    → t.tx_bytes < 2 ^ 64
    → t.rx_bytes < 2 ^ 64
    → (total t < 2 ^ 64)
      × (t.tx_bytes ≤ total t)
      × (t.rx_bytes ≤ total t)
      × ((total t ≡ t.tx_bytes + t.rx_bytes)
          ⊎ ((total t ≡ 2 ^ 64 - 1) × (2 ^ 64 ≤ t.tx_bytes + t.rx_bytes)))
unfolding total
total-bounds t h k = (ground arith, ground arith, ground arith, sum_or_greatest)
  where
    sum_or_greatest :
        (total t ≡ t.tx_bytes + t.rx_bytes)
        ⊎ ((total t ≡ 2 ^ 64 - 1) × (2 ^ 64 ≤ t.tx_bytes + t.rx_bytes))
    sum_or_greatest = elim (Bool-cases (ltb (t.tx_bytes + t.rx_bytes) (2 ^ 64))) [
      | inl e ↦ inl (rw e refl)
      | inr e ↦ inr (rw e refl, not_ltb→le (t.tx_bytes + t.rx_bytes) (2 ^ 64) e)
    ]
