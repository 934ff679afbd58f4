-- ===== src/Proxy/Server/Listener.antt =====
-- `Listener::run` and `run` of noxen-proxy/src/server/mod.rs, with the connections that they spawn:
-- what may happen next is an event, and an event that cannot happen gives `none`.
use zc_splice_proxy.Base.{
  false, Bool, List, Option, [], get_elem?, if◌then◌else◌, ltb, none, remove_at, set, some, true, ℕ,
  ◌++◌, ◌∷◌, suc, zero,
}
use zc_splice_proxy.Std.Io.{IoError}
use zc_splice_proxy.Proxy.Config.{ServerConfig}
use zc_splice_proxy.Proxy.Server.Semaphore.{Semaphore}

-- The `await` that a spawned `Handler::run` stands at.
pub data Phase : Type 0 where
  negotiating requesting relaying : Phase

-- A spawned task: its phase, and whether it took a permit along.
pub record Connection : Type 0 where
  pub phase : Phase
  pub permit : Bool

-- Where `run` stands: in the loop of `Listener::run`, waiting for a permit or (with a permit, if
-- there are any) for a connection; behind it, with its senders dropped, waiting for the connections;
-- or returned, with or without having seen the last one end.
pub data Stage : Type 0 where
  acquiring : Stage
  accepting : (permit : Bool) → Stage
  draining : Stage
  closed : (graceful : Bool) → Stage

pub data Event : Type 0 where
  permit_acquired : Event
  accepted : Event
  accept_failed : IoError → Event
  shutdown_received : Event
  phase_completed : ℕ → Event
  phase_failed : ℕ → Event
  phase_panicked : ℕ → Event
  phase_interrupted : ℕ → Event
  connections_completed : Event
  shutdown_timed_out : Event

-- `drop` of one of the live senders of a channel.
abbrev pub drop_sender : ℕ → ℕ
drop_sender zero = zero
drop_sender (suc senders) = senders

module _ (sem : Semaphore) where
  -- `shutdown_complete` counts the live senders of the channel `shutdown_complete_tx`: the one that
  -- `Listener` owns, and a clone in each spawned `Handler`.
  pub record Server : Type 0 where
    pub limit_connections : Option sem.State
    pub stage : Stage
    pub connections : List Connection
    pub shutdown_complete : ℕ

  -- `Semaphore::new`, whose panic above `MAX_PERMITS` is left out.
  abbrev pub limiter_for : ℕ → Option sem.State
  limiter_for max_connections =
      if ltb 0 max_connections then some (sem.new max_connections) else none

  unfoldable pub start : ServerConfig → Server
  start config = record {
    limit_connections = limiter_for config.max_connections;
    stage = acquiring;
    connections = [];
    shutdown_complete = 1;
  }

  -- `drop(permit)` of an `Option<OwnedSemaphorePermit>`.
  abbrev pub drop_permit : Bool → Option sem.State → Option sem.State
  drop_permit true (some st) = some (sem.release st)
  drop_permit _ limiter = limiter

  -- The head of the loop.
  abbrev pub take_permit : Server → Option Server
  take_permit s = elim s.limit_connections [
    | none ↦ some (record s { stage = accepting false })
    | some st ↦ elim (sem.acquire st) [
      | none ↦ none
      | some st' ↦ some (record s { limit_connections = some st'; stage = accepting true })
    ]
  ]

  -- `select!` ends the loop: what it holds is dropped, and so is the sender that `Listener` owns.
  abbrev pub leave_loop : Bool → Server → Server
  leave_loop permit s = record s {
    limit_connections = drop_permit permit s.limit_connections;
    stage = draining;
    shutdown_complete = drop_sender s.shutdown_complete;
  }

  -- The end of a spawned task, also by a panic, which unwinds the task alone: what it holds is
  -- dropped, the sender of its `Handler` and the permit.
  abbrev pub finish : ℕ → Connection → Server → Server
  finish i c s = record s {
    limit_connections = drop_permit c.permit s.limit_connections;
    connections = remove_at i s.connections;
    shutdown_complete = drop_sender s.shutdown_complete;
  }

  abbrev pub complete : ℕ → Connection → Server → Server
  complete i c s = elim c.phase [
    | negotiating ↦ record s { connections = set s.connections i (record c { phase = requesting }) }
    | requesting ↦ record s { connections = set s.connections i (record c { phase = relaying }) }
    | relaying ↦ finish i c s
  ]

  -- An event of the task at an index; there is none once `run` has returned.
  abbrev pub of_connection :
      (Connection → Option Server) → Stage → Option Connection → Option Server
  of_connection f (closed graceful) c = none
  of_connection f stage none = none
  of_connection f stage (some c) = f c

  -- `shutdown.recv()` is ready when the senders are dropped, and the relay does not listen to it.
  abbrev pub interrupt : ℕ → Server → Stage → Phase → Connection → Option Server
  interrupt i s draining negotiating c = some (finish i c s)
  interrupt i s draining requesting c = some (finish i c s)
  interrupt i s _ _ c = none

  abbrev pub on_permit_acquired : Server → Stage → Option Server
  on_permit_acquired s acquiring = take_permit s
  on_permit_acquired s _ = none

  abbrev pub on_accepted : Server → Stage → Option Server
  on_accepted s (accepting permit) = some (record s {
    stage = acquiring;
    connections = s.connections ++ (record { phase = negotiating; permit = permit } ∷ []);
    shutdown_complete = suc s.shutdown_complete;
  })
  on_accepted s _ = none

  -- `accept().await?` gives its error to `run`, which logs it and goes on to drain.
  abbrev pub on_accept_failed : Server → Stage → Option Server
  on_accept_failed s (accepting permit) = some (leave_loop permit s)
  on_accept_failed s _ = none

  abbrev pub on_shutdown_received : Server → Stage → Option Server
  on_shutdown_received s acquiring = some (leave_loop false s)
  on_shutdown_received s (accepting permit) = some (leave_loop permit s)
  on_shutdown_received s _ = none

  -- `shutdown_complete_rx.recv()` waits while a sender lives, and gives `None` when there is none;
  -- nothing is ever sent. `timeout` looks at it first.
  abbrev pub on_connections_completed : Server → Stage → ℕ → Option Server
  on_connections_completed s draining zero = some (record s { stage = closed true })
  on_connections_completed s _ _ = none

  abbrev pub on_shutdown_timed_out : Server → Stage → ℕ → Option Server
  on_shutdown_timed_out s draining (suc senders) = some (record s { stage = closed false })
  on_shutdown_timed_out s _ _ = none

  unfoldable pub step : Server → Event → Option Server
  step s permit_acquired = on_permit_acquired s s.stage
  step s accepted = on_accepted s s.stage
  step s (accept_failed e) = on_accept_failed s s.stage
  step s shutdown_received = on_shutdown_received s s.stage
  step s (phase_completed i) =
      of_connection (λ c. some (complete i c s)) s.stage (get_elem? s.connections i)
  step s (phase_failed i) =
      of_connection (λ c. some (finish i c s)) s.stage (get_elem? s.connections i)
  step s (phase_panicked i) =
      of_connection (λ c. some (finish i c s)) s.stage (get_elem? s.connections i)
  step s (phase_interrupted i) =
      of_connection (λ c. interrupt i s s.stage c.phase c) s.stage (get_elem? s.connections i)
  step s connections_completed = on_connections_completed s s.stage s.shutdown_complete
  step s shutdown_timed_out = on_shutdown_timed_out s s.stage s.shutdown_complete

  abbrev pub and_then : Option Server → (Server → Option Server) → Option Server
  and_then none f = none
  and_then (some s) f = f s

  unfoldable pub run : Server → List Event → Option Server
  unfolding step
  run s [] = some s
  run s (event ∷ events) = and_then (step s event) (λ s'. run s' events)
