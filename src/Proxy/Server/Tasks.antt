-- ===== src/Proxy/Server/Tasks.antt =====
-- `Handler::run` and `run` of noxen-proxy/src/server/mod.rs together: a connection's course as events
-- of the server.
pub mod Steps
use zc_splice_proxy.Proxy.Server.Tasks.Steps.{relay_event}
use zc_splice_proxy.Base.{
  Bool, List, Option, Result, [], remove_at, some, ℕ, ◌∷◌, ◌≡◌, false, none, suc, true,
}
use zc_splice_proxy.Std.Io.{IoError}
use zc_splice_proxy.Proxy.Handler.{Os, Action, Socks5Context}
use zc_splice_proxy.Proxy.Server.{
  Served, negotiation_shut_down, negotiation_failed, request_shut_down, request_failed, relayed,
}
use zc_splice_proxy.Proxy.Server.Semaphore.{Semaphore}
use zc_splice_proxy.Proxy.Server.Moves.{IsOpen, Moves}
use zc_splice_proxy.Proxy.Server.Listener.{
  Stage, draining, Event, phase_completed, phase_failed, phase_interrupted, Server,
}

module _ {os : Os} {TR UR : Type 0} {ctx : Socks5Context os TR UR} where
  -- The events of the connection at an index.
  abbrev pub events_of :
      {acts : List (Action os)} {r : Result (Unit {0}) IoError} → Served ctx acts r → ℕ → List Event
  events_of (negotiation_shut_down acts s) i = phase_interrupted i ∷ []
  events_of (negotiation_failed acts e s) i = phase_failed i ∷ []
  events_of (request_shut_down before acts h s s') i = phase_completed i ∷ phase_interrupted i ∷ []
  events_of (request_failed before acts h e s s') i = phase_completed i ∷ phase_failed i ∷ []
  events_of (relayed before acts h tunnel traffic s s') i =
      phase_completed i ∷ phase_completed i ∷ relay_event i traffic ∷ []

  -- Where the server must stand: it drains, where the connection is cut short, and has not returned
  -- otherwise.
  abbrev pub MayGo :
      {acts : List (Action os)} {r : Result (Unit {0}) IoError} → Served ctx acts r → Stage → Type 0
  MayGo (negotiation_shut_down acts s) stage = stage ≡ draining
  MayGo (request_shut_down before acts h s s') stage = stage ≡ draining
  MayGo (negotiation_failed acts e s) stage = IsOpen stage
  MayGo (request_failed before acts h e s s') stage = IsOpen stage
  MayGo (relayed before acts h tunnel traffic s s') stage = IsOpen stage

module _ (sem : Semaphore) where
  -- What becomes of a permit: it is available again, if the connection took one along.
  pub data Freed : Bool → Option sem.State → Option sem.State → Type 0 where
    released : (st : sem.State) → Freed true (some st) (some (sem.release st))
    none_to_release : (limiter : Option sem.State) → Freed false limiter limiter
    unlimited : (permit : Bool) → Freed permit none none

  -- From a server with a connection at an index to one without: its permit is free, its sender is
  -- dropped, and nothing else has changed.
  pub record Leaves (i : ℕ) (permit : Bool) (s t : Server sem) : Type 0 where
    pub others : t.connections ≡ remove_at i s.connections
    pub same_stage : t.stage ≡ s.stage
    pub free : Freed permit s.limit_connections t.limit_connections
    pub one_sender_less : suc t.shutdown_complete ≡ s.shutdown_complete
