-- ===== src/Proxy/Server/Draining.antt =====
-- The end of `run` of noxen-proxy/src/server/mod.rs, after its loop.
use zc_splice_proxy.Base.{
  nil_of_length, arith, List, Option, [], get_elem?-lt-length, length, length-remove_at, length-set,
  refl, some, subst, true, ℕ, ◌∷◌, ◌≡◌, ◌≤◌, Bool, ap, suc, sym, false,
}
use zc_splice_proxy.Proxy.Config.{ServerConfig}
use zc_splice_proxy.Proxy.Server.Semaphore.{Semaphore}
use zc_splice_proxy.Proxy.Server.Senders.{Owned, run-Owned}
use zc_splice_proxy.Proxy.Server.Listener.{
  Phase, negotiating, requesting, relaying, Connection, Stage, acquiring, accepting, draining,
  closed, Event, phase_completed, phase_interrupted, connections_completed, Server, start, step,
  run, drop_permit,
}
use zc_splice_proxy.Proxy.Server.Moves.{
  Move, takes, accepts, leaves_waiting, leaves_accepting, fails_to_accept, goes_on, ends, completes,
  times_out, run_ind,
}

Owned-closed :
    (stage : Stage) (cs : List Connection) (senders : ℕ)
    → stage ≡ closed true
    → Owned stage cs senders
    → length cs ≡ 0
Owned-closed acquiring cs senders over h = absurd cc
Owned-closed (accepting permit) cs senders over h = absurd cc
Owned-closed draining cs senders over h = absurd cc
Owned-closed (closed true) cs senders over h = h.1
Owned-closed (closed false) cs senders over h = absurd cc

Owned-draining :
    (stage : Stage) (cs : List Connection) (senders : ℕ)
    → stage ≡ draining
    → Owned stage cs senders
    → senders ≡ length cs
Owned-draining acquiring cs senders left h = absurd cc
Owned-draining (accepting permit) cs senders left h = absurd cc
Owned-draining draining cs senders left h = h
Owned-draining (closed graceful) cs senders left h = absurd cc

abbrev pub HasLeft : Stage → Type 0
HasLeft draining = Unit {0}
HasLeft (closed graceful) = Unit {0}
HasLeft acquiring = ⊥
HasLeft (accepting permit) = ⊥

module _ (sem : Semaphore) where
  -- When the server, after any run, reports that all connections were closed gracefully, there is none
  -- left.
  pub graceful_end :
      (config : ServerConfig) (events : List Event) (s : Server sem)
      → run sem (start sem config) events ≡ some s
      → s.stage ≡ closed true
      → s.connections ≡ []
  graceful_end config events s e over = nil_of_length s.connections (
      Owned-closed s.stage s.connections s.shutdown_complete over (run-Owned sem config events s e))

  Move-HasLeft :
      (n : ℕ) {event : Event} {limiter limiter' : Option sem.State} {stage stage' : Stage}
      {cs cs' : List Connection} {senders senders' : ℕ}
      → Move sem event limiter stage cs senders limiter' stage' cs' senders'
      → HasLeft stage × (length cs ≤ n)
      → HasLeft stage' × (length cs' ≤ n)
  Move-HasLeft n (takes g) h = absurd h.0
  Move-HasLeft n accepts h = absurd h.0
  Move-HasLeft n leaves_waiting h = absurd h.0
  Move-HasLeft n leaves_accepting h = absurd h.0
  Move-HasLeft n fails_to_accept h = absurd h.0
  Move-HasLeft n (goes_on {cs} i c phase o found) h =
      (h.0, omega (arith, h.1, length-set cs i (record c { phase = phase })))
  Move-HasLeft n (ends {cs} i c o found how) h =
      (h.0, omega (arith, h.1, length-remove_at i cs (get_elem?-lt-length cs i c found)))
  Move-HasLeft n completes h = (tt, h.1)
  Move-HasLeft n times_out h = (tt, h.1)

  -- Once the loop has been left no connection is accepted any more.
  pub no_more_connections :
      (s t : Server sem) (events : List Event)
      → s.stage ≡ draining
      → run sem s events ≡ some t
      → HasLeft t.stage × (length t.connections ≤ length s.connections)
  no_more_connections s t events left e =
      run_ind sem (λ u. HasLeft u.stage × (length u.connections ≤ length s.connections))
        (λ event s t m. Move-HasLeft _ m) s t events e (rw left (tt, omega arith))

  -- The events in which each connection ends in its turn.
  abbrev pub last_event : Phase → Event
  last_event negotiating = phase_interrupted 0
  last_event requesting = phase_interrupted 0
  last_event relaying = phase_completed 0

  abbrev pub last_events : List Connection → List Event
  last_events [] = connections_completed ∷ []
  last_events (c ∷ cs) = last_event c.phase ∷ last_events cs

  -- A run of these events to a graceful end.
  abbrev pub Drains : Server sem → Type 0
  Drains s =
      (t : Server sem) × (run sem s (last_events s.connections) ≡ some t) × (t.stage ≡ closed true)

  abbrev at : Option sem.State → List Connection → Server sem
  at limiter cs = record {
    limit_connections = limiter;
    stage = draining;
    connections = cs;
    shutdown_complete = length cs;
  }

  drain_next :
      (limiter : Option sem.State) (phase : Phase) (permit : Bool) (cs : List Connection)
      → Drains (at (drop_permit sem permit limiter) cs)
      → Drains (at limiter (record { phase = phase; permit = permit } ∷ cs))
  unfolding run step
  drain_next limiter negotiating permit cs h = h
  drain_next limiter requesting permit cs h = h
  drain_next limiter relaying permit cs h = h

  drain_from : (limiter : Option sem.State) (cs : List Connection) → Drains (at limiter cs)
  unfolding run step
  drain_from limiter [] = (_, refl, refl)
  drain_from limiter (c ∷ cs) =
      drain_next limiter c.phase c.permit cs (drain_from (drop_permit sem c.permit limiter) cs)

  -- A server that has come to drain can always reach its graceful end: connections that negotiate or process a
  -- request are interrupted, relays complete, and after one event for each the server closes.
  pub drains :
      (config : ServerConfig) (events : List Event) (s : Server sem)
      → run sem (start sem config) events ≡ some s
      → s.stage ≡ draining
      → Drains s × (length (last_events s.connections) ≡ suc (length s.connections))
  drains config events s e left = (
    subst (λ stage. Drains (record s { stage = stage })) (sym left)
        (subst (λ n. Drains (record s { stage = draining; shutdown_complete = n }))
          (sym (
            Owned-draining s.stage s.connections s.shutdown_complete left
              (run-Owned sem config events s e)))
          (drain_from s.limit_connections s.connections)),
    count s.connections,
  )
    where
      count : (cs : List Connection) → length (last_events cs) ≡ suc (length cs)
      count [] = refl
      count (c ∷ cs) = ap suc (count cs)
