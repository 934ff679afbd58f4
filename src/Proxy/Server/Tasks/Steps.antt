-- ===== src/Proxy/Server/Tasks/Steps.antt =====
-- The steps of one connection inside the server of noxen-proxy/src/server/mod.rs.
use zc_splice_proxy.Base.{
  Bool, List, Option, Result, [], err, get_elem?, ok, refl, remove_at, some, ℕ, ◌∷◌, ◌≡◌, ap,
  get_elem?-set, remove_at-set, set, ◌∙◌,
}
use zc_splice_proxy.Std.Io.{IoError}
use zc_splice_proxy.Proxy.Relay.{Traffic}
use zc_splice_proxy.Proxy.Server.Semaphore.{Semaphore}
use zc_splice_proxy.Proxy.Server.Moves.{IsOpen}
use zc_splice_proxy.Proxy.Server.Listener.{
  Phase, negotiating, requesting, relaying, Connection, Stage, acquiring, accepting, draining,
  closed, Event, phase_completed, phase_failed, phase_interrupted, Server, drop_permit, drop_sender,
  complete, finish, interrupt, of_connection, step, and_then, run,
}

-- How the relay ends.
abbrev pub relay_event : ℕ → Result Traffic IoError → Event
relay_event i (ok traffic) = phase_completed i
relay_event i (err e) = phase_failed i

module _ (sem : Semaphore) where
  abbrev pub at : ℕ → Option sem.State → Stage → List Connection → Server sem
  at n limiter stage cs = record {
    limit_connections = limiter;
    stage = stage;
    connections = cs;
    shutdown_complete = n;
  }

  after :
      (s u : Server sem) (event : Event) (events : List Event)
      → step sem s event ≡ some u
      → run sem s (event ∷ events) ≡ run sem u events
  unfolding run
  after s u event events e = rw (and_then, e) refl

  open_connection :
      (f : Connection → Option (Server sem)) (stage : Stage) (cs : List Connection) (i : ℕ)
      (c : Connection)
      → IsOpen stage
      → get_elem? cs i ≡ some c
      → of_connection sem f stage (get_elem? cs i) ≡ f c
  open_connection f acquiring cs i c o e = rw e refl
  open_connection f (accepting permit) cs i c o e = rw e refl
  open_connection f draining cs i c o e = rw e refl
  open_connection f (closed graceful) cs i c o e = absurd o

  module _ (n : ℕ) (limiter : Option sem.State) (stage : Stage) (i : ℕ) (permit : Bool)
      (open_stage : IsOpen stage) where
    abbrev pub in_phase : Phase → Connection
    in_phase phase = record { phase = phase; permit = permit }

    -- The server without the connection.
    abbrev pub gone : List Connection → Server sem
    gone cs = at (drop_sender n) (drop_permit sem permit limiter) stage (remove_at i cs)

    completes_here :
        (cs : List Connection) (phase : Phase) (events : List Event)
        → get_elem? cs i ≡ some (in_phase phase)
        → run sem (at n limiter stage cs) (phase_completed i ∷ events)
          ≡ run sem (complete sem i (in_phase phase) (at n limiter stage cs)) events
    unfolding step
    completes_here cs phase events e = after (at n limiter stage cs) _ (phase_completed i) events (
        open_connection (λ c. some (complete sem i c (at n limiter stage cs))) stage cs i
          (in_phase phase) open_stage e)

    pub fails_here :
        (cs : List Connection) (phase : Phase)
        → get_elem? cs i ≡ some (in_phase phase)
        → run sem (at n limiter stage cs) (phase_failed i ∷ []) ≡ some (gone cs)
    unfolding step run
    fails_here cs phase e = after (at n limiter stage cs) _ (phase_failed i) [] (
        open_connection (λ c. some (finish sem i c (at n limiter stage cs))) stage cs i
          (in_phase phase) open_stage e)

    -- The connections after one of them has gone on to another phase.
    abbrev moved_on : List Connection → Phase → List Connection
    moved_on cs phase = set cs i (in_phase phase)

    found_again :
        (cs : List Connection) (before phase : Phase)
        → get_elem? cs i ≡ some (in_phase before)
        → get_elem? (moved_on cs phase) i ≡ some (in_phase phase)
    found_again cs before phase e = get_elem?-set cs i (in_phase before) (in_phase phase) e

    gone-moved_on :
        (cs : List Connection) (phase : Phase) → some (gone (moved_on cs phase)) ≡ some (gone cs)
    gone-moved_on cs phase =
        ap (λ rest. some (at (drop_sender n) (drop_permit sem permit limiter) stage rest))
          (remove_at-set cs i (in_phase phase))

    relay_ends :
        (cs : List Connection) (traffic : Result Traffic IoError)
        → get_elem? cs i ≡ some (in_phase relaying)
        → run sem (at n limiter stage cs) (relay_event i traffic ∷ []) ≡ some (gone cs)
    unfolding run
    relay_ends cs (ok t) e = completes_here cs relaying [] e
    relay_ends cs (err x) e = fails_here cs relaying e

    pub request_fails :
        (cs : List Connection)
        → get_elem? cs i ≡ some (in_phase negotiating)
        → run sem (at n limiter stage cs) (phase_completed i ∷ phase_failed i ∷ []) ≡ some (gone cs)
    request_fails cs e =
        completes_here cs negotiating (phase_failed i ∷ []) e
        ∙ fails_here (moved_on cs requesting) requesting (found_again cs negotiating requesting e)
        ∙ gone-moved_on cs requesting

    pub relays :
        (cs : List Connection) (traffic : Result Traffic IoError)
        → get_elem? cs i ≡ some (in_phase negotiating)
        → run sem
            (at n limiter stage cs)
            (phase_completed i ∷ phase_completed i ∷ relay_event i traffic ∷ [])
          ≡ some (gone cs)
    relays cs traffic e =
        let here = found_again cs negotiating requesting e in
        let there = found_again (moved_on cs requesting) requesting relaying here in
        completes_here cs negotiating (phase_completed i ∷ relay_event i traffic ∷ []) e
        ∙ completes_here (moved_on cs requesting) requesting (relay_event i traffic ∷ []) here
        ∙ relay_ends (moved_on (moved_on cs requesting) relaying) traffic there
        ∙ gone-moved_on (moved_on cs requesting) relaying
        ∙ gone-moved_on cs requesting

  module _ (n : ℕ) (limiter : Option sem.State) (i : ℕ) (permit : Bool) where
    pub interrupted :
        (cs : List Connection) (phase : Phase)
        → (interrupt sem i
              (at n limiter draining cs)
              draining
              phase
              (in_phase n limiter draining i permit tt phase)
            ≡ some (gone n limiter draining i permit tt cs))
        → get_elem? cs i ≡ some (in_phase n limiter draining i permit tt phase)
        → run sem (at n limiter draining cs) (phase_interrupted i ∷ [])
          ≡ some (gone n limiter draining i permit tt cs)
    unfolding run step
    interrupted cs phase over e = after (at n limiter draining cs) _ (phase_interrupted i) [] (
        open_connection (λ c. interrupt sem i (at n limiter draining cs) draining c.phase c)
          draining cs i _ tt e
        ∙ over)

    pub request_interrupted :
        (cs : List Connection)
        → get_elem? cs i ≡ some (in_phase n limiter draining i permit tt negotiating)
        → run sem (at n limiter draining cs) (phase_completed i ∷ phase_interrupted i ∷ [])
          ≡ some (gone n limiter draining i permit tt cs)
    request_interrupted cs e =
        completes_here n limiter draining i permit tt cs negotiating (phase_interrupted i ∷ []) e
        ∙ interrupted (moved_on n limiter draining i permit tt cs requesting) requesting refl
            (found_again n limiter draining i permit tt cs negotiating requesting e)
        ∙ gone-moved_on n limiter draining i permit tt cs requesting
