-- ===== src/Proxy/Server/Moves.antt =====
-- The moves of the server of noxen-proxy/src/server/mod.rs: `step` by what it changes.
use zc_splice_proxy.Base.{
  Bool, List, Option, Option-cases, [], false, get_elem?, inl, inr, none, remove_at, set, some,
  some-injective, subst, true, ℕ, ◌++◌, ◌∷◌, ◌≡◌, refl, suc, sym, zero,
}
use zc_splice_proxy.Std.Io.{IoError}
use zc_splice_proxy.Proxy.Server.Semaphore.{Semaphore}
use zc_splice_proxy.Proxy.Server.Listener.{
  Phase, negotiating, requesting, relaying, Connection, Stage, acquiring, accepting, draining,
  closed, Event, permit_acquired, accepted, accept_failed, shutdown_received, phase_completed,
  phase_failed, phase_panicked, phase_interrupted, connections_completed, shutdown_timed_out,
  Server, drop_permit, drop_sender, take_permit, finish, complete, interrupt, of_connection, step,
  and_then, run,
}

-- `run` has not returned.
abbrev pub IsOpen : Stage → Type 0
IsOpen (closed graceful) = ⊥
IsOpen acquiring = Unit {0}
IsOpen (accepting permit) = Unit {0}
IsOpen draining = Unit {0}

module _ (sem : Semaphore) where
  pub data Takes : Option sem.State → Option sem.State → Bool → Type 0 where
    unlimited : Takes none none false
    granted : {st st' : sem.State} → sem.acquire st ≡ some st' → Takes (some st) (some st') true

  -- How a task comes to its end: a phase completes, fails or panics, or is interrupted while the
  -- server drains.
  pub data EndsBy (i : ℕ) : Stage → Event → Type 0 where
    completion : {stage : Stage} → EndsBy i stage (phase_completed i)
    failure : {stage : Stage} → EndsBy i stage (phase_failed i)
    panic : {stage : Stage} → EndsBy i stage (phase_panicked i)
    interruption : EndsBy i draining (phase_interrupted i)

  -- At an event, from a limiter, a stage, connections and a number of senders to others.
  pub data Move
      : Event
        → Option sem.State
        → Stage
        → List Connection
        → ℕ
        → Option sem.State
        → Stage
        → List Connection
        → ℕ
        → Type 0 where
    takes :
        {limiter limiter' : Option sem.State} {cs : List Connection} {n : ℕ} {permit : Bool}
        → Takes limiter limiter' permit
        → Move permit_acquired limiter acquiring cs n limiter' (accepting permit) cs n
    accepts :
        {limiter : Option sem.State} {cs : List Connection} {n : ℕ} {permit : Bool}
        → Move accepted limiter
            (accepting permit)
            cs
            n
            limiter
            acquiring
            (cs ++ (record { phase = negotiating; permit = permit } ∷ []))
            (suc n)
    leaves_waiting :
        {limiter : Option sem.State} {cs : List Connection} {n : ℕ}
        → Move shutdown_received limiter acquiring cs n limiter draining cs (drop_sender n)
    leaves_accepting :
        {limiter : Option sem.State} {cs : List Connection} {n : ℕ} {permit : Bool}
        → Move shutdown_received limiter
            (accepting permit)
            cs
            n
            (drop_permit sem permit limiter)
            draining
            cs
            (drop_sender n)
    fails_to_accept :
        {limiter : Option sem.State} {cs : List Connection} {n : ℕ} {permit : Bool} {e : IoError}
        → Move
            (accept_failed e)
            limiter
            (accepting permit)
            cs
            n
            (drop_permit sem permit limiter)
            draining
            cs
            (drop_sender n)
    goes_on :
        {limiter : Option sem.State} {stage : Stage} {cs : List Connection} {n : ℕ} (i : ℕ)
        (c : Connection) (phase : Phase)
        → IsOpen stage
        → get_elem? cs i ≡ some c
        → Move
            (phase_completed i)
            limiter
            stage
            cs
            n
            limiter
            stage
            (set cs i (record c { phase = phase }))
            n
    ends :
        {limiter : Option sem.State} {stage : Stage} {cs : List Connection} {n : ℕ} {event : Event}
        (i : ℕ) (c : Connection)
        → IsOpen stage
        → get_elem? cs i ≡ some c
        → EndsBy i stage event
        → Move event limiter stage cs n
            (drop_permit sem c.permit limiter)
            stage
            (remove_at i cs)
            (drop_sender n)
    completes :
        {limiter : Option sem.State} {cs : List Connection}
        → Move connections_completed limiter draining cs 0 limiter (closed true) cs 0
    times_out :
        {limiter : Option sem.State} {cs : List Connection} {n : ℕ}
        → Move shutdown_timed_out limiter draining cs (suc n) limiter (closed false) cs (suc n)

  abbrev pub Moves : Event → Server sem → Server sem → Type 0
  Moves event s t =
      Move event s.limit_connections s.stage s.connections s.shutdown_complete t.limit_connections
        t.stage t.connections t.shutdown_complete

  abbrev at : Option sem.State → Stage → List Connection → ℕ → Server sem
  at limiter stage cs n = record {
    limit_connections = limiter;
    stage = stage;
    connections = cs;
    shutdown_complete = n;
  }

  moved : (event : Event) (s t u : Server sem) → some t ≡ some u → Moves event s t → Moves event s u
  moved event s t u e m = subst (Moves event s) (some-injective e) m

  take-Moves :
      (limiter : Option sem.State) (cs : List Connection) (n : ℕ) (t : Server sem)
      → take_permit sem (at limiter acquiring cs n) ≡ some t
      → Moves permit_acquired (at limiter acquiring cs n) t
  take-Moves none cs n t e = moved _ _ _ t e (takes unlimited)
  take-Moves (some st) cs n t e = elim (Option-cases (sem.acquire st)) [
    | inl waits ↦ absurd (cc (rw (take_permit, waits) at e))
    | inr (st', got) ↦
        moved _ (at (some st) acquiring cs n) _ t (rw (take_permit, got) at e) (takes (granted got))
  ]

  of_connection_lem :
      (f : Connection → Option (Server sem)) (stage : Stage) (c : Option Connection)
      (t : Server sem)
      → of_connection sem f stage c ≡ some t
      → (d : Connection) × IsOpen stage × (c ≡ some d) × (f d ≡ some t)
  of_connection_lem f (closed graceful) c t e = absurd cc
  of_connection_lem f acquiring none t e = absurd cc
  of_connection_lem f (accepting permit) none t e = absurd cc
  of_connection_lem f draining none t e = absurd cc
  of_connection_lem f acquiring (some c) t e = (c, tt, refl, e)
  of_connection_lem f (accepting permit) (some c) t e = (c, tt, refl, e)
  of_connection_lem f draining (some c) t e = (c, tt, refl, e)

  complete-Moves :
      (i : ℕ) (phase : Phase) (permit : Bool) (s t : Server sem)
      → IsOpen s.stage
      → get_elem? s.connections i ≡ some (record { phase = phase; permit = permit })
      → some (complete sem i (record { phase = phase; permit = permit }) s) ≡ some t
      → Moves (phase_completed i) s t
  complete-Moves i negotiating permit s t o found e =
      moved _ s _ t e (goes_on i _ requesting o found)
  complete-Moves i requesting permit s t o found e = moved _ s _ t e (goes_on i _ relaying o found)
  complete-Moves i relaying permit s t o found e = moved _ s _ t e (ends i _ o found completion)

  interrupted :
      (i : ℕ) (s : Server sem) (c : Connection)
      → s.stage ≡ draining
      → get_elem? s.connections i ≡ some c
      → Moves (phase_interrupted i) s (finish sem i c s)
  interrupted i s c is found =
      subst
        (λ stage.
          Move (phase_interrupted i) s.limit_connections stage s.connections s.shutdown_complete
            (drop_permit sem c.permit s.limit_connections) stage (remove_at i s.connections)
            (drop_sender s.shutdown_complete))
        (sym is) (ends i c tt found interruption)

  interrupt-Moves :
      (i : ℕ) (s t : Server sem) (stage : Stage) (phase : Phase) (c : Connection)
      → s.stage ≡ stage
      → get_elem? s.connections i ≡ some c
      → interrupt sem i s stage phase c ≡ some t
      → Moves (phase_interrupted i) s t
  interrupt-Moves i s t draining negotiating c is found e =
      moved _ s _ t e (interrupted i s c is found)
  interrupt-Moves i s t draining requesting c is found e =
      moved _ s _ t e (interrupted i s c is found)
  interrupt-Moves i s t draining relaying c is found e = absurd cc
  interrupt-Moves i s t acquiring phase c is found e = absurd cc
  interrupt-Moves i s t (accepting permit) phase c is found e = absurd cc
  interrupt-Moves i s t (closed graceful) phase c is found e = absurd cc

  -- The loop and the end of `run`, by where they stand.
  loop-Moves :
      (limiter : Option sem.State) (stage : Stage) (cs : List Connection) (n : ℕ) (t : Server sem)
      (event : Event)
      → step sem (at limiter stage cs n) event ≡ some t
      → Moves event (at limiter stage cs n) t
  unfolding step
  loop-Moves limiter acquiring cs n t permit_acquired e = take-Moves limiter cs n t e
  loop-Moves limiter acquiring cs n t shutdown_received e = moved _ _ _ t e leaves_waiting
  loop-Moves limiter (accepting permit) cs n t accepted e = moved _ _ _ t e accepts
  loop-Moves limiter (accepting permit) cs n t (accept_failed x) e = moved _ _ _ t e fails_to_accept
  loop-Moves limiter (accepting permit) cs n t shutdown_received e =
      moved _ _ _ t e leaves_accepting
  loop-Moves limiter draining cs zero t connections_completed e = moved _ _ _ t e completes
  loop-Moves limiter draining cs (suc n) t shutdown_timed_out e = moved _ _ _ t e times_out
  loop-Moves limiter stage cs n t (phase_completed i) e =
      let (c, o, found, done) =
        of_connection_lem (λ c. some (complete sem i c (at limiter stage cs n))) stage
          (get_elem? cs i) t e in
      complete-Moves i c.phase c.permit (at limiter stage cs n) t o found done
  loop-Moves limiter stage cs n t (phase_failed i) e =
      let (c, o, found, done) =
        of_connection_lem (λ c. some (finish sem i c (at limiter stage cs n))) stage
          (get_elem? cs i) t e in
      moved _ _ _ t done (ends i c o found failure)
  loop-Moves limiter stage cs n t (phase_panicked i) e =
      let (c, o, found, done) =
        of_connection_lem (λ c. some (finish sem i c (at limiter stage cs n))) stage
          (get_elem? cs i) t e in
      moved _ _ _ t done (ends i c o found panic)
  loop-Moves limiter stage cs n t (phase_interrupted i) e =
      let (c, o, found, done) =
        of_connection_lem (λ c. interrupt sem i (at limiter stage cs n) stage c.phase c) stage
          (get_elem? cs i) t e in
      interrupt-Moves i (at limiter stage cs n) t stage c.phase c refl found done
  loop-Moves limiter (accepting permit) cs n t permit_acquired e = absurd cc
  loop-Moves limiter draining cs n t permit_acquired e = absurd cc
  loop-Moves limiter (closed graceful) cs n t permit_acquired e = absurd cc
  loop-Moves limiter acquiring cs n t accepted e = absurd cc
  loop-Moves limiter draining cs n t accepted e = absurd cc
  loop-Moves limiter (closed graceful) cs n t accepted e = absurd cc
  loop-Moves limiter acquiring cs n t (accept_failed x) e = absurd cc
  loop-Moves limiter draining cs n t (accept_failed x) e = absurd cc
  loop-Moves limiter (closed graceful) cs n t (accept_failed x) e = absurd cc
  loop-Moves limiter draining cs n t shutdown_received e = absurd cc
  loop-Moves limiter (closed graceful) cs n t shutdown_received e = absurd cc
  loop-Moves limiter acquiring cs n t connections_completed e = absurd cc
  loop-Moves limiter (accepting permit) cs n t connections_completed e = absurd cc
  loop-Moves limiter draining cs (suc n) t connections_completed e = absurd cc
  loop-Moves limiter (closed graceful) cs n t connections_completed e = absurd cc
  loop-Moves limiter acquiring cs n t shutdown_timed_out e = absurd cc
  loop-Moves limiter (accepting permit) cs n t shutdown_timed_out e = absurd cc
  loop-Moves limiter draining cs zero t shutdown_timed_out e = absurd cc
  loop-Moves limiter (closed graceful) cs n t shutdown_timed_out e = absurd cc

  pub step-Moves : (s t : Server sem) (event : Event) → step sem s event ≡ some t → Moves event s t
  step-Moves s t event e =
      loop-Moves s.limit_connections s.stage s.connections s.shutdown_complete t event e

  -- What every move keeps, a run keeps.
  pub run_ind :
      (P : Server sem → Type 0)
      → ((event : Event) (s t : Server sem) → Moves event s t → P s → P t)
      → (s t : Server sem) (events : List Event) → run sem s events ≡ some t
      → P s
      → P t
  unfolding run
  run_ind P keeps s t [] e h = subst P (some-injective e) h
  run_ind P keeps s t (event ∷ events) e h = elim (Option-cases (step sem s event)) [
    | inl stuck ↦ absurd (cc (rw (and_then, stuck) at e))
    | inr (u, moves) ↦
        run_ind P keeps u t events (rw (and_then, moves) at e)
          (keeps event s u (step-Moves s u event moves) h)
  ]
