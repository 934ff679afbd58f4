-- ===== src/Proxy/Server/Promise.antt =====
-- What the server of noxen-proxy/src/server/mod.rs promises, with its connections only counted.
use zc_splice_proxy.Base.{
  Bool, List, Option, [], arith, false, get_elem?-lt-length, inl, inr, length, length-append,
  length-remove_at, length-set, none, remove_at, some, subst, suc, sym, true, ℕ, ◌<◌, ◌∷◌, ◌≡◌, ◌⊎◌,
  Option-cases, refl, some-injective,
}
use zc_splice_proxy.Proxy.Config.{ServerConfig}
use zc_splice_proxy.Proxy.Server.Semaphore.{Semaphore, SemaphoreLaws}
use zc_splice_proxy.Proxy.Server.Moves.{
  IsOpen, EndsBy, completion, failure, panic, interruption, step-Moves, Move, takes, accepts,
  leaves_waiting, leaves_accepting, fails_to_accept, goes_on, ends, completes, times_out,
}
use zc_splice_proxy.Proxy.Server.Permits.{Inv, Accounted, start-Inv, Move-Inv}
use zc_splice_proxy.Std.Io.{IoError}
use zc_splice_proxy.Proxy.Server.Senders.{Owned, Move-Owned}
use zc_splice_proxy.Proxy.Server.Listener.{
  Connection, Stage, acquiring, accepting, draining, closed, Event, permit_acquired, accepted,
  accept_failed, shutdown_received, phase_completed, phase_failed, phase_panicked,
  phase_interrupted, connections_completed, shutdown_timed_out, Server, start, run, step, and_then,
  negotiating,
}

pub data Service : Type 0 where
  serving shutting_down : Service
  over : (graceful : Bool) → Service

abbrev pub IsRunning : Service → Type 0
IsRunning serving = Unit {0}
IsRunning shutting_down = Unit {0}
IsRunning (over graceful) = ⊥

-- At each event: clients come only while the server serves, and only below the limit, if there is one (it
-- is not 0); a shutdown, or an error of the listener, ends that and lets nobody in or out; a client may
-- leave when its phase completes, fails or panics, and is cut short only while the server shuts
-- down; the end is graceful exactly if nobody is left.
pub data Promise (limit : ℕ) : Event → Service → ℕ → Service → ℕ → Type 0 where
  may_come : {n : ℕ} → Promise limit permit_acquired serving n serving n
  comes : {n : ℕ} → (limit ≡ 0) ⊎ (n < limit) → Promise limit accepted serving n serving (suc n)
  none_come : {n : ℕ} {e : IoError} → Promise limit (accept_failed e) serving n shutting_down n
  shuts_down : {n : ℕ} → Promise limit shutdown_received serving n shutting_down n
  stays :
      {service : Service} {n : ℕ} (i : ℕ)
      → IsRunning service
      → i < n
      → Promise limit (phase_completed i) service n service n
  leaves :
      {service : Service} {n : ℕ} (i : ℕ)
      → IsRunning service
      → i < suc n
      → Promise limit (phase_completed i) service (suc n) service n
  fails :
      {service : Service} {n : ℕ} (i : ℕ)
      → IsRunning service
      → i < suc n
      → Promise limit (phase_failed i) service (suc n) service n
  panics :
      {service : Service} {n : ℕ} (i : ℕ)
      → IsRunning service
      → i < suc n
      → Promise limit (phase_panicked i) service (suc n) service n
  cut_short :
      {n : ℕ} (i : ℕ)
      → i < suc n
      → Promise limit (phase_interrupted i) shutting_down (suc n) shutting_down n
  ends_well : Promise limit connections_completed shutting_down 0 (over true) 0
  gives_up : {n : ℕ} → Promise limit shutdown_timed_out shutting_down (suc n) (over false) (suc n)

abbrev pub service : Stage → Service
service acquiring = serving
service (accepting permit) = serving
service draining = shutting_down
service (closed graceful) = over graceful

IsRunning-service : (stage : Stage) → IsOpen stage → IsRunning (service stage)
IsRunning-service acquiring o = tt
IsRunning-service (accepting permit) o = tt
IsRunning-service draining o = tt
IsRunning-service (closed graceful) o = absurd o

-- What a task's end is, seen from outside.
EndsBy-Promise :
    (sem : Semaphore) (limit : ℕ) {event : Event} {stage : Stage} (i n : ℕ)
    → IsOpen stage
    → i < suc n
    → EndsBy sem i stage event
    → Promise limit event (service stage) (suc n) (service stage) n
EndsBy-Promise sem limit i n o h (completion {stage}) = leaves i (IsRunning-service stage o) h
EndsBy-Promise sem limit i n o h (failure {stage}) = fails i (IsRunning-service stage o) h
EndsBy-Promise sem limit i n o h (panic {stage}) = panics i (IsRunning-service stage o) h
EndsBy-Promise sem limit i n o h interruption = cut_short i h

module _ (sem : Semaphore) (laws : SemaphoreLaws sem) (limit : ℕ) where
  -- With a permit in hand there is room for one more connection.
  room :
      (limiter : Option sem.State) (permit : Bool) (cs : List Connection)
      → Accounted sem laws limit limiter (accepting permit) cs
      → (limit ≡ 0) ⊎ (length cs < limit)
  room (some st) permit cs h = inr (omega (arith, h.0))
  room none permit cs h = inl h.0

  Move-Promise :
      {event : Event} {limiter limiter' : Option sem.State} {stage stage' : Stage}
      {cs cs' : List Connection} {senders senders' : ℕ}
      → Move sem event limiter stage cs senders limiter' stage' cs' senders'
      → Accounted sem laws limit limiter stage cs
      → Owned stage cs senders
      → Promise limit event (service stage) (length cs) (service stage') (length cs')
  Move-Promise (takes g) h own = may_come
  Move-Promise (accepts {limiter} {cs} {permit}) h own =
      subst (Promise limit accepted serving (length cs) serving)
        (omega (arith, length-append cs (record { phase = negotiating; permit = permit } ∷ [])))
        (comes (room limiter permit cs h))
  Move-Promise leaves_waiting h own = shuts_down
  Move-Promise leaves_accepting h own = shuts_down
  Move-Promise fails_to_accept h own = none_come
  Move-Promise (goes_on {stage} {cs} i c phase o found) h own =
      subst (Promise limit (phase_completed i) (service stage) (length cs) (service stage))
        (sym (length-set cs i (record c { phase = phase })))
        (stays i (IsRunning-service stage o) (get_elem?-lt-length cs i c found))
  Move-Promise (ends {stage} {cs} {event} i c o found how) h own =
      let here = get_elem?-lt-length cs i c found in
      let one_less = length-remove_at i cs here in
      subst (λ n. Promise limit event (service stage) n (service stage) (length (remove_at i cs)))
        one_less
        (EndsBy-Promise sem limit i (length (remove_at i cs)) o (omega (arith, here, one_less)) how)
  Move-Promise (completes {cs}) h own =
      subst (λ n. Promise limit connections_completed shutting_down n (over true) n) own ends_well
  Move-Promise (times_out {cs}) h own =
      subst (λ n. Promise limit shutdown_timed_out shutting_down n (over false) n) own gives_up

  -- A run all of whose steps are promised ones, with the connections only counted.
  pub data Kept : Server sem → List Event → Server sem → Type 0 where
    rests : {s : Server sem} → Kept s [] s
    then :
        {s u t : Server sem} {event : Event} {events : List Event}
        → step sem s event ≡ some u
        → Promise limit event
            (service s.stage)
            (length s.connections)
            (service u.stage)
            (length u.connections)
        → Kept u events t
        → Kept s (event ∷ events) t

  abbrev IsSound : Server sem → Type 0
  IsSound s = Inv sem laws limit s × Owned s.stage s.connections s.shutdown_complete

  keeps :
      (s t : Server sem) (events : List Event)
      → run sem s events ≡ some t
      → IsSound s
      → Kept s events t
  unfolding run
  keeps s t [] e h = subst (Kept s []) (some-injective e) rests
  keeps s t (event ∷ events) e h = elim (Option-cases (step sem s event)) [
    | inl stuck ↦ absurd (cc (rw (and_then, stuck) at e))
    | inr (u, is) ↦
        let move = step-Moves sem s u event is in
        then is (Move-Promise move h.0 h.1) (
          keeps u t events (rw (and_then, is) at e)
            (Move-Inv sem laws limit move h.0, Move-Owned sem move h.1))
  ]

module _ (sem : Semaphore) (laws : SemaphoreLaws sem) where
  -- Seen with its connections only counted, the server makes at each event of a run the step that it
  -- promises for that event and no other: a client comes only while it serves and below the limit, if
  -- there is one, and none after a shutdown; a connection is cut short only while it shuts down; its
  -- end is graceful only if nobody is left, and forced only if somebody is, if a permit is a unit of
  -- what the semaphore has.
  pub run-Kept :
      (config : ServerConfig) (events : List Event) (s : Server sem)
      → run sem (start sem config) events ≡ some s
      → Kept sem laws config.max_connections (start sem config) events s
  run-Kept config events s e =
      keeps sem laws config.max_connections (start sem config) s events e
        (start-Inv sem laws config, unfold start in refl)
