-- ===== src/Proxy/Server/Permits.antt =====
-- The permits of `Listener::run` of noxen-proxy/src/server/mod.rs.
use zc_splice_proxy.Base.{
  arith, All, Bool, Bool-cases, List, Option, false, inl, inr, length, ltb, none, some, true, ℕ,
  ◌+◌, ◌≡◌, All-append, All-get_elem?, All-remove_at, All-set, Option-cases, [], get_elem?,
  get_elem?-lt-length, length-append, length-remove_at, length-set, refl, remove_at, set, subst,
  ◌++◌, ◌∷◌, ◌<◌, ◌≤◌, suc, ◌⊎◌, ltb→lt, sym,
}
use zc_splice_proxy.Proxy.Config.{ServerConfig}
use zc_splice_proxy.Proxy.Server.Semaphore.{Semaphore, SemaphoreLaws}
use zc_splice_proxy.Proxy.Server.Moves.{
  Takes, unlimited, granted, Move, takes, accepts, leaves_waiting, leaves_accepting,
  fails_to_accept, goes_on, ends, completes, times_out, run_ind,
}
use zc_splice_proxy.Proxy.Server.Listener.{
  Phase, negotiating, Connection, Stage, acquiring, accepting, draining, closed, Event,
  permit_acquired, accepted, Server, start, and_then, drop_permit, take_permit, and_then, run,
}

-- A loop that holds a permit holds a real one exactly if there are any.
abbrev Holds : Bool → Stage → Type 0
Holds flag (accepting permit) = permit ≡ flag
Holds flag _ = Unit {0}

abbrev held : Stage → ℕ
held (accepting permit) = 1
held _ = 0

module _ (sem : Semaphore) (laws : SemaphoreLaws sem) where
  -- Of `n` permits each is available, with a connection or with the loop; without a limit there are
  -- no permits.
  abbrev pub Accounted : ℕ → Option sem.State → Stage → List Connection → Type 0
  Accounted n (some st) stage connections =
      (sem.available st + length connections + held stage ≡ n)
      × Holds true stage
      × All (λ c. c.permit ≡ true) connections
      × (0 < n)
  Accounted n none stage connections =
      (n ≡ 0) × Holds false stage × All (λ c. c.permit ≡ false) connections

  abbrev pub Inv : ℕ → Server sem → Type 0
  Inv n s = Accounted n s.limit_connections s.stage s.connections

  pub start-Inv : (config : ServerConfig) → Inv config.max_connections (start sem config)
  unfolding start
  start-Inv config = elim (Bool-cases (ltb 0 config.max_connections)) [
    | inl e ↦ rw e (
      omega (arith, laws.available-new config.max_connections),
      tt,
      tt,
      ltb→lt 0 config.max_connections e,
    )
    | inr e ↦ rw e (ground (arith, e), tt, tt)
  ]

  -- A task ends: its permit is dropped with it.
  finish-Inv :
      (n i : ℕ) (c : Connection) (limiter : Option sem.State) (stage : Stage) (cs : List Connection)
      → get_elem? cs i ≡ some c
      → Accounted n limiter stage cs
      → Accounted n (drop_permit sem c.permit limiter) stage (remove_at i cs)
  finish-Inv n i c (some st) stage cs e h = rw (All-get_elem? (λ d. d.permit ≡ true) cs i c h.2 e) (
    omega (
      arith,
      h.0,
      laws.available-release st,
      length-remove_at i cs (get_elem?-lt-length cs i c e),
    ),
    h.1,
    All-remove_at _ cs i h.2,
    h.3,
  )
  finish-Inv n i c none stage cs e h =
      rw (All-get_elem? (λ d. d.permit ≡ false) cs i c h.2 e) (h.0, h.1, All-remove_at _ cs i h.2)

  set-Inv :
      (n i : ℕ) (c : Connection) (phase : Phase) (limiter : Option sem.State) (stage : Stage)
      (cs : List Connection)
      → get_elem? cs i ≡ some c
      → Accounted n limiter stage cs
      → Accounted n limiter stage (set cs i (record c { phase = phase }))
  set-Inv n i c phase (some st) stage cs e h = (
    omega (arith, h.0, length-set cs i (record c { phase = phase })),
    h.1,
    All-set (λ d. d.permit ≡ true) cs i _ (All-get_elem? (λ d. d.permit ≡ true) cs i c h.2 e) h.2,
    h.3,
  )
  set-Inv n i c phase none stage cs e h = (
    h.0,
    h.1,
    All-set (λ d. d.permit ≡ false) cs i _ (All-get_elem? (λ d. d.permit ≡ false) cs i c h.2 e) h.2,
  )

  -- The loop is left: the permit that it holds is dropped.
  leave-Inv :
      (n : ℕ) (permit : Bool) (limiter : Option sem.State) (cs : List Connection)
      → Accounted n limiter (accepting permit) cs
      → Accounted n (drop_permit sem permit limiter) draining cs
  leave-Inv n true (some st) cs h = (omega (arith, h.0, laws.available-release st), tt, h.2, h.3)
  leave-Inv n false (some st) cs h = absurd (cc h.1)
  leave-Inv n permit none cs h = rw h.1 (h.0, tt, h.2)

  accept-Inv :
      (n : ℕ) (permit : Bool) (limiter : Option sem.State) (cs : List Connection)
      → Accounted n limiter (accepting permit) cs
      → Accounted n limiter acquiring (cs ++ (record { phase = negotiating; permit = permit } ∷ []))
  accept-Inv n permit (some st) cs h = (
    omega (arith, h.0, length-append cs (record { phase = negotiating; permit = permit } ∷ [])),
    tt,
    All-append _ cs _ h.2 (h.1, tt),
    h.3,
  )
  accept-Inv n permit none cs h = (h.0, tt, All-append _ cs _ h.2 (h.1, tt))

  -- A change between stages in which the loop holds nothing.
  quiet-Inv :
      (n : ℕ) (limiter : Option sem.State) (stage stage' : Stage) (cs : List Connection)
      → held stage ≡ held stage'
      → ((flag : Bool) → Holds flag stage')
      → Accounted n limiter stage cs
      → Accounted n limiter stage' cs
  quiet-Inv n (some st) stage stage' cs e holds h = (omega (arith, h.0, e), holds true, h.2, h.3)
  quiet-Inv n none stage stage' cs e holds h = (h.0, holds false, h.2)

  take-Inv :
      (n : ℕ) {limiter limiter' : Option sem.State} {permit : Bool} (cs : List Connection)
      → Takes sem limiter limiter' permit
      → Accounted n limiter acquiring cs
      → Accounted n limiter' (accepting permit) cs
  take-Inv n cs unlimited h = (h.0, refl, h.2)
  take-Inv n cs (granted {st} {st'} got) h =
      (omega (arith, h.0, laws.available-acquire st st' got), refl, h.2, h.3)

  pub Move-Inv :
      (n : ℕ) {event : Event} {limiter limiter' : Option sem.State} {stage stage' : Stage}
      {cs cs' : List Connection} {senders senders' : ℕ}
      → Move sem event limiter stage cs senders limiter' stage' cs' senders'
      → Accounted n limiter stage cs
      → Accounted n limiter' stage' cs'
  Move-Inv n (takes {cs} g) h = take-Inv n cs g h
  Move-Inv n (accepts {limiter} {cs} {permit}) h = accept-Inv n permit limiter cs h
  Move-Inv n (leaves_waiting {limiter} {cs}) h =
      quiet-Inv n limiter acquiring draining cs refl (λ f. tt) h
  Move-Inv n (leaves_accepting {limiter} {cs} {permit}) h = leave-Inv n permit limiter cs h
  Move-Inv n (fails_to_accept {limiter} {cs} {permit}) h = leave-Inv n permit limiter cs h
  Move-Inv n (goes_on {limiter} {stage} {cs} i c phase open_stage found) h =
      set-Inv n i c phase limiter stage cs found h
  Move-Inv n (ends {limiter} {stage} {cs} i c open_stage found how) h =
      finish-Inv n i c limiter stage cs found h
  Move-Inv n (completes {limiter} {cs}) h =
      quiet-Inv n limiter draining (closed true) cs refl (λ f. tt) h
  Move-Inv n (times_out {limiter} {cs}) h =
      quiet-Inv n limiter draining (closed false) cs refl (λ f. tt) h

  pub run-Inv :
      (n : ℕ) (s t : Server sem) (events : List Event)
      → run sem s events ≡ some t
      → Inv n s
      → Inv n t
  run-Inv n s t events e h = run_ind sem (Inv n) (λ event s t m. Move-Inv n m) s t events e h

  -- However many clients come and whatever becomes of them, there are never more connections than
  -- the configuration allows, if it sets a limit and a permit is a unit of what the semaphore has.
  pub connections-limit :
      (config : ServerConfig) (events : List Event) (s : Server sem)
      → 0 < config.max_connections
      → run sem (start sem config) events ≡ some s
      → length s.connections ≤ config.max_connections
  connections-limit config events s h e =
      limited s.limit_connections
        (run-Inv config.max_connections (start sem config) s events e (start-Inv config))
    where
      limited :
          (limiter : Option sem.State)
          → Accounted config.max_connections limiter s.stage s.connections
          → length s.connections ≤ config.max_connections
      limited (some st) inv = omega (arith, inv.0)
      limited none inv = absurd (omega (arith, inv.0))

  -- The state after one more connection was accepted.
  abbrev pub Accepts : Server sem → Type 0
  Accepts s =
      (t : Server sem) × (run sem s (permit_acquired ∷ accepted ∷ []) ≡ some t)
      × (length t.connections ≡ suc (length s.connections))

  Accepts-from :
      (n : ℕ) (limiter : Option sem.State) (cs : List Connection) (senders : ℕ)
      → (n ≡ 0) ⊎ (length cs < n)
      → Accounted n limiter acquiring cs
      → Accepts (record {
        limit_connections = limiter;
        stage = acquiring;
        connections = cs;
        shutdown_complete = senders;
      })
  unfolding run
  Accepts-from n none cs senders room h = (
    _,
    refl,
    omega (arith, length-append cs (record { phase = negotiating; permit = false } ∷ [])),
  )
  Accepts-from n (some st) cs senders room h = elim (Option-cases (sem.acquire st)) [
    | inl waits ↦ absurd (full room waits)
    | inr (st', got) ↦ (
      record {
        limit_connections = some st';
        stage = acquiring;
        connections = cs ++ (record { phase = negotiating; permit = true } ∷ []);
        shutdown_complete = suc senders;
      },
      rw (and_then, take_permit, got) refl,
      omega (arith, length-append cs (record { phase = negotiating; permit = true } ∷ [])),
    )
  ]
    where
      full : (n ≡ 0) ⊎ (length cs < n) → sem.acquire st ≡ none → ⊥
      full (inl none_at_all) waits = omega (arith, h.3)
      full (inr room) waits = omega (arith, h.0, laws.available_waits st waits)

  -- No permit is lost: whenever the loop is at its head and there are fewer connections than the
  -- limit, or no limit is set, the next client is accepted, if a permit is a unit of what the
  -- semaphore has and is handed out whenever there is one.
  pub Accepts-again :
      (config : ServerConfig) (events : List Event) (s : Server sem)
      → run sem (start sem config) events ≡ some s
      → s.stage ≡ acquiring
      → (config.max_connections ≡ 0) ⊎ (length s.connections < config.max_connections)
      → Accepts s
  Accepts-again config events s e waiting room =
      subst (λ stage. Accepts (record s { stage = stage })) (sym waiting)
        (Accepts-from config.max_connections s.limit_connections s.connections s.shutdown_complete
          room
          (subst (λ stage. Accounted config.max_connections s.limit_connections stage s.connections)
            waiting
            (run-Inv config.max_connections (start sem config) s events e (start-Inv config))))
